-- ===== src/Tests/Submitting.antt =====
-- A submission to a node that accepts it, and a payload with a time that is not in UTC.
use discovery_net.Base.{some, ◌+◌, ◌≡◌, refl, [], ◌∷◌, List, length, replicate}
use discovery_net.Base.Result.{Result, ok, err, map_m}
use discovery_net.Base.Text.{Str, Bytes, codes}
use discovery_net.Graph.Kinds.{lemma}
use discovery_net.Graph.Time.{Datetime, east, astimezone_utc}
use discovery_net.Graph.Models.{ArtifactRef, Artifact, Contribution, contribution}
use discovery_net.Wire.Envelope.{SignedEnvelope, SignedTransaction, contribution_payload}
use discovery_net.Wire.External.{External}
use discovery_net.Wire.Codec.{artifact_ref}
use discovery_net.Wire.Payload.{encode_payload, decode_payload}
use discovery_net.Wire.Payload.RoundTrip
use discovery_net.Wire.Payload.RoundTrip.{IsConstructed}
use discovery_net.Wire.Signing
use discovery_net.Wire.Signing.{sign_artifact}
use discovery_net.Submission
use discovery_net.Submission.{RpcClient, SubmissionReceipt, submit_contribution, relation_envelope}
use discovery_net.Submission.Receipts
use discovery_net.Submission.Receipts.{IsReceiptOf}
use discovery_net.Tests.Samples.{lemma_text, toy, chain, noon, zeros}
use discovery_net.Tests.Runs.{node_code}

-- A digest of the right length, in place of a hash
abbrev zero_toy : External
zero_toy = record toy { sha256 = λ bytes. replicate 32 0 }

abbrev obliging_node : RpcClient
obliging_node = record {
  fetch_chain_id = ok chain;
  broadcast_transaction = λ bytes. ok (record { transaction_hash = zeros 64; check_tx_code = 0 });
}

abbrev key : Bytes
key = replicate 32 7

abbrev small_lemma : Contribution
small_lemma = record { kind = lemma; title = codes "t"; body = codes "b"; created_at = noon }

abbrev no_receipt : SubmissionReceipt
no_receipt = record { artifact_refs = []; transaction_hash = []; check_tx_code = 1 }

abbrev receipt_or_none : Result SubmissionReceipt → SubmissionReceipt
receipt_or_none (ok r) = r
receipt_or_none (err e) = no_receipt

abbrev small_receipt : SubmissionReceipt
small_receipt =
    receipt_or_none (submit_contribution ⦃ext = zero_toy⦄ obliging_node key small_lemma [])

submit_small_lemma :
    submit_contribution ⦃ext = zero_toy⦄ obliging_node key small_lemma [] ≡ ok small_receipt
unfolding node_code Signing.sign_artifact Signing.sign_transaction Submission.new_receipt
    Submission.require_artifact_count Submission.receipt_of Submission.submit
    Submission.relation_envelope Submission.submit_contribution
submit_small_lemma = refl

submit_contribution-IsReceiptOf_example :
    (t : SignedTransaction) × (chain_id : Str) × (first : SignedEnvelope) × (others : List
      SignedEnvelope)
    × (reference : ArtifactRef) × (obliging_node.fetch_chain_id ≡ ok chain_id)
    × (sign_artifact ⦃ext = zero_toy⦄ chain_id (contribution small_lemma) key ≡ ok first)
    × (artifact_ref ⦃ext = zero_toy⦄ first ≡ ok reference)
    × (map_m
          (relation_envelope ⦃ext = zero_toy⦄ obliging_node key chain_id reference small_lemma)
          []
        ≡ ok others)
    × (t.envelopes ≡ first ∷ others)
    × (length small_receipt.artifact_refs ≡ 1 + 0)
    × IsReceiptOf ⦃ext = zero_toy⦄ obliging_node t small_receipt
submit_contribution-IsReceiptOf_example =
    Receipts.submit_contribution-IsReceiptOf ⦃ext = zero_toy⦄ obliging_node key small_lemma []
      small_receipt submit_small_lemma

-- 13:00 at +01:00, which is noon in UTC
abbrev afternoon : Datetime
afternoon = record noon { second = 46800; offset = some (east 3600) }

abbrev late_lemma : Artifact
late_lemma = contribution (record small_lemma { created_at = afternoon })

late_lemma-IsConstructed : IsConstructed late_lemma
unfolding node_code
late_lemma-IsConstructed = refl

encode_late_lemma : encode_payload late_lemma ≡ ok (contribution_payload, lemma_text)
unfolding node_code
encode_late_lemma = refl

afternoon_at_noon : astimezone_utc afternoon (east 3600) ≡ ok noon
unfolding node_code
afternoon_at_noon = refl

decode_payload-encode_payload_example :
    decode_payload contribution_payload lemma_text ≡ ok (contribution small_lemma)
decode_payload-encode_payload_example =
    RoundTrip.decode_payload-encode_payload late_lemma (east 3600) noon contribution_payload
      lemma_text late_lemma-IsConstructed refl afternoon_at_noon encode_late_lemma refl
