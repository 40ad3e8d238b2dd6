-- ===== src/Submission/Receipts.antt =====
-- submission/artifact_submitter.py: what a receipt says of what was sent.
use discovery_net.Base.{
  suc, ◌+◌, true, false, not, ◌≡◌, sym, ap, ◌∙◌, List, [], ◌∷◌, ◌==◌, ==_iff, length, replicate,
  arith,
}
use discovery_net.Base.Result.{
  Result, ok, value_error, submission_error, require, map_m, >>=-eq-ok, ok-injective, ◌>>=◌, ◌>>◌,
}
use discovery_net.Base.Text.{Str, Bytes, text_eq, hex}
use discovery_net.Graph.Models.{ArtifactRef, Contribution, contribution}
use discovery_net.Wire.Envelope.{
  SignedEnvelope, SignedTransaction, new_transaction, signer_public_key,
}
use discovery_net.Wire.Limits.{exceeds_encoded_size, exceeds_artifact_count}
use discovery_net.Wire.External.{External}
use discovery_net.Wire.Codec.{artifact_ref, encode_transaction}
use discovery_net.Wire.Signing.{sign_artifact, sign_transaction, transaction_signature_message}
use discovery_net.Submission.{
  AttachedRelation, BroadcastResponse, RpcClient, SubmissionReceipt, new_receipt, upper,
  require_artifact_count, receipt_of, submit, relation_envelope, submit_contribution,
}

length-map_m {ℓ κ} :
    {A : Type ℓ} {B : Type κ} (f : A → Result B) (xs : List A) (ys : List B)
    → map_m f xs ≡ ok ys
    → length ys ≡ length xs
length-map_m f [] ys h = ap length (sym (ok-injective h))
length-map_m f (x ∷ xs) ys h =
    let (y, first, rest) = >>=-eq-ok (f x) (λ y. map_m f xs >>= λ l. ok (y ∷ l)) h in
    let (l, others, same) = >>=-eq-ok (map_m f xs) (λ l. ok (y ∷ l)) rest in
    ap length (sym (ok-injective same)) ∙ ap suc (length-map_m f xs l others)

-- The receipt is that of the transaction, as it was broadcast within the limits.
pub record IsReceiptOf ⦃ext : External⦄ (rpc : RpcClient) (t : SignedTransaction)
    (receipt : SubmissionReceipt) : Type 0 where
  pub bytes : Bytes
  pub response : BroadcastResponse
  pub encoded : encode_transaction t ≡ ok bytes
  pub few : exceeds_artifact_count (length t.envelopes) ≡ false
  pub fits : exceeds_encoded_size bytes ≡ false
  pub sent : rpc.broadcast_transaction bytes ≡ ok response
  pub hash : receipt.transaction_hash ≡ upper (hex (ext.sha256 bytes))
  pub code : receipt.check_tx_code ≡ response.check_tx_code
  pub references : map_m artifact_ref t.envelopes ≡ ok receipt.artifact_refs

module _ ⦃ext : External⦄ (rpc : RpcClient) (private_key : Bytes) where
  abbrev receipt_with : BroadcastResponse → List ArtifactRef → SubmissionReceipt
  receipt_with response l = record {
    artifact_refs = l;
    transaction_hash = response.transaction_hash;
    check_tx_code = response.check_tx_code;
  }

  new_receipt-eq-ok : (r s : SubmissionReceipt) → new_receipt r ≡ ok s → r ≡ s
  unfolding new_receipt
  new_receipt-eq-ok r s h = ground arith

  receipt_of-eq-ok :
      (t : SignedTransaction) (bytes : Bytes) (response : BroadcastResponse)
      (receipt : SubmissionReceipt)
      → receipt_of rpc private_key t bytes response ≡ ok receipt
      → (receipt.transaction_hash ≡ upper (hex (ext.sha256 bytes)))
        × (receipt.check_tx_code ≡ response.check_tx_code)
        × (map_m artifact_ref t.envelopes ≡ ok receipt.artifact_refs)
  unfolding receipt_of
  receipt_of-eq-ok t bytes response receipt h =
      let (_, hashed, rest) =
        >>=-eq-ok
          (require (response.transaction_hash == upper (hex (ext.sha256 bytes))) submission_error)
          (λ _. map_m artifact_ref t.envelopes >>= λ l. new_receipt (receipt_with response l)) h in
      let (l, found, made) =
        >>=-eq-ok (map_m artifact_ref t.envelopes) (λ l. new_receipt (receipt_with response l))
          rest in
      let same = new_receipt-eq-ok (receipt_with response l) receipt made in
      let hash_holds : (response.transaction_hash == upper (hex (ext.sha256 bytes))) ≡ true =
        ground arith in
      (
        ap (λ r. r.transaction_hash) (sym same)
            ∙ (==_iff response.transaction_hash (upper (hex (ext.sha256 bytes)))).0 hash_holds,
        ap (λ r. r.check_tx_code) (sym same),
        found ∙ ap (λ r. ok r.artifact_refs) same,
      )

  submit-IsReceiptOf :
      (t : SignedTransaction) (receipt : SubmissionReceipt)
      → submit rpc private_key t ≡ ok receipt
      → IsReceiptOf rpc t receipt
  unfolding submit require_artifact_count
  submit-IsReceiptOf t receipt h =
      let (bytes, encoded, checks) =
        >>=-eq-ok (encode_transaction t)
          (λ bytes.
            require (not (exceeds_artifact_count (length t.envelopes))) submission_error
            >> (require (not (exceeds_encoded_size bytes)) submission_error
                >> (rpc.broadcast_transaction bytes >>= receipt_of rpc private_key t bytes)))
          h in
      let few : exceeds_artifact_count (length t.envelopes) ≡ false = ground arith in
      let fits : exceeds_encoded_size bytes ≡ false = ground arith in
      let after : (rpc.broadcast_transaction bytes >>= receipt_of rpc private_key t bytes)
          ≡ ok receipt =
        ground arith in
      let (response, sent, received) =
        >>=-eq-ok (rpc.broadcast_transaction bytes) (receipt_of rpc private_key t bytes) after in
      let (hash, code, references) = receipt_of-eq-ok t bytes response receipt received in
      record {
        bytes = bytes;
        response = response;
        encoded = encoded;
        few = few;
        fits = fits;
        sent = sent;
        hash = hash;
        code = code;
        references = references;
      }

  abbrev with_signature : List SignedEnvelope → Bytes → SignedTransaction
  with_signature es signature = record { envelopes = es; signature = signature }

  new_transaction-eq-ok : (u t : SignedTransaction) → new_transaction u ≡ ok t → u ≡ t
  unfolding new_transaction
  new_transaction-eq-ok u t h = ground arith

  sign_transaction-envelopes :
      (es : List SignedEnvelope) (t : SignedTransaction)
      → sign_transaction es private_key ≡ ok t
      → t.envelopes ≡ es
  unfolding sign_transaction
  sign_transaction-envelopes es t h =
      let (unsigned, made, rest) =
        >>=-eq-ok (new_transaction (with_signature es (replicate 64 0)))
          (λ u.
            require (signer_public_key u == ext.public_bytes private_key) value_error
            >> (transaction_signature_message u >>= λ m.
                new_transaction (with_signature es (ext.sign private_key m))))
          h in
      let (_, owned, signing) =
        >>=-eq-ok (require (signer_public_key unsigned == ext.public_bytes private_key) value_error)
          (λ _. transaction_signature_message unsigned >>= λ m.
            new_transaction (with_signature es (ext.sign private_key m)))
          rest in
      let (m, message, signed) =
        >>=-eq-ok (transaction_signature_message unsigned)
          (λ m. new_transaction (with_signature es (ext.sign private_key m))) signing in
      ap (λ u. u.envelopes)
        (sym (new_transaction-eq-ok (with_signature es (ext.sign private_key m)) t signed))

  -- The rest of a submission, after the envelope of the contribution, and from the chain on
  abbrev submit_after :
      Contribution
      → List AttachedRelation
      → Str
      → SignedEnvelope
      → ArtifactRef
      → Result SubmissionReceipt
  submit_after c relations chain_id first reference = do
    others ← map_m (relation_envelope rpc private_key chain_id reference c) relations
    t ← sign_transaction (first ∷ others) private_key
    submit rpc private_key t

  abbrev submit_on : Contribution → List AttachedRelation → Str → Result SubmissionReceipt
  submit_on c relations chain_id = do
    first ← sign_artifact chain_id (contribution c) private_key
    reference ← artifact_ref first
    submit_after c relations chain_id first reference

  -- A contribution that is submitted with its relations and answered by a receipt went out as one
  -- transaction within the limits: an envelope of the contribution, and one for each relation,
  -- signed for the chain that the node named; the receipt has the references of all of them, the
  -- hash of the bytes and the code of the answer.
  pub submit_contribution-IsReceiptOf :
      (c : Contribution) (relations : List AttachedRelation) (receipt : SubmissionReceipt)
      → submit_contribution rpc private_key c relations ≡ ok receipt
      → (t : SignedTransaction) × (chain_id : Str) × (first : SignedEnvelope) × (others : List
          SignedEnvelope)
        × (reference : ArtifactRef) × (rpc.fetch_chain_id ≡ ok chain_id)
        × (sign_artifact chain_id (contribution c) private_key ≡ ok first)
        × (artifact_ref first ≡ ok reference)
        × (map_m (relation_envelope rpc private_key chain_id reference c) relations ≡ ok others)
        × (t.envelopes ≡ first ∷ others)
        × (length receipt.artifact_refs ≡ 1 + length relations)
        × IsReceiptOf rpc t receipt
  unfolding submit_contribution require_artifact_count
  submit_contribution-IsReceiptOf c relations receipt h =
      let (_, counted, start) =
        >>=-eq-ok (require (not (exceeds_artifact_count (1 + length relations))) submission_error)
          (λ _. rpc.fetch_chain_id >>= submit_on c relations) h in
      let (chain_id, named, rest) = >>=-eq-ok rpc.fetch_chain_id (submit_on c relations) start in
      let (first, signed, after_first) =
        >>=-eq-ok (sign_artifact chain_id (contribution c) private_key)
          (λ first. artifact_ref first >>= submit_after c relations chain_id first) rest in
      let (reference, found, after_reference) =
        >>=-eq-ok (artifact_ref first) (submit_after c relations chain_id first) after_first in
      let (others, related, after_others) =
        >>=-eq-ok (map_m (relation_envelope rpc private_key chain_id reference c) relations)
          (λ others. sign_transaction (first ∷ others) private_key >>= submit rpc private_key)
          after_reference in
      let (t, made, sent) =
        >>=-eq-ok (sign_transaction (first ∷ others) private_key) (submit rpc private_key)
          after_others in
      let receipt_of_t = submit-IsReceiptOf t receipt sent in
      let envelopes = sign_transaction-envelopes (first ∷ others) t made in
      let counted_refs =
        length-map_m artifact_ref t.envelopes receipt.artifact_refs receipt_of_t.references
        ∙ ap (λ (l : List SignedEnvelope). length l) envelopes in
      let counted_others =
        length-map_m (relation_envelope rpc private_key chain_id reference c) relations others
          related in
      (
        t,
        chain_id,
        first,
        others,
        reference,
        named,
        signed,
        found,
        related,
        envelopes,
        omega (arith, counted_refs, counted_others),
        receipt_of_t,
      )
