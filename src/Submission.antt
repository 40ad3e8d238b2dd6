-- ===== src/Submission.antt =====
-- submission/: artifact_submitter.py, with the relations and the receipt. The calls of the RPC
-- client, which go over HTTP, are parameters.
pub mod Receipts
use discovery_net.Base.{
  ℕ, ◌+◌, ◌-◌, Bool, true, false, not, ◌&&◌, ◌||◌, List, [], ◌∷◌, Eq, ◌==◌, leb, eqb, all, any,
  length, map, if◌then◌else◌,
}
use discovery_net.Base.Result.{
  Result, ok, err, value_error, submission_error, require, map_m, ◌>>=◌, ◌>>◌,
}
use discovery_net.Base.Text.{Str, Bytes, text_eq, hex, is_empty}
use discovery_net.Graph.Kinds.{RelationKind}
use discovery_net.Graph.Models.{
  ArtifactRef, Contribution, ContributionRelation, Artifact, contribution, relation, new_relation,
}
use discovery_net.Wire.Envelope.{SignedEnvelope, SignedTransaction}
use discovery_net.Wire.Limits.{exceeds_encoded_size, exceeds_artifact_count}
use discovery_net.Wire.External.{External}
use discovery_net.Wire.Codec.{artifact_ref, encode_transaction}
use discovery_net.Wire.Signing.{sign_artifact, sign_transaction}

pub data AttachedRelation : Type 0 where
  incoming_relation : (from_contribution : ArtifactRef) (kind : RelationKind) → AttachedRelation
  outgoing_relation : (to_contribution : ArtifactRef) (kind : RelationKind) → AttachedRelation

-- `IncomingRelation(...)` and `OutgoingRelation(...)`
unfoldable pub new_attached : AttachedRelation → Result AttachedRelation
new_attached (incoming_relation from_contribution kind) = do
  require (not (is_empty from_contribution)) value_error
  ok (incoming_relation from_contribution kind)
new_attached (outgoing_relation to_contribution kind) = do
  require (not (is_empty to_contribution)) value_error
  ok (outgoing_relation to_contribution kind)

pub record BroadcastResponse : Type 0 where
  pub transaction_hash : Str
  pub check_tx_code : ℕ

-- The answers of the node to the two calls
pub record RpcClient : Type 0 where
  pub fetch_chain_id : Result Str
  pub broadcast_transaction : Bytes → Result BroadcastResponse

pub record SubmissionReceipt : Type 0 where
  pub artifact_refs : List ArtifactRef
  pub transaction_hash : Str
  pub check_tx_code : ℕ

abbrev pub max_uint32 : ℕ
max_uint32 = 4294967295

-- A character of "0123456789ABCDEF"
abbrev pub is_upper_hex_digit : ℕ → Bool
is_upper_hex_digit c = (leb b'0' c && leb c b'9') || (leb b'A' c && leb c b'F')

-- `SubmissionReceipt(...)`
unfoldable pub new_receipt : SubmissionReceipt → Result SubmissionReceipt
new_receipt r = do
  require (not (is_empty r.artifact_refs)) value_error
  require (not (any is_empty r.artifact_refs)) value_error
  require (eqb (length r.transaction_hash) 64 && all is_upper_hex_digit r.transaction_hash)
      value_error
  require (leb r.check_tx_code max_uint32) value_error
  ok r

-- `str.upper` of a hexadecimal digit
abbrev pub upper_digit : ℕ → ℕ
upper_digit c = if leb b'a' c && leb c b'f' then c - 32 else c

abbrev pub upper : Str → Str
upper s = map upper_digit s

unfoldable pub resolve_relation :
    AttachedRelation → ArtifactRef → Contribution → Result ContributionRelation
resolve_relation (outgoing_relation to_contribution kind) reference c = new_relation (record {
  from_contribution = reference;
  to_contribution = to_contribution;
  kind = kind;
  created_at = c.created_at;
})
resolve_relation (incoming_relation from_contribution kind) reference c = new_relation (record {
  from_contribution = from_contribution;
  to_contribution = reference;
  kind = kind;
  created_at = c.created_at;
})

-- `_require_artifact_count`, and the same check of `_submit`
unfoldable pub require_artifact_count : ℕ → Result (Unit {0})
require_artifact_count count = require (not (exceeds_artifact_count count)) submission_error

module _ ⦃ext : External⦄ (rpc : RpcClient) (private_key : Bytes) where
  -- The rest of `_submit`, once the node has answered
  unfoldable pub receipt_of :
      SignedTransaction → Bytes → BroadcastResponse → Result SubmissionReceipt
  receipt_of t bytes response = do
    require (response.transaction_hash == upper (hex (ext.sha256 bytes))) submission_error
    references ← map_m artifact_ref t.envelopes
    new_receipt (record {
      artifact_refs = references;
      transaction_hash = response.transaction_hash;
      check_tx_code = response.check_tx_code;
    })

  unfoldable pub submit : SignedTransaction → Result SubmissionReceipt
  submit t = do
    bytes ← encode_transaction t
    require_artifact_count (length t.envelopes)
    require (not (exceeds_encoded_size bytes)) submission_error
    response ← rpc.broadcast_transaction bytes
    receipt_of t bytes response

  -- The envelope of one relation of a new contribution
  unfoldable pub relation_envelope :
      Str → ArtifactRef → Contribution → AttachedRelation → Result SignedEnvelope
  relation_envelope chain_id reference c attached = do
    r ← resolve_relation attached reference c
    sign_artifact chain_id (relation r) private_key

  unfoldable pub submit_contribution :
      Contribution → List AttachedRelation → Result SubmissionReceipt
  submit_contribution c relations = do
    require_artifact_count (1 + length relations)
    chain_id ← rpc.fetch_chain_id
    first ← sign_artifact chain_id (contribution c) private_key
    reference ← artifact_ref first
    others ← map_m (relation_envelope chain_id reference c) relations
    t ← sign_transaction (first ∷ others) private_key
    submit t

  unfoldable pub submit_relation : ContributionRelation → Result SubmissionReceipt
  submit_relation r = do
    chain_id ← rpc.fetch_chain_id
    e ← sign_artifact chain_id (relation r) private_key
    t ← sign_transaction (e ∷ []) private_key
    submit t
