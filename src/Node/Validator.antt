-- ===== src/Node/Validator.antt =====
-- node/transaction_validator.py: the code that a transaction gets against one chain and the
-- artifacts that are committed.
pub mod Accepted
use discovery_net.Base.{
  is_some, ℕ, Bool, true, false, not, ◌&&◌, ◌||◌, Option, none, some, List, [], ◌∷◌, Eq, ◌==◌, any,
  contains, distinct, length, if◌then◌else◌,
}
use discovery_net.Base.Result.{
  Error, Result, ok, err, value_error, codec_error, is_type_error, require, map_m, ◌>>=◌, ◌>>◌,
}
use discovery_net.Base.Text.{Str, Bytes, text_eq, is_blank}
use discovery_net.Graph.Models.{
  ArtifactRef, ContributionRelation, Artifact, contribution, relation, is_contribution,
}
use discovery_net.Wire.Envelope.{SignedEnvelope, SignedTransaction, chain_id}
use discovery_net.Wire.Limits.{exceeds_encoded_size, exceeds_artifact_count}
use discovery_net.Wire.External.{External}
use discovery_net.Wire.Payload.{decode_payload}
use discovery_net.Wire.Codec.{artifact_ref, decode_transaction}
use discovery_net.Wire.Signing.{verify_transaction}

pub data TransactionCode : Type 0 where
  accepted invalid_transaction wrong_chain invalid_signature duplicate missing_reference
        transaction_too_large too_many_artifacts :
      TransactionCode

-- `ArtifactLedgerLookup.envelope_by_ref` of the committed state
abbrev pub Lookup : Type 0
Lookup = ArtifactRef → Option SignedEnvelope

pub record TransactionValidator : Type 0 where
  pub expected_chain_id : Str

unfoldable pub new_validator : Str → Result TransactionValidator
new_validator chain = do
  require (not (is_blank chain)) value_error
  ok (record { expected_chain_id = chain })

-- `except (CodecError, TypeError)`
abbrev pub is_codec_or_type_error : Error → Bool
is_codec_or_type_error codec_error = true
is_codec_or_type_error e = is_type_error e

abbrev pub is_committed : Lookup → ArtifactRef → Bool
is_committed artifacts reference = is_some (artifacts reference)

-- The references of the contributions among the artifacts of the transaction
unfoldable pub included_contributions : List ArtifactRef → List Artifact → List ArtifactRef
included_contributions [] _ = []
included_contributions (r ∷ rs) [] = []
included_contributions (r ∷ rs) (a ∷ rest) =
    if is_contribution a then r ∷ included_contributions rs rest else included_contributions rs rest

module _ ⦃ext : External⦄ where
  unfoldable pub decode_artifact : SignedEnvelope → Result Artifact
  decode_artifact e = decode_payload e.payload_type e.payload

  abbrev pub committed_contribution : Option SignedEnvelope → Result Bool
  committed_contribution none = ok false
  committed_contribution (some e) = decode_artifact e >>= λ a. ok (is_contribution a)

  -- `_is_contribution`
  unfoldable pub resolves : Lookup → List ArtifactRef → ArtifactRef → Result Bool
  resolves artifacts included reference =
      if contains reference included then ok true else committed_contribution (artifacts reference)

  -- Both ends of a relation, the second only if the first resolves
  unfoldable pub relation_resolves : Lookup → List ArtifactRef → ContributionRelation → Result Bool
  relation_resolves artifacts included r = do
    from ← resolves artifacts included r.from_contribution
    if from then resolves artifacts included r.to_contribution else ok false

  abbrev pub artifact_resolves : Lookup → List ArtifactRef → Artifact → Result Bool
  artifact_resolves artifacts included (contribution c) = ok true
  artifact_resolves artifacts included (relation r) = relation_resolves artifacts included r

  -- The loop over the decoded artifacts, up to the first relation that does not resolve
  unfoldable pub all_resolve : Lookup → List ArtifactRef → List Artifact → Result Bool
  all_resolve artifacts included [] = ok true
  all_resolve artifacts included (a ∷ l) =
      let rest = all_resolve artifacts included l in
      artifact_resolves artifacts included a >>= λ found. if found then rest else ok false

  unfoldable pub validate_references : Lookup → List SignedEnvelope → Result TransactionCode
  validate_references artifacts envelopes = do
    references ← map_m artifact_ref envelopes
    if not (distinct references) || any (is_committed artifacts) references
        then ok duplicate
        else do
          decoded ← map_m decode_artifact envelopes
          resolved ← all_resolve artifacts (included_contributions references decoded) decoded
          ok (if resolved then accepted else missing_reference)

  unfoldable pub validate_signed :
      TransactionValidator → Lookup → SignedTransaction → Result TransactionCode
  validate_signed v artifacts t =
      if exceeds_artifact_count (length t.envelopes)
      then ok too_many_artifacts
      else if not (chain_id t == v.expected_chain_id)
      then ok wrong_chain
      else do
        valid ← verify_transaction t
        if valid then validate_references artifacts t.envelopes else ok invalid_signature

  abbrev pub validate_decoded :
      TransactionValidator → Lookup → Result SignedTransaction → Result TransactionCode
  validate_decoded v artifacts (ok t) = validate_signed v artifacts t
  validate_decoded v artifacts (err e) =
      if is_codec_or_type_error e then ok invalid_transaction else err e

  unfoldable pub validate : TransactionValidator → Bytes → Lookup → Result TransactionCode
  validate v transaction artifacts =
      if exceeds_encoded_size transaction
      then ok transaction_too_large
      else validate_decoded v artifacts (decode_transaction transaction)
