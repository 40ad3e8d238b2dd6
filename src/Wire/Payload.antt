-- ===== src/Wire/Payload.antt =====
-- wire/codec.py: artifact references and the payload of an envelope.
pub mod RoundTrip
use discovery_net.Base.{Bool, true, false, ◌&&◌, ◌||◌, Option, none, some, ◌==◌, eqb, nat_eq}
use discovery_net.Base.Result.{
  Error, Result, ok, err, value_error, codec_error, validation_error, require, reraise,
  is_value_error, is_type_error, ◌>>=◌, ◌>>◌,
}
use discovery_net.Base.Text.{Str, Bytes, text_eq, codes}
use discovery_net.Graph.Kinds.{contribution_kind_value, relation_kind_value}
use discovery_net.Graph.Time.{encode_datetime, is_aware}
use discovery_net.Graph.Models.{
  ArtifactRef, Contribution, ContributionRelation, Artifact, contribution, relation,
  new_contribution, new_relation,
}
use discovery_net.Wire.Envelope.{PayloadType, contribution_payload, contribution_relation_payload}
use discovery_net.Wire.Json.{Fields, str, obj, field, end, canonical_json}
use discovery_net.Wire.External.{External, Cid, ContributionPayload, RelationPayload}

-- `except ValidationError`
abbrev pub is_validation_error : Error → Bool
is_validation_error validation_error = true
is_validation_error _ = false

-- `except (TypeError, ValueError)`
abbrev pub is_type_or_value_error : Error → Bool
is_type_or_value_error e = is_type_error e || is_value_error e

-- What a parser of another package returns, as a result
abbrev pub or_raise {ℓ} : {A : Type ℓ} → Option A → Error → Result A
or_raise none e = err e
or_raise (some a) e = ok a

unfoldable pub is_canonical_cid : Cid → Str → Bool
is_canonical_cid cid value =
    eqb cid.version 1
    && (cid.base == codes "base32")
    && (cid.codec == codes "raw")
    && (cid.hashfun == codes "sha2-256")
    && (cid.text == value)

-- `_contribution_value` and `_relation_value`
unfoldable pub contribution_value : ContributionPayload → Result Fields
contribution_value m = do
  created_at ← encode_datetime m.created_at
  ok (
      field (codes "body") (str m.body) (
        field (codes "created_at") (str created_at) (
          field (codes "kind") (str (contribution_kind_value m.kind))
            (field (codes "title") (str m.title) end))))

unfoldable pub relation_value : RelationPayload → Result Fields
relation_value m = do
  created_at ← encode_datetime m.created_at
  ok (
      field (codes "created_at") (str created_at) (
        field (codes "from_contribution") (str m.from_contribution) (
          field (codes "kind") (str (relation_kind_value m.kind))
            (field (codes "to_contribution") (str m.to_contribution) end))))

-- `_ContributionPayload(...)`: pydantic checks that the time is aware.
unfoldable pub contribution_model : ContributionPayload → Result ContributionPayload
contribution_model m = do require (is_aware m.created_at) validation_error; ok m

module _ ⦃ext : External⦄ where
  unfoldable pub parse_artifact_ref : Str → Result ArtifactRef
  parse_artifact_ref value = do
    cid ← or_raise (ext.cid_decode value) value_error
    require (is_canonical_cid cid value) value_error
    ok value

  -- `_RelationPayload(...)`, with the validator of its two references
  unfoldable pub relation_model : RelationPayload → Result RelationPayload
  relation_model m = do
    require (is_aware m.created_at) validation_error
    reraise is_value_error validation_error (parse_artifact_ref m.from_contribution)
    reraise is_value_error validation_error (parse_artifact_ref m.to_contribution)
    ok m

  unfoldable pub encode_contribution : Contribution → Result (PayloadType × Bytes)
  encode_contribution c = do
    m ←
        contribution_model
          (record { body = c.body; created_at = c.created_at; kind = c.kind; title = c.title })
    value ← contribution_value m
    bytes ← canonical_json (obj value)
    ok (contribution_payload, bytes)

  unfoldable pub encode_relation : ContributionRelation → Result (PayloadType × Bytes)
  encode_relation r = do
    m ← relation_model (record {
      created_at = r.created_at;
      from_contribution = r.from_contribution;
      kind = r.kind;
      to_contribution = r.to_contribution;
    })
    value ← relation_value m
    bytes ← canonical_json (obj value)
    ok (contribution_relation_payload, bytes)

  unfoldable pub encode_payload : Artifact → Result (PayloadType × Bytes)
  unfolding encode_contribution encode_relation
  encode_payload (contribution c) = reraise is_validation_error codec_error (encode_contribution c)
  encode_payload (relation r) = reraise is_validation_error codec_error (encode_relation r)

  -- `model_validate_json` of the two payload models
  unfoldable pub validate_contribution_json : Bytes → Result ContributionPayload
  validate_contribution_json bytes = do
    m ← or_raise (ext.contribution_json bytes) validation_error
    contribution_model m

  unfoldable pub validate_relation_json : Bytes → Result RelationPayload
  validate_relation_json bytes = do
    m ← or_raise (ext.relation_json bytes) validation_error
    relation_model m

  unfoldable pub parse_contribution : Bytes → Result Artifact
  parse_contribution bytes = do
    m ← validate_contribution_json bytes
    c ←
        new_contribution
          (record { kind = m.kind; title = m.title; body = m.body; created_at = m.created_at })
    ok (contribution c)

  unfoldable pub parse_relation : Bytes → Result Artifact
  parse_relation bytes = do
    m ← validate_relation_json bytes
    r ← new_relation (record {
      from_contribution = m.from_contribution;
      to_contribution = m.to_contribution;
      kind = m.kind;
      created_at = m.created_at;
    })
    ok (relation r)

  unfoldable pub parse_payload : PayloadType → Bytes → Result Artifact
  parse_payload contribution_payload bytes = parse_contribution bytes
  parse_payload contribution_relation_payload bytes = parse_relation bytes

  unfoldable pub decode_payload : PayloadType → Bytes → Result Artifact
  decode_payload payload_type bytes = do
    artifact ← reraise is_type_or_value_error codec_error (parse_payload payload_type bytes)
    (_, canonical) ← encode_payload artifact
    require (canonical == bytes) codec_error
    ok artifact
