-- ===== src/Wire/Codec.antt =====
-- wire/codec.py: envelopes and transactions.
pub mod Canonical
use discovery_net.Base.{
  ℕ, ◌*◌, Bool, true, false, ◌&&◌, ◌||◌, Option, none, some, List, [], ◌∷◌, ◌++◌, Eq, ◌==◌, eqb,
  all, length, leb, not, if◌then◌else◌,
}
use discovery_net.Base.Result.{
  Error, Result, ok, err, value_error, codec_error, validation_error, require, reraise, map_m,
  ◌>>=◌, ◌>>◌,
}
use discovery_net.Base.Text.{Str, Bytes, text_eq, codes, is_blank, hex, from_hex}
use discovery_net.Graph.Models.{ArtifactRef, Artifact, contribution, relation}
use discovery_net.Wire.Envelope.{
  PayloadType, contribution_payload, contribution_relation_payload, SignedEnvelope,
  SignedTransaction, new_envelope, new_transaction,
}
use discovery_net.Wire.Json.{
  Json, Items, nil, cons, Fields, str, obj, arr, field, end, canonical_json,
}
use discovery_net.Wire.External.{External, EnvelopePayload, TransactionPayload}
use discovery_net.Wire.Payload.{
  is_type_or_value_error, or_raise, contribution_value, relation_value, validate_contribution_json,
  validate_relation_json, encode_payload, decode_payload,
}

-- `PayloadType.value`
abbrev pub payload_type_value : PayloadType → Str
payload_type_value contribution_payload = codes "contribution"
payload_type_value contribution_relation_payload = codes "contribution_relation"

is_lower_hex_digit : ℕ → Bool
is_lower_hex_digit c = (leb b'0' c && leb c b'9') || (leb b'a' c && leb c b'f')

-- `_validate_lower_hex`
unfoldable pub is_lower_hex : Str → ℕ → Bool
unfolding is_lower_hex_digit
is_lower_hex value byte_length =
    eqb (length value) (byte_length * 2) && all is_lower_hex_digit value

-- `_EnvelopePayload(...)`: the validators of its fields
unfoldable pub envelope_model : EnvelopePayload → Result EnvelopePayload
envelope_model m = do
  require (not (is_blank m.chain_id)) validation_error
  require (is_lower_hex m.signature 64) validation_error
  require (is_lower_hex m.signer_public_key 32) validation_error
  ok m

unfoldable pub transaction_model : TransactionPayload → Result TransactionPayload
transaction_model m = do
  map_m envelope_model m.envelopes
  require (is_lower_hex m.signature 64) validation_error
  ok m

abbrev pub items : List Fields → Items
items [] = nil
items (v ∷ vs) = cons (obj v) (items vs)

module _ ⦃ext : External⦄ where
  -- The payload of an envelope as a JSON value, parsed from its canonical bytes
  unfoldable pub payload_value : Artifact → Bytes → Result Fields
  payload_value (contribution c) payload = validate_contribution_json payload >>= contribution_value
  payload_value (relation r) payload = validate_relation_json payload >>= relation_value

  -- The JSON value of an envelope, with its signature or without
  unfoldable pub envelope_fields : EnvelopePayload → Bool → Fields
  envelope_fields m include_signature = field (codes "chain_id") (str m.chain_id) (
      field (codes "payload") (obj m.payload) (
        field (codes "payload_type") (str (payload_type_value m.payload_type)) (
          field (codes "signer_public_key") (str m.signer_public_key)
            (if include_signature then field (codes "signature") (str m.signature) end else end))))

  -- `_envelope_value`
  unfoldable pub envelope_value : SignedEnvelope → Bool → Result Fields
  envelope_value e include_signature = do
    artifact ← decode_payload e.payload_type e.payload
    (payload_type, payload) ← encode_payload artifact
    value ← payload_value artifact payload
    m ← envelope_model (record {
      chain_id = e.chain_id;
      payload = value;
      payload_type = payload_type;
      signature = hex e.signature;
      signer_public_key = hex e.signer_public_key;
    })
    ok (envelope_fields m include_signature)

  unfoldable pub encode_signing_payload : SignedEnvelope → Result Bytes
  encode_signing_payload e = envelope_value e false >>= λ v. canonical_json (obj v)

  unfoldable pub encode_envelope : SignedEnvelope → Result Bytes
  encode_envelope e = envelope_value e true >>= λ v. canonical_json (obj v)

  -- `_transaction_value`
  unfoldable pub transaction_value : SignedTransaction → Bool → Result Fields
  transaction_value t include_signature = do
    values ← map_m (λ e. envelope_value e true) t.envelopes
    ok (
        field (codes "envelopes") (arr (items values)) (
          if include_signature then field (codes "signature") (str (hex t.signature)) end else end))

  unfoldable pub encode_transaction_signing_payload : SignedTransaction → Result Bytes
  encode_transaction_signing_payload t = transaction_value t false >>= λ v. canonical_json (obj v)

  unfoldable pub encode_transaction : SignedTransaction → Result Bytes
  encode_transaction t = transaction_value t true >>= λ v. canonical_json (obj v)

  -- `_envelope_from_model`
  unfoldable pub envelope_from_model : EnvelopePayload → Result SignedEnvelope
  envelope_from_model m = do
    payload ← canonical_json (obj m.payload)
    signer_public_key ← or_raise (from_hex m.signer_public_key) value_error
    signature ← or_raise (from_hex m.signature) value_error
    e ← new_envelope (record {
      chain_id = m.chain_id;
      payload_type = m.payload_type;
      payload = payload;
      signer_public_key = signer_public_key;
      signature = signature;
    })
    decode_payload e.payload_type e.payload
    ok e

  unfoldable pub parse_envelope : Bytes → Result SignedEnvelope
  parse_envelope bytes = do
    m ← or_raise (ext.envelope_json bytes) validation_error
    envelope_model m
    envelope_from_model m

  unfoldable pub decode_envelope : Bytes → Result SignedEnvelope
  decode_envelope bytes = do
    e ← reraise is_type_or_value_error codec_error (parse_envelope bytes)
    encoded ← encode_envelope e
    require (encoded == bytes) codec_error
    ok e

  unfoldable pub parse_transaction : Bytes → Result SignedTransaction
  parse_transaction bytes = do
    m ← or_raise (ext.transaction_json bytes) validation_error
    transaction_model m
    envelopes ← map_m envelope_from_model m.envelopes
    signature ← or_raise (from_hex m.signature) value_error
    new_transaction (record { envelopes = envelopes; signature = signature })

  unfoldable pub decode_transaction : Bytes → Result SignedTransaction
  decode_transaction bytes = do
    t ← reraise is_type_or_value_error codec_error (parse_transaction bytes)
    encoded ← encode_transaction t
    require (encoded == bytes) codec_error
    ok t

  -- `artifact_ref`
  unfoldable pub artifact_ref : SignedEnvelope → Result ArtifactRef
  artifact_ref e = encode_envelope e >>= λ bytes. ok (ext.cid_of bytes)
