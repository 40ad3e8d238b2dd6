-- ===== src/Node/Handler/Overflow.antt =====
-- wire/codec.py:_encode_datetime on a time that has no UTC form, seen from the callbacks of
-- node/cometbft_callback_handler.py: `OverflowError` is no `ValueError`, and nothing catches it.
use discovery_net.Base.{
  ℕ, ◌+◌, ◌<◌, ◌≡◌, refl, true, false, none, some, List, ◌∷◌, ltb, leb, eqb, arith,
}
use discovery_net.Base.Result.{ok, err, overflow_error}
use discovery_net.Base.Text.{Bytes, from_hex, is_blank}
use discovery_net.Graph.Time.{Datetime, east, is_aware, encode_datetime}
use discovery_net.Graph.Models.{Contribution, new_contribution, contribution}
use discovery_net.Wire.Envelope.{SignedEnvelope, contribution_payload, new_envelope}
use discovery_net.Wire.Limits.{exceeds_encoded_size}
use discovery_net.Wire.Json.{obj, canonical_json}
use discovery_net.Wire.External.{External, ContributionPayload, EnvelopePayload, TransactionPayload}
use discovery_net.Wire.Payload.{
  contribution_value, contribution_model, encode_payload, decode_payload, parse_payload,
  parse_contribution, validate_contribution_json,
}
use discovery_net.Wire.Codec.{
  transaction_model, envelope_from_model, parse_transaction, decode_transaction,
}
use discovery_net.Node.Validator.{TransactionValidator, Lookup, validate}
use discovery_net.Node.Ledger.{max_int64, envelope_by_ref}
use discovery_net.Node.Handler.{
  CometBftCallbackHandler, check_tx, execute_transaction, execute_block, finalize_block,
}

-- The first day of the calendar, ahead of UTC by more than the time of the day
pub record IsBeforeUtc (t : Datetime) (ahead : ℕ) : Type 0 where
  pub offset : t.offset ≡ some (east ahead)
  pub second : t.second < ahead
  pub year : t.year ≡ 1
  pub month : t.month ≡ 1
  pub day : t.day ≡ 1

encode_datetime-overflow :
    (t : Datetime) (ahead : ℕ) → IsBeforeUtc t ahead → encode_datetime t ≡ err overflow_error
unfolding encode_datetime
encode_datetime-overflow t ahead k =
    let early : ltb t.second ahead ≡ true = ground (arith, k.second) in
    rw (k.offset, early, k.day, k.month, k.year) refl

IsBeforeUtc-aware : (t : Datetime) (ahead : ℕ) → IsBeforeUtc t ahead → is_aware t ≡ true
unfolding is_aware
IsBeforeUtc-aware t ahead k = rw k.offset refl

module _ ⦃ext : External⦄ where
  -- The first envelope of a transaction is a contribution made at such a time.
  pub record IsCreatedBeforeUtc (transaction : Bytes) : Type 0 where
    pub model : TransactionPayload
    pub first : EnvelopePayload
    pub others : List EnvelopePayload
    pub payload : ContributionPayload
    pub signed : SignedEnvelope
    pub ahead : ℕ
    pub fits : exceeds_encoded_size transaction ≡ false
    pub parsed : ext.transaction_json transaction ≡ some model
    pub valid : transaction_model model ≡ ok model
    pub envelopes : model.envelopes ≡ first ∷ others
    pub chain_id : signed.chain_id ≡ first.chain_id
    pub payload_type : first.payload_type ≡ contribution_payload
    pub signed_type : signed.payload_type ≡ first.payload_type
    pub bytes : canonical_json (obj first.payload) ≡ ok signed.payload
    pub key : from_hex first.signer_public_key ≡ some signed.signer_public_key
    pub signature : from_hex first.signature ≡ some signed.signature
    pub made : new_envelope signed ≡ ok signed
    pub read : ext.contribution_json signed.payload ≡ some payload
    pub titled : is_blank payload.title ≡ false
    pub early : IsBeforeUtc payload.created_at ahead

  abbrev contribution_of : ContributionPayload → Contribution
  contribution_of p = record {
    kind = p.kind;
    title = p.title;
    body = p.body;
    created_at = p.created_at;
  }

  contribution_model-early :
      (p : ContributionPayload) (ahead : ℕ)
      → IsBeforeUtc p.created_at ahead
      → contribution_model p ≡ ok p
  unfolding contribution_model
  contribution_model-early p ahead early = rw (IsBeforeUtc-aware p.created_at ahead early) refl

  new_contribution-early :
      (p : ContributionPayload) (ahead : ℕ)
      → is_blank p.title ≡ false
      → IsBeforeUtc p.created_at ahead
      → new_contribution (contribution_of p) ≡ ok (contribution_of p)
  unfolding new_contribution
  new_contribution-early p ahead titled early =
      rw (titled, IsBeforeUtc-aware p.created_at ahead early) refl

  encode_payload-overflow :
      (p : ContributionPayload) (ahead : ℕ)
      → IsBeforeUtc p.created_at ahead
      → encode_payload (contribution (contribution_of p)) ≡ err overflow_error
  unfolding encode_payload contribution_value
  encode_payload-overflow p ahead early =
      rw (contribution_model-early p ahead early, encode_datetime-overflow p.created_at ahead early)
        refl

  decode_payload-overflow :
      (bytes : Bytes) (p : ContributionPayload) (ahead : ℕ)
      → ext.contribution_json bytes ≡ some p
      → is_blank p.title ≡ false
      → IsBeforeUtc p.created_at ahead
      → decode_payload contribution_payload bytes ≡ err overflow_error
  unfolding decode_payload parse_payload parse_contribution validate_contribution_json
  decode_payload-overflow bytes p ahead read titled early =
      rw
        (
          read,
          contribution_model-early p ahead early,
          new_contribution-early p ahead titled early,
          encode_payload-overflow p ahead early,
        )
        refl

  abbrev as_model : EnvelopePayload → SignedEnvelope → SignedEnvelope
  as_model m e = record e { chain_id = m.chain_id; payload_type = m.payload_type }

  envelope_from_model-overflow :
      (transaction : Bytes) (k : IsCreatedBeforeUtc transaction)
      → envelope_from_model k.first ≡ err overflow_error
  unfolding envelope_from_model
  envelope_from_model-overflow transaction k =
      let whole : as_model k.first k.signed ≡ k.signed =
        ground (arith, k.chain_id, k.signed_type) in
      rw (k.bytes, k.key, k.signature, whole, k.made, k.signed_type, k.payload_type)
        (rw (decode_payload-overflow k.signed.payload k.payload k.ahead k.read k.titled k.early)
          refl)

  decode_transaction-overflow :
      (transaction : Bytes)
      → IsCreatedBeforeUtc transaction
      → decode_transaction transaction ≡ err overflow_error
  unfolding decode_transaction parse_transaction
  decode_transaction-overflow transaction k =
      rw (k.parsed, k.valid, k.envelopes, envelope_from_model-overflow transaction k) refl

  validate-overflow :
      (v : TransactionValidator) (transaction : Bytes) (artifacts : Lookup)
      → IsCreatedBeforeUtc transaction
      → validate v transaction artifacts ≡ err overflow_error
  unfolding validate
  validate-overflow v transaction artifacts k =
      rw (k.fits, decode_transaction-overflow transaction k) refl

  -- A transaction whose first envelope is a contribution made on the first day of the calendar, at
  -- a UTC offset that puts it before that day in UTC, makes `check_tx` raise `OverflowError`; with no
  -- block pending and a committed height below 2^63 - 1, `finalize_block` raises it too, for every
  -- block at the next height that starts with the transaction.
  pub check_tx-finalize_block-overflow :
      (h : CometBftCallbackHandler) (transaction : Bytes) (rest : List Bytes)
      → IsCreatedBeforeUtc transaction
      → h.pending_block ≡ none
      → h.committed_height < max_int64
      → (check_tx h transaction ≡ err overflow_error)
        × (finalize_block h (h.committed_height + 1) (transaction ∷ rest) ≡ err overflow_error)
  unfolding check_tx finalize_block execute_block execute_transaction
  check_tx-finalize_block-overflow h transaction rest k idle low =
      let positive : leb 1 (h.committed_height + 1) ≡ true = ground arith in
      let bounded : leb (h.committed_height + 1) max_int64 ≡ true = ground arith in
      let next : eqb (h.committed_height + 1) (h.committed_height + 1) ≡ true = ground arith in
      (
        validate-overflow h.validator transaction (envelope_by_ref h.committed_ledger) k,
        rw
            (
              positive,
              bounded,
              idle,
              next,
              validate-overflow h.validator transaction (envelope_by_ref h.committed_ledger) k,
            )
            refl,
      )
