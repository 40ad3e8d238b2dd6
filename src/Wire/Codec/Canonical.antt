-- ===== src/Wire/Codec/Canonical.antt =====
-- Every decoder ends by encoding what it read and comparing: so what it accepts is the one
-- encoding of its result.
use discovery_net.Base.{◌≡◌, sym, ◌∙◌, ◌==◌, ==_iff, arith, ap}
use discovery_net.Base.Result.{
  Result, ok, err, codec_error, require, reraise, reraise-eq-ok, >>=-eq-ok, ◌>>=◌, ◌>>◌,
}
use discovery_net.Base.Text.{Bytes, text_eq}
use discovery_net.Graph.Models.{Artifact}
use discovery_net.Wire.Envelope.{PayloadType, SignedEnvelope, SignedTransaction}
use discovery_net.Wire.External.{External}
use discovery_net.Wire.Payload.{
  is_type_or_value_error, parse_payload, encode_payload, decode_payload,
}
use discovery_net.Wire.Codec.{
  encode_envelope, decode_envelope, encode_transaction, decode_transaction, parse_transaction,
}

-- The last steps that the decoders share
abbrev compare_with {ℓ} : {A : Type ℓ} → Bytes → A → Bytes → Result A
compare_with bytes a encoded = require (encoded == bytes) codec_error >> ok a

module _ {ℓ} {A : Type ℓ} where
  compare_with-eq-ok :
      (bytes encoded : Bytes) (x a : A)
      → compare_with bytes x encoded ≡ ok a
      → (encoded ≡ bytes) × (x ≡ a)
  compare_with-eq-ok bytes encoded x a h = ground (arith, ==_iff encoded bytes)

  canonical-eq-ok :
      (parsed : Result A) (encode : A → Result Bytes) (bytes : Bytes) (a : A)
      → (parsed >>= λ x. encode x >>= compare_with bytes x) ≡ ok a
      → (parsed ≡ ok a) × (encode a ≡ ok bytes)
  canonical-eq-ok (err e) encode bytes a h = cc
  canonical-eq-ok (ok x) encode bytes a h =
      let (encoded, e, rest) = >>=-eq-ok (encode x) (compare_with bytes x) h in
      let (same, that) = compare_with-eq-ok bytes encoded x a rest in (ap ok that, cc)

  canonical_payload-eq-ok :
      (parsed : Result A) (encode : A → Result (PayloadType × Bytes)) (bytes : Bytes) (a : A)
      → (parsed >>= λ x. encode x >>= λ p. compare_with bytes x p.1) ≡ ok a
      → (parsed ≡ ok a) × ((other : PayloadType) × (encode a ≡ ok (other, bytes)))
  canonical_payload-eq-ok (err e) encode bytes a h = cc
  canonical_payload-eq-ok (ok x) encode bytes a h =
      let (p, e, rest) = >>=-eq-ok (encode x) (λ p. compare_with bytes x p.1) h in
      let (same, that) = compare_with-eq-ok bytes p.1 x a rest in
      (ap ok that, (p.0, ap encode (sym that) ∙ e ∙ ap (λ b. ok (p.0, b)) same))

module _ ⦃ext : External⦄ where
  pub decode_transaction-parsed :
      (bytes : Bytes) (t : SignedTransaction)
      → decode_transaction bytes ≡ ok t
      → (parse_transaction bytes ≡ ok t) × (encode_transaction t ≡ ok bytes)
  unfolding decode_transaction
  decode_transaction-parsed bytes t h =
      let (parsed, encoded) = canonical-eq-ok _ encode_transaction bytes t h in
      (reraise-eq-ok _ _ _ parsed, encoded)

  -- The bytes of a decoded transaction are its encoding, and so are determined by it.
  pub encode-decode_transaction :
      (bytes : Bytes) (t : SignedTransaction)
      → decode_transaction bytes ≡ ok t
      → encode_transaction t ≡ ok bytes
  encode-decode_transaction bytes t h = (decode_transaction-parsed bytes t h).1

  -- Two byte strings that decode to one transaction are equal: a transaction has no second
  -- spelling under which it could be submitted again.
  pub decode_transaction-injective :
      (bytes other : Bytes) (t : SignedTransaction)
      → decode_transaction bytes ≡ ok t
      → decode_transaction other ≡ ok t
      → bytes ≡ other
  decode_transaction-injective bytes other t h k =
      cc (encode-decode_transaction bytes t h, encode-decode_transaction other t k)

  pub encode-decode_envelope :
      (bytes : Bytes) (e : SignedEnvelope)
      → decode_envelope bytes ≡ ok e
      → encode_envelope e ≡ ok bytes
  unfolding decode_envelope
  encode-decode_envelope bytes e h = (canonical-eq-ok _ encode_envelope bytes e h).1

  -- A payload that decodes was parsed, and is the encoding of its artifact.
  pub encode-decode_payload :
      (payload_type : PayloadType) (bytes : Bytes) (a : Artifact)
      → decode_payload payload_type bytes ≡ ok a
      → (parse_payload payload_type bytes ≡ ok a)
        × ((other : PayloadType) × (encode_payload a ≡ ok (other, bytes)))
  unfolding decode_payload
  encode-decode_payload payload_type bytes a h =
      let (parsed, encoded) =
        canonical_payload-eq-ok
          (reraise is_type_or_value_error codec_error (parse_payload payload_type bytes))
          encode_payload bytes a h in
      (reraise-eq-ok _ _ _ parsed, encoded)
