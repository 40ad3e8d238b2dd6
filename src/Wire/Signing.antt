-- ===== src/Wire/Signing.antt =====
-- wire/signing.py: authorship proofs.
use discovery_net.Base.{Bool, true, false, List, [], ◌∷◌, ◌++◌, ◌==◌, replicate, if◌then◌else◌}
use discovery_net.Base.Result.{Result, ok, err, value_error, require, ◌>>=◌, ◌>>◌}
use discovery_net.Base.Text.{Str, Bytes, text_eq, codes}
use discovery_net.Graph.Models.{Artifact}
use discovery_net.Wire.Envelope.{
  SignedEnvelope, SignedTransaction, new_envelope, new_transaction, signer_public_key,
}
use discovery_net.Wire.External.{External}
use discovery_net.Wire.Payload.{encode_payload, decode_payload, is_type_or_value_error}
use discovery_net.Wire.Codec.{encode_signing_payload, encode_transaction_signing_payload}

abbrev pub signature_domain : Bytes
signature_domain = codes "discovery-net:signed-envelope:" ++ 0 ∷ []

abbrev pub transaction_signature_domain : Bytes
transaction_signature_domain = codes "discovery-net:signed-transaction:" ++ 0 ∷ []

-- `try: ... except (InvalidSignature, TypeError, ValueError): return False`
abbrev pub or_false : Result Bool → Result Bool
or_false (ok b) = ok b
or_false (err e) = if is_type_or_value_error e then ok false else err e

module _ ⦃ext : External⦄ where
  unfoldable pub signature_message : SignedEnvelope → Result Bytes
  signature_message e = encode_signing_payload e >>= λ bytes. ok (signature_domain ++ bytes)

  unfoldable pub transaction_signature_message : SignedTransaction → Result Bytes
  transaction_signature_message t =
      encode_transaction_signing_payload t >>= λ bytes. ok (transaction_signature_domain ++ bytes)

  unfoldable pub sign_artifact : Str → Artifact → Bytes → Result SignedEnvelope
  sign_artifact chain_id artifact private_key = do
    (payload_type, payload) ← encode_payload artifact
    unsigned ← new_envelope (record {
      chain_id = chain_id;
      payload_type = payload_type;
      payload = payload;
      signer_public_key = ext.public_bytes private_key;
      signature = replicate 64 0;
    })
    message ← signature_message unsigned
    new_envelope (record unsigned { signature = ext.sign private_key message })

  -- The body of the `try` of `verify_envelope`; the check of the key is part of `ext.verify`.
  unfoldable pub check_envelope : SignedEnvelope → Result Bool
  check_envelope e = do
    decode_payload e.payload_type e.payload
    message ← signature_message e
    ok (ext.verify e.signer_public_key e.signature message)

  unfoldable pub verify_envelope : SignedEnvelope → Result Bool
  verify_envelope e = or_false (check_envelope e)

  unfoldable pub sign_transaction : List SignedEnvelope → Bytes → Result SignedTransaction
  sign_transaction envelopes private_key = do
    unsigned ← new_transaction (record { envelopes = envelopes; signature = replicate 64 0 })
    require (signer_public_key unsigned == ext.public_bytes private_key) value_error
    message ← transaction_signature_message unsigned
    new_transaction (record { envelopes = envelopes; signature = ext.sign private_key message })

  -- `not any(not verify_envelope(envelope) for envelope in envelopes)`, up to the first failure
  unfoldable pub verify_envelopes : List SignedEnvelope → Result Bool
  verify_envelopes [] = ok true
  verify_envelopes (e ∷ es) =
      let rest = verify_envelopes es in
      verify_envelope e >>= λ valid. if valid then rest else ok false

  unfoldable pub check_transaction : SignedTransaction → Result Bool
  check_transaction t = do
    message ← transaction_signature_message t
    ok (ext.verify (signer_public_key t) t.signature message)

  unfoldable pub verify_transaction : SignedTransaction → Result Bool
  verify_transaction t =
      or_false
        (verify_envelopes t.envelopes >>= λ valid. if valid then check_transaction t else ok false)
