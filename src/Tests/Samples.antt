-- ===== src/Tests/Samples.antt =====
-- A stand-in for the packages that the program calls, and two transactions that it can parse.
use mathlib.Core.List.{foldl}
use discovery_net.Base.{
  ℕ, ◌+◌, ◌*◌, ◌%◌, true, Option, none, some, [], ◌∷◌, ◌++◌, ◌==◌, replicate, if◌then◌else◌,
}
use discovery_net.Base.Text.{Str, Bytes, text_eq, codes}
use discovery_net.Graph.Kinds.{lemma}
use discovery_net.Graph.Time.{Datetime, utc}
use discovery_net.Wire.Envelope.{SignedEnvelope, SignedTransaction, contribution_payload}
use discovery_net.Wire.Json.{Fields, field, end, str}
use discovery_net.Wire.External.{External, ContributionPayload, EnvelopePayload, TransactionPayload}
use discovery_net.Node.Validator.{TransactionValidator}

-- A sum of the bytes, in place of a hash
unfoldable pub checksum : Bytes → Str
checksum bytes = foldl (λ a b. (a * 31 + b) % 1000003) 0 bytes ∷ []

abbrev pub chain : Str
chain = codes "demo"

abbrev pub noon : Datetime
noon = record { year = 2026; month = 1; day = 2; second = 43200; microsecond = 0; offset = utc }

abbrev pub zeros : ℕ → Str
zeros n = replicate n b'0'

abbrev pub lemma_text : Bytes
lemma_text =
    codes
      "{\"body\":\"b\",\"created_at\":\"2026-01-02T12:00:00Z\",\"kind\":\"lemma\",\"title\":\"t\"}"

abbrev lemma_fields : Fields
lemma_fields = field (codes "body") (str (codes "b")) (
    field (codes "created_at") (str (codes "2026-01-02T12:00:00Z"))
      (field (codes "kind") (str (codes "lemma")) (field (codes "title") (str (codes "t")) end)))

abbrev lemma_payload : ContributionPayload
lemma_payload = record { body = codes "b"; created_at = noon; kind = lemma; title = codes "t" }

-- The wire form of an envelope, from its payload and payload type
abbrev envelope_text : Bytes → Str → Bytes
envelope_text payload kind =
    codes "{\"chain_id\":\"demo\",\"payload\":"
    ++ (payload
        ++ (codes ",\"payload_type\":\""
            ++ (kind
                ++ (codes "\",\"signature\":\""
                    ++ (zeros 128
                        ++ (codes "\",\"signer_public_key\":\"" ++ (zeros 64 ++ codes "\"}")))))))

abbrev pub lemma_tx : Bytes
lemma_tx =
    codes "{\"envelopes\":["
    ++ (envelope_text lemma_text (codes "contribution")
        ++ (codes "],\"signature\":\"" ++ (zeros 128 ++ codes "\"}")))

abbrev pub lemma_envelope : EnvelopePayload
lemma_envelope = record {
  chain_id = chain;
  payload = lemma_fields;
  payload_type = contribution_payload;
  signature = zeros 128;
  signer_public_key = zeros 64;
}

abbrev toy_contribution_json : Bytes → Option ContributionPayload
toy_contribution_json bytes = if bytes == lemma_text then some lemma_payload else none

abbrev toy_envelope_json : Bytes → Option EnvelopePayload
toy_envelope_json bytes =
    if bytes == envelope_text lemma_text (codes "contribution") then some lemma_envelope else none

abbrev toy_transaction_json : Bytes → Option TransactionPayload
toy_transaction_json bytes =
    if bytes == lemma_tx
    then some (record { envelopes = lemma_envelope ∷ []; signature = zeros 128 })
    else none

instance abbrev pub toy : External
toy = record {
  sha256 = checksum;
  cid_of = checksum;
  cid_decode = λ s. some (record {
    version = 1;
    base = codes "base32";
    codec = codes "raw";
    hashfun = codes "sha2-256";
    text = s;
  });
  contribution_json = toy_contribution_json;
  relation_json = λ bytes. none;
  envelope_json = toy_envelope_json;
  transaction_json = toy_transaction_json;
  public_bytes = λ key. replicate 32 0;
  sign = λ key message. replicate 64 0;
  verify = λ key signature message. true;
}

abbrev pub demo_validator : TransactionValidator
demo_validator = record { expected_chain_id = chain }

abbrev pub lemma_signed_envelope : SignedEnvelope
lemma_signed_envelope = record {
  chain_id = chain;
  payload_type = contribution_payload;
  payload = lemma_text;
  signer_public_key = replicate 32 0;
  signature = replicate 64 0;
}

abbrev pub lemma_signed : SignedTransaction
lemma_signed = record { envelopes = lemma_signed_envelope ∷ []; signature = replicate 64 0 }
