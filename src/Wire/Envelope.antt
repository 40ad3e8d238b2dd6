-- ===== src/Wire/Envelope.antt =====
-- wire/envelope.py: signed envelopes and transactions, and what their constructors reject.
use discovery_net.Base.{ℕ, false, not, List, [], ◌∷◌, ◌==◌, eqb, any, length}
use discovery_net.Base.Result.{Result, ok, value_error, require, ◌>>◌}
use discovery_net.Base.Text.{Str, Bytes, text_eq, is_blank, is_empty}

abbrev pub public_key_length : ℕ
public_key_length = 32

abbrev pub signature_length : ℕ
signature_length = 64

pub data PayloadType : Type 0 where
  contribution_payload contribution_relation_payload : PayloadType

pub record SignedEnvelope : Type 0 where
  pub chain_id : Str
  pub payload_type : PayloadType
  pub payload : Bytes
  pub signer_public_key : Bytes
  pub signature : Bytes

pub record SignedTransaction : Type 0 where
  pub envelopes : List SignedEnvelope
  pub signature : Bytes

abbrev pub require_bytes : Bytes → ℕ → Result (Unit {0})
require_bytes value n = require (eqb (length value) n) value_error

-- `SignedEnvelope(...)`: the record, if `__post_init__` raises nothing
unfoldable pub new_envelope : SignedEnvelope → Result SignedEnvelope
new_envelope e = do
  require (not (is_blank e.chain_id)) value_error
  require (not (is_empty e.payload)) value_error
  require_bytes e.signer_public_key public_key_length
  require_bytes e.signature signature_length
  ok e

-- The tests of `SignedTransaction.__post_init__` against the first envelope
abbrev pub shares_signer : SignedEnvelope → List SignedEnvelope → Result (Unit {0})
shares_signer first rest = do
  require (not (any (λ e. not (e.chain_id == first.chain_id)) rest)) value_error
  require (not (any (λ e. not (e.signer_public_key == first.signer_public_key)) rest)) value_error

abbrev pub consistent : List SignedEnvelope → Result (Unit {0})
consistent [] = require false value_error
consistent (first ∷ rest) = shares_signer first rest

-- `SignedTransaction(...)`
unfoldable pub new_transaction : SignedTransaction → Result SignedTransaction
new_transaction t = do consistent t.envelopes; require_bytes t.signature signature_length; ok t

-- The properties `chain_id` and `signer_public_key`; a transaction without envelopes, which cannot
-- be constructed, would raise `IndexError`.
abbrev pub first_chain_id : List SignedEnvelope → Str
first_chain_id [] = []
first_chain_id (first ∷ rest) = first.chain_id

abbrev pub first_signer : List SignedEnvelope → Bytes
first_signer [] = []
first_signer (first ∷ rest) = first.signer_public_key

abbrev pub chain_id : SignedTransaction → Str
chain_id t = first_chain_id t.envelopes

abbrev pub signer_public_key : SignedTransaction → Bytes
signer_public_key t = first_signer t.envelopes
