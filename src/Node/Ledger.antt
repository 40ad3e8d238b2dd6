-- ===== src/Node/Ledger.antt =====
-- node/local_artifact_ledger.py: the immutable ledger of accepted transactions.
pub mod Append
pub mod Refinement
pub mod Fresh
use discovery_net.Base.{
  ℕ, ◌+◌, Bool, true, false, not, ◌&&◌, ◌||◌, Option, none, some, List, [], ◌∷◌, ◌++◌, Eq, ◌==◌,
  ltb, leb, eqb, any, length, if◌then◌else◌,
}
use discovery_net.Base.Dict.{Dict, keys, lookup, has_key, insert, union}
use discovery_net.Base.Result.{Result, ok, err, value_error, require, for_m, ◌>>=◌, ◌>>◌}
use discovery_net.Base.Text.{Bytes, text_eq, codes, to_bytes}
use discovery_net.Graph.Models.{ArtifactRef}
use discovery_net.Wire.Envelope.{SignedEnvelope, SignedTransaction}
use discovery_net.Wire.External.{External}
use discovery_net.Wire.Codec.{artifact_ref, encode_transaction}
use discovery_net.Node.Validator.{Lookup}

abbrev pub ledger_hash_domain : Bytes
ledger_hash_domain = codes "discovery-net:artifact-ledger:" ++ 0 ∷ []

abbrev pub max_int64 : ℕ
max_int64 = 9223372036854775807

abbrev pub max_uint64 : ℕ
max_uint64 = 18446744073709551615

pub data AppendOutcome : Type 0 where
  accepted duplicate : AppendOutcome

pub record ArtifactLedgerEntry : Type 0 where
  pub transaction : SignedTransaction
  pub height : ℕ
  pub transaction_index : ℕ

-- `ArtifactLedgerEntry(...)`
unfoldable pub new_entry : ArtifactLedgerEntry → Result ArtifactLedgerEntry
new_entry e = do
  require (leb 1 e.height && leb e.height max_int64) value_error
  require (leb e.transaction_index max_uint64) value_error
  ok e

pub record LocalArtifactLedger : Type 0 where
  pub entries : List ArtifactLedgerEntry
  pub envelopes_by_ref : Dict ArtifactRef SignedEnvelope
  pub state_hash : Bytes

-- `_position(a) <= _position(b)`
unfoldable pub position_le : ArtifactLedgerEntry → ArtifactLedgerEntry → Bool
position_le a b =
    ltb a.height b.height || (eqb a.height b.height && leb a.transaction_index b.transaction_index)

unfoldable pub last_entry : List ArtifactLedgerEntry → Option ArtifactLedgerEntry
last_entry [] = none
last_entry (e ∷ []) = some e
last_entry (e ∷ f ∷ es) = last_entry (f ∷ es)

-- `position <= previous_position`, where there is a previous entry
unfoldable pub precedes : ArtifactLedgerEntry → Option ArtifactLedgerEntry → Bool
precedes e none = false
precedes e (some previous) = position_le e previous

unfoldable pub envelope_by_ref : LocalArtifactLedger → Lookup
envelope_by_ref ledger reference = lookup reference ledger.envelopes_by_ref

module _ ⦃ext : External⦄ where
  unfoldable pub advance_state_hash : Bytes → ArtifactLedgerEntry → Result Bytes
  advance_state_hash previous_hash e = do
    bytes ← encode_transaction e.transaction
    let position = to_bytes 8 e.height ++ to_bytes 8 e.transaction_index
    ok (ext.sha256 (ledger_hash_domain ++ (previous_hash ++ (position ++ ext.sha256 bytes))))

  unfoldable pub empty_ledger : LocalArtifactLedger
  empty_ledger = record {
    entries = [];
    envelopes_by_ref = [];
    state_hash = ext.sha256 ledger_hash_domain;
  }

  -- The inner loop of `__init__`
  unfoldable pub record_envelope :
      Dict ArtifactRef SignedEnvelope → SignedEnvelope → Result (Dict ArtifactRef SignedEnvelope)
  record_envelope d e = do
    reference ← artifact_ref e
    require (not (has_key reference d)) value_error
    ok (insert reference e d)

  -- One round of the outer loop; the entries so far stand for `previous_position`.
  unfoldable pub record_entry :
      LocalArtifactLedger → ArtifactLedgerEntry → Result LocalArtifactLedger
  record_entry ledger e = do
    require (not (precedes e (last_entry ledger.entries))) value_error
    envelopes_by_ref ← for_m record_envelope ledger.envelopes_by_ref e.transaction.envelopes
    state_hash ← advance_state_hash ledger.state_hash e
    ok (record {
      entries = ledger.entries ++ e ∷ [];
      envelopes_by_ref = envelopes_by_ref;
      state_hash = state_hash;
    })

  -- `LocalArtifactLedger(entries=...)`
  unfoldable pub new_ledger : List ArtifactLedgerEntry → Result LocalArtifactLedger
  new_ledger entries = for_m record_entry empty_ledger entries

  -- The dict comprehension of `append_transaction`
  unfoldable pub add_envelope :
      Dict ArtifactRef SignedEnvelope → SignedEnvelope → Result (Dict ArtifactRef SignedEnvelope)
  add_envelope d e = artifact_ref e >>= λ reference. ok (insert reference e d)

  unfoldable pub append_new :
      LocalArtifactLedger
      → ArtifactLedgerEntry
      → Dict ArtifactRef SignedEnvelope
      → Result (LocalArtifactLedger × AppendOutcome)
  append_new ledger e new_envelopes = do
    require (not (precedes e (last_entry ledger.entries))) value_error
    state_hash ← advance_state_hash ledger.state_hash e
    ok (
      record {
        entries = ledger.entries ++ e ∷ [];
        envelopes_by_ref = union ledger.envelopes_by_ref new_envelopes;
        state_hash = state_hash;
      },
      accepted,
    )

  unfoldable pub append_transaction :
      LocalArtifactLedger → ArtifactLedgerEntry → Result (LocalArtifactLedger × AppendOutcome)
  append_transaction ledger e = do
    new_envelopes ← for_m add_envelope [] e.transaction.envelopes
    if not (eqb (length new_envelopes) (length e.transaction.envelopes))
        then ok (ledger, duplicate)
        else if any (λ r. has_key r ledger.envelopes_by_ref) (keys new_envelopes)
        then ok (ledger, duplicate)
        else append_new ledger e new_envelopes
