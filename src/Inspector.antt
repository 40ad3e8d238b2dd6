-- ===== src/Inspector.antt =====
-- inspector/: sources.py, sqlite_ledger_reader.py, and the part of service.py that keeps the index
-- of a running node up to date.
pub mod Feed
pub mod Reading
pub mod Advance
pub mod Follows
pub mod Steps
pub mod Interleaving
use discovery_net.Base.{
  ℕ, Bool, true, false, not, ◌&&◌, ◌||◌, Option, none, some, List, [], ◌∷◌, Eq, ◌==◌, ltb, leb, eqb,
  any, length, if◌then◌else◌,
}
use discovery_net.Base.Result.{Result, ok, err, value_error, require, reraise, map_m, ◌>>=◌, ◌>>◌}
use discovery_net.Base.Text.{Str, text_eq, is_empty}
use discovery_net.Wire.External.{External}
use discovery_net.Wire.Envelope.{chain_id}
use discovery_net.Wire.Payload.{is_type_or_value_error}
use discovery_net.Node.Ledger.{ArtifactLedgerEntry}
use discovery_net.Node.Store.{Database, select_entries_after, ledger_entry}
use discovery_net.Index.{GraphState, append}

pub record ArtifactLedgerUpdate : Type 0 where
  pub height : ℕ
  pub entries : List ArtifactLedgerEntry

-- `ArtifactLedgerUpdate(...)`
unfoldable pub new_update : ArtifactLedgerUpdate → Result ArtifactLedgerUpdate
new_update u = do require (not (any (λ e. ltb u.height e.height) u.entries)) value_error; ok u

-- The fields that change; the clock, the sources and the lock do not.
pub record InspectorService : Type 0 where
  pub index : GraphState
  pub indexed_height : Option ℕ
  pub indexed_chain_id : Option Str

-- `committed_height`, which is 0 where nothing was committed
unfoldable pub observed_height : Database → Option ℕ → Result ℕ
observed_height db none = if eqb (length db.rows) 0 then ok 0 else err value_error
observed_height db (some height) = ok height

-- `x is None or x == y`
abbrev pub is_unset_or {ℓ} : {K : Type ℓ} ⦃e : Eq K⦄ → Option K → K → Bool
is_unset_or none y = true
is_unset_or (some x) y = x == y

-- `self._indexed_height is not None and update.height < self._indexed_height`
abbrev pub is_behind : Option ℕ → ℕ → Bool
is_behind none height = false
is_behind (some indexed) height = ltb height indexed

-- `update.height == self._indexed_height`
abbrev pub is_at : Option ℕ → ℕ → Bool
is_at none height = false
is_at (some indexed) height = eqb height indexed

-- `self._indexed_chain_id is not None and ledger_chain_id not in {None, self._indexed_chain_id}`
abbrev pub is_foreign : Option Str → Option Str → Bool
is_foreign none ledger = false
is_foreign (some indexed) none = false
is_foreign (some indexed) (some ledger) = not (ledger == indexed)

abbrev pub or_else : Option Str → Option Str → Option Str
or_else none old = old
or_else (some new) old = some new

-- The set of the chain identifiers has one element exactly when all are the first.
unfoldable pub update_chain_id : List ArtifactLedgerEntry → Result (Option Str)
update_chain_id [] = ok none
update_chain_id (e ∷ es) = do
  require (not (any (λ f. not (chain_id f.transaction == chain_id e.transaction)) es)) value_error
  ok (some (chain_id e.transaction))

module _ ⦃ext : External⦄ where
  -- The body of the `try` of `updates_after`
  unfoldable pub read_updates : Database → ℕ → Result ArtifactLedgerUpdate
  read_updates db height = do
    committed_height ← observed_height db db.committed_height
    stored ← select_entries_after db height
    entries ← map_m ledger_entry stored
    new_update (record { height = committed_height; entries = entries })

  unfoldable pub updates_after : Database → ℕ → Result ArtifactLedgerUpdate
  updates_after db height = reraise is_type_or_value_error value_error (read_updates db height)

  -- What `_advance_index` does with an update that brings something new
  unfoldable pub take_update :
      InspectorService → ArtifactLedgerUpdate → Str → Result InspectorService
  take_update s u node_chain_id = do
    ledger_chain_id ← update_chain_id u.entries
    require (is_unset_or ledger_chain_id node_chain_id) value_error
    require (not (is_foreign s.indexed_chain_id ledger_chain_id)) value_error
    index ← append s.index u.entries u.height
    ok (record {
      index = index;
      indexed_height = some u.height;
      indexed_chain_id = or_else ledger_chain_id s.indexed_chain_id;
    })

  unfoldable pub advance_index :
      InspectorService → ArtifactLedgerUpdate → Str → Result InspectorService
  advance_index s u node_chain_id = do
    require (is_unset_or s.indexed_chain_id node_chain_id) value_error
    require (not (is_behind s.indexed_height u.height)) value_error
    if is_at s.indexed_height u.height && is_empty u.entries
        then ok s
        else take_update s u node_chain_id

  -- `_synchronize` with a reader of the database
  unfoldable pub synchronize : InspectorService → Database → Str → Result InspectorService
  synchronize s db node_chain_id = do
    require (is_unset_or s.indexed_chain_id node_chain_id) value_error
    update ← updates_after db s.index.height
    advance_index s update node_chain_id
