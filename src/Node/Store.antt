-- ===== src/Node/Store.antt =====
-- node/store/*.py: snapshots and their rows in SQLite. The database is its two tables; a
-- transaction that raises is rolled back, so a failed `save` leaves the database as it was.
pub mod Order
pub mod Rows
pub mod Saved
use discovery_net.Base.{
  ℕ, ◌+◌, Bool, true, false, not, ◌&&◌, ◌||◌, Option, none, some, List, [], ◌∷◌, ◌++◌, Eq, ◌==◌,
  ltb, leb, eqb, any, all, length, take, drop, map, if◌then◌else◌, nat_eq, list_eq, ◌↔◌, ◌≡◌, arith,
  ==_iff,
}
use discovery_net.Base.Result.{
  Result, ok, err, value_error, integrity_error, is_type_error, is_value_error, require, reraise,
  map_m, for_m, ◌>>=◌, ◌>>◌,
}
use discovery_net.Base.Text.{Bytes, text_eq, to_bytes, from_bytes}
use discovery_net.Wire.External.{External}
use discovery_net.Wire.Payload.{is_type_or_value_error}
use discovery_net.Wire.Codec.{encode_transaction, decode_transaction}
use discovery_net.Node.Ledger.{ArtifactLedgerEntry, new_entry, max_int64, max_uint64}
use discovery_net.Node.Equality.{entry_eq}

-- store/artifact_ledger_store.py
pub record ArtifactLedgerSnapshot : Type 0 where
  pub height : ℕ
  pub entries : List ArtifactLedgerEntry

unfoldable pub new_snapshot : ArtifactLedgerSnapshot → Result ArtifactLedgerSnapshot
new_snapshot s = do
  require (leb s.height max_int64) value_error
  require (not (any (λ e. ltb s.height e.height) s.entries)) value_error
  ok s

-- A row of `artifact_ledger_entries`
pub record Row : Type 0 where
  pub height : ℕ
  pub transaction_index : Bytes
  pub transaction_bytes : Bytes

-- `artifact_ledger_state` has one row at most.
pub record Database : Type 0 where
  pub committed_height : Option ℕ
  pub rows : List Row

pub record StoredArtifactLedgerEntry : Type 0 where
  pub height : ℕ
  pub transaction_index : ℕ
  pub transaction_bytes : Bytes

-- `StoredArtifactLedgerEntry(...)`
unfoldable pub new_stored_entry : StoredArtifactLedgerEntry → Result StoredArtifactLedgerEntry
new_stored_entry e = do require (leb e.transaction_index max_uint64) value_error; ok e

abbrev pub empty_database : Database
empty_database = record { committed_height = none; rows = [] }

-- The order of blobs, and of `ORDER BY height, transaction_index`
unfoldable pub blob_lt : Bytes → Bytes → Bool
blob_lt [] [] = false
blob_lt [] (c ∷ t) = true
blob_lt (b ∷ s) [] = false
blob_lt (b ∷ s) (c ∷ t) = ltb b c || (eqb b c && blob_lt s t)

unfoldable pub row_lt : Row → Row → Bool
unfolding blob_lt
row_lt a b =
    ltb a.height b.height
    || (eqb a.height b.height && blob_lt a.transaction_index b.transaction_index)

unfoldable pub insert_row : Row → List Row → List Row
insert_row r [] = r ∷ []
insert_row r (s ∷ rows) = if row_lt s r then s ∷ insert_row r rows else r ∷ s ∷ rows

unfoldable pub order_by_position : List Row → List Row
order_by_position [] = []
order_by_position (r ∷ rows) = insert_row r (order_by_position rows)

-- `_stored_entry` of queries.py
unfoldable pub stored_entry_of_row : Row → Result StoredArtifactLedgerEntry
stored_entry_of_row r = do
  require (eqb (length r.transaction_index) 8) value_error
  new_stored_entry (record {
    height = r.height;
    transaction_index = from_bytes r.transaction_index;
    transaction_bytes = r.transaction_bytes;
  })

unfoldable pub select_entries : Database → Result (List StoredArtifactLedgerEntry)
select_entries db =
    reraise is_type_or_value_error value_error
      (map_m stored_entry_of_row (order_by_position db.rows))

-- `WHERE height > ?`
unfoldable pub rows_after : ℕ → List Row → List Row
rows_after height [] = []
rows_after height (r ∷ rows) =
    if ltb height r.height then r ∷ rows_after height rows else rows_after height rows

unfoldable pub select_entries_after : Database → ℕ → Result (List StoredArtifactLedgerEntry)
select_entries_after db height =
    reraise is_type_or_value_error value_error
      (map_m stored_entry_of_row (order_by_position (rows_after height db.rows)))

-- The constraints of `artifact_ledger_entries`: the range of the height, the length of the index
-- and the primary key
unfoldable pub insertable : List Row → Row → Bool
insertable rows r =
    leb 1 r.height
    && leb r.height max_int64
    && eqb (length r.transaction_index) 8
    && not (any (λ s. eqb s.height r.height && (s.transaction_index == r.transaction_index)) rows)

unfoldable pub insert_entry : List Row → StoredArtifactLedgerEntry → Result (List Row)
insert_entry rows e =
    let r : Row = record {
      height = e.height;
      transaction_index = to_bytes 8 e.transaction_index;
      transaction_bytes = e.transaction_bytes;
    } in
    require (insertable rows r) integrity_error >> ok (rows ++ r ∷ [])

unfoldable pub insert_entries : List Row → List StoredArtifactLedgerEntry → Result (List Row)
insert_entries rows entries = for_m insert_entry rows entries

unfoldable pub new_entries :
    Option ArtifactLedgerSnapshot → ArtifactLedgerSnapshot → Result (List ArtifactLedgerEntry)
new_entries none snapshot = ok snapshot.entries
new_entries (some persisted) snapshot = do
  require (not (ltb snapshot.height persisted.height)) value_error
  require (not (ltb (length snapshot.entries) (length persisted.entries))) value_error
  require (take (length persisted.entries) snapshot.entries == persisted.entries) value_error
  let added = drop (length persisted.entries) snapshot.entries
  if eqb snapshot.height persisted.height
      then require (eqb (length added) 0) value_error >> ok []
      else require (not (any (λ e. leb e.height persisted.height) added)) value_error >> ok added

module _ ⦃ext : External⦄ where
  -- `_stored_entry` and `_ledger_entry` of sqlite_store.py
  unfoldable pub stored_entry : ArtifactLedgerEntry → Result StoredArtifactLedgerEntry
  stored_entry e = do
    bytes ← encode_transaction e.transaction
    new_stored_entry (record {
      height = e.height;
      transaction_index = e.transaction_index;
      transaction_bytes = bytes;
    })

  unfoldable pub ledger_entry : StoredArtifactLedgerEntry → Result ArtifactLedgerEntry
  ledger_entry e = do
    t ← decode_transaction e.transaction_bytes
    new_entry
        (record { transaction = t; height = e.height; transaction_index = e.transaction_index })

  -- The body of the `try` of `_read_snapshot`
  unfoldable pub read_entries : Database → ℕ → Result ArtifactLedgerSnapshot
  read_entries db height = do
    stored ← select_entries db
    entries ← map_m ledger_entry stored
    new_snapshot (record { height = height; entries = entries })

  abbrev pub read_at : Database → Option ℕ → Result (Option ArtifactLedgerSnapshot)
  read_at db none = if eqb (length db.rows) 0 then ok none else err value_error
  read_at db (some height) = do
    s ← reraise is_type_or_value_error value_error (read_entries db height)
    ok (some s)

  -- `_read_snapshot`, which is all that `load` does
  unfoldable pub read_snapshot : Database → Result (Option ArtifactLedgerSnapshot)
  read_snapshot db = read_at db db.committed_height

  unfoldable pub save : Database → ArtifactLedgerSnapshot → Result Database
  save db snapshot = do
    persisted ← read_snapshot db
    added ← new_entries persisted snapshot
    stored ← map_m stored_entry added
    rows ← insert_entries db.rows stored
    ok (record { committed_height = some snapshot.height; rows = rows })
