-- ===== src/Node/Store/Rows.antt =====
-- The rows that stand for ledger entries, and reading them back.
use discovery_net.Base.{
  ℕ, ◌≤◌, ◌<◌, true, false, ◌≡◌, ◌⊎◌, refl, some, List, [], ◌∷◌, ltb, any, arith, All,
}
use discovery_net.Base.Result.{ok, map_m}
use discovery_net.Base.Text.{Bytes, text_eq, to_bytes}
use discovery_net.Wire.External.{External}
use discovery_net.Wire.Codec.{encode_transaction, decode_transaction}
use discovery_net.Node.Ledger.{ArtifactLedgerEntry, new_entry, max_int64, max_uint64}
use discovery_net.Node.Store.{
  Row, StoredArtifactLedgerEntry, new_snapshot, new_stored_entry, row_lt, stored_entry_of_row,
  select_entries, ledger_entry, read_entries, read_snapshot,
}
use discovery_net.Node.Store.Order.{
  length-to_bytes, from_bytes-to_bytes, blob_lt-to_bytes, IsOrdered, order_by_position-IsOrdered,
}

-- The order of block positions
abbrev pub Before : ArtifactLedgerEntry → ArtifactLedgerEntry → Type 0
Before e f =
    (e.height < f.height) ⊎ ((e.height ≡ f.height) × (e.transaction_index < f.transaction_index))

-- Every entry lies before all later ones.
abbrev pub IsIncreasing : List ArtifactLedgerEntry → Type 0
IsIncreasing [] = Unit
IsIncreasing (e ∷ es) = All (Before e) es × IsIncreasing es

module _ ⦃ext : External⦄ where
  -- An entry that the constructor accepts and whose transaction came from `bytes`
  pub record IsStorable (e : ArtifactLedgerEntry) (bytes : Bytes) : Type 0 where
    pub positive : 1 ≤ e.height
    pub height_fits : e.height ≤ max_int64
    pub index_fits : e.transaction_index ≤ max_uint64
    pub encoded : encode_transaction e.transaction ≡ ok bytes
    pub decoded : decode_transaction bytes ≡ ok e.transaction

  abbrev pub row_of : ArtifactLedgerEntry → Bytes → Row
  row_of e bytes = record {
    height = e.height;
    transaction_index = to_bytes 8 e.transaction_index;
    transaction_bytes = bytes;
  }

  abbrev pub stored_of : ArtifactLedgerEntry → Bytes → StoredArtifactLedgerEntry
  stored_of e bytes = record {
    height = e.height;
    transaction_index = e.transaction_index;
    transaction_bytes = bytes;
  }

  -- The rows of entries, in the order of the entries
  pub data Holds : List ArtifactLedgerEntry → List Row → Type 0 where
    nothing : Holds [] []
    holds :
        {es : List ArtifactLedgerEntry} {rows : List Row} (e : ArtifactLedgerEntry) (bytes : Bytes)
        → IsStorable e bytes
        → Holds es rows
        → Holds (e ∷ es) (row_of e bytes ∷ rows)

  pub row_lt-Before :
      (e f : ArtifactLedgerEntry) (b c : Bytes)
      → IsStorable e b
      → IsStorable f c
      → Before e f
      → row_lt (row_of e b) (row_of f c) ≡ true
  unfolding row_lt
  row_lt-Before e f b c s t h =
      let below : e.transaction_index < 18446744073709551616 = omega arith in
      let below' : f.transaction_index < 18446744073709551616 = omega arith in
      ground (arith, blob_lt-to_bytes 8 e.transaction_index f.transaction_index below below', h)

  pub Holds-IsOrdered :
      {es : List ArtifactLedgerEntry} {rows : List Row}
      → Holds es rows
      → IsIncreasing es
      → IsOrdered rows
  Holds-IsOrdered nothing h = tt
  Holds-IsOrdered (holds e b s nothing) h = tt
  Holds-IsOrdered (holds e b s (holds f c t rest)) h =
      (row_lt-Before e f b c s t h.0.0, Holds-IsOrdered (holds f c t rest) h.1)

  stored_entry_of_row-row_of :
      (e : ArtifactLedgerEntry) (bytes : Bytes)
      → IsStorable e bytes
      → stored_entry_of_row (row_of e bytes) ≡ ok (stored_of e bytes)
  unfolding stored_entry_of_row new_stored_entry
  stored_entry_of_row-row_of e bytes s =
      let below : e.transaction_index < 18446744073709551616 = omega arith in
      let back = from_bytes-to_bytes 8 e.transaction_index below in
      ground (arith, length-to_bytes 8 e.transaction_index, back, s.index_fits)

  ledger_entry-stored_of :
      (e : ArtifactLedgerEntry) (bytes : Bytes)
      → IsStorable e bytes
      → ledger_entry (stored_of e bytes) ≡ ok e
  unfolding ledger_entry new_entry
  ledger_entry-stored_of e bytes s = rw s.decoded (ground arith)

  pub read_rows :
      {es : List ArtifactLedgerEntry} {rows : List Row}
      → Holds es rows
      → (stored : List StoredArtifactLedgerEntry) × (map_m stored_entry_of_row rows ≡ ok stored)
        × (map_m ledger_entry stored ≡ ok es)
  read_rows nothing = ([], refl, refl)
  read_rows (holds e b s rest) =
      let (stored, selected, entries) = read_rows rest in
      (
        stored_of e b ∷ stored,
        rw (stored_entry_of_row-row_of e b s, selected),
        rw (ledger_entry-stored_of e b s, entries),
      )

  pub not-any-later :
      (height : ℕ) (es : List ArtifactLedgerEntry)
      → All (λ e. e.height ≤ height) es
      → any (λ e. ltb height e.height) es ≡ false
  not-any-later height [] h = refl
  not-any-later height (e ∷ es) h = ground (arith, not-any-later height es h.1)

  pub new_snapshot_lem :
      (height : ℕ) (es : List ArtifactLedgerEntry)
      → height ≤ max_int64
      → All (λ e. e.height ≤ height) es
      → new_snapshot (record { height = height; entries = es })
        ≡ ok (record { height = height; entries = es })
  unfolding new_snapshot
  new_snapshot_lem height es fits h = ground (arith, not-any-later height es h)

  -- Reading a database that holds entries in increasing order gives exactly these entries.
  pub read_snapshot-Holds :
      (es : List ArtifactLedgerEntry) (rows : List Row) (height : ℕ)
      → Holds es rows
      → IsIncreasing es
      → height ≤ max_int64
      → All (λ e. e.height ≤ height) es
      → read_snapshot (record { committed_height = some height; rows = rows })
        ≡ ok (some (record { height = height; entries = es }))
  unfolding read_snapshot read_entries select_entries
  read_snapshot-Holds es rows height h inc fits bounded =
      let (stored, selected, entries) = read_rows h in
      rw (
        order_by_position-IsOrdered rows (Holds-IsOrdered h inc),
        selected,
        entries,
        new_snapshot_lem height es fits bounded,
      )
