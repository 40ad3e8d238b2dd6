-- ===== src/Node/Store/Saved.antt =====
-- Saving a snapshot that extends what is stored, and reading it back.
use discovery_net.Base.{
  ℕ, ◌≤◌, ◌<◌, Bool, false, ◌&&◌, ◌≡◌, refl, sym, ◌∙◌, ap, none, some, List, [], ◌∷◌, ◌++◌,
  append_assoc, append-nil, length-append, leb, eqb, any, arith, All, subst, take-append,
  drop-append, ==-refl, list_eq, ◌==◌,
}
use discovery_net.Base.Result.{ok, map_m, for_m}
use discovery_net.Base.Text.{Bytes, text_eq}
use discovery_net.Wire.External.{External}
use discovery_net.Node.Ledger.{ArtifactLedgerEntry, max_int64}
use discovery_net.Node.Equality.{entry_eq}
use discovery_net.Node.Store.{
  ArtifactLedgerSnapshot, Row, Database, StoredArtifactLedgerEntry, new_stored_entry, insertable,
  insert_entry, insert_entries, new_entries, stored_entry, read_snapshot, save,
}
use discovery_net.Node.Store.Order.{length-to_bytes, to_bytes-injective}
use discovery_net.Node.Store.Rows.{
  Before, IsIncreasing, IsStorable, row_of, stored_of, Holds, nothing, holds, read_snapshot-Holds,
}

All-Before-last :
    (es rest : List ArtifactLedgerEntry) (e : ArtifactLedgerEntry)
    → IsIncreasing (es ++ e ∷ rest)
    → All (λ f. Before f e) es
All-Before-last [] rest e h = tt
All-Before-last (f ∷ es) rest e h = (All-at es rest h.0, All-Before-last es rest e h.1)
  where
    All-at : (es rest : List ArtifactLedgerEntry) → All (Before f) (es ++ e ∷ rest) → Before f e
    All-at [] rest h = h.0
    All-at (g ∷ es) rest h = All-at es rest h.1

module _ ⦃ext : External⦄ where
  abbrev same_key : Row → Row → Bool
  same_key r s = eqb s.height r.height && (s.transaction_index == r.transaction_index)

  same_key-Before :
      (e f : ArtifactLedgerEntry) (b c : Bytes)
      → IsStorable e b
      → IsStorable f c
      → Before f e
      → same_key (row_of e b) (row_of f c) ≡ false
  same_key-Before e f b c s t h =
      let below : e.transaction_index < 18446744073709551616 = omega arith in
      let below' : f.transaction_index < 18446744073709551616 = omega arith in
      ground (arith, to_bytes-injective 8 f.transaction_index e.transaction_index below' below, h)

  no_key :
      (e : ArtifactLedgerEntry) (b : Bytes) {es : List ArtifactLedgerEntry} {rows : List Row}
      → IsStorable e b
      → Holds es rows
      → All (λ f. Before f e) es
      → any (same_key (row_of e b)) rows ≡ false
  no_key e b s nothing h = refl
  no_key e b s (holds f c t rest) h =
      ground (arith, same_key-Before e f b c s t h.0, no_key e b s rest h.1)

  insert_entry-new :
      (e : ArtifactLedgerEntry) (b : Bytes) (es : List ArtifactLedgerEntry) (rows : List Row)
      → IsStorable e b
      → Holds es rows
      → All (λ f. Before f e) es
      → insert_entry rows (stored_of e b) ≡ ok (rows ++ row_of e b ∷ [])
  unfolding insert_entry insertable
  insert_entry-new e b es rows s h before =
      let fresh : any (same_key (row_of e b)) rows ≡ false = no_key e b s h before in
      rw fresh (ground (arith, length-to_bytes 8 e.transaction_index, s.positive, s.height_fits))

  stored_entry-IsStorable :
      (e : ArtifactLedgerEntry) (b : Bytes) → IsStorable e b → stored_entry e ≡ ok (stored_of e b)
  unfolding stored_entry new_stored_entry
  stored_entry-IsStorable e b s = rw s.encoded (ground arith)

  pub Holds-append :
      {es fs : List ArtifactLedgerEntry} {rows added : List Row}
      → Holds es rows
      → Holds fs added
      → Holds (es ++ fs) (rows ++ added)
  Holds-append nothing k = k
  Holds-append (holds e b s h) k = holds e b s (Holds-append h k)

  insert_rows :
      (es : List ArtifactLedgerEntry) (rows : List Row) {fs : List ArtifactLedgerEntry}
      {added : List Row}
      → Holds es rows
      → Holds fs added
      → IsIncreasing (es ++ fs)
      → (stored : List StoredArtifactLedgerEntry) × (map_m stored_entry fs ≡ ok stored)
        × (for_m insert_entry rows stored ≡ ok (rows ++ added))
  insert_rows es rows h nothing inc = ([], refl, ap ok (sym (append-nil rows)))
  insert_rows es rows h (holds {es = fs} {rows = added} f c t rest) inc =
      let (stored, encoded, inserted) =
        insert_rows (es ++ f ∷ []) (rows ++ row_of f c ∷ []) (Holds-append h (holds f c t nothing))
          rest (subst IsIncreasing (sym (append_assoc es (f ∷ []) fs)) inc) in
      let first = insert_entry-new f c es rows t h (All-Before-last es fs f inc) in
      (
        stored_of f c ∷ stored,
        rw (stored_entry-IsStorable f c t, encoded),
        rw first (inserted ∙ ap ok (append_assoc rows (row_of f c ∷ []) added)),
      )

  none-old :
      (height : ℕ) (fs : List ArtifactLedgerEntry)
      → All (λ e. height < e.height) fs
      → any (λ e. leb e.height height) fs ≡ false
  none-old height [] h = refl
  none-old height (e ∷ fs) h = ground (arith, none-old height fs h.1)

  new_entries-append :
      (height next : ℕ) (es fs : List ArtifactLedgerEntry)
      → height < next
      → All (λ e. height < e.height) fs
      → new_entries
          (some (record { height = height; entries = es }))
          (record { height = next; entries = es ++ fs })
        ≡ ok fs
  unfolding new_entries
  new_entries-append height next es fs later h =
      rw (take-append es fs, drop-append es fs, ==-refl es)
        (ground (arith, length-append es fs, none-old height fs h, later))

  -- What a database holds before a commit: a committed height with its entries, or nothing.
  pub data Persists : ℕ → List ArtifactLedgerEntry → Database → Type 0 where
    fresh : Persists 0 [] (record { committed_height = none; rows = [] })
    committed :
        (height : ℕ) (es : List ArtifactLedgerEntry) (rows : List Row)
        → Holds es rows
        → IsIncreasing es
        → All (λ e. e.height ≤ height) es
        → height ≤ max_int64
        → Persists height es (record { committed_height = some height; rows = rows })

  -- The snapshot that `load` finds
  abbrev pub snapshot_of : ℕ → List ArtifactLedgerEntry → ArtifactLedgerSnapshot
  snapshot_of height es = record { height = height; entries = es }

  save-append :
      (height next : ℕ) (es fs : List ArtifactLedgerEntry) (db : Database) (added : List Row)
      → Persists height es db
      → Holds fs added
      → IsIncreasing (es ++ fs)
      → height < next
      → All (λ e. height < e.height) fs
      → save db (snapshot_of next (es ++ fs))
        ≡ ok (record { committed_height = some next; rows = db.rows ++ added })
  unfolding save insert_entries
  save-append height next es fs db added fresh k inc later newer =
      let (stored, encoded, inserted) = insert_rows [] [] nothing k inc in
      unfold read_snapshot new_entries in rw (encoded, inserted)
  save-append height next es fs db added (committed h es' rows held old bounded fits) k inc later
        newer =
      let (stored, encoded, inserted) = insert_rows es rows held k inc in
      rw (
        read_snapshot-Holds es rows height held old fits bounded,
        new_entries-append height next es fs later newer,
        encoded,
        inserted,
      )

  pub Persists-rows :
      (height : ℕ) (es : List ArtifactLedgerEntry) (db : Database)
      → Persists height es db
      → Holds es db.rows
  Persists-rows height es db fresh = nothing
  Persists-rows height es db (committed h es' rows held old bounded fits) = held

  -- Saving a snapshot that adds later blocks to what is stored succeeds, and the database then
  -- holds the snapshot.
  pub save-Persists :
      (height next : ℕ) (es fs : List ArtifactLedgerEntry) (db : Database) (added : List Row)
      → Persists height es db
      → Holds fs added
      → IsIncreasing (es ++ fs)
      → height < next
      → next ≤ max_int64
      → All (λ e. height < e.height) fs
      → All (λ e. e.height ≤ next) (es ++ fs)
      → (db' : Database) × (save db (snapshot_of next (es ++ fs)) ≡ ok db')
        × Persists next (es ++ fs) db'
        × (read_snapshot db' ≡ ok (some (snapshot_of next (es ++ fs))))
  save-Persists height next es fs db added p k inc later fits newer bounded =
      let held = Holds-append (Persists-rows height es db p) k in
      (
        record { committed_height = some next; rows = db.rows ++ added },
        save-append height next es fs db added p k inc later newer,
        committed next (es ++ fs) (db.rows ++ added) held inc bounded fits,
        read_snapshot-Holds (es ++ fs) (db.rows ++ added) next held inc fits bounded,
      )
