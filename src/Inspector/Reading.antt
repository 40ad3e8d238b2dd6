-- ===== src/Inspector/Reading.antt =====
-- inspector/sqlite_ledger_reader.py: what `updates_after` reads from the database of a node.
use discovery_net.Base.{
  ℕ, ◌≤◌, ◌<◌, ◌≡◌, refl, ◌∙◌, subst, List, [], ◌∷◌, ◌++◌, ltb, keep_if, keep_if-append, All, arith,
  Bool-cases, inl, inr,
}
use discovery_net.Base.Result.{ok}
use discovery_net.Wire.External.{External}
use discovery_net.Node.Ledger.{ArtifactLedgerEntry}
use discovery_net.Node.Store.{Database, Row, rows_after, select_entries_after}
use discovery_net.Node.Store.Rows.{
  IsIncreasing, Holds, nothing, holds, Holds-IsOrdered, read_rows, not-any-later,
}
use discovery_net.Node.Store.Order.{order_by_position-IsOrdered}
use discovery_net.Node.Store.Saved.{Persists, Persists-rows, fresh, committed}
use discovery_net.Inspector.{new_update, read_updates, updates_after, observed_height}

IsIncreasing-after : (es fs : List ArtifactLedgerEntry) → IsIncreasing (es ++ fs) → IsIncreasing fs
IsIncreasing-after [] fs h = h
IsIncreasing-after (e ∷ es) fs h = IsIncreasing-after es fs h.1

abbrev later : ℕ → List ArtifactLedgerEntry → List ArtifactLedgerEntry
later height es = keep_if (λ e. ltb height e.height) es

later-old :
    (height : ℕ) (es : List ArtifactLedgerEntry)
    → All (λ e. e.height ≤ height) es
    → later height es ≡ []
later-old height [] h = refl
later-old height (e ∷ es) h = ground (arith, later-old height es h.1)

later-new :
    (height : ℕ) (es : List ArtifactLedgerEntry)
    → All (λ e. height < e.height) es
    → later height es ≡ es
later-new height [] h = refl
later-new height (e ∷ es) h = ground (arith, later-new height es h.1)

module _ ⦃ext : External⦄ where
  rows_after-Holds :
      (height : ℕ) {es : List ArtifactLedgerEntry} {rows : List Row}
      → Holds es rows
      → Holds (later height es) (rows_after height rows)
  unfolding rows_after
  rows_after-Holds height nothing = nothing
  rows_after-Holds height (holds {es = es} {rows = rows} e bytes stored held) =
      elim (Bool-cases (ltb height e.height)) [
        | inl new ↦ rw new (holds e bytes stored (rows_after-Holds height held))
        | inr old ↦ rw old (rows_after-Holds height held)
      ]

  new_update_lem :
      (height : ℕ) (es : List ArtifactLedgerEntry)
      → All (λ e. e.height ≤ height) es
      → new_update (record { height = height; entries = es })
        ≡ ok (record { height = height; entries = es })
  unfolding new_update
  new_update_lem height es h = ground (arith, not-any-later height es h)

  updates_after-Holds :
      (db : Database) (height committed_height : ℕ) (es fs : List ArtifactLedgerEntry)
      → observed_height db db.committed_height ≡ ok committed_height
      → Holds (es ++ fs) db.rows
      → IsIncreasing (es ++ fs)
      → All (λ e. e.height ≤ height) es
      → All (λ e. height < e.height) fs
      → All (λ e. e.height ≤ committed_height) fs
      → updates_after db height ≡ ok (record { height = committed_height; entries = fs })
  unfolding updates_after read_updates select_entries_after
  updates_after-Holds db height committed_height es fs observed held inc old new bounded =
      let kept : later height (es ++ fs) ≡ fs =
        keep_if-append (λ e. ltb height e.height) es fs
        ∙ rw (later-old height es old, later-new height fs new) refl in
      let rows_held : Holds fs (rows_after height db.rows) =
        subst (λ l. Holds l (rows_after height db.rows)) kept (rows_after-Holds height held) in
      let (stored, selected, entries) = read_rows rows_held in
      rw
        (
          observed,
          order_by_position-IsOrdered (rows_after height db.rows)
              (Holds-IsOrdered rows_held (IsIncreasing-after es fs inc)),
          selected,
          entries,
          new_update_lem committed_height fs bounded,
        )
        refl

  observed_height-Persists :
      (height : ℕ) (es : List ArtifactLedgerEntry) (db : Database)
      → Persists height es db
      → observed_height db db.committed_height ≡ ok height
  unfolding observed_height
  observed_height-Persists height es db fresh = refl
  observed_height-Persists height es db (committed h es' rows held inc bounded fits) = refl

  Persists-IsIncreasing :
      (height : ℕ) (es : List ArtifactLedgerEntry) (db : Database)
      → Persists height es db
      → IsIncreasing es
  Persists-IsIncreasing height es db fresh = tt
  Persists-IsIncreasing height es db (committed h es' rows held inc bounded fits) = inc

  pub Persists-bounded :
      (height : ℕ) (es : List ArtifactLedgerEntry) (db : Database)
      → Persists height es db
      → All (λ e. e.height ≤ height) es
  Persists-bounded height es db fresh = tt
  Persists-bounded height es db (committed h es' rows held inc bounded fits) = bounded

  pub All-after :
      (P : ArtifactLedgerEntry → Type 0) (es fs : List ArtifactLedgerEntry)
      → All P (es ++ fs)
      → All P fs
  All-after P [] fs h = h
  All-after P (e ∷ es) fs h = All-after P es fs h.1

  -- On a database that holds entries up to a height, `updates_after` an earlier height returns the
  -- committed height and exactly the entries of the blocks after that height, in order.
  pub updates_after-Persists :
      (db : Database) (height committed_height : ℕ) (es fs : List ArtifactLedgerEntry)
      → Persists committed_height (es ++ fs) db
      → All (λ e. e.height ≤ height) es
      → All (λ e. height < e.height) fs
      → updates_after db height ≡ ok (record { height = committed_height; entries = fs })
  updates_after-Persists db height committed_height es fs persists old new =
      updates_after-Holds db height committed_height es fs
        (observed_height-Persists committed_height (es ++ fs) db persists)
        (Persists-rows committed_height (es ++ fs) db persists)
        (Persists-IsIncreasing committed_height (es ++ fs) db persists) old new
        (All-after (λ e. e.height ≤ committed_height) es fs
          (Persists-bounded committed_height (es ++ fs) db persists))
