-- ===== src/Node/Handler/Loop.antt =====
-- What the loop of `finalize_block` keeps: the ledger can be replayed from its entries, and the new
-- entries can be stored.
use discovery_net.Base.{
  length, ℕ, ◌+◌, ◌≤◌, ◌≡◌, inr, refl, sym, ◌∙◌, ap, some, List, [], ◌∷◌, ◌++◌, append_assoc, arith,
  All, All-append, subst,
}
use discovery_net.Base.Result.{Result, ok, for_m, for_m-snoc}
use discovery_net.Base.Text.{Bytes}
use discovery_net.Wire.External.{External}
use discovery_net.Node.Validator.{TransactionValidator}
use discovery_net.Node.Ledger.{
  ArtifactLedgerEntry, LocalArtifactLedger, empty_ledger, last_entry, max_int64, max_uint64,
}
use discovery_net.Node.Recovery.{replay_entry}
use discovery_net.Node.Store.{Row}
use discovery_net.Node.Store.Rows.{Before, IsIncreasing, IsStorable, row_of, Holds, nothing, holds}
use discovery_net.Node.Store.Saved.{Holds-append}
use discovery_net.Node.Handler.{Execution}
use discovery_net.Node.Handler.Block.{
  IsAfter, InRange, Appends, Skips, Run, stop, append, skip, entry_at,
}

-- Every entry lies before the position.
abbrev pub AllEarlier : ℕ → ℕ → List ArtifactLedgerEntry → Type 0
AllEarlier height index = All (λ p. IsAfter height index (some p))

pub IsAfter-last :
    (height index : ℕ) (es : List ArtifactLedgerEntry)
    → AllEarlier height index es
    → IsAfter height index (last_entry es)
unfolding last_entry
IsAfter-last height index [] h = tt
IsAfter-last height index (e ∷ []) h = h.0
IsAfter-last height index (e ∷ f ∷ es) h = IsAfter-last height index (f ∷ es) h.1

AllEarlier-suc :
    (height index : ℕ) (es : List ArtifactLedgerEntry)
    → AllEarlier height index es
    → AllEarlier height (index + 1) es
AllEarlier-suc height index [] h = tt
AllEarlier-suc height index (e ∷ es) h = (omega arith, AllEarlier-suc height index es h.1)

IsIncreasing-snoc :
    (es : List ArtifactLedgerEntry) (e : ArtifactLedgerEntry)
    → IsIncreasing es
    → AllEarlier e.height e.transaction_index es
    → IsIncreasing (es ++ e ∷ [])
IsIncreasing-snoc [] e inc h = (tt, tt)
IsIncreasing-snoc (f ∷ es) e inc h =
    (All-append (Before f) es (e ∷ []) inc.0 (h.0, tt), IsIncreasing-snoc es e inc.1 h.1)

module _ ⦃ext : External⦄ where
  abbrev pub replay : TransactionValidator → List ArtifactLedgerEntry → Result LocalArtifactLedger
  replay v es = for_m (replay_entry v) empty_ledger es

  pub record LoopKeeps (v : TransactionValidator) (base : List ArtifactLedgerEntry)
      (height index : ℕ) (x : Execution) : Type 0 where
    pub replayed : replay v x.ledger.entries ≡ ok x.ledger
    pub grown : x.ledger.entries ≡ base ++ x.new_entries
    pub rows : List Row
    pub held : Holds x.new_entries rows
    pub increasing : IsIncreasing x.ledger.entries
    pub earlier : AllEarlier height index x.ledger.entries
    pub here : All (λ e. e.height ≡ height) x.new_entries

  replay_entry-Appends :
      (v : TransactionValidator) (height index : ℕ) (x y : Execution) (t : Bytes)
      → (a : Appends v height index x t y)
      → replay_entry v x.ledger (entry_at a.t height index) ≡ ok y.ledger
  unfolding replay_entry
  replay_entry-Appends v height index x y t a = rw (a.encoded, a.valid, a.appended)

  module _ (v : TransactionValidator) (base : List ArtifactLedgerEntry) (height : ℕ) where
    Appends-LoopKeeps :
        (index : ℕ) (x y : Execution) (t : Bytes)
        → InRange height index
        → Appends v height index x t y
        → LoopKeeps v base height index x
        → LoopKeeps v base height (index + 1) y
    Appends-LoopKeeps index x y t r a k =
        let e = entry_at a.t height index in
        let storable : IsStorable e t = record {
          positive = r.positive;
          height_fits = r.height_fits;
          index_fits = r.index_fits;
          encoded = a.encoded;
          decoded = a.decoded;
        } in
        record {
          replayed =
              ap (replay v) a.entries
              ∙ for_m-snoc (replay_entry v) empty_ledger x.ledger x.ledger.entries e k.replayed
              ∙ replay_entry-Appends v height index x y t a;
          grown =
              a.entries
              ∙ ap (λ l. l ++ e ∷ []) k.grown
              ∙ append_assoc base x.new_entries (e ∷ [])
              ∙ ap (λ l. base ++ l) (sym a.new_entries);
          rows = k.rows ++ row_of e t ∷ [];
          held =
              subst (λ l. Holds l (k.rows ++ row_of e t ∷ [])) (sym a.new_entries)
                (Holds-append k.held (holds e t storable nothing));
          increasing =
              subst IsIncreasing (sym a.entries)
                (IsIncreasing-snoc x.ledger.entries e k.increasing k.earlier);
          earlier = subst (AllEarlier height (index + 1)) (sym a.entries) (
              All-append (λ p. IsAfter height (index + 1) (some p)) x.ledger.entries (e ∷ [])
                (AllEarlier-suc height index x.ledger.entries k.earlier)
                (inr (refl, omega arith), tt));
          here =
              subst (All (λ p. p.height ≡ height)) (sym a.new_entries)
                (All-append (λ p. p.height ≡ height) x.new_entries (e ∷ []) k.here (refl, tt));
        }

    Skips-LoopKeeps :
        (index : ℕ) (x y : Execution) (t : Bytes)
        → Skips v height index x t y
        → LoopKeeps v base height index x
        → LoopKeeps v base height (index + 1) y
    Skips-LoopKeeps index x y t s k = record {
      replayed = subst (λ l. replay v l.entries ≡ ok l) (sym s.ledger) k.replayed;
      grown = ap (λ l. l.entries) s.ledger ∙ k.grown ∙ ap (λ l. base ++ l) (sym s.new_entries);
      rows = k.rows;
      held = subst (λ l. Holds l k.rows) (sym s.new_entries) k.held;
      increasing = subst (λ l. IsIncreasing l.entries) (sym s.ledger) k.increasing;
      earlier =
          subst (λ l. AllEarlier height (index + 1) l.entries) (sym s.ledger)
            (AllEarlier-suc height index x.ledger.entries k.earlier);
      here = subst (All (λ p. p.height ≡ height)) (sym s.new_entries) k.here;
    }

    pub Run-LoopKeeps :
        {index : ℕ} {x z : Execution} {ts : List Bytes}
        → 1 ≤ height
        → height ≤ max_int64
        → index + length ts ≤ max_uint64
        → Run v height index x ts z
        → LoopKeeps v base height index x
        → (last : ℕ) × LoopKeeps v base height last z
    Run-LoopKeeps {index} low high fits stop k = (index, k)
    Run-LoopKeeps {index} {x} {ts = t ∷ ts} low high fits (append {y = y} a run) k =
        Run-LoopKeeps low high (omega arith) run (Appends-LoopKeeps index x y t (omega arith) a k)
    Run-LoopKeeps {index} {x} {ts = t ∷ ts} low high fits (skip {y = y} s run) k =
        Run-LoopKeeps low high (omega arith) run (Skips-LoopKeeps index x y t s k)
