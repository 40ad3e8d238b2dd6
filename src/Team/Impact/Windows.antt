-- ===== src/Team/Impact/Windows.antt =====
-- research_team/impact.py: the packets that follow each other assess the pending runs in order.
use discovery_net.Base.{
  ℕ, zero, suc, ◌-◌, ◌*◌, ◌≤◌, ◌<◌, Bool, true, ◌≡◌, refl, sym, ap, ◌∙◌, subst, Option, none, some,
  List, [], ◌∷◌, ◌++◌, ==_iff, ltb, keep_if, keep_if-keep_if, take, drop, take-drop, keep_if-passes,
  Option-cases, length, All, All-map, arith, inl, inr,
}
use discovery_net.Base.Sorted.{
  sorted, All-sorted, IsOrder, text_lt-IsOrder, text_lt_total, keep_if-sorted,
}
use discovery_net.Base.Text.{Str, text_eq}
use discovery_net.Team.Impact.{
  Run, Cursor, run_lt, pending_after, max_pending_runs, last_run_of, advanced, move_cursor,
  build_impact_context, after_of,
}

run_lt-IsOrder : IsOrder run_lt
unfolding run_lt
run_lt-IsOrder = record {
  asym = λ r s h. ground (
    arith,
    text_lt-IsOrder.asym r.finished_at s.finished_at,
    text_lt-IsOrder.asym s.finished_at r.finished_at,
    text_lt-IsOrder.asym r.run_id s.run_id,
    ==_iff r.finished_at s.finished_at,
    ==_iff s.finished_at r.finished_at,
  );
  trans = λ r s t h k. ground (
    arith,
    text_lt-IsOrder.trans r.finished_at s.finished_at t.finished_at,
    text_lt-IsOrder.trans r.run_id s.run_id t.run_id,
    text_lt_total s.finished_at r.finished_at,
    ==_iff r.finished_at s.finished_at,
    ==_iff s.finished_at r.finished_at,
    ==_iff t.finished_at s.finished_at,
    ==_iff t.finished_at r.finished_at,
  );
}

some-injective : {r s : Run} → ◌≡◌ {A = Option Run} (some r) (some s) → r ≡ s
some-injective h = cc

-- Each run finished before the ones behind it.
abbrev pub IsIncreasing : List Run → Type 0
IsIncreasing [] = Unit
IsIncreasing (r ∷ rs) = All (λ s. r.finished < s.finished) rs × IsIncreasing rs

keep_if-All : (p : Run → Bool) (rs : List Run) → All (λ r. p r ≡ true) rs → keep_if p rs ≡ rs
keep_if-All p [] h = refl
keep_if-All p (r ∷ rs) h = ground (arith, h.0, keep_if-All p rs h.1)

All-last :
    (P : Run → Type 0) (n : ℕ) (rs : List Run) (last : Run)
    → All P rs
    → last_run_of (take n rs) ≡ some last
    → P last
All-last P zero rs last h found = cc
All-last P (suc n) [] last h found = cc
All-last P (suc zero) (r ∷ rs) last h found = subst P (some-injective found) h.0
All-last P (suc (suc n)) (r ∷ []) last h found = subst P (some-injective found) h.0
All-last P (suc (suc n)) (r ∷ s ∷ rs) last h found = All-last P (suc n) (s ∷ rs) last h.1 found

-- Behind the last of the first runs are the others.
keep_if-last :
    (n : ℕ) (rs : List Run) (last : Run)
    → IsIncreasing rs
    → last_run_of (take n rs) ≡ some last
    → keep_if (λ r. ltb last.finished r.finished) rs ≡ drop n rs
keep_if-last zero rs last h found = cc
keep_if-last (suc n) [] last h found = cc
keep_if-last (suc zero) (r ∷ rs) last h found =
    let same : r ≡ last = some-injective found in
    let others =
      keep_if-All (λ s. ltb last.finished s.finished) rs
        (All-map rs (λ s below. ground (arith, same)) h.0) in
    ground arith
keep_if-last (suc (suc n)) (r ∷ []) last h found =
    let same : r ≡ last = some-injective found in ground arith
keep_if-last (suc (suc n)) (r ∷ s ∷ rs) last h found =
    let below : r.finished < last.finished =
      All-last (λ t. r.finished < t.finished) (suc n) (s ∷ rs) last h.0 found in
    let rest = keep_if-last (suc n) (s ∷ rs) last h.1 found in ground arith

pending_after-later :
    (after : ℕ) (runs : List Run) → All (λ r. after < r.finished) (pending_after after runs)
unfolding pending_after
pending_after-later after runs =
    All-sorted run_lt (λ r. after < r.finished) (keep_if (λ r. ltb after r.finished) runs)
      (All-map (keep_if (λ r. ltb after r.finished) runs) (λ r passes. ground arith)
        (keep_if-passes (λ r. ltb after r.finished) runs))

-- A later bound leaves the pending runs behind it.
pending_after-pending_after :
    (after later : ℕ) (runs : List Run)
    → after ≤ later
    → pending_after later runs ≡ keep_if (λ r. ltb later r.finished) (pending_after after runs)
unfolding pending_after
pending_after-pending_after after later runs h =
    ap (sorted run_lt) (
      sym (
        keep_if-keep_if (λ r. ltb later r.finished) (λ r. ltb after r.finished) runs
          (λ r k. ground arith)))
    ∙ sym (
        keep_if-sorted run_lt run_lt-IsOrder (λ r. ltb later r.finished)
          (keep_if (λ r. ltb after r.finished) runs))

last_run_of-none : (rs : List Run) → last_run_of rs ≡ none → rs ≡ []
last_run_of-none [] h = refl
last_run_of-none (r ∷ []) h = cc
last_run_of-none (r ∷ s ∷ rs) h = let empty : s ∷ rs ≡ [] = last_run_of-none (s ∷ rs) h in cc

take-none : (n : ℕ) (rs : List Run) → take (suc n) rs ≡ [] → rs ≡ []
take-none n [] h = refl
take-none n (r ∷ rs) h = cc

module _ (assessor assessed_at : Str) (indexed_height now : ℕ) where
  -- The cursor that the batch for the packet leaves
  abbrev next_cursor : Option Cursor → List Run → Option Cursor
  next_cursor cursor runs =
      advanced assessor assessed_at (build_impact_context now indexed_height cursor runs) cursor

  pending-next_cursor :
      (cursor : Option Cursor) (runs : List Run)
      → IsIncreasing (pending_after (after_of now cursor) runs)
      → pending_after (after_of now (next_cursor cursor runs)) runs
        ≡ drop max_pending_runs (pending_after (after_of now cursor) runs)
  unfolding move_cursor build_impact_context after_of
  pending-next_cursor cursor runs h =
      let next : Option Run → List Run = λ o.
        pending_after (after_of now (move_cursor assessor assessed_at indexed_height cursor o))
          runs in
      let first = take max_pending_runs (pending_after (after_of now cursor) runs) in
      elim (Option-cases (last_run_of first)) [
        | inl idle ↦
            let empty : pending_after (after_of now cursor) runs ≡ [] =
              take-none 11 (pending_after (after_of now cursor) runs)
                (last_run_of-none first idle) in
            ap next idle ∙ rw empty refl
        | inr (last, found) ↦
            let later : after_of now cursor < last.finished =
              All-last (λ r. after_of now cursor < r.finished) max_pending_runs
                (pending_after (after_of now cursor) runs) last
                (pending_after-later (after_of now cursor) runs) found in
            ap next found
            ∙ pending_after-pending_after (after_of now cursor) last.finished runs
                (omega (arith, later))
            ∙ keep_if-last max_pending_runs (pending_after (after_of now cursor) runs) last h found
      ]

  -- The runs of as many packets in turn, each recorded before the next is built
  unfoldable pub assessed : ℕ → Option Cursor → List Run → List Run
  assessed zero cursor runs = []
  assessed (suc n) cursor runs =
      (build_impact_context now indexed_height cursor runs).runs
      ++ assessed n (next_cursor cursor runs) runs

  IsIncreasing-drop : (n : ℕ) (rs : List Run) → IsIncreasing rs → IsIncreasing (drop n rs)
  IsIncreasing-drop zero rs h = h
  IsIncreasing-drop (suc n) [] h = tt
  IsIncreasing-drop (suc n) (r ∷ rs) h = IsIncreasing-drop n rs h.1

  length-drop : (n : ℕ) (rs : List Run) → length (drop n rs) ≡ length rs - n
  length-drop zero rs = omega arith
  length-drop (suc n) [] = omega arith
  length-drop (suc n) (r ∷ rs) = omega (arith, length-drop n rs)

  length-none : (rs : List Run) → length rs ≤ 0 → rs ≡ []
  length-none [] h = refl
  length-none (r ∷ rs) h = ground (arith, h)

  -- If no two pending runs finished at the same instant and the texts of their instants are
  -- ordered as the instants, enough packets in turn assess every pending run exactly once, in the
  -- order in which they finished, and nothing else.
  pub assessed-pending :
      (n : ℕ) (cursor : Option Cursor) (runs : List Run)
      → IsIncreasing (pending_after (after_of now cursor) runs)
      → length (pending_after (after_of now cursor) runs) ≤ max_pending_runs * n
      → assessed n cursor runs ≡ pending_after (after_of now cursor) runs
  unfolding assessed build_impact_context
  assessed-pending zero cursor runs h fits =
      sym (length-none (pending_after (after_of now cursor) runs) (omega (arith, fits)))
  assessed-pending (suc n) cursor runs h fits =
      let pending = pending_after (after_of now cursor) runs in
      let next = pending-next_cursor cursor runs h in
      let rest =
        assessed-pending n (next_cursor cursor runs) runs
          (subst IsIncreasing (sym next) (IsIncreasing-drop max_pending_runs pending h))
          (rw next (omega (arith, fits, length-drop max_pending_runs pending))) in
      ap (λ rs. take max_pending_runs pending ++ rs) (rest ∙ next)
      ∙ take-drop max_pending_runs pending
