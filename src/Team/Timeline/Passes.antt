-- ===== src/Team/Timeline/Passes.antt =====
-- research_team/dashboard.py: the numbers of the passes of an agent.
use discovery_net.Base.{
  ℕ, suc, ◌+◌, ◌≤◌, ◌≡◌, refl, sym, ap, subst, Option, none, some, List, [], ◌∷◌, ◌++◌, arith,
  length, ◌⊎◌, ◌∙◌, Bool, Bool-cases, if◌then◌else◌, inl, inr,
}
use discovery_net.Base.Dict.{Dict}
use discovery_net.Base.Result.{Result, ok, err, after, ok-injective, ◌>>=◌}
use discovery_net.Base.Text.{Str}
use discovery_net.Team.Timeline.{RunAnnotation, TimelineRun}
use discovery_net.Team.Timeline.Runs.{
  RunObject, usage_instants, kept_run, completed_run, completed_lines, is_suppressed,
}

-- The runs are numbered in ascending order, from above a number to no more than a last one.
abbrev pub AreNumbered : (number last : ℕ) → List TimelineRun → Type 0
AreNumbered number last [] = Unit
AreNumbered number last (run ∷ runs) =
    (pass : ℕ) × (run.pass_number ≡ some pass)
    × (suc number ≤ pass)
    × (pass ≤ last)
    × AreNumbered pass last runs

AreNumbered-wider :
    (first number last end : ℕ) (runs : List TimelineRun)
    → first ≤ number
    → last ≤ end
    → AreNumbered number last runs
    → AreNumbered first end runs
AreNumbered-wider first number last end [] h k numbered = tt
AreNumbered-wider first number last end (run ∷ runs) h k (pass, named, low, high, rest) = (
  pass,
  named,
  omega (arith, h, low),
  omega (arith, k, high),
  AreNumbered-wider pass pass last end runs (omega arith) k rest,
)

kept_run-cases :
    (tokens : Result ℕ) (run : TimelineRun) (here : List TimelineRun)
    → kept_run (tokens >>= λ _. ok run) ≡ ok here
    → (here ≡ []) ⊎ (here ≡ run ∷ [])
unfolding kept_run
kept_run-cases (ok n) run here h = inr (sym (ok-injective h))
kept_run-cases (err e) run here h = elim (Bool-cases (is_suppressed e)) [
  | inl skipped ↦ inl (ground arith)
  | inr raised ↦ absurd (raises (sym (ap (λ b. if b then ok [] else err e) raised) ∙ h))
]
  where
    raises : ◌≡◌ {A = Result (List TimelineRun)} (err e) (ok here) → ⊥
    raises k = cc

module _ (is_instant : Str → Bool) (roles : Dict Str Str) (annotations : Dict Str RunAnnotation)
    (name : Str) where
  abbrev lines_of : ℕ → List (Option RunObject) → Result (List TimelineRun)
  lines_of = completed_lines is_instant roles annotations name

  -- What a line does by the instants that are read from it
  abbrev branch :
      ℕ → RunObject → List (Option RunObject) → Result (Str × Str) → Result (List TimelineRun)
  branch number value lines instants = elim instants [
    | err e ↦ lines_of number lines
    | ok instants ↦ do
      here ← kept_run (
          value.total_tokens >>= λ _.
          ok (completed_run is_instant roles annotations name (suc number) value instants))
      more ← lines_of (suc number) lines
      ok (here ++ more)
  ]

  line-AreNumbered :
      (number : ℕ) (value : RunObject) (lines : List (Option RunObject)) (runs : List TimelineRun)
      → ((next : ℕ) (more : List TimelineRun)
          → lines_of next lines ≡ ok more
          → AreNumbered next (next + length lines) more)
      → (instants : Result (Str × Str)) → usage_instants is_instant roles value ≡ instants
      → lines_of number (some value ∷ lines) ≡ ok runs
      → AreNumbered number (number + suc (length lines)) runs
  unfolding completed_lines kept_run completed_run
  line-AreNumbered number value lines runs rest (err e) read h =
      AreNumbered-wider number number (number + length lines) (number + suc (length lines)) runs
        (omega arith) (omega arith)
        (rest number runs (sym (ap (branch number value lines) read) ∙ h))
  line-AreNumbered number value lines runs rest (ok instants) read h =
      let run = completed_run is_instant roles annotations name (suc number) value instants in
      after (kept_run (value.total_tokens >>= λ _. ok run))
        (sym (ap (branch number value lines) read) ∙ h)
        λ here kept h2. after (lines_of (suc number) lines) h2 λ more read_more last.
          let numbered = rest (suc number) more read_more in
          let wider : (first : ℕ)
              → first ≤ suc number
              → AreNumbered first (number + suc (length lines)) more =
            λ first below.
              AreNumbered-wider first (suc number) (suc number + length lines)
                (number + suc (length lines)) more below (omega arith) numbered in
          subst (AreNumbered number (number + suc (length lines))) (ok-injective last)
            (elim (kept_run-cases value.total_tokens run here kept) [
              | inl nothing ↦
                  subst (λ l. AreNumbered number (number + suc (length lines)) (l ++ more))
                    (sym nothing) (wider number (omega arith))
              | inr this ↦
                  subst (λ l. AreNumbered number (number + suc (length lines)) (l ++ more))
                    (sym this)
                    (suc number, refl, omega arith, omega arith, wider (suc number) (omega arith))
            ])

  -- The completed passes of a usage file are numbered in the order of their lines: the numbers
  -- ascend, are above the count before the file, and are at most that count and the number of its
  -- lines together.
  pub completed_lines-AreNumbered :
      (number : ℕ) (lines : List (Option RunObject)) (runs : List TimelineRun)
      → completed_lines is_instant roles annotations name number lines ≡ ok runs
      → AreNumbered number (number + length lines) runs
  unfolding completed_lines
  completed_lines-AreNumbered number [] runs h =
      subst (AreNumbered number (number + 0)) (ok-injective h) tt
  completed_lines-AreNumbered number (none ∷ lines) runs h =
      AreNumbered-wider number number (number + length lines) (number + suc (length lines)) runs
        (omega arith) (omega arith) (completed_lines-AreNumbered number lines runs h)
  completed_lines-AreNumbered number (some value ∷ lines) runs h =
      line-AreNumbered number value lines runs
        (λ next more. completed_lines-AreNumbered next lines more)
        (usage_instants is_instant roles value) refl h
