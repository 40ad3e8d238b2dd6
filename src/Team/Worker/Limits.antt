-- ===== src/Team/Worker/Limits.antt =====
-- research_team/controller.py: the limits that a worker keeps, and that it ends.
use discovery_net.Base.{
  ℕ, leb, ◌++◌, if◌then◌else◌, ◌+◌, ◌≤◌, ◌<◌, Bool, true, false, ◌≡◌, refl, sym, ap, ◌∙◌, subst,
  Option, some, List, [], ◌∷◌, ◌==◌, length, length-append, All, arith, Bool-cases, inl, inr,
}
use discovery_net.Base.Result.{Result, ok, err}
use discovery_net.Base.Text.{Str, text_eq, codes}
use discovery_net.Team.Prompt.{PromptConfig}
use discovery_net.Team.Work.{AgentDir, limit_reason, usage_totals}
use discovery_net.Team.Work.Pass.{PassEnv, PassOutcome, Work, read_agent, run_one_pass}
use discovery_net.Team.Work.Pass.Written.{IsWritten, usage_of}
use discovery_net.Team.Work.Pass.Outcome.{run_one_pass-outcome}
use discovery_net.Team.Worker.{
  Turn, goes_on, ends, at_limit, mark_pass, unmark_pass, fail_pass, next_turn, after_pass,
  begin_pass, turn, turn_with, after_turn, worker_loop, is_stopped,
}

abbrev pub passes : Work → ℕ
passes work = length work.dir.usage

-- Every prompt that the worker reads has this limit on the passes.
abbrev pub HasLimit : (name : Str) → ℕ → PassEnv → Type 0
HasLimit name limit env =
    (config : PromptConfig)
    → read_agent ⦃host = env.host⦄ name env.prompt ≡ ok config
    → config.max_passes ≡ some limit

at_limit-passes :
    (config : PromptConfig) (dir : AgentDir) (limit : ℕ)
    → config.max_passes ≡ some limit
    → at_limit config dir ≡ false
    → length dir.usage < limit
unfolding at_limit limit_reason usage_totals
at_limit-passes config dir limit h k = ground (arith, h, k)

work_of : Turn → Work
work_of (goes_on work) = work
work_of (ends r work) = work

-- The same work, at the end or to go on with
IsTurnOf : Work → Turn → Type 0
unfolding work_of
IsTurnOf work t = work_of t ≡ work

next_turn-IsTurnOf :
    (stopped : Bool) (config : PromptConfig) (work : Work)
    → IsTurnOf work (next_turn stopped config work)
unfolding IsTurnOf next_turn work_of
next_turn-IsTurnOf true config work = refl
next_turn-IsTurnOf false config work = elim (Bool-cases (config.mode == codes "oneshot")) [
  | inl once ↦ rw once refl
  | inr again ↦ rw again (elim (Bool-cases (at_limit config work.dir)) [
    | inl full ↦ rw full refl
    | inr free ↦ rw free refl
  ])
]

-- The writes of a pass add at most one to the count.
written_passes :
    (env : PassEnv) (name : Str) (config : PromptConfig) (answer : PassOutcome) (count : ℕ)
    (dir dir' : AgentDir)
    → IsWritten env name config answer count dir dir'
    → length dir'.usage ≤ length dir.usage + 1
written_passes env name config answer count dir dir' written = elim (Bool-cases (leb 3 count)) [
  | inl counted ↦
      let more : length dir'.usage ≡ length dir.usage + 1 =
        ap length (
          written.usage
          ∙ ap (λ b. if b then dir.usage ++ usage_of env name config answer ∷ [] else dir.usage)
              counted)
        ∙ length-append dir.usage _ in
      omega (arith, more)
  | inr early ↦
      let same : length dir'.usage ≡ length dir.usage = ap length (
        written.usage
        ∙ ap (λ b. if b then dir.usage ++ usage_of env name config answer ∷ [] else dir.usage)
            early) in
      omega (arith, same)
]

-- A pass adds at most one to the count.
after_pass-passes :
    (env : PassEnv) (name : Str) (config : PromptConfig) (work : Work)
    → passes (work_of (after_pass env name config (run_one_pass env name work))) ≤ passes work + 1
unfolding after_pass IsTurnOf unmark_pass fail_pass
after_pass-passes env name config work = elim (run_one_pass-outcome env name work) [
  | inl (e, w, ended, same) ↦
      let marked = record w { dir = unmark_pass (fail_pass env name config e w.dir) } in
      let counted : passes (work_of (after_pass env name config (err e, w))) ≡ passes work =
        ap passes (next_turn-IsTurnOf (is_stopped e) config marked) ∙ ap length same.usage in
      subst (λ r. passes (work_of (after_pass env name config r)) ≤ passes work + 1) (sym ended)
        (omega (arith, counted))
  | inr (c, answer, _, _, _, (count, w, written, how)) ↦
      let more = written_passes env name c answer count work.dir w.dir written in
      elim how [
        | inl (ended, _) ↦
            let marked = record w { dir = unmark_pass w.dir } in
            let counted : passes (work_of (after_pass env name config (ok c, w))) ≡ passes w =
              ap passes (next_turn-IsTurnOf false c marked) in
            subst (λ r. passes (work_of (after_pass env name config r)) ≤ passes work + 1)
              (sym ended) (omega (arith, counted, more))
        | inr (e, ended, _) ↦
            let marked = record w { dir = unmark_pass (fail_pass env name config e w.dir) } in
            let counted : passes (work_of (after_pass env name config (err e, w))) ≡ passes w =
              ap passes (next_turn-IsTurnOf (is_stopped e) config marked) in
            subst (λ r. passes (work_of (after_pass env name config r)) ≤ passes work + 1)
              (sym ended) (omega (arith, counted, more))
      ]
]

turn-passes :
    (env : PassEnv) (name : Str) (work : Work) (limit : ℕ)
    → HasLimit name limit env
    → passes work ≤ limit
    → passes (work_of (turn env name work)) ≤ limit
unfolding turn turn_with begin_pass work_of
turn-passes env name work limit limited few = go (read_agent ⦃host = env.host⦄ name env.prompt) refl
  where
    begun :
        (config : PromptConfig)
        → config.max_passes ≡ some limit
        → passes (work_of (begin_pass env name config work)) ≤ limit
    begun config h = elim (Bool-cases (at_limit config work.dir)) [
      | inl full ↦ rw full few
      | inr free ↦
          let less = at_limit-passes config work.dir limit h free in
          let marked = record work { dir = mark_pass env name config work.dir } in
          rw free (omega (arith, less, after_pass-passes env name config marked))
    ]

    go :
        (read : Result PromptConfig)
        → read_agent ⦃host = env.host⦄ name env.prompt ≡ read
        → passes (work_of (turn_with env name work read)) ≤ limit
    go (err e) h = few
    go (ok config) h = begun config (limited config h)

after_turn-passes :
    (t : Turn) (go_on : Work → Option (Result (Unit {0})) × Work) (limit : ℕ)
    → passes (work_of t) ≤ limit
    → ((next : Work) → passes next ≤ limit → passes (go_on next).1 ≤ limit)
    → passes (after_turn t go_on).1 ≤ limit
unfolding work_of
after_turn-passes (ends r next) go_on limit few k = few
after_turn-passes (goes_on next) go_on limit few k = k next few

-- If every prompt that the worker reads before a pass has the same `max-passes`, and no more passes
-- are on file when it starts, no more are on file at any later time, whatever the passes do.
pub worker_loop-passes :
    (envs : List PassEnv) (name : Str) (work : Work) (limit : ℕ)
    → All (HasLimit name limit) envs
    → passes work ≤ limit
    → passes (worker_loop envs name work).1 ≤ limit
unfolding worker_loop
worker_loop-passes [] name work limit limited few = few
worker_loop-passes (env ∷ envs) name work limit limited few =
    after_turn-passes (turn env name work) (λ next. worker_loop envs name next) limit
      (turn-passes env name work limit limited.0 few)
      (λ next. worker_loop-passes envs name next limit limited.1)

-- The runner answers every pass, and the pass completes.
abbrev pub Completes : (name : Str) → PassEnv → Type 0
Completes name env =
    (work : Work)
    → (config : PromptConfig) × (next : Work) × (run_one_pass env name work ≡ (ok config, next))

-- The loop ends with this turn, or the next pass has one more on file.
Advances : Work → Turn → Type 0
Advances work (ends r next) = Unit
Advances work (goes_on next) = passes next ≡ passes work + 1

completed-passes :
    (env : PassEnv) (name : Str) (work next : Work) (config : PromptConfig)
    → run_one_pass env name work ≡ (ok config, next)
    → passes next ≡ passes work + 1
completed-passes env name work next config h = elim (run_one_pass-outcome env name work) [
  | inl (e, w, ended, same) ↦
      let failed : ◌≡◌ {A = Result PromptConfig} (err e) (ok config) =
        ap (λ r. r.0) (sym ended ∙ h) in
      cc
  | inr (c, answer, _, _, _, (count, w, written, how)) ↦ elim how [
    | inl (ended, six) ↦
        ap (λ r. passes r.1) (sym h ∙ ended)
        ∙ ap length (
            written.usage
            ∙ ap
                (λ n.
                  if leb 3 n
                  then work.dir.usage ++ usage_of env name c answer ∷ []
                  else work.dir.usage)
                six)
        ∙ length-append work.dir.usage _
    | inr (e, ended, _) ↦
        let failed : ◌≡◌ {A = Result PromptConfig} (err e) (ok config) =
          ap (λ r. r.0) (sym ended ∙ h) in
        cc
  ]
]

turn-Advances :
    (env : PassEnv) (name : Str) (work : Work)
    → Completes name env
    → Advances work (turn env name work)
unfolding turn turn_with begin_pass after_pass next_turn Advances
turn-Advances env name work completes = go (read_agent ⦃host = env.host⦄ name env.prompt)
  where
    run :
        (config c : PromptConfig) (next : Work)
        → passes next ≡ passes work + 1
        → Advances work (next_turn false c next)
    run config c next more = elim (Bool-cases (c.mode == codes "oneshot")) [
      | inl once ↦ rw once tt
      | inr again ↦ rw again (elim (Bool-cases (at_limit c next.dir)) [
        | inl full ↦ rw full tt
        | inr free ↦ rw free more
      ])
    ]

    go : (read : Result PromptConfig) → Advances work (turn_with env name work read)
    go (err e) = tt
    go (ok config) = elim (Bool-cases (at_limit config work.dir)) [
      | inl full ↦ rw full tt
      | inr free ↦
          let marked = record work { dir = mark_pass env name config work.dir } in
          let (c, next, ran) = completes marked in
          rw free (
            subst (λ r. Advances work (after_pass env name config r)) (sym ran)
              (run config c (record next { dir = unmark_pass next.dir })
                (completed-passes env name marked next c ran)))
    ]

after_turn-ends :
    (work : Work) (t : Turn) (go_on : Work → Option (Result (Unit {0})) × Work) (limit : ℕ)
    → passes (work_of t) ≤ limit
    → Advances work t
    → ((next : Work)
        → passes next ≤ limit
        → passes next ≡ passes work + 1
        → (r : Result (Unit {0})) × (last : Work) × (go_on next ≡ (some r, last)))
    → (r : Result (Unit {0})) × (last : Work) × (after_turn t go_on ≡ (some r, last))
unfolding Advances work_of
after_turn-ends work (ends r next) go_on limit few h k = (r, next, refl)
after_turn-ends work (goes_on next) go_on limit few h k = k next few h

loop_ends :
    (envs : List PassEnv) (name : Str) (work : Work) (limit : ℕ)
    → All (HasLimit name limit) envs
    → All (Completes name) envs
    → passes work ≤ limit
    → limit < passes work + length envs
    → (r : Result (Unit {0})) × (last : Work) × (worker_loop envs name work ≡ (some r, last))
unfolding worker_loop
loop_ends [] name work limit limited complete few enough = absurd (omega (arith, few, enough))
loop_ends (env ∷ envs) name work limit limited complete few enough =
    after_turn-ends work (turn env name work) (λ next. worker_loop envs name next) limit
      (turn-passes env name work limit limited.0 few) (turn-Advances env name work complete.0)
      (λ next few' more.
        loop_ends envs name next limit limited.1 complete.1 few' (omega (arith, more, enough)))

-- If every prompt that the worker reads before a pass has the same `max-passes`, every pass completes,
-- and no more passes than the limit are on file at the start, then the loop ends after as many passes
-- as the limit leaves and one more look at the limit, with no more passes on file than the limit.
pub worker_loop-ends :
    (envs : List PassEnv) (name : Str) (work : Work) (limit : ℕ)
    → All (HasLimit name limit) envs
    → All (Completes name) envs
    → passes work ≤ limit
    → limit < passes work + length envs
    → (r : Result (Unit {0})) × (last : Work) × (worker_loop envs name work ≡ (some r, last))
      × (passes last ≤ limit)
worker_loop-ends envs name work limit limited complete few enough =
    let (r, last, ended) = loop_ends envs name work limit limited complete few enough in
    (
      r,
      last,
      ended,
      subst (λ x. passes x.1 ≤ limit) ended (worker_loop-passes envs name work limit limited few),
    )
