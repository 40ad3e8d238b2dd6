-- ===== src/Team/Roster/Commands.antt =====
-- research_team/controller.py: the commands. What a command did before an exception stays.
use discovery_net.Base.{
  ℕ, Bool, true, false, not, Option, none, some, [], ◌∷◌, ◌++◌, ◌==◌, ltb, eqb, is_some,
  if◌then◌else◌,
}
use discovery_net.Base.Dict.{lookup, has_key, insert}
use discovery_net.Base.Result.{Result, ok, err, controller_error, require, ◌>>=◌, ◌>>◌}
use discovery_net.Base.Text.{Str, text_eq, codes}
use discovery_net.Team.Host.{Host}
use discovery_net.Team.Prompt.{PromptConfig, parse_prompt}
use discovery_net.Team.Prompt.Fields.{validate_name}
use discovery_net.Team.Prompt.Repository.{verify_github_repository}
use discovery_net.Team.Work.{AgentDir, LastRun, completed, failed, without}
use discovery_net.Team.Roster.{
  Team, Change, created, has_started, queued, stopped, retargeted, retired, require_agent, admit,
  admit_replacement,
}

-- The processes of the machine, the keys that it makes and the names it gives to queued files:
-- `process_matches` for a registered worker, `preflight_runner`, `Popen` with its pid, whether the
-- new worker survives its first two seconds, and whether a pid still has a process.
pub record Machine : Type 0 where
  pub testing : Bool
  pub matches : (name : Str) → (pid : ℕ) → Bool
  pub preflight : PromptConfig → Result (Unit {0})
  pub popen : (name : Str) → Result ℕ
  pub survives : (name : Str) → Bool
  pub has_process : (pid : ℕ) → Bool
  pub new_key : Result Str
  pub followup_name : Str

-- A result, with the state that the command left
abbrev pub Outcome : Type 0 → Type 0
Outcome A = Result A × Team

-- `let a = r in next a`, for an `r` that may raise
abbrev pub attempt : {A B : Type 0} → Result A → Team → (A → Outcome B) → Outcome B
attempt (err e) team next = (err e, team)
attempt (ok a) team next = next a

abbrev pub record_change : Change → Team → Team
record_change change team = record team { changes = team.changes ++ change ∷ [] }

abbrev pub empty_dir : AgentDir
empty_dir = record {
  thread_id = none;
  session_id = none;
  prompt_digest = none;
  last_message = none;
  reports = [];
  usage = [];
  failures = [];
  followups = [];
  last_run = none;
  current_pass = none;
}

abbrev pub dir_or_empty : Option AgentDir → AgentDir
dir_or_empty none = empty_dir
dir_or_empty (some dir) = dir

-- A change of the files of one agent
abbrev pub update_dir : (name : Str) → (AgentDir → AgentDir) → Team → Team
update_dir name change team = record team {
  work = insert name (change (dir_or_empty (lookup name team.work))) team.work;
}

module _ ⦃host : Host⦄ ⦃machine : Machine⦄ where
  abbrev pub is_running : (name : Str) → Option ℕ → Bool
  is_running name none = false
  is_running name (some pid) = machine.matches name pid

  -- `running_runtime`, which removes the registration of a worker that is gone
  unfoldable pub running_runtime : (name : Str) → Team → Option ℕ × Team
  running_runtime name team =
      if is_running name (lookup name team.runtime)
      then (lookup name team.runtime, team)
      else (none, record team { runtime = without name team.runtime })

  abbrev clear_markers : AgentDir → AgentDir
  clear_markers dir = record dir { last_run = none; current_pass = none }

  abbrev clear_pass : AgentDir → AgentDir
  clear_pass dir = record dir { current_pass = none }

  -- `Popen` and the registration
  unfoldable pub launch : (name : Str) → Team → Outcome (Option ℕ)
  launch name team =
      if machine.testing
      then (ok none, record team { launches = team.launches ++ name ∷ [] })
      else attempt
          (require_agent name team.prompts >>= λ text.
            parse_prompt (some text) >>= machine.preflight)
          team
          (λ _. attempt (machine.popen name) team (λ pid.
            let registered = record team { runtime = insert name pid team.runtime } in
            attempt (require (machine.survives name) controller_error) registered
              (λ _. (ok (some pid), registered))))

  unfoldable pub spawn_worker : (name : Str) → Team → Outcome (Option ℕ)
  unfolding running_runtime launch
  spawn_worker name team =
      let (running, checked) = running_runtime name team in
      attempt (require (not (is_some running)) controller_error) checked
        (λ _. launch name (update_dir name clear_markers checked))

  unfoldable pub stop_running : (name : Str) → Option ℕ → Team → Bool × Team
  stop_running name none team = (false, team)
  stop_running name (some pid) team =
      let unregistered = record team { runtime = without name team.runtime } in
      if machine.testing
      then (true, unregistered)
      else if machine.has_process pid
      then (true, update_dir name clear_pass unregistered)
      else (false, unregistered)

  unfoldable pub stop_worker : (name : Str) → Team → Bool × Team
  unfolding running_runtime stop_running
  stop_worker name team =
      let (running, checked) = running_runtime name team in stop_running name running checked

  -- `generate_key`: an old key stays.
  unfoldable pub generate_key : (name : Str) → Team → Outcome (Unit {0})
  generate_key name team =
      if has_key name team.keys
      then (ok tt, team)
      else attempt machine.new_key team
          (λ key. (ok tt, record team { keys = insert name key team.keys }))

  -- The prompt is on file, and the directories of the agent are there.
  unfoldable pub create : (name : Str) → PromptConfig → Team → Outcome (Unit {0})
  unfolding generate_key
  create name config team =
      let written =
        update_dir name (λ dir. dir)
          (record team { prompts = insert name config.text team.prompts }) in
      let (made, keyed) = generate_key name written in
      attempt made keyed (λ _. (ok tt, record_change (created name config.role config.mode) keyed))

  unfoldable pub new_agent : (name : Str) → (source : Option Str) → Team → Outcome (Option ℕ)
  unfolding validate_name parse_prompt verify_github_repository admit create spawn_worker
  new_agent name source team = attempt (validate_name name >> parse_prompt source) team (λ config.
      attempt (verify_github_repository config.github_repository) team (λ _.
        attempt (admit name config team) team (λ _.
          let (made, built) = create name config team in
          attempt made built (λ _.
            if config.mode == codes "continuous"
            then spawn_worker name built
            else (ok none, built)))))

  unfoldable pub start_agent : (name : Str) → Team → Outcome (Option ℕ)
  unfolding spawn_worker
  start_agent name team =
      attempt (require_agent name team.prompts >>= λ text. parse_prompt (some text)) team (λ config.
        attempt (verify_github_repository config.github_repository) team (λ _.
          let (result, spawned) = spawn_worker name team in
          attempt result spawned (λ pid. (ok pid, record_change (has_started name) spawned))))

  -- `continue`: a note has at most 64 KiB.
  unfoldable pub continue_agent :
      (name : Str) → (note : Option Str) → (size : ℕ) → Team → Outcome (Unit {0})
  continue_agent name note size team = attempt (require_agent name team.prompts) team (λ _.
      elim note [
        | none ↦ (err controller_error, team)
        | some text ↦
            attempt
              (require (not (eqb size 0)) controller_error
                >> require (not (ltb 65536 size)) controller_error)
              team
              (λ _. (
                ok tt,
                record_change (queued name) (
                    update_dir name
                      (λ dir. record dir {
                        followups = insert machine.followup_name text dir.followups;
                      })
                      team),
              ))
      ])

  unfoldable pub stop_agent : (name : Str) → Team → Outcome (Unit {0})
  unfolding stop_worker
  stop_agent name team = attempt (require_agent name team.prompts) team (λ _.
      let (halted, left) = stop_worker name team in
      (ok tt, if halted then record_change (stopped name) left else left))

  unfoldable pub retarget_agent : (name : Str) → (source : Option Str) → Team → Outcome (Unit {0})
  unfolding parse_prompt verify_github_repository admit_replacement
  retarget_agent name source team = attempt (require_agent name team.prompts) team (λ current.
      attempt (parse_prompt source) team (λ replacement.
        attempt (verify_github_repository replacement.github_repository) team (λ _.
          attempt (admit_replacement name replacement team) team (λ _. (
            ok tt,
            record_change (retargeted name) (record team {
              history = team.history ++ (name, current) ∷ [];
              prompts = insert name replacement.text team.prompts;
            }),
          )))))

  unfoldable pub retire_agent : (name : Str) → Team → Outcome (Unit {0})
  unfolding stop_worker
  retire_agent name team = attempt (require_agent name team.prompts) team (λ current.
      let (_, left) = stop_worker name team in
      (
        ok tt,
        record_change (retired name) (record left {
          disabled = left.disabled ++ (name, current) ∷ [];
          prompts = without name left.prompts;
        }),
      ))

  -- `wait_for_agent`, once the worker is no longer running
  unfoldable pub waited : Option LastRun → Result (Unit {0})
  waited none = err controller_error
  waited (some (completed started_at finished_at thread_id report)) = ok tt
  waited (some (failed started_at finished_at e)) = err controller_error
