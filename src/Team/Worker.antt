-- ===== src/Team/Worker.antt =====
-- research_team/controller.py: the loop of a worker, one element of a list of environments a pass.
pub mod Limits
use discovery_net.Base.{
  ℕ, Bool, true, false, not, ◌&&◌, ◌||◌, Option, none, some, List, [], ◌∷◌, ◌++◌, ◌==◌, is_some,
  if◌then◌else◌,
}
use discovery_net.Base.Result.{Result, ok, err, Error, worker_stopped}
use discovery_net.Base.Text.{Str, text_eq, codes}
use discovery_net.Team.Host.{Host}
use discovery_net.Team.Prompt.{PromptConfig}
use discovery_net.Team.Work.{AgentDir, Failure, LastRun, failed, limit_reason, usage_totals}
use discovery_net.Team.Work.Pass.{PassEnv, Work, read_agent, run_one_pass}

-- The loop goes on after a pass, or it ends: it returns, or an exception leaves it.
pub data Turn : Type 0 where
  goes_on : Work → Turn
  ends : Result (Unit {0}) → Work → Turn

unfoldable pub at_limit : PromptConfig → AgentDir → Bool
unfolding limit_reason usage_totals
at_limit config dir = is_some (limit_reason (usage_totals dir.usage) config)

abbrev pub is_stopped : Error → Bool
is_stopped worker_stopped = true
is_stopped _ = false

-- `current_pass_path(name)` of a pass that begins
unfoldable pub mark_pass : PassEnv → (name : Str) → PromptConfig → AgentDir → AgentDir
mark_pass env name config dir = record dir {
  current_pass =
      some (record { agent = name; role = config.role; started_at = env.pass_started_at });
}

unfoldable pub unmark_pass : AgentDir → AgentDir
unmark_pass dir = record dir { current_pass = none }

-- The `except` branch
unfoldable pub fail_pass : PassEnv → (name : Str) → PromptConfig → Error → AgentDir → AgentDir
fail_pass env name config e dir = record dir {
  failures =
      dir.failures
      ++ (record {
        agent = name;
        role = config.role;
        started_at = env.pass_started_at;
        finished_at = env.finished_at;
        error = e;
      })
        ∷ [];
  last_run = some (failed env.pass_started_at env.finished_at e);
}

-- What follows a pass: a stop, a oneshot mode or a limit ends the loop.
unfoldable pub next_turn : (stopped : Bool) → PromptConfig → Work → Turn
unfolding at_limit
next_turn stopped config work =
    if stopped
    then ends (ok tt) work
    else if config.mode == codes "oneshot"
    then ends (ok tt) work
    else if at_limit config work.dir
    then ends (ok tt) work
    else goes_on work

-- The exception of a pass leaves the prompt that the worker read before it.
unfoldable pub after_pass :
    PassEnv → (name : Str) → PromptConfig → Result PromptConfig × Work → Turn
unfolding fail_pass unmark_pass next_turn
after_pass env name config (ok config', work) =
    next_turn false config' (record work { dir = unmark_pass work.dir })
after_pass env name config (err e, work) =
    next_turn (is_stopped e) config
      (record work { dir = unmark_pass (fail_pass env name config e work.dir) })

unfoldable pub begin_pass : PassEnv → (name : Str) → PromptConfig → Work → Turn
unfolding at_limit mark_pass after_pass run_one_pass
begin_pass env name config work =
    if at_limit config work.dir
    then ends (ok tt) work
    else after_pass env name config
        (run_one_pass env name (record work { dir = mark_pass env name config work.dir }))

unfoldable pub turn_with : PassEnv → (name : Str) → Work → Result PromptConfig → Turn
unfolding begin_pass
turn_with env name work (err e) = ends (err e) work
turn_with env name work (ok config) = begin_pass env name config work

unfoldable pub turn : PassEnv → (name : Str) → Work → Turn
unfolding read_agent turn_with
turn env name work = turn_with env name work (read_agent ⦃host = env.host⦄ name env.prompt)

abbrev pub after_turn :
    Turn → (Work → Option (Result (Unit {0})) × Work) → Option (Result (Unit {0})) × Work
after_turn (ends r work) go_on = (some r, work)
after_turn (goes_on work) go_on = go_on work

-- How `_worker_loop` ends, or none if the environments run out before.
unfoldable pub worker_loop : List PassEnv → (name : Str) → Work → Option (Result (Unit {0})) × Work
unfolding turn
worker_loop [] name work = (none, work)
worker_loop (env ∷ envs) name work =
    after_turn (turn env name work) (λ next. worker_loop envs name next)
