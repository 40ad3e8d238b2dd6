-- ===== src/Team/Timeline/Runs.antt =====
-- research_team/dashboard.py: the runs of a timeline, from the files of the agents.
use discovery_net.Base.{
  ℕ, suc, Bool, true, false, Option, none, some, List, [], ◌∷◌, ◌++◌, if◌then◌else◌,
}
use discovery_net.Base.Dict.{Dict, lookup}
use discovery_net.Base.Result.{Result, ok, err, value_error, key_error, Error, require, ◌>>=◌, ◌>>◌}
use discovery_net.Base.Text.{Str, text_eq, codes, is_empty, starts_with}
use discovery_net.Team.Timeline.{
  RunAnnotation, TimelineRun, RunState, completed, running, failed, text_or, text_of,
}

-- A JSON object of a file by the texts of its values; none is a key that is missing, or a null.
pub record RunObject : Type 0 where
  pub agent : Option Str
  pub role : Option Str
  pub run_id : Option Str
  pub started_at : Option Str
  pub finished_at : Option Str
  pub timestamp : Option Str
  -- `int(record.get("total_tokens", 0))`
  pub total_tokens : Result ℕ

-- The files of an agent: no file has no line. A line that is not a JSON object is none.
pub record AgentFiles : Type 0 where
  pub name : Str
  pub usage : List (Option RunObject)
  pub failures : List (Option RunObject)
  pub current_pass : Option RunObject

-- `run_identifier` of impact.py
abbrev pub run_identifier : (agent started_at : Str) → Str
run_identifier agent started_at = agent ++ codes ":" ++ started_at

abbrev pub first_prefix : List Str → Str → Str
first_prefix [] agent = codes "other"
first_prefix (role ∷ roles) agent =
    if starts_with role agent then role else first_prefix roles agent

-- `_role`
unfoldable pub role_of_name : Str → Str
role_of_name = first_prefix (
    codes "researcher"
    ∷ codes "reviewer"
    ∷ codes "principal"
    ∷ codes "impact-assessor"
    ∷ codes "orchestrator"
    ∷ [])

abbrev pub agent_of : Str → RunObject → Str
agent_of name value = text_or (text_of value.agent) name

-- `value.get("role") or roles.get(agent) or _role(agent)`
unfoldable pub run_role : Dict Str Str → Str → RunObject → Str
unfolding role_of_name
run_role roles agent value =
    text_or (text_of value.role) (text_or (text_of (lookup agent roles)) (role_of_name agent))

-- The text of a null is no instant, so a null is as a key that is missing: both are skipped.
abbrev pub required : Option Str → Result Str
required none = err key_error
required (some s) = ok s

-- The errors that the code suppresses; any other one ends the snapshot.
abbrev pub is_suppressed : Error → Bool
is_suppressed value_error = true
is_suppressed key_error = true
is_suppressed _ = false

unfoldable pub kept_run : Result TimelineRun → Result (List TimelineRun)
kept_run (ok run) = ok (run ∷ [])
kept_run (err e) = if is_suppressed e then ok [] else err e

-- `is_instant` tells whether `_parse_timestamp` takes a text.
module _ (is_instant : Str → Bool) (roles : Dict Str Str) where
  -- The instants of a completed pass, which is counted once both of them are read
  unfoldable pub usage_instants : RunObject → Result (Str × Str)
  usage_instants value = do
    started_at ← required value.started_at
    finished_at ← required value.finished_at
    require (is_instant started_at) value_error
    require (is_instant finished_at) value_error
    ok (started_at, finished_at)

  unfoldable pub completed_run :
      Dict Str RunAnnotation → Str → ℕ → RunObject → Str × Str → TimelineRun
  unfolding run_role
  completed_run annotations name number value (started_at, finished_at) =
      let agent = agent_of name value in
      let run_id = text_or (text_of value.run_id) (run_identifier agent started_at) in
      record {
        run_id = run_id;
        pass_number = some number;
        agent = agent;
        role = run_role roles agent value;
        started_at = started_at;
        finished_at = finished_at;
        state = completed;
        annotation = lookup run_id annotations;
        lane = none;
      }

  -- The lines of a usage file; the number counts the lines with two instants so far.
  unfoldable pub completed_lines :
      Dict Str RunAnnotation → Str → ℕ → List (Option RunObject) → Result (List TimelineRun)
  unfolding usage_instants kept_run completed_run
  completed_lines annotations name number [] = ok []
  completed_lines annotations name number (none ∷ lines) =
      completed_lines annotations name number lines
  completed_lines annotations name number (some value ∷ lines) = elim (usage_instants value) [
    | err e ↦ completed_lines annotations name number lines
    | ok instants ↦ do
      here ← kept_run (
          value.total_tokens >>= λ _.
          ok (completed_run annotations name (suc number) value instants))
      more ← completed_lines annotations name (suc number) lines
      ok (here ++ more)
  ]

  -- `_completed_runs`
  unfoldable pub completed_runs :
      Dict Str RunAnnotation → List AgentFiles → Result (List TimelineRun)
  unfolding completed_lines
  completed_runs annotations [] = ok []
  completed_runs annotations (files ∷ agents) = do
    here ← completed_lines annotations files.name 0 files.usage
    rest ← completed_runs annotations agents
    ok (here ++ rest)

  unfoldable pub run_without_pass : Str → RunState → RunObject → Str × Str → TimelineRun
  unfolding run_role
  run_without_pass name state value (started_at, finished_at) =
      let agent = agent_of name value in
      record {
        run_id = run_identifier agent started_at;
        pass_number = none;
        agent = agent;
        role = run_role roles agent value;
        started_at = started_at;
        finished_at = finished_at;
        state = state;
        annotation = none;
        lane = none;
      }

  -- `value.get("finished_at") or value["timestamp"]`
  abbrev pub finished_or_logged : RunObject → Result Str
  finished_or_logged value =
      if is_empty (text_of value.finished_at)
      then required value.timestamp
      else ok (text_of value.finished_at)

  unfoldable pub failure_instants : RunObject → Result (Str × Str)
  failure_instants value = do
    finished_at ← finished_or_logged value
    require (is_instant (text_or (text_of value.started_at) finished_at)) value_error
    require (is_instant finished_at) value_error
    ok (text_or (text_of value.started_at) finished_at, finished_at)

  unfoldable pub failed_lines : Str → List (Option RunObject) → List TimelineRun
  unfolding failure_instants run_without_pass
  failed_lines name [] = []
  failed_lines name (none ∷ lines) = failed_lines name lines
  failed_lines name (some value ∷ lines) =
      let rest = failed_lines name lines in
      elim (failure_instants value) [
        | err e ↦ rest
        | ok instants ↦ run_without_pass name failed value instants ∷ rest
      ]

  -- `_failed_runs`
  unfoldable pub failed_runs : List AgentFiles → List TimelineRun
  unfolding failed_lines
  failed_runs [] = []
  failed_runs (files ∷ agents) = failed_lines files.name files.failures ++ failed_runs agents

  unfoldable pub active_run : (snapshot_at : Str) → Str → Option RunObject → List TimelineRun
  unfolding run_without_pass
  active_run snapshot_at name none = []
  active_run snapshot_at name (some value) = elim (required value.started_at) [
    | err e ↦ []
    | ok started_at ↦
        if is_instant started_at
        then run_without_pass name running value (started_at, snapshot_at) ∷ []
        else []
  ]

  -- `_active_runs`
  unfoldable pub active_runs : (snapshot_at : Str) → List AgentFiles → List TimelineRun
  unfolding active_run
  active_runs snapshot_at [] = []
  active_runs snapshot_at (files ∷ agents) =
      active_run snapshot_at files.name files.current_pass ++ active_runs snapshot_at agents
