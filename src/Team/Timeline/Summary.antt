-- ===== src/Team/Timeline/Summary.antt =====
-- research_team/dashboard.py: the snapshot of a timeline with its numbers.
use discovery_net.Base.{
  ℕ, ◌+◌, Bool, true, false, Option, none, some, List, [], ◌∷◌, ◌++◌, ◌==◌, length, keep_if,
  if◌then◌else◌,
}
use discovery_net.Base.Dict.{Dict, values, lookup, insert}
use discovery_net.Base.Result.{Result, ok, ◌>>=◌}
use discovery_net.Base.Text.{Str, text_eq, codes}
use discovery_net.Team.Timeline.{
  RunAnnotation, TimelineRun, RunState, completed, running, failed, Lane, Event, drawn_timeline,
  text_of,
}
use discovery_net.Team.Timeline.Roles.{PromptFile, agent_roles}
use discovery_net.Team.Timeline.Runs.{AgentFiles, completed_runs, failed_runs, active_runs}

abbrev pub count_or_zero : Option ℕ → ℕ
count_or_zero none = 0
count_or_zero (some n) = n

-- `counts[key] = counts.get(key, 0) + 1`
abbrev pub count_one : Str → Dict Str ℕ → Dict Str ℕ
count_one key counts = insert key (count_or_zero (lookup key counts) + 1) counts

-- The counts of the roles
unfoldable pub count_roles : List TimelineRun → Dict Str ℕ → Dict Str ℕ
count_roles [] counts = counts
count_roles (run ∷ runs) counts = count_roles runs (count_one run.role counts)

abbrev pub no_signals : Dict Str ℕ
no_signals = (codes "substantial", 0) ∷ (codes "major", 0) ∷ (codes "high_paper_potential", 0) ∷ []

abbrev pub count_if_key : Str → Dict Str ℕ → Dict Str ℕ
count_if_key key counts = elim (lookup key counts) [
  | none ↦ counts
  | some n ↦ insert key (n + 1) counts
]

-- The signals of one annotation
unfoldable pub count_signal : RunAnnotation → Dict Str ℕ → Dict Str ℕ
count_signal annotation counts =
    let with_impact = count_if_key (text_of annotation.impact) counts in
    if text_of annotation.paper_potential == codes "high"
    then count_one (codes "high_paper_potential") with_impact
    else with_impact

unfoldable pub count_signals : List RunAnnotation → Dict Str ℕ → Dict Str ℕ
unfolding count_signal
count_signals [] counts = counts
count_signals (annotation ∷ annotations) counts =
    count_signals annotations (count_signal annotation counts)

abbrev pub same_state : RunState → RunState → Bool
same_state completed completed = true
same_state running running = true
same_state failed failed = true
same_state _ _ = false

abbrev pub count_state : RunState → List TimelineRun → ℕ
count_state state runs = length (keep_if (λ run. same_state run.state state) runs)

pub record Summary : Type 0 where
  pub completed_runs : ℕ
  pub running_runs : ℕ
  pub failed_runs : ℕ
  pub annotations : ℕ
  pub role_runs : Dict Str ℕ
  pub impact_signals : Dict Str ℕ

pub record Snapshot : Type 0 where
  pub runs : List TimelineRun
  pub lanes : List Lane
  pub events : List Event
  pub annotations : List RunAnnotation
  pub summary : Summary

unfoldable pub summary_of : List RunAnnotation → List TimelineRun → Summary
unfolding count_roles count_signals
summary_of annotations runs = record {
  completed_runs = count_state completed runs;
  running_runs = count_state running runs;
  failed_runs = count_state failed runs;
  annotations = length annotations;
  role_runs = count_roles runs [];
  impact_signals = count_signals annotations no_signals;
}

module _ (str_lower : Str → Str) (is_instant : Str → Bool) where
  abbrev pub snapshot_of : List RunAnnotation → List TimelineRun × List Lane × List Event → Snapshot
  snapshot_of annotations (runs, lanes, events) = record {
    runs = runs;
    lanes = lanes;
    events = events;
    annotations = annotations;
    summary = summary_of annotations runs;
  }

  -- `timeline_snapshot`, with the annotations by their runs
  unfoldable pub timeline_snapshot :
      List PromptFile
      → Dict Str RunAnnotation
      → (snapshot_at : Str) → List AgentFiles
      → Result Snapshot
  unfolding agent_roles completed_runs failed_runs active_runs drawn_timeline summary_of
  timeline_snapshot prompts annotations snapshot_at agents = do
    let roles = agent_roles [] prompts
    done ← completed_runs is_instant roles annotations agents
    ok (
        snapshot_of (values annotations) (
          drawn_timeline str_lower (
            done
            ++ failed_runs is_instant roles agents
            ++ active_runs is_instant roles snapshot_at agents)))
