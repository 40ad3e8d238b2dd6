-- ===== src/Tests/Timelines.antt =====
-- A timeline of a researcher that pivots and a reviewer.
use discovery_net.Base.{◌≡◌, refl, true, Option, none, some, List, [], ◌∷◌, map}
use discovery_net.Base.Parse.{lower}
use discovery_net.Base.Result.{ok, err}
use discovery_net.Base.Text.{codes}
use discovery_net.Team.Timeline.{RunAnnotation, TimelineRun, lanes_and_events, completed, running}
use discovery_net.Team.Timeline.Events
use discovery_net.Team.Timeline.Events.{AreEvents}
use discovery_net.Team.Timeline.Lanes
use discovery_net.Team.Timeline.Lanes.{AreLanesOf}
use discovery_net.Team.Timeline.Runs.{RunObject, completed_lines}
use discovery_net.Team.Timeline.Summary.{summary_of}
use discovery_net.Team.Timeline.Counts
use discovery_net.Team.Timeline.Counts.{IsCounted}
use discovery_net.Team.Timeline.Passes
use discovery_net.Team.Timeline.Passes.{AreNumbered}

abbrev pivot : RunAnnotation
pivot = record {
  lane_title = some (codes "Sum-free sets, again!");
  change_type = some (codes "problem_pivot");
  summary = some (codes "Another problem.");
  impact = some (codes "major");
  paper_potential = some (codes "high");
}

abbrev first_run : TimelineRun
first_run = record {
  run_id = codes "researcher1:1";
  pass_number = some 1;
  agent = codes "researcher1";
  role = codes "researcher";
  started_at = codes "1";
  finished_at = codes "2";
  state = completed;
  annotation = none;
  lane = none;
}

abbrev review : TimelineRun
review = record first_run { agent = codes "reviewer1"; role = codes "reviewer"; state = running }

abbrev second_run : TimelineRun
second_run = record first_run { started_at = codes "3"; annotation = some pivot }

abbrev three_runs : List TimelineRun
three_runs = first_run ∷ review ∷ second_run ∷ []

lanes_and_events-AreLanesOf_example :
    AreLanesOf lower three_runs (lanes_and_events lower three_runs).1
lanes_and_events-AreLanesOf_example = Lanes.lanes_and_events-AreLanesOf lower three_runs

lanes_and_events-AreEvents_example :
    AreEvents lower [] three_runs (lanes_and_events lower three_runs).2
lanes_and_events-AreEvents_example = Events.lanes_and_events-AreEvents lower three_runs

summary_of-IsCounted_example : IsCounted three_runs (summary_of (pivot ∷ []) three_runs)
summary_of-IsCounted_example = Counts.summary_of-IsCounted (pivot ∷ []) three_runs

-- The lane of the second run names the problem, and its event says where it came from.
lanes_and_events-pivot :
    map (λ event. event.origin) (lanes_and_events lower three_runs).2
    ≡ some (codes "researcher1:researcher1") ∷ []
unfolding lanes_and_events
lanes_and_events-pivot = refl

abbrev usage_line : RunObject
usage_line = record {
  agent = none;
  role = none;
  run_id = none;
  started_at = some (codes "1");
  finished_at = some (codes "2");
  timestamp = none;
  total_tokens = ok 5;
}

-- A line without an instant, and one that is no object, have no number.
abbrev usage_lines : List (Option RunObject)
usage_lines =
    some usage_line ∷ none ∷ some (record usage_line { finished_at = none }) ∷ some usage_line ∷ []

abbrev two_passes : List TimelineRun
unfolding completed_lines
two_passes = elim (completed_lines (λ _. true) [] [] (codes "researcher1") 0 usage_lines) [
  | ok runs ↦ runs
  | err e ↦ []
]

completed_lines-AreNumbered_example : AreNumbered 0 4 two_passes
unfolding completed_lines
completed_lines-AreNumbered_example =
    Passes.completed_lines-AreNumbered (λ _. true) [] [] (codes "researcher1") 0 usage_lines
      two_passes refl
