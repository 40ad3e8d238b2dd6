-- ===== src/Team/Timeline/Counts.antt =====
-- research_team/dashboard.py: what the numbers of a snapshot count.
use discovery_net.Base.{
  ℕ, suc, ◌+◌, ◌≡◌, refl, ◌∙◌, List, [], ◌∷◌, ◌==◌, ==_iff, arith, length, keep_if, if◌then◌else◌,
}
use discovery_net.Base.Dict.{Dict, lookup, lookup-insert}
use discovery_net.Base.Text.{Str, text_eq}
use discovery_net.Team.Timeline.{RunAnnotation, TimelineRun, RunState, completed, running, failed}
use discovery_net.Team.Timeline.Summary.{
  count_or_zero, count_one, count_roles, summary_of, Summary, count_state, same_state,
}

abbrev pub runs_of_role : Str → List TimelineRun → ℕ
runs_of_role role runs = length (keep_if (λ run. run.role == role) runs)

count_roles-lookup :
    (role : Str) (runs : List TimelineRun) (counts : Dict Str ℕ)
    → count_or_zero (lookup role (count_roles runs counts))
      ≡ count_or_zero (lookup role counts) + runs_of_role role runs
unfolding count_roles
count_roles-lookup role [] counts = omega arith
count_roles-lookup role (run ∷ runs) counts = ground (
  arith,
  ==_iff run.role role,
  count_roles-lookup role runs (count_one run.role counts),
  lookup-insert run.role role (count_or_zero (lookup run.role counts) + 1) counts,
)

-- A state is one of the three.
count_states_one :
    (state : RunState) (a b c : ℕ)
    → (if same_state state completed then suc a else a)
        + (if same_state state running then suc b else b)
        + (if same_state state failed then suc c else c)
      ≡ suc (a + b + c)
count_states_one completed a b c = omega arith
count_states_one running a b c = omega arith
count_states_one failed a b c = omega arith

count_states :
    (runs : List TimelineRun)
    → count_state completed runs + count_state running runs + count_state failed runs ≡ length runs
count_states [] = refl
count_states (run ∷ runs) = ground (
  arith,
  count_states runs,
  count_states_one run.state (count_state completed runs) (count_state running runs)
      (count_state failed runs),
)

pub record IsCounted (runs : List TimelineRun) (summary : Summary) : Type 0 where
  pub roles : (role : Str) → count_or_zero (lookup role summary.role_runs) ≡ runs_of_role role runs
  pub states : summary.completed_runs + summary.running_runs + summary.failed_runs ≡ length runs

-- The summary counts for each role the runs of the role, with 0 for a role that is missing, and every
-- run is counted in one of its three states.
pub summary_of-IsCounted :
    (annotations : List RunAnnotation) (runs : List TimelineRun)
    → IsCounted runs (summary_of annotations runs)
unfolding summary_of
summary_of-IsCounted annotations runs = record {
  roles = λ role. count_roles-lookup role runs [] ∙ omega arith;
  states = count_states runs;
}
