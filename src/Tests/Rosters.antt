-- ===== src/Tests/Rosters.antt =====
-- A team that takes one agent and refuses a second in the same workspace.
use discovery_net.Base.{ℕ, ◌≡◌, refl, some, [], true, false}
use discovery_net.Base.Parse.{pos}
use discovery_net.Base.Result.{ok, err, controller_error}
use discovery_net.Base.Sorted
use discovery_net.Base.Text.{codes}
use discovery_net.Team.Roster
use discovery_net.Team.Roster.{Team}
use discovery_net.Team.Roster.Commands
use discovery_net.Team.Roster.Commands.{Machine, new_agent}
use discovery_net.Team.Roster.Exclusive.Steps.{IsOrderly}
use discovery_net.Team.Roster.Reached
use discovery_net.Team.Roster.Reached.{IsReached, at_first, by, new}
use discovery_net.Tests.Teams.{small_host, prompt_code, researcher_text}

instance abbrev laptop : Machine
laptop = record {
  testing = false;
  matches = λ name pid. true;
  preflight = λ config. ok tt;
  popen = λ name. ok 41;
  survives = λ name. true;
  has_process = λ pid. true;
  new_key = ok (codes "key");
  followup_name = codes "followup.1.md";
}

abbrev first_team : Team
first_team = record {
  prompts = [];
  history = [];
  disabled = [];
  keys = [];
  work = [];
  runtime = [];
  agent_cap = ok (pos 8);
  launches = [];
  changes = [];
}

abbrev one_agent : Team
one_agent = (new_agent (codes "alice") (some researcher_text) first_team).1

abbrev still_one : Team
still_one = (new_agent (codes "bob") (some researcher_text) one_agent).1

unfoldable roster_code : ℕ
unfolding prompt_code Sorted.text_lt Sorted.insert_sorted Sorted.sorted Roster.agent_names
    Roster.require_agent Roster.check_each Roster.is_full Roster.check_workspace
    Roster.ensure_workspace_is_exclusive Roster.check_assessor
    Roster.ensure_impact_assessor_is_unique Roster.admit Commands.running_runtime Commands.launch
    Commands.spawn_worker Commands.generate_key Commands.create Commands.new_agent
roster_code = 0

alice_started : (new_agent (codes "alice") (some researcher_text) first_team).0 ≡ ok (some 41)
unfolding roster_code
alice_started = refl

bob_refused : (new_agent (codes "bob") (some researcher_text) one_agent).0 ≡ err controller_error
unfolding roster_code
bob_refused = refl

reached-IsOrderly_example : IsOrderly small_host 8 still_one
reached-IsOrderly_example = Reached.reached-IsOrderly small_host 8 first_team still_one refl refl (
    by (by at_first (new laptop (codes "alice") (some researcher_text) first_team))
      (new laptop (codes "bob") (some researcher_text) one_agent))
