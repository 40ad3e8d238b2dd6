-- ===== src/Team/Roster.antt =====
-- research_team/controller.py: the agents of a team, and the commands that change it.
pub mod Commands
pub mod Exclusive
pub mod Reached
use discovery_net.Base.{
  ℕ, ◌+◌, Bool, true, false, not, ◌&&◌, ◌||◌, Option, none, some, List, [], ◌∷◌, ◌++◌, ◌==◌, ltb,
  leb, length, if◌then◌else◌,
}
use discovery_net.Base.Dict.{Dict, keys, lookup, has_key, insert}
use discovery_net.Base.Parse.{ℤ, pos, negsuc}
use discovery_net.Base.Result.{Result, ok, err, Error, controller_error, require, ◌>>=◌, ◌>>◌}
use discovery_net.Base.Sorted.{text_lt, sorted}
use discovery_net.Base.Text.{Str, text_eq, codes}
use discovery_net.Team.Host.{Host}
use discovery_net.Team.Prompt.{PromptConfig, parse_prompt, is_assessor}
use discovery_net.Team.Prompt.Fields.{validate_name}
use discovery_net.Team.Work.{AgentDir, without}

-- A line of changes.log
pub data Change : Type 0 where
  created : (name role mode : Str) → Change
  has_started queued stopped retargeted retired : (name : Str) → Change

-- The files of the controller: the prompts by the name of their agent, the archived and the retired
-- ones, the keys, the files of each agent, the pid of each registered worker, the configured cap,
-- the launches of a test, and the log.
pub record Team : Type 0 where
  pub prompts : Dict Str Str
  pub history : List (Str × Str)
  pub disabled : List (Str × Str)
  pub keys : Dict Str Str
  pub work : Dict Str AgentDir
  pub runtime : Dict Str ℕ
  pub agent_cap : Result ℤ
  pub launches : List Str
  pub changes : List Change

unfoldable pub agent_names : Dict Str Str → List Str
agent_names prompts = sorted text_lt (keys prompts)

unfoldable pub require_agent : (name : Str) → Dict Str Str → Result Str
unfolding validate_name
require_agent name prompts = do
  validate_name name
  elim (lookup name prompts) [ none ↦ err controller_error | some text ↦ ok text ]

unfoldable pub require_known_agent : (name : Str) → Team → Result (Unit {0})
unfolding validate_name
require_known_agent name team = do
  validate_name name
  require (has_key name team.prompts || has_key name team.work) controller_error

-- A loop whose body only raises
unfoldable pub check_each : (Str → Result (Unit {0})) → List Str → Result (Unit {0})
check_each check [] = ok tt
check_each check (x ∷ xs) = check x >> check_each check xs

-- `len(names) >= cap`
unfoldable pub is_full : ℕ → ℤ → Bool
is_full count (negsuc n) = true
is_full count (pos cap) = leb cap count

module _ ⦃host : Host⦄ where
  unfoldable pub check_workspace : (name workspace : Str) → Dict Str Str → Str → Result (Unit {0})
  unfolding parse_prompt
  check_workspace name workspace prompts other_name =
      if other_name == name
      then ok tt
      else parse_prompt (lookup other_name prompts) >>= λ other.
          require (not (other.workspace == workspace)) controller_error

  unfoldable pub ensure_workspace_is_exclusive :
      (name workspace : Str) → Dict Str Str → Result (Unit {0})
  unfolding agent_names check_each check_workspace
  ensure_workspace_is_exclusive name workspace prompts =
      check_each (check_workspace name workspace prompts) (agent_names prompts)

  unfoldable pub check_assessor : (name : Str) → Dict Str Str → Str → Result (Unit {0})
  unfolding parse_prompt is_assessor
  check_assessor name prompts other_name =
      if other_name == name
      then ok tt
      else parse_prompt (lookup other_name prompts) >>= λ other.
          require (not (is_assessor other.role)) controller_error

  unfoldable pub ensure_impact_assessor_is_unique :
      (name role : Str) → Dict Str Str → Result (Unit {0})
  unfolding agent_names check_each check_assessor is_assessor
  ensure_impact_assessor_is_unique name role prompts =
      if is_assessor role
      then check_each (check_assessor name prompts) (agent_names prompts)
      else ok tt

  -- What `new` checks under the lock
  unfoldable pub admit : (name : Str) → PromptConfig → Team → Result (Unit {0})
  unfolding ensure_workspace_is_exclusive ensure_impact_assessor_is_unique is_full
  admit name config team = do
    require (not (has_key name team.prompts)) controller_error
    cap ← team.agent_cap
    require (not (is_full (length (agent_names team.prompts)) cap)) controller_error
    ensure_workspace_is_exclusive name config.workspace team.prompts
    ensure_impact_assessor_is_unique name config.role team.prompts

  -- and `retarget`
  unfoldable pub admit_replacement : (name : Str) → PromptConfig → Team → Result (Unit {0})
  unfolding ensure_workspace_is_exclusive ensure_impact_assessor_is_unique
  admit_replacement name config team = do
    ensure_workspace_is_exclusive name config.workspace team.prompts
    ensure_impact_assessor_is_unique name config.role team.prompts
