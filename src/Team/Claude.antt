-- ===== src/Team/Claude.antt =====
-- research_team/claude_code.py: one pass of the Claude Code command line.
pub mod Passes
use mathlib.Core.List.{reverse}
use discovery_net.Base.{
  ℕ, ◌+◌, Bool, true, false, not, ◌&&◌, ◌||◌, Option, none, some, List, [], ◌∷◌, ◌++◌, ◌==◌, eqb,
  any, contains, keep_if, is_some, if◌then◌else◌,
}
use discovery_net.Base.Dict.{Dict}
use discovery_net.Base.Parse.{split_lines, lower}
use discovery_net.Base.Result.{
  Result, ok, err, claude_code_error, controller_error, require, reraise, Error, ◌>>=◌, ◌>>◌,
}
use discovery_net.Base.Text.{Str, text_eq, codes, strip, is_empty, starts_with, contains_text}
use discovery_net.Team.Host.{Completed}
use discovery_net.Team.Prompt.{
  PromptConfig, require_choice, claude_efforts, claude_web_search_modes,
}

-- A JSON object that the command line printed: the fields that the code reads. A number that is
-- missing or not a number is none, and so is an empty text.
pub record PrintedObject : Type 0 where
  pub type : Option Str
  pub is_error : Bool
  pub result : Option Str
  pub session_id : Option Str
  pub input_tokens : Option ℕ
  pub cache_read_input_tokens : Option ℕ
  pub cache_creation_input_tokens : Option ℕ
  pub output_tokens : Option ℕ
  -- `float(... or 0.0)`, which raises for a value that is no number
  pub total_cost_usd : Result ℕ
  pub num_turns : Option ℕ

-- `find_claude`, `uuid4`, the run of a command on a prompt in a workspace, `json.loads` of a line
-- that is a dict, and the format `g` of a float
pub record CommandLine : Type 0 where
  pub find_claude : Result Str
  pub first_id : Str
  pub second_id : Str
  pub invoke : (command : List Str) (prompt workspace : Str) → Result Completed
  pub loads : Str → Option PrintedObject
  pub format_g : ℕ → Str

pub record PassResult : Type 0 where
  pub response : Str
  pub session_id : Str
  pub input_tokens : ℕ
  pub cached_input_tokens : ℕ
  pub cache_creation_input_tokens : ℕ
  pub output_tokens : ℕ
  pub cost_usd : ℕ
  pub num_turns : ℕ
  pub resumed : Bool

-- The environment of the command line, without the variables of a parent session
unfoldable pub runtime_environment : Dict Str Str → Dict Str Str
runtime_environment source =
    keep_if
      (λ entry.
        (entry.0 == codes "CLAUDE_CONFIG_DIR") || not (starts_with (codes "CLAUDE") entry.0))
      source

abbrev model_arguments : Option Str → List Str
model_arguments none = []
model_arguments (some model) = if is_empty model then [] else codes "--model" ∷ model ∷ []

unfoldable pub permission_arguments : (permissions web_search : Str) → Result (List Str)
permission_arguments permissions web_search =
    if permissions == codes "unrestricted"
    then ok (codes "--permission-mode" ∷ codes "bypassPermissions" ∷ [])
    else if permissions == codes "workspace-write"
    then ok (
        codes "--permission-mode"
        ∷ codes "acceptEdits"
        ∷ codes "--allowedTools"
        ∷ codes "Bash"
        ∷ (if web_search == codes "live" then codes "WebSearch" ∷ codes "WebFetch" ∷ [] else []))
    else err claude_code_error

abbrev search_arguments : Str → List Str
search_arguments web_search =
    if web_search == codes "disabled"
    then codes "--disallowedTools" ∷ codes "WebSearch" ∷ codes "WebFetch" ∷ []
    else []

abbrev session_arguments : Bool → Str → List Str
session_arguments resume session_id =
    (if resume then codes "--resume" else codes "--session-id") ∷ session_id ∷ []

module _ ⦃line : CommandLine⦄ where
  abbrev budget_arguments : Option ℕ → List Str
  budget_arguments none = []
  budget_arguments (some usd) = codes "--max-budget-usd" ∷ line.format_g usd ∷ []

  unfoldable pub build_command :
      (binary : Str) → PromptConfig → (session_id : Str) → (resume : Bool) → Result (List Str)
  unfolding permission_arguments
  build_command binary c session_id resume = do
    require (contains c.effort claude_efforts) claude_code_error
    require (contains c.web_search claude_web_search_modes) claude_code_error
    permitted ← permission_arguments c.permissions c.web_search
    ok (
        (binary
          ∷ codes "-p"
          ∷ codes "--output-format"
          ∷ codes "json"
          ∷ codes "--effort"
          ∷ c.effort
          ∷ codes "--setting-sources"
          ∷ codes "project"
          ∷ codes "--strict-mcp-config"
          ∷ [])
        ++ model_arguments c.model
        ++ permitted
        ++ search_arguments c.web_search
        ++ budget_arguments c.max_pass_usd
        ++ session_arguments resume session_id)

  abbrev pub is_result : Option PrintedObject → Bool
  is_result none = false
  is_result (some value) = elim value.type [ none ↦ false | some t ↦ t == codes "result" ]

  -- The object that a line of the output holds
  unfoldable pub read_line : Str → Option PrintedObject
  read_line text = if starts_with (codes "{") text then line.loads text else none

  unfoldable pub first_result : List Str → Result PrintedObject
  unfolding read_line
  first_result [] = err claude_code_error
  first_result (text ∷ lines) =
      let rest = first_result lines in
      elim (read_line (strip text)) [
        | none ↦ rest
        | some value ↦ if is_result (some value) then ok value else rest
      ]

  unfoldable pub parse_result : Str → Result PrintedObject
  unfolding first_result
  parse_result stdout = first_result (reverse (split_lines stdout))

  -- `text.lower()`: no letter outside ASCII is one of these in lower case.
  unfoldable pub looks_like_lost_session : Completed → Bool
  looks_like_lost_session completed =
      any (λ marker. contains_text marker (lower (completed.stderr ++ completed.stdout)))
        (codes "no conversation found"
          ∷ codes "session not found"
          ∷ codes "could not find session"
          ∷ [])

  abbrev number : Option ℕ → ℕ
  number none = 0
  number (some n) = n

  abbrev text_or : Str → Option Str → Str
  text_or default none = default
  text_or default (some s) = s

  abbrev pub pass_result : (session : Str) (resumed : Bool) → PrintedObject → Result PassResult
  pass_result session resumed printed = do
    cost_usd ← printed.total_cost_usd
    ok (record {
      response = text_or [] printed.result;
      session_id = text_or session printed.session_id;
      input_tokens = number printed.input_tokens;
      cached_input_tokens = number printed.cache_read_input_tokens;
      cache_creation_input_tokens = number printed.cache_creation_input_tokens;
      output_tokens = number printed.output_tokens;
      cost_usd = cost_usd;
      num_turns = number printed.num_turns;
      resumed = resumed;
    })

  -- What a run of the command gives, at the end of `run_pass`
  unfoldable pub read_completed : (session : Str) (resumed : Bool) → Completed → Result PassResult
  unfolding parse_result
  read_completed session resumed completed = do
    require (eqb completed.returncode 0) claude_code_error
    printed ← parse_result completed.stdout
    require (not printed.is_error) claude_code_error
    pass_result session resumed printed

  -- One run of the command, in a session that is new or resumed
  unfoldable pub invoke_session :
      (binary : Str) → PromptConfig → (prompt session : Str) → (resume : Bool) → Result Completed
  unfolding build_command
  invoke_session binary c prompt session resume = do
    command ← build_command binary c session resume
    line.invoke command prompt c.workspace

  -- `completed.returncode != 0 and _looks_like_lost_session(completed)`
  unfoldable pub is_lost : Completed → Bool
  unfolding looks_like_lost_session
  is_lost completed = not (eqb completed.returncode 0) && looks_like_lost_session completed

  -- The second run, if the session is lost
  unfoldable pub start_again :
      (binary : Str) → PromptConfig → (fresh_prompt session : Str) → Completed → Result PassResult
  unfolding invoke_session read_completed is_lost
  start_again binary c fresh_prompt session completed =
      if is_lost completed
      then invoke_session binary c fresh_prompt line.second_id false
        >>= read_completed line.second_id false
      else read_completed session true completed

  -- `session_id or new_session_id()`
  abbrev pub active_session : Str → Str
  active_session session = if is_empty session then line.first_id else session

  unfoldable pub run_pass :
      PromptConfig → (prompt fresh_prompt : Str) → Option Str → Result PassResult
  unfolding invoke_session read_completed start_again
  run_pass c prompt fresh_prompt none = do
    binary ← line.find_claude
    completed ← invoke_session binary c fresh_prompt line.first_id false
    read_completed line.first_id false completed
  run_pass c prompt fresh_prompt (some session) = do
    binary ← line.find_claude
    completed ← invoke_session binary c prompt (active_session session) true
    start_again binary c fresh_prompt (active_session session) completed
