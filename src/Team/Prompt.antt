-- ===== src/Team/Prompt.antt =====
-- research_team/controller.py: the prompt file of an agent, its metadata and its checks.
pub mod Fields
pub mod Repository
pub mod Supported
use discovery_net.Base.{
  ℕ, ◌+◌, ◌-◌, Bool, true, false, not, ◌&&◌, ◌||◌, Option, none, some, List, [], ◌∷◌, ◌++◌, ◌==◌,
  ltb, leb, eqb, all, contains, is_some, if◌then◌else◌,
}
use discovery_net.Base.Dict.{Dict, lookup, has_key, insert}
use discovery_net.Base.Parse.{ℤ, pos, negsuc, split_lines, cut, join}
use discovery_net.Base.Result.{Result, ok, err, controller_error, key_error, require, ◌>>=◌, ◌>>◌}
use discovery_net.Base.Text.{Str, text_eq, codes, strip, is_blank, is_empty, starts_with}
use discovery_net.Team.Host.{Host}
use discovery_net.Team.Prompt.Fields.{
  parse_bool, parse_limit, parse_dollars, parse_restart_seconds, is_absolute,
}
use discovery_net.Team.Prompt.Repository.{parse_github_repository}

pub record PromptConfig : Type 0 where
  pub role : Str
  pub mode : Str
  pub effort : Str
  pub tier : Str
  pub restart_seconds : ℤ
  pub permissions : Str
  pub network_access : Bool
  pub web_search : Str
  pub workspace : Str
  pub github_repository : Str
  pub ledger_path : Option Str
  pub max_passes : Option ℕ
  pub max_total_tokens : Option ℕ
  pub model : Option Str
  pub runner : Str
  pub max_pass_usd : Option ℕ
  pub text : Str

-- The fields of it that depend on the runner
pub record RunnerOptions : Type 0 where
  pub role : Str
  pub mode : Str
  pub runner : Str
  pub effort : Str
  pub tier : Str
  pub max_pass_usd : Option ℕ
  pub web_search : Str

abbrev pub roles : List Str
roles =
    codes "researcher"
    ∷ codes "reviewer"
    ∷ codes "principal"
    ∷ codes "orchestrator"
    ∷ codes "impact-assessor"
    ∷ []

abbrev pub modes : List Str
modes = codes "continuous" ∷ codes "oneshot" ∷ []

abbrev pub runners : List Str
runners = codes "codex" ∷ codes "claude-code" ∷ []

abbrev pub codex_efforts : List Str
codex_efforts = codes "minimal" ∷ codes "low" ∷ codes "medium" ∷ codes "high" ∷ codes "xhigh" ∷ []

-- `claude_code.EFFORTS` and `claude_code.WEB_SEARCH_MODES`
abbrev pub claude_efforts : List Str
claude_efforts = codes "low" ∷ codes "medium" ∷ codes "high" ∷ codes "xhigh" ∷ codes "max" ∷ []

abbrev pub claude_web_search_modes : List Str
claude_web_search_modes = codes "disabled" ∷ codes "live" ∷ []

-- `CODEX_EFFORTS | claude_code.EFFORTS`
abbrev pub efforts : List Str
efforts = codex_efforts ++ claude_efforts

abbrev pub tiers : List Str
tiers = codes "default" ∷ codes "flex" ∷ []

abbrev pub permission_modes : List Str
permission_modes = codes "workspace-write" ∷ codes "unrestricted" ∷ []

abbrev pub web_search_modes : List Str
web_search_modes = codes "disabled" ∷ codes "cached" ∷ codes "live" ∷ []

-- `METADATA_KEYS - OPTIONAL_METADATA_KEYS`
abbrev pub required_keys : List Str
required_keys =
    codes "role"
    ∷ codes "mode"
    ∷ codes "effort"
    ∷ codes "tier"
    ∷ codes "restart-seconds"
    ∷ codes "permissions"
    ∷ codes "network-access"
    ∷ codes "web-search"
    ∷ codes "workspace"
    ∷ codes "github-repository"
    ∷ codes "contract-confirmed"
    ∷ codes "max-passes"
    ∷ codes "max-total-tokens"
    ∷ []

abbrev pub optional_keys : List Str
optional_keys = codes "model" ∷ codes "ledger-path" ∷ codes "runner" ∷ codes "max-pass-usd" ∷ []

abbrev pub is_metadata_key : Str → Bool
is_metadata_key key = contains key required_keys || contains key optional_keys

unfoldable pub require_keys : Dict Str Str → Result (Unit {0})
require_keys metadata = require (all (λ key. has_key key metadata) required_keys) controller_error

-- `if value not in supported: raise`
unfoldable pub require_choice : List Str → Str → Result (Unit {0})
require_choice supported value = require (contains value supported) controller_error

-- One `key: value` line
unfoldable pub metadata_entry : Dict Str Str → Option (Str × Str) → Result (Dict Str Str)
metadata_entry metadata none = err controller_error
metadata_entry metadata (some (key, value)) = do
  require (is_metadata_key (strip key)) controller_error
  require (not (has_key (strip key) metadata)) controller_error
  ok (insert (strip key) (strip value) metadata)

-- The metadata, and the lines of the body.
unfoldable pub read_metadata : Dict Str Str → List Str → Result (Dict Str Str × List Str)
unfolding metadata_entry
read_metadata metadata [] = ok (metadata, [])
read_metadata metadata (line ∷ lines) =
    if is_blank line
    then ok (metadata, lines)
    else metadata_entry metadata (cut b':' line) >>= λ more. read_metadata more lines

-- `metadata[key]`
unfoldable pub item : Str → Dict Str Str → Result Str
item key metadata = elim (lookup key metadata) [ none ↦ err key_error | some value ↦ ok value ]

-- `metadata.get(key, default)`
unfoldable pub item_or : Str → Str → Dict Str Str → Str
item_or key default metadata = elim (lookup key metadata) [ none ↦ default | some value ↦ value ]

unfoldable pub choice_of : List Str → Str → Result Str
unfolding require_choice
choice_of supported value = require_choice supported value >> ok value

-- An item that is one of the supported ones
unfoldable pub choice : Str → List Str → Dict Str Str → Result Str
unfolding item choice_of
choice key supported metadata = item key metadata >>= choice_of supported

-- What each runner supports
unfoldable pub require_runner_options :
    (runner effort tier web_search : Str) → Option ℕ → Result (Unit {0})
require_runner_options runner effort tier web_search max_pass_usd =
    if runner == codes "claude-code"
    then require (contains effort claude_efforts) controller_error
      >> require (tier == codes "default") controller_error
      >> require (contains web_search claude_web_search_modes) controller_error
    else require (contains effort codex_efforts) controller_error
      >> require (not (is_some max_pass_usd)) controller_error

module _ ⦃host : Host⦄ where
  -- `Path(value).expanduser()`, which has to be absolute, resolved
  unfoldable pub absolute_path : Str → Result Str
  absolute_path value = do
    path ← host.expand_user value
    require (is_absolute path) controller_error
    ok (host.resolve path)

  unfoldable pub workspace_of : Dict Str Str → Result Str
  unfolding item absolute_path
  workspace_of metadata = do
    value ← item (codes "workspace") metadata
    workspace ← absolute_path value
    require (host.is_dir workspace) controller_error
    ok workspace

  unfoldable pub require_network : Dict Str Str → Result (Unit {0})
  unfolding item parse_bool
  require_network metadata = do
    value ← item (codes "network-access") metadata
    access ← parse_bool value
    require access controller_error

  unfoldable pub repository_of : Dict Str Str → Result Str
  unfolding item parse_github_repository
  repository_of metadata = do
    value ← item (codes "github-repository") metadata
    remotes ← parse_github_repository value
    ok remotes.web_url

  unfoldable pub optional_path : Option Str → Result (Option Str)
  unfolding absolute_path
  optional_path none = ok none
  optional_path (some value) = absolute_path value >>= λ path. ok (some path)

  unfoldable pub is_assessor : Str → Bool
  is_assessor role = role == codes "impact-assessor"

  unfoldable pub is_ledger : Option Str → Bool
  is_ledger none = false
  is_ledger (some path) = host.is_file path

  unfoldable pub ledger_path_of : Str → Dict Str Str → Result (Option Str)
  unfolding optional_path is_assessor is_ledger
  ledger_path_of role metadata = do
    ledger_path ← optional_path (lookup (codes "ledger-path") metadata)
    require (not (is_assessor role) || is_ledger ledger_path) controller_error
    ok ledger_path

  unfoldable pub limit_item : Str → Dict Str Str → Result (Option ℕ)
  unfolding item parse_limit
  limit_item key metadata = item key metadata >>= λ value. parse_limit value

  -- `metadata.get("model") or None`
  unfoldable pub model_of : Option Str → Option Str
  model_of none = none
  model_of (some value) = if is_empty value then none else some value

  -- The checks of the metadata, in the order of the code: what the runner is asked for,
  unfoldable pub runner_options_of : Dict Str Str → Result RunnerOptions
  unfolding item item_or choice choice_of require_runner_options parse_dollars
  runner_options_of metadata = do
    role ← choice (codes "role") roles metadata
    mode ← choice (codes "mode") modes metadata
    runner ← choice_of runners (item_or (codes "runner") (codes "codex") metadata)
    effort ← choice (codes "effort") efforts metadata
    tier ← choice (codes "tier") tiers metadata
    max_pass_usd ← parse_dollars (item_or (codes "max-pass-usd") (codes "0") metadata)
    web_search ← item (codes "web-search") metadata
    require_runner_options runner effort tier web_search max_pass_usd
    ok (record {
      role = role;
      mode = mode;
      runner = runner;
      effort = effort;
      tier = tier;
      max_pass_usd = max_pass_usd;
      web_search = web_search;
    })

  -- the human's consent and the workspace,
  unfoldable pub consent_of : Str → Dict Str Str → Result Str
  unfolding item choice require_choice parse_bool
  consent_of web_search metadata = do
    permissions ← choice (codes "permissions") permission_modes metadata
    require_choice web_search_modes web_search
    contract ← item (codes "contract-confirmed") metadata
    confirmed ← parse_bool contract
    require confirmed controller_error
    ok permissions

  -- the schedule and the mandate,
  unfoldable pub schedule_of : Str → Dict Str Str → List Str → Result ℤ
  unfolding item parse_restart_seconds
  schedule_of mode metadata body = do
    restart ← item (codes "restart-seconds") metadata
    restart_seconds ← parse_restart_seconds mode restart
    require (not (is_blank (join (codes "\n") body))) controller_error
    ok restart_seconds

  -- and the limits.
  unfoldable pub limits_of : Dict Str Str → Result (Option ℕ × Option ℕ)
  unfolding limit_item
  limits_of metadata = do
    max_passes ← limit_item (codes "max-passes") metadata
    max_total_tokens ← limit_item (codes "max-total-tokens") metadata
    ok (max_passes, max_total_tokens)

  unfoldable pub parse_metadata : Str → Dict Str Str → List Str → Result PromptConfig
  unfolding require_keys model_of runner_options_of consent_of workspace_of schedule_of
      require_network repository_of ledger_path_of limits_of
  parse_metadata text metadata body = do
    require_keys metadata
    options ← runner_options_of metadata
    permissions ← consent_of options.web_search metadata
    workspace ← workspace_of metadata
    restart_seconds ← schedule_of options.mode metadata body
    require_network metadata
    github_repository ← repository_of metadata
    ledger_path ← ledger_path_of options.role metadata
    limits ← limits_of metadata
    ok (record {
      role = options.role;
      mode = options.mode;
      effort = options.effort;
      tier = options.tier;
      restart_seconds = restart_seconds;
      permissions = permissions;
      network_access = true;
      web_search = options.web_search;
      workspace = workspace;
      github_repository = github_repository;
      ledger_path = ledger_path;
      max_passes = limits.0;
      max_total_tokens = limits.1;
      model = model_of (lookup (codes "model") metadata);
      runner = options.runner;
      max_pass_usd = options.max_pass_usd;
      text = text;
    })

  -- `parse_prompt` of a file with this text; none is a file that is not there.
  unfoldable pub parse_text : Str → Result PromptConfig
  unfolding split_lines read_metadata parse_metadata
  parse_text text = do head ← read_metadata [] (split_lines text); parse_metadata text head.0 head.1

  unfoldable pub parse_prompt : Option Str → Result PromptConfig
  unfolding parse_text
  parse_prompt none = err controller_error
  parse_prompt (some text) = parse_text text
