-- ===== src/Tests/Teams.antt =====
-- A machine, a prompt and an agent.
use discovery_net.Base.{
  ℕ, ◌-◌, true, ◌≡◌, refl, Option, none, some, [], ◌++◌, leb, ◌&&◌, if◌then◌else◌,
}
use discovery_net.Base.Parse
use discovery_net.Base.Parse.{pos}
use discovery_net.Base.Result.{ok}
use discovery_net.Base.Text
use discovery_net.Base.Text.{Str, codes}
use discovery_net.Team.Host.{Host}
use discovery_net.Team.Prompt
use discovery_net.Team.Prompt.Fields
use discovery_net.Team.Prompt.Repository
use discovery_net.Team.Prompt.{PromptConfig, parse_text}

-- A POSIX machine with one ledger, on which every path is a directory
instance abbrev pub small_host : Host
small_host = record {
  is_file = λ path. true;
  is_dir = λ path. true;
  expand_user = λ path. ok path;
  resolve = λ path. path;
  url_split = λ url. ok (record {
    scheme = codes "https";
    netloc = codes "GitHub.com";
    path = codes "/owner/notes.git";
    query = [];
    fragment = [];
    username = none;
    password = none;
  });
  float = λ text. some 0;
  decimal_digit = λ c. if leb b'0' c && leb c b'9' then some (c - b'0') else none;
  has_git = true;
  ls_remote = λ url. some (record { returncode = 0; stdout = codes "f00 HEAD"; stderr = [] });
}

-- A prompt with this role, workspace and number of passes
abbrev pub prompt_text : (role workspace passes : Str) → Str
prompt_text role workspace passes =
    codes "role: "
    ++ role
    ++ codes "\nmode: continuous\neffort: high\ntier: default\nrestart-seconds: 60\n"
    ++ codes "permissions: workspace-write\nnetwork-access: true\nweb-search: live\nworkspace: "
    ++ workspace
    ++ codes "\ngithub-repository: https://github.com/owner/notes\ncontract-confirmed: true\n"
    ++ codes "max-passes: "
    ++ passes
    ++ codes "\nmax-total-tokens: 0\n\nGo on.\n"

abbrev pub config_with :
    (role workspace : Str) → (max_passes : Option ℕ) → (text : Str) → PromptConfig
config_with role workspace max_passes text = record {
  role = role;
  mode = codes "continuous";
  effort = codes "high";
  tier = codes "default";
  restart_seconds = pos 60;
  permissions = codes "workspace-write";
  network_access = true;
  web_search = codes "live";
  workspace = workspace;
  github_repository = codes "https://github.com/owner/notes";
  ledger_path = none;
  max_passes = max_passes;
  max_total_tokens = none;
  model = none;
  runner = codes "codex";
  max_pass_usd = none;
  text = text;
}

-- All that reading a prompt goes through
unfoldable pub prompt_code : ℕ
unfolding Text.is_space Text.lstrip Text.strip Text.is_blank Parse.is_line_break Parse.split_lines
    Parse.cut Parse.split_on Parse.parse_int Fields.is_name Fields.validate_name Fields.parse_bool
    Fields.limit_of Fields.parse_limit Fields.is_nan Fields.is_negative Fields.dollars_of
    Fields.parse_dollars Fields.require_restart Fields.parse_restart_seconds Repository.is_owner
    Repository.is_repository Repository.without_git Repository.is_github Repository.remotes_of
    Repository.parse_github_repository Repository.is_accessible Repository.verify_github_repository
    Prompt.metadata_entry Prompt.read_metadata Prompt.item Prompt.item_or Prompt.choice_of
    Prompt.choice Prompt.require_keys Prompt.require_choice Prompt.require_runner_options
    Prompt.absolute_path Prompt.workspace_of Prompt.require_network Prompt.repository_of
    Prompt.optional_path Prompt.is_assessor Prompt.is_ledger Prompt.ledger_path_of Prompt.limit_item
    Prompt.model_of Prompt.runner_options_of Prompt.consent_of Prompt.schedule_of Prompt.limits_of
    Prompt.parse_metadata Prompt.parse_text Prompt.parse_prompt
prompt_code = 0

abbrev pub researcher_text : Str
researcher_text = prompt_text (codes "researcher") (codes "/work/one") (codes "1")

abbrev pub researcher : PromptConfig
researcher = config_with (codes "researcher") (codes "/work/one") (some 1) researcher_text

pub parse_text-researcher : parse_text researcher_text ≡ ok researcher
unfolding prompt_code
parse_text-researcher = refl
