-- ===== src/Team/Work.antt =====
-- research_team/controller.py: the files of one agent, its usage and its limits.
pub mod Pass
use discovery_net.Base.{
  ℕ, zero, suc, ◌+◌, Bool, true, false, not, ◌&&◌, ◌||◌, Option, none, some, List, [], ◌∷◌, ◌++◌,
  ◌==◌, leb, length, keep_if, if◌then◌else◌,
}
use discovery_net.Base.Dict.{Dict, keys, lookup}
use discovery_net.Base.Result.{Result, ok, err, Error}
use discovery_net.Base.Sorted.{text_lt, sorted}
use discovery_net.Base.Text.{Str, text_eq, codes, strip}
use discovery_net.Team.Prompt.{PromptConfig}

-- A line of usage.jsonl
pub record UsageRecord : Type 0 where
  pub run_id : Str
  pub agent : Str
  pub role : Str
  pub runner : Str
  pub started_at : Str
  pub finished_at : Str
  pub thread_id : Option Str
  pub model : Option Str
  pub effort : Str
  pub tier : Str
  pub report : Str
  pub input_tokens : ℕ
  pub cached_input_tokens : ℕ
  pub output_tokens : ℕ
  pub total_tokens : ℕ
  pub cost_usd : Option ℕ

-- A line of failures.jsonl
pub record Failure : Type 0 where
  pub agent : Str
  pub role : Str
  pub started_at : Str
  pub finished_at : Str
  pub error : Error

-- last-run.json
pub data LastRun : Type 0 where
  completed : (started_at finished_at : Str) (thread_id : Option Str) (report : Str) → LastRun
  failed : (started_at finished_at : Str) (error : Error) → LastRun

-- current-pass.json
pub record PassMarker : Type 0 where
  pub agent : Str
  pub role : Str
  pub started_at : Str

-- The files below work/NAME/ and followups/NAME/, by name where there are several
pub record AgentDir : Type 0 where
  pub thread_id : Option Str
  pub session_id : Option Str
  pub prompt_digest : Option Str
  pub last_message : Option Str
  pub reports : Dict Str Str
  pub usage : List UsageRecord
  pub failures : List Failure
  pub followups : Dict Str Str
  pub last_run : Option LastRun
  pub current_pass : Option PassMarker

abbrev pub sum_of : (UsageRecord → ℕ) → List UsageRecord → ℕ
sum_of f [] = 0
sum_of f (r ∷ rs) = f r + sum_of f rs

pub record UsageTotals : Type 0 where
  pub passes : ℕ
  pub input_tokens : ℕ
  pub cached_input_tokens : ℕ
  pub output_tokens : ℕ
  pub total_tokens : ℕ

-- `usage_totals` of the records of one agent
unfoldable pub usage_totals : List UsageRecord → UsageTotals
usage_totals records = record {
  passes = length records;
  input_tokens = sum_of (λ r. r.input_tokens) records;
  cached_input_tokens = sum_of (λ r. r.cached_input_tokens) records;
  output_tokens = sum_of (λ r. r.output_tokens) records;
  total_tokens = sum_of (λ r. r.input_tokens) records + sum_of (λ r. r.output_tokens) records;
}

pub data LimitReason : Type 0 where
  max_passes_reached max_total_tokens_reached : (used limit : ℕ) → LimitReason

-- Whether a limit is set and reached
abbrev pub reaches : ℕ → Option ℕ → Bool
reaches used none = false
reaches used (some limit) = leb limit used

abbrev pub reason_of : (ℕ → ℕ → LimitReason) → ℕ → Option ℕ → Option LimitReason
reason_of reason used none = none
reason_of reason used (some limit) = if leb limit used then some (reason used limit) else none

unfoldable pub limit_reason : UsageTotals → PromptConfig → Option LimitReason
limit_reason totals config = elim (reason_of max_passes_reached totals.passes config.max_passes) [
  | some reason ↦ some reason
  | none ↦ reason_of max_total_tokens_reached totals.total_tokens config.max_total_tokens
]

-- The first of the queued follow-ups, by file name
unfoldable pub next_followup : Dict Str Str → Option Str
next_followup followups = elim (sorted text_lt (keys followups)) [
  | [] ↦ none
  | name ∷ names ↦ some name
]

-- `path.replace(...)` takes the file away.
abbrev pub without : {V : Type 0} → Str → Dict Str V → Dict Str V
without name files = keep_if (λ entry. not (entry.0 == name)) files

-- `conversation_id_path(config, name).read_text().strip()`, if the file exists
unfoldable pub conversation_id : PromptConfig → AgentDir → Option Str
conversation_id config dir =
    elim (if config.runner == codes "claude-code" then dir.session_id else dir.thread_id) [
      | none ↦ none
      | some text ↦ some (strip text)
    ]

unfoldable pub store_conversation_id : PromptConfig → Str → AgentDir → AgentDir
store_conversation_id config id dir =
    if config.runner == codes "claude-code"
    then record dir { session_id = some (id ++ codes "\n") }
    else record dir { thread_id = some (id ++ codes "\n") }
