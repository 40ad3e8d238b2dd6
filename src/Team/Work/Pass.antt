-- ===== src/Team/Work/Pass.antt =====
-- research_team/controller.py: one pass of an agent.
pub mod Written
pub mod Outcome
pub mod Lost
use discovery_net.Base.{
  ℕ, zero, suc, ◌+◌, Bool, true, false, not, ◌&&◌, ◌||◌, Option, none, some, List, [], ◌∷◌, ◌++◌,
  ◌==◌, contains, is_some, if◌then◌else◌,
}
use discovery_net.Base.Dict.{Dict, lookup, insert}
use discovery_net.Base.Parse.{rstrip}
use discovery_net.Base.Result.{
  Result, ok, err, Error, controller_error, claude_code_error, require, reraise, is_value_error,
  ◌>>=◌, ◌>>◌,
}
use discovery_net.Base.Text.{Str, text_eq, codes, strip, is_empty}
use discovery_net.Team.Host.{Host}
use discovery_net.Team.Prompt.{PromptConfig, parse_prompt}
use discovery_net.Team.Prompt.Fields.{validate_name}
use discovery_net.Team.Impact.{
  ImpactBatch, ImpactContext, ImpactFiles, Run, build_impact_context, parse_impact_batch,
  record_impact_batch, run_ids,
}
use discovery_net.Team.Claude.{CommandLine, PassResult, run_pass}
use discovery_net.Team.Work.{
  AgentDir, UsageRecord, completed, next_followup, without, conversation_id, store_conversation_id,
}

pub record PassOutcome : Type 0 where
  pub response : Str
  pub conversation_id : Option Str
  pub input_tokens : ℕ
  pub cached_input_tokens : ℕ
  pub output_tokens : ℕ
  pub cost_usd : Option ℕ

-- What a pass meets: the clock, the prompt file, the runners, and for an assessor the runs of the
-- team with the height of the graph, in which reading may fail.
pub record PassEnv : Type 0 where
  pub host : Host
  pub line : CommandLine
  pub codex : PromptConfig → (prompt : Str) → Option Str → Result PassOutcome
  pub digest : (text : Str) → Str
  pub impact_json : Str → Option ImpactBatch
  pub impact_prompt : ImpactContext → Str
  pub impact_runs : Result (ℕ × List Run)
  pub now : ℕ
  -- the prompt file when the worker looks at its limits, and when the pass starts
  pub prompt : Option Str
  pub pass_prompt : Option Str
  pub pass_started_at : Str
  pub started_at : Str
  pub finished_at : Str
  pub run_timestamp : Str
  -- An exception, a stop or an error of a file, that comes once the id of the conversation is kept;
  -- and one that comes after a number of the writes of a pass with an answer
  pub early_interruption : Option Error
  pub interruption : Option (ℕ × Error)

pub record Work : Type 0 where
  pub dir : AgentDir
  pub impact : ImpactFiles

-- `require_agent` and `parse_prompt`
unfoldable pub read_agent : ⦃host : Host⦄ → (name : Str) → Option Str → Result PromptConfig
unfolding validate_name parse_prompt
read_agent name prompt = validate_name name >> parse_prompt prompt

-- `thread_id is None or previous_digest != config.digest`
abbrev pub is_mandate_due : (digest : Str) → Option Str → Option Str → Bool
is_mandate_due digest none stored = true
is_mandate_due digest (some id) none = true
is_mandate_due digest (some id) (some text) = not (strip text == digest)

abbrev pub standing_mandate : Str
standing_mandate =
    codes
      "Continue the autonomous campaign under your existing standing mandate. Inspect the current workspace and prior thread context, then pursue the highest-value concrete next step."

abbrev pub followup_text : Option Str → Dict Str Str → Str
followup_text none followups = []
followup_text (some name) followups = elim (lookup name followups) [
  | none ↦ []
  | some text ↦ codes "\n\n## Orchestrator follow-up for this pass\n" ++ text
]

-- The prompt of `pass_input`; its follow-up is `next_followup`.
unfoldable pub pass_input : (digest : Str) → PromptConfig → Option Str → AgentDir → Str
unfolding next_followup
pass_input digest config thread_id dir =
    (if is_mandate_due digest thread_id dir.prompt_digest then config.text else standing_mandate)
    ++ followup_text (next_followup dir.followups) dir.followups

abbrev pub is_claude_code_error : Error → Bool
is_claude_code_error claude_code_error = true
is_claude_code_error _ = false

-- `config.text if session_id else prompt`
abbrev pub fresh_prompt : PromptConfig → Str → Option Str → Str
fresh_prompt config prompt none = prompt
fresh_prompt config prompt (some id) = if is_empty id then prompt else config.text

abbrev pub claude_outcome : Result PassResult → Result PassOutcome
claude_outcome run = do
  result ← reraise is_claude_code_error controller_error run
  ok (record {
    response = result.response;
    conversation_id = some result.session_id;
    input_tokens = result.input_tokens + result.cache_creation_input_tokens;
    cached_input_tokens = result.cached_input_tokens;
    output_tokens = result.output_tokens;
    cost_usd = some result.cost_usd;
  })

unfoldable pub run_claude_code_pass :
    ⦃line : CommandLine⦄ → PromptConfig → (prompt : Str) → Option Str → Result PassOutcome
unfolding run_pass
run_claude_code_pass config prompt session_id =
    claude_outcome (run_pass config prompt (fresh_prompt config prompt session_id) session_id)

unfoldable pub run_runner : PassEnv → PromptConfig → Str → Option Str → Result PassOutcome
unfolding run_claude_code_pass
run_runner env config prompt conversation =
    if config.runner == codes "claude-code"
    then run_claude_code_pass ⦃line = env.line⦄ config prompt conversation
    else env.codex config prompt conversation

-- The packet of an impact assessor
unfoldable pub impact_context_of :
    PassEnv → PromptConfig → ImpactFiles → Result (Option ImpactContext)
unfolding build_impact_context
impact_context_of env config files =
    if config.role == codes "impact-assessor"
    then require (is_some config.ledger_path) controller_error
      >> (env.impact_runs >>= λ (height, runs).
          ok (some (build_impact_context env.now height files.cursor runs)))
    else ok none

abbrev pub impact_text : PassEnv → Option ImpactContext → Str
impact_text env none = []
impact_text env (some context) = env.impact_prompt context

-- What the runner is asked, and its answer, with the packet
unfoldable pub ask : PassEnv → PromptConfig → Work → Result (PassOutcome × Option ImpactContext)
unfolding pass_input impact_context_of run_runner
ask env config work = do
  context ← impact_context_of env config work.impact
  outcome ←
      run_runner env config
        (pass_input (env.digest config.text) config (conversation_id config work.dir) work.dir
          ++ impact_text env context)
        (conversation_id config work.dir)
  ok (outcome, context)

-- `if resolved_conversation_id: atomic_write(...)`
unfoldable pub keep_conversation_id : PromptConfig → Option Str → AgentDir → AgentDir
unfolding store_conversation_id
keep_conversation_id config none dir = dir
keep_conversation_id config (some id) dir =
    if is_empty id then dir else store_conversation_id config id dir

abbrev pub response_of : PassOutcome → Str
response_of outcome = rstrip outcome.response ++ codes "\n"

-- `parse_impact_batch` and `record_impact_batch`
unfoldable pub record_impact :
    PassEnv
    → (name response : Str) → Option ImpactContext
    → ImpactFiles
    → Result (Unit {0}) × ImpactFiles
unfolding parse_impact_batch record_impact_batch
record_impact env name response none files = (ok tt, files)
record_impact env name response (some context) files =
    elim (reraise is_value_error controller_error
      (parse_impact_batch env.impact_json response (run_ids context.runs))) [
        | err e ↦ (err e, files)
        | ok batch ↦ record_impact_batch name env.finished_at context batch files
      ]

abbrev pub report_of : PassEnv → Str
report_of env = env.run_timestamp ++ codes ".md"

abbrev pub usage_record : PassEnv → (name : Str) → PromptConfig → PassOutcome → UsageRecord
usage_record env name config outcome = record {
  run_id = name ++ codes ":" ++ env.started_at;
  agent = name;
  role = config.role;
  runner = config.runner;
  started_at = env.started_at;
  finished_at = env.finished_at;
  thread_id = outcome.conversation_id;
  model = config.model;
  effort = config.effort;
  tier = config.tier;
  report = report_of env;
  input_tokens = outcome.input_tokens;
  cached_input_tokens = outcome.cached_input_tokens;
  output_tokens = outcome.output_tokens;
  total_tokens = outcome.input_tokens + outcome.output_tokens;
  cost_usd = outcome.cost_usd;
}

-- The follow-up, a file that `next_followup` found, moves to the reports.
abbrev pub moved_text : Str → Option Str → Dict Str Str → Dict Str Str
moved_text target none reports = reports
moved_text target (some text) reports = insert target text reports

abbrev pub without_followup : Option Str → Dict Str Str → Dict Str Str
without_followup none followups = followups
without_followup (some name) followups = without name followups

abbrev pub with_followup : PassEnv → Option Str → Dict Str Str → Dict Str Str → Dict Str Str
with_followup env none followups reports = reports
with_followup env (some name) followups reports =
    moved_text (codes "followup-" ++ env.run_timestamp ++ codes ".md") (lookup name followups)
      reports

unfoldable pub move_followup : PassEnv → Option Str → AgentDir → AgentDir
move_followup env followup dir = record dir {
  followups = without_followup followup dir.followups;
  reports = with_followup env followup dir.followups dir.reports;
}

-- The writes of a pass with an answer, in the order of the code
unfoldable pub completion_writes :
    PassEnv → (name : Str) → PromptConfig → PassOutcome → Option Str → List (AgentDir → AgentDir)
unfolding move_followup
completion_writes env name config outcome followup =
    (λ dir. record dir { last_message = some (response_of outcome) })
    ∷ (λ dir. record dir { reports = insert (report_of env) (response_of outcome) dir.reports })
    ∷ (λ dir. record dir { usage = dir.usage ++ usage_record env name config outcome ∷ [] })
    ∷ (λ dir. record dir { prompt_digest = some (env.digest config.text ++ codes "\n") })
    ∷ (λ dir. move_followup env followup dir)
    ∷ (λ dir. record dir {
      last_run =
          some (completed env.started_at env.finished_at outcome.conversation_id (report_of env));
    })
    ∷ []

-- The writes, up to the one that an exception follows; one that raises leaves its file.
unfoldable pub write_until :
    List (AgentDir → AgentDir) → Option (ℕ × Error) → AgentDir → Result (Unit {0}) × AgentDir
write_until [] none dir = (ok tt, dir)
write_until [] (some (zero, e)) dir = (err e, dir)
write_until [] (some (suc n, e)) dir = (ok tt, dir)
write_until (write ∷ writes) none dir = write_until writes none (write dir)
write_until (write ∷ writes) (some (zero, e)) dir = (err e, dir)
write_until (write ∷ writes) (some (suc n, e)) dir = write_until writes (some (n, e)) (write dir)

unfoldable pub complete_pass :
    PassEnv → (name : Str) → PromptConfig → PassOutcome → AgentDir → Result (Unit {0}) × AgentDir
unfolding completion_writes write_until next_followup
complete_pass env name config outcome dir =
    write_until (completion_writes env name config outcome (next_followup dir.followups))
      env.interruption dir

abbrev pub ended_pass :
    PromptConfig → ImpactFiles → Result (Unit {0}) × AgentDir → Result PromptConfig × Work
ended_pass config files (err e, dir) = (err e, record { dir = dir; impact = files })
ended_pass config files (ok u, dir) = (ok config, record { dir = dir; impact = files })

unfoldable pub finish_pass :
    PassEnv
    → (name : Str) → PromptConfig
    → AgentDir
    → PassOutcome
    → Result (Unit {0}) × ImpactFiles
    → Result PromptConfig × Work
unfolding complete_pass
finish_pass env name config dir outcome (err e, files) =
    (err e, record { dir = dir; impact = files })
finish_pass env name config dir outcome (ok u, files) =
    ended_pass config files (complete_pass env name config outcome dir)

-- An exception before the assessment is recorded
abbrev pub unless_stopped :
    Option Error → ImpactFiles → Result (Unit {0}) × ImpactFiles → Result (Unit {0}) × ImpactFiles
unless_stopped none files recorded = recorded
unless_stopped (some e) files recorded = (err e, files)

unfoldable pub answered :
    PassEnv
    → (name : Str) → PromptConfig
    → Work
    → Result (PassOutcome × Option ImpactContext)
    → Result PromptConfig × Work
unfolding keep_conversation_id record_impact finish_pass
answered env name config work (err e) = (err e, work)
answered env name config work (ok (outcome, context)) =
    finish_pass env name config (keep_conversation_id config outcome.conversation_id work.dir)
      outcome
      (unless_stopped env.early_interruption work.impact
        (record_impact env name (response_of outcome) context work.impact))

unfoldable pub started :
    PassEnv → (name : Str) → Work → Result PromptConfig → Result PromptConfig × Work
unfolding ask answered
started env name work (err e) = (err e, work)
started env name work (ok config) = answered env name config work (ask env config work)

-- `run_one_pass`; what it wrote before an exception stays.
unfoldable pub run_one_pass : PassEnv → (name : Str) → Work → Result PromptConfig × Work
unfolding read_agent started
run_one_pass env name work =
    started env name work (read_agent ⦃host = env.host⦄ name env.pass_prompt)
