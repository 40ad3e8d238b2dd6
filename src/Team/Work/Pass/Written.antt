-- ===== src/Team/Work/Pass/Written.antt =====
-- research_team/controller.py: what the writes of a pass leave.
use discovery_net.Base.{
  ℕ, zero, suc, ◌+◌, leb, ◌≡◌, refl, ap, ◌∙◌, if◌then◌else◌, Option, none, some, [], ◌∷◌, ◌++◌,
  arith, ◌⊎◌, inl, inr,
}
use discovery_net.Base.Dict.{Dict, insert, lookup}
use discovery_net.Base.Parse.{rstrip}
use discovery_net.Base.Result.{Result, ok, err, Error}
use discovery_net.Base.Text.{Str, text_eq, codes}
use discovery_net.Team.Prompt.{PromptConfig}
use discovery_net.Team.Work.{
  AgentDir, UsageRecord, completed, next_followup, without, store_conversation_id,
}
use discovery_net.Team.Work.Pass.{
  PassEnv, PassOutcome, move_followup, keep_conversation_id, response_of, usage_record, report_of,
  moved_text, completion_writes, write_until, without_followup, with_followup,
}

-- All that a pass wrote is the id of its conversation.
pub record IsUncounted (dir dir' : AgentDir) : Type 0 where
  pub usage : dir'.usage ≡ dir.usage
  pub followups : dir'.followups ≡ dir.followups
  pub reports : dir'.reports ≡ dir.reports
  pub last_message : dir'.last_message ≡ dir.last_message
  pub prompt_digest : dir'.prompt_digest ≡ dir.prompt_digest
  pub failures : dir'.failures ≡ dir.failures
  pub last_run : dir'.last_run ≡ dir.last_run
  pub current_pass : dir'.current_pass ≡ dir.current_pass

-- The follow-up that the pass was given is gone from the queue, with the others kept.
abbrev pub queue_after : Option Str → Dict Str Str → Dict Str Str
queue_after none followups = followups
queue_after (some name) followups = without name followups

-- The usage of a pass by its environment, its prompt and the answer of the runner
abbrev pub usage_of : PassEnv → (name : Str) → PromptConfig → PassOutcome → UsageRecord
usage_of env name config answer = record {
  run_id = name ++ codes ":" ++ env.started_at;
  agent = name;
  role = config.role;
  runner = config.runner;
  started_at = env.started_at;
  finished_at = env.finished_at;
  thread_id = answer.conversation_id;
  model = config.model;
  effort = config.effort;
  tier = config.tier;
  report = env.run_timestamp ++ codes ".md";
  input_tokens = answer.input_tokens;
  cached_input_tokens = answer.cached_input_tokens;
  output_tokens = answer.output_tokens;
  total_tokens = answer.input_tokens + answer.output_tokens;
  cost_usd = answer.cost_usd;
}

abbrev pub keep_report : PassEnv → PassOutcome → ℕ → Dict Str Str → Dict Str Str
keep_report env answer count reports =
    if leb 2 count
    then insert (env.run_timestamp ++ codes ".md") (rstrip answer.response ++ codes "\n") reports
    else reports

abbrev pub insert_text : Str → Option Str → Dict Str Str → Dict Str Str
insert_text file none reports = reports
insert_text file (some text) reports = insert file text reports

-- The text of a follow-up stands among the reports under the time of the pass.
abbrev pub keep_followup : PassEnv → Option Str → Dict Str Str → Dict Str Str → Dict Str Str
keep_followup env none followups reports = reports
keep_followup env (some name) followups reports =
    insert_text (codes "followup-" ++ env.run_timestamp ++ codes ".md") (lookup name followups)
      reports

-- The files after the first of the six writes of a pass, with the answer of the runner: its last
-- message, its report, its usage, the digest of its prompt, the move of its follow-up, and its run.
pub record IsWritten (env : PassEnv) (name : Str) (config : PromptConfig) (answer : PassOutcome)
    (count : ℕ) (dir dir' : AgentDir) : Type 0 where
  pub last_message :
      dir'.last_message
      ≡ (if leb 1 count then some (rstrip answer.response ++ codes "\n") else dir.last_message)
  pub reports : dir'.reports ≡ (
      if leb 5 count
      then keep_followup env
          (next_followup dir.followups)
          dir.followups
          (keep_report env answer count dir.reports)
      else keep_report env answer count dir.reports)
  pub usage :
      dir'.usage
      ≡ (if leb 3 count then dir.usage ++ usage_of env name config answer ∷ [] else dir.usage)
  pub prompt_digest :
      dir'.prompt_digest
      ≡ (if leb 4 count then some (env.digest config.text ++ codes "\n") else dir.prompt_digest)
  pub followups : dir'.followups ≡ (
      if leb 5 count
      then queue_after (next_followup dir.followups) dir.followups
      else dir.followups)
  pub last_run : dir'.last_run ≡ (
      if leb 6 count
      then some (
          completed env.started_at env.finished_at answer.conversation_id
            (env.run_timestamp ++ codes ".md"))
      else dir.last_run)
  pub failures : dir'.failures ≡ dir.failures
  pub current_pass : dir'.current_pass ≡ dir.current_pass

module _ (env : PassEnv) (name : Str) where
  pub same-IsUncounted : (dir : AgentDir) → IsUncounted dir dir
  same-IsUncounted dir = record {
    usage = refl;
    followups = refl;
    reports = refl;
    last_message = refl;
    prompt_digest = refl;
    failures = refl;
    last_run = refl;
    current_pass = refl;
  }

  pub keep_conversation_id-IsUncounted :
      (config : PromptConfig) (id : Option Str) (dir : AgentDir)
      → IsUncounted dir (keep_conversation_id config id dir)
  unfolding keep_conversation_id store_conversation_id
  keep_conversation_id-IsUncounted config none dir = same-IsUncounted dir
  keep_conversation_id-IsUncounted config (some id) dir = record {
    usage = ground arith;
    followups = ground arith;
    reports = ground arith;
    last_message = ground arith;
    prompt_digest = ground arith;
    failures = ground arith;
    last_run = ground arith;
    current_pass = ground arith;
  }

  pub IsUncounted-IsWritten :
      (config : PromptConfig) (answer : PassOutcome) (count : ℕ) (dir kept dir' : AgentDir)
      → IsUncounted dir kept
      → IsWritten env name config answer count kept dir'
      → IsWritten env name config answer count dir dir'
  IsUncounted-IsWritten config answer count dir kept dir' same written = record {
    last_message =
        written.last_message
        ∙ ap (λ m. if leb 1 count then some (rstrip answer.response ++ codes "\n") else m)
            same.last_message;
    reports =
        written.reports
        ∙ ap
            (λ f.
              if leb 5 count
              then keep_followup env (next_followup f) f (keep_report env answer count kept.reports)
              else keep_report env answer count kept.reports)
            same.followups
        ∙ ap
            (λ r.
              if leb 5 count
              then keep_followup env (next_followup dir.followups) dir.followups
                  (keep_report env answer count r)
              else keep_report env answer count r)
            same.reports;
    usage =
        written.usage
        ∙ ap (λ u. if leb 3 count then u ++ usage_of env name config answer ∷ [] else u) same.usage;
    prompt_digest =
        written.prompt_digest
        ∙ ap (λ d. if leb 4 count then some (env.digest config.text ++ codes "\n") else d)
            same.prompt_digest;
    followups =
        written.followups
        ∙ ap (λ f. if leb 5 count then queue_after (next_followup f) f else f) same.followups;
    last_run =
        written.last_run
        ∙ ap
            (λ r.
              if leb 6 count
              then some (
                  completed env.started_at env.finished_at answer.conversation_id
                    (env.run_timestamp ++ codes ".md"))
              else r)
            same.last_run;
    failures = written.failures ∙ same.failures;
    current_pass = written.current_pass ∙ same.current_pass;
  }

  without_followup-queue_after :
      (followup : Option Str) (followups : Dict Str Str)
      → without_followup followup followups ≡ queue_after followup followups
  without_followup-queue_after none followups = refl
  without_followup-queue_after (some n) followups = refl

  moved_text-insert_text :
      (file : Str) (text : Option Str) (reports : Dict Str Str)
      → moved_text file text reports ≡ insert_text file text reports
  moved_text-insert_text file none reports = refl
  moved_text-insert_text file (some text) reports = refl

  with_followup-keep_followup :
      (followup : Option Str) (followups reports : Dict Str Str)
      → with_followup env followup followups reports ≡ keep_followup env followup followups reports
  with_followup-keep_followup none followups reports = refl
  with_followup-keep_followup (some n) followups reports =
      moved_text-insert_text (codes "followup-" ++ env.run_timestamp ++ codes ".md")
        (lookup n followups) reports

  module _ (config : PromptConfig) (answer : PassOutcome) (dir : AgentDir) where
    -- The files after a number of the writes
    abbrev files_after : ℕ → AgentDir
    files_after count = record dir {
      last_message = if leb 1 count then some (response_of answer) else dir.last_message;
      reports =
          if leb 5 count
          then with_followup env (next_followup dir.followups) dir.followups
              (keep_report env answer count dir.reports)
          else keep_report env answer count dir.reports;
      usage =
          if leb 3 count then dir.usage ++ usage_record env name config answer ∷ [] else dir.usage;
      prompt_digest =
          if leb 4 count then some (env.digest config.text ++ codes "\n") else dir.prompt_digest;
      followups =
          if leb 5 count
          then without_followup (next_followup dir.followups) dir.followups
          else dir.followups;
      last_run =
          if leb 6 count
          then some
              (completed env.started_at env.finished_at answer.conversation_id (report_of env))
          else dir.last_run;
    }

    files_after-IsWritten :
        (count : ℕ) → IsWritten env name config answer count dir (files_after count)
    files_after-IsWritten count =
        let followup = next_followup dir.followups in
        let kept = keep_report env answer count dir.reports in
        record {
          last_message = refl;
          reports =
              ap (λ r. if leb 5 count then r else kept)
                (with_followup-keep_followup followup dir.followups kept);
          usage = refl;
          prompt_digest = refl;
          followups =
              ap (λ f. if leb 5 count then f else dir.followups)
                (without_followup-queue_after followup dir.followups);
          last_run = refl;
          failures = refl;
          current_pass = refl;
        }

    -- What the writes leave, and how they end
    abbrev pub Wrote : Result (Unit {0}) × AgentDir → Type 0
    Wrote r =
        (count : ℕ) × IsWritten env name config answer count dir r.1
        × (((r.0 ≡ ok tt) × (count ≡ 6))
            ⊎ ((e : Error) × (r.0 ≡ err e) × (env.interruption ≡ some (count, e))))

    breaks :
        (count : ℕ) (e : Error)
        → env.interruption ≡ some (count, e)
        → Wrote (err e, files_after count)
    breaks count e h = (count, files_after-IsWritten count, inr (e, refl, h))

    pub write_until-Wrote :
        (interruption : Option (ℕ × Error))
        → env.interruption ≡ interruption
        → Wrote (
            write_until
              (completion_writes env name config answer (next_followup dir.followups))
              interruption
              dir)
    unfolding write_until completion_writes move_followup
    write_until-Wrote none h = (6, files_after-IsWritten 6, inl (refl, refl))
    write_until-Wrote (some (zero, e)) h = breaks 0 e h
    write_until-Wrote (some (suc zero, e)) h = breaks 1 e h
    write_until-Wrote (some (suc (suc zero), e)) h = breaks 2 e h
    write_until-Wrote (some (suc (suc (suc zero)), e)) h = breaks 3 e h
    write_until-Wrote (some (suc (suc (suc (suc zero))), e)) h = breaks 4 e h
    write_until-Wrote (some (suc (suc (suc (suc (suc zero)))), e)) h = breaks 5 e h
    write_until-Wrote (some (suc (suc (suc (suc (suc (suc zero))))), e)) h = breaks 6 e h
    write_until-Wrote (some (suc (suc (suc (suc (suc (suc (suc n)))))), e)) h =
        (6, files_after-IsWritten 6, inl (refl, refl))
