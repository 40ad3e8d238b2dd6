-- ===== src/Team/Work/Pass/Outcome.antt =====
-- research_team/controller.py: what a pass leaves, completed or failed.
use discovery_net.Base.{ℕ, ◌≡◌, refl, sym, ap, subst, Option, some, ◌⊎◌, inl, inr}
use discovery_net.Base.Result.{Result, ok, err, Error, Result-cases}
use discovery_net.Base.Text.{Str, text_eq}
use discovery_net.Team.Prompt.{PromptConfig}
use discovery_net.Team.Impact.{ImpactContext, ImpactFiles}
use discovery_net.Team.Work.{AgentDir, next_followup}
use discovery_net.Team.Work.Pass.{
  PassEnv, PassOutcome, Work, read_agent, ask, started, answered, finish_pass, complete_pass,
  keep_conversation_id, record_impact, response_of, run_one_pass, completion_writes, write_until,
  ended_pass, unless_stopped,
}
use discovery_net.Team.Work.Pass.Written.{
  IsUncounted, IsWritten, same-IsUncounted, keep_conversation_id-IsUncounted, IsUncounted-IsWritten,
  write_until-Wrote, Wrote,
}

module _ (env : PassEnv) (name : Str) where
  -- A pass that failed without a write but the id of its conversation
  abbrev pub Fails : Work → Result PromptConfig × Work → Type 0
  Fails work r = (e : Error) × (w : Work) × (r ≡ (err e, w)) × IsUncounted work.dir w.dir

  -- A pass that was answered, and ended with its writes or in between
  abbrev pub Answers : PromptConfig → PassOutcome → Work → Result PromptConfig × Work → Type 0
  Answers config answer work r =
      (count : ℕ) × (w : Work) × IsWritten env name config answer count work.dir w.dir
      × (((r ≡ (ok config, w)) × (count ≡ 6))
          ⊎ ((e : Error) × (r ≡ (err e, w)) × (env.interruption ≡ some (count, e))))

  finish_pass-ends :
      (config : PromptConfig) (work : Work) (answer : PassOutcome) (dir : AgentDir)
      → IsUncounted work.dir dir
      → (recorded : Result (Unit {0}) × ImpactFiles)
      → Fails work (finish_pass env name config dir answer recorded)
        ⊎ Answers config answer work (finish_pass env name config dir answer recorded)
  unfolding finish_pass complete_pass
  finish_pass-ends config work answer dir same (err e, files) =
      inl (e, record { dir = dir; impact = files }, refl, same)
  finish_pass-ends config work answer dir same (ok u, files) = inr (
      go
        (write_until (completion_writes env name config answer (next_followup dir.followups))
          env.interruption dir)
        (write_until-Wrote env name config answer dir env.interruption refl))
    where
      go :
          (r : Result (Unit {0}) × AgentDir)
          → Wrote env name config answer dir r
          → Answers config answer work (ended_pass config files r)
      go (ended, after_all) (count, written, how) =
          let with_result = λ (q : Result (Unit {0})). ended_pass config files (q, after_all) in
          (
            count,
            record { dir = after_all; impact = files },
            IsUncounted-IsWritten env name config answer count work.dir dir after_all same written,
            elim how [
              | inl (fine, six) ↦ inl (ap with_result fine, six)
              | inr (x, raised, h) ↦ inr (x, ap with_result raised, h)
            ],
          )

  started-outcome :
      (config : PromptConfig) (work : Work)
      → Fails work (started env name work (ok config))
        ⊎ ((answer : PassOutcome) × (context : Option ImpactContext) × (ask env config work
              ≡ ok (answer, context))
            × Answers config answer work (started env name work (ok config)))
  unfolding started answered
  started-outcome config work = go (ask env config work) refl
    where
      go :
          (asked : Result (PassOutcome × Option ImpactContext))
          → ask env config work ≡ asked
          → Fails work (answered env name config work asked)
            ⊎ ((answer : PassOutcome) × (context : Option ImpactContext) × (ask env config work
                  ≡ ok (answer, context))
                × Answers config answer work (answered env name config work asked))
      go (err e) h = inl (e, work, refl, same-IsUncounted env name work.dir)
      go (ok (answer, context)) h =
          elim (finish_pass-ends config work answer
            (keep_conversation_id config answer.conversation_id work.dir)
            (keep_conversation_id-IsUncounted env name config answer.conversation_id work.dir)
            (unless_stopped env.early_interruption work.impact
              (record_impact env name (response_of answer) context work.impact))) [
                | inl failed ↦ inl failed
                | inr answers ↦ inr (answer, context, h, answers)
              ]

  -- A pass either fails, and then it has written nothing to the files of its agent but the id of the
  -- conversation; or its runner was asked under the prompt that the pass read, and answered. Then it
  -- makes six writes in turn: the last message and the report, with the response of the answer, the
  -- usage, with the tokens of the answer, the digest of the prompt, the move of the follow-up that it
  -- was given to the reports, and the run. It completes with all six of them, or an exception comes
  -- after some of them, and then the files have exactly these.
  pub run_one_pass-outcome :
      (work : Work)
      → Fails work (run_one_pass env name work)
        ⊎ ((config : PromptConfig) × (answer : PassOutcome) × (context : Option ImpactContext)
            × (read_agent ⦃host = env.host⦄ name env.pass_prompt ≡ ok config)
            × (ask env config work ≡ ok (answer, context))
            × Answers config answer work (run_one_pass env name work))
  unfolding run_one_pass started
  run_one_pass-outcome work =
      elim (Result-cases (read_agent ⦃host = env.host⦄ name env.pass_prompt)) [
        | inl (config, read) ↦
            let as_read = sym (ap (started env name work) read) in
            elim (started-outcome config work) [
              | inl failed ↦ inl (subst (Fails work) as_read failed)
              | inr (answer, context, asked, answers) ↦ inr (
                config,
                answer,
                context,
                read,
                asked,
                subst (Answers config answer work) as_read answers,
              )
            ]
        | inr (e, failed) ↦
            inl (e, work, ap (started env name work) failed, same-IsUncounted env name work.dir)
      ]
