-- ===== src/Team/Claude/Passes.antt =====
-- research_team/claude_code.py: the run of the command line whose answer a pass returns.
use discovery_net.Base.{
  Bool, true, false, not, ◌≡◌, sym, ◌∙◌, refl, subst, Option, none, some, List, eqb, eqb_iff,
  if◌then◌else◌,
}
use discovery_net.Base.Result.{
  ok, claude_code_error, require, after, require-eq-ok, ok-injective, ◌>>=◌,
}
use discovery_net.Base.Text.{Str}
use discovery_net.Team.Host.{Completed}
use discovery_net.Team.Prompt.{PromptConfig}
use discovery_net.Team.Claude.{
  CommandLine, PrintedObject, PassResult, build_command, parse_result, pass_result, read_completed,
  invoke_session, is_lost, start_again, run_pass, active_session,
}

-- The result is what a run of the command printed that exited with 0 and reported no error; the run
-- got `prompt` if it resumed a session and `fresh_prompt` if it started one.
pub record IsAnswered (line : CommandLine) (c : PromptConfig) (prompt fresh_prompt : Str)
    (result : PassResult) : Type 0 where
  pub binary : Str
  pub session : Str
  pub command : List Str
  pub completed : Completed
  pub printed : PrintedObject
  pub built : build_command ⦃line = line⦄ binary c session result.resumed ≡ ok command
  pub invoked :
      line.invoke command (if result.resumed then prompt else fresh_prompt) c.workspace
      ≡ ok completed
  pub exited : completed.returncode ≡ 0
  pub parsed : parse_result ⦃line = line⦄ completed.stdout ≡ ok printed
  pub succeeded : printed.is_error ≡ false
  pub returned : pass_result ⦃line = line⦄ session result.resumed printed ≡ ok result

module _ ⦃line : CommandLine⦄ where
  not-true : (b : Bool) → not b ≡ true → b ≡ false
  not-true true h = cc
  not-true false h = refl

  read_completed-IsAnswered :
      (c : PromptConfig) (prompt fresh_prompt binary session : Str) (resumed : Bool)
      (completed : Completed) (result : PassResult)
      → invoke_session binary c (if resumed then prompt else fresh_prompt) session resumed
        ≡ ok completed
      → read_completed session resumed completed ≡ ok result
      → IsAnswered line c prompt fresh_prompt result
  unfolding read_completed invoke_session
  read_completed-IsAnswered c prompt fresh_prompt binary session resumed completed result ran read =
      after (build_command binary c session resumed) ran λ command built invoked.
        after (require (eqb completed.returncode 0) claude_code_error) read λ _ exited h1.
          after (parse_result completed.stdout) h1 λ printed parsed h2.
            after (require (not printed.is_error) claude_code_error) h2 λ _ succeeded last.
              after printed.total_cost_usd last λ cost_usd _ made.
                subst (IsAnswered line c prompt fresh_prompt) (ok-injective made) (record {
                  binary = binary;
                  session = session;
                  command = command;
                  completed = completed;
                  printed = printed;
                  built = built;
                  invoked = invoked;
                  exited =
                      (eqb_iff completed.returncode 0).0
                        (require-eq-ok (eqb completed.returncode 0) claude_code_error exited);
                  parsed = parsed;
                  succeeded =
                      not-true printed.is_error
                        (require-eq-ok (not printed.is_error) claude_code_error succeeded);
                  returned = last ∙ sym made;
                })

  start_again-IsAnswered :
      (c : PromptConfig) (prompt fresh_prompt binary session : Str) (completed : Completed)
      (result : PassResult)
      → invoke_session binary c prompt session true ≡ ok completed
      → start_again binary c fresh_prompt session completed ≡ ok result
      → IsAnswered line c prompt fresh_prompt result
  unfolding start_again
  start_again-IsAnswered c prompt fresh_prompt binary session completed result ran h =
      go (is_lost completed) h
    where
      go :
          (lost : Bool)
          → (if lost
              then invoke_session binary c fresh_prompt line.second_id false
                >>= read_completed line.second_id false
              else read_completed session true completed)
            ≡ ok result
          → IsAnswered line c prompt fresh_prompt result
      go true k =
          after (invoke_session binary c fresh_prompt line.second_id false) k
            λ again ran_again read.
              read_completed-IsAnswered c prompt fresh_prompt binary line.second_id false again
                result ran_again read
      go false k =
          read_completed-IsAnswered c prompt fresh_prompt binary session true completed result ran k

  -- A pass that returns a result returns what one run of the command printed, which exited with 0
  -- and reported no error. That run was asked `prompt` if the result says that a session was resumed,
  -- and `fresh_prompt` otherwise, with the arguments that `build_command` gives.
  pub run_pass-IsAnswered :
      (c : PromptConfig) (prompt fresh_prompt : Str) (session_id : Option Str) (result : PassResult)
      → run_pass c prompt fresh_prompt session_id ≡ ok result
      → IsAnswered line c prompt fresh_prompt result
  unfolding run_pass
  run_pass-IsAnswered c prompt fresh_prompt none result h = after line.find_claude h λ binary _ h1.
      after (invoke_session binary c fresh_prompt line.first_id false) h1 λ completed ran read.
        read_completed-IsAnswered c prompt fresh_prompt binary line.first_id false completed result
          ran read
  run_pass-IsAnswered c prompt fresh_prompt (some session) result h =
      after line.find_claude h λ binary _ h1.
        after (invoke_session binary c prompt (active_session session) true) h1
          λ completed ran read.
            start_again-IsAnswered c prompt fresh_prompt binary (active_session session) completed
              result ran read
