-- ===== src/Tests/Agents.antt =====
-- An agent that passes, a command line that has lost a session, and the two assessments of a packet.
use discovery_net.Base.{
  ℕ, Option, ◌≤◌, true, false, ◌≡◌, ◌⊎◌, refl, sym, ap, ◌∙◌, none, some, List, [], ◌∷◌, ◌++◌,
  contains, distinct, length, arith, if◌then◌else◌,
}
use discovery_net.Base.Result.{Result, ok, worker_stopped, ok-injective}
use discovery_net.Base.Sorted
use discovery_net.Base.Text.{Str, text_eq, codes}
use discovery_net.Team.Host.{Completed}
use discovery_net.Team.Prompt.{PromptConfig}
use discovery_net.Team.Prompt.Supported
use discovery_net.Team.Prompt.Supported.{IsSupported}
use discovery_net.Team.Impact
use discovery_net.Team.Impact.{
  ImpactAssessment, ImpactBatch, ImpactContext, ImpactFiles, Run, Annotation, continuation,
  new_approach, routine, not_assessed, low, assessed_ids, run_ids, record_impact_batch,
  lookup_table, parse_impact_batch, pending_after, after_of, advanced,
}
use discovery_net.Team.Impact.Windows
use discovery_net.Team.Impact.Windows.{assessed}
use discovery_net.Team.Impact.Coverage
use discovery_net.Team.Impact.Coverage.{AreOf}
use discovery_net.Team.Claude
use discovery_net.Team.Claude.{CommandLine, PrintedObject, PassResult, run_pass}
use discovery_net.Team.Claude.Passes
use discovery_net.Team.Claude.Passes.{IsAnswered}
use discovery_net.Team.Work.Pass
use discovery_net.Team.Work.Pass.{
  PassEnv, PassOutcome, Work, ask, read_agent, run_one_pass, run_claude_code_pass,
}
use discovery_net.Team.Work.Pass.Outcome
use discovery_net.Team.Work.Pass.Outcome.{Fails, Answers}
use discovery_net.Team.Work.Pass.Lost
use discovery_net.Team.Worker.{worker_loop}
use discovery_net.Team.Worker.Limits
use discovery_net.Team.Worker.Limits.{passes, HasLimit, Completes}
use discovery_net.Team.Roster.Commands.{empty_dir}
use discovery_net.Tests.Teams.{
  small_host, prompt_code, researcher, researcher_text, parse_text-researcher,
}

parse_text-IsSupported_example :
    IsSupported small_host researcher × (researcher.text ≡ researcher_text)
parse_text-IsSupported_example =
    Supported.parse_text-IsSupported researcher_text researcher parse_text-researcher

abbrev answer : PrintedObject
answer = record {
  type = some (codes "result");
  is_error = false;
  result = some (codes "Done.");
  session_id = some (codes "s2");
  input_tokens = some 5;
  cache_read_input_tokens = none;
  cache_creation_input_tokens = none;
  output_tokens = some 7;
  total_cost_usd = ok 0;
  num_turns = some 1;
}

-- It resumes no session, and answers in a new one.
instance abbrev forgetful : CommandLine
forgetful = record {
  find_claude = ok (codes "claude");
  first_id = codes "s1";
  second_id = codes "s2";
  invoke = λ command prompt workspace.
      if contains (codes "--resume") command
      then ok (record {
        returncode = 1;
        stdout = [];
        stderr = codes "No conversation found with this session ID";
      })
      else ok (record { returncode = 0; stdout = codes "{}"; stderr = [] });
  loads = λ text. some answer;
  format_g = λ bits. [];
}

unfoldable claude_code : ℕ
unfolding prompt_code Claude.permission_arguments Claude.build_command Claude.read_line
    Claude.first_result Claude.parse_result Claude.looks_like_lost_session Claude.read_completed
    Claude.invoke_session Claude.is_lost Claude.start_again Claude.run_pass
claude_code = 0

abbrev resumed_prompt : Str
resumed_prompt = codes "Go on, and look at lemma 2."

abbrev answered_pass : PassResult
answered_pass = record {
  response = codes "Done.";
  session_id = codes "s2";
  input_tokens = 5;
  cached_input_tokens = 0;
  cache_creation_input_tokens = 0;
  output_tokens = 7;
  cost_usd = 0;
  num_turns = 1;
  resumed = false;
}

run_pass-answered :
    run_pass researcher resumed_prompt researcher_text (some (codes "s0")) ≡ ok answered_pass
unfolding claude_code
run_pass-answered = refl

run_pass-IsAnswered_example :
    IsAnswered forgetful researcher resumed_prompt researcher_text answered_pass
run_pass-IsAnswered_example =
    Passes.run_pass-IsAnswered researcher resumed_prompt researcher_text (some (codes "s0"))
      answered_pass run_pass-answered

abbrev failure : Completed
failure = record {
  returncode = 1;
  stdout = [];
  stderr = codes "No conversation found with this session ID";
}

first-IsLost : Lost.IsLost researcher (codes "s0") resumed_prompt
unfolding claude_code
first-IsLost = record {
  binary = codes "claude";
  completed = failure;
  found = refl;
  ran = refl;
  lost = refl;
}

second-IsLost : Lost.IsLost researcher (codes "s0") (codes "Go on.")
unfolding claude_code
second-IsLost = record {
  binary = codes "claude";
  completed = failure;
  found = refl;
  ran = refl;
  lost = refl;
}

lost-same_example :
    run_claude_code_pass researcher resumed_prompt (some (codes "s0"))
    ≡ run_claude_code_pass researcher (codes "Go on.") (some (codes "s0"))
lost-same_example =
    Lost.lost-same researcher (codes "s0") resumed_prompt (codes "Go on.") refl first-IsLost
      second-IsLost

-- A pass of an agent with one queued follow-up
abbrev env : PassEnv
env = record {
  host = small_host;
  line = forgetful;
  codex = λ config prompt id. ok (record {
    response = codes "A lemma.";
    conversation_id = some (codes "t1");
    input_tokens = 3;
    cached_input_tokens = 0;
    output_tokens = 4;
    cost_usd = none;
  });
  digest = λ text. codes "d";
  impact_json = λ text. none;
  impact_prompt = λ context. [];
  impact_runs = ok (0, []);
  now = 0;
  prompt = some researcher_text;
  pass_prompt = some researcher_text;
  pass_started_at = codes "t0";
  started_at = codes "t1";
  finished_at = codes "t2";
  run_timestamp = codes "t3";
  early_interruption = none;
  interruption = none;
}

abbrev idle_work : Work
idle_work = record {
  dir = record empty_dir { followups = (codes "followup.1.md", codes "Look at lemma 2.") ∷ [] };
  impact = record { annotations = []; cursor = none };
}

abbrev alice : Str
alice = codes "alice"

-- A stop that comes when the usage is on file, and before the digest is
abbrev stopped_env : PassEnv
stopped_env = record env { interruption = some (3, worker_stopped) }

run_one_pass-outcome_example :
    Fails stopped_env alice idle_work (run_one_pass stopped_env alice idle_work)
    ⊎ ((config : PromptConfig) × (answer : PassOutcome) × (context : Option ImpactContext)
        × (read_agent alice (some researcher_text) ≡ ok config)
        × (ask stopped_env config idle_work ≡ ok (answer, context))
        × Answers stopped_env alice config answer idle_work
            (run_one_pass stopped_env alice idle_work))
run_one_pass-outcome_example = Outcome.run_one_pass-outcome stopped_env alice idle_work

read_agent-alice : read_agent alice (some researcher_text) ≡ ok researcher
unfolding prompt_code Pass.read_agent
read_agent-alice = refl

env-HasLimit : HasLimit alice 1 env
env-HasLimit config read = ap (λ c. c.max_passes) (sym (ok-injective (sym read_agent-alice ∙ read)))

-- The outcome of the pass does not depend on the files of the agent.
started-completes :
    (work : Work)
    → Pass.started env alice work (ok researcher)
      ≡ (ok researcher, (Pass.started env alice work (ok researcher)).1)
unfolding Pass.started Pass.ask Pass.answered Pass.run_runner Pass.impact_context_of
    Pass.finish_pass Pass.record_impact Pass.complete_pass Pass.completion_writes Pass.write_until
    Pass.move_followup
started-completes work = refl

env-Completes : Completes alice env
unfolding Pass.run_one_pass
env-Completes work = (
  researcher,
  (Pass.started env alice work (ok researcher)).1,
  ap (Pass.started env alice work) read_agent-alice ∙ started-completes work,
)

worker_loop-passes_example : passes (worker_loop (env ∷ env ∷ []) alice idle_work).1 ≤ 1
worker_loop-passes_example =
    Limits.worker_loop-passes (env ∷ env ∷ []) alice idle_work 1 (env-HasLimit, (env-HasLimit, tt))
      (omega arith)

worker_loop-ends_example :
    (r : Result (Unit {0})) × (last : Work) × (worker_loop (env ∷ env ∷ []) alice idle_work
      ≡ (some r, last))
    × (passes last ≤ 1)
worker_loop-ends_example =
    Limits.worker_loop-ends (env ∷ env ∷ []) alice idle_work 1 (env-HasLimit, (env-HasLimit, tt))
      (env-Completes, (env-Completes, tt)) (omega arith) (omega arith)

-- Two runs that wait for an assessment
abbrev run_at : ℕ → (id at : Str) → Run
run_at n id at = record {
  run_id = id;
  agent = alice;
  started_at = codes "t0";
  finished_at = at;
  finished = n;
}

abbrev two_runs : List Run
two_runs = run_at 9 (codes "b") (codes "t9") ∷ run_at 8 (codes "a") (codes "t8") ∷ []

unfoldable impact_code : ℕ
unfolding prompt_code Sorted.text_lt Sorted.insert_sorted Sorted.sorted Impact.are_items
    Impact.is_assessment Impact.validate_batch Impact.unfenced Impact.same_set
    Impact.require_coverage Impact.parse_impact_batch Impact.lookup_table Impact.run_lt
    Impact.pending_after Impact.after_of Impact.build_impact_context
impact_code = 0

two_runs-IsIncreasing : Windows.IsIncreasing (pending_after (after_of 10 none) two_runs)
unfolding impact_code
two_runs-IsIncreasing = ((omega arith, tt), (tt, tt))

two_runs-fit : length (pending_after (after_of 10 none) two_runs) ≤ 12
unfolding impact_code
two_runs-fit = omega arith

assessed-pending_example :
    assessed (codes "judge") (codes "t10") 4 10 1 none two_runs
    ≡ pending_after (after_of 10 none) two_runs
assessed-pending_example =
    Windows.assessed-pending (codes "judge") (codes "t10") 4 10 1 none two_runs
      two_runs-IsIncreasing two_runs-fit

abbrev routine_work : Str → ImpactAssessment
routine_work id = record {
  run_id = id;
  lane_title = codes "lemmas";
  change_type = continuation;
  impact = routine;
  novelty = not_assessed;
  paper_potential = low;
  confidence = low;
  summary = codes "More of the same.";
  rationale = codes "No new claim.";
  evidence = codes "report" ∷ [];
  caveats = [];
}

abbrev batch : ImpactBatch
batch = record {
  portfolio_summary = codes "Two runs.";
  assessments = routine_work (codes "a") ∷ routine_work (codes "b") ∷ [];
}

abbrev packet : ImpactContext
packet = record { runs = two_runs; indexed_height = 4 }

abbrev no_files : ImpactFiles
no_files = record { annotations = []; cursor = none }

parse-batch :
    parse_impact_batch (λ text. some batch) (codes "```json\n{}\n```") (run_ids two_runs) ≡ ok batch
unfolding impact_code
parse-batch = refl

record_impact_batch-AreOf_example :
    (distinct (assessed_ids batch.assessments) ≡ true)
    × ((id : Str) → contains id (assessed_ids batch.assessments) ≡ contains id (run_ids two_runs))
    × ((added : List Annotation) × (record_impact_batch
            (codes "judge")
            (codes "t10")
            packet
            batch
            no_files
          ≡ (
            ok tt,
            record {
              annotations = [] ++ added;
              cursor = advanced (codes "judge") (codes "t10") packet none;
            },
          ))
        × AreOf (lookup_table [] two_runs) batch.assessments added)
record_impact_batch-AreOf_example =
    Coverage.record_impact_batch-AreOf (λ text. some batch) (codes "```json\n{}\n```")
      (codes "judge") (codes "t10") packet batch no_files parse-batch
