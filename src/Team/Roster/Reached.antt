-- ===== src/Team/Roster/Reached.antt =====
-- research_team/controller.py: the teams that commands reach, from a team without an agent.
use discovery_net.Base.{
  ℕ, true, ◌≡◌, Option, none, some, [], arith, Bool-cases, inl, inr, ltb, eqb, not,
}
use discovery_net.Base.Dict.{Dict, has_key, has_key_of_lookup}
use discovery_net.Base.Parse.{pos}
use discovery_net.Base.Result.{ok, controller_error, require, after, ◌>>=◌, ◌>>◌}
use discovery_net.Base.Text.{Str, text_eq}
use discovery_net.Team.Host.{Host}
use discovery_net.Team.Prompt.{parse_prompt}
use discovery_net.Team.Prompt.Fields.{validate_name}
use discovery_net.Team.Prompt.Repository.{verify_github_repository}
use discovery_net.Team.Roster.{
  Team, require_agent, admit_replacement, ensure_workspace_is_exclusive,
}
use discovery_net.Team.Roster.Commands.{
  Machine, spawn_worker, stop_worker, new_agent, start_agent, continue_agent, stop_agent,
  retarget_agent, retire_agent,
}
use discovery_net.Team.Roster.Exclusive.{IsExclusive, insert-IsExclusive, without-IsExclusive}
use discovery_net.Team.Roster.Exclusive.Steps.{
  IsOrderly, attempt-keeps, IsOrderly-KeepsRoster, spawn_worker-KeepsRoster,
  stop_worker-KeepsRoster, parse_prompt-text, length-insert_old, length-without,
  new_agent-IsOrderly,
}

-- A command of the operator, whether it succeeds or raises, on whatever machine it meets.
pub data Command (host : Host) : Team → Team → Type 0 where
  new :
      (machine : Machine) (name : Str) (source : Option Str) (team : Team)
      → Command host team (new_agent ⦃host = host⦄ ⦃machine = machine⦄ name source team).1
  start :
      (machine : Machine) (name : Str) (team : Team)
      → Command host team (start_agent ⦃host = host⦄ ⦃machine = machine⦄ name team).1
  continue :
      (machine : Machine) (name : Str) (note : Option Str) (size : ℕ) (team : Team)
      → Command host team (continue_agent ⦃host = host⦄ ⦃machine = machine⦄ name note size team).1
  stop :
      (machine : Machine) (name : Str) (team : Team)
      → Command host team (stop_agent ⦃host = host⦄ ⦃machine = machine⦄ name team).1
  retarget :
      (name : Str) (source : Option Str) (machine : Machine) (team : Team)
      → Command host team (retarget_agent ⦃host = host⦄ ⦃machine = machine⦄ name source team).1
  retire :
      (machine : Machine) (name : Str) (team : Team)
      → Command host team (retire_agent ⦃host = host⦄ ⦃machine = machine⦄ name team).1

pub data IsReached (host : Host) (first : Team) : Team → Type 0 where
  at_first : IsReached host first first
  by :
      {team next : Team}
      → IsReached host first team
      → Command host team next
      → IsReached host first next

module _ ⦃host : Host⦄ ⦃machine : Machine⦄ (cap : ℕ) where
  start_agent-IsOrderly :
      (name : Str) (team : Team)
      → IsOrderly host cap team
      → IsOrderly host cap (start_agent name team).1
  unfolding start_agent
  start_agent-IsOrderly name team h =
      let keep = IsOrderly host cap in
      let orderly =
        IsOrderly-KeepsRoster cap team (spawn_worker name team).1
          (spawn_worker-KeepsRoster name team) h in
      attempt-keeps keep (require_agent name team.prompts >>= λ text. parse_prompt (some text)) team
        _ h
        λ config _.
          attempt-keeps keep (verify_github_repository config.github_repository) team _ h λ _ _.
            attempt-keeps keep (spawn_worker name team).0 (spawn_worker name team).1 _ orderly
              λ _ _. record {
                exclusive = orderly.exclusive;
                configured = orderly.configured;
                capped = orderly.capped;
              }

  continue_agent-IsOrderly :
      (name : Str) (note : Option Str) (size : ℕ) (team : Team)
      → IsOrderly host cap team
      → IsOrderly host cap (continue_agent name note size team).1
  unfolding continue_agent
  continue_agent-IsOrderly name none size team h =
      attempt-keeps (IsOrderly host cap) (require_agent name team.prompts) team _ h λ _ _. h
  continue_agent-IsOrderly name (some text) size team h =
      attempt-keeps (IsOrderly host cap) (require_agent name team.prompts) team _ h λ _ _.
        attempt-keeps (IsOrderly host cap)
          (require (not (eqb size 0)) controller_error
            >> require (not (ltb 65536 size)) controller_error)
          team _ h
          λ _ _. record { exclusive = h.exclusive; configured = h.configured; capped = h.capped }

  stop_agent-IsOrderly :
      (name : Str) (team : Team)
      → IsOrderly host cap team
      → IsOrderly host cap (stop_agent name team).1
  unfolding stop_agent
  stop_agent-IsOrderly name team h =
      let left =
        IsOrderly-KeepsRoster cap team (stop_worker name team).1 (stop_worker-KeepsRoster name team)
          h in
      attempt-keeps (IsOrderly host cap) (require_agent name team.prompts) team _ h λ _ _.
        elim (Bool-cases (stop_worker name team).0) [
          | inl halted ↦ rw halted (record {
            exclusive = left.exclusive;
            configured = left.configured;
            capped = left.capped;
          })
          | inr idle ↦ rw idle left
        ]

  require_agent-has_key :
      (name text : Str) (prompts : Dict Str Str)
      → require_agent name prompts ≡ ok text
      → has_key name prompts ≡ true
  unfolding require_agent
  require_agent-has_key name text prompts h =
      after (validate_name name) h λ _ _ found. has_key_of_lookup name text prompts (ground arith)

  retarget_agent-IsOrderly :
      (name : Str) (source : Option Str) (team : Team)
      → IsOrderly host cap team
      → IsOrderly host cap (retarget_agent name source team).1
  unfolding retarget_agent admit_replacement
  retarget_agent-IsOrderly name source team h =
      let keep = IsOrderly host cap in
      attempt-keeps keep (require_agent name team.prompts) team _ h λ current found.
        attempt-keeps keep (parse_prompt source) team _ h λ config read.
          attempt-keeps keep (verify_github_repository config.github_repository) team _ h λ _ _.
            attempt-keeps keep (admit_replacement name config team) team _ h λ _ admitted.
              after (ensure_workspace_is_exclusive name config.workspace team.prompts) admitted
                λ _ free unique. record {
                  exclusive =
                      insert-IsExclusive name config team.prompts
                        (parse_prompt-text source config read) free unique h.exclusive;
                  configured = h.configured;
                  capped = omega (
                    arith,
                    h.capped,
                    length-insert_old name config.text team.prompts
                        (require_agent-has_key name current team.prompts found),
                  );
                }

  retire_agent-IsOrderly :
      (name : Str) (team : Team)
      → IsOrderly host cap team
      → IsOrderly host cap (retire_agent name team).1
  unfolding retire_agent
  retire_agent-IsOrderly name team h =
      let left =
        IsOrderly-KeepsRoster cap team (stop_worker name team).1 (stop_worker-KeepsRoster name team)
          h in
      attempt-keeps (IsOrderly host cap) (require_agent name team.prompts) team _ h λ _ _. record {
        exclusive = without-IsExclusive name (stop_worker name team).1.prompts left.exclusive;
        configured = left.configured;
        capped = omega (arith, left.capped, length-without name (stop_worker name team).1.prompts);
      }

Command-IsOrderly :
    (host : Host) (cap : ℕ) (team next : Team)
    → Command host team next
    → IsOrderly host cap team
    → IsOrderly host cap next
Command-IsOrderly host cap _ _ (new machine name source team) h =
    new_agent-IsOrderly ⦃host = host⦄ ⦃machine = machine⦄ cap name source team h
Command-IsOrderly host cap _ _ (start machine name team) h =
    start_agent-IsOrderly ⦃host = host⦄ ⦃machine = machine⦄ cap name team h
Command-IsOrderly host cap _ _ (continue machine name note size team) h =
    continue_agent-IsOrderly ⦃host = host⦄ ⦃machine = machine⦄ cap name note size team h
Command-IsOrderly host cap _ _ (stop machine name team) h =
    stop_agent-IsOrderly ⦃host = host⦄ ⦃machine = machine⦄ cap name team h
Command-IsOrderly host cap _ _ (retarget name source machine team) h =
    retarget_agent-IsOrderly ⦃host = host⦄ ⦃machine = machine⦄ cap name source team h
Command-IsOrderly host cap _ _ (retire machine name team) h =
    retire_agent-IsOrderly ⦃host = host⦄ ⦃machine = machine⦄ cap name team h

-- From a team without an agent and with a configured cap, whatever commands are given, and whether
-- they succeed or raise on the way, any two agents whose prompts can be read have different
-- workspaces, at most one agent is an impact assessor, and there are no more agents than the cap.
pub reached-IsOrderly :
    (host : Host) (cap : ℕ) (first team : Team)
    → first.prompts ≡ []
    → first.agent_cap ≡ ok (pos cap)
    → IsReached host first team
    → IsOrderly host cap team
unfolding IsExclusive
reached-IsOrderly host cap first team empty configured at_first = record {
  exclusive = λ n m t u c d other found. ground (arith, found, empty);
  configured = configured;
  capped = ground (arith, empty);
}
reached-IsOrderly host cap first next empty configured (by {team = team} before command) =
    Command-IsOrderly host cap team next command
      (reached-IsOrderly host cap first team empty configured before)
