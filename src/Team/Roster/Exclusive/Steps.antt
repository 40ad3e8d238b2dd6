-- ===== src/Team/Roster/Exclusive/Steps.antt =====
-- research_team/controller.py: the commands, in any order, keep the agents of a team apart and few.
use discovery_net.Base.{
  ℕ, suc, ◌≤◌, Bool, true, false, not, ◌≡◌, refl, sym, ap, ◌∙◌, subst, Option, none, some, [], ◌∷◌,
  ◌==◌, length, arith, Bool-cases, inl, inr, is_some,
}
use discovery_net.Base.Dict.{Dict, keys, has_key, insert}
use discovery_net.Base.Parse.{pos}
use discovery_net.Base.Result.{
  Result, ok, err, controller_error, require, require-eq-ok, after, ok-injective, ◌>>=◌, ◌>>◌,
}
use discovery_net.Base.Sorted.{text_lt, length-sorted}
use discovery_net.Base.Text.{Str, text_eq, codes}
use discovery_net.Team.Host.{Host}
use discovery_net.Team.Prompt.{PromptConfig, parse_text, parse_prompt}
use discovery_net.Team.Prompt.Fields.{validate_name}
use discovery_net.Team.Prompt.Supported.{parse_text-IsSupported}
use discovery_net.Team.Prompt.Repository.{verify_github_repository}
use discovery_net.Team.Work.{without}
use discovery_net.Team.Roster.{
  Team, agent_names, require_agent, admit, is_full, ensure_workspace_is_exclusive,
}
use discovery_net.Team.Roster.Commands.{
  Machine, Outcome, attempt, update_dir, running_runtime, launch, spawn_worker, stop_running,
  stop_worker, generate_key, create, new_agent,
}
use discovery_net.Team.Roster.Exclusive.{IsExclusive, insert-IsExclusive}

-- The agents are apart, and no more than the configured cap.
pub record IsOrderly (host : Host) (cap : ℕ) (team : Team) : Type 0 where
  pub exclusive : IsExclusive ⦃host = host⦄ team.prompts
  pub configured : team.agent_cap ≡ ok (pos cap)
  pub capped : length team.prompts ≤ cap

-- The prompts and the cap are as before.
pub record KeepsRoster (team team' : Team) : Type 0 where
  pub prompts : team'.prompts ≡ team.prompts
  pub agent_cap : team'.agent_cap ≡ team.agent_cap

pub attempt-keeps :
    {A B : Type 0} (P : Team → Type 0) (r : Result A) (team : Team) (next : A → Outcome B)
    → P team
    → ((a : A) → r ≡ ok a → P (next a).1)
    → P (attempt r team next).1
attempt-keeps P (err e) team next h k = h
attempt-keeps P (ok a) team next h k = k a refl

module _ ⦃host : Host⦄ ⦃machine : Machine⦄ where
  pub IsOrderly-KeepsRoster :
      (cap : ℕ) (team team' : Team)
      → KeepsRoster team team'
      → IsOrderly host cap team
      → IsOrderly host cap team'
  IsOrderly-KeepsRoster cap team team' same h = record {
    exclusive = subst IsExclusive (sym same.prompts) h.exclusive;
    configured = same.agent_cap ∙ h.configured;
    capped = subst (λ p. length p ≤ cap) (sym same.prompts) h.capped;
  }

  running_runtime-KeepsRoster :
      (name : Str) (team : Team) → KeepsRoster team (running_runtime name team).1
  unfolding running_runtime
  running_runtime-KeepsRoster name team = record {
    prompts = ground arith;
    agent_cap = ground arith;
  }

  launch-KeepsRoster : (name : Str) (team : Team) → KeepsRoster team (launch name team).1
  unfolding launch
  launch-KeepsRoster name team = elim (Bool-cases machine.testing) [
    | inl test ↦ rw test (record { prompts = refl; agent_cap = refl })
    | inr real ↦
        let registered : ℕ → Team = λ pid. record team { runtime = insert name pid team.runtime } in
        rw real (
          attempt-keeps (KeepsRoster team)
            (require_agent name team.prompts >>= λ text.
              parse_prompt (some text) >>= machine.preflight)
            team _ (record { prompts = refl; agent_cap = refl })
            (λ _ _.
              attempt-keeps (KeepsRoster team) (machine.popen name) team _
                (record { prompts = refl; agent_cap = refl })
                (λ pid _.
                  attempt-keeps (KeepsRoster team)
                    (require (machine.survives name) controller_error) (registered pid) _
                    (record { prompts = refl; agent_cap = refl })
                    (λ _ _. record { prompts = refl; agent_cap = refl }))))
  ]

  pub spawn_worker-KeepsRoster :
      (name : Str) (team : Team) → KeepsRoster team (spawn_worker name team).1
  unfolding spawn_worker
  spawn_worker-KeepsRoster name team =
      let checked = running_runtime-KeepsRoster name team in
      attempt-keeps (KeepsRoster team)
        (require (not (is_some (running_runtime name team).0)) controller_error)
        (running_runtime name team).1 _ checked
        (λ _ _.
          let launched = launch-KeepsRoster name _ in
          record {
            prompts = launched.prompts ∙ checked.prompts;
            agent_cap = launched.agent_cap ∙ checked.agent_cap;
          })

  stop_running-KeepsRoster :
      (name : Str) (running : Option ℕ) (team : Team)
      → KeepsRoster team (stop_running name running team).1
  unfolding stop_running
  stop_running-KeepsRoster name none team = record { prompts = refl; agent_cap = refl }
  stop_running-KeepsRoster name (some pid) team = record {
    prompts = ground arith;
    agent_cap = ground arith;
  }

  pub stop_worker-KeepsRoster :
      (name : Str) (team : Team) → KeepsRoster team (stop_worker name team).1
  unfolding stop_worker
  stop_worker-KeepsRoster name team =
      let checked = running_runtime-KeepsRoster name team in
      let halted = stop_running-KeepsRoster name (running_runtime name team).0 _ in
      record {
        prompts = halted.prompts ∙ checked.prompts;
        agent_cap = halted.agent_cap ∙ checked.agent_cap;
      }

  generate_key-KeepsRoster :
      (name : Str) (team : Team) → KeepsRoster team (generate_key name team).1
  unfolding generate_key
  generate_key-KeepsRoster name team = elim (Bool-cases (has_key name team.keys)) [
    | inl old ↦ rw old (record { prompts = refl; agent_cap = refl })
    | inr new ↦ rw new (
        attempt-keeps (KeepsRoster team) machine.new_key team _
          (record { prompts = refl; agent_cap = refl })
          (λ key _. record { prompts = refl; agent_cap = refl }))
  ]

  -- The team with a prompt on file
  put : (name text : Str) → Team → Team
  put name text team = record team { prompts = insert name text team.prompts }

  create-KeepsRoster :
      (name : Str) (config : PromptConfig) (team : Team)
      → KeepsRoster (put name config.text team) (create name config team).1
  unfolding create put
  create-KeepsRoster name config team =
      let written = update_dir name (λ dir. dir) (put name config.text team) in
      let keyed = generate_key-KeepsRoster name written in
      attempt-keeps (KeepsRoster (put name config.text team)) (generate_key name written).0
        (generate_key name written).1 _
        (record { prompts = keyed.prompts; agent_cap = keyed.agent_cap })
        (λ _ _. record { prompts = keyed.prompts; agent_cap = keyed.agent_cap })

  length-insert_new :
      (name text : Str) (prompts : Dict Str Str)
      → has_key name prompts ≡ false
      → length (insert name text prompts) ≡ suc (length prompts)
  length-insert_new name text [] h = refl
  length-insert_new name text ((j, t) ∷ prompts) h =
      ground (arith, length-insert_new name text prompts)

  pub length-insert_old :
      (name text : Str) (prompts : Dict Str Str)
      → has_key name prompts ≡ true
      → length (insert name text prompts) ≡ length prompts
  length-insert_old name text [] h = cc
  length-insert_old name text ((j, t) ∷ prompts) h =
      ground (arith, length-insert_old name text prompts)

  pub length-without :
      (name : Str) (prompts : Dict Str Str) → length (without name prompts) ≤ length prompts
  length-without name [] = omega arith
  length-without name ((j, t) ∷ prompts) = ground (arith, length-without name prompts)

  length-keys : (prompts : Dict Str Str) → length (keys prompts) ≡ length prompts
  length-keys [] = refl
  length-keys ((k, t) ∷ prompts) = ap suc (length-keys prompts)

  pub parse_prompt-text :
      (source : Option Str) (config : PromptConfig)
      → parse_prompt source ≡ ok config
      → parse_text config.text ≡ ok config
  unfolding parse_prompt
  parse_prompt-text none config h = cc
  parse_prompt-text (some text) config h =
      subst (λ t. parse_text t ≡ ok config) (sym (parse_text-IsSupported text config h).1) h

  below_cap : (count cap : ℕ) → not (is_full count (pos cap)) ≡ true → suc count ≤ cap
  unfolding is_full
  below_cap count cap h = ground arith

  not-eq-true : (b : Bool) → not b ≡ true → b ≡ false
  not-eq-true true h = cc
  not-eq-true false h = refl

  admitted-IsOrderly :
      (cap : ℕ) (name : Str) (config : PromptConfig) (team : Team) {u : Unit {0}}
      → parse_text config.text ≡ ok config
      → admit name config team ≡ ok u
      → IsOrderly host cap team
      → IsOrderly host cap (put name config.text team)
  unfolding admit put agent_names
  admitted-IsOrderly cap name config team read admitted h =
      after (require (not (has_key name team.prompts)) controller_error) admitted λ _ fresh h1.
        after team.agent_cap h1 λ limit known h2.
          after (require (not (is_full (length (agent_names team.prompts)) limit)) controller_error)
            h2
            λ _ room h3.
              after (ensure_workspace_is_exclusive name config.workspace team.prompts) h3
                λ _ free unique.
                  let same_cap : limit ≡ pos cap = ok-injective (sym known ∙ h.configured) in
                  let absent =
                    not-eq-true (has_key name team.prompts)
                      (require-eq-ok (not (has_key name team.prompts)) controller_error fresh) in
                  let less = below_cap (length (agent_names team.prompts)) cap (
                    subst (λ l. not (is_full (length (agent_names team.prompts)) l) ≡ true) same_cap
                      (require-eq-ok (not (is_full (length (agent_names team.prompts)) limit))
                        controller_error room)) in
                  record {
                    exclusive =
                        insert-IsExclusive name config team.prompts read free unique h.exclusive;
                    configured = h.configured;
                    capped = omega (
                      arith,
                      length-insert_new name config.text team.prompts absent,
                      less,
                      length-sorted text_lt (keys team.prompts),
                      length-keys team.prompts,
                    );
                  }

  pub new_agent-IsOrderly :
      (cap : ℕ) (name : Str) (source : Option Str) (team : Team)
      → IsOrderly host cap team
      → IsOrderly host cap (new_agent name source team).1
  unfolding new_agent
  new_agent-IsOrderly cap name source team h =
      let keep = IsOrderly host cap in
      attempt-keeps keep (validate_name name >> parse_prompt source) team _ h λ config read.
        attempt-keeps keep (verify_github_repository config.github_repository) team _ h λ _ _.
          attempt-keeps keep (admit name config team) team _ h λ _ admitted.
            let built = (create name config team).1 in
            let orderly =
              IsOrderly-KeepsRoster cap (put name config.text team) built
                (create-KeepsRoster name config team)
                (admitted-IsOrderly cap name config team
                  (after (validate_name name) read
                    λ _ _ parsed. parse_prompt-text source config parsed)
                  admitted h) in
            attempt-keeps keep (create name config team).0 built _ orderly (λ _ _.
              elim (Bool-cases (config.mode == codes "continuous")) [
                | inl again ↦ rw again (
                    IsOrderly-KeepsRoster cap built (spawn_worker name built).1
                      (spawn_worker-KeepsRoster name built) orderly)
                | inr once ↦ rw once orderly
              ])
