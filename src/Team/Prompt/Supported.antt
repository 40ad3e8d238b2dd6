-- ===== src/Team/Prompt/Supported.antt =====
-- research_team/controller.py: what holds of every prompt that `parse_prompt` accepts.
use discovery_net.Base.{
  ℕ, ◌≤◌, true, not, ◌||◌, Option, none, some, List, [], ◌≡◌, ◌≢◌, ◌∙◌, refl, ap, subst, ◌==◌,
  ==_iff, contains, arith, is_some,
}
use discovery_net.Base.Dict.{Dict, lookup}
use discovery_net.Base.Parse.{ℤ, pos, negsuc, split_lines, join, parse_int}
use discovery_net.Base.Result.{
  ok, after, require-eq-ok, ok-injective, require, controller_error, ◌>>◌,
}
use discovery_net.Base.Text.{Str, text_eq, codes, is_blank}
use discovery_net.Team.Host.{Host}
use discovery_net.Team.Prompt.{
  PromptConfig, RunnerOptions, runner_options_of, consent_of, workspace_of, schedule_of,
  require_network, require_keys, require_choice, repository_of, ledger_path_of, limits_of,
  limit_item, parse_metadata, parse_text, read_metadata, require_runner_options, choice, choice_of,
  item, item_or, absolute_path, optional_path, is_assessor, is_ledger, roles, modes, runners, tiers,
  efforts, claude_efforts, codex_efforts, claude_web_search_modes, permission_modes,
  web_search_modes,
}
use discovery_net.Team.Prompt.Fields.{
  limit_of, parse_limit, parse_bool, parse_dollars, require_restart, parse_restart_seconds,
}

pub record SupportsRunner (runner effort tier web_search : Str) (max_pass_usd : Option ℕ)
    : Type 0 where
  pub claude_effort : runner ≡ codes "claude-code" → contains effort claude_efforts ≡ true
  pub claude_tier : runner ≡ codes "claude-code" → tier ≡ codes "default"
  pub claude_search :
      runner ≡ codes "claude-code" → contains web_search claude_web_search_modes ≡ true
  pub codex_effort : runner ≡ codes "codex" → contains effort codex_efforts ≡ true
  pub codex_dollars : runner ≡ codes "codex" → max_pass_usd ≡ none

pub record IsDelay (mode : Str) (seconds : ℤ) : Type 0 where
  pub continuous : mode ≡ codes "continuous" → (n : ℕ) × (seconds ≡ pos n) × (60 ≤ n)
  pub oneshot : mode ≡ codes "oneshot" → seconds ≡ pos 0

pub record IsSupported (host : Host) (c : PromptConfig) : Type 0 where
  pub role : contains c.role roles ≡ true
  pub mode : contains c.mode modes ≡ true
  pub runner : contains c.runner runners ≡ true
  pub tier : contains c.tier tiers ≡ true
  pub permissions : contains c.permissions permission_modes ≡ true
  pub web_search : contains c.web_search web_search_modes ≡ true
  pub options : SupportsRunner c.runner c.effort c.tier c.web_search c.max_pass_usd
  pub delay : IsDelay c.mode c.restart_seconds
  pub workspace : host.is_dir c.workspace ≡ true
  pub network : c.network_access ≡ true
  pub ledger :
      c.role ≡ codes "impact-assessor"
      → (path : Str) × (c.ledger_path ≡ some path) × (host.is_file path ≡ true)
  pub max_passes : c.max_passes ≢ some 0
  pub max_total_tokens : c.max_total_tokens ≢ some 0

choice_of-eq-ok :
    (supported : List Str) (value a : Str)
    → choice_of supported value ≡ ok a
    → contains a supported ≡ true
unfolding choice_of require_choice
choice_of-eq-ok supported value a h =
    after (require (contains value supported) controller_error) h λ _ tested same.
      subst (λ v. contains v supported ≡ true) (ok-injective same)
        (require-eq-ok (contains value supported) controller_error tested)

choice-eq-ok :
    (key : Str) (supported : List Str) (metadata : Dict Str Str) (a : Str)
    → choice key supported metadata ≡ ok a
    → contains a supported ≡ true
unfolding choice
choice-eq-ok key supported metadata a h =
    after (item key metadata) h λ value _ chosen. choice_of-eq-ok supported value a chosen

claude_options :
    (effort tier web_search : Str) (max_pass_usd : Option ℕ) {u : Unit {0}}
    → require_runner_options (codes "claude-code") effort tier web_search max_pass_usd ≡ ok u
    → (contains effort claude_efforts ≡ true)
      × (tier ≡ codes "default")
      × (contains web_search claude_web_search_modes ≡ true)
unfolding require_runner_options
claude_options effort tier web_search max_pass_usd h =
    after
      (require (contains effort claude_efforts) controller_error
        >> require (tier == codes "default") controller_error)
      h
      λ _ known_effort h1.
        after (require (contains effort claude_efforts) controller_error) known_effort
          λ _ known plain. (
            require-eq-ok (contains effort claude_efforts) controller_error known,
            (==_iff tier (codes "default")).0
                (require-eq-ok (tier == codes "default") controller_error plain),
            require-eq-ok (contains web_search claude_web_search_modes) controller_error h1,
          )

codex_options :
    (effort tier web_search : Str) (max_pass_usd : Option ℕ) {u : Unit {0}}
    → require_runner_options (codes "codex") effort tier web_search max_pass_usd ≡ ok u
    → (contains effort codex_efforts ≡ true) × (max_pass_usd ≡ none)
unfolding require_runner_options
codex_options effort tier web_search max_pass_usd h =
    after (require (contains effort codex_efforts) controller_error) h λ _ known free. (
      require-eq-ok (contains effort codex_efforts) controller_error known,
      no_dollars max_pass_usd free,
    )
  where
    no_dollars :
        (usd : Option ℕ) {u : Unit {0}}
        → require (not (is_some usd)) controller_error ≡ ok u
        → usd ≡ none
    no_dollars none k = refl
    no_dollars (some bits) k = cc

supports_runner :
    (runner effort tier web_search : Str) (max_pass_usd : Option ℕ) {u : Unit {0}}
    → require_runner_options runner effort tier web_search max_pass_usd ≡ ok u
    → SupportsRunner runner effort tier web_search max_pass_usd
unfolding require_runner_options
supports_runner runner effort tier web_search max_pass_usd {u} h = record {
  claude_effort = λ e. (claude_options effort tier web_search max_pass_usd (as_runner e)).0;
  claude_tier = λ e. (claude_options effort tier web_search max_pass_usd (as_runner e)).1;
  claude_search = λ e. (claude_options effort tier web_search max_pass_usd (as_runner e)).2;
  codex_effort = λ e. (codex_options effort tier web_search max_pass_usd (as_runner e)).0;
  codex_dollars = λ e. (codex_options effort tier web_search max_pass_usd (as_runner e)).1;
}
  where
    as_runner :
        {known : Str}
        → runner ≡ known
        → require_runner_options known effort tier web_search max_pass_usd ≡ ok u
    as_runner e =
        subst (λ r. require_runner_options r effort tier web_search max_pass_usd ≡ ok u) e h

require_restart-IsDelay :
    (mode : Str) (read : Option ℤ) (seconds : ℤ)
    → require_restart mode read ≡ ok seconds
    → IsDelay mode seconds
unfolding require_restart
require_restart-IsDelay mode none seconds h = cc
require_restart-IsDelay mode (some (negsuc n)) seconds h = record {
  continuous = λ e.
      let k = subst (λ m. require_restart m (some (negsuc n)) ≡ ok seconds) e h in ground arith;
  oneshot = λ e.
      let k = subst (λ m. require_restart m (some (negsuc n)) ≡ ok seconds) e h in ground arith;
}
require_restart-IsDelay mode (some (pos n)) seconds h = record {
  continuous = λ e.
      let k = subst (λ m. require_restart m (some (pos n)) ≡ ok seconds) e h in
      (n, ground arith, ground arith);
  oneshot =
      λ e. let k = subst (λ m. require_restart m (some (pos n)) ≡ ok seconds) e h in ground arith;
}

limit_of-positive : (read : Option ℤ) (limit : Option ℕ) → limit_of read ≡ ok limit → limit ≢ some 0
unfolding limit_of
limit_of-positive none limit h = cc
limit_of-positive (some (negsuc n)) limit h = cc
limit_of-positive (some (pos n)) limit h = ground arith

module _ ⦃host : Host⦄ where
  runner_options_of-ok :
      (metadata : Dict Str Str) (o : RunnerOptions)
      → runner_options_of metadata ≡ ok o
      → (contains o.role roles ≡ true)
        × (contains o.mode modes ≡ true)
        × (contains o.runner runners ≡ true)
        × (contains o.tier tiers ≡ true)
        × SupportsRunner o.runner o.effort o.tier o.web_search o.max_pass_usd
  unfolding runner_options_of
  runner_options_of-ok metadata o h =
      after (choice (codes "role") roles metadata) h λ role role_read h1.
        after (choice (codes "mode") modes metadata) h1 λ mode mode_read h2.
          let named = item_or (codes "runner") (codes "codex") metadata in
          after (choice_of runners named) h2 λ runner runner_read h3.
            after (choice (codes "effort") efforts metadata) h3 λ effort _ h4.
              after (choice (codes "tier") tiers metadata) h4 λ tier tier_read h5.
                let dollars = item_or (codes "max-pass-usd") (codes "0") metadata in
                after (parse_dollars dollars) h5 λ usd _ h6.
                  after (item (codes "web-search") metadata) h6 λ web_search _ h7.
                    after (require_runner_options runner effort tier web_search usd) h7
                      λ _ fits last.
                        let same = ok-injective last in
                        subst
                          (λ o.
                            (contains o.role roles ≡ true)
                            × (contains o.mode modes ≡ true)
                            × (contains o.runner runners ≡ true)
                            × (contains o.tier tiers ≡ true)
                            × SupportsRunner o.runner o.effort o.tier o.web_search o.max_pass_usd)
                          same
                          (
                            choice-eq-ok (codes "role") roles metadata role role_read,
                            choice-eq-ok (codes "mode") modes metadata mode mode_read,
                            choice_of-eq-ok runners named runner runner_read,
                            choice-eq-ok (codes "tier") tiers metadata tier tier_read,
                            supports_runner runner effort tier web_search usd fits,
                          )

  consent_of-ok :
      (web_search : Str) (metadata : Dict Str Str) (permissions : Str)
      → consent_of web_search metadata ≡ ok permissions
      → (contains permissions permission_modes ≡ true)
        × (contains web_search web_search_modes ≡ true)
  unfolding consent_of require_choice
  consent_of-ok web_search metadata permissions h =
      after (choice (codes "permissions") permission_modes metadata) h λ chosen chosen_read h1.
        after (require (contains web_search web_search_modes) controller_error) h1 λ _ searched h2.
          after (item (codes "contract-confirmed") metadata) h2 λ contract _ h3.
            after (parse_bool contract) h3 λ confirmed _ h4.
              after (require confirmed controller_error) h4 λ _ _ last. (
                choice-eq-ok (codes "permissions") permission_modes metadata permissions
                    (chosen_read ∙ last),
                require-eq-ok (contains web_search web_search_modes) controller_error searched,
              )

  workspace_of-is_dir :
      (metadata : Dict Str Str) (w : Str) → workspace_of metadata ≡ ok w → host.is_dir w ≡ true
  unfolding workspace_of
  workspace_of-is_dir metadata w h = after (item (codes "workspace") metadata) h λ value _ h1.
      after (absolute_path value) h1 λ found _ h2.
        after (require (host.is_dir found) controller_error) h2 λ _ tested last.
          subst (λ p. host.is_dir p ≡ true) (ok-injective last)
            (require-eq-ok (host.is_dir found) controller_error tested)

  schedule_of-IsDelay :
      (mode : Str) (metadata : Dict Str Str) (body : List Str) (seconds : ℤ)
      → schedule_of mode metadata body ≡ ok seconds
      → IsDelay mode seconds
  unfolding schedule_of parse_restart_seconds
  schedule_of-IsDelay mode metadata body seconds h =
      after (item (codes "restart-seconds") metadata) h λ value _ h1.
        after (parse_restart_seconds mode value) h1 λ read delay h2.
          after (require (not (is_blank (join (codes "\n") body))) controller_error) h2 λ _ _ last.
            subst (IsDelay mode) (ok-injective last) (require_restart-IsDelay mode _ read delay)

  ledger_path_of-is_file :
      (role : Str) (metadata : Dict Str Str) (path : Option Str)
      → ledger_path_of role metadata ≡ ok path
      → role ≡ codes "impact-assessor"
      → (p : Str) × (path ≡ some p) × (host.is_file p ≡ true)
  unfolding ledger_path_of is_assessor is_ledger
  ledger_path_of-is_file role metadata path h assessor =
      after (optional_path (lookup (codes "ledger-path") metadata)) h λ found _ h1.
        after (require (not (is_assessor role) || is_ledger found) controller_error) h1
          λ _ tested last.
            let checked : (not (is_assessor (codes "impact-assessor")) || is_ledger found) ≡ true =
              subst (λ r. (not (is_assessor r) || is_ledger found) ≡ true) assessor
                (require-eq-ok (not (is_assessor role) || is_ledger found) controller_error
                  tested) in
            subst (λ o. (p : Str) × (o ≡ some p) × (host.is_file p ≡ true)) (ok-injective last)
              (of_ledger found checked)
    where
      of_ledger :
          (o : Option Str) → is_ledger o ≡ true → (p : Str) × (o ≡ some p) × (host.is_file p ≡ true)
      of_ledger none k = cc
      of_ledger (some p) k = (p, refl, k)

  limit_item-positive :
      (key : Str) (metadata : Dict Str Str) (limit : Option ℕ)
      → limit_item key metadata ≡ ok limit
      → limit ≢ some 0
  unfolding limit_item parse_limit
  limit_item-positive key metadata limit h =
      after (item key metadata) h
        λ value _ read. limit_of-positive (parse_int host.decimal_digit value) limit read

  limits_of-positive :
      (metadata : Dict Str Str) (passes tokens : Option ℕ)
      → limits_of metadata ≡ ok (passes, tokens)
      → (passes ≢ some 0) × (tokens ≢ some 0)
  unfolding limits_of
  limits_of-positive metadata passes tokens h =
      after (limit_item (codes "max-passes") metadata) h λ first passes_read h1.
        after (limit_item (codes "max-total-tokens") metadata) h1 λ second tokens_read last.
          let same = ok-injective last in
          (
            subst (λ o. o ≢ some 0) (ap (λ x. x.0) same)
                (limit_item-positive (codes "max-passes") metadata first passes_read),
            subst (λ o. o ≢ some 0) (ap (λ x. x.1) same)
                (limit_item-positive (codes "max-total-tokens") metadata second tokens_read),
          )

  parse_metadata-IsSupported :
      (text : Str) (metadata : Dict Str Str) (body : List Str) (c : PromptConfig)
      → parse_metadata text metadata body ≡ ok c
      → IsSupported host c × (c.text ≡ text)
  unfolding parse_metadata
  parse_metadata-IsSupported text metadata body c h = after (require_keys metadata) h λ _ _ h1.
      after (runner_options_of metadata) h1 λ options options_read h2.
        after (consent_of options.web_search metadata) h2 λ permissions consent_read h3.
          after (workspace_of metadata) h3 λ workspace workspace_read h4.
            after (schedule_of options.mode metadata body) h4 λ seconds seconds_read h5.
              after (require_network metadata) h5 λ _ _ h6.
                after (repository_of metadata) h6 λ repository _ h7.
                  after (ledger_path_of options.role metadata) h7 λ ledger_path ledger_read h8.
                    after (limits_of metadata) h8 λ limits limits_read last.
                      let (role, mode, runner, tier, fits) =
                        runner_options_of-ok metadata options options_read in
                      let positive = limits_of-positive metadata limits.0 limits.1 limits_read in
                      subst (λ c. IsSupported host c × (c.text ≡ text)) (ok-injective last)
                        (
                          record {
                            role = role;
                            mode = mode;
                            runner = runner;
                            tier = tier;
                            permissions =
                                (consent_of-ok options.web_search metadata permissions
                                  consent_read).0;
                            web_search =
                                (consent_of-ok options.web_search metadata permissions
                                  consent_read).1;
                            options = fits;
                            delay =
                                schedule_of-IsDelay options.mode metadata body seconds seconds_read;
                            workspace = workspace_of-is_dir metadata workspace workspace_read;
                            network = refl;
                            ledger =
                                ledger_path_of-is_file options.role metadata ledger_path
                                  ledger_read;
                            max_passes = positive.0;
                            max_total_tokens = positive.1;
                          },
                          refl,
                        )

  -- A prompt that `parse_prompt` accepts keeps its text, names supported choices that its runner
  -- takes together, waits at least 60 seconds if it is continuous and 0 if it is oneshot, has a
  -- directory as its workspace, a ledger file if it is an impact assessor, and no limit of 0.
  pub parse_text-IsSupported :
      (text : Str) (c : PromptConfig)
      → parse_text text ≡ ok c
      → IsSupported host c × (c.text ≡ text)
  unfolding parse_text
  parse_text-IsSupported text c h =
      after (read_metadata [] (split_lines text)) h
        λ head _ h1. parse_metadata-IsSupported text head.0 head.1 c h1
