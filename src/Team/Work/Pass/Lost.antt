-- ===== src/Team/Work/Pass/Lost.antt =====
-- research_team/controller.py and claude_code.py: a pass whose stored session is lost.
use discovery_net.Base.{true, false, ◌≡◌, refl, sym, ap, ◌∙◌, some, arith}
use discovery_net.Base.Result.{Result, ok, ok-injective, ◌>>=◌}
use discovery_net.Base.Text.{Str, is_empty}
use discovery_net.Team.Host.{Completed}
use discovery_net.Team.Prompt.{PromptConfig}
use discovery_net.Team.Claude.{
  CommandLine, PassResult, run_pass, start_again, is_lost, invoke_session, read_completed,
  active_session,
}
use discovery_net.Team.Work.Pass.{run_claude_code_pass, fresh_prompt, claude_outcome}

module _ ⦃line : CommandLine⦄ where
  -- The command line cannot find the session when it is asked this prompt.
  pub record IsLost (config : PromptConfig) (session prompt : Str) : Type 0 where
    pub binary : Str
    pub completed : Completed
    pub found : line.find_claude ≡ ok binary
    pub ran : invoke_session binary config prompt session true ≡ ok completed
    pub lost : is_lost completed ≡ true

  -- The new session that `run_pass` starts then
  restarted : PromptConfig → (binary fresh : Str) → Result PassResult
  restarted config binary fresh =
      invoke_session binary config fresh line.second_id false
      >>= read_completed line.second_id false

  run_pass-lost :
      (config : PromptConfig) (prompt fresh session : Str)
      → is_empty session ≡ false
      → (l : IsLost config session prompt)
      → run_pass config prompt fresh (some session) ≡ restarted config l.binary fresh
  unfolding run_pass start_again restarted
  run_pass-lost config prompt fresh session named l =
      let active : active_session session ≡ session = ground (arith, named) in
      rw (l.found, active, l.ran, l.lost) refl

  -- If the command line cannot find a stored session, the outcome of the pass does not depend on what
  -- the pass was to ask: a follow-up in it, or the packet of an assessor, is not sent.
  pub lost-same :
      (config : PromptConfig) (session first second : Str)
      → is_empty session ≡ false
      → IsLost config session first
      → IsLost config session second
      → run_claude_code_pass config first (some session)
        ≡ run_claude_code_pass config second (some session)
  unfolding run_claude_code_pass
  lost-same config session first second named l m =
      let mandate : (prompt : Str) → fresh_prompt config prompt (some session) ≡ config.text =
        λ prompt. ground (arith, named) in
      let binaries : l.binary ≡ m.binary = ok-injective (sym l.found ∙ m.found) in
      ap claude_outcome (
        ap (λ fresh. run_pass config first fresh (some session)) (mandate first)
        ∙ run_pass-lost config first config.text session named l
        ∙ ap (λ binary. restarted config binary config.text) binaries
        ∙ sym (run_pass-lost config second config.text session named m)
        ∙ ap (λ fresh. run_pass config second fresh (some session)) (sym (mandate second)))
