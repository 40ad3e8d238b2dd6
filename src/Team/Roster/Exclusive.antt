-- ===== src/Team/Roster/Exclusive.antt =====
-- research_team/controller.py: no two agents share a workspace, and one assessor at most is active.
pub mod Steps
use discovery_net.Base.{
  ℕ, Bool, true, false, not, ◌&&◌, ◌||◌, ◌≡◌, ◌⊎◌, refl, sym, ap, ◌∙◌, subst, Option, none, some,
  List, [], ◌∷◌, ◌==◌, ==_iff, contains, arith, Bool-cases, inl, inr, if◌then◌else◌,
}
use discovery_net.Base.Dict.{Dict, keys, lookup, insert, lookup-insert, has_key_of_lookup}
use discovery_net.Base.Result.{
  Result, ok, err, controller_error, require, require-eq-ok, after, ok-injective, ◌>>=◌, ◌>>◌,
}
use discovery_net.Base.Sorted.{text_lt, sorted, contains-sorted}
use discovery_net.Base.Text.{Str, text_eq}
use discovery_net.Team.Host.{Host}
use discovery_net.Team.Prompt.{PromptConfig, parse_text, parse_prompt, is_assessor}
use discovery_net.Team.Prompt.Supported.{parse_text-IsSupported}
use discovery_net.Team.Work.{without}
use discovery_net.Team.Roster.{
  agent_names, check_each, check_workspace, ensure_workspace_is_exclusive, check_assessor,
  ensure_impact_assessor_is_unique,
}

module _ ⦃host : Host⦄ where
  -- Two agents are apart: their workspaces differ, and at most one of them is an impact assessor.
  pub record AreApart (c d : PromptConfig) : Type 0 where
    pub workspace : (c.workspace == d.workspace) ≡ false
    pub assessor : (is_assessor c.role && is_assessor d.role) ≡ false

  -- Any two agents whose prompts can be read are apart.
  unfoldable pub IsExclusive : Dict Str Str → Type 0
  IsExclusive prompts =
      (n m t u : Str) (c d : PromptConfig)
      → (n == m) ≡ false
      → lookup n prompts ≡ some t
      → lookup m prompts ≡ some u
      → parse_text t ≡ ok c
      → parse_text u ≡ ok d
      → AreApart c d

  check_each-eq-ok :
      (check : Str → Result (Unit {0})) (xs : List Str) (x : Str) {u : Unit {0}}
      → check_each check xs ≡ ok u
      → contains x xs ≡ true
      → check x ≡ ok tt
  unfolding check_each
  check_each-eq-ok check [] x h k = cc
  check_each-eq-ok check (y ∷ ys) x h k = after (check y) h λ _ here rest.
      elim (Bool-cases (y == x)) [
        | inl same ↦ subst (λ z. check z ≡ ok tt) ((==_iff y x).0 same) here
        | inr other ↦ check_each-eq-ok check ys x rest (ground arith)
      ]

  listed :
      (n t : Str) (prompts : Dict Str Str)
      → lookup n prompts ≡ some t
      → contains n (agent_names prompts) ≡ true
  unfolding agent_names
  listed n t prompts h = contains-sorted text_lt n (keys prompts) ∙ has_key_of_lookup n t prompts h

  not-eq-true : (b : Bool) → not b ≡ true → b ≡ false
  not-eq-true true h = cc
  not-eq-true false h = refl

  workspace-apart :
      (name workspace m u : Str) (prompts : Dict Str Str) (d : PromptConfig) {v : Unit {0}}
      → ensure_workspace_is_exclusive name workspace prompts ≡ ok v
      → (m == name) ≡ false
      → lookup m prompts ≡ some u
      → parse_text u ≡ ok d
      → (d.workspace == workspace) ≡ false
  unfolding ensure_workspace_is_exclusive check_workspace parse_prompt
  workspace-apart name workspace m u prompts d h other found read =
      let checked =
        check_each-eq-ok (check_workspace name workspace prompts) (agent_names prompts) m h
          (listed m u prompts found) in
      let tested : require (not (d.workspace == workspace)) controller_error ≡ ok tt =
        sym (ap (λ r. r >>= λ o. require (not (o.workspace == workspace)) controller_error) read)
        ∙ sym (
            ap
              (λ o.
                parse_prompt o >>= λ o. require (not (o.workspace == workspace)) controller_error)
              found)
        ∙ sym (
            ap
              (λ b.
                if b
                then ok tt
                else parse_prompt (lookup m prompts) >>= λ o.
                    require (not (o.workspace == workspace)) controller_error)
              other)
        ∙ checked in
      not-eq-true (d.workspace == workspace)
        (require-eq-ok (not (d.workspace == workspace)) controller_error tested)

  assessor-apart :
      (name role m u : Str) (prompts : Dict Str Str) (d : PromptConfig) {v : Unit {0}}
      → ensure_impact_assessor_is_unique name role prompts ≡ ok v
      → (m == name) ≡ false
      → lookup m prompts ≡ some u
      → parse_text u ≡ ok d
      → (is_assessor d.role && is_assessor role) ≡ false
  unfolding ensure_impact_assessor_is_unique check_assessor parse_prompt
  assessor-apart name role m u prompts d h other found read = elim (Bool-cases (is_assessor role)) [
    | inr plain ↦ ground arith
    | inl assessor ↦
        let checked =
          check_each-eq-ok (check_assessor name prompts) (agent_names prompts) m
            (sym (
                ap
                  (λ b.
                    if b
                    then check_each (check_assessor name prompts) (agent_names prompts)
                    else ok tt)
                  assessor)
              ∙ h)
            (listed m u prompts found) in
        let tested : require (not (is_assessor d.role)) controller_error ≡ ok tt =
          sym (ap (λ r. r >>= λ o. require (not (is_assessor o.role)) controller_error) read)
          ∙ sym (
              ap (λ o. parse_prompt o >>= λ o. require (not (is_assessor o.role)) controller_error)
                found)
          ∙ sym (
              ap
                (λ b.
                  if b
                  then ok tt
                  else parse_prompt (lookup m prompts) >>= λ o.
                      require (not (is_assessor o.role)) controller_error)
                other)
          ∙ checked in
        let free =
          not-eq-true (is_assessor d.role)
            (require-eq-ok (not (is_assessor d.role)) controller_error tested) in
        ground arith
  ]

  AreApart-sym : (c d : PromptConfig) → AreApart c d → AreApart d c
  AreApart-sym c d h = record {
    workspace =
        ground (arith, h.workspace, ==_iff c.workspace d.workspace, ==_iff d.workspace c.workspace);
    assessor = ground (arith, h.assessor);
  }

  -- A prompt of the extended files is the new one, or one from before.
  inserted :
      (name text n t : Str) (prompts : Dict Str Str)
      → lookup n (insert name text prompts) ≡ some t
      → ((name == n) ≡ true × (t ≡ text)) ⊎ ((name == n) ≡ false × (lookup n prompts ≡ some t))
  inserted name text n t prompts h = elim (Bool-cases (name == n)) [
    | inl same ↦ inl (same, ground (arith, lookup-insert name n text prompts))
    | inr other ↦ inr (other, ground (arith, lookup-insert name n text prompts))
  ]

  as_config :
      (t text : Str) (c config : PromptConfig)
      → t ≡ text
      → parse_text t ≡ ok c
      → parse_text text ≡ ok config
      → config ≡ c
  as_config t text c config same read known =
      ok-injective (sym known ∙ ap parse_text (sym same) ∙ read)

  -- An agent that passes the two checks can be put on file, or replaced.
  pub insert-IsExclusive :
      (name : Str) (config : PromptConfig) (prompts : Dict Str Str) {v w : Unit {0}}
      → parse_text config.text ≡ ok config
      → ensure_workspace_is_exclusive name config.workspace prompts ≡ ok v
      → ensure_impact_assessor_is_unique name config.role prompts ≡ ok w
      → IsExclusive prompts
      → IsExclusive (insert name config.text prompts)
  unfolding IsExclusive
  insert-IsExclusive name config prompts read free unique apart n m t u c d other found_n found_m
        read_n read_m =
      elim (inserted name config.text n t prompts found_n) [
        | inl (new_n, same) ↦ elim (inserted name config.text m u prompts found_m) [
          | inl (new_m, _) ↦ absurd (both new_n new_m)
          | inr (old_m, kept) ↦
              subst (λ x. AreApart x d) (as_config t config.text c config same read_n read)
                (AreApart-sym d config (apart_from m u d old_m kept read_m))
        ]
        | inr (old_n, kept) ↦ elim (inserted name config.text m u prompts found_m) [
          | inl (_, same) ↦
              subst (AreApart c) (as_config u config.text d config same read_m read)
                (apart_from n t c old_n kept read_n)
          | inr (_, also) ↦ apart n m t u c d other kept also read_n read_m
        ]
      ]
    where
      apart_from :
          (k x : Str) (e : PromptConfig)
          → (name == k) ≡ false
          → lookup k prompts ≡ some x
          → parse_text x ≡ ok e
          → AreApart e config
      apart_from k x e differs found known =
          let apart_names : (k == name) ≡ false =
            ground (arith, differs, ==_iff k name, ==_iff name k) in
          record {
            workspace =
                workspace-apart name config.workspace k x prompts e free apart_names found known;
            assessor = assessor-apart name config.role k x prompts e unique apart_names found known;
          }

      both : (name == n) ≡ true → (name == m) ≡ true → ⊥
      both h k =
          let same : (n == m) ≡ true = ground (arith, ==_iff name n, ==_iff name m, ==_iff n m) in
          ground (arith, other, same)

  lookup-without :
      (k n : Str) (prompts : Dict Str Str)
      → lookup k (without n prompts) ≡ (if n == k then none else lookup k prompts)
  lookup-without k n [] = ground arith
  lookup-without k n ((j, t) ∷ prompts) =
      ground (arith, lookup-without k n prompts, ==_iff j n, ==_iff j k, ==_iff n k)

  pub without-IsExclusive :
      (name : Str) (prompts : Dict Str Str)
      → IsExclusive prompts
      → IsExclusive (without name prompts)
  unfolding IsExclusive
  without-IsExclusive name prompts apart n m t u c d other found_n found_m read_n read_m =
      apart n m t u c d other (ground (arith, found_n, lookup-without n name prompts))
        (ground (arith, found_m, lookup-without m name prompts)) read_n read_m
