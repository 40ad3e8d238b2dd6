-- ===== src/Runtime/Home/Installed.antt =====
-- node/runtime/_cometbft_home.py: what an installation leaves.
use discovery_net.Base.{
  Bool, true, false, ◌≡◌, ◌≢◌, refl, sym, ap, ◌∙◌, subst, Option, none, some, ◌==◌, ==_iff, ==-refl,
  arith, Bool-cases, inl, inr, if◌then◌else◌,
}
use discovery_net.Base.Result.{
  Result, ok, err, value_error, require, Error, after, Result-cases, ◌>>=◌, ◌>>◌,
}
use discovery_net.Base.Text.{Bytes, text_eq}
use discovery_net.Runtime.External.{Packages}
use discovery_net.Runtime.Genesis.{VerifiedGenesis}
use discovery_net.Runtime.Settings.{NodeLaunchSettings}
use discovery_net.Runtime.Validators.{from_identity, public_key_type}
use discovery_net.Runtime.Home.{
  HomeFiles, Home, CometBft, content_of, unbound_genesis, replace_genesis, prepare, prepare_checked,
  check_existing, install_validator_genesis, install_checked, check_install, require_complete_home,
  require_unstarted_home, identity_of, is_member,
}

if-true : {A : Type 0} {x : A} (y : A) {b : Bool} → b ≡ true → (if b then x else y) ≡ x
if-true {x = x} y h = ap (λ b. if b then x else y) h

if-false : {A : Type 0} (x : A) {y : A} {b : Bool} → b ≡ false → (if b then x else y) ≡ y
if-false x {y = y} h = ap (λ b. if b then x else y) h

different_contents : (a b : Bytes) → a ≢ b → (a == b) ≡ false
different_contents a b h = ground (arith, ==_iff a b)

same_home :
    {files next : HomeFiles}
    → ◌≡◌ {A = Result (Unit {0}) × Home} (ok tt, some next) (ok tt, some files)
    → next ≡ files
same_home h = cc

not_failed :
    {e : Error} {home : Home} {files : HomeFiles}
    → ◌≡◌ {A = Result (Unit {0}) × Home} (err e, home) (ok tt, some files)
    → ⊥
not_failed h = cc

module _ ⦃packages : Packages⦄ ⦃cometbft : CometBft⦄ where
  -- The home is bound to this genesis: installing it again changes nothing, and preparing the home for
  -- another one fails and leaves it.
  pub record IsBound (genesis : VerifiedGenesis) (files : HomeFiles) : Type 0 where
    pub content : files.genesis ≡ some genesis.content
    pub again : install_validator_genesis genesis (some files) ≡ (ok tt, some files)
    pub refused :
        (other : VerifiedGenesis) (settings : NodeLaunchSettings)
        → other.content ≢ genesis.content
        → prepare other settings (some files) ≡ (err value_error, some files)

  complete-genesis :
      (files : HomeFiles) {u : Unit {0}}
      → require_complete_home files ≡ ok u
      → (content : Bytes) × (files.genesis ≡ some content)
  unfolding require_complete_home
  complete-genesis files h = go files.genesis refl
    where
      go :
          (g : Option Bytes)
          → files.genesis ≡ g
          → (content : Bytes) × (files.genesis ≡ some content)
      go (some content) e = (content, e)
      go none e = ground arith

  require_complete_home-replaced :
      (content : Bytes) (files : HomeFiles) {u : Unit {0}}
      → require_complete_home files ≡ ok u
      → require_complete_home (replace_genesis content files) ≡ ok tt
  unfolding require_complete_home
  require_complete_home-replaced content files h = ground arith

  record IsChecked (genesis : VerifiedGenesis) (files : HomeFiles) : Type 0 where
    real : require files.is_real value_error ≡ ok tt
    complete : require_complete_home files ≡ ok tt
    again : (content : Bytes) → check_install genesis (replace_genesis content files) ≡ ok tt

  check_install-IsChecked :
      (genesis : VerifiedGenesis) (files : HomeFiles) {u : Unit {0}}
      → check_install genesis files ≡ ok u
      → IsChecked genesis files
  unfolding check_install
  check_install-IsChecked genesis files h =
      after (require files.is_real value_error) h λ _ real rest.
        after (require_complete_home files) rest λ _ complete _. record {
          real = real;
          complete = complete;
          again = λ content.
              ap (λ r. require files.is_real value_error >> (r >> rest_of_check))
                (require_complete_home-replaced content files complete ∙ sym complete)
              ∙ h;
        }
    where
      rest_of_check : Result (Unit {0})
      rest_of_check = do
        require_unstarted_home files
        public_key ← from_identity (identity_of files)
        require
            (is_member (public_key_type, packages.b64encode public_key) genesis.document.validators)
            value_error

  check_install-IsBound :
      (genesis : VerifiedGenesis) (files : HomeFiles) {u : Unit {0}}
      → files.genesis ≡ some genesis.content
      → check_install genesis files ≡ ok u
      → IsBound genesis files
  unfolding install_validator_genesis install_checked prepare prepare_checked check_existing
  check_install-IsBound genesis files is_bound checked =
      let parts = check_install-IsChecked genesis files checked in
      let same : (content_of files.genesis == genesis.content) ≡ true =
        ap (λ g. content_of g == genesis.content) is_bound ∙ ==-refl genesis.content in
      record {
        content = is_bound;
        again = ap (install_checked genesis files) checked ∙ if-true _ same;
        refused = λ other settings differs.
            let different : (content_of files.genesis == other.content) ≡ false =
              ap (λ g. content_of g == other.content) is_bound
              ∙ different_contents genesis.content other.content (λ e. differs (sym e)) in
            ap (prepare_checked settings files) (
              ap
                (λ r.
                  r
                  >> (require_complete_home files
                      >> require (content_of files.genesis == other.content) value_error))
                parts.real
              ∙ ap (λ r. r >> require (content_of files.genesis == other.content) value_error)
                  parts.complete
              ∙ ap (λ b. require b value_error) different);
      }

  -- After an installation that succeeds the home holds the genesis: installing it again changes
  -- nothing, and preparing the home for a genesis with other bytes fails and leaves it as it is.
  pub install_validator_genesis-IsBound :
      (genesis : VerifiedGenesis) (before files : HomeFiles)
      → install_validator_genesis genesis (some before) ≡ (ok tt, some files)
      → IsBound genesis files
  unfolding install_validator_genesis install_checked
  install_validator_genesis-IsBound genesis before files h =
      elim (Result-cases (check_install genesis before)) [
        | inr (e, failed) ↦
            absurd (not_failed (sym (ap (install_checked genesis before) failed) ∙ h))
        | inl (u, checked) ↦ done u checked (sym (ap (install_checked genesis before) checked) ∙ h)
      ]
    where
      done :
          (u : Unit {0})
          → check_install genesis before ≡ ok u
          → install_checked genesis before (ok u) ≡ (ok tt, some files)
          → IsBound genesis files
      done u checked h =
          let parts = check_install-IsChecked genesis before checked in
          elim (Bool-cases (content_of before.genesis == genesis.content)) [
            | inl same ↦
                let (content, found) = complete-genesis before parts.complete in
                let is_content : content ≡ genesis.content =
                  sym (ap content_of found)
                  ∙ (==_iff (content_of before.genesis) genesis.content).0 same in
                subst (IsBound genesis) (same_home (sym (if-true _ same) ∙ h))
                  (check_install-IsBound genesis before (found ∙ ap some is_content) checked)
            | inr other ↦ elim (Bool-cases (content_of before.genesis == unbound_genesis)) [
              | inl free ↦
                  subst (IsBound genesis) (same_home (sym (if-false _ other ∙ if-true _ free) ∙ h))
                    (check_install-IsBound genesis (replace_genesis genesis.content before) refl
                      (parts.again genesis.content))
              | inr bound ↦ absurd (not_failed (sym (if-false _ other ∙ if-false _ bound) ∙ h))
            ]
          ]
