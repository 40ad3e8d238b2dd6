-- ===== src/Runtime/Home/Bound.antt =====
-- node/runtime/_cometbft_home.py: a home keeps its identity, and the genesis it is bound to.
use discovery_net.Base.{false, ◌≡◌, refl, sym, ◌∙◌, subst, some, ◌==◌, arith, Bool-cases, inl, inr}
use discovery_net.Base.Result.{Result, ok, err}
use discovery_net.Base.Text.{text_eq}
use discovery_net.Runtime.External.{Packages}
use discovery_net.Runtime.Genesis.{VerifiedGenesis}
use discovery_net.Runtime.Settings.{NodeLaunchSettings}
use discovery_net.Runtime.Config.{apply_and_verify}
use discovery_net.Runtime.Home.{
  HomeFiles, Home, CometBft, content_of, unbound_genesis, replace_genesis, prepare, prepare_checked,
  check_existing, provision_validator, install_validator_genesis, install_checked, check_install,
}

-- An operation on a home, whether it succeeds or raises.
pub data Operation (packages : Packages) : Home → Home → Type 0 where
  prepared :
      (cometbft : CometBft) (genesis : VerifiedGenesis) (settings : NodeLaunchSettings)
      (home : Home)
      → Operation packages home
          (prepare ⦃packages = packages⦄ ⦃cometbft = cometbft⦄ genesis settings home).1
  provisions :
      (cometbft : CometBft) (home : Home)
      → Operation packages home
          (provision_validator ⦃packages = packages⦄ ⦃cometbft = cometbft⦄ home).1
  installs :
      (cometbft : CometBft) (genesis : VerifiedGenesis) (home : Home)
      → Operation packages home
          (install_validator_genesis ⦃packages = packages⦄ ⦃cometbft = cometbft⦄ genesis home).1

pub data Later (packages : Packages) (first : Home) : Home → Type 0 where
  now : Later packages first first
  then_by :
      {home next : Home}
      → Later packages first home
      → Operation packages home next
      → Later packages first next

-- The home is there, with the same keys, the same signing state and, once it is bound, the same
-- genesis.
pub record Keeps (files : HomeFiles) (home : Home) : Type 0 where
  pub next : HomeFiles
  pub is_there : home ≡ some next
  pub node_key : next.node_key ≡ files.node_key
  pub validator_key : next.validator_key ≡ files.validator_key
  pub validator_state : next.validator_state ≡ files.validator_state
  pub genesis : (content_of files.genesis == unbound_genesis) ≡ false → next.genesis ≡ files.genesis

same-Keeps : (files : HomeFiles) → Keeps files (some files)
same-Keeps files = record {
  next = files;
  is_there = refl;
  node_key = refl;
  validator_key = refl;
  validator_state = refl;
  genesis = λ _. refl;
}

module _ ⦃packages : Packages⦄ ⦃cometbft : CometBft⦄ where
  prepare_checked-Keeps :
      (settings : NodeLaunchSettings) (files : HomeFiles) (checked : Result (Unit {0}))
      → Keeps files (prepare_checked settings files checked).1
  unfolding prepare_checked
  prepare_checked-Keeps settings files (err e) = same-Keeps files
  prepare_checked-Keeps settings files (ok u) = record {
    next = record files { config = some (apply_and_verify settings (content_of files.config)).1 };
    is_there = refl;
    node_key = refl;
    validator_key = refl;
    validator_state = refl;
    genesis = λ _. refl;
  }

  install_checked-Keeps :
      (genesis : VerifiedGenesis) (files : HomeFiles) (checked : Result (Unit {0}))
      → Keeps files (install_checked genesis files checked).1
  unfolding install_checked
  install_checked-Keeps genesis files (err e) = same-Keeps files
  install_checked-Keeps genesis files (ok u) =
      elim (Bool-cases (content_of files.genesis == genesis.content)) [
        | inl same ↦ rw same (same-Keeps files)
        | inr other ↦ rw other (elim (Bool-cases (content_of files.genesis == unbound_genesis)) [
          | inr bound ↦ rw bound (same-Keeps files)
          | inl free ↦ rw free (record {
            next = replace_genesis genesis.content files;
            is_there = refl;
            node_key = refl;
            validator_key = refl;
            validator_state = refl;
            genesis = λ bound. ground (arith, free, bound);
          })
        ])
      ]

Operation-Keeps :
    (packages : Packages) (files : HomeFiles) (home next : Home)
    → home ≡ some files
    → Operation packages home next
    → Keeps files next
unfolding prepare provision_validator install_validator_genesis
Operation-Keeps packages files _ _ there (prepared cometbft genesis settings home) =
    subst
      (λ h. Keeps files (prepare ⦃packages = packages⦄ ⦃cometbft = cometbft⦄ genesis settings h).1)
      (sym there)
      (prepare_checked-Keeps ⦃packages = packages⦄ ⦃cometbft = cometbft⦄ settings files
        (check_existing ⦃packages = packages⦄ ⦃cometbft = cometbft⦄ genesis files))
Operation-Keeps packages files _ _ there (provisions cometbft home) =
    subst (λ h. Keeps files (provision_validator ⦃packages = packages⦄ ⦃cometbft = cometbft⦄ h).1)
      (sym there) (same-Keeps files)
Operation-Keeps packages files _ _ there (installs cometbft genesis home) =
    subst
      (λ h.
        Keeps files
          (install_validator_genesis ⦃packages = packages⦄ ⦃cometbft = cometbft⦄ genesis h).1)
      (sym there)
      (install_checked-Keeps ⦃packages = packages⦄ ⦃cometbft = cometbft⦄ genesis files
        (check_install ⦃packages = packages⦄ ⦃cometbft = cometbft⦄ genesis files))

-- A home that is there keeps its node key, its validator key and its signing state through any
-- sequence of preparations, provisions and installations, failed ones included; and once its genesis
-- is not the unbound one, it keeps that too.
pub Later-Keeps :
    (packages : Packages) (files : HomeFiles) (home : Home)
    → Later packages (some files) home
    → Keeps files home
Later-Keeps packages files _ now = same-Keeps files
Later-Keeps packages files next (then_by {home = home} before operation) =
    let k = Later-Keeps packages files home before in
    let l = Operation-Keeps packages k.next home next k.is_there operation in
    record {
      next = l.next;
      is_there = l.is_there;
      node_key = l.node_key ∙ k.node_key;
      validator_key = l.validator_key ∙ k.validator_key;
      validator_state = l.validator_state ∙ k.validator_state;
      genesis = λ bound.
          let same = k.genesis bound in
          l.genesis (subst (λ g. (content_of g == unbound_genesis) ≡ false) (sym same) bound)
          ∙ same;
    }
