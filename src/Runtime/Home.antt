-- ===== src/Runtime/Home.antt =====
-- node/runtime/_cometbft_home.py: the persistent home of a node.
pub mod Bound
pub mod Installed
use discovery_net.Base.{
  ℕ, Bool, true, false, not, ◌&&◌, ◌||◌, Option, none, some, List, [], ◌∷◌, ◌==◌, list_beq, any,
  is_some, if◌then◌else◌,
}
use discovery_net.Base.Result.{
  Result, ok, err, value_error, file_exists_error, require, ◌>>=◌, ◌>>◌,
}
use discovery_net.Base.Text.{Str, Bytes, text_eq, codes}
use discovery_net.Runtime.External.{Packages}
use discovery_net.Runtime.Genesis.{VerifiedGenesis}
use discovery_net.Runtime.Validators.{IdentityFiles, from_identity, public_key_type, some_or_error}
use discovery_net.Runtime.Settings.{NodeLaunchSettings}
use discovery_net.Runtime.Config.{apply_and_verify}

-- The files below the directory, and the names of all files and directories below data/
pub record HomeFiles : Type 0 where
  pub is_real : Bool
  pub config : Option Bytes
  pub genesis : Option Bytes
  pub node_key : Option Bytes
  pub validator_key : Option Bytes
  pub validator_state : Option Bytes
  pub data_paths : List Str

-- A home that is not there is none.
abbrev pub Home : Type 0
Home = Option HomeFiles

abbrev pub content_of : Option Bytes → Bytes
content_of none = []
content_of (some content) = content

abbrev pub unbound_genesis : Bytes
unbound_genesis = codes "{}\n"

unfoldable pub require_complete_home : HomeFiles → Result (Unit {0})
require_complete_home files =
    require
      (is_some files.config
        && is_some files.node_key
        && is_some files.validator_key
        && is_some files.validator_state
        && is_some files.genesis)
      value_error

unfoldable pub require_unstarted_home : HomeFiles → Result (Unit {0})
require_unstarted_home files =
    require (list_beq files.data_paths (codes "priv_validator_state.json" ∷ [])) value_error

-- `pair in pairs`
abbrev pub is_member : Str × Str → List (Str × Str) → Bool
is_member key keys = any (λ k. (k.0 == key.0) && (k.1 == key.1)) keys

abbrev pub identity_of : HomeFiles → IdentityFiles
identity_of files = record {
  is_real = files.is_real;
  key = files.validator_key;
  state = files.validator_state;
}

-- `_replace_genesis`
abbrev pub replace_genesis : Bytes → HomeFiles → HomeFiles
replace_genesis content files = record files { genesis = some content }

-- The configuration after `apply_and_verify`, with its result
abbrev pub configured : HomeFiles → Result (Unit {0}) × Bytes → Result (Unit {0}) × HomeFiles
configured files (result, content) = (result, record files { config = some content })

-- `_require_complete_home`, once more
unfoldable pub recheck : Result (Unit {0}) × HomeFiles → Result (Unit {0}) × HomeFiles
unfolding require_complete_home
recheck (err e, files) = (err e, files)
recheck (ok u, files) = (require_complete_home files, files)

-- A staged directory becomes the home, or is removed.
abbrev pub renamed : Result (Unit {0}) × HomeFiles → Result (Unit {0}) × Home
renamed (err e, files) = (err e, none)
renamed (ok u, files) = (ok tt, some files)

-- `cometbft init`, in a new directory
pub record CometBft : Type 0 where
  pub initialize : Result HomeFiles

module _ ⦃packages : Packages⦄ ⦃cometbft : CometBft⦄ where
  -- `_validator_public_key`; none is a file that could not be read.
  abbrev pub public_key_of : Option Bytes → Option (Str × Str)
  public_key_of none = none
  public_key_of (some content) = packages.public_key_json content

  unfoldable pub validator_public_key : Option Bytes → Result (Str × Str)
  validator_public_key content = some_or_error (public_key_of content)

  unfoldable pub check_new : VerifiedGenesis → HomeFiles → Result (Unit {0})
  unfolding require_complete_home validator_public_key
  check_new genesis staged = do
    require_complete_home staged
    key ← validator_public_key staged.validator_key
    require (not (is_member key genesis.document.validators)) value_error

  unfoldable pub prepare_staged :
      VerifiedGenesis
      → NodeLaunchSettings
      → HomeFiles
      → Result (Unit {0})
      → Result (Unit {0}) × Home
  unfolding recheck
  prepare_staged genesis settings staged (err e) = (err e, none)
  prepare_staged genesis settings staged (ok u) = renamed (
      recheck (
        configured (replace_genesis genesis.content staged)
          (apply_and_verify settings (content_of staged.config))))

  -- `_prepare_new`
  unfoldable pub prepare_new :
      VerifiedGenesis → NodeLaunchSettings → Result HomeFiles → Result (Unit {0}) × Home
  unfolding check_new prepare_staged
  prepare_new genesis settings (err e) = (err e, none)
  prepare_new genesis settings (ok staged) =
      prepare_staged genesis settings staged (check_new genesis staged)

  unfoldable pub check_existing : VerifiedGenesis → HomeFiles → Result (Unit {0})
  unfolding require_complete_home
  check_existing genesis files = do
    require files.is_real value_error
    require_complete_home files
    require (content_of files.genesis == genesis.content) value_error

  abbrev pub kept : Result (Unit {0}) × HomeFiles → Result (Unit {0}) × Home
  kept (result, files) = (result, some files)

  -- `_prepare_existing`
  unfoldable pub prepare_checked :
      NodeLaunchSettings → HomeFiles → Result (Unit {0}) → Result (Unit {0}) × Home
  prepare_checked settings files (err e) = (err e, some files)
  prepare_checked settings files (ok u) =
      kept (configured files (apply_and_verify settings (content_of files.config)))

  unfoldable pub prepare : VerifiedGenesis → NodeLaunchSettings → Home → Result (Unit {0}) × Home
  unfolding prepare_new check_existing prepare_checked
  prepare genesis settings none = prepare_new genesis settings cometbft.initialize
  prepare genesis settings (some files) =
      prepare_checked settings files (check_existing genesis files)

  unfoldable pub provisioned : Result HomeFiles → Result (Unit {0}) × Home
  unfolding require_complete_home from_identity
  provisioned (err e) = (err e, none)
  provisioned (ok staged) = renamed (
    (require_complete_home staged >> (from_identity (identity_of staged) >>= λ _. ok tt)),
    replace_genesis unbound_genesis staged,
  )

  -- `provision_validator`
  unfoldable pub provision_validator : Home → Result (Unit {0}) × Home
  unfolding provisioned
  provision_validator none = provisioned cometbft.initialize
  provision_validator (some files) = (err file_exists_error, some files)

  unfoldable pub check_install : VerifiedGenesis → HomeFiles → Result (Unit {0})
  unfolding require_complete_home require_unstarted_home from_identity
  check_install genesis files = do
    require files.is_real value_error
    require_complete_home files
    require_unstarted_home files
    public_key ← from_identity (identity_of files)
    require (is_member (public_key_type, packages.b64encode public_key) genesis.document.validators)
        value_error

  -- The genesis, once the home has been checked
  unfoldable pub install_checked :
      VerifiedGenesis → HomeFiles → Result (Unit {0}) → Result (Unit {0}) × Home
  install_checked genesis files (err e) = (err e, some files)
  install_checked genesis files (ok u) =
      if content_of files.genesis == genesis.content
      then (ok tt, some files)
      else if content_of files.genesis == unbound_genesis
      then (ok tt, some (replace_genesis genesis.content files))
      else (err value_error, some files)

  -- `install_validator_genesis`
  unfoldable pub install_validator_genesis : VerifiedGenesis → Home → Result (Unit {0}) × Home
  unfolding check_install install_checked
  install_validator_genesis genesis none = (err value_error, none)
  install_validator_genesis genesis (some files) =
      install_checked genesis files (check_install genesis files)
