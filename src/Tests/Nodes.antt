-- ===== src/Tests/Nodes.antt =====
-- A validator home that is given its genesis, and a configuration that is given its settings.
use discovery_net.Base.{
  true, false, ◌≡◌, ◌⊎◌, refl, ap, none, some, [], ◌∷◌, ◌++◌, ◌==◌, if◌then◌else◌,
}
use discovery_net.Base.Parse.{pos}
use discovery_net.Base.Result.{ok, err, Error, value_error, ok-injective}
use discovery_net.Base.Text.{Bytes, text_eq, codes}
use discovery_net.Runtime.External.{
  Packages, KeyJson, StateJson, HeightJson, Toml, TomlDocument, string,
}
use discovery_net.Runtime.Endpoint.{Endpoint}
use discovery_net.Runtime.Genesis.{VerifiedGenesis}
use discovery_net.Runtime.Validators.{public_key_type, private_key_type}
use discovery_net.Runtime.Settings.{NodeLaunchSettings}
use discovery_net.Runtime.Config.{apply_settings, apply_and_verify}
use discovery_net.Runtime.Config.Applied
use discovery_net.Runtime.Config.Applied.{IsConfigured}
use discovery_net.Runtime.Home.{HomeFiles, CometBft, install_validator_genesis, provision_validator}
use discovery_net.Runtime.Home.Bound
use discovery_net.Runtime.Home.Bound.{Later, Keeps, now, then_by, installs, prepared, provisions}
use discovery_net.Runtime.Home.Installed
use discovery_net.Runtime.Home.Installed.{IsBound}

abbrev zeros_16 : Bytes
zeros_16 = 0 ∷ 0 ∷ 0 ∷ 0 ∷ 0 ∷ 0 ∷ 0 ∷ 0 ∷ 0 ∷ 0 ∷ 0 ∷ 0 ∷ 0 ∷ 0 ∷ 0 ∷ 0 ∷ []

abbrev zeros_32 : Bytes
zeros_32 = zeros_16 ++ zeros_16

abbrev endpoint : Endpoint
endpoint = record { host = codes "node"; port = 26656 }

abbrev settings : NodeLaunchSettings
settings = record {
  moniker = codes "first";
  abci_endpoint = endpoint;
  rpc_listen_endpoint = endpoint;
  p2p_listen_endpoint = endpoint;
  p2p_advertised_endpoint = none;
  persistent_peers = [];
  peer_exchange = true;
  peer_admission = record { address_book_strict = true; allow_duplicate_ip = false };
  create_empty_blocks = true;
  log_level = codes "info";
}

-- A configuration as `cometbft init` writes it, with a plain key of its own
abbrev initial_config : TomlDocument
initial_config = record {
  base = (codes "moniker", string (codes "host")) ∷ (codes "db_keep", Toml.number (pos 3)) ∷ [];
  tables =
      (codes "rpc", []) ∷ (codes "p2p", []) ∷ (codes "consensus", []) ∷ (codes "storage", []) ∷ [];
}

abbrev set_config : TomlDocument
unfolding apply_settings
set_config = elim (apply_settings settings initial_config) [
  | ok document ↦ document
  | err e ↦ initial_config
]

abbrev zero_key : KeyJson
zero_key = record {
  address = codes "0000000000000000000000000000000000000000";
  public_type = public_key_type;
  public_value = codes "public";
  private_type = private_key_type;
  private_value = codes "private";
}

abbrev zero_state : StateJson
zero_state = record {
  height = HeightJson.number (pos 0);
  round = pos 0;
  step = pos 0;
  is_signed = false;
}

-- The empty file is the configuration before, and any other the one that is written.
instance abbrev small_packages : Packages
small_packages = record {
  ip_address = λ _. none;
  url_split = λ _. err value_error;
  sha256 = λ _. zeros_32;
  genesis_json = λ _. none;
  key_json = λ _. some zero_key;
  public_key_json = λ _. some (public_key_type, codes "public");
  state_json = λ _. some zero_state;
  b64decode = λ text. if text == codes "public" then some zeros_32 else some (zeros_32 ++ zeros_32);
  b64encode = λ _. codes "public";
  public_bytes = λ _. zeros_32;
  toml_loads = λ content. some set_config;
  toml_parse = λ content. some initial_config;
  toml_dumps = λ _. codes "# set\n";
  decimal_digit = λ _. none;
}

instance abbrev no_cometbft : CometBft
no_cometbft = record { initialize = err value_error }

apply_and_verify-IsConfigured_example :
    ((e : Error) × (apply_settings settings initial_config ≡ err e)
      × (apply_and_verify settings [] ≡ (err e, [])))
    ⊎ ((result : TomlDocument) × (apply_and_verify settings [] ≡ (ok tt, codes "# set\n"))
        × IsConfigured settings initial_config result)
unfolding apply_settings
apply_and_verify-IsConfigured_example =
    Applied.apply_and_verify-IsConfigured settings [] initial_config readable refl
  where
    readable :
        (d : TomlDocument)
        → apply_settings settings initial_config ≡ ok d
        → some set_config ≡ some d
    readable d h = ap some (ok-injective h)

abbrev genesis : VerifiedGenesis
genesis = record {
  content = codes "{\"chain_id\":\"net\"}";
  document = record {
    chain_id = codes "net";
    initial_height = pos 1;
    has_app_state = false;
    validators = (public_key_type, codes "public") ∷ [];
  };
}

abbrev unbound_home : HomeFiles
unbound_home = record {
  is_real = true;
  config = some [];
  genesis = some (codes "{}\n");
  node_key = some (codes "node");
  validator_key = some (codes "key");
  validator_state = some (codes "state");
  data_paths = codes "priv_validator_state.json" ∷ [];
}

abbrev bound_home : HomeFiles
bound_home = record unbound_home { genesis = some genesis.content }

install_validator_genesis-unbound_home :
    install_validator_genesis genesis (some unbound_home) ≡ (ok tt, some bound_home)
unfolding install_validator_genesis
install_validator_genesis-unbound_home = refl

install_validator_genesis-IsBound_example : IsBound genesis bound_home
install_validator_genesis-IsBound_example =
    Installed.install_validator_genesis-IsBound genesis unbound_home bound_home
      install_validator_genesis-unbound_home

bound_home-Later : Later small_packages (some unbound_home) (some bound_home)
unfolding install_validator_genesis provision_validator
bound_home-Later =
    then_by (then_by now (provisions no_cometbft (some unbound_home)))
      (installs no_cometbft genesis (some unbound_home))

Later-Keeps_example : Keeps unbound_home (some bound_home)
Later-Keeps_example =
    Bound.Later-Keeps small_packages unbound_home (some bound_home) bound_home-Later
