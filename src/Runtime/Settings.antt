-- ===== src/Runtime/Settings.antt =====
-- node/runtime/node_launch_settings.py and peer_admission_policy.py.
use discovery_net.Base.{Bool, true, not, Option, none, some, List, distinct, map}
use discovery_net.Base.Result.{Result, ok, value_error, require, ◌>>◌}
use discovery_net.Base.Text.{Str, text_eq, is_blank}
use discovery_net.Runtime.External.{Packages}
use discovery_net.Runtime.Endpoint.{Endpoint, PeerAddress, is_unspecified}

pub record PeerAdmissionPolicy : Type 0 where
  pub address_book_strict : Bool
  pub allow_duplicate_ip : Bool

-- The settings that go into the configuration
pub record NodeLaunchSettings : Type 0 where
  pub moniker : Str
  pub abci_endpoint : Endpoint
  pub rpc_listen_endpoint : Endpoint
  pub p2p_listen_endpoint : Endpoint
  pub p2p_advertised_endpoint : Option Endpoint
  pub persistent_peers : List PeerAddress
  pub peer_exchange : Bool
  pub peer_admission : PeerAdmissionPolicy
  pub create_empty_blocks : Bool
  pub log_level : Str

module _ ⦃packages : Packages⦄ where
  abbrev pub is_dialable : Option Endpoint → Bool
  is_dialable none = true
  is_dialable (some e) = not (is_unspecified e)

  -- `NodeLaunchSettings(...)`
  unfoldable pub new_settings : NodeLaunchSettings → Result NodeLaunchSettings
  new_settings s = do
    require (not (is_blank s.moniker)) value_error
    require (not (is_unspecified s.abci_endpoint)) value_error
    require (is_dialable s.p2p_advertised_endpoint) value_error
    require (distinct (map (λ p. p.node_id) s.persistent_peers)) value_error
    require (not (is_blank s.log_level)) value_error
    ok s
