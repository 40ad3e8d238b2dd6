-- ===== src/Runtime/Config.antt =====
-- node/runtime/_cometbft_config.py: the keys that Discovery Net owns, applied and verified.
pub mod Tables
pub mod Applied
use discovery_net.Base.{
  ℕ, Bool, true, false, not, ◌&&◌, ◌||◌, ◌↔◌, ◌≡◌, refl, Option, none, some, List, [], ◌∷◌, ◌++◌,
  ◌==◌, Eq, ==_iff, list_beq, all, map, eqb, arith, if◌then◌else◌,
}
use discovery_net.Base.Dict.{Dict, lookup, insert}
use discovery_net.Base.Parse.{ℤ, pos, negsuc, join}
use discovery_net.Base.Result.{Result, ok, err, value_error, require, ◌>>=◌, ◌>>◌}
use discovery_net.Base.Text.{Str, Bytes, text_eq, codes}
use discovery_net.Runtime.External.{
  Packages, Toml, TomlDocument, string, boolean, strings, number, another,
}
use discovery_net.Runtime.Endpoint.{Endpoint, str_endpoint, tcp_url, str_peer}
use discovery_net.Runtime.Settings.{NodeLaunchSettings}

abbrev bool_beq : Bool → Bool → Bool
bool_beq true b = b
bool_beq false b = not b

abbrev int_beq : ℤ → ℤ → Bool
int_beq (pos m) (pos n) = eqb m n
int_beq (negsuc m) (negsuc n) = eqb m n
int_beq _ _ = false

-- `True == 1` and `False == 0`
abbrev int_of : Bool → ℤ
int_of true = pos 1
int_of false = pos 0

-- `==` of Python
abbrev pub toml_beq : Toml → Toml → Bool
toml_beq (string s) (string t) = s == t
toml_beq (boolean a) (boolean b) = bool_beq a b
toml_beq (boolean a) (number n) = int_beq (int_of a) n
toml_beq (number m) (boolean b) = int_beq m (int_of b)
toml_beq (number m) (number n) = int_beq m n
toml_beq (strings xs) (strings ys) = list_beq xs ys
toml_beq (another s) (another t) = s == t
toml_beq _ _ = false

-- `str(...)` or an empty text
unfoldable pub external_address : Option Endpoint → Str
external_address none = []
external_address (some e) = str_endpoint e

-- The values that `_require_settings` looks for in each section
unfoldable pub base_values : NodeLaunchSettings → Dict Str Toml
base_values s =
    (codes "moniker", string s.moniker)
    ∷ (codes "proxy_app", string (str_endpoint s.abci_endpoint))
    ∷ (codes "abci", string (codes "grpc"))
    ∷ (codes "log_level", string s.log_level)
    ∷ []

unfoldable pub rpc_values : NodeLaunchSettings → Dict Str Toml
rpc_values s =
    (codes "laddr", string (tcp_url s.rpc_listen_endpoint))
    ∷ (codes "unsafe", boolean false)
    ∷ (codes "cors_allowed_origins", strings [])
    ∷ (codes "grpc_laddr", string [])
    ∷ (codes "pprof_laddr", string [])
    ∷ []

unfoldable pub p2p_values : NodeLaunchSettings → Dict Str Toml
unfolding external_address
p2p_values s =
    (codes "laddr", string (tcp_url s.p2p_listen_endpoint))
    ∷ (codes "external_address", string (external_address s.p2p_advertised_endpoint))
    ∷ (codes "persistent_peers", string (join (codes ",") (map str_peer s.persistent_peers)))
    ∷ (codes "pex", boolean s.peer_exchange)
    ∷ (codes "addr_book_strict", boolean s.peer_admission.address_book_strict)
    ∷ (codes "allow_duplicate_ip", boolean s.peer_admission.allow_duplicate_ip)
    ∷ []

unfoldable pub consensus_values : NodeLaunchSettings → Dict Str Toml
consensus_values s = (codes "create_empty_blocks", boolean s.create_empty_blocks) ∷ []

-- `table[key] = value` for each of the values
unfoldable pub set_values : Dict Str Toml → Dict Str Toml → Dict Str Toml
set_values [] table = table
set_values ((key, value) ∷ values) table = set_values values (insert key value table)

abbrev pub has_value : Toml → Option Toml → Bool
has_value expected none = false
has_value expected (some actual) = toml_beq actual expected

-- `_require_values`
unfoldable pub require_values : Dict Str Toml → Dict Str Toml → Result (Unit {0})
require_values actual [] = ok tt
require_values actual ((key, expected) ∷ values) =
    require (has_value expected (lookup key actual)) value_error >> require_values actual values

-- `_table` and `_mutable_table`
unfoldable pub table_of : Str → TomlDocument → Result (Dict Str Toml)
table_of name document = elim (lookup name document.tables) [
  | none ↦ err value_error
  | some table ↦ ok table
]

unfoldable pub set_table : Str → Dict Str Toml → TomlDocument → Result TomlDocument
unfolding table_of set_values
set_table name values document = do
  table ← table_of name document
  ok (record document { tables = insert name (set_values values table) document.tables })

unfoldable pub require_table : Str → Dict Str Toml → TomlDocument → Result (Unit {0})
unfolding table_of require_values
require_table name values document = do table ← table_of name document; require_values table values

-- `_require_settings`
unfoldable pub require_settings : NodeLaunchSettings → TomlDocument → Result (Unit {0})
unfolding base_values rpc_values p2p_values consensus_values require_values require_table
require_settings s document = do
  require_values document.base (base_values s)
  require_table (codes "rpc") (rpc_values s) document
  require_table (codes "p2p") (p2p_values s) document
  require_table (codes "consensus") (consensus_values s) document

-- The assignments to the document and to each of its tables, in their order
unfoldable pub base_settings : NodeLaunchSettings → Dict Str Toml
base_settings s =
    (codes "moniker", string s.moniker)
    ∷ (codes "proxy_app", string (str_endpoint s.abci_endpoint))
    ∷ (codes "abci", string (codes "grpc"))
    ∷ (codes "log_level", string s.log_level)
    ∷ []

unfoldable pub rpc_settings : NodeLaunchSettings → Dict Str Toml
rpc_settings s =
    (codes "laddr", string (tcp_url s.rpc_listen_endpoint))
    ∷ (codes "unsafe", boolean false)
    ∷ (codes "cors_allowed_origins", strings [])
    ∷ (codes "grpc_laddr", string [])
    ∷ (codes "pprof_laddr", string [])
    ∷ []

unfoldable pub p2p_settings : NodeLaunchSettings → Dict Str Toml
unfolding external_address
p2p_settings s =
    (codes "laddr", string (tcp_url s.p2p_listen_endpoint))
    ∷ (codes "external_address", string (external_address s.p2p_advertised_endpoint))
    ∷ (codes "persistent_peers", string (join (codes ",") (map str_peer s.persistent_peers)))
    ∷ (codes "pex", boolean s.peer_exchange)
    ∷ (codes "addr_book_strict", boolean s.peer_admission.address_book_strict)
    ∷ (codes "allow_duplicate_ip", boolean s.peer_admission.allow_duplicate_ip)
    ∷ []

unfoldable pub consensus_settings : NodeLaunchSettings → Dict Str Toml
consensus_settings s = (codes "create_empty_blocks", boolean s.create_empty_blocks) ∷ []

-- The document with the settings
unfoldable pub apply_settings : NodeLaunchSettings → TomlDocument → Result TomlDocument
unfolding base_settings rpc_settings p2p_settings consensus_settings set_values set_table
apply_settings s document = do
  with_rpc ←
      set_table (codes "rpc") (rpc_settings s)
        (record document { base = set_values (base_settings s) document.base })
  with_p2p ← set_table (codes "p2p") (p2p_settings s) with_rpc
  set_table (codes "consensus") (consensus_settings s) with_p2p

module _ ⦃packages : Packages⦄ where
  abbrev pub parsed : Option TomlDocument → Result TomlDocument
  parsed none = err value_error
  parsed (some document) = ok document

  -- The document of `tomllib.loads`
  abbrev pub read_toml : Bytes → Result TomlDocument
  read_toml content = parsed (packages.toml_loads content)

  -- `verify`
  unfoldable pub verify : NodeLaunchSettings → Bytes → Result (Unit {0})
  unfolding require_settings
  verify s content = read_toml content >>= require_settings s

  -- What `apply_and_verify` puts in place of the file; before, nothing is written.
  unfoldable pub rendered : NodeLaunchSettings → Bytes → Result Bytes
  unfolding apply_settings require_settings
  rendered s content = do
    document ← parsed (packages.toml_parse content)
    applied ← apply_settings s document
    again ← read_toml (packages.toml_dumps applied)
    require_settings s again
    ok (packages.toml_dumps applied)

  unfoldable pub written : NodeLaunchSettings → Bytes → Result Bytes → Result (Unit {0}) × Bytes
  unfolding verify
  written s content (err e) = (err e, content)
  written s content (ok new) = (verify s new, new)

  unfoldable pub apply_and_verify : NodeLaunchSettings → Bytes → Result (Unit {0}) × Bytes
  unfolding rendered written
  apply_and_verify s content = written s content (rendered s content)
