-- ===== src/Runtime/Endpoint.antt =====
-- node/runtime/endpoint.py and peer_address.py.
use discovery_net.Base.{
  ℕ, Bool, false, not, ◌&&◌, ◌||◌, Option, none, some, ◌++◌, ◌==◌, leb, eqb, any, all, contains,
  nat_eq, is_some, length, if◌then◌else◌,
}
use discovery_net.Base.Parse.{lower, cut, is_digit}
use discovery_net.Base.Result.{
  Result, ok, err, value_error, require, reraise, is_value_error, ◌>>=◌, ◌>>◌,
}
use discovery_net.Base.Text.{Str, text_eq, codes, strip, is_empty, is_space, decimal}
use discovery_net.Runtime.External.{Packages, IpAddress}

pub record Endpoint : Type 0 where
  pub host : Str
  pub port : ℕ

pub record PeerAddress : Type 0 where
  pub node_id : Str
  pub endpoint : Endpoint

-- `not value or value != value.strip()`
unfoldable pub is_padded : Str → Bool
unfolding strip
is_padded value = is_empty value || not (strip value == value)

abbrev pub is_delimiter : ℕ → Bool
is_delimiter c = eqb c b'/' || eqb c b'@' || eqb c b'[' || eqb c b']'

abbrev pub is_hex_digit : ℕ → Bool
is_hex_digit c = is_digit c || (leb b'a' c && leb c b'f')

-- `__str__`
unfoldable pub str_endpoint : Endpoint → Str
unfolding decimal
str_endpoint e =
    (if contains b':' e.host then codes "[" ++ e.host ++ codes "]" else e.host)
    ++ codes ":"
    ++ decimal e.port

unfoldable pub tcp_url : Endpoint → Str
unfolding str_endpoint
tcp_url e = codes "tcp://" ++ str_endpoint e

unfoldable pub str_peer : PeerAddress → Str
unfolding str_endpoint
str_peer p = p.node_id ++ codes "@" ++ str_endpoint p.endpoint

module _ ⦃packages : Packages⦄ where
  abbrev pub is_version_6 : Option IpAddress → Bool
  is_version_6 none = false
  is_version_6 (some address) = eqb address.version 6

  -- `Endpoint(...)`
  unfoldable pub new_endpoint : Endpoint → Result Endpoint
  unfolding is_padded is_space
  new_endpoint e = do
    require (not (is_padded e.host)) value_error
    require (not (any is_space e.host)) value_error
    require (not (any is_delimiter e.host)) value_error
    require (not (contains b':' e.host) || is_version_6 (packages.ip_address e.host)) value_error
    require (leb 1 e.port && leb e.port 65535) value_error
    ok e

  abbrev pub is_unspecified_address : Option IpAddress → Bool
  is_unspecified_address none = false
  is_unspecified_address (some address) = address.is_unspecified

  unfoldable pub is_unspecified : Endpoint → Bool
  is_unspecified e = is_unspecified_address (packages.ip_address e.host)

  unfoldable pub endpoint_of : Option Str → Option ℕ → Result Endpoint
  unfolding new_endpoint
  endpoint_of (some host) (some port) = new_endpoint (record { host = host; port = port })
  endpoint_of _ _ = err value_error

  unfoldable pub parse_endpoint : Str → Result Endpoint
  unfolding is_padded endpoint_of
  parse_endpoint value = do
    require (not (is_padded value)) value_error
    parsed ← packages.url_split (codes "//" ++ value)
    require
        (not (is_some parsed.username)
          && not (is_some parsed.password)
          && is_empty parsed.path
          && is_empty parsed.query
          && is_empty parsed.fragment)
        value_error
    host ← reraise is_value_error value_error parsed.hostname
    port ← reraise is_value_error value_error parsed.port
    endpoint_of host port

  -- `PeerAddress(...)`: no letter outside ASCII has a hexadecimal digit as its lower case.
  unfoldable pub new_peer : PeerAddress → Result PeerAddress
  unfolding is_unspecified
  new_peer p = do
    require (eqb (length p.node_id) 40 && all is_hex_digit (lower p.node_id)) value_error
    require (not (is_unspecified p.endpoint)) value_error
    ok (record { node_id = lower p.node_id; endpoint = p.endpoint })

  -- The parts of `value.partition("@")`
  unfoldable pub peer_of : Option (Str × Str) → Result PeerAddress
  unfolding parse_endpoint new_peer
  peer_of none = err value_error
  peer_of (some (node_id, rest)) = do
    require (not (contains b'@' rest)) value_error
    endpoint ← parse_endpoint rest
    new_peer (record { node_id = node_id; endpoint = endpoint })

  unfoldable pub parse_peer : Str → Result PeerAddress
  unfolding cut peer_of
  parse_peer value = peer_of (cut b'@' value)
