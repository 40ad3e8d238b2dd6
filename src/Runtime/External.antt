-- ===== src/Runtime/External.antt =====
-- What node/runtime/ takes from the standard library's parsers and from other packages.
use discovery_net.Base.{ℕ, Bool, Option, List}
use discovery_net.Base.Dict.{Dict}
use discovery_net.Base.Parse.{ℤ}
use discovery_net.Base.Result.{Result}
use discovery_net.Base.Text.{Str, Bytes}

-- `ipaddress.ip_address`
pub record IpAddress : Type 0 where
  pub version : ℕ
  pub is_unspecified : Bool

-- `urlsplit`; its host and its port are read when the code asks for them, and may raise.
pub record Authority : Type 0 where
  pub username : Option Str
  pub password : Option Str
  pub path : Str
  pub query : Str
  pub fragment : Str
  pub hostname : Result (Option Str)
  pub port : Result (Option ℕ)

-- `initial_height` of a JSON document
pub data HeightJson : Type 0 where
  absent : HeightJson
  number : ℤ → HeightJson
  text : Str → HeightJson
  other : HeightJson

-- The fields that the code reads of a genesis document; the validators are their public keys.
pub record GenesisJson : Type 0 where
  pub chain_id : Str
  pub initial_height : HeightJson
  pub has_app_state : Bool
  pub validators : List (Str × Str)

pub record KeyJson : Type 0 where
  pub address : Str
  pub public_type : Str
  pub public_value : Str
  pub private_type : Str
  pub private_value : Str

pub record StateJson : Type 0 where
  pub height : HeightJson
  pub round : ℤ
  pub step : ℤ
  pub is_signed : Bool

-- A value of a TOML document, and a document by its plain keys and its tables; a number is one that
-- is equal to an integer.
pub data Toml : Type 0 where
  string : Str → Toml
  boolean : Bool → Toml
  strings : List Str → Toml
  number : ℤ → Toml
  another : Str → Toml

pub record TomlDocument : Type 0 where
  pub base : Dict Str Toml
  pub tables : Dict Str (Dict Str Toml)

-- None of a parser is the error that the code catches; a private key is its 32 bytes.
pub record Packages : Type 0 where
  pub ip_address : Str → Option IpAddress
  pub url_split : Str → Result Authority
  pub sha256 : Bytes → Bytes
  pub genesis_json : Bytes → Option GenesisJson
  pub key_json : Bytes → Option KeyJson
  -- `json.loads`, and the type and the value of `pub_key` of what it returns
  pub public_key_json : Bytes → Option (Str × Str)
  pub state_json : Bytes → Option StateJson
  pub b64decode : Str → Option Bytes
  pub b64encode : Bytes → Str
  pub public_bytes : Bytes → Bytes
  -- `tomllib.loads`, and `tomlkit.parse` with `tomlkit.dumps`
  pub toml_loads : Bytes → Option TomlDocument
  pub toml_parse : Bytes → Option TomlDocument
  pub toml_dumps : TomlDocument → Bytes
  -- the value of a decimal digit of Unicode
  pub decimal_digit : ℕ → Option ℕ
