-- ===== src/Runtime/Validators.antt =====
-- node/runtime/genesis_validator.py, _validator_identity_files.py and cometbft_genesis_writer.py:
-- the public descriptor of a validator, its private files, and the inputs of a new genesis.
use discovery_net.Base.{
  ℕ, ◌+◌, Bool, false, not, ◌&&◌, ◌||◌, Option, none, some, List, [], ◌∷◌, ◌==◌, leb, eqb, all,
  distinct, length, map, take, drop, if◌then◌else◌,
}
use discovery_net.Base.Parse.{ℤ, pos, negsuc, parse_int, is_digit}
use discovery_net.Base.Result.{Result, ok, err, value_error, require, ◌>>=◌, ◌>>◌}
use discovery_net.Base.Text.{Str, Bytes, text_eq, codes, is_blank, hex}
use discovery_net.Graph.Time.{Datetime, is_aware}
use discovery_net.Submission.{upper}
use discovery_net.Runtime.External.{Packages, KeyJson, StateJson, HeightJson, number, text}
use discovery_net.Runtime.Genesis.{digits_only}

pub record GenesisValidator : Type 0 where
  pub name : Str
  pub public_key : Bytes
  pub voting_power : ℕ

-- ((1 << 63) - 1) // 8, and the other limits of _cometbft_limits.py
abbrev pub max_total_voting_power : ℕ
max_total_voting_power = 1152921504606846975

abbrev pub max_chain_id_characters : ℕ
max_chain_id_characters = 50

abbrev pub max_validators : ℕ
max_validators = 10000

-- `GenesisValidator(...)` with a key of bytes
unfoldable pub new_validator_descriptor : GenesisValidator → Result GenesisValidator
new_validator_descriptor v = do
  require (not (is_blank v.name)) value_error
  require (eqb (length v.public_key) 32) value_error
  require (leb 1 v.voting_power && leb v.voting_power max_total_voting_power) value_error
  ok v

abbrev pub public_key_type : Str
public_key_type = codes "tendermint/PubKeyEd25519"

abbrev pub private_key_type : Str
private_key_type = codes "tendermint/PrivKeyEd25519"

abbrev pub is_upper_hex : ℕ → Bool
is_upper_hex c = is_digit c || (leb b'A' c && leb c b'F')

-- `_PrivateValidatorKey`
unfoldable pub is_key : KeyJson → Bool
is_key key =
    eqb (length key.address) 40
    && all is_upper_hex key.address
    && (key.public_type == public_key_type)
    && (key.private_type == private_key_type)

abbrev pub is_zero : ℤ → Bool
is_zero (pos n) = eqb n 0
is_zero (negsuc n) = false

-- The files of an identity: whether the directory is a real one, and the two private files
pub record IdentityFiles : Type 0 where
  pub is_real : Bool
  pub key : Option Bytes
  pub state : Option Bytes

abbrev pub some_or_error : {A : Type 0} → Option A → Result A
some_or_error none = err value_error
some_or_error (some a) = ok a

module _ ⦃packages : Packages⦄ where
  -- The address of CometBFT
  unfoldable pub address : Bytes → Str
  unfolding hex
  address public_key = upper (hex (take 20 (packages.sha256 public_key)))

  unfoldable pub state_height : HeightJson → Option ℤ
  unfolding parse_int
  state_height (number n) = some n
  state_height (text s) = if digits_only s then parse_int packages.decimal_digit s else none
  state_height _ = none

  abbrev pub is_zero_height : Option ℤ → Bool
  is_zero_height none = false
  is_zero_height (some n) = is_zero n

  -- `_PrivateValidatorState`: nothing has been signed.
  unfoldable pub is_pristine : StateJson → Bool
  unfolding state_height
  is_pristine state =
      is_zero_height (state_height state.height)
      && is_zero state.round
      && is_zero state.step
      && not state.is_signed

  unfoldable pub decode_key : Str → ℕ → Result Bytes
  decode_key value expected_length = do
    decoded ← some_or_error (packages.b64decode value)
    require (eqb (length decoded) expected_length) value_error
    ok decoded

  -- `from_identity`, which returns the public key
  unfoldable pub from_identity : IdentityFiles → Result Bytes
  unfolding is_key is_pristine decode_key address
  from_identity files = do
    require files.is_real value_error
    key_content ← some_or_error files.key
    state_content ← some_or_error files.state
    key ← some_or_error (packages.key_json key_content)
    require (is_key key) value_error
    state ← some_or_error (packages.state_json state_content)
    require (is_pristine state) value_error
    public_key ← decode_key key.public_value 32
    private_key ← decode_key key.private_value 64
    require
        ((drop 32 private_key == public_key)
          && (packages.public_bytes (take 32 private_key) == public_key))
        value_error
    require (key.address == address public_key) value_error
    ok public_key

abbrev pub total_power : List GenesisValidator → ℕ
total_power [] = 0
total_power (v ∷ validators) = v.voting_power + total_power validators

-- `_validate_inputs` of a genesis to be written
unfoldable pub validate_inputs : Str → Datetime → List GenesisValidator → Result (Unit {0})
unfolding is_aware
validate_inputs chain_id genesis_time validators = do
  require (not (is_blank chain_id)) value_error
  require (leb (length chain_id) max_chain_id_characters) value_error
  require (is_aware genesis_time) value_error
  require (leb 1 (length validators)) value_error
  require (leb (length validators) max_validators) value_error
  require (leb (total_power validators) max_total_voting_power) value_error
  require (distinct (map (λ v. v.public_key) validators)) value_error
  require (distinct (map (λ v. v.name) validators)) value_error
