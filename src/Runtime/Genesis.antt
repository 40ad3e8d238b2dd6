-- ===== src/Runtime/Genesis.antt =====
-- node/runtime/genesis.py: the trust anchor and the genesis that it verifies.
use discovery_net.Base.{
  zero, suc, Bool, false, not, ◌&&◌, Option, none, some, List, [], ◌∷◌, ◌==◌, eqb, all, is_some,
  length, if◌then◌else◌,
}
use discovery_net.Base.Parse.{ℤ, pos, negsuc, lower, parse_int}
use discovery_net.Base.Result.{Result, ok, err, value_error, require, ◌>>=◌, ◌>>◌}
use discovery_net.Base.Text.{Str, Bytes, text_eq, is_blank, is_empty, hex}
use discovery_net.Runtime.External.{Packages, GenesisJson, HeightJson, absent, number, text, other}
use discovery_net.Runtime.Endpoint.{is_hex_digit}

pub record GenesisTrustAnchor : Type 0 where
  pub expected_chain_id : Str
  pub expected_sha256 : Str

-- `GenesisTrustAnchor(...)`: no letter outside ASCII has a hexadecimal digit as its lower case.
unfoldable pub new_anchor : GenesisTrustAnchor → Result GenesisTrustAnchor
new_anchor a = do
  require (not (is_blank a.expected_chain_id)) value_error
  require (eqb (length a.expected_sha256) 64 && all is_hex_digit (lower a.expected_sha256))
      value_error
  ok (record { expected_chain_id = a.expected_chain_id; expected_sha256 = lower a.expected_sha256 })

pub record GenesisDocument : Type 0 where
  pub chain_id : Str
  pub initial_height : ℤ
  pub has_app_state : Bool
  pub validators : List (Str × Str)

pub record VerifiedGenesis : Type 0 where
  pub content : Bytes
  pub document : GenesisDocument

-- `self.initial_height or 1`
unfoldable pub effective_initial_height : ℤ → ℤ
effective_initial_height (pos zero) = pos 1
effective_initial_height (pos (suc n)) = pos (suc n)
effective_initial_height (negsuc n) = negsuc n

abbrev pub is_one : ℤ → Bool
is_one (pos n) = eqb n 1
is_one (negsuc n) = false

module _ ⦃packages : Packages⦄ where
  abbrev pub digits_only : Str → Bool
  digits_only s = not (is_empty s) && all (λ c. is_some (packages.decimal_digit c)) s

  abbrev pub without_minus : Str → Str
  without_minus [] = []
  without_minus (c ∷ s) = if eqb c b'-' then s else c ∷ s

  -- `_parse_initial_height`
  unfoldable pub height_of : HeightJson → Option ℤ
  unfolding parse_int
  height_of absent = some (pos 0)
  height_of (number n) = some n
  height_of (text s) =
      if digits_only (without_minus s) then parse_int packages.decimal_digit s else none
  height_of other = none

  unfoldable pub document_of : GenesisJson → Option ℤ → Result GenesisDocument
  document_of json none = err value_error
  document_of json (some height) = do
    require (not (is_empty json.chain_id)) value_error
    ok (record {
      chain_id = json.chain_id;
      initial_height = height;
      has_app_state = json.has_app_state;
      validators = json.validators;
    })

  -- `_GenesisDocument.model_validate_json`; its `ValidationError` becomes a `ValueError`.
  unfoldable pub validate_document : Option GenesisJson → Result GenesisDocument
  unfolding document_of height_of
  validate_document none = err value_error
  validate_document (some json) = document_of json (height_of json.initial_height)

  unfoldable pub require_document : GenesisTrustAnchor → GenesisDocument → Result (Unit {0})
  unfolding effective_initial_height
  require_document anchor document = do
    require (document.chain_id == anchor.expected_chain_id) value_error
    require (is_one (effective_initial_height document.initial_height)) value_error
    require (not document.has_app_state) value_error

  -- `from_path`, on the bytes of the file; none is a file that could not be read.
  unfoldable pub from_path : GenesisTrustAnchor → Option Bytes → Result VerifiedGenesis
  unfolding validate_document require_document
  from_path anchor none = err value_error
  from_path anchor (some content) = do
    require (hex (packages.sha256 content) == anchor.expected_sha256) value_error
    document ← validate_document (packages.genesis_json content)
    require_document anchor document
    ok (record { content = content; document = document })
