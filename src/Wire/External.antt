-- ===== src/Wire/External.antt =====
-- What the program takes from other packages: SHA-256 of hashlib, CIDs of multiformats, Ed25519 of
-- cryptography, and the JSON parser of pydantic with the types of the model fields of
-- wire/codec.py. The validators that codec.py adds to these models are in `Codec`.
use discovery_net.Base.{ℕ, Bool, Option, List}
use discovery_net.Base.Text.{Str, Bytes}
use discovery_net.Graph.Kinds.{ContributionKind, RelationKind}
use discovery_net.Graph.Time.{Datetime}
use discovery_net.Wire.Envelope.{PayloadType}
use discovery_net.Wire.Json.{Fields}

pub record ContributionPayload : Type 0 where
  pub body : Str
  pub created_at : Datetime
  pub kind : ContributionKind
  pub title : Str

pub record RelationPayload : Type 0 where
  pub created_at : Datetime
  pub from_contribution : Str
  pub kind : RelationKind
  pub to_contribution : Str

pub record EnvelopePayload : Type 0 where
  pub chain_id : Str
  pub payload : Fields
  pub payload_type : PayloadType
  pub signature : Str
  pub signer_public_key : Str

pub record TransactionPayload : Type 0 where
  pub envelopes : List EnvelopePayload
  pub signature : Str

-- A decoded CID, with the text that `str` gives
pub record Cid : Type 0 where
  pub version : ℕ
  pub base : Str
  pub codec : Str
  pub hashfun : Str
  pub text : Str

-- `None` of a parser is its `ValidationError`, or the `KeyError` or `ValueError` of `CID.decode`.
pub record External : Type 0 where
  pub sha256 : Bytes → Bytes
  -- str(CID("base32", 1, "raw", multihash.digest(data, "sha2-256")))
  pub cid_of : Bytes → Str
  pub cid_decode : Str → Option Cid
  pub contribution_json : Bytes → Option ContributionPayload
  pub relation_json : Bytes → Option RelationPayload
  pub envelope_json : Bytes → Option EnvelopePayload
  pub transaction_json : Bytes → Option TransactionPayload
  -- a private key is its seed; the raw public key, a signature, and its verification
  pub public_bytes : Bytes → Bytes
  pub sign : Bytes → Bytes → Bytes
  pub verify : Bytes → Bytes → Bytes → Bool
