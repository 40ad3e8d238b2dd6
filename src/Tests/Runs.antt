-- ===== src/Tests/Runs.antt =====
-- Runs of the code on the samples.
use discovery_net.Base.{◌≡◌, refl, none, some, [], ◌∷◌, ℕ}
use discovery_net.Base.Result.{ok, err, Result}
use discovery_net.Base.Text
use discovery_net.Graph.Time
use discovery_net.Graph.Models
use discovery_net.Graph.Kinds
use discovery_net.Wire.Envelope
use discovery_net.Wire.Limits
use discovery_net.Wire.Json
use discovery_net.Wire.Payload
use discovery_net.Wire.Codec
use discovery_net.Wire.Signing
use discovery_net.Wire.Codec.{decode_transaction}
use discovery_net.Node.Validator.{validate, accepted, duplicate}
use discovery_net.Node.Validator
use discovery_net.Node.Validator.{Lookup}
use discovery_net.Node.Ledger
use discovery_net.Node.Ledger.{
  AppendOutcome, ArtifactLedgerEntry, LocalArtifactLedger, empty_ledger, append_transaction,
}
use discovery_net.Node.Equality
use discovery_net.Node.Recovery
use discovery_net.Node.Store
use discovery_net.Node.Store.{Database}
use discovery_net.Node.Handler
use discovery_net.Node.Handler.{CometBftCallbackHandler, PendingBlock, finalize_block, commit}
use discovery_net.Tests.Samples.{toy, lemma_tx, lemma_signed, demo_validator, checksum}

-- All that a run goes through
unfoldable pub wire_code : ℕ
unfolding Text.is_space Text.lstrip Text.strip Text.is_blank Text.replace Text.hex_digit Text.hex
    Text.hex_value Text.from_hex Text.utf8_char Text.utf8 Text.padded Time.is_aware Time.isoformat
    Time.encode_datetime Time.astimezone_utc Kinds.contribution_kind_value Kinds.relation_kind_value
    Models.require_non_blank Models.require_aware Models.new_contribution Models.new_relation
    Envelope.new_envelope Envelope.new_transaction Limits.exceeds_encoded_size
    Limits.exceeds_artifact_count Json.canonical_json Payload.is_canonical_cid
    Payload.contribution_value Payload.relation_value Payload.contribution_model
    Payload.parse_artifact_ref Payload.relation_model Payload.encode_payload
    Payload.validate_contribution_json Payload.validate_relation_json Payload.parse_contribution
    Payload.parse_relation Payload.parse_payload Payload.decode_payload Codec.is_lower_hex
    Codec.envelope_model Codec.transaction_model Codec.payload_value Codec.envelope_fields
    Codec.envelope_value Codec.encode_signing_payload Codec.encode_envelope Codec.transaction_value
    Codec.encode_transaction_signing_payload Codec.encode_transaction Codec.envelope_from_model
    Codec.parse_envelope Codec.decode_envelope Codec.parse_transaction Codec.decode_transaction
    Codec.artifact_ref Signing.signature_message Signing.transaction_signature_message
    Signing.check_envelope Signing.verify_envelope Signing.verify_envelopes
    Signing.check_transaction Signing.verify_transaction checksum
wire_code = 0

unfoldable pub node_code : ℕ
unfolding wire_code Text.to_bytes Text.from_bytes Validator.decode_artifact
    Validator.included_contributions Validator.resolves Validator.relation_resolves
    Validator.all_resolve Validator.validate_references Validator.validate_signed Validator.validate
    Ledger.new_entry Ledger.position_le Ledger.last_entry Ledger.precedes Ledger.envelope_by_ref
    Ledger.advance_state_hash Ledger.empty_ledger Ledger.record_envelope Ledger.record_entry
    Ledger.new_ledger Ledger.add_envelope Ledger.append_new Ledger.append_transaction
    Equality.envelope_beq Equality.entry_beq Equality.PayloadType-discrete Recovery.replay_entry
    Recovery.ledger_from_snapshot Store.new_snapshot Store.new_stored_entry Store.blob_lt
    Store.row_lt Store.insert_row Store.order_by_position Store.stored_entry_of_row
    Store.select_entries Store.insertable Store.insert_entry Store.insert_entries Store.new_entries
    Store.stored_entry Store.ledger_entry Store.read_entries Store.read_snapshot Store.save
    Handler.execute_accepted Handler.execute_transaction Handler.execute_block
    Handler.finalize_block Handler.commit Handler.new_handler
node_code = 0

pub decode_lemma_tx : decode_transaction lemma_tx ≡ ok lemma_signed
unfolding wire_code
decode_lemma_tx = refl

abbrev pub no_artifacts : Lookup
no_artifacts r = none

pub validate-lemma_tx : validate demo_validator lemma_tx no_artifacts ≡ ok accepted
unfolding node_code
validate-lemma_tx = refl

abbrev pub lemma_entry : ArtifactLedgerEntry
lemma_entry = record { transaction = lemma_signed; height = 1; transaction_index = 0 }

abbrev pub ledger_or_empty : Result (LocalArtifactLedger × AppendOutcome) → LocalArtifactLedger
ledger_or_empty (ok (l, o)) = l
ledger_or_empty (err e) = empty_ledger

abbrev pub lemma_ledger : LocalArtifactLedger
lemma_ledger = ledger_or_empty (append_transaction empty_ledger lemma_entry)

abbrev pub empty_store : Database
empty_store = record { committed_height = none; rows = [] }

-- A node before its first block, one that has finalized the block of `lemma_tx`, and one that has
-- committed it
abbrev pub new_node : CometBftCallbackHandler
new_node = record {
  validator = demo_validator;
  store = empty_store;
  committed_height = 0;
  committed_ledger = empty_ledger;
  pending_block = none;
}

abbrev pub lemma_block : PendingBlock
lemma_block = record { height = 1; ledger = lemma_ledger; new_entries = lemma_entry ∷ [] }

abbrev pub pending_node : CometBftCallbackHandler
pending_node = record new_node { pending_block = some lemma_block }

finalize_lemma_tx :
    finalize_block new_node 1 (lemma_tx ∷ lemma_tx ∷ [])
    ≡ ok (
      record {
        transaction_results = accepted ∷ duplicate ∷ [];
        state_hash = lemma_ledger.state_hash;
      },
      pending_node,
    )
unfolding node_code
finalize_lemma_tx = refl
