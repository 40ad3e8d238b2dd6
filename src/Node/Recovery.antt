-- ===== src/Node/Recovery.antt =====
-- node/_ledger_from_snapshot.py: the ledger is rebuilt, and validated again, from a snapshot.
use discovery_net.Base.{Bool, true, false}
use discovery_net.Base.Result.{Result, ok, value_error, require, reraise, for_m, ◌>>=◌, ◌>>◌}
use discovery_net.Wire.External.{External}
use discovery_net.Wire.Payload.{is_type_or_value_error}
use discovery_net.Wire.Codec.{encode_transaction}
use discovery_net.Node.Validator.{TransactionCode, TransactionValidator, validate}
use discovery_net.Node.Ledger.{
  AppendOutcome, ArtifactLedgerEntry, LocalArtifactLedger, empty_ledger, envelope_by_ref,
  append_transaction,
}
use discovery_net.Node.Store.{ArtifactLedgerSnapshot}

-- `code is not TransactionCode.ACCEPTED` and `outcome is not AppendOutcome.ACCEPTED`
abbrev pub is_accepted : TransactionCode → Bool
is_accepted TransactionCode.accepted = true
is_accepted _ = false

abbrev pub is_appended : AppendOutcome → Bool
is_appended AppendOutcome.accepted = true
is_appended AppendOutcome.duplicate = false

module _ ⦃ext : External⦄ where
  -- One round of the loop
  unfoldable pub replay_entry :
      TransactionValidator → LocalArtifactLedger → ArtifactLedgerEntry → Result LocalArtifactLedger
  replay_entry v ledger e = do
    transaction ← reraise is_type_or_value_error value_error (encode_transaction e.transaction)
    code ← validate v transaction (envelope_by_ref ledger)
    require (is_accepted code) value_error
    (next, outcome) ← append_transaction ledger e
    require (is_appended outcome) value_error
    ok next

  unfoldable pub ledger_from_snapshot :
      ArtifactLedgerSnapshot → TransactionValidator → Result LocalArtifactLedger
  ledger_from_snapshot snapshot v = for_m (replay_entry v) empty_ledger snapshot.entries
