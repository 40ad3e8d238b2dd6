-- ===== src/Node/Handler/Replayed.antt =====
-- node/_ledger_from_snapshot.py: what the replay of stored entries has checked of each of them.
use discovery_net.Base.{◌≡◌, sym, ◌∙◌, subst, List, All, arith}
use discovery_net.Base.Result.{ok, for_m, >>=-eq-ok, ok-injective}
use discovery_net.Base.Text.{Bytes}
use discovery_net.Wire.Envelope.{chain_id}
use discovery_net.Wire.External.{External}
use discovery_net.Node.Validator.{TransactionValidator, validate, accepted}
use discovery_net.Node.Validator.Accepted.{IsAcceptable, accepted_iff}
use discovery_net.Node.Ledger.{
  ArtifactLedgerEntry, LocalArtifactLedger, AppendOutcome, envelope_by_ref, append_transaction,
}
use discovery_net.Node.Store.{Row}
use discovery_net.Node.Store.Rows.{IsStorable, Holds, nothing, holds}
use discovery_net.Node.Recovery.{replay_entry}

module _ ⦃ext : External⦄ where
  replay_entry-eq-ok :
      (v : TransactionValidator) (ledger next : LocalArtifactLedger) (e : ArtifactLedgerEntry)
      (bytes : Bytes)
      → IsStorable e bytes
      → replay_entry v ledger e ≡ ok next
      → (validate v bytes (envelope_by_ref ledger) ≡ ok accepted)
        × (append_transaction ledger e ≡ ok (next, AppendOutcome.accepted))
  unfolding replay_entry
  replay_entry-eq-ok v ledger next e bytes stored h = let encoded = stored.encoded in ground arith

  pub replay_entry-IsAcceptable :
      (v : TransactionValidator) (ledger next : LocalArtifactLedger) (e : ArtifactLedgerEntry)
      (bytes : Bytes)
      → IsStorable e bytes
      → replay_entry v ledger e ≡ ok next
      → IsAcceptable v bytes (envelope_by_ref ledger) e.transaction
        × (append_transaction ledger e ≡ ok (next, AppendOutcome.accepted))
  replay_entry-IsAcceptable v ledger next e bytes stored h =
      let (valid, appended) = replay_entry-eq-ok v ledger next e bytes stored h in
      let (t, k) = (accepted_iff v bytes (envelope_by_ref ledger)).0 valid in
      (
        subst (IsAcceptable v bytes (envelope_by_ref ledger))
            (ok-injective (sym k.decodes ∙ stored.decoded)) k,
        appended,
      )

  -- Every replayed entry is for the chain of the validator.
  pub replay-on_chain :
      (v : TransactionValidator) (ledger last : LocalArtifactLedger) {es : List ArtifactLedgerEntry}
      {rows : List Row}
      → Holds es rows
      → for_m (replay_entry v) ledger es ≡ ok last
      → All (λ e. chain_id e.transaction ≡ v.expected_chain_id) es
  replay-on_chain v ledger last nothing h = tt
  replay-on_chain v ledger last (holds {es = es} e bytes stored held) h =
      let (next, first, rest) =
        >>=-eq-ok (replay_entry v ledger e) (λ l. for_m (replay_entry v) l es) h in
      let (k, _) = replay_entry-IsAcceptable v ledger next e bytes stored first in
      (k.on_chain, replay-on_chain v next last held rest)
