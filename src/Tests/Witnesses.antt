-- ===== src/Tests/Witnesses.antt =====
-- An instance of each theorem of the header, on the samples.
use discovery_net.Base.{◌≡◌, ◌↔◌, refl, none, some, [], ◌∷◌, arith}
use discovery_net.Base.Result.{ok}
use discovery_net.Wire.Codec.Canonical
use discovery_net.Wire.Envelope.{SignedTransaction}
use discovery_net.Node.Validator.{validate, accepted}
use discovery_net.Node.Validator.Accepted
use discovery_net.Node.Validator.Accepted.{IsAcceptable}
use discovery_net.Node.Ledger.{AppendOutcome, new_ledger, empty_ledger, append_transaction}
use discovery_net.Node.Ledger.Refinement
use discovery_net.Node.Store.{Database, save, read_snapshot}
use discovery_net.Node.Store.Rows.{IsStorable, nothing, holds, row_of}
use discovery_net.Node.Store.Saved
use discovery_net.Node.Store.Saved.{Persists, fresh, committed, snapshot_of}
use discovery_net.Node.Handler.{CometBftCallbackHandler, finalize_block, commit, new_handler}
use discovery_net.Node.Handler.Consistent
use discovery_net.Node.Handler.Consistent.{IsConsistent, PendingKeeps, FinalizeEnds}
use discovery_net.Node.Handler.Restart
use discovery_net.Tests.Samples.{toy, lemma_tx, lemma_signed, demo_validator}
use discovery_net.Tests.Runs.{
  node_code, decode_lemma_tx, no_artifacts, lemma_entry, lemma_ledger, empty_store, new_node,
  lemma_block, pending_node,
}

pub lemma_entry-IsStorable : IsStorable lemma_entry lemma_tx
unfolding node_code
lemma_entry-IsStorable = record {
  positive = omega arith;
  height_fits = omega arith;
  index_fits = omega arith;
  encoded = refl;
  decoded = refl;
}

pub new_node-IsConsistent : IsConsistent new_node
unfolding empty_ledger
new_node-IsConsistent = record {
  persists = fresh;
  replayed = refl;
  increasing = tt;
  bounded = tt;
  pending = tt;
}

pub pending_node-IsConsistent : IsConsistent pending_node
unfolding node_code
pending_node-IsConsistent = record {
  persists = fresh;
  replayed = refl;
  increasing = tt;
  bounded = tt;
  pending = record {
    follows = refl;
    fits = omega arith;
    replayed = refl;
    grown = refl;
    rows = row_of lemma_entry lemma_tx ∷ [];
    held = holds lemma_entry lemma_tx lemma_entry-IsStorable nothing;
    increasing = (tt, tt);
    here = (refl, tt);
  };
}

finalize_block_ends_example : FinalizeEnds new_node (finalize_block new_node 1 (lemma_tx ∷ []))
finalize_block_ends_example =
    Consistent.finalize_block_ends new_node (lemma_tx ∷ []) new_node-IsConsistent refl (omega arith)
      (omega arith)

commit-IsConsistent_example :
    (h' : CometBftCallbackHandler) × (commit pending_node ≡ ok (lemma_entry ∷ [], h'))
    × IsConsistent h'
    × (h'.committed_height ≡ 1)
    × (h'.committed_ledger ≡ lemma_ledger)
    × (h'.pending_block ≡ none)
    × (read_snapshot h'.store ≡ ok (some (snapshot_of 1 lemma_ledger.entries)))
commit-IsConsistent_example =
    Restart.commit-IsConsistent pending_node lemma_block pending_node-IsConsistent refl

restart-IsConsistent_example : new_handler demo_validator empty_store ≡ ok new_node
restart-IsConsistent_example = Restart.restart-IsConsistent pending_node pending_node-IsConsistent

accepted_iff_example :
    (validate demo_validator lemma_tx no_artifacts ≡ ok accepted)
    ↔ ((t : SignedTransaction) × IsAcceptable demo_validator lemma_tx no_artifacts t)
accepted_iff_example = Accepted.accepted_iff demo_validator lemma_tx no_artifacts

append_transaction-new_ledger_example :
    (append_transaction empty_ledger lemma_entry ≡ ok (lemma_ledger, AppendOutcome.accepted))
    ↔ (new_ledger (lemma_entry ∷ []) ≡ ok lemma_ledger)
unfolding new_ledger
append_transaction-new_ledger_example =
    Refinement.append_transaction-new_ledger [] empty_ledger lemma_ledger lemma_entry refl

save-Persists_example :
    (db : Database) × (save empty_store (snapshot_of 1 (lemma_entry ∷ [])) ≡ ok db)
    × Persists 1 (lemma_entry ∷ []) db
    × (read_snapshot db ≡ ok (some (snapshot_of 1 (lemma_entry ∷ []))))
save-Persists_example =
    Saved.save-Persists 0 1 [] (lemma_entry ∷ []) empty_store (row_of lemma_entry lemma_tx ∷ [])
      fresh (holds lemma_entry lemma_tx lemma_entry-IsStorable nothing) (tt, tt) (omega arith)
      (omega arith) (omega arith, tt) (omega arith, tt)

decode_transaction-injective_example : lemma_tx ≡ lemma_tx
decode_transaction-injective_example =
    Canonical.decode_transaction-injective lemma_tx lemma_tx lemma_signed decode_lemma_tx
      decode_lemma_tx
