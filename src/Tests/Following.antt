-- ===== src/Tests/Following.antt =====
-- A service beside a node that executes and commits one block.
use discovery_net.Base.{◌≡◌, refl, none, some, [], ◌∷◌, arith, inl, contains, any, ◌==◌, drop}
use discovery_net.Base.Result.{ok}
use discovery_net.Node.Validator.{accepted}
use discovery_net.Node.Store.Rows.{nothing, holds, row_of}
use discovery_net.Node.Store.Saved.{snapshot_of, committed}
use discovery_net.Node.Handler.{
  CometBftCallbackHandler, FinalizeBlockResult, commit, finalize_block,
}
use discovery_net.Node.Handler.Consistent.{IsConsistent}
use discovery_net.Index.{new_index, refresh, artifacts}
use discovery_net.Inspector.{InspectorService, updates_after, synchronize}
use discovery_net.Inspector.Reading
use discovery_net.Inspector.Follows
use discovery_net.Inspector.Follows.{Follows}
use discovery_net.Inspector.Feed.{
  Position, position_eq, position_of, positions_before, next_position,
}
use discovery_net.Inspector.Feed.Positions
use discovery_net.Inspector.Feed.Positions.{IsDescending}
use discovery_net.Inspector.Feed.Paging
use discovery_net.Inspector.Steps.{new_service}
use discovery_net.Inspector.Interleaving
use discovery_net.Inspector.Interleaving.{AreReached, started, executed, stored}
use discovery_net.Tests.Samples.{toy, lemma_tx, demo_validator}
use discovery_net.Tests.Runs.{node_code, lemma_entry, lemma_ledger, new_node, pending_node}
use discovery_net.Tests.Witnesses.{lemma_entry-IsStorable, new_node-IsConsistent}
use discovery_net.Tests.GraphWitnesses.{graph_code, lemma_index}

abbrev lemma_result : FinalizeBlockResult
lemma_result = record { transaction_results = accepted ∷ []; state_hash = lemma_ledger.state_hash }

finalize_lemma : finalize_block new_node 1 (lemma_tx ∷ []) ≡ ok (lemma_result, pending_node)
unfolding node_code
finalize_lemma = refl

abbrev committed_node : CometBftCallbackHandler
committed_node = record {
  validator = demo_validator;
  store = record { committed_height = some 1; rows = row_of lemma_entry lemma_tx ∷ [] };
  committed_height = 1;
  committed_ledger = lemma_ledger;
  pending_block = none;
}

commit_lemma : commit pending_node ≡ ok (lemma_entry ∷ [], committed_node)
unfolding node_code
commit_lemma = refl

abbrev commit_reached : AreReached committed_node new_service
commit_reached =
    stored pending_node committed_node new_service (lemma_entry ∷ [])
      (executed new_node pending_node new_service (lemma_tx ∷ []) lemma_result
        (started demo_validator) refl (omega arith) (omega arith) finalize_lemma)
      commit_lemma

reached-IsConsistent_example :
    IsConsistent committed_node
    × ((t : InspectorService) × (synchronize new_service committed_node.store
            demo_validator.expected_chain_id
          ≡ ok t)
        × (refresh new_index (snapshot_of 1 lemma_ledger.entries) ≡ ok t.index))
reached-IsConsistent_example =
    Interleaving.reached-IsConsistent committed_node new_service commit_reached

new_service-Follows : Follows new_service new_node
unfolding graph_code
new_service-Follows = record {
  seen = [];
  unseen = [];
  committed = refl;
  reached = omega arith;
  old = tt;
  new = tt;
  built = refl;
  height = inl refl;
  chain = inl refl;
}

synchronize-Follows_example :
    (t : InspectorService) × (synchronize new_service new_node.store
        demo_validator.expected_chain_id
      ≡ ok t)
    × (refresh new_index (snapshot_of 0 new_node.committed_ledger.entries) ≡ ok t.index)
    × Follows t new_node
synchronize-Follows_example =
    Follows.synchronize-Follows new_service new_node new_node-IsConsistent new_service-Follows

updates_after-Persists_example :
    updates_after committed_node.store 0 ≡ ok (record { height = 1; entries = lemma_entry ∷ [] })
updates_after-Persists_example =
    Reading.updates_after-Persists committed_node.store 0 1 [] (lemma_entry ∷ [])
      (committed 1 (lemma_entry ∷ []) (row_of lemma_entry lemma_tx ∷ [])
        (holds lemma_entry lemma_tx lemma_entry-IsStorable nothing) (tt, tt) (omega arith, tt)
        (omega arith))
      tt (omega arith, tt)

positions_before-IsComplete_example :
    IsDescending (positions_before lemma_index none)
    × ((p : Position)
        → contains p (positions_before lemma_index none)
          ≡ any (λ x. position_of x == p) (artifacts lemma_index))
positions_before-IsComplete_example = Positions.positions_before-IsComplete lemma_index

positions_before-next_position_example :
    ((p : Position)
      → next_position 1 (positions_before lemma_index none) ≡ some p
      → positions_before lemma_index (some p) ≡ drop 1 (positions_before lemma_index none))
    × (next_position 1 (positions_before lemma_index none) ≡ none
        → drop 1 (positions_before lemma_index none) ≡ [])
positions_before-next_position_example =
    Paging.positions_before-next_position lemma_index none 1 (omega arith)
