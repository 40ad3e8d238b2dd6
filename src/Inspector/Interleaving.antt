-- ===== src/Inspector/Interleaving.antt =====
-- node/cometbft_callback_handler.py with a reader beside it, inspector/service.py: the callbacks,
-- restarts of the node, and synchronizations of the service, in any order.
use discovery_net.Base.{◌+◌, ◌≤◌, ◌≡◌, sym, ◌∙◌, subst, none, List, length}
use discovery_net.Base.Result.{ok, ok-injective}
use discovery_net.Base.Text.{Bytes}
use discovery_net.Wire.External.{External}
use discovery_net.Node.Validator.{TransactionValidator}
use discovery_net.Node.Ledger.{ArtifactLedgerEntry, max_int64, max_uint64}
use discovery_net.Node.Store.Saved.{snapshot_of}
use discovery_net.Node.Handler.{
  CometBftCallbackHandler, FinalizeBlockResult, new_handler, finalize_block, commit,
}
use discovery_net.Node.Handler.Consistent.{IsConsistent}
use discovery_net.Index.{new_index, refresh}
use discovery_net.Inspector.{InspectorService, synchronize}
use discovery_net.Inspector.Follows.{Follows, synchronize-Follows}
use discovery_net.Inspector.Steps.{
  AreSound, new_service, first_node, started-AreSound, stored-AreSound, executed-AreSound,
  restarted-AreSound,
}

-- The states of a node and of a service that reads its database, from their first start, by a
-- block executed at the next height, a commit, a crash of the node at any moment with a restart on
-- its database, and a synchronization of the service
pub data AreReached ⦃ext : External⦄ : CometBftCallbackHandler → InspectorService → Type 0 where
  started : (v : TransactionValidator) → AreReached (first_node v) new_service
  executed :
      (h h' : CometBftCallbackHandler) (s : InspectorService) (transactions : List Bytes)
      (r : FinalizeBlockResult)
      → AreReached h s
      → h.pending_block ≡ none
      → h.committed_height + 1 ≤ max_int64
      → length transactions ≤ max_uint64
      → finalize_block h (h.committed_height + 1) transactions ≡ ok (r, h')
      → AreReached h' s
  stored :
      (h h' : CometBftCallbackHandler) (s : InspectorService) (added : List ArtifactLedgerEntry)
      → AreReached h s
      → commit h ≡ ok (added, h')
      → AreReached h' s
  restarted :
      (h h' : CometBftCallbackHandler) (s : InspectorService)
      → AreReached h s
      → new_handler h.validator h.store ≡ ok h'
      → AreReached h' s
  synchronized :
      (h : CometBftCallbackHandler) (s t : InspectorService)
      → AreReached h s
      → synchronize s h.store h.validator.expected_chain_id ≡ ok t
      → AreReached h t

module _ ⦃ext : External⦄ where
  reached-AreSound :
      {h : CometBftCallbackHandler} {s : InspectorService} → AreReached h s → AreSound h s
  unfolding AreSound
  reached-AreSound (started v) = unfold AreSound in started-AreSound v
  reached-AreSound (executed h h' s transactions r before idle fits short ended) =
      executed-AreSound h h' s transactions r idle fits short ended (reached-AreSound before)
  reached-AreSound (stored h h' s added before done) =
      stored-AreSound h h' s added done (reached-AreSound before)
  reached-AreSound (restarted h h' s before again) =
      restarted-AreSound h h' s again (reached-AreSound before)
  reached-AreSound (synchronized h s t before done) =
      let (k, f) = reached-AreSound before in
      let (t', ended, _, f') = synchronize-Follows s h k f in
      (k, subst (λ t. Follows t h) (ok-injective (sym ended ∙ done)) f')

  -- In every state that a node and an inspector reach, by executed blocks, commits, crashes with a
  -- restart, and synchronizations in any order, the handler is consistent, and a synchronization on
  -- the chain of the node succeeds and leaves the index that a rebuild from the committed ledger
  -- gives.
  pub reached-IsConsistent :
      (h : CometBftCallbackHandler) (s : InspectorService)
      → AreReached h s
      → IsConsistent h
        × ((t : InspectorService) × (synchronize s h.store h.validator.expected_chain_id ≡ ok t)
            × (refresh new_index (snapshot_of h.committed_height h.committed_ledger.entries)
                ≡ ok t.index))
  unfolding AreSound
  reached-IsConsistent h s reached =
      let (k, f) = reached-AreSound reached in
      let (t, ended, rebuilt, _) = synchronize-Follows s h k f in (k, (t, ended, rebuilt))
