-- ===== src/Inspector/Follows.antt =====
-- inspector/service.py: the index of the service follows the ledger of a node.
use discovery_net.Base.{
  ℕ, ◌≤◌, ◌<◌, ◌&&◌, ◌≡◌, refl, sym, ap, ◌∙◌, subst, some, List, [], ◌∷◌, ◌++◌, append-nil, All,
  arith, inl, inr, Bool-cases,
}
use discovery_net.Base.Result.{ok}
use discovery_net.Base.Text.{text_eq, is_empty}
use discovery_net.Wire.Envelope.{chain_id}
use discovery_net.Wire.External.{External}
use discovery_net.Node.Ledger.{ArtifactLedgerEntry, empty_ledger}
use discovery_net.Node.Store.{ArtifactLedgerSnapshot}
use discovery_net.Node.Store.Saved.{Persists, snapshot_of, Persists-rows}
use discovery_net.Node.Handler.{CometBftCallbackHandler}
use discovery_net.Node.Handler.Consistent.{IsConsistent}
use discovery_net.Node.Handler.Replayed.{replay-on_chain}
use discovery_net.Index.{GraphState, new_index, refresh, append}
use discovery_net.Index.Rebuild.{AreWithin, append-refresh}
use discovery_net.Index.Committed.{refresh-IsConsistent}
use discovery_net.Inspector.{
  InspectorService, is_at, or_else, updates_after, advance_index, synchronize,
}
use discovery_net.Inspector.Reading.{updates_after-Persists, All-after}
use discovery_net.Inspector.Advance.{
  HeightAgrees, ChainAgrees, chain_of, chain_of-agrees, take_update-lem, unset_or, or_else-agrees,
  not_behind, at_rest,
}

-- The index of the service is that of a committed snapshot that the node had at some height.
pub record Follows ⦃ext : External⦄ (s : InspectorService) (h : CometBftCallbackHandler)
    : Type 0 where
  pub seen : List ArtifactLedgerEntry
  pub unseen : List ArtifactLedgerEntry
  pub committed : h.committed_ledger.entries ≡ seen ++ unseen
  pub reached : s.index.height ≤ h.committed_height
  pub old : All (λ e. e.height ≤ s.index.height) seen
  pub new : All (λ e. s.index.height < e.height) unseen
  pub built : refresh new_index (snapshot_of s.index.height seen) ≡ ok s.index
  pub height : HeightAgrees s
  pub chain : ChainAgrees s h.validator.expected_chain_id

within :
    (low high : ℕ) (es : List ArtifactLedgerEntry)
    → All (λ e. low < e.height) es
    → All (λ e. e.height ≤ high) es
    → AreWithin low high es
within low high [] h k = tt
within low high (e ∷ es) h k = ((h.0, k.0), within low high es h.1 k.1)

module _ ⦃ext : External⦄ where
  refresh-any :
      (a b : GraphState) (snapshot : ArtifactLedgerSnapshot)
      → refresh a snapshot ≡ refresh b snapshot
  unfolding refresh
  refresh-any a b snapshot = refl

  append-unseen :
      (s : InspectorService) (h : CometBftCallbackHandler) (k : IsConsistent h) (f : Follows s h)
      → append s.index f.unseen h.committed_height
        ≡ refresh new_index (snapshot_of h.committed_height h.committed_ledger.entries)
  append-unseen s h k f =
      let bounded =
        All-after (λ e. e.height ≤ h.committed_height) f.seen f.unseen
          (subst (All (λ e. e.height ≤ h.committed_height)) f.committed k.bounded) in
      append-refresh new_index s.index (snapshot_of s.index.height f.seen) f.unseen
        h.committed_height f.built f.reached
        (within s.index.height h.committed_height f.unseen f.new bounded)
      ∙ refresh-any s.index new_index (snapshot_of h.committed_height (f.seen ++ f.unseen))
      ∙ ap (λ es. refresh new_index (snapshot_of h.committed_height es)) (sym f.committed)

  -- A service whose index is that of the committed snapshot
  Follows-latest :
      (t : InspectorService) (h : CometBftCallbackHandler)
      → IsConsistent h
      → refresh new_index (snapshot_of h.committed_height h.committed_ledger.entries) ≡ ok t.index
      → t.index.height ≡ h.committed_height
      → HeightAgrees t
      → ChainAgrees t h.validator.expected_chain_id
      → Follows t h
  Follows-latest t h k built at agrees chain = record {
    seen = h.committed_ledger.entries;
    unseen = [];
    committed = sym (append-nil h.committed_ledger.entries);
    reached = omega (arith, at);
    old = subst (λ n. All (λ e. e.height ≤ n) h.committed_ledger.entries) (sym at) k.bounded;
    new = tt;
    built = ap (λ n. refresh new_index (snapshot_of n h.committed_ledger.entries)) at ∙ built;
    height = agrees;
    chain = chain;
  }

  updates-unseen :
      (s : InspectorService) (h : CometBftCallbackHandler) (k : IsConsistent h) (f : Follows s h)
      → updates_after h.store s.index.height
        ≡ ok (record { height = h.committed_height; entries = f.unseen })
  updates-unseen s h k f =
      updates_after-Persists h.store s.index.height h.committed_height f.seen f.unseen
        (subst (λ es. Persists h.committed_height es h.store) f.committed k.persists) f.old f.new

  unseen-on_chain :
      (s : InspectorService) (h : CometBftCallbackHandler) (k : IsConsistent h) (f : Follows s h)
      → All (λ e. chain_id e.transaction ≡ h.validator.expected_chain_id) f.unseen
  unfolding empty_ledger
  unseen-on_chain s h k f =
      All-after (λ e. chain_id e.transaction ≡ h.validator.expected_chain_id) f.seen f.unseen
        (subst (All (λ e. chain_id e.transaction ≡ h.validator.expected_chain_id)) f.committed (
          replay-on_chain h.validator empty_ledger h.committed_ledger
            (Persists-rows h.committed_height h.committed_ledger.entries h.store k.persists)
            k.replayed))

  -- When the service follows a consistent handler, `_synchronize` with a reader of the database of
  -- the handler, on the chain of its validator, succeeds, and the index is then the one that a
  -- rebuild from the committed snapshot gives; the service follows the handler again.
  pub synchronize-Follows :
      (s : InspectorService) (h : CometBftCallbackHandler)
      → IsConsistent h
      → Follows s h
      → (t : InspectorService) × (synchronize s h.store h.validator.expected_chain_id ≡ ok t)
        × (refresh new_index (snapshot_of h.committed_height h.committed_ledger.entries)
            ≡ ok t.index)
        × Follows t h
  unfolding synchronize advance_index
  synchronize-Follows s h k f =
      let chain = h.validator.expected_chain_id in
      let (index, built, at, _) = refresh-IsConsistent h new_index k in
      let appended = append-unseen s h k f ∙ built in
      let open_chain = unset_or s.indexed_chain_id chain f.chain in
      let ahead = not_behind s h.committed_height f.height f.reached in
      elim (Bool-cases (is_at s.indexed_height h.committed_height && is_empty f.unseen)) [
        | inl idle ↦
            let (here, none_new) = at_rest s h.committed_height f.unseen f.height idle in
            let entries : h.committed_ledger.entries ≡ f.seen =
              f.committed ∙ ap (λ l. f.seen ++ l) none_new ∙ append-nil f.seen in
            let current =
              ap (λ n. refresh new_index (snapshot_of n h.committed_ledger.entries)) (sym here)
              ∙ ap (λ es. refresh new_index (snapshot_of s.index.height es)) entries
              ∙ f.built in
            (
              s,
              rw (open_chain, updates-unseen s h k f, ahead, idle) refl,
              current,
              Follows-latest s h k current here f.height f.chain,
            )
        | inr moves ↦
            let t : InspectorService = record {
              index = index;
              indexed_height = some h.committed_height;
              indexed_chain_id = or_else (chain_of chain f.unseen) s.indexed_chain_id;
            } in
            (
              t,
              rw (open_chain, updates-unseen s h k f, ahead, moves)
                  (take_update-lem s chain h.committed_height f.unseen index f.chain
                    (unseen-on_chain s h k f) appended),
              built,
              Follows-latest t h k built at (inr (ap some (sym at))) (
                  or_else-agrees s.indexed_chain_id (chain_of chain f.unseen) chain f.chain
                    (chain_of-agrees chain f.unseen)),
            )
      ]
