-- ===== src/Index/Committed.antt =====
-- indexing/knowledge_graph_index.py on what node/cometbft_callback_handler.py commits.
use discovery_net.Base.{
  ℕ, ◌<◌, ◌≡◌, refl, sym, ap, ◌∙◌, subst, some, List, ◌++◌, All-map, All, arith,
}
use discovery_net.Base.Dict.{keys}
use discovery_net.Base.Result.{ok}
use discovery_net.Base.Text.{text_eq}
use discovery_net.Wire.External.{External}
use discovery_net.Node.Ledger.{ArtifactLedgerEntry, empty_ledger}
use discovery_net.Node.Store.Saved.{snapshot_of, Persists-rows}
use discovery_net.Node.Handler.{CometBftCallbackHandler, PendingBlock, commit}
use discovery_net.Node.Handler.Consistent.{IsConsistent, PendingKeeps, PendingOk}
use discovery_net.Node.Handler.Restart.{commit-IsConsistent}
use discovery_net.Index.{GraphState, new_index, build_state, refresh, append}
use discovery_net.Index.Rebuild.{AreWithin, append-refresh}
use discovery_net.Index.Names.{replay-NamesSame}

module _ ⦃ext : External⦄ where
  -- For a consistent handler, rebuilding the index from the committed snapshot succeeds, and the
  -- index then names exactly the artifacts of the committed ledger, in the same order.
  pub refresh-IsConsistent :
      (h : CometBftCallbackHandler) (old : GraphState)
      → IsConsistent h
      → (s : GraphState) × (refresh old (snapshot_of h.committed_height h.committed_ledger.entries)
          ≡ ok s)
        × (s.height ≡ h.committed_height)
        × (keys s.nodes ≡ keys h.committed_ledger.envelopes_by_ref)
  unfolding refresh build_state empty_ledger
  refresh-IsConsistent h old k =
      let (s, added, same) =
        replay-NamesSame h.validator empty_ledger h.committed_ledger new_index
          (Persists-rows h.committed_height h.committed_ledger.entries h.store k.persists)
          k.replayed refl in
      (record s { height = h.committed_height }, rw added refl, refl, same)

  within-here :
      (low high : ℕ) (es : List ArtifactLedgerEntry)
      → low < high
      → All (λ e. e.height ≡ high) es
      → AreWithin low high es
  within-here low high es less here = All-map es (λ e same. (omega arith, omega arith)) here

  -- For a consistent handler with a pending block and the index of its committed snapshot: after
  -- `commit`, appending the entries that it returns, at the new height, succeeds and gives the
  -- index of the new committed snapshot, as a rebuild would; this index names exactly the
  -- artifacts of the new committed ledger.
  pub commit-append :
      (h : CometBftCallbackHandler) (b : PendingBlock) (old s : GraphState)
      → IsConsistent h
      → h.pending_block ≡ some b
      → refresh old (snapshot_of h.committed_height h.committed_ledger.entries) ≡ ok s
      → (h' : CometBftCallbackHandler) × (t : GraphState) × (commit h ≡ ok (b.new_entries, h'))
        × (append s b.new_entries h'.committed_height ≡ ok t)
        × (refresh s (snapshot_of h'.committed_height h'.committed_ledger.entries) ≡ ok t)
        × (keys t.nodes ≡ keys h'.committed_ledger.envelopes_by_ref)
  commit-append h b old s k is_pending built =
      let (h', committed, k', height, ledger, _, _) = commit-IsConsistent h b k is_pending in
      let p : PendingKeeps h.validator h.committed_height h.committed_ledger.entries b =
        subst (PendingOk h.validator h.committed_height h.committed_ledger.entries) is_pending
          k.pending in
      let (t, rebuilt, _, same) = refresh-IsConsistent h' s k' in
      let within =
        within-here h.committed_height b.height b.new_entries (omega (arith, p.follows)) p.here in
      let appended =
        append-refresh old s (snapshot_of h.committed_height h.committed_ledger.entries)
          b.new_entries b.height built (omega (arith, p.follows)) within in
      let entries : h'.committed_ledger.entries ≡ h.committed_ledger.entries ++ b.new_entries =
        ap (λ l. l.entries) ledger ∙ p.grown in
      (
        h',
        t,
        committed,
        ap (λ n. append s b.new_entries n) height
            ∙ appended
            ∙ ap (λ es. refresh s (snapshot_of b.height es)) (sym entries)
            ∙ ap (λ n. refresh s (snapshot_of n h'.committed_ledger.entries)) (sym height)
            ∙ rebuilt,
        rebuilt,
        same,
      )
