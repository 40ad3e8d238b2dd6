-- ===== src/Inspector/Steps.antt =====
-- inspector/service.py: a service that follows a node goes on to do so when the node executes a
-- block, commits it, or starts again.
use discovery_net.Base.{
  ℕ, ◌+◌, ◌≤◌, ◌<◌, ◌≡◌, refl, sym, ap, ◌∙◌, subst, none, some, List, [], ◌++◌, append_assoc,
  length, All, All-map, All-append, arith, inl, inr, Option-cases,
}
use discovery_net.Base.Result.{ok, err, ok-injective}
use discovery_net.Base.Text.{Bytes}
use discovery_net.Wire.External.{External}
use discovery_net.Node.Validator.{TransactionValidator}
use discovery_net.Node.Ledger.{ArtifactLedgerEntry, empty_ledger, max_int64, max_uint64}
use discovery_net.Node.Store.Saved.{fresh}
use discovery_net.Node.Handler.{
  CometBftCallbackHandler, PendingBlock, FinalizeBlockResult, new_handler, finalize_block, commit,
  commit_pending,
}
use discovery_net.Node.Handler.Consistent.{
  IsConsistent, PendingKeeps, PendingOk, finalize_block_ends,
}
use discovery_net.Node.Handler.Restart.{commit-IsConsistent, restart-IsConsistent}
use discovery_net.Index.{new_index, refresh, build_state}
use discovery_net.Inspector.{InspectorService}
use discovery_net.Inspector.Advance.{ChainAgrees}
use discovery_net.Inspector.Follows.{Follows}

-- `InspectorService(...)`
abbrev pub new_service : InspectorService
new_service = record { index = new_index; indexed_height = none; indexed_chain_id = none }

abbrev pub first_node : ⦃ext : External⦄ → TransactionValidator → CometBftCallbackHandler
first_node v = record {
  validator = v;
  store = record { committed_height = none; rows = [] };
  committed_height = 0;
  committed_ledger = empty_ledger;
  pending_block = none;
}

module _ ⦃ext : External⦄ where
  unfoldable pub AreSound : CometBftCallbackHandler → InspectorService → Type 0
  AreSound h s = IsConsistent h × Follows s h

  pub started-AreSound : (v : TransactionValidator) → AreSound (first_node v) new_service
  unfolding AreSound empty_ledger refresh build_state
  started-AreSound v = (
    record { persists = fresh; replayed = refl; increasing = tt; bounded = tt; pending = tt },
    record {
      seen = [];
      unseen = [];
      committed = refl;
      reached = omega arith;
      old = tt;
      new = tt;
      built = refl;
      height = inl refl;
      chain = inl refl;
    },
  )

  -- What a callback leaves of the committed state
  record KeepsCommitted (h h' : CometBftCallbackHandler) : Type 0 where
    validator : h'.validator ≡ h.validator
    height : h'.committed_height ≡ h.committed_height
    ledger : h'.committed_ledger ≡ h.committed_ledger

  Follows-KeepsCommitted :
      (h h' : CometBftCallbackHandler) (s : InspectorService)
      → KeepsCommitted h h'
      → Follows s h
      → Follows s h'
  Follows-KeepsCommitted h h' s c f = record {
    seen = f.seen;
    unseen = f.unseen;
    committed = ap (λ l. l.entries) c.ledger ∙ f.committed;
    reached = omega (arith, f.reached, c.height);
    old = f.old;
    new = f.new;
    built = f.built;
    height = f.height;
    chain = subst (λ v. ChainAgrees s v.expected_chain_id) (sym c.validator) f.chain;
  }

  finalize_block-KeepsCommitted :
      (h h' : CometBftCallbackHandler) (height : ℕ) (transactions : List Bytes)
      (r : FinalizeBlockResult)
      → finalize_block h height transactions ≡ ok (r, h')
      → KeepsCommitted h h'
  unfolding finalize_block
  finalize_block-KeepsCommitted h h' height transactions r ended = record {
    validator = ground arith;
    height = ground arith;
    ledger = ground arith;
  }

  commit-validator :
      (h h' : CometBftCallbackHandler) (b : PendingBlock) (added : List ArtifactLedgerEntry)
      → commit_pending h (some b) ≡ ok (added, h')
      → h'.validator ≡ h.validator
  commit-validator h h' b added done = ground arith

  All-later :
      (low height : ℕ) (es : List ArtifactLedgerEntry)
      → low < height
      → All (λ e. e.height ≡ height) es
      → All (λ e. low < e.height) es
  All-later low height es less here = All-map es (λ e same. omega arith) here

  Follows-commit :
      (h h' : CometBftCallbackHandler) (b : PendingBlock) (s : InspectorService)
      → PendingKeeps h.validator h.committed_height h.committed_ledger.entries b
      → h'.validator ≡ h.validator
      → h'.committed_height ≡ b.height
      → h'.committed_ledger ≡ b.ledger
      → Follows s h
      → Follows s h'
  Follows-commit h h' b s p validator height ledger f = record {
    seen = f.seen;
    unseen = f.unseen ++ b.new_entries;
    committed =
        ap (λ l. l.entries) ledger
        ∙ p.grown
        ∙ ap (λ es. es ++ b.new_entries) f.committed
        ∙ append_assoc f.seen f.unseen b.new_entries;
    reached = omega (arith, f.reached, height, p.follows);
    old = f.old;
    new =
        All-append (λ e. s.index.height < e.height) f.unseen b.new_entries f.new
          (All-later s.index.height b.height b.new_entries (omega (arith, f.reached, p.follows))
            p.here);
    built = f.built;
    height = f.height;
    chain = subst (λ v. ChainAgrees s v.expected_chain_id) (sym validator) f.chain;
  }

  pub stored-AreSound :
      (h h' : CometBftCallbackHandler) (s : InspectorService) (added : List ArtifactLedgerEntry)
      → commit h ≡ ok (added, h')
      → AreSound h s
      → AreSound h' s
  unfolding AreSound commit
  stored-AreSound h h' s added done (k, f) = elim (Option-cases h.pending_block) [
    | inl idle ↦
        let failed : commit_pending h none ≡ ok (added, h') =
          ap (commit_pending h) (sym idle) ∙ done in
        cc
    | inr (b, is_pending) ↦
        let (next, committed, k', height, ledger, _, _) = commit-IsConsistent h b k is_pending in
        let same : next ≡ h' = ap (λ r. r.1) (ok-injective (sym committed ∙ done)) in
        let p : PendingKeeps h.validator h.committed_height h.committed_ledger.entries b =
          subst (PendingOk h.validator h.committed_height h.committed_ledger.entries) is_pending
            k.pending in
        let validator =
          commit-validator h h' b added (ap (commit_pending h) (sym is_pending) ∙ done) in
        (
          subst IsConsistent same k',
          Follows-commit h h' b s p validator (ap (λ n. n.committed_height) (sym same) ∙ height)
              (ap (λ n. n.committed_ledger) (sym same) ∙ ledger) f,
        )
  ]

  pub executed-AreSound :
      (h h' : CometBftCallbackHandler) (s : InspectorService) (transactions : List Bytes)
      (r : FinalizeBlockResult)
      → h.pending_block ≡ none
      → h.committed_height + 1 ≤ max_int64
      → length transactions ≤ max_uint64
      → finalize_block h (h.committed_height + 1) transactions ≡ ok (r, h')
      → AreSound h s
      → AreSound h' s
  unfolding AreSound
  executed-AreSound h h' s transactions r idle fits short ended (k, f) = (
    elim (finalize_block_ends h transactions k idle fits short) [
      | inl (result, next, finished, k') ↦
          subst IsConsistent (ap (λ x. x.1) (ok-injective (sym finished ∙ ended))) k'
      | inr (e, tx, artifacts, raised, cause) ↦
          let failed : err e ≡ ok (r, h') = sym raised ∙ ended in cc
    ],
    Follows-KeepsCommitted h h' s
        (finalize_block-KeepsCommitted h h' (h.committed_height + 1) transactions r ended) f,
  )

  pub restarted-AreSound :
      (h h' : CometBftCallbackHandler) (s : InspectorService)
      → new_handler h.validator h.store ≡ ok h'
      → AreSound h s
      → AreSound h' s
  unfolding AreSound
  restarted-AreSound h h' s started_again (k, f) =
      let same : record h { pending_block = none } ≡ h' =
        ok-injective (sym (restart-IsConsistent h k) ∙ started_again) in
      (
        subst IsConsistent same (record {
          persists = k.persists;
          replayed = k.replayed;
          increasing = k.increasing;
          bounded = k.bounded;
          pending = tt;
        }),
        Follows-KeepsCommitted h h' s
            (record {
              validator = ap (λ n. n.validator) (sym same);
              height = ap (λ n. n.committed_height) (sym same);
              ledger = ap (λ n. n.committed_ledger) (sym same);
            })
            f,
      )
