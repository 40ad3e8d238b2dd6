-- ===== src/Node/Handler/Consistent.antt =====
-- The invariant of the handler, kept by every callback, and what a restart finds.
use discovery_net.Base.{
  ℕ, ◌+◌, ◌≤◌, ◌<◌, ◌≡◌, ◌⊎◌, inl, inr, refl, sym, Option, none, some, List, [], ◌∷◌, ◌++◌,
  append-nil, length, arith, All, subst,
}
use discovery_net.Base.Result.{Error, Result, ok, err, ◌>>=◌}
use discovery_net.Base.Text.{Bytes}
use discovery_net.Wire.External.{External}
use discovery_net.Node.Validator.{TransactionValidator, Lookup, validate}
use discovery_net.Node.Ledger.{ArtifactLedgerEntry, max_int64, max_uint64}
use discovery_net.Node.Store.{Row}
use discovery_net.Node.Store.Rows.{IsIncreasing, Holds, nothing}
use discovery_net.Node.Store.Saved.{Persists}
use discovery_net.Node.Handler.{
  CometBftCallbackHandler, PendingBlock, Execution, FinalizeBlockResult, execute_block,
  finalize_block,
}
use discovery_net.Node.Handler.Block.{Ends, execute_block-Ends}
use discovery_net.Node.Handler.Loop.{replay, LoopKeeps, Run-LoopKeeps, AllEarlier, IsAfter-last}

module _ ⦃ext : External⦄ where
  -- A finalized block extends the committed ledger by entries of the next height.
  pub record PendingKeeps (v : TransactionValidator) (height : ℕ)
      (committed_entries : List ArtifactLedgerEntry) (b : PendingBlock) : Type 0 where
    pub follows : b.height ≡ height + 1
    pub fits : b.height ≤ max_int64
    pub replayed : replay v b.ledger.entries ≡ ok b.ledger
    pub grown : b.ledger.entries ≡ committed_entries ++ b.new_entries
    pub rows : List Row
    pub held : Holds b.new_entries rows
    pub increasing : IsIncreasing b.ledger.entries
    pub here : All (λ e. e.height ≡ b.height) b.new_entries

  abbrev pub PendingOk :
      TransactionValidator → ℕ → List ArtifactLedgerEntry → Option PendingBlock → Type 0
  PendingOk v height es none = Unit
  PendingOk v height es (some b) = PendingKeeps v height es b

  -- The database holds the committed entries, the committed ledger is their replay, and a pending
  -- block extends it.
  pub record IsConsistent (h : CometBftCallbackHandler) : Type 0 where
    pub persists : Persists h.committed_height h.committed_ledger.entries h.store
    pub replayed : replay h.validator h.committed_ledger.entries ≡ ok h.committed_ledger
    pub increasing : IsIncreasing h.committed_ledger.entries
    pub bounded : All (λ e. e.height ≤ h.committed_height) h.committed_ledger.entries
    pub pending :
        PendingOk h.validator h.committed_height h.committed_ledger.entries h.pending_block

  AllEarlier-bounded :
      (height : ℕ) (es : List ArtifactLedgerEntry)
      → All (λ e. e.height ≤ height) es
      → AllEarlier (height + 1) 0 es
  AllEarlier-bounded height [] h = tt
  AllEarlier-bounded height (e ∷ es) h = (omega arith, AllEarlier-bounded height es h.1)

  abbrev start : CometBftCallbackHandler → Execution
  start h = record { ledger = h.committed_ledger; new_entries = []; transaction_results = [] }

  start-LoopKeeps :
      (h : CometBftCallbackHandler)
      → IsConsistent h
      → LoopKeeps h.validator h.committed_ledger.entries (h.committed_height + 1) 0 (start h)
  start-LoopKeeps h k = record {
    replayed = k.replayed;
    grown = sym (append-nil h.committed_ledger.entries);
    rows = [];
    held = nothing;
    increasing = k.increasing;
    earlier = AllEarlier-bounded h.committed_height h.committed_ledger.entries k.bounded;
    here = tt;
  }

  -- A call of `finalize_block` ends with a consistent handler, or with an error of the validator.
  abbrev pub FinalizeEnds :
      CometBftCallbackHandler → Result (FinalizeBlockResult × CometBftCallbackHandler) → Type 0
  FinalizeEnds h r =
      ((result : FinalizeBlockResult) × (h' : CometBftCallbackHandler) × (r ≡ ok (result, h'))
        × IsConsistent h')
      ⊎ ((e : Error) × (transaction : Bytes) × (artifacts : Lookup) × (r ≡ err e)
          × (validate h.validator transaction artifacts ≡ err e))

  abbrev pending_of : CometBftCallbackHandler → ℕ → Execution → CometBftCallbackHandler
  pending_of h height x = record h {
    pending_block =
        some (record { height = height; ledger = x.ledger; new_entries = x.new_entries });
  }

  abbrev result_of : Execution → FinalizeBlockResult
  result_of x = record {
    transaction_results = x.transaction_results;
    state_hash = x.ledger.state_hash;
  }

  pending_of-IsConsistent :
      (h : CometBftCallbackHandler) (last : ℕ) (x : Execution)
      → IsConsistent h
      → h.committed_height + 1 ≤ max_int64
      → LoopKeeps h.validator h.committed_ledger.entries (h.committed_height + 1) last x
      → IsConsistent (pending_of h (h.committed_height + 1) x)
  pending_of-IsConsistent h last x k fits l = record {
    persists = k.persists;
    replayed = k.replayed;
    increasing = k.increasing;
    bounded = k.bounded;
    pending = record {
      follows = refl;
      fits = fits;
      replayed = l.replayed;
      grown = l.grown;
      rows = l.rows;
      held = l.held;
      increasing = l.increasing;
      here = l.here;
    };
  }

  FinalizeEnds-of-Ends :
      (h : CometBftCallbackHandler) (transactions : List Bytes) (r : Result Execution)
      → IsConsistent h
      → h.committed_height + 1 ≤ max_int64
      → length transactions ≤ max_uint64
      → Ends h.validator (h.committed_height + 1) 0 (start h) transactions r
      → FinalizeEnds h (r >>= λ x. ok (result_of x, pending_of h (h.committed_height + 1) x))
  FinalizeEnds-of-Ends h transactions r k fits short (inl (z, ended, run)) =
      let (last, l) =
        Run-LoopKeeps h.validator h.committed_ledger.entries (h.committed_height + 1) (omega arith)
          fits (omega arith) run (start-LoopKeeps h k) in
      inl (
        result_of z,
        pending_of h (h.committed_height + 1) z,
        rw ended,
        pending_of-IsConsistent h last z k fits l,
      )
  FinalizeEnds-of-Ends h transactions r k fits short (inr (e, tx, artifacts, raised, cause)) =
      inr (e, tx, artifacts, rw raised, cause)

  finalize_block_runs :
      (h : CometBftCallbackHandler) (transactions : List Bytes)
      → h.pending_block ≡ none
      → h.committed_height + 1 ≤ max_int64
      → finalize_block h (h.committed_height + 1) transactions ≡ (
          execute_block h.validator (h.committed_height + 1) 0 (start h) transactions >>= λ x.
          ok (result_of x, pending_of h (h.committed_height + 1) x))
  unfolding finalize_block
  finalize_block_runs h transactions idle fits = rw idle (ground arith)

  -- On the block that follows the committed height, with no block pending, `finalize_block` ends
  -- with a consistent handler, or with an error that the validator raised on some transaction. The
  -- `RuntimeError` of a validated transaction that cannot be appended is never raised.
  pub finalize_block_ends :
      (h : CometBftCallbackHandler) (transactions : List Bytes)
      → IsConsistent h
      → h.pending_block ≡ none
      → h.committed_height + 1 ≤ max_int64
      → length transactions ≤ max_uint64
      → FinalizeEnds h (finalize_block h (h.committed_height + 1) transactions)
  finalize_block_ends h transactions k idle fits short =
      let l = start-LoopKeeps h k in
      let ends =
        execute_block-Ends h.validator (h.committed_height + 1) 0 (start h) transactions
          (omega arith) fits (omega arith)
          (IsAfter-last (h.committed_height + 1) 0 h.committed_ledger.entries l.earlier) in
      subst (FinalizeEnds h) (sym (finalize_block_runs h transactions idle fits))
        (FinalizeEnds-of-Ends h transactions _ k fits short ends)

  pub All-le-append :
      (height : ℕ) (es fs : List ArtifactLedgerEntry)
      → All (λ e. e.height ≤ height) es
      → All (λ e. e.height ≡ height + 1) fs
      → All (λ e. e.height ≤ height + 1) (es ++ fs)
  All-le-append height [] [] h k = tt
  All-le-append height [] (f ∷ fs) h k = (omega arith, All-le-append height [] fs tt k.1)
  All-le-append height (e ∷ es) fs h k = (omega arith, All-le-append height es fs h.1 k)

  pub All-lt-of-here :
      (height : ℕ) (fs : List ArtifactLedgerEntry)
      → All (λ e. e.height ≡ height + 1) fs
      → All (λ e. height < e.height) fs
  All-lt-of-here height [] h = tt
  All-lt-of-here height (f ∷ fs) h = (omega arith, All-lt-of-here height fs h.1)
