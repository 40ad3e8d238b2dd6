-- ===== src/Node/Handler/Restart.antt =====
-- Committing the pending block, and starting again from the database.
use discovery_net.Base.{
  ℕ, ◌≤◌, ◌≡◌, refl, sym, ◌∙◌, ap, none, some, List, [], ◌++◌, arith, All, subst,
}
use discovery_net.Base.Result.{ok}
use discovery_net.Wire.External.{External}
use discovery_net.Node.Validator.{TransactionValidator}
use discovery_net.Node.Ledger.{ArtifactLedgerEntry, LocalArtifactLedger, empty_ledger, max_int64}
use discovery_net.Node.Recovery.{ledger_from_snapshot}
use discovery_net.Node.Store.{Database, read_snapshot, save}
use discovery_net.Node.Store.Rows.{IsIncreasing, read_snapshot-Holds, new_snapshot_lem}
use discovery_net.Node.Store.Saved.{Persists, fresh, committed, snapshot_of, save-Persists}
use discovery_net.Node.Handler.{
  CometBftCallbackHandler, PendingBlock, commit, commit_pending, new_handler,
}
use discovery_net.Node.Handler.Loop.{replay}
use discovery_net.Node.Handler.Consistent.{
  PendingKeeps, PendingOk, IsConsistent, All-le-append, All-lt-of-here,
}

module _ ⦃ext : External⦄ where
  abbrev promoted : CometBftCallbackHandler → PendingBlock → Database → CometBftCallbackHandler
  promoted h b db = record h {
    store = db;
    committed_height = b.height;
    committed_ledger = b.ledger;
    pending_block = none;
  }

  bounded_pending :
      (h : CometBftCallbackHandler) (b : PendingBlock)
      → IsConsistent h
      → PendingKeeps h.validator h.committed_height h.committed_ledger.entries b
      → All (λ e. e.height ≤ b.height) (h.committed_ledger.entries ++ b.new_entries)
  bounded_pending h b k p =
      subst (λ (n : ℕ). All (λ e. e.height ≤ n) (h.committed_ledger.entries ++ b.new_entries))
        (sym p.follows)
        (All-le-append h.committed_height h.committed_ledger.entries b.new_entries k.bounded
          (subst (λ (n : ℕ). All (λ e. e.height ≡ n) b.new_entries) p.follows p.here))

  save_pending :
      (h : CometBftCallbackHandler) (b : PendingBlock)
      → IsConsistent h
      → PendingKeeps h.validator h.committed_height h.committed_ledger.entries b
      → (db : Database) × (save h.store (snapshot_of b.height b.ledger.entries) ≡ ok db)
        × Persists b.height b.ledger.entries db
        × (read_snapshot db ≡ ok (some (snapshot_of b.height b.ledger.entries)))
  save_pending h b k p =
      subst
        (λ l.
          (db : Database) × (save h.store (snapshot_of b.height l) ≡ ok db)
          × Persists b.height l db
          × (read_snapshot db ≡ ok (some (snapshot_of b.height l))))
        (sym p.grown)
        (save-Persists h.committed_height b.height h.committed_ledger.entries b.new_entries h.store
          p.rows k.persists p.held (subst IsIncreasing p.grown p.increasing) (omega arith) p.fits
          (All-lt-of-here h.committed_height b.new_entries
            (subst (λ (n : ℕ). All (λ e. e.height ≡ n) b.new_entries) p.follows p.here))
          (bounded_pending h b k p))

  commit_pending-lem :
      (h : CometBftCallbackHandler) (b : PendingBlock) (db : Database)
      → b.height ≤ max_int64
      → All (λ e. e.height ≤ b.height) b.ledger.entries
      → save h.store (snapshot_of b.height b.ledger.entries) ≡ ok db
      → commit_pending h (some b) ≡ ok (b.new_entries, promoted h b db)
  commit_pending-lem h b db fits bounded saved =
      rw (new_snapshot_lem b.height b.ledger.entries fits bounded, saved)

  -- `commit` of a pending block succeeds, returns its new entries, promotes its ledger and leaves
  -- a consistent handler; the database then holds the snapshot of this ledger.
  pub commit-IsConsistent :
      (h : CometBftCallbackHandler) (b : PendingBlock)
      → IsConsistent h
      → h.pending_block ≡ some b
      → (h' : CometBftCallbackHandler) × (commit h ≡ ok (b.new_entries, h'))
        × IsConsistent h'
        × (h'.committed_height ≡ b.height)
        × (h'.committed_ledger ≡ b.ledger)
        × (h'.pending_block ≡ none)
        × (read_snapshot h'.store ≡ ok (some (snapshot_of b.height b.ledger.entries)))
  unfolding commit
  commit-IsConsistent h b k is_pending =
      let p : PendingKeeps h.validator h.committed_height h.committed_ledger.entries b =
        subst (PendingOk h.validator h.committed_height h.committed_ledger.entries) is_pending
          k.pending in
      let (db, saved, persists, found) = save_pending h b k p in
      let bounded : All (λ e. e.height ≤ b.height) b.ledger.entries =
        subst (All (λ e. e.height ≤ b.height)) (sym p.grown) (bounded_pending h b k p) in
      (
        promoted h b db,
        ap (commit_pending h) is_pending ∙ commit_pending-lem h b db p.fits bounded saved,
        record {
          persists = persists;
          replayed = p.replayed;
          increasing = p.increasing;
          bounded = bounded;
          pending = tt;
        },
        refl,
        refl,
        refl,
        found,
      )

  start_from_committed :
      (v : TransactionValidator) (height : ℕ) (es : List ArtifactLedgerEntry)
      (ledger : LocalArtifactLedger) (db : Database)
      → Persists height es db
      → replay v es ≡ ok ledger
      → new_handler v db
        ≡ ok (record {
          validator = v;
          store = db;
          committed_height = height;
          committed_ledger = ledger;
          pending_block = none;
        })
  unfolding new_handler ledger_from_snapshot
  start_from_committed v height es ledger db fresh replayed = unfold read_snapshot in ground arith
  start_from_committed v height es ledger db (committed h es' rows held inc bounded fits) replayed =
      rw (read_snapshot-Holds es rows height held inc fits bounded, replayed)

  -- A handler started on the database of a consistent handler has its committed height, its
  -- committed ledger with the index and the state hash, and no pending block: a crash loses
  -- nothing that was committed, and a block that was finalized but not committed is forgotten.
  pub restart-IsConsistent :
      (h : CometBftCallbackHandler)
      → IsConsistent h
      → new_handler h.validator h.store ≡ ok (record h { pending_block = none })
  restart-IsConsistent h k =
      start_from_committed h.validator h.committed_height h.committed_ledger.entries
        h.committed_ledger h.store k.persists k.replayed

  -- A new node, over an empty database, is consistent.
  pub fresh-IsConsistent :
      (v : TransactionValidator)
      → (h : CometBftCallbackHandler) × (new_handler v
            (record { committed_height = none; rows = [] })
          ≡ ok h)
        × IsConsistent h
        × (h.committed_height ≡ 0)
        × (h.pending_block ≡ none)
  unfolding new_handler read_snapshot empty_ledger
  fresh-IsConsistent v = (
    record {
      validator = v;
      store = record { committed_height = none; rows = [] };
      committed_height = 0;
      committed_ledger = empty_ledger;
      pending_block = none;
    },
    refl,
    record { persists = fresh; replayed = refl; increasing = tt; bounded = tt; pending = tt },
    refl,
    refl,
  )
