-- ===== src/Node/Handler.antt =====
-- node/cometbft_callback_handler.py: validation, block execution and commitment. A method returns
-- its result and the new state; one that raises leaves the state as it was. The lock is not
-- modelled: each method is one step.
pub mod Block
pub mod Loop
pub mod Consistent
pub mod Restart
pub mod Proposal
pub mod Overflow
pub mod Replayed
use discovery_net.Base.{
  ℕ, zero, suc, ◌+◌, Bool, true, false, not, ◌&&◌, ◌||◌, Option, none, some, List, [], ◌∷◌, ◌++◌,
  Eq, ◌==◌, ltb, leb, eqb, length, if◌then◌else◌,
}
use discovery_net.Base.Result.{Result, ok, err, value_error, runtime_error, require, ◌>>=◌, ◌>>◌}
use discovery_net.Base.Text.{Str, Bytes, text_eq, is_empty}
use discovery_net.Wire.External.{External}
use discovery_net.Wire.Codec.{decode_transaction}
use discovery_net.Node.Validator.{TransactionCode, TransactionValidator, validate}
use discovery_net.Node.Ledger.{
  ArtifactLedgerEntry, LocalArtifactLedger, new_entry, empty_ledger, envelope_by_ref,
  append_transaction, max_int64,
}
use discovery_net.Node.Store.{ArtifactLedgerSnapshot, Database, new_snapshot, read_snapshot, save}
use discovery_net.Node.Recovery.{is_accepted, is_appended, ledger_from_snapshot}

pub record FinalizeBlockResult : Type 0 where
  pub transaction_results : List TransactionCode
  pub state_hash : Bytes

pub record ArtifactLedgerHead : Type 0 where
  pub height : ℕ
  pub state_hash : Bytes

pub record PendingBlock : Type 0 where
  pub height : ℕ
  pub ledger : LocalArtifactLedger
  pub new_entries : List ArtifactLedgerEntry

pub record CometBftCallbackHandler : Type 0 where
  pub validator : TransactionValidator
  pub store : Database
  pub committed_height : ℕ
  pub committed_ledger : LocalArtifactLedger
  pub pending_block : Option PendingBlock

-- What the loop over a block carries
pub record Execution : Type 0 where
  pub ledger : LocalArtifactLedger
  pub new_entries : List ArtifactLedgerEntry
  pub transaction_results : List TransactionCode

abbrev pub is_pending : Option PendingBlock → Bool
is_pending none = false
is_pending (some b) = true

abbrev pub require_block_height : ℕ → Result (Unit {0})
require_block_height height = require (leb 1 height && leb height max_int64) value_error

-- The loop of `prepare_proposal`, with the size of what is selected
unfoldable pub select_prefix : ℕ → ℕ → List Bytes → List Bytes
select_prefix maximum size [] = []
select_prefix maximum size (t ∷ ts) =
    let rest = select_prefix maximum (size + length t) ts in
    if ltb maximum (size + length t) then [] else t ∷ rest

unfoldable pub prepare_proposal : List Bytes → ℕ → Result (List Bytes)
prepare_proposal transactions maximum = do
  require (leb maximum max_int64) value_error
  ok (select_prefix maximum 0 transactions)

module _ ⦃ext : External⦄ where
  abbrev pub start_from :
      TransactionValidator
      → Database
      → Option ArtifactLedgerSnapshot
      → Result CometBftCallbackHandler
  start_from v db none = ok (record {
    validator = v;
    store = db;
    committed_height = 0;
    committed_ledger = empty_ledger;
    pending_block = none;
  })
  start_from v db (some s) = do
    ledger ← ledger_from_snapshot s v
    ok (record {
      validator = v;
      store = db;
      committed_height = s.height;
      committed_ledger = ledger;
      pending_block = none;
    })

  -- `CometBftCallbackHandler(...)`
  unfoldable pub new_handler : TransactionValidator → Database → Result CometBftCallbackHandler
  new_handler v db = read_snapshot db >>= start_from v db

  unfoldable pub committed_head : CometBftCallbackHandler → ArtifactLedgerHead
  committed_head h = record {
    height = h.committed_height;
    state_hash = h.committed_ledger.state_hash;
  }

  unfoldable pub initialize_chain : CometBftCallbackHandler → Str → ℕ → Bytes → Result Bytes
  initialize_chain h chain initial_height genesis_state = do
    require_block_height initial_height
    require (eqb h.committed_height 0 && not (is_pending h.pending_block)) runtime_error
    require (chain == h.validator.expected_chain_id) value_error
    require (eqb initial_height 1) value_error
    require (is_empty genesis_state) value_error
    ok h.committed_ledger.state_hash

  unfoldable pub check_tx : CometBftCallbackHandler → Bytes → Result TransactionCode
  check_tx h transaction = validate h.validator transaction (envelope_by_ref h.committed_ledger)

  -- What follows when the transaction is accepted
  unfoldable pub execute_accepted : ℕ → ℕ → Execution → Bytes → Result Execution
  execute_accepted height index x transaction = do
    t ← decode_transaction transaction
    e ← new_entry (record { transaction = t; height = height; transaction_index = index })
    (ledger, outcome) ← append_transaction x.ledger e
    require (is_appended outcome) runtime_error
    ok (record {
      ledger = ledger;
      new_entries = x.new_entries ++ e ∷ [];
      transaction_results = x.transaction_results ++ TransactionCode.accepted ∷ [];
    })

  -- One round of the loop of `finalize_block`
  unfoldable pub execute_transaction :
      TransactionValidator → ℕ → ℕ → Execution → Bytes → Result Execution
  execute_transaction v height index x transaction = do
    code ← validate v transaction (envelope_by_ref x.ledger)
    if is_accepted code
        then execute_accepted height index x transaction
        else ok (record x { transaction_results = x.transaction_results ++ code ∷ [] })

  unfoldable pub execute_block :
      TransactionValidator → ℕ → ℕ → Execution → List Bytes → Result Execution
  execute_block v height index x [] = ok x
  execute_block v height index x (t ∷ ts) =
      execute_transaction v height index x t >>= λ y. execute_block v height (index + 1) y ts

  unfoldable pub finalize_block :
      CometBftCallbackHandler
      → ℕ
      → List Bytes
      → Result (FinalizeBlockResult × CometBftCallbackHandler)
  finalize_block h height transactions = do
    require_block_height height
    require (not (is_pending h.pending_block)) runtime_error
    require (eqb height (h.committed_height + 1)) value_error
    x ←
        execute_block h.validator height 0
          (record { ledger = h.committed_ledger; new_entries = []; transaction_results = [] })
          transactions
    ok (
      record { transaction_results = x.transaction_results; state_hash = x.ledger.state_hash },
      record h {
        pending_block =
            some (record { height = height; ledger = x.ledger; new_entries = x.new_entries });
      },
    )

  abbrev pub commit_pending :
      CometBftCallbackHandler
      → Option PendingBlock
      → Result (List ArtifactLedgerEntry × CometBftCallbackHandler)
  commit_pending h none = err runtime_error
  commit_pending h (some b) = do
    snapshot ← new_snapshot (record { height = b.height; entries = b.ledger.entries })
    db ← save h.store snapshot
    ok (
      b.new_entries,
      record h {
        store = db;
        committed_height = b.height;
        committed_ledger = b.ledger;
        pending_block = none;
      },
    )

  unfoldable pub commit :
      CometBftCallbackHandler → Result (List ArtifactLedgerEntry × CometBftCallbackHandler)
  commit h = commit_pending h h.pending_block
