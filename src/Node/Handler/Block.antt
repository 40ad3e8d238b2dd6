-- ===== src/Node/Handler/Block.antt =====
-- The execution of a block: each transaction is appended or skipped, and the loop raises only
-- what the validator raises.
use discovery_net.Base.{
  ℕ, ◌+◌, ◌≤◌, ◌<◌, true, false, ◌≡◌, ◌⊎◌, refl, sym, ◌∙◌, ap, inl, inr, Option, none, some, List,
  [], ◌∷◌, ◌++◌, length, arith, Bool-cases, subst,
}
use discovery_net.Base.Result.{Error, Result, ok, err, Result-cases}
use discovery_net.Base.Text.{Bytes}
use discovery_net.Wire.Envelope.{SignedTransaction}
use discovery_net.Wire.External.{External}
use discovery_net.Wire.Codec.{decode_transaction, encode_transaction}
use discovery_net.Wire.Codec.Canonical.{encode-decode_transaction}
use discovery_net.Node.Validator.{TransactionCode, TransactionValidator, Lookup, validate}
use discovery_net.Node.Validator.Accepted.{accepted_iff}
use discovery_net.Node.Ledger.{
  AppendOutcome, ArtifactLedgerEntry, new_entry, envelope_by_ref, append_transaction, max_int64,
  max_uint64, precedes, position_le, last_entry,
}
use discovery_net.Node.Ledger.Refinement.{append_transaction_iff}
use discovery_net.Node.Ledger.Fresh.{record_entry-of-fresh}
use discovery_net.Node.Recovery.{is_accepted}
use discovery_net.Node.Handler.{Execution, execute_accepted, execute_transaction, execute_block}

-- The position lies after that of the last entry.
abbrev pub IsAfter : ℕ → ℕ → Option ArtifactLedgerEntry → Type 0
IsAfter height index none = Unit
IsAfter height index (some p) =
    (p.height < height) ⊎ ((p.height ≡ height) × (p.transaction_index < index))

pub last_entry-snoc :
    (es : List ArtifactLedgerEntry) (e : ArtifactLedgerEntry) → last_entry (es ++ e ∷ []) ≡ some e
unfolding last_entry
last_entry-snoc [] e = refl
last_entry-snoc (a ∷ []) e = refl
last_entry-snoc (a ∷ b ∷ es) e = last_entry-snoc (b ∷ es) e

precedes-eq-false :
    (e : ArtifactLedgerEntry) (o : Option ArtifactLedgerEntry)
    → IsAfter e.height e.transaction_index o
    → precedes e o ≡ false
unfolding precedes position_le
precedes-eq-false e none h = refl
precedes-eq-false e (some p) (inl h) = ground arith
precedes-eq-false e (some p) (inr h) = ground arith

-- A block of a valid height, at an index that fits
pub record InRange (height index : ℕ) : Type 0 where
  pub positive : 1 ≤ height
  pub height_fits : height ≤ max_int64
  pub index_fits : index ≤ max_uint64

abbrev pub entry_at : SignedTransaction → ℕ → ℕ → ArtifactLedgerEntry
entry_at t height index = record { transaction = t; height = height; transaction_index = index }

new_entry-InRange :
    (t : SignedTransaction) (height index : ℕ)
    → InRange height index
    → new_entry (entry_at t height index) ≡ ok (entry_at t height index)
unfolding new_entry
new_entry-InRange t height index r = ground arith

is_accepted-eq : (c : TransactionCode) → is_accepted c ≡ true → c ≡ TransactionCode.accepted
is_accepted-eq TransactionCode.accepted h = refl
is_accepted-eq _ h = cc

module _ ⦃ext : External⦄ where
  -- What an accepted transaction does to the execution
  pub record Appends (v : TransactionValidator) (height index : ℕ) (x : Execution)
      (transaction : Bytes) (y : Execution) : Type 0 where
    pub t : SignedTransaction
    pub decoded : decode_transaction transaction ≡ ok t
    pub encoded : encode_transaction t ≡ ok transaction
    pub valid : validate v transaction (envelope_by_ref x.ledger) ≡ ok TransactionCode.accepted
    pub appended :
        append_transaction x.ledger (entry_at t height index)
        ≡ ok (y.ledger, AppendOutcome.accepted)
    pub entries : y.ledger.entries ≡ x.ledger.entries ++ entry_at t height index ∷ []
    pub new_entries : y.new_entries ≡ x.new_entries ++ entry_at t height index ∷ []
    pub results : y.transaction_results ≡ x.transaction_results ++ TransactionCode.accepted ∷ []

  execute-Appends :
      (v : TransactionValidator) (height index : ℕ) (x : Execution) (transaction : Bytes)
      → InRange height index
      → IsAfter height index (last_entry x.ledger.entries)
      → validate v transaction (envelope_by_ref x.ledger) ≡ ok TransactionCode.accepted
      → (y : Execution) × (execute_accepted height index x transaction ≡ ok y)
        × Appends v height index x transaction y
  unfolding execute_accepted
  execute-Appends v height index x transaction r after valid =
      let (t, a) = (accepted_iff v transaction (envelope_by_ref x.ledger)).0 valid in
      let e = entry_at t height index in
      let encoded = encode-decode_transaction transaction t a.decodes in
      let (next, recorded, grown) =
        record_entry-of-fresh x.ledger e a.references transaction a.referenced a.distinct_references
          a.new_references encoded (precedes-eq-false e (last_entry x.ledger.entries) after) in
      let appended = (append_transaction_iff x.ledger next e).1 recorded in
      let y : Execution = record {
        ledger = next;
        new_entries = x.new_entries ++ e ∷ [];
        transaction_results = x.transaction_results ++ TransactionCode.accepted ∷ [];
      } in
      (
        y,
        rw (a.decodes, new_entry-InRange t height index r, appended),
        record {
          t = t;
          decoded = a.decodes;
          encoded = encoded;
          valid = valid;
          appended = appended;
          entries = grown;
          new_entries = refl;
          results = refl;
        },
      )

  -- What any other transaction does
  pub record Skips (v : TransactionValidator) (height index : ℕ) (x : Execution)
      (transaction : Bytes) (y : Execution) : Type 0 where
    pub code : TransactionCode
    pub valid : validate v transaction (envelope_by_ref x.ledger) ≡ ok code
    pub refused : is_accepted code ≡ false
    pub ledger : y.ledger ≡ x.ledger
    pub new_entries : y.new_entries ≡ x.new_entries
    pub results : y.transaction_results ≡ x.transaction_results ++ code ∷ []

  -- The execution of a list of transactions from one index on
  pub data Run (v : TransactionValidator) (height : ℕ)
      : ℕ → Execution → List Bytes → Execution → Type 0 where
    stop : {index : ℕ} {x : Execution} → Run v height index x [] x
    append :
        {index : ℕ} {x y z : Execution} {t : Bytes} {ts : List Bytes}
        → Appends v height index x t y
        → Run v height (index + 1) y ts z
        → Run v height index x (t ∷ ts) z
    skip :
        {index : ℕ} {x y z : Execution} {t : Bytes} {ts : List Bytes}
        → Skips v height index x t y
        → Run v height (index + 1) y ts z
        → Run v height index x (t ∷ ts) z

  Appends-IsAfter :
      (v : TransactionValidator) (height index : ℕ) (x : Execution) (t : Bytes) (y : Execution)
      → Appends v height index x t y
      → IsAfter height (index + 1) (last_entry y.ledger.entries)
  Appends-IsAfter v height index x t y a =
      subst (IsAfter height (index + 1))
        (sym (ap last_entry a.entries ∙ last_entry-snoc x.ledger.entries _))
        (inr (refl, omega arith))

  IsAfter-suc :
      (height index : ℕ) (o : Option ArtifactLedgerEntry)
      → IsAfter height index o
      → IsAfter height (index + 1) o
  IsAfter-suc height index none h = tt
  IsAfter-suc height index (some p) h = omega arith

  execute_transaction-cases :
      (v : TransactionValidator) (height index : ℕ) (x : Execution) (transaction : Bytes)
      (c : TransactionCode)
      → InRange height index
      → IsAfter height index (last_entry x.ledger.entries)
      → validate v transaction (envelope_by_ref x.ledger) ≡ ok c
      → (y : Execution) × (execute_transaction v height index x transaction ≡ ok y)
        × (Appends v height index x transaction y ⊎ Skips v height index x transaction y)
  unfolding execute_transaction
  execute_transaction-cases v height index x transaction c r after valid =
      elim (Bool-cases (is_accepted c)) [
        | inl yes_accepted ↦
            let (y, executed, a) =
              execute-Appends v height index x transaction r after
                (valid ∙ ap ok (is_accepted-eq c yes_accepted)) in
            (y, rw (valid, yes_accepted) executed, inl a)
        | inr refused ↦ (
          record x { transaction_results = x.transaction_results ++ c ∷ [] },
          rw (valid, refused),
          inr (record {
            code = c;
            valid = valid;
            refused = refused;
            ledger = refl;
            new_entries = refl;
            results = refl;
          }),
        )
      ]

  -- How the loop over a block ends
  abbrev pub Ends :
      TransactionValidator → ℕ → ℕ → Execution → List Bytes → Result Execution → Type 0
  Ends v height index x ts r =
      ((z : Execution) × (r ≡ ok z) × Run v height index x ts z)
      ⊎ ((e : Error) × (transaction : Bytes) × (artifacts : Lookup) × (r ≡ err e)
          × (validate v transaction artifacts ≡ err e))

  Ends-cons :
      (v : TransactionValidator) (height index : ℕ) (x y : Execution) (t : Bytes) (ts : List Bytes)
      → execute_transaction v height index x t ≡ ok y
      → (Appends v height index x t y ⊎ Skips v height index x t y)
      → Ends v height (index + 1) y ts (execute_block v height (index + 1) y ts)
      → Ends v height index x (t ∷ ts) (execute_block v height index x (t ∷ ts))
  unfolding execute_block
  Ends-cons v height index x y t ts executed (inl a) (inl (z, ended, run)) =
      inl (z, rw executed ended, append a run)
  Ends-cons v height index x y t ts executed (inr s) (inl (z, ended, run)) =
      inl (z, rw executed ended, skip s run)
  Ends-cons v height index x y t ts executed _ (inr (e, tx, artifacts, raised, cause)) =
      inr (e, tx, artifacts, rw executed raised, cause)

  pub execute_block-Ends :
      (v : TransactionValidator) (height index : ℕ) (x : Execution) (ts : List Bytes)
      → 1 ≤ height
      → height ≤ max_int64
      → index + length ts ≤ max_uint64
      → IsAfter height index (last_entry x.ledger.entries)
      → Ends v height index x ts (execute_block v height index x ts)
  unfolding execute_block
  execute_block-Ends v height index x [] low high fits after = inl (x, refl, stop)
  execute_block-Ends v height index x (t ∷ ts) low high fits after =
      elim (Result-cases (validate v t (envelope_by_ref x.ledger))) [
        | inl (c, valid) ↦
            let (y, executed, step) =
              execute_transaction-cases v height index x t c (omega arith) after valid in
            Ends-cons v height index x y t ts executed step (
              execute_block-Ends v height (index + 1) y ts low high (omega arith)
                (after_step v height index x t y after step))
        | inr (e, raised) ↦
            inr (e, t, envelope_by_ref x.ledger, unfold execute_transaction in rw raised, raised)
      ]
    where
      after_step :
          (v : TransactionValidator) (height index : ℕ) (x : Execution) (t : Bytes) (y : Execution)
          → IsAfter height index (last_entry x.ledger.entries)
          → (Appends v height index x t y ⊎ Skips v height index x t y)
          → IsAfter height (index + 1) (last_entry y.ledger.entries)
      after_step v height index x t y after (inl a) = Appends-IsAfter v height index x t y a
      after_step v height index x t y after (inr s) =
          subst (λ l. IsAfter height (index + 1) (last_entry l.entries)) (sym s.ledger)
            (IsAfter-suc height index (last_entry x.ledger.entries) after)
