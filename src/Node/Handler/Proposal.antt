-- ===== src/Node/Handler/Proposal.antt =====
-- node/cometbft_callback_handler.py: what `prepare_proposal` selects.
use discovery_net.Base.{
  ℕ, ◌+◌, ◌≤◌, ◌<◌, ◌≡◌, refl, List, [], ◌∷◌, ◌++◌, length, ltb, arith, Bool-cases, inl, inr, ap,
  subst,
}
use native.Mathlib.Nat.{add_assoc, zero-add}
use discovery_net.Base.Result.{ok}
use discovery_net.Base.Text.{Bytes}
use discovery_net.Node.Ledger.{max_int64}
use discovery_net.Node.Handler.{select_prefix, prepare_proposal}

-- The number of bytes of a list of transactions
abbrev pub total_bytes : List Bytes → ℕ
total_bytes [] = 0
total_bytes (t ∷ ts) = length t + total_bytes ts

-- What is left is nothing, or its first transaction does not fit any more.
abbrev pub IsFull : ℕ → ℕ → List Bytes → Type 0
IsFull maximum size [] = Unit
IsFull maximum size (t ∷ ts) = maximum < size + length t

-- `selected` is the longest prefix of `transactions` that fits.
pub record IsLongestPrefix (maximum : ℕ) (transactions selected : List Bytes) : Type 0 where
  pub left : List Bytes
  pub prefix : selected ++ left ≡ transactions
  pub fits : total_bytes selected ≤ maximum
  pub full : IsFull maximum (total_bytes selected) left

abbrev SelectsFrom : ℕ → ℕ → List Bytes → List Bytes → Type 0
SelectsFrom maximum size transactions selected =
    (left : List Bytes) × (selected ++ left ≡ transactions)
    × (size + total_bytes selected ≤ maximum)
    × IsFull maximum (size + total_bytes selected) left

select_prefix_lem :
    (maximum size : ℕ) (ts : List Bytes)
    → size ≤ maximum
    → SelectsFrom maximum size ts (select_prefix maximum size ts)
unfolding select_prefix
select_prefix_lem maximum size [] h = ([], refl, omega arith, tt)
select_prefix_lem maximum size (t ∷ ts) h = elim (Bool-cases (ltb maximum (size + length t))) [
  | inl over ↦ rw over (t ∷ ts, refl, omega arith, ground arith)
  | inr within ↦
      let (left, prefix, fits, full) =
        select_prefix_lem maximum (size + length t) ts (ground arith) in
      rw within (
        left,
        ap (λ l. t ∷ l) prefix,
        omega arith,
        subst (λ n. IsFull maximum n left)
            (add_assoc size (length t) (total_bytes (select_prefix maximum (size + length t) ts)))
            full,
      )
]

-- For a bound that fits in an int64, `prepare_proposal` returns the longest prefix of the
-- transactions whose total size is within the bound.
pub prepare_proposal-IsLongestPrefix :
    (transactions : List Bytes) (maximum : ℕ)
    → maximum ≤ max_int64
    → (selected : List Bytes) × (prepare_proposal transactions maximum ≡ ok selected)
      × IsLongestPrefix maximum transactions selected
unfolding prepare_proposal
prepare_proposal-IsLongestPrefix transactions maximum h =
    let (left, prefix, fits, full) = select_prefix_lem maximum 0 transactions (omega arith) in
    (
      select_prefix maximum 0 transactions,
      ground arith,
      record {
        left = left;
        prefix = prefix;
        fits = omega arith;
        full =
            subst (λ n. IsFull maximum n left)
              (zero-add (total_bytes (select_prefix maximum 0 transactions))) full;
      },
    )
