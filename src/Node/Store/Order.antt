-- ===== src/Node/Store/Order.antt =====
-- The eight bytes of a transaction index: they can be read back, and blobs are ordered as the
-- numbers are. So `ORDER BY height, transaction_index` is the order of the ledger.
use Prim.Native.Nat.pow
use discovery_net.Base.{
  ℕ, zero, suc, ◌+◌, ◌*◌, ◌/◌, ◌%◌, ◌^◌, ◌<◌, true, false, ◌&&◌, ◌||◌, ◌≡◌, refl, sym, ◌∙◌, ap,
  List, [], ◌∷◌, ◌++◌, length, length-append, ltb, eqb, arith, list_beq, list_beq_iff, nat_eq,
}
use discovery_net.Base.Text.{Bytes, text_eq, to_bytes, from_bytes, from_bytes_acc}
use discovery_net.Node.Store.{Row, blob_lt, row_lt, insert_row, order_by_position}

from_bytes_acc-snoc :
    (acc : ℕ) (bs : Bytes) (b : ℕ)
    → from_bytes_acc acc (bs ++ b ∷ []) ≡ 256 * from_bytes_acc acc bs + b
unfolding from_bytes_acc
from_bytes_acc-snoc acc [] b = refl
from_bytes_acc-snoc acc (c ∷ bs) b = from_bytes_acc-snoc (256 * acc + c) bs b

div_below : (w n : ℕ) → n < 256 ^ suc w → n / 256 < 256 ^ w
div_below w n h = let e = pow.suc 256 w in omega arith

pub length-to_bytes : (w n : ℕ) → length (to_bytes w n) ≡ w
unfolding to_bytes
length-to_bytes zero n = refl
length-to_bytes (suc w) n =
    omega
      (arith, length-append (to_bytes w (n / 256)) ((n % 256) ∷ []), length-to_bytes w (n / 256))

pub from_bytes-to_bytes : (w n : ℕ) → n < 256 ^ w → from_bytes (to_bytes w n) ≡ n
unfolding to_bytes from_bytes
from_bytes-to_bytes zero n h = unfold from_bytes_acc in omega (arith, pow.zero 256)
from_bytes-to_bytes (suc w) n h = omega (
  arith,
  from_bytes_acc-snoc 0 (to_bytes w (n / 256)) (n % 256),
  from_bytes-to_bytes w (n / 256) (div_below w n h),
)

blob_lt-snoc :
    (xs ys : Bytes) (c d : ℕ)
    → length xs ≡ length ys
    → blob_lt (xs ++ c ∷ []) (ys ++ d ∷ []) ≡ (blob_lt xs ys || (list_beq xs ys && ltb c d))
unfolding blob_lt
blob_lt-snoc [] [] c d h = ground arith
blob_lt-snoc [] (y ∷ ys) c d h = absurd (omega arith)
blob_lt-snoc (x ∷ xs) [] c d h = absurd (omega arith)
blob_lt-snoc (x ∷ xs) (y ∷ ys) c d h = ground (arith, blob_lt-snoc xs ys c d)

pub to_bytes-injective :
    (w a b : ℕ) → a < 256 ^ w → b < 256 ^ w → list_beq (to_bytes w a) (to_bytes w b) ≡ eqb a b
to_bytes-injective w a b ha hb = grind (
  arith,
  list_beq_iff (to_bytes w a) (to_bytes w b),
  from_bytes-to_bytes w a ha,
  from_bytes-to_bytes w b hb,
)

digit_order :
    (a b : ℕ)
    → (ltb (a / 256) (b / 256) || (eqb (a / 256) (b / 256) && ltb (a % 256) (b % 256))) ≡ ltb a b
digit_order a b = ground arith

blob_lt-asymm : (xs ys : Bytes) → blob_lt xs ys ≡ true → blob_lt ys xs ≡ false
unfolding blob_lt
blob_lt-asymm [] [] h = cc
blob_lt-asymm [] (y ∷ ys) h = refl
blob_lt-asymm (x ∷ xs) [] h = cc
blob_lt-asymm (x ∷ xs) (y ∷ ys) h = ground (arith, blob_lt-asymm xs ys)

pub blob_lt-to_bytes :
    (w a b : ℕ) → a < 256 ^ w → b < 256 ^ w → blob_lt (to_bytes w a) (to_bytes w b) ≡ ltb a b
unfolding to_bytes
blob_lt-to_bytes zero a b ha hb = unfold blob_lt in ground arith
blob_lt-to_bytes (suc w) a b ha hb =
    let da = div_below w a ha in
    let db = div_below w b hb in
    blob_lt-snoc (to_bytes w (a / 256)) (to_bytes w (b / 256)) (a % 256) (b % 256)
      (length-to_bytes w (a / 256) ∙ sym (length-to_bytes w (b / 256)))
    ∙ rw
        (
          blob_lt-to_bytes w (a / 256) (b / 256) da db,
          to_bytes-injective w (a / 256) (b / 256) da db,
        )
        (digit_order a b)

-- Rows in increasing order
abbrev pub IsOrdered : List Row → Type 0
IsOrdered [] = Unit
IsOrdered (r ∷ []) = Unit
IsOrdered (r ∷ s ∷ rows) = (row_lt r s ≡ true) × IsOrdered (s ∷ rows)

row_lt-asymm : (r s : Row) → row_lt r s ≡ true → row_lt s r ≡ false
unfolding row_lt
row_lt-asymm r s h = ground (arith, h, blob_lt-asymm r.transaction_index s.transaction_index)

insert_row-least : (r : Row) (rows : List Row) → IsOrdered (r ∷ rows) → insert_row r rows ≡ r ∷ rows
unfolding insert_row
insert_row-least r [] h = refl
insert_row-least r (s ∷ rows) h = rw (row_lt-asymm r s h.0)

-- Sorting rows that are in order changes nothing.
pub order_by_position-IsOrdered : (rows : List Row) → IsOrdered rows → order_by_position rows ≡ rows
unfolding order_by_position
order_by_position-IsOrdered [] h = refl
order_by_position-IsOrdered (r ∷ []) h = insert_row-least r [] tt
order_by_position-IsOrdered (r ∷ s ∷ rows) h =
    ap (insert_row r) (order_by_position-IsOrdered (s ∷ rows) h.1) ∙ insert_row-least r (s ∷ rows) h
