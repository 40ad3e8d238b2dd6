-- ===== src/Base/Sorted.antt =====
-- `sorted` with a key: a stable sort by insertion, and the order of text.
use Prim.Native.Nat.{suc}
use mathlib.Core.Path.{◌≡◌, refl, ap, ◌∙◌}
use mathlib.Core.Bool.{Bool, true, false, ◌&&◌, ◌||◌}
use mathlib.Core.List.{List, [], ◌∷◌}
use mathlib.Core.Logic.{inl, inr}
use native.Mathlib.Omega.{arith}
use discovery_net.Base.Tests.{Bool-cases, ltb, eqb, if◌then◌else◌, Eq, ◌==◌}
use discovery_net.Base.Lists.{length, All, All-map, All-keep_if, keep_if, contains}
use discovery_net.Base.Text.{Str}

-- The lexicographic order of two texts
unfoldable pub text_lt : Str → Str → Bool
text_lt s [] = false
text_lt [] (d ∷ t) = true
text_lt (c ∷ s) (d ∷ t) = let rest = text_lt s t in ltb c d || (eqb c d && rest)

pub record IsOrder {ℓ} {A : Type ℓ} (lt : A → A → Bool) : Type ℓ where
  pub asym : (x y : A) → lt x y ≡ true → lt y x ≡ false
  pub trans : (x y z : A) → lt y x ≡ false → lt z y ≡ false → lt z x ≡ false

module _ {ℓ} {A : Type ℓ} (lt : A → A → Bool) where
  unfoldable pub insert_sorted : A → List A → List A
  insert_sorted x [] = x ∷ []
  insert_sorted x (y ∷ ys) =
      let rest = insert_sorted x ys in if lt y x then y ∷ rest else x ∷ y ∷ ys

  unfoldable pub sorted : List A → List A
  unfolding insert_sorted
  sorted [] = []
  sorted (x ∷ xs) = insert_sorted x (sorted xs)

  abbrev pub IsAscending : List A → Type 0
  IsAscending [] = Unit
  IsAscending (x ∷ xs) = All (λ y. lt y x ≡ false) xs × IsAscending xs

  All-insert_sorted {κ} :
      (P : A → Type κ) (x : A) (ys : List A) → P x → All P ys → All P (insert_sorted x ys)
  unfolding insert_sorted
  All-insert_sorted P x [] h k = (h, tt)
  All-insert_sorted P x (y ∷ ys) h k = elim (Bool-cases (lt y x)) [
    | inl after ↦ rw after (k.0, All-insert_sorted P x ys h k.1)
    | inr first ↦ rw first (h, k)
  ]

  pub All-sorted {κ} : (P : A → Type κ) (xs : List A) → All P xs → All P (sorted xs)
  unfolding sorted
  All-sorted P [] h = tt
  All-sorted P (x ∷ xs) h = All-insert_sorted P x (sorted xs) h.0 (All-sorted P xs h.1)

  length-insert_sorted : (x : A) (ys : List A) → length (insert_sorted x ys) ≡ suc (length ys)
  unfolding insert_sorted
  length-insert_sorted x [] = refl
  length-insert_sorted x (y ∷ ys) = ground (arith, length-insert_sorted x ys)

  pub length-sorted : (xs : List A) → length (sorted xs) ≡ length xs
  unfolding sorted
  length-sorted [] = refl
  length-sorted (x ∷ xs) = length-insert_sorted x (sorted xs) ∙ ap suc (length-sorted xs)

  insert_sorted-IsAscending :
      IsOrder lt → (x : A) (ys : List A) → IsAscending ys → IsAscending (insert_sorted x ys)
  unfolding insert_sorted
  insert_sorted-IsAscending order x [] h = (tt, tt)
  insert_sorted-IsAscending order x (y ∷ ys) h = elim (Bool-cases (lt y x)) [
    | inl after ↦ rw after (
      All-insert_sorted (λ z. lt z y ≡ false) x ys (order.asym y x after) h.0,
      insert_sorted-IsAscending order x ys h.1,
    )
    | inr first ↦ rw first ((first, All-map ys (λ z k. order.trans x y z first k) h.0), h)
  ]

  pub sorted-IsAscending : IsOrder lt → (xs : List A) → IsAscending (sorted xs)
  unfolding sorted
  sorted-IsAscending order [] = tt
  sorted-IsAscending order (x ∷ xs) =
      insert_sorted-IsAscending order x (sorted xs) (sorted-IsAscending order xs)

  insert_sorted-first :
      (x : A) (ys : List A) → All (λ y. lt y x ≡ false) ys → insert_sorted x ys ≡ x ∷ ys
  unfolding insert_sorted
  insert_sorted-first x [] h = refl
  insert_sorted-first x (y ∷ ys) h = rw h.0 refl

  keep_if-insert_sorted :
      IsOrder lt
      → (p : A → Bool) (x : A) (ys : List A) → IsAscending ys
      → keep_if p (insert_sorted x ys)
        ≡ (if p x then insert_sorted x (keep_if p ys) else keep_if p ys)
  unfolding insert_sorted
  keep_if-insert_sorted order p x [] h = refl
  keep_if-insert_sorted order p x (y ∷ ys) h = elim (Bool-cases (lt y x)) [
    | inl after ↦ ground (arith, keep_if-insert_sorted order p x ys h.1)
    | inr first ↦
        let later : All (λ z. lt z x ≡ false) ys =
          All-map ys (λ z k. order.trans x y z first k) h.0 in
        ground (
          arith,
          insert_sorted-first x (keep_if p ys) (All-keep_if (λ z. lt z x ≡ false) p ys later),
        )
  ]

  -- A stable sort of the kept elements
  pub keep_if-sorted :
      IsOrder lt → (p : A → Bool) (xs : List A) → keep_if p (sorted xs) ≡ sorted (keep_if p xs)
  unfolding sorted
  keep_if-sorted order p [] = refl
  keep_if-sorted order p (x ∷ xs) =
      let here = keep_if-insert_sorted order p x (sorted xs) (sorted-IsAscending order xs) in
      let rest = keep_if-sorted order p xs in
      elim (Bool-cases (p x)) [
        | inl kept ↦ rw (here, rest, kept) refl
        | inr dropped ↦ rw (here, rest, dropped) refl
      ]

  contains-insert_sorted :
      ⦃e : Eq A⦄ (z x : A) (ys : List A)
      → contains z (insert_sorted x ys) ≡ ((x == z) || contains z ys)
  unfolding insert_sorted
  contains-insert_sorted z x [] = refl
  contains-insert_sorted z x (y ∷ ys) = ground (arith, contains-insert_sorted z x ys)

  pub contains-sorted : ⦃e : Eq A⦄ (z : A) (xs : List A) → contains z (sorted xs) ≡ contains z xs
  unfolding sorted
  contains-sorted z [] = refl
  contains-sorted z (x ∷ xs) =
      contains-insert_sorted z x (sorted xs) ∙ ap (λ b. (x == z) || b) (contains-sorted z xs)

text_lt_asym : (s t : Str) → text_lt s t ≡ true → text_lt t s ≡ false
unfolding text_lt
text_lt_asym [] [] h = cc
text_lt_asym [] (d ∷ t) h = refl
text_lt_asym (c ∷ s) [] h = cc
text_lt_asym (c ∷ s) (d ∷ t) h = ground (arith, text_lt_asym s t)

text_lt_trans : (s t u : Str) → text_lt t s ≡ false → text_lt u t ≡ false → text_lt u s ≡ false
unfolding text_lt
text_lt_trans [] [] u h k = k
text_lt_trans [] (d ∷ t) [] h k = cc
text_lt_trans [] (d ∷ t) (e ∷ u) h k = refl
text_lt_trans (c ∷ s) [] u h k = cc
text_lt_trans (c ∷ s) (d ∷ t) [] h k = cc
text_lt_trans (c ∷ s) (d ∷ t) (e ∷ u) h k = ground (arith, text_lt_trans s t u)

pub text_lt-IsOrder : IsOrder text_lt
text_lt-IsOrder = record { asym = text_lt_asym; trans = text_lt_trans }

pub text_lt_total : (s t : Str) → text_lt s t ≡ false → text_lt t s ≡ false → s ≡ t
unfolding text_lt
text_lt_total [] [] h k = refl
text_lt_total [] (d ∷ t) h k = cc
text_lt_total (c ∷ s) [] h k = cc
text_lt_total (c ∷ s) (d ∷ t) h k = ground (arith, text_lt_total s t)
