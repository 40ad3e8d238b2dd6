-- ===== src/Base/Result.antt =====
-- Exceptions as values. The constructors name the Python exception classes that the code raises.
use mathlib.Core.Path.{◌≡◌, refl}
use mathlib.Core.Bool.{Bool, true, false}
use mathlib.Core.List.{List, [], ◌∷◌, ◌++◌}
use mathlib.Core.Logic.{◌⊎◌, inl, inr}
use native.Mathlib.Omega.{arith}

-- `CodecError`, pydantic's `ValidationError` and `UnicodeEncodeError` are subclasses of
-- `ValueError`; `OverflowError` is not.
pub data Error : Type 0 where
  type_error value_error codec_error validation_error unicode_error overflow_error runtime_error :
      Error
  submission_error : Error
  integrity_error : Error
  key_error index_error : Error
  controller_error claude_code_error worker_stopped file_exists_error : Error

-- `err` is an exception on its way up.
pub data Result {ℓ} (A : Type ℓ) : Type ℓ where
  err : Error → Result A
  ok : A → Result A

module _ {ℓ κ} {A : Type ℓ} {B : Type κ} where
  infixl 5 ◌>>=◌ ◌>>◌
  -- An exception skips the rest.
  abbrev pub ◌>>=◌ : Result A → (A → Result B) → Result B
  err e >>= next = err e
  ok a >>= next = next a

  abbrev pub ◌>>◌ : Result A → Result B → Result B
  first >> second = first >>= λ _. second

-- `if not test: raise e`
abbrev pub require : Bool → Error → Result (Unit {0})
require true e = ok tt
require false e = err e

pub require-eq-ok : (test : Bool) (e : Error) {u : Unit {0}} → require test e ≡ ok u → test ≡ true
require-eq-ok true e h = refl
require-eq-ok false e h = cc

-- `except ValueError`
abbrev pub is_value_error : Error → Bool
is_value_error value_error = true
is_value_error codec_error = true
is_value_error validation_error = true
is_value_error unicode_error = true
is_value_error _ = false

abbrev pub is_type_error : Error → Bool
is_type_error type_error = true
is_type_error _ = false

module _ {ℓ} {A : Type ℓ} where
  -- `except ...: raise e'` on the classes that `caught` tests.
  abbrev pub reraise : (Error → Bool) → Error → Result A → Result A
  reraise caught e' (ok a) = ok a
  reraise caught e' (err e) = elim (caught e) [ true ↦ err e' | false ↦ err e ]

  abbrev pub IsOk : Result A → Type ℓ
  IsOk r = (a : A) × (r ≡ ok a)

  pub ok-injective : {a b : A} → ◌≡◌ {A = Result A} (ok a) (ok b) → a ≡ b
  ok-injective h = cc

  -- `>>= ok` changes nothing.
  pub bind-ok : (r : Result A) → (r >>= λ a. ok a) ≡ r
  bind-ok (ok a) = refl
  bind-ok (err e) = refl

  pub Result-cases : (r : Result A) → ((a : A) × (r ≡ ok a)) ⊎ ((e : Error) × (r ≡ err e))
  Result-cases (ok a) = inl (a, refl)
  Result-cases (err e) = inr (e, refl)

  pub reraise-eq-ok :
      (caught : Error → Bool) (e : Error) (r : Result A) {a : A}
      → reraise caught e r ≡ ok a
      → r ≡ ok a
  reraise-eq-ok caught e (ok b) h = h
  reraise-eq-ok caught e (err x) h = ground arith

module _ {ℓ κ} {A : Type ℓ} {B : Type κ} where
  -- What ran before, if a sequence returns
  pub >>=-eq-ok :
      (r : Result A) (next : A → Result B) {b : B}
      → (r >>= next) ≡ ok b
      → (a : A) × (r ≡ ok a) × (next a ≡ ok b)
  >>=-eq-ok (err e) next h = cc
  >>=-eq-ok (ok a) next h = (a, refl, h)

  -- The same with a continuation, for a long sequence
  pub after {μ} :
      (r : Result A) {next : A → Result B} {b : B} {C : Type μ}
      → (r >>= next) ≡ ok b
      → ((a : A) → r ≡ ok a → next a ≡ ok b → C)
      → C
  after (err e) h k = cc
  after (ok a) h k = k a refl h

  -- A comprehension whose body may raise.
  abbrev pub map_m : (A → Result B) → List A → Result (List B)
  map_m f [] = ok []
  map_m f (x ∷ xs) = let rest = map_m f xs in f x >>= λ y. rest >>= λ ys. ok (y ∷ ys)

  -- A loop over a list whose body updates a state and may raise.
  abbrev pub for_m : (B → A → Result B) → B → List A → Result B
  for_m f s [] = ok s
  for_m f s (x ∷ xs) = f s x >>= λ t. for_m f t xs

  pub for_m-append :
      (f : B → A → Result B) (s : B) (xs ys : List A)
      → for_m f s (xs ++ ys) ≡ (for_m f s xs >>= λ t. for_m f t ys)
  for_m-append f s [] ys = refl
  for_m-append f s (x ∷ xs) ys = go (f s x) (λ t. for_m-append f t xs ys)
    where
      go :
          (r : Result B)
          → ((t : B) → for_m f t (xs ++ ys) ≡ (for_m f t xs >>= λ u. for_m f u ys))
          → (r >>= λ t. for_m f t (xs ++ ys)) ≡ ((r >>= λ t. for_m f t xs) >>= λ t. for_m f t ys)
      go (ok t) h = h t
      go (err e) h = refl

  pub for_m-snoc :
      (f : B → A → Result B) (s t : B) (xs : List A) (x : A)
      → for_m f s xs ≡ ok t
      → for_m f s (xs ++ x ∷ []) ≡ f t x
  for_m-snoc f s t xs x h = rw (for_m-append f s xs (x ∷ []), h) (bind-ok (f t x))

  -- A change of the state that the body of a loop passes on, the loop passes on.
  pub for_m-commutes :
      (f : B → A → Result B) (g : B → B)
      → ((s : B) (x : A) → f (g s) x ≡ (f s x >>= λ t. ok (g t)))
      → (s : B) (xs : List A) → for_m f (g s) xs ≡ (for_m f s xs >>= λ t. ok (g t))
  for_m-commutes f g h s [] = refl
  for_m-commutes f g h s (x ∷ xs) = rw (h s x) (go (f s x) (λ t. for_m-commutes f g h t xs))
    where
      go :
          (r : Result B)
          → ((t : B) → for_m f (g t) xs ≡ (for_m f t xs >>= λ u. ok (g u)))
          → ((r >>= λ t. ok (g t)) >>= λ t. for_m f t xs)
            ≡ ((r >>= λ t. for_m f t xs) >>= λ t. ok (g t))
      go (ok t) k = k t
      go (err e) k = refl
