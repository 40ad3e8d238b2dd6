-- ===== src/Base/Dict.antt =====
-- Python's `dict`, as an association list in insertion order: the code iterates over its dicts.
use mathlib.Core.Path.{◌≡◌, refl}
use mathlib.Core.Bool.{Bool, true, false}
use mathlib.Core.Option.{Option, none, some}
use mathlib.Core.List.{List, [], ◌∷◌, ◌++◌}
use native.Mathlib.Omega.{arith}
use discovery_net.Base.Tests.{Eq, ◌==◌, ==_iff, if◌then◌else◌}
use discovery_net.Base.Lists.{contains}

abbrev pub Dict {ℓ κ} : Type ℓ → Type κ → Type (ℓ ⊔ κ)
Dict K V = List (K × V)

module _ {ℓ κ} {K : Type ℓ} {V : Type κ} where
  abbrev pub keys : Dict K V → List K
  keys [] = []
  keys ((k, v) ∷ d) = k ∷ keys d

  abbrev pub values : Dict K V → List V
  values [] = []
  values ((k, v) ∷ d) = v ∷ values d

  pub keys-append : (d e : Dict K V) → keys (d ++ e) ≡ keys d ++ keys e
  keys-append [] e = refl
  keys-append (x ∷ d) e = ground (arith, keys-append d e)

  pub values-append : (d e : Dict K V) → values (d ++ e) ≡ values d ++ values e
  values-append [] e = refl
  values-append (x ∷ d) e = ground (arith, values-append d e)

module _ {ℓ κ} {K : Type ℓ} {V : Type κ} ⦃e : Eq K⦄ where
  -- `d.get(k)`
  abbrev pub lookup : K → Dict K V → Option V
  lookup k [] = none
  lookup k ((j, v) ∷ d) = if j == k then some v else lookup k d

  -- `k in d`
  abbrev pub has_key : K → Dict K V → Bool
  has_key k d = contains k (keys d)

  -- `d[k] = v`: an old key keeps its place.
  abbrev pub insert : K → V → Dict K V → Dict K V
  insert k v [] = (k, v) ∷ []
  insert k v ((j, w) ∷ d) = if j == k then (j, v) ∷ d else (j, w) ∷ insert k v d

  -- `d | e`
  abbrev pub union : Dict K V → Dict K V → Dict K V
  union d [] = d
  union d ((k, v) ∷ r) = union (insert k v d) r

  pub lookup-insert :
      (k j : K) (v : V) (d : Dict K V)
      → lookup j (insert k v d) ≡ (if k == j then some v else lookup j d)
  lookup-insert k j v [] = refl
  lookup-insert k j v ((i, w) ∷ d) =
      ground (arith, ==_iff i k, ==_iff i j, ==_iff k j, lookup-insert k j v d)

  pub insert-new :
      (k : K) (v : V) (d : Dict K V) → has_key k d ≡ false → insert k v d ≡ d ++ (k, v) ∷ []
  insert-new k v [] h = refl
  insert-new k v ((j, w) ∷ d) h = ground (arith, insert-new k v d)

  pub lookup-eq-none : (k : K) (d : Dict K V) → has_key k d ≡ false → lookup k d ≡ none
  lookup-eq-none k [] h = refl
  lookup-eq-none k ((j, v) ∷ d) h = ground (arith, lookup-eq-none k d)

  pub has_key_of_lookup : (k : K) (v : V) (d : Dict K V) → lookup k d ≡ some v → has_key k d ≡ true
  has_key_of_lookup k v [] h = cc
  has_key_of_lookup k v ((j, w) ∷ d) h = ground (arith, has_key_of_lookup k v d)

  pub lookup-append_left :
      (k : K) (v : V) (d r : Dict K V) → lookup k d ≡ some v → lookup k (d ++ r) ≡ some v
  lookup-append_left k v [] r h = cc
  lookup-append_left k v ((j, w) ∷ d) r h = ground (arith, lookup-append_left k v d r)

  pub lookup-append_right :
      (k : K) (d r : Dict K V) → has_key k d ≡ false → lookup k (d ++ r) ≡ lookup k r
  lookup-append_right k [] r h = refl
  lookup-append_right k ((j, w) ∷ d) r h = ground (arith, lookup-append_right k d r)
