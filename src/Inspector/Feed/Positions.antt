-- ===== src/Inspector/Feed/Positions.antt =====
-- inspector/service.py: the positions that the feed lists.
use discovery_net.Base.{
  Bool, true, false, ◌||◌, ◌≡◌, refl, ap, ◌∙◌, Option, none, some, List, [], ◌∷◌, ◌++◌, ◌==◌,
  ==_iff, keep_if, any, contains, distinct, All, All-map, All-keep_if, arith, Bool-cases, inl, inr,
}
use discovery_net.Base.Dict.{keys, lookup, insert}
use discovery_net.Index.{IndexedArtifact, GraphState, artifacts}
use discovery_net.Inspector.Feed.{
  Position, position_beq, position_eq, position_lt, Groups, position_of, group_at, group,
  insert_position, sort_positions, is_before, positions_before,
}

-- Each position is before the ones in front of it.
abbrev pub IsDescending : List Position → Type 0
IsDescending [] = Unit
IsDescending (p ∷ ps) = All (λ q. position_lt q p ≡ true) ps × IsDescending ps

pub position_lt_trans :
    (p q r : Position) → position_lt p q ≡ true → position_lt q r ≡ true → position_lt p r ≡ true
unfolding position_lt
position_lt_trans (a, b) (c, d) (e, f) h k = ground arith

position_lt_total :
    (p q : Position) → position_lt q p ≡ false → (q == p) ≡ false → position_lt p q ≡ true
unfolding position_lt position_beq
position_lt_total (a, b) (c, d) h k = ground arith

pub position_lt_irrefl : (p : Position) → position_lt p p ≡ false
unfolding position_lt
position_lt_irrefl (a, b) = ground arith

All-insert_position {κ} :
    (P : Position → Type κ) (p : Position) (ps : List Position)
    → P p
    → All P ps
    → All P (insert_position p ps)
unfolding insert_position
All-insert_position P p [] h k = (h, tt)
All-insert_position P p (q ∷ ps) h k = elim (Bool-cases (position_lt q p)) [
  | inl first ↦ rw first (h, k)
  | inr after ↦ rw after (k.0, All-insert_position P p ps h k.1)
]

insert_position-IsDescending :
    (p : Position) (ps : List Position)
    → contains p ps ≡ false
    → IsDescending ps
    → IsDescending (insert_position p ps)
unfolding insert_position
insert_position-IsDescending p [] h k = (tt, tt)
insert_position-IsDescending p (q ∷ ps) h k = elim (Bool-cases (position_lt q p)) [
  | inl first ↦
      rw first ((first, All-map ps (λ r below. position_lt_trans r q p below first) k.0), k)
  | inr after ↦
      let other : (q == p) ≡ false = ground arith in
      let absent : contains p ps ≡ false = ground arith in
      rw after (
        All-insert_position (λ r. position_lt r q ≡ true) p ps (position_lt_total p q after other)
            k.0,
        insert_position-IsDescending p ps absent k.1,
      )
]

contains-insert_position :
    (r p : Position) (ps : List Position)
    → contains r (insert_position p ps) ≡ ((p == r) || contains r ps)
unfolding insert_position
contains-insert_position r p [] = refl
contains-insert_position r p (q ∷ ps) = ground (arith, contains-insert_position r p ps)

contains-sort_positions :
    (r : Position) (ps : List Position) → contains r (sort_positions ps) ≡ contains r ps
unfolding sort_positions
contains-sort_positions r [] = refl
contains-sort_positions r (p ∷ ps) =
    contains-insert_position r p (sort_positions ps)
    ∙ ap (λ b. (p == r) || b) (contains-sort_positions r ps)

sort_positions-IsDescending :
    (ps : List Position) → distinct ps ≡ true → IsDescending (sort_positions ps)
unfolding sort_positions
sort_positions-IsDescending [] h = tt
sort_positions-IsDescending (p ∷ ps) h =
    let absent : contains p ps ≡ false = ground arith in
    let others : distinct ps ≡ true = ground arith in
    insert_position-IsDescending p (sort_positions ps) (contains-sort_positions p ps ∙ absent)
      (sort_positions-IsDescending ps others)

contains-insert :
    (r p : Position) (v : List IndexedArtifact) (d : Groups)
    → contains r (keys (insert p v d)) ≡ ((p == r) || contains r (keys d))
contains-insert r p v [] = refl
contains-insert r p v ((q, w) ∷ d) =
    ground (arith, contains-insert r p v d, ==_iff q p, ==_iff p r, ==_iff q r)

distinct-insert :
    (p : Position) (v : List IndexedArtifact) (d : Groups)
    → distinct (keys d) ≡ true
    → distinct (keys (insert p v d)) ≡ true
distinct-insert p v [] h = refl
distinct-insert p v ((q, w) ∷ d) h =
    ground (arith, contains-insert q p v d, distinct-insert p v d, ==_iff q p, ==_iff p q)

distinct-group :
    (d : Groups) (xs : List IndexedArtifact)
    → distinct (keys d) ≡ true
    → distinct (keys (group d xs)) ≡ true
unfolding group
distinct-group d [] h = h
distinct-group d (x ∷ xs) h =
    distinct-group (insert (position_of x) (group_at (lookup (position_of x) d) ++ x ∷ []) d) xs
      (distinct-insert (position_of x) (group_at (lookup (position_of x) d) ++ x ∷ []) d h)

contains-group :
    (p : Position) (d : Groups) (xs : List IndexedArtifact)
    → contains p (keys (group d xs)) ≡ (contains p (keys d) || any (λ x. position_of x == p) xs)
unfolding group
contains-group p d [] = ground arith
contains-group p d (x ∷ xs) =
    contains-group p (insert (position_of x) (group_at (lookup (position_of x) d) ++ x ∷ []) d) xs
    ∙ ap (λ b. b || any (λ x. position_of x == p) xs)
        (contains-insert p (position_of x) (group_at (lookup (position_of x) d) ++ x ∷ []) d)
    ∙ ground arith

pub some-injective : (p q : Position) → ◌≡◌ {A = Option Position} (some p) (some q) → p ≡ q
some-injective p q h = cc

keep_if-IsDescending :
    (p : Position → Bool) (ps : List Position) → IsDescending ps → IsDescending (keep_if p ps)
keep_if-IsDescending p [] h = tt
keep_if-IsDescending p (q ∷ ps) h = elim (Bool-cases (p q)) [
  | inl kept ↦
      rw kept (All-keep_if (λ r. position_lt r q ≡ true) p ps h.0, keep_if-IsDescending p ps h.1)
  | inr dropped ↦ rw dropped (keep_if-IsDescending p ps h.1)
]

pub positions_before-IsDescending :
    (index : GraphState) (before : Option Position) → IsDescending (positions_before index before)
unfolding positions_before
positions_before-IsDescending index before =
    keep_if-IsDescending (is_before before) (sort_positions (keys (group [] (artifacts index)))) (
      sort_positions-IsDescending (keys (group [] (artifacts index)))
        (distinct-group [] (artifacts index) refl))

keep_if-true : (ps : List Position) → keep_if (is_before none) ps ≡ ps
keep_if-true [] = refl
keep_if-true (p ∷ ps) = ap (λ l. p ∷ l) (keep_if-true ps)

-- The feed lists the position of each indexed artifact, and no other, each once, latest first.
pub positions_before-IsComplete :
    (index : GraphState)
    → IsDescending (positions_before index none)
      × ((p : Position)
          → contains p (positions_before index none)
            ≡ any (λ x. position_of x == p) (artifacts index))
positions_before-IsComplete index = (
  positions_before-IsDescending index none,
  λ p.
      unfold positions_before in
      ap (contains p) (keep_if-true (sort_positions (keys (group [] (artifacts index)))))
      ∙ contains-sort_positions p (keys (group [] (artifacts index)))
      ∙ contains-group p [] (artifacts index),
)
