-- ===== src/Inspector/Feed/Paging.antt =====
-- inspector/service.py: the pages of the feed neither skip nor repeat a transaction.
use discovery_net.Base.{
  ℕ, zero, suc, ◌≤◌, ◌<◌, true, false, ◌≡◌, refl, sym, ap, ◌∙◌, subst, Option, none, some, List, [],
  ◌∷◌, ltb, keep_if, keep_if-keep_if, take, drop, length, All, arith, if◌then◌else◌, Bool-cases,
  inl, inr,
}
use discovery_net.Base.Dict.{keys}
use discovery_net.Index.{GraphState, artifacts}
use discovery_net.Inspector.Feed.{
  Position, position_eq, position_lt, group, sort_positions, is_before, positions_before,
  last_position, next_position,
}
use discovery_net.Inspector.Feed.Positions.{
  IsDescending, some-injective, position_lt_trans, position_lt_irrefl,
  positions_before-IsDescending,
}

keep_if_below :
    (p : Position) (ps : List Position)
    → All (λ q. position_lt q p ≡ true) ps
    → keep_if (λ q. position_lt q p) ps ≡ ps
keep_if_below p [] h = refl
keep_if_below p (q ∷ ps) h = ground (arith, keep_if_below p ps h.1)

position_lt_asym : (p q : Position) → position_lt p q ≡ true → position_lt q p ≡ false
unfolding position_lt
position_lt_asym (a, b) (c, d) h = ground arith

last_position-All {κ} :
    (P : Position → Type κ) (n : ℕ) (p : Position) (ps : List Position)
    → All P ps
    → last_position (take n ps) ≡ some p
    → P p
unfolding last_position
last_position-All P zero p ps h k = cc
last_position-All P (suc n) p [] h k = cc
last_position-All P (suc zero) p (q ∷ ps) h k = subst P (some-injective q p k) h.0
last_position-All P (suc (suc n)) p (q ∷ []) h k = subst P (some-injective q p k) h.0
last_position-All P (suc (suc n)) p (q ∷ r ∷ ps) h k = last_position-All P (suc n) p (r ∷ ps) h.1 k

below-first :
    (p q : Position) (ps : List Position)
    → q ≡ p
    → All (λ r. position_lt r q ≡ true) ps
    → keep_if (λ r. position_lt r p) (q ∷ ps) ≡ ps
below-first p q ps same h =
    subst (λ p. keep_if (λ r. position_lt r p) (q ∷ ps) ≡ ps) same
      (rw (position_lt_irrefl q) (keep_if_below q ps h))

last_position-take :
    (n : ℕ) (p : Position) (ps : List Position)
    → IsDescending ps
    → last_position (take n ps) ≡ some p
    → keep_if (λ q. position_lt q p) ps ≡ drop n ps
unfolding last_position
last_position-take zero p ps h k = cc
last_position-take (suc n) p [] h k = cc
last_position-take (suc zero) p (q ∷ ps) h k = below-first p q ps (some-injective q p k) h.0
last_position-take (suc (suc n)) p (q ∷ []) h k = below-first p q [] (some-injective q p k) tt
last_position-take (suc (suc n)) p (q ∷ r ∷ ps) h k =
    let below = last_position-All (λ t. position_lt t q ≡ true) (suc n) p (r ∷ ps) h.0 k in
    rw (position_lt_asym p q below) (last_position-take (suc n) p (r ∷ ps) h.1 k)

All-is_before :
    (before : Option Position) (ps : List Position)
    → All (λ p. is_before before p ≡ true) (keep_if (is_before before) ps)
All-is_before before [] = tt
All-is_before before (p ∷ ps) = elim (Bool-cases (is_before before p)) [
  | inl kept ↦ rw kept (kept, All-is_before before ps)
  | inr dropped ↦ rw dropped (All-is_before before ps)
]

is_before_trans :
    (before : Option Position) (p q : Position)
    → is_before before p ≡ true
    → position_lt q p ≡ true
    → is_before before q ≡ true
is_before_trans none p q h k = refl
is_before_trans (some b) p q h k = position_lt_trans q p b k h

next_position-eq-some :
    (limit : ℕ) (p : Position) (ps : List Position)
    → next_position limit ps ≡ some p
    → last_position (take limit ps) ≡ some p
unfolding next_position
next_position-eq-some limit p ps h = ground arith

-- What is before the last position of a page of what is before a position
before-next :
    (before : Option Position) (limit : ℕ) (p : Position) (ps : List Position)
    → last_position (take limit (keep_if (is_before before) ps)) ≡ some p
    → keep_if (λ q. position_lt q p) (keep_if (is_before before) ps)
      ≡ keep_if (λ q. position_lt q p) ps
before-next before limit p ps k =
    keep_if-keep_if (λ q. position_lt q p) (is_before before) ps
      (λ q h.
        is_before_trans before p q
          (last_position-All (λ t. is_before before t ≡ true) limit p
            (keep_if (is_before before) ps) (All-is_before before ps) k)
          h)

drop-all : (n : ℕ) (ps : List Position) → length ps ≤ n → drop n ps ≡ []
drop-all zero [] h = refl
drop-all zero (p ∷ ps) h = ground arith
drop-all (suc n) [] h = refl
drop-all (suc n) (p ∷ ps) h = drop-all n ps (omega arith)

last_position-some :
    (q : Position) (qs : List Position) → (p : Position) × (last_position (q ∷ qs) ≡ some p)
unfolding last_position
last_position-some q [] = (q, refl)
last_position-some q (r ∷ qs) = last_position-some r qs

last_position-long :
    (limit : ℕ) (ps : List Position)
    → 1 ≤ limit
    → limit < length ps
    → (p : Position) × (last_position (take limit ps) ≡ some p)
last_position-long zero ps h k = ground arith
last_position-long (suc limit) [] h k = ground arith
last_position-long (suc limit) (q ∷ ps) h k = last_position-some q (take limit ps)

drop-short :
    (limit : ℕ) (ps : List Position)
    → 1 ≤ limit
    → next_position limit ps ≡ none
    → drop limit ps ≡ []
unfolding next_position
drop-short limit ps positive h = elim (Bool-cases (ltb limit (length ps))) [
  | inl long ↦
      let (p, found) = last_position-long limit ps positive (ground arith) in
      let lost : some p ≡ none =
        sym found ∙ sym (ap (λ b. if b then last_position (take limit ps) else none) long) ∙ h in
      cc
  | inr short ↦ drop-all limit ps (ground arith)
]

sorted_before :
    (index : GraphState) (before : Option Position) (limit : ℕ) (p : Position)
    → last_position (take limit (positions_before index before)) ≡ some p
    → positions_before index (some p)
      ≡ keep_if (λ q. position_lt q p) (positions_before index before)
unfolding positions_before
sorted_before index before limit p last =
    sym (before-next before limit p (sort_positions (keys (group [] (artifacts index)))) last)

-- After a page of at least one transaction: if it names a next position, what is before that
-- position is exactly what the page left over; if it names none, the page left nothing.
pub positions_before-next_position :
    (index : GraphState) (before : Option Position) (limit : ℕ)
    → 1 ≤ limit
    → ((p : Position)
        → next_position limit (positions_before index before) ≡ some p
        → positions_before index (some p) ≡ drop limit (positions_before index before))
      × (next_position limit (positions_before index before) ≡ none
          → drop limit (positions_before index before) ≡ [])
positions_before-next_position index before limit positive = (
  λ p named.
      let last = next_position-eq-some limit p (positions_before index before) named in
      let rest =
        last_position-take limit p (positions_before index before)
          (positions_before-IsDescending index before) last in
      sorted_before index before limit p last ∙ rest,
  drop-short limit (positions_before index before) positive,
)
