-- ===== src/Team/Timeline/Lanes.antt =====
-- research_team/dashboard.py: the lanes of a timeline are those of its runs.
use discovery_net.Base.{
  nat_eq, Bool, true, false, ◌&&◌, ◌||◌, ◌≡◌, refl, sym, ap, ◌∙◌, subst, List, [], ◌∷◌, ◌++◌, ◌==◌,
  ==_iff, arith, contains, distinct, map, nat_eq, contains-append, Bool-cases, inl, inr,
  if◌then◌else◌,
}
use discovery_net.Base.Dict.{Dict, keys, values, has_key, insert-new, keys-append, values-append}
use discovery_net.Base.Sorted.{sorted, insert_sorted, sorted-IsAscending}
use discovery_net.Base.Text.{Str, text_eq}
use discovery_net.Team.Timeline.{
  TimelineRun, Lane, Drawing, no_drawing, lane_lt, lane_of, new_lane, draw_run, draw_runs,
  with_lane, lanes_and_events, set_default,
}
use discovery_net.Team.Timeline.Order.{AreInOrder, lane_lt-IsOrder, IsAscending-AreInOrder}

abbrev pub ids : List Lane → List Str
ids lanes = map (λ l. l.id) lanes

ids-append : (xs ys : List Lane) → ids (xs ++ ys) ≡ ids xs ++ ids ys
ids-append [] ys = refl
ids-append (x ∷ xs) ys = ground (arith, ids-append xs ys)

module _ (lt : Lane → Lane → Bool) where
  contains-ids-insert_sorted :
      (z : Str) (x : Lane) (ys : List Lane)
      → contains z (ids (insert_sorted lt x ys)) ≡ ((x.id == z) || contains z (ids ys))
  unfolding insert_sorted
  contains-ids-insert_sorted z x [] = refl
  contains-ids-insert_sorted z x (y ∷ ys) = ground (arith, contains-ids-insert_sorted z x ys)

  contains-ids-sorted :
      (z : Str) (xs : List Lane) → contains z (ids (sorted lt xs)) ≡ contains z (ids xs)
  unfolding sorted
  contains-ids-sorted z [] = refl
  contains-ids-sorted z (x ∷ xs) =
      contains-ids-insert_sorted z x (sorted lt xs)
      ∙ ap (λ b. (x.id == z) || b) (contains-ids-sorted z xs)

  distinct-ids-insert_sorted :
      (x : Lane) (ys : List Lane)
      → distinct (ids (insert_sorted lt x ys)) ≡ distinct (x.id ∷ ids ys)
  unfolding insert_sorted
  distinct-ids-insert_sorted x [] = refl
  distinct-ids-insert_sorted x (y ∷ ys) = ground (
    arith,
    ==_iff x.id y.id,
    ==_iff y.id x.id,
    contains-ids-insert_sorted y.id x ys,
    distinct-ids-insert_sorted x ys,
  )

  distinct-ids-sorted : (xs : List Lane) → distinct (ids (sorted lt xs)) ≡ distinct (ids xs)
  unfolding sorted
  distinct-ids-sorted [] = refl
  distinct-ids-sorted (x ∷ xs) =
      distinct-ids-insert_sorted x (sorted lt xs)
      ∙ ap (λ b. (if b then false else true) && distinct (ids (sorted lt xs)))
          (contains-ids-sorted x.id xs)
      ∙ ap (λ b. (if contains x.id (ids xs) then false else true) && b) (distinct-ids-sorted xs)

or_false : (b : Bool) → (b || false) ≡ b
or_false true = refl
or_false false = refl

distinct-snoc :
    (xs : List Str) (x : Str)
    → distinct xs ≡ true
    → contains x xs ≡ false
    → distinct (xs ++ x ∷ []) ≡ true
distinct-snoc [] x h k = refl
distinct-snoc (y ∷ xs) x h k =
    ground (arith, ==_iff x y, ==_iff y x, contains-append y xs (x ∷ []), distinct-snoc xs x)

-- Each key is the id of its lane, and none stands twice.
record IsKeyed (lanes : Dict Str Lane) : Type 0 where
  keyed : keys lanes ≡ ids (values lanes)
  once : distinct (keys lanes) ≡ true

module _ (str_lower : Str → Str) where
  set_default-IsKeyed :
      (run : TimelineRun) (lanes : Dict Str Lane)
      → IsKeyed lanes
      → IsKeyed (set_default (lane_of str_lower run) (new_lane str_lower run) lanes)
        × ((id : Str)
            → contains id
                (keys (set_default (lane_of str_lower run) (new_lane str_lower run) lanes))
              ≡ (contains id (keys lanes) || (lane_of str_lower run == id)))
  unfolding new_lane
  set_default-IsKeyed run lanes h = elim (Bool-cases (has_key (lane_of str_lower run) lanes)) [
    | inl old ↦ rw old (h, λ id. same id old)
    | inr first ↦
        let made = new_lane str_lower run in
        let added = insert-new (lane_of str_lower run) made lanes first in
        let new_keys = ap keys added ∙ keys-append lanes ((lane_of str_lower run, made) ∷ []) in
        rw first (
          record {
            keyed =
                new_keys
                ∙ ap (λ l. l ++ lane_of str_lower run ∷ []) h.keyed
                ∙ sym (ids-append (values lanes) (made ∷ []))
                ∙ ap ids (
                    sym (values-append lanes ((lane_of str_lower run, made) ∷ []))
                    ∙ ap values (sym added));
            once =
                ap distinct new_keys
                ∙ distinct-snoc (keys lanes) (lane_of str_lower run) h.once first;
          },
          λ id.
              ap (contains id) new_keys
              ∙ contains-append id (keys lanes) (lane_of str_lower run ∷ [])
              ∙ ap (λ b. contains id (keys lanes) || b) (or_false (lane_of str_lower run == id)),
        )
  ]
    where
      same :
          (id : Str)
          → has_key (lane_of str_lower run) lanes ≡ true
          → contains id (keys lanes) ≡ (contains id (keys lanes) || (lane_of str_lower run == id))
      same id old = elim (Bool-cases (lane_of str_lower run == id)) [
        | inl here ↦
            let found =
              subst (λ k. contains k (keys lanes) ≡ true)
                ((==_iff (lane_of str_lower run) id).0 here) old in
            rw (found) refl
        | inr other ↦ rw other (sym (or_false (contains id (keys lanes))))
      ]

  draw_runs-IsKeyed :
      (runs : List TimelineRun) (drawing : Drawing)
      → IsKeyed drawing.lanes
      → IsKeyed (draw_runs str_lower runs drawing).lanes
        × ((id : Str)
            → contains id (keys (draw_runs str_lower runs drawing).lanes)
              ≡ (contains id (keys drawing.lanes) || contains id (map (lane_of str_lower) runs)))
  unfolding draw_runs draw_run
  draw_runs-IsKeyed [] drawing h = (h, λ id. ground arith)
  draw_runs-IsKeyed (run ∷ runs) drawing h =
      let here = set_default-IsKeyed run drawing.lanes h in
      let rest = draw_runs-IsKeyed runs (draw_run str_lower run drawing) here.0 in
      (rest.0, λ id. ground (arith, rest.1 id, here.1 id))

  -- The lanes and their order
  pub record AreLanesOf (runs : List TimelineRun) (lanes : List Lane) : Type 0 where
    pub once : distinct (ids lanes) ≡ true
    pub of_runs : (id : Str) → contains id (ids lanes) ≡ contains id (map (lane_of str_lower) runs)
    pub ordered : AreInOrder (map (lane_of str_lower) runs) lanes

  -- Every lane of a run is listed once, and no other lane is; the lanes stand in the order
  -- researcher, reviewer, principal, impact assessor and others of their roles, and those of one
  -- place in the order of their first runs.
  pub lanes_and_events-AreLanesOf :
      (runs : List TimelineRun) → AreLanesOf runs (lanes_and_events str_lower runs).1
  unfolding lanes_and_events
  lanes_and_events-AreLanesOf runs =
      let lt = lane_lt (map (with_lane str_lower) runs) in
      let lanes = (draw_runs str_lower runs no_drawing).lanes in
      let drawn = draw_runs-IsKeyed runs no_drawing (record { keyed = refl; once = refl }) in
      record {
        once =
            distinct-ids-sorted lt (values lanes) ∙ ap distinct (sym drawn.0.keyed) ∙ drawn.0.once;
        of_runs = λ id.
            contains-ids-sorted lt id (values lanes)
            ∙ ap (contains id) (sym drawn.0.keyed)
            ∙ drawn.1 id;
        ordered = IsAscending-AreInOrder str_lower runs (sorted lt (values lanes)) (
            sorted-IsAscending lt (lane_lt-IsOrder (map (with_lane str_lower) runs))
              (values lanes));
      }
