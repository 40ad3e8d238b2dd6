-- ===== src/Team/Timeline/Order.antt =====
-- research_team/dashboard.py: the order of the lanes of a timeline.
use discovery_net.Base.{
  ℕ, suc, leb, ltb, eqb, ◌≤◌, nat_eq, All, All-map, Bool, true, false, ◌&&◌, ◌||◌, ◌≡◌, refl, List,
  [], ◌∷◌, ◌==◌, ==_iff, arith, map, nat_eq, if◌then◌else◌,
}
use discovery_net.Base.Sorted.{IsOrder, IsAscending}
use discovery_net.Base.Text.{Str, text_eq, codes}
use discovery_net.Team.Timeline.{
  TimelineRun, Lane, lane_lt, lane_of, with_lane, role_rank, first_lane_index,
}

pub lane_lt-IsOrder : (runs : List TimelineRun) → IsOrder (lane_lt runs)
unfolding lane_lt
lane_lt-IsOrder runs = record {
  asym = λ x y h. ground (arith, h);
  trans = λ x y z h k. ground (arith, h, k);
}

-- The number of elements before the first that is equal
abbrev index_of : Str → List Str → ℕ
index_of x [] = 0
index_of x (y ∷ ys) = let rest = index_of x ys in if x == y then 0 else suc rest

abbrev roles_in_order : List Str
roles_in_order =
    codes "researcher" ∷ codes "reviewer" ∷ codes "principal" ∷ codes "impact-assessor" ∷ []

-- The role stands before in the order of the roles, where a role that is not in it is the last; or
-- the roles stand at one place, and the first run of the lane is not later.
abbrev pub stands_before : List Str → Lane → Lane → Bool
stands_before lanes_of_runs a b =
    ltb (index_of a.role roles_in_order) (index_of b.role roles_in_order)
    || (eqb (index_of a.role roles_in_order) (index_of b.role roles_in_order)
        && leb (index_of a.id lanes_of_runs) (index_of b.id lanes_of_runs))

-- Each lane stands before all later ones.
abbrev pub AreInOrder : List Str → List Lane → Type 0
AreInOrder lanes_of_runs [] = Unit
AreInOrder lanes_of_runs (a ∷ lanes) =
    All (λ b. stands_before lanes_of_runs a b ≡ true) lanes × AreInOrder lanes_of_runs lanes

rank_of_index : ℕ → ℕ
rank_of_index i = if ltb i 4 then i else 9

role_rank-index_of :
    (role : Str)
    → (role_rank role ≡ rank_of_index (index_of role roles_in_order))
      × (index_of role roles_in_order ≤ 4)
unfolding role_rank rank_of_index
role_rank-index_of role = ground arith

module _ (str_lower : Str → Str) where
  first_lane_index-index_of :
      (id : Str) (runs : List TimelineRun)
      → first_lane_index id (map (with_lane str_lower) runs)
        ≡ index_of id (map (lane_of str_lower) runs)
  unfolding first_lane_index
  first_lane_index-index_of id [] = refl
  first_lane_index-index_of id (run ∷ runs) = ground (
    arith,
    ==_iff id (lane_of str_lower run),
    ==_iff (lane_of str_lower run) id,
    first_lane_index-index_of id runs,
  )

  lane_lt-stands_before :
      (runs : List TimelineRun) (a b : Lane)
      → lane_lt (map (with_lane str_lower) runs) b a ≡ false
      → stands_before (map (lane_of str_lower) runs) a b ≡ true
  unfolding lane_lt rank_of_index
  lane_lt-stands_before runs a b h = ground (
    arith,
    h,
    first_lane_index-index_of a.id runs,
    first_lane_index-index_of b.id runs,
    role_rank-index_of a.role,
    role_rank-index_of b.role,
  )

  pub IsAscending-AreInOrder :
      (runs : List TimelineRun) (lanes : List Lane)
      → IsAscending (lane_lt (map (with_lane str_lower) runs)) lanes
      → AreInOrder (map (lane_of str_lower) runs) lanes
  IsAscending-AreInOrder runs [] h = tt
  IsAscending-AreInOrder runs (a ∷ lanes) h = (
    All-map lanes (λ b. lane_lt-stands_before runs a b) h.0,
    IsAscending-AreInOrder runs lanes h.1,
  )
