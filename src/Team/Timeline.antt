-- ===== src/Team/Timeline.antt =====
-- research_team/dashboard.py: the lanes and the events of a timeline.
pub mod Order
pub mod Lanes
pub mod Events
pub mod Roles
pub mod Runs
pub mod Summary
pub mod Counts
pub mod Passes
use discovery_net.Base.{
  ℕ, suc, ◌+◌, Bool, true, false, not, ◌&&◌, ◌||◌, Option, none, some, List, [], ◌∷◌, ◌++◌, ◌==◌,
  ltb, leb, eqb, contains, nat_eq, length, map, take, keep_if, if◌then◌else◌,
}
use discovery_net.Base.Dict.{Dict, values, lookup, insert, has_key}
use discovery_net.Base.Parse.{is_digit, is_lower, rstrip}
use discovery_net.Base.Sorted.{sorted, text_lt}
use discovery_net.Base.Text.{Str, text_eq, codes, is_empty}

-- The texts of an annotation that a timeline uses; none is a key that is missing.
pub record RunAnnotation : Type 0 where
  pub lane_title : Option Str
  pub change_type : Option Str
  pub summary : Option Str
  pub impact : Option Str
  pub paper_potential : Option Str

pub data RunState : Type 0 where
  completed running failed : RunState

-- The keys that the snapshot reads again; the lane is set while the lanes are made. The other keys
-- are passed on from the file.
pub record TimelineRun : Type 0 where
  pub run_id : Str
  pub pass_number : Option ℕ
  pub agent : Str
  pub role : Str
  pub started_at : Str
  pub finished_at : Str
  pub state : RunState
  pub annotation : Option RunAnnotation
  pub lane : Option Str

pub record Lane : Type 0 where
  pub id : Str
  pub full : Str
  pub short : Str
  pub role : Str

-- `origin` is the key `from`.
pub record Event : Type 0 where
  pub lane : Str
  pub time : Str
  pub type : Str
  pub role : Str
  pub label : Option Str
  pub annotation : RunAnnotation
  pub origin : Option Str

-- `ROLE_ORDER.get(role, 9)`
unfoldable pub role_rank : Str → ℕ
role_rank role =
    if role == codes "researcher"
    then 0
    else if role == codes "reviewer"
    then 1
    else if role == codes "principal"
    then 2
    else if role == codes "impact-assessor"
    then 3
    else 9

unfoldable pub default_lane_title : (agent role : Str) → Str
default_lane_title agent role =
    if role == codes "reviewer"
    then codes "Fresh independent reviewers"
    else if role == codes "principal"
    then codes "Fresh principal assessments"
    else if role == codes "impact-assessor"
    then codes "Impact assessor"
    else agent

abbrev pub is_slug_character : ℕ → Bool
is_slug_character c = is_lower c || is_digit c

-- `re.sub(r"[^a-z0-9]+", "-", ...)`; the flag tells that the character before has been replaced.
unfoldable pub dashed : Bool → Str → Str
dashed gap [] = []
dashed gap (c ∷ s) =
    let rest = dashed (not (is_slug_character c)) s in
    if is_slug_character c then c ∷ rest else if gap then rest else b'-' ∷ rest

abbrev pub lstrip_dashes : Str → Str
lstrip_dashes [] = []
lstrip_dashes (c ∷ s) = if eqb c b'-' then lstrip_dashes s else c ∷ s

abbrev pub rstrip_dashes : Str → Str
rstrip_dashes [] = []
rstrip_dashes (c ∷ s) =
    let rest = rstrip_dashes s in if is_empty rest && eqb c b'-' then [] else c ∷ rest

abbrev pub text_or : Str → Str → Str
text_or s default = if is_empty s then default else s

abbrev pub is_shared_role : Str → Bool
is_shared_role role =
    contains role (codes "reviewer" ∷ codes "principal" ∷ codes "impact-assessor" ∷ [])

-- The ellipsis is U+2026.
unfoldable pub short_title : Str → Str
unfolding rstrip
short_title title = if leb (length title) 28 then title else rstrip (take 27 title) ++ 8230 ∷ []

-- `dict.setdefault`
abbrev pub set_default {ℓ} : {V : Type ℓ} → Str → V → Dict Str V → Dict Str V
set_default k v d = if has_key k d then d else insert k v d

-- The order of the runs
unfoldable pub timeline_lt : TimelineRun → TimelineRun → Bool
timeline_lt a b =
    text_lt a.started_at b.started_at || ((a.started_at == b.started_at) && text_lt a.agent b.agent)

-- Each lane has a run, so the search ends at one.
unfoldable pub first_lane_index : Str → List TimelineRun → ℕ
first_lane_index id [] = 0
first_lane_index id (run ∷ runs) =
    let rest = first_lane_index id runs in if has_lane id run.lane then 0 else suc rest
  where
    has_lane : Str → Option Str → Bool
    has_lane id none = false
    has_lane id (some lane) = lane == id

unfoldable pub lane_lt : List TimelineRun → Lane → Lane → Bool
unfolding role_rank first_lane_index
lane_lt runs a b =
    ltb (role_rank a.role) (role_rank b.role)
    || (eqb (role_rank a.role) (role_rank b.role)
        && ltb (first_lane_index a.id runs) (first_lane_index b.id runs))

-- What the loop over the runs has made
pub record Drawing : Type 0 where
  pub lanes : Dict Str Lane
  pub events : List Event
  pub previous_lane : Dict Str Str

abbrev pub no_drawing : Drawing
no_drawing = record { lanes = []; events = []; previous_lane = [] }

abbrev pub text_of : Option Str → Str
text_of none = []
text_of (some s) = s

abbrev pub change_type_of : RunAnnotation → Str
change_type_of annotation = elim annotation.change_type [
  | none ↦ codes "continuation"
  | some type ↦ type
]

-- The lane that a pivot comes from
unfoldable pub origin_of : (change_type lane : Str) → Option Str → Option Str
origin_of change_type lane none = none
origin_of change_type lane (some old) =
    if (change_type == codes "problem_pivot") && not (is_empty old) && not (old == lane)
    then some old
    else none

-- `str_lower` is `str.lower`.
module _ (str_lower : Str → Str) where
  unfoldable pub lane_id : (agent role title : Str) → Str
  unfolding dashed
  lane_id agent role title =
      if is_shared_role role
      then role
      else agent
        ++ codes ":"
        ++ text_or (take 60 (rstrip_dashes (lstrip_dashes (dashed false (str_lower title)))))
            (codes "research")

  abbrev pub title_or_default : TimelineRun → Option RunAnnotation → Str
  title_or_default run none = default_lane_title run.agent run.role
  title_or_default run (some annotation) =
      text_or (text_of annotation.lane_title) (default_lane_title run.agent run.role)

  unfoldable pub lane_title_of : TimelineRun → Str
  unfolding default_lane_title
  lane_title_of run = title_or_default run run.annotation

  unfoldable pub lane_of : TimelineRun → Str
  unfolding lane_id lane_title_of
  lane_of run = lane_id run.agent run.role (lane_title_of run)

  unfoldable pub new_lane : TimelineRun → Lane
  unfolding lane_of lane_title_of short_title
  new_lane run = record {
    id = lane_of run;
    full = lane_title_of run;
    short = short_title (lane_title_of run);
    role = run.role;
  }

  -- The event of a run, after the lane that its agent was in
  unfoldable pub event_of : Option Str → TimelineRun → Option RunAnnotation → List Event
  unfolding lane_of origin_of
  event_of old run none = []
  event_of old run (some annotation) =
      if change_type_of annotation == codes "continuation"
      then []
      else record {
        lane = lane_of run;
        time = run.finished_at;
        type = change_type_of annotation;
        role = run.role;
        label = annotation.summary;
        annotation = annotation;
        origin = origin_of (change_type_of annotation) (lane_of run) old;
      }
        ∷ []

  -- One turn of the loop
  unfoldable pub draw_run : TimelineRun → Drawing → Drawing
  unfolding new_lane event_of lane_of
  draw_run run drawing = record {
    lanes = set_default (lane_of run) (new_lane run) drawing.lanes;
    events = drawing.events ++ event_of (lookup run.agent drawing.previous_lane) run run.annotation;
    previous_lane = insert run.agent (lane_of run) drawing.previous_lane;
  }

  unfoldable pub draw_runs : List TimelineRun → Drawing → Drawing
  unfolding draw_run
  draw_runs [] drawing = drawing
  draw_runs (run ∷ runs) drawing = draw_runs runs (draw_run run drawing)

  -- `run["lane"] = lane_id`
  abbrev pub with_lane : TimelineRun → TimelineRun
  with_lane run = record run { lane = some (lane_of run) }

  -- `_lanes_and_events`; the runs are given their lanes.
  unfoldable pub lanes_and_events : List TimelineRun → List TimelineRun × List Lane × List Event
  unfolding lane_of lane_lt draw_runs sorted
  lanes_and_events runs =
      let drawing = draw_runs runs no_drawing in
      let laned = map with_lane runs in
      (laned, sorted (lane_lt laned) (values drawing.lanes), drawing.events)

  -- The runs in order, and their lanes and events
  unfoldable pub drawn_timeline : List TimelineRun → List TimelineRun × List Lane × List Event
  unfolding lanes_and_events timeline_lt sorted
  drawn_timeline runs = lanes_and_events (sorted timeline_lt runs)
