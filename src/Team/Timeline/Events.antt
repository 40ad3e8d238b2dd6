-- ===== src/Team/Timeline/Events.antt =====
-- research_team/dashboard.py: an event and the run before it.
use discovery_net.Base.{
  ◌≡◌, refl, sym, ap, ◌∙◌, Option, none, some, List, [], ◌∷◌, ◌++◌, ◌==◌, append_assoc, append-nil,
  Bool, true, false, ◌≢◌, ◌⊎◌, ◌↔◌, inl, inr, subst, arith, ==_iff, Bool-cases, if◌then◌else◌,
}
use discovery_net.Base.Dict.{lookup, lookup-insert}
use discovery_net.Base.Text.{Str, text_eq, codes, is_empty}
use discovery_net.Team.Timeline.{
  TimelineRun, Event, RunAnnotation, lane_id, origin_of, lane_title_of, is_shared_role,
  change_type_of, Drawing, no_drawing, lane_of, event_of, draw_run, draw_runs, lanes_and_events,
}

true_is_not_false : ◌≡◌ {A = Bool} true false → ⊥
true_is_not_false h = cc

module _ (str_lower : Str → Str) where
  -- The lane of the latest run of an agent; the runs stand with the latest first.
  abbrev pub latest_lane : Str → List TimelineRun → Option Str
  latest_lane agent [] = none
  latest_lane agent (run ∷ runs) =
      if run.agent == agent then some (lane_of str_lower run) else latest_lane agent runs

  -- A run that makes no event
  abbrev pub IsSilent : Option RunAnnotation → Type 0
  IsSilent none = Unit
  IsSilent (some annotation) =
      (annotation.change_type ≡ none) ⊎ (annotation.change_type ≡ some (codes "continuation"))

  -- The event of a run after earlier ones, which stand with the latest first: it comes from a lane
  -- exactly when it is a pivot and the latest earlier run of the agent is in this lane, which is not
  -- that of the run.
  pub record IsEventOf (earlier : List TimelineRun) (run : TimelineRun) (event : Event)
      : Type 0 where
    pub annotated : run.annotation ≡ some event.annotation
    pub change : event.annotation.change_type ≡ some event.type
    pub changes : event.type ≢ codes "continuation"
    pub lane : event.lane ≡ lane_of str_lower run
    pub time : event.time ≡ run.finished_at
    pub role : event.role ≡ run.role
    pub label : event.label ≡ event.annotation.summary
    pub origin :
        (old : Str)
        → (event.origin ≡ some old) ↔ (
            (event.type ≡ codes "problem_pivot")
            × (latest_lane run.agent earlier ≡ some old)
            × (old ≢ lane_of str_lower run))

  -- The events of runs after earlier ones, in the order of the runs
  pub data AreEvents : (earlier runs : List TimelineRun) → List Event → Type 0 where
    no_run : {earlier : List TimelineRun} → AreEvents earlier [] []
    silent :
        {earlier runs : List TimelineRun} {run : TimelineRun} {events : List Event}
        → IsSilent run.annotation
        → AreEvents (run ∷ earlier) runs events
        → AreEvents earlier (run ∷ runs) events
    speaks :
        {earlier runs : List TimelineRun} {run : TimelineRun} {event : Event} {events : List Event}
        → IsEventOf earlier run event
        → AreEvents (run ∷ earlier) runs events
        → AreEvents earlier (run ∷ runs) (event ∷ events)

  -- The events of runs after earlier ones, which stand with the latest first
  abbrev events_after : (earlier runs : List TimelineRun) → List Event
  events_after earlier [] = []
  events_after earlier (run ∷ runs) =
      event_of str_lower (latest_lane run.agent earlier) run run.annotation
      ++ events_after (run ∷ earlier) runs

  draw_runs-events :
      (earlier runs : List TimelineRun) (drawing : Drawing)
      → ((agent : Str) → lookup agent drawing.previous_lane ≡ latest_lane agent earlier)
      → (draw_runs str_lower runs drawing).events ≡ drawing.events ++ events_after earlier runs
  unfolding draw_runs draw_run
  draw_runs-events earlier [] drawing h = sym (append-nil drawing.events)
  draw_runs-events earlier (run ∷ runs) drawing h =
      let here = event_of str_lower (lookup run.agent drawing.previous_lane) run run.annotation in
      draw_runs-events (run ∷ earlier) runs (draw_run str_lower run drawing) (λ agent.
        lookup-insert run.agent agent (lane_of str_lower run) drawing.previous_lane
        ∙ ap (λ o. if run.agent == agent then some (lane_of str_lower run) else o) (h agent))
      ∙ append_assoc drawing.events here (events_after (run ∷ earlier) runs)
      ∙ ap
          (λ o.
            drawing.events
            ++ (event_of str_lower o run run.annotation ++ events_after (run ∷ earlier) runs))
          (h run.agent)

  with_colon_nonempty : (agent rest : Str) → is_empty (agent ++ codes ":" ++ rest) ≡ false
  with_colon_nonempty [] rest = refl
  with_colon_nonempty (c ∷ agent) rest = refl

  lane_id_nonempty :
      (agent role title : Str) → is_empty (lane_id str_lower agent role title) ≡ false
  unfolding lane_id
  lane_id_nonempty agent [] title = with_colon_nonempty agent _
  lane_id_nonempty agent (c ∷ role) title = elim (Bool-cases (is_shared_role (c ∷ role))) [
    | inl shared ↦ rw shared refl
    | inr own ↦ rw own (with_colon_nonempty agent _)
  ]

  lane_of_nonempty : (run : TimelineRun) → is_empty (lane_of str_lower run) ≡ false
  unfolding lane_of
  lane_of_nonempty run = lane_id_nonempty run.agent run.role (lane_title_of str_lower run)

  latest_lane_nonempty :
      (agent : Str) (earlier : List TimelineRun) (old : Str)
      → latest_lane agent earlier ≡ some old
      → is_empty old ≡ false
  latest_lane_nonempty agent [] old h = cc
  latest_lane_nonempty agent (run ∷ earlier) old h =
      ground (arith, h, lane_of_nonempty run, latest_lane_nonempty agent earlier old)

  origin_of-pivot :
      (type lane old : Str) (latest : Option Str)
      → ((l : Str) → latest ≡ some l → is_empty l ≡ false)
      → (origin_of type lane latest ≡ some old)
        ↔ ((type ≡ codes "problem_pivot") × (latest ≡ some old) × (old ≢ lane))
  unfolding origin_of
  origin_of-pivot type lane old none named = (λ h. absurd (no_lane h), λ h. absurd (no_lane h.1))
    where
      no_lane : ◌≡◌ {A = Option Str} none (some old) → ⊥
      no_lane h = cc
  origin_of-pivot type lane old (some l) named =
      ground
        (arith, ==_iff type (codes "problem_pivot"), ==_iff l lane, ==_iff old lane, named l refl)

  spoken :
      (earlier : List TimelineRun) (run : TimelineRun) (annotation : RunAnnotation) (type : Str)
      → run.annotation ≡ some annotation
      → annotation.change_type ≡ some type
      → type ≢ codes "continuation"
      → IsEventOf earlier run (record {
        lane = lane_of str_lower run;
        time = run.finished_at;
        type = type;
        role = run.role;
        label = annotation.summary;
        annotation = annotation;
        origin = origin_of type (lane_of str_lower run) (latest_lane run.agent earlier);
      })
  spoken earlier run annotation type annotated change changes = record {
    annotated = annotated;
    change = change;
    changes = changes;
    lane = refl;
    time = refl;
    role = refl;
    label = refl;
    origin = λ old.
        origin_of-pivot type (lane_of str_lower run) old (latest_lane run.agent earlier)
          (latest_lane_nonempty run.agent earlier);
  }

  event_of-AreEvents :
      (earlier runs : List TimelineRun) (run : TimelineRun) (annotation : Option RunAnnotation)
      (events : List Event)
      → run.annotation ≡ annotation
      → AreEvents (run ∷ earlier) runs events
      → AreEvents earlier
          (run ∷ runs)
          (event_of str_lower (latest_lane run.agent earlier) run annotation ++ events)
  unfolding event_of
  event_of-AreEvents earlier runs run none events h rest = silent (subst IsSilent (sym h) tt) rest
  event_of-AreEvents earlier runs run (some annotation) events h rest =
      go annotation.change_type refl
    where
      go :
          (change_type : Option Str)
          → annotation.change_type ≡ change_type
          → AreEvents earlier
              (run ∷ runs)
              (event_of str_lower (latest_lane run.agent earlier) run (some annotation) ++ events)
      go none e =
          let same : (change_type_of annotation == codes "continuation") ≡ true = ground arith in
          rw same (silent (subst IsSilent (sym h) (inl e)) rest)
      go (some type) e =
          let named : change_type_of annotation ≡ type = ground arith in
          elim (Bool-cases (change_type_of annotation == codes "continuation")) [
            | inl same ↦
                let continues =
                  (==_iff (change_type_of annotation) (codes "continuation")).0 same in
                rw same
                  (silent (subst IsSilent (sym h) (inr (e ∙ ap some (sym named ∙ continues)))) rest)
            | inr other ↦ rw other (
                speaks
                  (spoken earlier run annotation (change_type_of annotation) h
                    (e ∙ ap some (sym named))
                    (λ k. true_is_not_false (sym ((==_iff _ _).1 k) ∙ other)))
                  rest)
          ]

  events_after-AreEvents :
      (earlier runs : List TimelineRun) → AreEvents earlier runs (events_after earlier runs)
  events_after-AreEvents earlier [] = no_run
  events_after-AreEvents earlier (run ∷ runs) =
      event_of-AreEvents earlier runs run run.annotation (events_after (run ∷ earlier) runs) refl
        (events_after-AreEvents (run ∷ earlier) runs)

  -- The events stand in the order of the runs: one for each run with an annotation that changes
  -- something, and none for another run. An event comes from a lane exactly when it is a pivot and
  -- the latest earlier run of its agent is in this lane, which is not that of the run.
  pub lanes_and_events-AreEvents :
      (runs : List TimelineRun) → AreEvents [] runs (lanes_and_events str_lower runs).2
  unfolding lanes_and_events
  lanes_and_events-AreEvents runs =
      subst (AreEvents [] runs) (sym (draw_runs-events [] runs no_drawing (λ agent. refl)))
        (events_after-AreEvents [] runs)
