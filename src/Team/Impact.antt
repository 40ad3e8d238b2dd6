-- ===== src/Team/Impact.antt =====
-- research_team/impact.py: the assessor's packet, its answer and the durable cursor.
pub mod Coverage
pub mod Windows
use discovery_net.Base.{
  ℕ, ◌-◌, Bool, true, false, not, ◌&&◌, ◌||◌, Option, none, some, List, [], ◌∷◌, ◌++◌, ◌==◌, ltb,
  leb, eqb, all, any, contains, distinct, keep_if, length, map, take, drop, is_some, if◌then◌else◌,
}
use discovery_net.Base.Dict.{Dict, lookup, has_key, insert, values}
use discovery_net.Base.Parse.{split_lines, join, ends_with}
use discovery_net.Base.Result.{
  Result, ok, err, validation_error, value_error, key_error, require, for_m, ◌>>=◌, ◌>>◌,
}
use discovery_net.Base.Sorted.{text_lt, sorted}
use discovery_net.Base.Text.{Str, text_eq, codes, strip, is_blank, starts_with}

pub data ChangeType : Type 0 where
  continuation new_approach problem_pivot source_publication : ChangeType

pub data Impact : Type 0 where
  routine meaningful substantial major : Impact

pub data Novelty : Type 0 where
  not_assessed appears_known possibly_new strong_novelty_signal : Novelty

pub data Level : Type 0 where
  low medium high : Level

pub record ImpactAssessment : Type 0 where
  pub run_id : Str
  pub lane_title : Str
  pub change_type : ChangeType
  pub impact : Impact
  pub novelty : Novelty
  pub paper_potential : Level
  pub confidence : Level
  pub summary : Str
  pub rationale : Str
  pub evidence : List Str
  pub caveats : List Str

pub record ImpactBatch : Type 0 where
  pub portfolio_summary : Str
  pub assessments : List ImpactAssessment

-- A completed run of a researcher; `finished` is the instant that `finished_at` spells.
pub record Run : Type 0 where
  pub run_id : Str
  pub agent : Str
  pub started_at : Str
  pub finished_at : Str
  pub finished : ℕ

-- A line of annotations.jsonl
pub record Annotation : Type 0 where
  pub assessment : ImpactAssessment
  pub agent : Str
  pub run_started_at : Str
  pub run_finished_at : Str
  pub assessor : Str
  pub assessed_at : Str

-- cursor.json
pub record Cursor : Type 0 where
  pub finished_at : Str
  pub finished : ℕ
  pub indexed_height : ℕ
  pub assessed_at : Str
  pub assessor : Str

-- The files below impact/
pub record ImpactFiles : Type 0 where
  pub annotations : List Annotation
  pub cursor : Option Cursor

pub record ImpactContext : Type 0 where
  pub runs : List Run
  pub indexed_height : ℕ

abbrev pub max_pending_runs : ℕ
max_pending_runs = 12

-- `Field(min_length=1, max_length=bound)`
abbrev pub is_bounded : ℕ → Str → Bool
is_bounded bound value = leb 1 (length value) && leb (length value) bound

-- `_bound_list_items`, and the number of the items
unfoldable pub are_items : List Str → Bool
are_items values = leb (length values) 8 && all (λ v. not (is_blank v) && leb (length v) 500) values

unfoldable pub is_assessment : ImpactAssessment → Bool
unfolding are_items
is_assessment a =
    is_bounded 160 a.run_id
    && is_bounded 120 a.lane_title
    && is_bounded 500 a.summary
    && is_bounded 1500 a.rationale
    && are_items a.evidence
    && are_items a.caveats

-- `ImpactBatch.model_validate_json` on what the JSON parser of pydantic reads, whose types hold.
unfoldable pub validate_batch : Option ImpactBatch → Result ImpactBatch
unfolding is_assessment
validate_batch none = err validation_error
validate_batch (some batch) = do
  require (is_bounded 1500 batch.portfolio_summary && all is_assessment batch.assessments)
      validation_error
  ok batch

abbrev pub fence : Str
fence = codes "```"

abbrev pub without_last {ℓ} : {A : Type ℓ} → List A → List A
without_last xs = take (length xs - 1) xs

-- The text without its code fence
unfoldable pub unfenced : Str → Str
unfenced value =
    if starts_with fence value && ends_with fence value
    then join (codes "\n") (drop 1 (without_last (split_lines value)))
    else value

abbrev pub assessed_ids : List ImpactAssessment → List Str
assessed_ids = map (λ a. a.run_id)

abbrev pub run_ids : List Run → List Str
run_ids = map (λ r. r.run_id)

-- `set(xs) == set(ys)`
unfoldable pub same_set : List Str → List Str → Bool
same_set xs ys = all (λ x. contains x ys) xs && all (λ y. contains y xs) ys

unfoldable pub require_coverage : List Str → ImpactBatch → Result ImpactBatch
unfolding same_set
require_coverage expected batch = do
  require (distinct (assessed_ids batch.assessments)) value_error
  require (same_set (assessed_ids batch.assessments) expected) value_error
  ok batch

unfoldable pub parse_impact_batch : (Str → Option ImpactBatch) → Str → List Str → Result ImpactBatch
unfolding unfenced validate_batch require_coverage
parse_impact_batch impact_json response expected =
    validate_batch (impact_json (unfenced (strip response))) >>= require_coverage expected

-- `{run["run_id"]: run for run in runs}`
unfoldable pub lookup_table : Dict Str Run → List Run → Dict Str Run
lookup_table table [] = table
lookup_table table (run ∷ runs) = lookup_table (insert run.run_id run table) runs

abbrev pub annotation_of : (assessor assessed_at : Str) → ImpactAssessment → Run → Annotation
annotation_of assessor assessed_at assessment run = record {
  assessment = assessment;
  agent = run.agent;
  run_started_at = run.started_at;
  run_finished_at = run.finished_at;
  assessor = assessor;
  assessed_at = assessed_at;
}

-- The loop over the assessments; what was written before a missing run stays.
unfoldable pub annotate :
    (assessor assessed_at : Str)
    → Dict Str Run
    → List Annotation
    → List ImpactAssessment
    → Result (Unit {0}) × List Annotation
annotate assessor assessed_at table written [] = (ok tt, written)
annotate assessor assessed_at table written (a ∷ assessments) = elim (lookup a.run_id table) [
  | none ↦ (err key_error, written)
  | some run ↦
      annotate assessor assessed_at table (written ++ annotation_of assessor assessed_at a run ∷ [])
        assessments
]

abbrev pub last_run_of : List Run → Option Run
last_run_of [] = none
last_run_of (run ∷ []) = some run
last_run_of (run ∷ other ∷ runs) = last_run_of (other ∷ runs)

-- The cursor after a batch; without a run it stays.
unfoldable pub move_cursor :
    (assessor assessed_at : Str) → ℕ → Option Cursor → Option Run → Option Cursor
move_cursor assessor assessed_at indexed_height cursor none = cursor
move_cursor assessor assessed_at indexed_height cursor (some run) = some (record {
  finished_at = run.finished_at;
  finished = run.finished;
  indexed_height = indexed_height;
  assessed_at = assessed_at;
  assessor = assessor;
})

abbrev pub advanced : (assessor assessed_at : Str) → ImpactContext → Option Cursor → Option Cursor
advanced assessor assessed_at context cursor =
    move_cursor assessor assessed_at context.indexed_height cursor (last_run_of context.runs)

unfoldable pub finish_recording :
    (assessor assessed_at : Str)
    → ImpactContext
    → Option Cursor
    → Result (Unit {0}) × List Annotation
    → Result (Unit {0}) × ImpactFiles
unfolding move_cursor
finish_recording assessor assessed_at context cursor (err e, written) =
    (err e, record { annotations = written; cursor = cursor })
finish_recording assessor assessed_at context cursor (ok u, written) =
    (ok tt, record { annotations = written; cursor = advanced assessor assessed_at context cursor })

unfoldable pub record_impact_batch :
    (assessor assessed_at : Str)
    → ImpactContext
    → ImpactBatch
    → ImpactFiles
    → Result (Unit {0}) × ImpactFiles
unfolding lookup_table annotate finish_recording
record_impact_batch assessor assessed_at context batch files =
    finish_recording assessor assessed_at context files.cursor (
      annotate assessor assessed_at (lookup_table [] context.runs) files.annotations
        batch.assessments)

-- The sort key of the runs, `(finished_at, run_id)`
unfoldable pub run_lt : Run → Run → Bool
run_lt r s =
    text_lt r.finished_at s.finished_at
    || ((r.finished_at == s.finished_at) && text_lt r.run_id s.run_id)

-- The runs that finished after the cursor, in order
unfoldable pub pending_after : ℕ → List Run → List Run
unfolding run_lt
pending_after after runs = sorted run_lt (keep_if (λ r. ltb after r.finished) runs)

-- Without a cursor, the last two hours count, in microseconds.
unfoldable pub after_of : (now : ℕ) → Option Cursor → ℕ
after_of now none = now - 7200000000
after_of now (some cursor) = cursor.finished

-- The packet of `build_impact_context`, from the runs that `_usage_runs` reads.
unfoldable pub build_impact_context :
    (now indexed_height : ℕ) → Option Cursor → List Run → ImpactContext
unfolding pending_after after_of
build_impact_context now indexed_height cursor runs = record {
  runs = take max_pending_runs (pending_after (after_of now cursor) runs);
  indexed_height = indexed_height;
}

-- `read_annotations`: the latest annotation of each run, in the order of `run_finished_at`.
unfoldable pub latest_annotations : Dict Str Annotation → List Annotation → Dict Str Annotation
latest_annotations latest [] = latest
latest_annotations latest (a ∷ annotations) =
    latest_annotations (insert a.assessment.run_id a latest) annotations

unfoldable pub read_annotations : List Annotation → List Annotation
unfolding latest_annotations
read_annotations annotations =
    sorted (λ a b. text_lt a.run_finished_at b.run_finished_at)
      (values (latest_annotations [] annotations))
