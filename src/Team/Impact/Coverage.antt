-- ===== src/Team/Impact/Coverage.antt =====
-- research_team/impact.py: an accepted answer assesses every run of the packet, once each, and its
-- recording succeeds.
use discovery_net.Base.{
  true, ◌≡◌, ◌⊎◌, refl, sym, ap, ◌∙◌, Option, some, List, [], ◌∷◌, ◌++◌, append_assoc, append-nil,
  ◌==◌, ==_iff, all, contains, distinct, map, All, arith, Bool-cases, inl, inr,
}
use discovery_net.Base.Dict.{Dict, lookup, insert, lookup-insert}
use discovery_net.Base.Result.{ok, require, value_error, after, require-eq-ok, ok-injective}
use discovery_net.Base.Text.{Str, text_eq, strip}
use discovery_net.Team.Impact.{
  ImpactAssessment, ImpactBatch, ImpactContext, ImpactFiles, Run, Annotation, annotate,
  annotation_of, lookup_table, record_impact_batch, finish_recording, parse_impact_batch,
  validate_batch, unfenced, require_coverage, same_set, assessed_ids, run_ids, advanced,
}

-- The annotation is of this run, and names its agent and times.
pub record IsOf (annotation : Annotation) (run : Run) : Type 0 where
  pub run_id : run.run_id ≡ annotation.assessment.run_id
  pub agent : annotation.agent ≡ run.agent
  pub run_started_at : annotation.run_started_at ≡ run.started_at
  pub run_finished_at : annotation.run_finished_at ≡ run.finished_at

-- The annotations are those of the assessments, each with a run of the packet.
pub record AreOf (table : Dict Str Run) (xs : List ImpactAssessment) (added : List Annotation)
    : Type 0 where
  pub assessments : map (λ a. a.assessment) added ≡ xs
  pub runs : All (λ a. (r : Run) × (lookup a.assessment.run_id table ≡ some r) × IsOf a r) added

abbrev HasRun : Dict Str Run → ImpactAssessment → Type 0
HasRun table a = (r : Run) × (lookup a.run_id table ≡ some r) × (r.run_id ≡ a.run_id)

annotate-AreOf :
    (assessor assessed_at : Str) (table : Dict Str Run) (written : List Annotation)
    (xs : List ImpactAssessment)
    → All (HasRun table) xs
    → (added : List Annotation) × (annotate assessor assessed_at table written xs
        ≡ (ok tt, written ++ added))
      × AreOf table xs added
unfolding annotate
annotate-AreOf assessor assessed_at table written [] h =
    ([], ap (λ w. (ok tt, w)) (sym (append-nil written)), record { assessments = refl; runs = tt })
annotate-AreOf assessor assessed_at table written (a ∷ xs) h =
    let (r, found, same) = h.0 in
    let here = annotation_of assessor assessed_at a r in
    let (added, rest, joined) =
      annotate-AreOf assessor assessed_at table (written ++ here ∷ []) xs h.1 in
    (
      here ∷ added,
      rw (found, annotate) (rest ∙ ap (λ w. (ok tt, w)) (append_assoc written (here ∷ []) added)),
      record {
        assessments = ap (λ l. a ∷ l) joined.assessments;
        runs = (
          (
            r,
            found,
            record { run_id = same; agent = refl; run_started_at = refl; run_finished_at = refl },
          ),
          joined.runs,
        );
      },
    )

-- A key of the table leads to a run of this name.
AreKeyed : Dict Str Run → Type 0
AreKeyed table = (k : Str) (r : Run) → lookup k table ≡ some r → r.run_id ≡ k

lookup_table-HasRun :
    (table : Dict Str Run) (runs : List Run) (id : Str)
    → AreKeyed table
    → ((contains id (run_ids runs) ≡ true) ⊎ ((r : Run) × (lookup id table ≡ some r)))
    → (r : Run) × (lookup id (lookup_table table runs) ≡ some r) × (r.run_id ≡ id)
unfolding lookup_table AreKeyed
lookup_table-HasRun table [] id keyed (inl listed) = cc
lookup_table-HasRun table [] id keyed (inr (r, found)) = (r, found, keyed id r found)
lookup_table-HasRun table (run ∷ runs) id keyed h =
    lookup_table-HasRun (insert run.run_id run table) runs id
      (λ k r found.
        ground (arith, lookup-insert run.run_id k run table, ==_iff run.run_id k, keyed k r))
      (found_later h)
  where
    found_later :
        ((contains id (run_ids (run ∷ runs)) ≡ true) ⊎ ((r : Run) × (lookup id table ≡ some r)))
        → (contains id (run_ids runs) ≡ true)
          ⊎ ((r : Run) × (lookup id (insert run.run_id run table) ≡ some r))
    found_later h = elim (Bool-cases (run.run_id == id)) [
      | inl same ↦ inr (run, lookup-insert run.run_id id run table ∙ rw same refl)
      | inr other ↦ elim h [
        | inl listed ↦ inl (ground arith)
        | inr (r, found) ↦ inr (r, lookup-insert run.run_id id run table ∙ rw other found)
      ]
    ]

all-contains :
    (xs ys : List Str) (x : Str)
    → all (λ z. contains z ys) xs ≡ true
    → contains x xs ≡ true
    → contains x ys ≡ true
all-contains [] ys x h k = cc
all-contains (z ∷ xs) ys x h k = ground (arith, ==_iff z x, all-contains xs ys x)

All-HasRun :
    (runs : List Run) (xs : List ImpactAssessment)
    → all (λ x. contains x (run_ids runs)) (assessed_ids xs) ≡ true
    → All (HasRun (lookup_table [] runs)) xs
unfolding AreKeyed
All-HasRun runs [] h = tt
All-HasRun runs (a ∷ xs) h = (
  lookup_table-HasRun [] runs a.run_id (λ k r found. cc) (inl (ground arith)),
  All-HasRun runs xs (ground arith),
)

require_coverage-ok :
    (expected : List Str) (batch b : ImpactBatch)
    → require_coverage expected batch ≡ ok b
    → (b ≡ batch)
      × (distinct (assessed_ids batch.assessments) ≡ true)
      × (same_set (assessed_ids batch.assessments) expected ≡ true)
unfolding require_coverage
require_coverage-ok expected batch b h =
    after (require (distinct (assessed_ids batch.assessments)) value_error) h λ _ once h1.
      after (require (same_set (assessed_ids batch.assessments) expected) value_error) h1
        λ _ whole h2. (
          sym (ok-injective h2),
          require-eq-ok (distinct (assessed_ids batch.assessments)) value_error once,
          require-eq-ok (same_set (assessed_ids batch.assessments) expected) value_error whole,
        )

-- An answer that `parse_impact_batch` accepts for a packet names each run of it exactly once and no
-- other; recording it then succeeds, adds for each assessment one annotation with the agent and the
-- times of its run, and moves the cursor past the packet.
pub record_impact_batch-AreOf :
    (impact_json : Str → Option ImpactBatch) (response assessor assessed_at : Str)
    (context : ImpactContext) (batch : ImpactBatch) (files : ImpactFiles)
    → parse_impact_batch impact_json response (run_ids context.runs) ≡ ok batch
    → (distinct (assessed_ids batch.assessments) ≡ true)
      × ((id : Str)
          → contains id (assessed_ids batch.assessments) ≡ contains id (run_ids context.runs))
      × ((added : List Annotation) × (record_impact_batch assessor assessed_at context batch files
            ≡ (
              ok tt,
              record {
                annotations = files.annotations ++ added;
                cursor = advanced assessor assessed_at context files.cursor;
              },
            ))
          × AreOf (lookup_table [] context.runs) batch.assessments added)
unfolding parse_impact_batch record_impact_batch same_set finish_recording
record_impact_batch-AreOf impact_json response assessor assessed_at context batch files h =
    after (validate_batch (impact_json (unfenced (strip response)))) h λ read _ covered.
      let (same, once, whole) = require_coverage-ok (run_ids context.runs) read batch covered in
      let ids = assessed_ids batch.assessments in
      let once' : distinct ids ≡ true = rw same once in
      let expected = run_ids context.runs in
      let known : all (λ x. contains x expected) ids ≡ true = rw same (ground arith) in
      let full : all (λ y. contains y ids) expected ≡ true = rw same (ground arith) in
      let (added, written, joined) =
        annotate-AreOf assessor assessed_at (lookup_table [] context.runs) files.annotations
          batch.assessments (All-HasRun context.runs batch.assessments known) in
      (
        once',
        λ id. ground (arith, all-contains ids expected id known, all-contains expected ids id full),
        (added, ap (finish_recording assessor assessed_at context files.cursor) written, joined),
      )
