-- ===== src/Query/Resolved.antt =====
-- query/knowledge_graph_queries.py: the neighbours that a query resolves, once each.
use discovery_net.Base.{
  Bool, true, false, not, ◌&&◌, ◌||◌, ◌≡◌, refl, sym, ap, ◌∙◌, Option, none, some, List, [], ◌∷◌,
  ◌==◌, ==_iff, ==-refl, keep_if, any, contains, distinct, All, arith, Bool-cases, Option-cases,
  inl, inr, subst,
}
use discovery_net.Base.Dict.{keys, values, lookup}
use discovery_net.Base.Result.{ok}
use discovery_net.Base.Text.{text_eq}
use discovery_net.Graph.Kinds.{ContributionKind, RelationKind, relation_kind_eq}
use discovery_net.Graph.Models.{ArtifactRef, Artifact, contribution, relation}
use discovery_net.Wire.External.{External}
use discovery_net.Index.{
  IndexedArtifact, GraphState, Nodes, get, artifacts, is_incoming, is_outgoing,
}
use discovery_net.Index.Links.{references}
use discovery_net.Index.Sound.{IsReached, IsIndexed, reached-IsIndexed}
use discovery_net.Index.Retrieval.{scan, incoming_relations-scan, outgoing_relations-scan}
use discovery_net.Query.{
  is_resolved, resolve_from, resolve_contributions, destinations, origins,
  outgoing_contributions_by_ref, incoming_contributions_by_ref,
}

-- The reference is that of an indexed contribution of the kind.
abbrev pub resolves_to : Option ContributionKind → Option IndexedArtifact → Bool
resolves_to kind none = false
resolves_to kind (some x) = is_resolved kind x.artifact

-- A relation of the kind from the first reference to the second
abbrev pub is_edge : ArtifactRef → RelationKind → ArtifactRef → Artifact → Bool
is_edge from via to (contribution c) = false
is_edge from via to (relation r) =
    (r.from_contribution == from) && (r.to_contribution == to) && (r.kind == via)

-- Some relation of the kind leads from the first reference to the second.
abbrev pub linked : GraphState → ArtifactRef → RelationKind → ArtifactRef → Bool
linked index from via to = any (λ x. is_edge from via to x.artifact) (artifacts index)

-- `xs` are the indexed contributions, of the kind if one is given, whose references pass a test:
-- all of them, each once, each as the index holds it.
pub record AreResolved (index : GraphState) (kind : Option ContributionKind)
    (p : ArtifactRef → Bool) (xs : List IndexedArtifact) : Type 0 where
  pub complete :
      (r : ArtifactRef) → contains r (references xs) ≡ (resolves_to kind (get index r) && p r)
  pub once : distinct (references xs) ≡ true
  pub held : All (λ x. get index x.artifact_ref ≡ some x) xs

lookup-artifact_ref :
    (nodes : Nodes) (r : ArtifactRef) (x : IndexedArtifact)
    → keys nodes ≡ references (values nodes)
    → lookup r nodes ≡ some x
    → x.artifact_ref ≡ r
lookup-artifact_ref [] r x h found = cc
lookup-artifact_ref ((j, y) ∷ nodes) r x h found =
    ground (arith, ==_iff j r, lookup-artifact_ref nodes r x)

get-artifact_ref :
    (index : GraphState) (r : ArtifactRef) (x : IndexedArtifact)
    → keys index.nodes ≡ references (values index.nodes)
    → get index r ≡ some x
    → x.artifact_ref ≡ r
unfolding get
get-artifact_ref index r x h found = lookup-artifact_ref index.nodes r x h found

module _ ⦃ext : External⦄ (index : GraphState) (kind : Option ContributionKind) where
  FreshFrom : List ArtifactRef → List ArtifactRef → List IndexedArtifact → Type 0
  FreshFrom seen refs xs =
      ((r : ArtifactRef)
        → contains r (references xs)
          ≡ (resolves_to kind (get index r) && (not (contains r seen) && contains r refs)))
      × (distinct (references xs) ≡ true)
      × All (λ x. get index x.artifact_ref ≡ some x) xs

  resolve_skip :
      (seen refs : List ArtifactRef) (r : ArtifactRef) (xs : List IndexedArtifact)
      → (not (contains r seen) && resolves_to kind (get index r)) ≡ false
      → FreshFrom seen refs xs
      → FreshFrom seen (r ∷ refs) xs
  unfolding FreshFrom
  resolve_skip seen refs r xs h (complete, once, held) =
      (λ c. complete c ∙ ground (arith, ==_iff r c), once, held)

  resolve_take :
      (seen refs : List ArtifactRef) (r : ArtifactRef) (x : IndexedArtifact)
      (xs : List IndexedArtifact)
      → get index r ≡ some x
      → x.artifact_ref ≡ r
      → contains r seen ≡ false
      → is_resolved kind x.artifact ≡ true
      → FreshFrom (r ∷ seen) refs xs
      → FreshFrom seen (r ∷ refs) (x ∷ xs)
  unfolding FreshFrom
  resolve_take seen refs r x xs found named new resolved (complete, once, held) =
      let resolves : resolves_to kind (get index r) ≡ true =
        ap (resolves_to kind) found ∙ resolved in
      let outside : (not (contains r (r ∷ seen)) && contains r refs) ≡ false =
        rw (==-refl r) refl in
      let absent : contains r (references xs) ≡ false = complete r ∙ rw (resolves, outside) refl in
      (
        λ c.
            ap (λ j. (j == c) || contains c (references xs)) named
            ∙ ap (λ b. (r == c) || b) (complete c)
            ∙ ground (arith, ==_iff r c),
        subst (λ j. distinct (j ∷ references xs) ≡ true) (sym named) (rw (absent, once) refl),
        (ap (get index) named ∙ found, held),
      )

  resolve_from_lem :
      (seen refs : List ArtifactRef)
      → IsIndexed index
      → FreshFrom seen refs (resolve_from index kind seen refs)
  unfolding resolve_from FreshFrom
  resolve_from_lem seen [] sound = (λ r. ground arith, refl, tt)
  resolve_from_lem seen (r ∷ refs) sound = elim (Option-cases (get index r)) [
    | inl missing ↦
        rw (resolve_from, missing)
          (resolve_skip seen refs r (resolve_from index kind seen refs) (rw missing (ground arith))
            (resolve_from_lem seen refs sound))
    | inr (x, found) ↦
        rw (resolve_from, found)
          (elim (Bool-cases (not (contains r seen) && is_resolved kind x.artifact)) [
            | inl taken ↦ rw taken (
                resolve_take seen refs r x (resolve_from index kind (r ∷ seen) refs) found
                  (get-artifact_ref index r x sound.keyed found) (ground arith) (ground arith)
                  (resolve_from_lem (r ∷ seen) refs sound))
            | inr skipped ↦ rw skipped (
                resolve_skip seen refs r (resolve_from index kind seen refs) (rw found skipped)
                  (resolve_from_lem seen refs sound))
          ])
  ]

  -- What the loop makes of the ends of the relations that a query found
  resolve_lem :
      (refs : List ArtifactRef) (p : ArtifactRef → Bool)
      → IsIndexed index
      → ((r : ArtifactRef) → contains r refs ≡ p r)
      → AreResolved index kind p (resolve_contributions index refs kind)
  unfolding resolve_contributions FreshFrom
  resolve_lem refs p sound same =
      let (complete, once, held) = resolve_from_lem [] refs sound in
      record {
        complete = λ r. complete r ∙ ap (λ b. resolves_to kind (get index r) && b) (same r);
        once = once;
        held = held;
      }

contains-destinations :
    (from to : ArtifactRef) (via : RelationKind) (xs : List IndexedArtifact)
    → contains to (destinations (keep_if (λ x. is_outgoing from (some via) x.artifact) xs))
      ≡ any (λ x. is_edge from via to x.artifact) xs
unfolding destinations is_outgoing
contains-destinations from to via [] = refl
contains-destinations from to via (x ∷ xs) = ground (arith, contains-destinations from to via xs)

contains-origins :
    (from to : ArtifactRef) (via : RelationKind) (xs : List IndexedArtifact)
    → contains from (origins (keep_if (λ x. is_incoming to (some via) x.artifact) xs))
      ≡ any (λ x. is_edge from via to x.artifact) xs
unfolding origins is_incoming
contains-origins from to via [] = refl
contains-origins from to via (x ∷ xs) = ground (arith, contains-origins from to via xs)

module _ ⦃ext : External⦄ where
  -- In every index that the operations reach, following the outgoing, or incoming, relations of
  -- one kind from an artifact returns exactly the indexed contributions, of the kind that is asked
  -- for if one is, at the other end of such a relation, each once, and raises nothing.
  pub neighbors-AreResolved :
      (index : GraphState) (reference : ArtifactRef) (via : RelationKind)
      (kind : Option ContributionKind)
      → IsReached index
      → ((xs : List IndexedArtifact) × (outgoing_contributions_by_ref index reference via kind
            ≡ ok xs)
          × AreResolved index kind (λ to. linked index reference via to) xs)
        × ((xs : List IndexedArtifact) × (incoming_contributions_by_ref index reference via kind
              ≡ ok xs)
            × AreResolved index kind (λ from. linked index from via reference) xs)
  unfolding outgoing_contributions_by_ref incoming_contributions_by_ref
  neighbors-AreResolved index reference via kind reached =
      let sound = reached-IsIndexed index reached in
      let incoming = λ (k : Option RelationKind). incoming_relations-scan index reference k sound in
      let outgoing = λ (k : Option RelationKind). outgoing_relations-scan index reference k sound in
      (
        (
          resolve_contributions index (destinations (scan (is_outgoing reference (some via)) index))
              kind,
          rw (outgoing (some via)) refl,
          resolve_lem index kind (destinations (scan (is_outgoing reference (some via)) index))
              (λ to. linked index reference via to) sound
              (λ to. contains-destinations reference to via (artifacts index)),
        ),
        (
          resolve_contributions index (origins (scan (is_incoming reference (some via)) index))
              kind,
          rw (incoming (some via)) refl,
          resolve_lem index kind (origins (scan (is_incoming reference (some via)) index))
              (λ from. linked index from via reference) sound
              (λ from. contains-origins from reference via (artifacts index)),
        ),
      )
