-- ===== src/Query.antt =====
-- query/knowledge_graph_queries.py: the queries of the users, composed from those of the index.
-- `str.casefold`, a table of Unicode, is a parameter.
pub mod Resolved
pub mod Titles
use discovery_net.Base.{
  Bool, true, false, not, ◌&&◌, Option, none, some, List, [], ◌∷◌, Eq, ◌==◌, keep_if, contains,
  if◌then◌else◌,
}
use discovery_net.Base.Result.{Result, ok, ◌>>=◌}
use discovery_net.Base.Text.{Str, text_eq, contains_text}
use discovery_net.Graph.Kinds.{ContributionKind, RelationKind, contribution_kind_eq}
use discovery_net.Graph.Models.{ArtifactRef, Artifact, contribution, relation}
use discovery_net.Index.{
  IndexedArtifact, GraphState, get, contributions, incoming_relations, outgoing_relations, matches,
}

-- The test of `contributions_containing_title`
unfoldable pub has_title : (Str → Str) → Str → Artifact → Bool
has_title casefold text (contribution c) = contains_text text (casefold c.title)
has_title casefold text (relation r) = false

unfoldable pub contributions_containing_title :
    (Str → Str) → GraphState → Str → Option ContributionKind → Result (List IndexedArtifact)
contributions_containing_title casefold index text kind = do
  found ← contributions index kind
  ok (keep_if (λ x. has_title casefold (casefold text) x.artifact) found)

-- What `_resolve_contributions` asks of an artifact
abbrev pub is_resolved : Option ContributionKind → Artifact → Bool
is_resolved kind (contribution c) = matches kind c.kind
is_resolved kind (relation r) = false

-- The loop of `_resolve_contributions`, from the references seen
unfoldable pub resolve_from :
    GraphState
    → Option ContributionKind
    → List ArtifactRef
    → List ArtifactRef
    → List IndexedArtifact
resolve_from index kind seen [] = []
resolve_from index kind seen (r ∷ rs) =
    let with_r = resolve_from index kind (r ∷ seen) rs in
    let without = resolve_from index kind seen rs in
    elim (get index r) [
      | none ↦ without
      | some x ↦
          if not (contains r seen) && is_resolved kind x.artifact then x ∷ with_r else without
    ]

unfoldable pub resolve_contributions :
    GraphState → List ArtifactRef → Option ContributionKind → List IndexedArtifact
resolve_contributions index references kind = resolve_from index kind [] references

-- The generators of the ends of relations
unfoldable pub destinations : List IndexedArtifact → List ArtifactRef
destinations [] = []
destinations (x ∷ xs) = elim x.artifact [
  | contribution c ↦ destinations xs
  | relation r ↦ r.to_contribution ∷ destinations xs
]

unfoldable pub origins : List IndexedArtifact → List ArtifactRef
origins [] = []
origins (x ∷ xs) = elim x.artifact [
  | contribution c ↦ origins xs
  | relation r ↦ r.from_contribution ∷ origins xs
]

unfoldable pub outgoing_contributions_by_ref :
    GraphState
    → ArtifactRef
    → RelationKind
    → Option ContributionKind
    → Result (List IndexedArtifact)
outgoing_contributions_by_ref index reference via kind = do
  found ← outgoing_relations index reference (some via)
  ok (resolve_contributions index (destinations found) kind)

unfoldable pub incoming_contributions_by_ref :
    GraphState
    → ArtifactRef
    → RelationKind
    → Option ContributionKind
    → Result (List IndexedArtifact)
incoming_contributions_by_ref index reference via kind = do
  found ← incoming_relations index reference (some via)
  ok (resolve_contributions index (origins found) kind)
