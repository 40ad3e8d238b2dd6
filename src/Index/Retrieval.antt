-- ===== src/Index/Retrieval.antt =====
-- indexing/knowledge_graph_index.py: the queries through the adjacency return what a scan of all
-- artifacts would.
use discovery_net.Base.{
  Bool, true, false, ◌&&◌, ◌≡◌, refl, ap, ◌∙◌, Option, none, some, List, [], ◌∷◌, ◌==◌, keep_if,
  All-keep_if, keep_if-ext, keep_if-keep_if, All, arith,
}
use discovery_net.Base.Dict.{values, lookup}
use discovery_net.Base.Result.{ok, map_m}
use discovery_net.Base.Text.{text_eq}
use discovery_net.Graph.Kinds.{
  ContributionKind, RelationKind, contribution_kind_eq, relation_kind_eq,
}
use discovery_net.Graph.Models.{ArtifactRef, Artifact, contribution, relation}
use discovery_net.Wire.External.{External}
use discovery_net.Index.{
  IndexedArtifact, AdjacencyKey, reference_node, contribution_kind_node, relation_kind_node, key_eq,
  key_beq, Nodes, GraphState, node_or_raise, indexed_neighbors, contributions, relations,
  is_incoming, is_outgoing, incoming_relations, outgoing_relations, artifacts,
}
use discovery_net.Index.Links.{links, listed_at, references}
use discovery_net.Index.Sound.{IsIndexed, IsReached, reached-IsIndexed}

abbrev pub is_contribution_of : ContributionKind → Artifact → Bool
is_contribution_of kind (contribution c) = c.kind == kind
is_contribution_of kind (relation r) = false

abbrev pub is_relation_of : RelationKind → Artifact → Bool
is_relation_of kind (contribution c) = false
is_relation_of kind (relation r) = r.kind == kind

-- The kind that is asked for, if one is
abbrev pub has_kind : Option RelationKind → RelationKind → Bool
has_kind none k = true
has_kind (some kind) k = k == kind

-- A relation that ends in the artifact, and one that starts from it
abbrev pub is_into : ArtifactRef → Option RelationKind → Artifact → Bool
is_into target kind (contribution c) = false
is_into target kind (relation r) = has_kind kind r.kind && (r.to_contribution == target)

abbrev pub is_out_of : ArtifactRef → Option RelationKind → Artifact → Bool
is_out_of source kind (contribution c) = false
is_out_of source kind (relation r) = has_kind kind r.kind && (r.from_contribution == source)

-- The artifacts that pass a test, in the order of the ledger
abbrev pub scan : (Artifact → Bool) → GraphState → List IndexedArtifact
scan p state = keep_if (λ x. p x.artifact) (artifacts state)

look_up_references :
    (nodes : Nodes) (xs : List IndexedArtifact)
    → All (λ x. lookup x.artifact_ref nodes ≡ some x) xs
    → map_m (λ r. node_or_raise (lookup r nodes)) (references xs) ≡ ok xs
look_up_references nodes [] h = refl
look_up_references nodes (x ∷ xs) h = rw (h.0, look_up_references nodes xs h.1) refl

module _ ⦃ext : External⦄ where
  neighbors-scan :
      (state : GraphState) (key : AdjacencyKey)
      → IsIndexed state
      → indexed_neighbors state key ≡ ok (scan (links key) state)
  unfolding indexed_neighbors artifacts
  neighbors-scan state key sound = rw (sound.adjacency key) (
      look_up_references state.nodes (listed_at key (values state.nodes)) (
        All-keep_if (λ x. lookup x.artifact_ref state.nodes ≡ some x) (λ x. links key x.artifact)
          (values state.nodes) sound.found))

  links-contribution :
      (kind : ContributionKind) (a : Artifact)
      → links (contribution_kind_node kind) a ≡ is_contribution_of kind a
  unfolding key_beq
  links-contribution kind (contribution c) = refl
  links-contribution kind (relation r) = refl

  links-relation :
      (kind : RelationKind) (a : Artifact)
      → links (relation_kind_node kind) a ≡ is_relation_of kind a
  unfolding key_beq
  links-relation kind (contribution c) = refl
  links-relation kind (relation r) = ground arith

  links-incoming :
      (r : ArtifactRef) (kind : Option RelationKind) (a : Artifact)
      → is_incoming r kind a ≡ true
      → links (reference_node r) a ≡ true
  unfolding key_beq is_incoming
  links-incoming r kind (contribution c) h = cc
  links-incoming r kind (relation l) h = ground arith

  links-outgoing :
      (r : ArtifactRef) (kind : Option RelationKind) (a : Artifact)
      → is_outgoing r kind a ≡ true
      → links (reference_node r) a ≡ true
  unfolding key_beq is_outgoing
  links-outgoing r kind (contribution c) h = cc
  links-outgoing r kind (relation l) h = ground arith

  pub incoming_relations-scan :
      (state : GraphState) (r : ArtifactRef) (kind : Option RelationKind)
      → IsIndexed state
      → incoming_relations state r kind ≡ ok (scan (is_incoming r kind) state)
  unfolding incoming_relations
  incoming_relations-scan state r kind sound = rw (neighbors-scan state (reference_node r) sound) (
      ap ok (
        keep_if-keep_if (λ x. is_incoming r kind x.artifact)
          (λ x. links (reference_node r) x.artifact) (artifacts state)
          (λ x h. links-incoming r kind x.artifact h)))

  pub outgoing_relations-scan :
      (state : GraphState) (r : ArtifactRef) (kind : Option RelationKind)
      → IsIndexed state
      → outgoing_relations state r kind ≡ ok (scan (is_outgoing r kind) state)
  unfolding outgoing_relations
  outgoing_relations-scan state r kind sound = rw (neighbors-scan state (reference_node r) sound) (
      ap ok (
        keep_if-keep_if (λ x. is_outgoing r kind x.artifact)
          (λ x. links (reference_node r) x.artifact) (artifacts state)
          (λ x h. links-outgoing r kind x.artifact h)))

  is_incoming-is_into :
      (r : ArtifactRef) (kind : Option RelationKind) (a : Artifact)
      → is_incoming r kind a ≡ is_into r kind a
  unfolding is_incoming
  is_incoming-is_into r kind (contribution c) = refl
  is_incoming-is_into r none (relation l) = ground arith
  is_incoming-is_into r (some k) (relation l) = ground arith

  is_outgoing-is_out_of :
      (r : ArtifactRef) (kind : Option RelationKind) (a : Artifact)
      → is_outgoing r kind a ≡ is_out_of r kind a
  unfolding is_outgoing
  is_outgoing-is_out_of r kind (contribution c) = refl
  is_outgoing-is_out_of r none (relation l) = ground arith
  is_outgoing-is_out_of r (some k) (relation l) = ground arith

  -- In every index that the operations reach, the contributions of a kind, the relations of a
  -- kind, and the relations into and out of an artifact, of any kind or of one, are those that a
  -- scan of all artifacts finds, in the order of the ledger; the query raises nothing.
  pub retrieval-scan :
      (state : GraphState)
      → IsReached state
      → ((kind : ContributionKind)
          → contributions state (some kind) ≡ ok (scan (is_contribution_of kind) state))
        × ((kind : RelationKind)
            → relations state (some kind) ≡ ok (scan (is_relation_of kind) state))
        × ((r : ArtifactRef) (kind : Option RelationKind)
            → incoming_relations state r kind ≡ ok (scan (is_into r kind) state))
        × ((r : ArtifactRef) (kind : Option RelationKind)
            → outgoing_relations state r kind ≡ ok (scan (is_out_of r kind) state))
  unfolding contributions relations
  retrieval-scan state reached =
      let sound = reached-IsIndexed state reached in
      (
        λ kind.
            neighbors-scan state (contribution_kind_node kind) sound
            ∙ ap ok (
                keep_if-ext (λ x. links (contribution_kind_node kind) x.artifact)
                  (λ x. is_contribution_of kind x.artifact) (artifacts state)
                  (λ x. links-contribution kind x.artifact)),
        λ kind.
            neighbors-scan state (relation_kind_node kind) sound
            ∙ ap ok (
                keep_if-ext (λ x. links (relation_kind_node kind) x.artifact)
                  (λ x. is_relation_of kind x.artifact) (artifacts state)
                  (λ x. links-relation kind x.artifact)),
        λ r kind.
            incoming_relations-scan state r kind sound
            ∙ ap ok (
                keep_if-ext (λ x. is_incoming r kind x.artifact) (λ x. is_into r kind x.artifact)
                  (artifacts state) (λ x. is_incoming-is_into r kind x.artifact)),
        λ r kind.
            outgoing_relations-scan state r kind sound
            ∙ ap ok (
                keep_if-ext (λ x. is_outgoing r kind x.artifact) (λ x. is_out_of r kind x.artifact)
                  (artifacts state) (λ x. is_outgoing-is_out_of r kind x.artifact)),
      )
