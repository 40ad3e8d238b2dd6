-- ===== src/Index.antt =====
-- indexing/knowledge_graph_index.py: the in-memory knowledge graph of the committed artifacts.
-- A node is a decoded artifact at its position; the adjacency of a key lists references in the
-- order of the ledger. A method that raises leaves the state as it was.
pub mod Links
pub mod Sound
pub mod Retrieval
pub mod Rebuild
pub mod Names
pub mod Committed
use discovery_net.Base.{
  ℕ, zero, suc, ◌+◌, Bool, true, false, not, ◌&&◌, Option, none, some, List, [], ◌∷◌, ◌++◌, Eq,
  ◌==◌, ==_iff, ◌≡◌, ◌↔◌, arith, ltb, leb, eqb, length, get_elem?, any, keep_if, is_some,
  if◌then◌else◌,
}
use discovery_net.Base.Dict.{Dict, values, lookup, has_key, insert}
use discovery_net.Base.Result.{
  Result, ok, err, value_error, key_error, require, map_m, for_m, ◌>>=◌, ◌>>◌,
}
use discovery_net.Base.Text.{text_eq, is_empty}
use discovery_net.Graph.Kinds.{
  ContributionKind, RelationKind, contribution_kind_eq, relation_kind_eq,
}
use discovery_net.Graph.Models.{ArtifactRef, Artifact, contribution, relation, is_contribution}
use discovery_net.Wire.Envelope.{SignedEnvelope}
use discovery_net.Wire.External.{External}
use discovery_net.Wire.Payload.{decode_payload}
use discovery_net.Wire.Codec.{artifact_ref}
use discovery_net.Node.Ledger.{ArtifactLedgerEntry}
use discovery_net.Node.Store.{ArtifactLedgerSnapshot}

pub record IndexedArtifact : Type 0 where
  pub ledger_entry : ArtifactLedgerEntry
  pub artifact_index : ℕ
  pub artifact : Artifact
  pub artifact_ref : ArtifactRef

pub data AdjacencyKey : Type 0 where
  reference_node : ArtifactRef → AdjacencyKey
  contribution_kind_node : ContributionKind → AdjacencyKey
  relation_kind_node : RelationKind → AdjacencyKey

unfoldable pub key_beq : AdjacencyKey → AdjacencyKey → Bool
key_beq (reference_node r) (reference_node s) = r == s
key_beq (contribution_kind_node k) (contribution_kind_node l) = k == l
key_beq (relation_kind_node k) (relation_kind_node l) = k == l
key_beq _ _ = false

pub key_beq_iff : (x y : AdjacencyKey) → (key_beq x y ≡ true) ↔ (x ≡ y)
unfolding key_beq
key_beq_iff (reference_node r) (reference_node s) = ground (arith, ==_iff r s)
key_beq_iff (reference_node r) (contribution_kind_node l) = ground arith
key_beq_iff (reference_node r) (relation_kind_node l) = ground arith
key_beq_iff (contribution_kind_node k) (reference_node s) = ground arith
key_beq_iff (contribution_kind_node k) (contribution_kind_node l) = ground (arith, ==_iff k l)
key_beq_iff (contribution_kind_node k) (relation_kind_node l) = ground arith
key_beq_iff (relation_kind_node k) (reference_node s) = ground arith
key_beq_iff (relation_kind_node k) (contribution_kind_node l) = ground arith
key_beq_iff (relation_kind_node k) (relation_kind_node l) = ground (arith, ==_iff k l)

instance abbrev pub key_eq : Eq AdjacencyKey
key_eq = record { same = key_beq; same_iff = key_beq_iff }

abbrev pub Nodes : Type 0
Nodes = Dict ArtifactRef IndexedArtifact

abbrev pub Adjacency : Type 0
Adjacency = Dict AdjacencyKey (List ArtifactRef)

pub record GraphState : Type 0 where
  pub height : ℕ
  pub nodes : Nodes
  pub adjacency : Adjacency

abbrev pub or_empty : Option (List ArtifactRef) → List ArtifactRef
or_empty none = []
or_empty (some references) = references

-- `adjacency.get(key, ())`, and what a `defaultdict` holds at a key
unfoldable pub adjacent : AdjacencyKey → Adjacency → List ArtifactRef
adjacent key adjacency = or_empty (lookup key adjacency)

-- `adjacency[key].append(reference)`
unfoldable pub append_reference : AdjacencyKey → ArtifactRef → Adjacency → Adjacency
append_reference key reference adjacency =
    insert key (adjacent key adjacency ++ reference ∷ []) adjacency

unfoldable pub connect : Artifact → ArtifactRef → Adjacency → Adjacency
connect (contribution c) reference adjacency =
    append_reference (contribution_kind_node c.kind) reference adjacency
connect (relation r) reference adjacency =
    append_reference (reference_node r.to_contribution) reference (
      append_reference (reference_node r.from_contribution) reference
        (append_reference (relation_kind_node r.kind) reference adjacency))

-- `range(start, start + count)`
abbrev pub range_from : ℕ → ℕ → List ℕ
range_from start zero = []
range_from start (suc count) = start ∷ range_from (suc start) count

-- `KnowledgeGraphIndex()`
abbrev pub new_index : GraphState
new_index = record { height = 0; nodes = []; adjacency = [] }

module _ ⦃ext : External⦄ where
  abbrev pub index_envelope :
      ArtifactLedgerEntry → ℕ → Option SignedEnvelope → Result IndexedArtifact
  index_envelope entry index none = err value_error
  index_envelope entry index (some e) = do
    artifact ← decode_payload e.payload_type e.payload
    reference ← artifact_ref e
    ok (record {
      ledger_entry = entry;
      artifact_index = index;
      artifact = artifact;
      artifact_ref = reference;
    })

  -- `IndexedArtifact(...)`
  unfoldable pub new_indexed : ArtifactLedgerEntry → ℕ → Result IndexedArtifact
  new_indexed entry index = index_envelope entry index (get_elem? entry.transaction.envelopes index)

  -- The body of the two loops
  unfoldable pub add_artifact : ArtifactLedgerEntry → GraphState → ℕ → Result GraphState
  add_artifact entry state index = do
    indexed ← new_indexed entry index
    require (not (has_key indexed.artifact_ref state.nodes)) value_error
    ok (record {
      height = state.height;
      nodes = insert indexed.artifact_ref indexed state.nodes;
      adjacency = connect indexed.artifact indexed.artifact_ref state.adjacency;
    })

  unfoldable pub add_entry : GraphState → ArtifactLedgerEntry → Result GraphState
  add_entry state entry =
      for_m (add_artifact entry) state (range_from 0 (length entry.transaction.envelopes))

  unfoldable pub build_state : ArtifactLedgerSnapshot → Result GraphState
  build_state snapshot = do
    state ← for_m add_entry new_index snapshot.entries
    ok (record state { height = snapshot.height })

  unfoldable pub append_state : GraphState → List ArtifactLedgerEntry → ℕ → Result GraphState
  append_state state entries height = do
    grown ← for_m add_entry state entries
    ok (record grown { height = height })

  unfoldable pub refresh : GraphState → ArtifactLedgerSnapshot → Result GraphState
  refresh state snapshot = build_state snapshot

  unfoldable pub append : GraphState → List ArtifactLedgerEntry → ℕ → Result GraphState
  append state entries height = do
    require (leb state.height height) value_error
    require (not (any (λ e. leb e.height state.height) entries)) value_error
    require (not (any (λ e. ltb height e.height) entries)) value_error
    require (not (eqb height state.height && not (is_empty entries))) value_error
    append_state state entries height

-- `KnowledgeGraphIndex.artifacts`
unfoldable pub artifacts : GraphState → List IndexedArtifact
artifacts state = values state.nodes

unfoldable pub get : GraphState → ArtifactRef → Option IndexedArtifact
get state reference = lookup reference state.nodes

-- `state.nodes[reference]`
abbrev pub node_or_raise : Option IndexedArtifact → Result IndexedArtifact
node_or_raise none = err key_error
node_or_raise (some indexed) = ok indexed

unfoldable pub indexed_neighbors : GraphState → AdjacencyKey → Result (List IndexedArtifact)
indexed_neighbors state key =
    map_m (λ reference. node_or_raise (lookup reference state.nodes)) (adjacent key state.adjacency)

-- `kind is None or ... is kind`
abbrev pub matches {ℓ} : {K : Type ℓ} ⦃e : Eq K⦄ → Option K → K → Bool
matches none k = true
matches (some kind) k = k == kind

unfoldable pub contributions : GraphState → Option ContributionKind → Result (List IndexedArtifact)
contributions state none = ok (keep_if (λ x. is_contribution x.artifact) (values state.nodes))
contributions state (some kind) = indexed_neighbors state (contribution_kind_node kind)

unfoldable pub relations : GraphState → Option RelationKind → Result (List IndexedArtifact)
relations state none = ok (keep_if (λ x. not (is_contribution x.artifact)) (values state.nodes))
relations state (some kind) = indexed_neighbors state (relation_kind_node kind)

-- The tests of `incoming_relations` and `outgoing_relations`
unfoldable pub is_incoming : ArtifactRef → Option RelationKind → Artifact → Bool
is_incoming reference kind (contribution c) = false
is_incoming reference kind (relation r) = (r.to_contribution == reference) && matches kind r.kind

unfoldable pub is_outgoing : ArtifactRef → Option RelationKind → Artifact → Bool
is_outgoing reference kind (contribution c) = false
is_outgoing reference kind (relation r) = (r.from_contribution == reference) && matches kind r.kind

unfoldable pub incoming_relations :
    GraphState → ArtifactRef → Option RelationKind → Result (List IndexedArtifact)
incoming_relations state reference kind = do
  found ← indexed_neighbors state (reference_node reference)
  ok (keep_if (λ x. is_incoming reference kind x.artifact) found)

unfoldable pub outgoing_relations :
    GraphState → ArtifactRef → Option RelationKind → Result (List IndexedArtifact)
outgoing_relations state reference kind = do
  found ← indexed_neighbors state (reference_node reference)
  ok (keep_if (λ x. is_outgoing reference kind x.artifact) found)
