-- ===== src/Tests/GraphWitnesses.antt =====
-- Instances of the theorems on the index, the queries and the proposals.
use discovery_net.Base.{ℕ, ◌≡◌, refl, Option, some, List, [], ◌∷◌, arith}
use discovery_net.Base.Dict.{keys}
use discovery_net.Base.Result.{Result, ok, err}
use discovery_net.Base.Text.{Bytes, text_eq, codes}
use discovery_net.Graph.Kinds.{ContributionKind, RelationKind, lemma, depends_on}
use discovery_net.Graph.Models.{ArtifactRef}
use discovery_net.Node.Store.Saved.{snapshot_of}
use discovery_net.Node.Handler.{CometBftCallbackHandler, prepare_proposal, commit}
use discovery_net.Node.Handler.Proposal
use discovery_net.Node.Handler.Proposal.{IsLongestPrefix}
use discovery_net.Index
use discovery_net.Index.{
  IndexedArtifact, GraphState, new_index, contributions, relations, incoming_relations,
  outgoing_relations, is_incoming, is_outgoing, append, refresh,
}
use discovery_net.Index.Sound
use discovery_net.Index.Sound.{IsReached, IsIndexed, created, appended}
use discovery_net.Index.Retrieval
use discovery_net.Index.Retrieval.{scan, is_contribution_of, is_relation_of, is_into, is_out_of}
use discovery_net.Index.Rebuild
use discovery_net.Index.Committed
use discovery_net.Query.{
  contributions_containing_title, outgoing_contributions_by_ref, incoming_contributions_by_ref,
}
use discovery_net.Query.Resolved
use discovery_net.Query.Resolved.{AreResolved, linked}
use discovery_net.Query.Titles
use discovery_net.Query.Titles.{is_titled}
use discovery_net.Tests.Samples.{toy}
use discovery_net.Tests.Runs.{node_code, lemma_entry, new_node, lemma_block, pending_node}
use discovery_net.Tests.Witnesses.{new_node-IsConsistent, pending_node-IsConsistent}

unfoldable pub graph_code : ℕ
unfolding node_code Index.key_beq Index.adjacent Index.append_reference Index.connect
    Index.new_indexed Index.add_artifact Index.add_entry Index.build_state Index.append_state
    Index.refresh Index.append Index.artifacts Index.get
graph_code = 0

abbrev pub state_or_new : Result GraphState → GraphState
state_or_new (ok s) = s
state_or_new (err e) = new_index

-- The index after the block of `lemma_tx`
abbrev pub lemma_index : GraphState
lemma_index = state_or_new (append new_index (lemma_entry ∷ []) 1)

append_lemma : append new_index (lemma_entry ∷ []) 1 ≡ ok lemma_index
unfolding graph_code
append_lemma = refl

lemma_index-IsReached : IsReached lemma_index
lemma_index-IsReached = appended new_index lemma_index (lemma_entry ∷ []) 1 created append_lemma

reached-IsIndexed_example : IsIndexed lemma_index
reached-IsIndexed_example = Sound.reached-IsIndexed lemma_index lemma_index-IsReached

retrieval-scan_example :
    ((kind : ContributionKind)
      → contributions lemma_index (some kind) ≡ ok (scan (is_contribution_of kind) lemma_index))
    × ((kind : RelationKind)
        → relations lemma_index (some kind) ≡ ok (scan (is_relation_of kind) lemma_index))
    × ((r : ArtifactRef) (kind : Option RelationKind)
        → incoming_relations lemma_index r kind ≡ ok (scan (is_into r kind) lemma_index))
    × ((r : ArtifactRef) (kind : Option RelationKind)
        → outgoing_relations lemma_index r kind ≡ ok (scan (is_out_of r kind) lemma_index))
retrieval-scan_example = Retrieval.retrieval-scan lemma_index lemma_index-IsReached

append-refresh_example :
    append new_index (lemma_entry ∷ []) 1
    ≡ refresh new_index (record { height = 1; entries = lemma_entry ∷ [] })
unfolding graph_code
append-refresh_example =
    Rebuild.append-refresh new_index new_index (snapshot_of 0 []) (lemma_entry ∷ []) 1 refl
      (omega arith) ((omega arith, omega arith), tt)

refresh-IsConsistent_example :
    (s : GraphState) × (refresh new_index (snapshot_of 0 []) ≡ ok s)
    × (s.height ≡ 0)
    × (keys s.nodes ≡ [])
unfolding node_code
refresh-IsConsistent_example =
    Committed.refresh-IsConsistent new_node new_index new_node-IsConsistent

commit-append_example :
    (h' : CometBftCallbackHandler) × (t : GraphState) × (commit pending_node
      ≡ ok (lemma_entry ∷ [], h'))
    × (append new_index (lemma_entry ∷ []) h'.committed_height ≡ ok t)
    × (refresh new_index (snapshot_of h'.committed_height h'.committed_ledger.entries) ≡ ok t)
    × (keys t.nodes ≡ keys h'.committed_ledger.envelopes_by_ref)
unfolding graph_code
commit-append_example =
    Committed.commit-append pending_node lemma_block new_index new_index pending_node-IsConsistent
      refl refl

neighbors-AreResolved_example :
    ((xs : List IndexedArtifact) × (outgoing_contributions_by_ref lemma_index
          (codes "r")
          depends_on
          (some lemma)
        ≡ ok xs)
      × AreResolved lemma_index
          (some lemma)
          (λ to. linked lemma_index (codes "r") depends_on to)
          xs)
    × ((xs : List IndexedArtifact) × (incoming_contributions_by_ref lemma_index
            (codes "r")
            depends_on
            (some lemma)
          ≡ ok xs)
        × AreResolved lemma_index
            (some lemma)
            (λ from. linked lemma_index from depends_on (codes "r"))
            xs)
neighbors-AreResolved_example =
    Resolved.neighbors-AreResolved lemma_index (codes "r") depends_on (some lemma)
      lemma_index-IsReached

contributions_containing_title-scan_example :
    contributions_containing_title (λ s. s) lemma_index (codes "t") (some lemma)
    ≡ ok (scan (is_titled (λ s. s) (codes "t") (some lemma)) lemma_index)
contributions_containing_title-scan_example =
    Titles.contributions_containing_title-scan (λ s. s) lemma_index (codes "t") (some lemma)
      lemma_index-IsReached

prepare_proposal-IsLongestPrefix_example :
    (selected : List Bytes) × (prepare_proposal (codes "ab" ∷ codes "cde" ∷ []) 4 ≡ ok selected)
    × IsLongestPrefix 4 (codes "ab" ∷ codes "cde" ∷ []) selected
prepare_proposal-IsLongestPrefix_example =
    Proposal.prepare_proposal-IsLongestPrefix (codes "ab" ∷ codes "cde" ∷ []) 4 (omega arith)
