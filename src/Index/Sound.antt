-- ===== src/Index/Sound.antt =====
-- indexing/knowledge_graph_index.py: the nodes and the adjacency agree in every index that the
-- operations reach.
use discovery_net.Base.{
  ℕ, false, not, ◌≡◌, refl, sym, ap, ◌∙◌, subst, Option, none, some, List, [], ◌∷◌, ◌++◌, ==-refl,
  get_elem?, length, All, All-append, All-map, arith,
}
use discovery_net.Base.Dict.{
  keys, values, lookup, has_key, insert, insert-new, values-append, keys-append, lookup-append_left,
  lookup-append_right,
}
use discovery_net.Base.Result.{ok, value_error, require, for_m, >>=-eq-ok, ◌>>=◌, ◌>>◌}
use discovery_net.Base.Text.{text_eq}
use discovery_net.Graph.Models.{ArtifactRef, Artifact}
use discovery_net.Wire.Envelope.{SignedEnvelope}
use discovery_net.Wire.External.{External}
use discovery_net.Wire.Payload.{decode_payload}
use discovery_net.Wire.Codec.{artifact_ref}
use discovery_net.Node.Ledger.{ArtifactLedgerEntry}
use discovery_net.Node.Store.{ArtifactLedgerSnapshot}
use discovery_net.Index.{
  IndexedArtifact, AdjacencyKey, key_eq, Nodes, GraphState, adjacent, connect, new_index,
  index_envelope, new_indexed, add_artifact, add_entry, build_state, append_state, refresh, append,
  range_from,
}
use discovery_net.Index.Links.{
  links, IsProper, listed_at, references, one_if, references-snoc, references-listed_at,
  decode_payload-IsProper, adjacent-connect,
}

-- The adjacency lists, at each key, the nodes that link to it, in the order of the ledger; a node
-- is found by its reference and is what the ledger holds at its position.
pub record IsIndexed ⦃ext : External⦄ (state : GraphState) : Type 0 where
  pub adjacency :
      (key : AdjacencyKey)
      → adjacent key state.adjacency ≡ references (listed_at key (values state.nodes))
  pub keyed : keys state.nodes ≡ references (values state.nodes)
  pub found : All (λ x. lookup x.artifact_ref state.nodes ≡ some x) (values state.nodes)
  pub decoded : All (λ x. new_indexed x.ledger_entry x.artifact_index ≡ ok x) (values state.nodes)

-- What the operations can reach from the empty index
pub data IsReached ⦃ext : External⦄ : GraphState → Type 0 where
  created : IsReached new_index
  refreshed :
      (s t : GraphState) (snapshot : ArtifactLedgerSnapshot)
      → IsReached s
      → refresh s snapshot ≡ ok t
      → IsReached t
  appended :
      (s t : GraphState) (entries : List ArtifactLedgerEntry) (height : ℕ)
      → IsReached s
      → append s entries height ≡ ok t
      → IsReached t

module _ ⦃ext : External⦄ where
  abbrev pub indexed_at : ArtifactLedgerEntry → ℕ → Artifact → ArtifactRef → IndexedArtifact
  indexed_at entry index a r = record {
    ledger_entry = entry;
    artifact_index = index;
    artifact = a;
    artifact_ref = r;
  }

  new_indexed-IsProper :
      (entry : ArtifactLedgerEntry) (index : ℕ) (x : IndexedArtifact)
      → new_indexed entry index ≡ ok x
      → IsProper x.artifact × (new_indexed x.ledger_entry x.artifact_index ≡ ok x)
  unfolding new_indexed
  new_indexed-IsProper entry index x h = go (get_elem? entry.transaction.envelopes index) refl h
    where
      go :
          (o : Option SignedEnvelope)
          → get_elem? entry.transaction.envelopes index ≡ o
          → index_envelope entry index o ≡ ok x
          → IsProper x.artifact × (new_indexed x.ledger_entry x.artifact_index ≡ ok x)
      go none here made = cc
      go (some e) here made =
          let (a, opened, rest) =
            >>=-eq-ok (decode_payload e.payload_type e.payload)
              (λ a. artifact_ref e >>= λ r. ok (indexed_at entry index a r)) made in
          let (r, named, same) =
            >>=-eq-ok (artifact_ref e) (λ r. ok (indexed_at entry index a r)) rest in
          let whole : indexed_at entry index a r ≡ x = cc in
          subst
            (λ (y : IndexedArtifact).
              IsProper y.artifact × (new_indexed y.ledger_entry y.artifact_index ≡ ok y))
            whole (decode_payload-IsProper e.payload_type e.payload a opened, h ∙ ap ok (sym whole))

  abbrev pub grown : GraphState → IndexedArtifact → GraphState
  grown s x = record {
    height = s.height;
    nodes = s.nodes ++ (x.artifact_ref, x) ∷ [];
    adjacency = connect x.artifact x.artifact_ref s.adjacency;
  }

  pub add_artifact-eq-ok :
      (entry : ArtifactLedgerEntry) (s t : GraphState) (index : ℕ)
      → add_artifact entry s index ≡ ok t
      → (x : IndexedArtifact) × (new_indexed entry index ≡ ok x)
        × (has_key x.artifact_ref s.nodes ≡ false)
        × (t ≡ grown s x)
  unfolding add_artifact
  add_artifact-eq-ok entry s t index h =
      let (x, made, rest) =
        >>=-eq-ok (new_indexed entry index)
          (λ x.
            require (not (has_key x.artifact_ref s.nodes)) value_error
            >> ok (record {
              height = s.height;
              nodes = insert x.artifact_ref x s.nodes;
              adjacency = connect x.artifact x.artifact_ref s.adjacency;
            }))
          h in
      let new : has_key x.artifact_ref s.nodes ≡ false = ground arith in
      let placed = insert-new x.artifact_ref x s.nodes new in (x, made, new, ground arith)

  grown-IsIndexed :
      (s : GraphState) (x : IndexedArtifact)
      → IsIndexed s
      → has_key x.artifact_ref s.nodes ≡ false
      → IsProper x.artifact
      → new_indexed x.ledger_entry x.artifact_index ≡ ok x
      → IsIndexed (grown s x)
  grown-IsIndexed s x sound new proper made =
      let last : Nodes = (x.artifact_ref, x) ∷ [] in
      let split : values (s.nodes ++ last) ≡ values s.nodes ++ x ∷ [] =
        values-append s.nodes last in
      record {
        adjacency = λ key.
            adjacent-connect x.artifact key x.artifact_ref s.adjacency proper
            ∙ ap (λ l. l ++ one_if (links key x.artifact) x.artifact_ref) (sound.adjacency key)
            ∙ sym (references-listed_at key (values s.nodes) x)
            ∙ ap (λ l. references (listed_at key l)) (sym split);
        keyed =
            keys-append s.nodes last
            ∙ ap (λ l. l ++ x.artifact_ref ∷ []) sound.keyed
            ∙ sym (ap references split ∙ references-snoc (values s.nodes) x);
        found = subst (All (λ y. lookup y.artifact_ref (s.nodes ++ last) ≡ some y)) (sym split) (
            All-append (λ y. lookup y.artifact_ref (s.nodes ++ last) ≡ some y) (values s.nodes)
              (x ∷ [])
              (All-map (values s.nodes) (λ y h. lookup-append_left y.artifact_ref y s.nodes last h)
                sound.found)
              (
                lookup-append_right x.artifact_ref s.nodes last new
                    ∙ ground (arith, ==-refl x.artifact_ref),
                tt,
              ));
        decoded =
            subst (All (λ y. new_indexed y.ledger_entry y.artifact_index ≡ ok y)) (sym split) (
              All-append (λ y. new_indexed y.ledger_entry y.artifact_index ≡ ok y) (values s.nodes)
                (x ∷ []) sound.decoded (made, tt));
      }

  -- One artifact more
  add_artifact-IsIndexed :
      (entry : ArtifactLedgerEntry) (s t : GraphState) (index : ℕ)
      → IsIndexed s
      → add_artifact entry s index ≡ ok t
      → IsIndexed t
  add_artifact-IsIndexed entry s t index sound h =
      let (x, made, new, same) = add_artifact-eq-ok entry s t index h in
      let (proper, again) = new_indexed-IsProper entry index x made in
      subst IsIndexed (sym same) (grown-IsIndexed s x sound new proper again)

  add_artifacts-IsIndexed :
      (entry : ArtifactLedgerEntry) (s t : GraphState) (indices : List ℕ)
      → IsIndexed s
      → for_m (add_artifact entry) s indices ≡ ok t
      → IsIndexed t
  add_artifacts-IsIndexed entry s t [] sound h = subst IsIndexed (ground arith) sound
  add_artifacts-IsIndexed entry s t (i ∷ indices) sound h =
      let (u, first, rest) =
        >>=-eq-ok (add_artifact entry s i) (λ u. for_m (add_artifact entry) u indices) h in
      add_artifacts-IsIndexed entry u t indices (add_artifact-IsIndexed entry s u i sound first)
        rest

  add_entries-IsIndexed :
      (s t : GraphState) (entries : List ArtifactLedgerEntry)
      → IsIndexed s
      → for_m add_entry s entries ≡ ok t
      → IsIndexed t
  unfolding add_entry
  add_entries-IsIndexed s t [] sound h = subst IsIndexed (ground arith) sound
  add_entries-IsIndexed s t (e ∷ entries) sound h =
      let (u, first, rest) = >>=-eq-ok (add_entry s e) (λ u. for_m add_entry u entries) h in
      add_entries-IsIndexed u t entries
        (add_artifacts-IsIndexed e s u (range_from 0 (length e.transaction.envelopes)) sound first)
        rest

  at_height-IsIndexed : (s : GraphState) (n : ℕ) → IsIndexed s → IsIndexed (record s { height = n })
  at_height-IsIndexed s n sound = record {
    adjacency = sound.adjacency;
    keyed = sound.keyed;
    found = sound.found;
    decoded = sound.decoded;
  }

  new_index-IsIndexed : IsIndexed new_index
  unfolding adjacent
  new_index-IsIndexed = record { adjacency = λ key. refl; keyed = refl; found = tt; decoded = tt }

  append_state-IsIndexed :
      (s t : GraphState) (entries : List ArtifactLedgerEntry) (height : ℕ)
      → IsIndexed s
      → append_state s entries height ≡ ok t
      → IsIndexed t
  unfolding append_state
  append_state-IsIndexed s t entries height sound h =
      let (u, added, same) =
        >>=-eq-ok (for_m add_entry s entries) (λ u. ok (record u { height = height })) h in
      subst IsIndexed (ground arith)
        (at_height-IsIndexed u height (add_entries-IsIndexed s u entries sound added))

  append-eq-ok :
      (s t : GraphState) (entries : List ArtifactLedgerEntry) (height : ℕ)
      → append s entries height ≡ ok t
      → append_state s entries height ≡ ok t
  unfolding append
  append-eq-ok s t entries height h = ground arith

  -- In every index that `refresh` and `append` reach from the empty one, the adjacency lists at
  -- each key exactly the artifacts that link to it, in the order of the ledger, each artifact is
  -- found by its reference, and each is what decoding the envelope at its position gives.
  pub reached-IsIndexed : (s : GraphState) → IsReached s → IsIndexed s
  unfolding refresh build_state append_state
  reached-IsIndexed _ created = new_index-IsIndexed
  reached-IsIndexed _ (refreshed s t snapshot before h) =
      append_state-IsIndexed new_index t snapshot.entries snapshot.height new_index-IsIndexed h
  reached-IsIndexed _ (appended s t entries height before h) =
      append_state-IsIndexed s t entries height (reached-IsIndexed s before)
        (append-eq-ok s t entries height h)
