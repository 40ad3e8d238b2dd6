-- ===== src/Index/Links.antt =====
-- indexing/knowledge_graph_index.py: the keys at which `_connect` lists an artifact.
use discovery_net.Base.{
  Bool, true, false, ◌||◌, ◌&&◌, Bool-cases, inl, inr, ◌≡◌, refl, ap, ◌∙◌, subst, List, [], ◌∷◌,
  ◌++◌, map, append-nil, ◌==◌, ==_iff, keep_if, keep_if-append, arith, if◌then◌else◌,
}
use discovery_net.Base.Dict.{lookup, lookup-insert}
use discovery_net.Base.Result.{
  ok, codec_error, require, >>=-eq-ok, reraise-eq-ok, reraise, ◌>>=◌, ◌>>◌,
}
use discovery_net.Base.Text.{text_eq, Bytes}
use discovery_net.Graph.Models.{
  ArtifactRef, Artifact, contribution, relation, new_relation, new_contribution,
  ContributionRelation,
}
use discovery_net.Wire.Envelope.{PayloadType, contribution_payload, contribution_relation_payload}
use discovery_net.Wire.External.{External, RelationPayload}
use discovery_net.Wire.Payload.{
  encode_payload, decode_payload, parse_payload, parse_relation, parse_contribution,
  is_type_or_value_error, validate_relation_json, validate_contribution_json,
}
use discovery_net.Index.{
  IndexedArtifact, AdjacencyKey, reference_node, contribution_kind_node, relation_kind_node, key_eq,
  Adjacency, or_empty, adjacent, append_reference, connect, key_beq,
}

-- The artifact is listed at the key.
abbrev pub links : AdjacencyKey → Artifact → Bool
links key (contribution c) = contribution_kind_node c.kind == key
links key (relation r) =
    (relation_kind_node r.kind == key)
    || ((reference_node r.from_contribution == key) || (reference_node r.to_contribution == key))

-- A relation has two different ends.
abbrev pub IsProper : Artifact → Type 0
IsProper (contribution c) = Unit
IsProper (relation r) = (r.from_contribution == r.to_contribution) ≡ false

abbrev pub listed_at : AdjacencyKey → List IndexedArtifact → List IndexedArtifact
listed_at key xs = keep_if (λ x. links key x.artifact) xs

abbrev pub references : List IndexedArtifact → List ArtifactRef
references xs = map (λ x. x.artifact_ref) xs

abbrev pub one_if : Bool → ArtifactRef → List ArtifactRef
one_if linked r = if linked then r ∷ [] else []

adjacent-append_reference :
    (k key : AdjacencyKey) (r : ArtifactRef) (adjacency : Adjacency)
    → adjacent key (append_reference k r adjacency) ≡ adjacent key adjacency ++ one_if (k == key) r
unfolding adjacent append_reference
adjacent-append_reference k key r adjacency =
    rw (lookup-insert k key (or_empty (lookup k adjacency) ++ r ∷ []) adjacency)
      (elim (Bool-cases (k == key)) [
        | inl here ↦ rw (here, (==_iff k key).0 here)
        | inr elsewhere ↦ rw (elsewhere, append-nil)
      ])

pub references-snoc :
    (xs : List IndexedArtifact) (x : IndexedArtifact)
    → references (xs ++ x ∷ []) ≡ references xs ++ x.artifact_ref ∷ []
references-snoc [] x = refl
references-snoc (y ∷ xs) x = ground (arith, references-snoc xs x)

pub references-listed_at :
    (key : AdjacencyKey) (xs : List IndexedArtifact) (x : IndexedArtifact)
    → references (listed_at key (xs ++ x ∷ []))
      ≡ references (listed_at key xs) ++ one_if (links key x.artifact) x.artifact_ref
references-listed_at key xs x =
    rw (keep_if-append (λ y. links key y.artifact) xs (x ∷ []))
      (elim (Bool-cases (links key x.artifact)) [
        | inl here ↦ rw here (references-snoc (listed_at key xs) x)
        | inr elsewhere ↦ rw (elsewhere, append-nil, append-nil)
      ])

-- At most one of three tests holds.
one_if-three :
    (p q s : Bool) (r : ArtifactRef) (xs : List ArtifactRef)
    → (p && (q || s)) ≡ false
    → (q && s) ≡ false
    → ((xs ++ one_if p r) ++ one_if q r) ++ one_if s r ≡ xs ++ one_if (p || (q || s)) r
one_if-three true true s r xs h k = cc
one_if-three true false true r xs h k = cc
one_if-three true false false r xs h k = append-nil _ ∙ append-nil _
one_if-three false true true r xs h k = cc
one_if-three false true false r xs h k = append-nil _ ∙ ap (λ l. l ++ r ∷ []) (append-nil xs)
one_if-three false false true r xs h k = ap (λ l. l ++ r ∷ []) (append-nil _ ∙ append-nil xs)
one_if-three false false false r xs h k = append-nil _ ∙ append-nil _

-- The keys of the two ends of a relation are different, and are no kind's.
keys_apart :
    (l : ContributionRelation) (key : AdjacencyKey)
    → IsProper (relation l)
    → ((relation_kind_node l.kind == key)
          && ((reference_node l.from_contribution == key)
              || (reference_node l.to_contribution == key))
        ≡ false)
      × ((reference_node l.from_contribution == key) && (reference_node l.to_contribution == key)
          ≡ false)
unfolding key_beq
keys_apart l (reference_node s) proper = ground (
  arith,
  ==_iff l.from_contribution s,
  ==_iff l.to_contribution s,
  ==_iff l.from_contribution l.to_contribution,
)
keys_apart l (contribution_kind_node k) proper = ground arith
keys_apart l (relation_kind_node k) proper = ground arith

module _ ⦃ext : External⦄ where
  new_relation-IsProper :
      (l r : ContributionRelation) → new_relation l ≡ ok r → IsProper (relation r)
  unfolding new_relation
  new_relation-IsProper l r h = ground arith

  abbrev as_relation : RelationPayload → ContributionRelation
  as_relation m = record {
    from_contribution = m.from_contribution;
    to_contribution = m.to_contribution;
    kind = m.kind;
    created_at = m.created_at;
  }

  parse_payload-IsProper :
      (p : PayloadType) (bytes : Bytes) (a : Artifact) → parse_payload p bytes ≡ ok a → IsProper a
  unfolding parse_payload parse_relation parse_contribution
  parse_payload-IsProper contribution_payload bytes a h =
      let (m, valid, rest) =
        >>=-eq-ok (validate_contribution_json bytes)
          (λ m.
            new_contribution
              (record { kind = m.kind; title = m.title; body = m.body; created_at = m.created_at })
            >>= λ c. ok (contribution c))
          h in
      let (c, made, same) =
        >>=-eq-ok
          (new_contribution
            (record { kind = m.kind; title = m.title; body = m.body; created_at = m.created_at }))
          (λ c. ok (contribution c)) rest in
      let named : contribution c ≡ a = cc in subst IsProper named tt
  parse_payload-IsProper contribution_relation_payload bytes a h =
      let (m, valid, rest) =
        >>=-eq-ok (validate_relation_json bytes)
          (λ m. new_relation (as_relation m) >>= λ r. ok (relation r)) h in
      let (r, made, same) = >>=-eq-ok (new_relation (as_relation m)) (λ r. ok (relation r)) rest in
      let named : relation r ≡ a = cc in
      subst IsProper named (new_relation-IsProper (as_relation m) r made)

  pub decode_payload-IsProper :
      (p : PayloadType) (bytes : Bytes) (a : Artifact) → decode_payload p bytes ≡ ok a → IsProper a
  unfolding decode_payload
  decode_payload-IsProper p bytes a h =
      let (b, parsed, rest) =
        >>=-eq-ok (reraise is_type_or_value_error codec_error (parse_payload p bytes))
          (λ b. encode_payload b >>= λ encoded. require (encoded.1 == bytes) codec_error >> ok b)
          h in
      subst IsProper (ground arith) (
        parse_payload-IsProper p bytes b
          (reraise-eq-ok is_type_or_value_error codec_error (parse_payload p bytes) parsed))

  pub adjacent-connect :
      (a : Artifact) (key : AdjacencyKey) (r : ArtifactRef) (adjacency : Adjacency)
      → IsProper a
      → adjacent key (connect a r adjacency) ≡ adjacent key adjacency ++ one_if (links key a) r
  unfolding connect
  adjacent-connect (contribution c) key r adjacency proper =
      adjacent-append_reference (contribution_kind_node c.kind) key r adjacency
  adjacent-connect (relation l) key r adjacency proper =
      let (kind_apart, ends_apart) = keys_apart l key proper in
      rw
        (
          adjacent-append_reference (reference_node l.to_contribution) key r (
              append_reference (reference_node l.from_contribution) r
                (append_reference (relation_kind_node l.kind) r adjacency)),
          adjacent-append_reference (reference_node l.from_contribution) key r
              (append_reference (relation_kind_node l.kind) r adjacency),
          adjacent-append_reference (relation_kind_node l.kind) key r adjacency,
        )
        (one_if-three (relation_kind_node l.kind == key) (reference_node l.from_contribution == key)
          (reference_node l.to_contribution == key) r (adjacent key adjacency) kind_apart
          ends_apart)
