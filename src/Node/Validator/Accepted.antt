-- ===== src/Node/Validator/Accepted.antt =====
-- What a transaction that gets the code `accepted` satisfies.
use discovery_net.Base.{
  Bool, true, false, not, ◌||◌, ◌≡◌, ◌↔◌, ◌⊎◌, sym, ap, subst, refl, inl, inr, Option, none, some,
  List, [], ◌∷◌, length, arith, ==_iff, ==-refl, contains, distinct, any, All, if◌then◌else◌,
  Bool-cases,
}
use discovery_net.Base.Result.{Result, ok, map_m, >>=-eq-ok, ◌>>=◌}
use discovery_net.Base.Text.{Bytes, text_eq}
use discovery_net.Graph.Models.{
  ArtifactRef, Contribution, Artifact, contribution, relation, is_contribution,
}
use discovery_net.Wire.Envelope.{SignedEnvelope, SignedTransaction, chain_id}
use discovery_net.Wire.Limits.{exceeds_encoded_size, exceeds_artifact_count}
use discovery_net.Wire.External.{External}
use discovery_net.Wire.Codec.{artifact_ref, decode_transaction}
use discovery_net.Wire.Signing.{verify_transaction}
use discovery_net.Node.Validator.{
  TransactionCode, accepted, duplicate, missing_reference, TransactionValidator, Lookup,
  is_committed, included_contributions, decode_artifact, committed_contribution, resolves,
  relation_resolves, artifact_resolves, all_resolve, validate_references, validate_signed, validate,
}

-- The references of the contributions of a transaction, whose references and contents these are
abbrev pub contribution_refs : List ArtifactRef → List Artifact → List ArtifactRef
contribution_refs [] contents = []
contribution_refs (r ∷ references) [] = []
contribution_refs (r ∷ references) (contribution c ∷ contents) =
    r ∷ contribution_refs references contents
contribution_refs (r ∷ references) (relation l ∷ contents) = contribution_refs references contents

included_contributions-contribution_refs :
    (references : List ArtifactRef) (contents : List Artifact)
    → included_contributions references contents ≡ contribution_refs references contents
unfolding included_contributions
included_contributions-contribution_refs [] contents = refl
included_contributions-contribution_refs (r ∷ references) [] = refl
included_contributions-contribution_refs (r ∷ references) (contribution c ∷ contents) =
    ap (λ l. r ∷ l) (included_contributions-contribution_refs references contents)
included_contributions-contribution_refs (r ∷ references) (relation l ∷ contents) =
    included_contributions-contribution_refs references contents

module _ ⦃ext : External⦄ where
  -- The reference is that of a contribution of the transaction itself, or of a committed one.
  abbrev pub IsContributionIn : Lookup → List ArtifactRef → ArtifactRef → Type 0
  IsContributionIn artifacts included reference =
      (contains reference included ≡ true)
      ⊎ ((e : SignedEnvelope) × (c : Contribution) × (artifacts reference ≡ some e)
          × (decode_artifact e ≡ ok (contribution c)))

  -- Both ends of a relation are contributions.
  abbrev pub EndsResolve : Lookup → List ArtifactRef → Artifact → Type 0
  EndsResolve artifacts included (contribution c) = Unit
  EndsResolve artifacts included (relation r) =
      IsContributionIn artifacts included r.from_contribution
      × IsContributionIn artifacts included r.to_contribution

  committed_contribution_sound :
      (o : Option SignedEnvelope)
      → committed_contribution o ≡ ok true
      → (e : SignedEnvelope) × (c : Contribution) × (o ≡ some e)
        × (decode_artifact e ≡ ok (contribution c))
  committed_contribution_sound none h = cc
  committed_contribution_sound (some e) h =
      let (a, decoded, same) = >>=-eq-ok (decode_artifact e) (λ a. ok (is_contribution a)) h in
      go a decoded same
    where
      go :
          (a : Artifact)
          → decode_artifact e ≡ ok a
          → ◌≡◌ {A = Result Bool} (ok (is_contribution a)) (ok true)
          → (e' : SignedEnvelope) × (c : Contribution) × (◌≡◌ {A = Option SignedEnvelope}
              (some e)
              (some e'))
            × (decode_artifact e' ≡ ok (contribution c))
      go (contribution c) decoded same = (e, c, refl, decoded)
      go (relation r) decoded same = cc

  resolves_sound :
      (artifacts : Lookup) (included : List ArtifactRef) (reference : ArtifactRef)
      → resolves artifacts included reference ≡ ok true
      → IsContributionIn artifacts included reference
  unfolding resolves
  resolves_sound artifacts included reference h = elim (Bool-cases (contains reference included)) [
    | inl here ↦ inl here
    | inr elsewhere ↦ inr (committed_contribution_sound (artifacts reference) (rw elsewhere at h))
  ]

  resolves_complete :
      (artifacts : Lookup) (included : List ArtifactRef) (reference : ArtifactRef)
      → IsContributionIn artifacts included reference
      → resolves artifacts included reference ≡ ok true
  unfolding resolves
  resolves_complete artifacts included reference (inl here) = rw here
  resolves_complete artifacts included reference (inr (e, c, found, decoded)) =
      ground (arith, found, decoded)

  artifact_resolves_iff :
      (artifacts : Lookup) (included : List ArtifactRef) (a : Artifact)
      → (artifact_resolves artifacts included a ≡ ok true) ↔ EndsResolve artifacts included a
  unfolding relation_resolves
  artifact_resolves_iff artifacts included (contribution c) = (λ h. tt, λ h. refl)
  artifact_resolves_iff artifacts included (relation r) = (
    λ h.
        let (from, first, second) =
          >>=-eq-ok (resolves artifacts included r.from_contribution)
            (λ from. if from then resolves artifacts included r.to_contribution else ok false) h in
        (
          resolves_sound artifacts included r.from_contribution (ground arith),
          resolves_sound artifacts included r.to_contribution (ground arith),
        ),
    λ h.
        rw (resolves_complete artifacts included r.from_contribution h.0)
          (resolves_complete artifacts included r.to_contribution h.1),
  )

  pub all_resolve_iff :
      (artifacts : Lookup) (included : List ArtifactRef) (l : List Artifact)
      → (all_resolve artifacts included l ≡ ok true) ↔ All (EndsResolve artifacts included) l
  unfolding all_resolve
  all_resolve_iff artifacts included [] = (λ h. tt, λ h. refl)
  all_resolve_iff artifacts included (a ∷ l) = (
    λ h.
        let (found, first, rest) =
          >>=-eq-ok (artifact_resolves artifacts included a)
            (λ found. if found then all_resolve artifacts included l else ok false) h in
        (
          (artifact_resolves_iff artifacts included a).0 (ground arith),
          (all_resolve_iff artifacts included l).0 (ground arith),
        ),
    λ h.
        rw ((artifact_resolves_iff artifacts included a).1 h.0)
          ((all_resolve_iff artifacts included l).1 h.1),
  )

  -- The steps of `validate_references`
  abbrev resolve_contents : Lookup → List ArtifactRef → List Artifact → Result TransactionCode
  resolve_contents artifacts references contents =
      all_resolve artifacts (included_contributions references contents) contents >>= λ resolved.
      ok (if resolved then accepted else missing_reference)

  abbrev contents_resolve : Lookup → List SignedEnvelope → List ArtifactRef → Result TransactionCode
  contents_resolve artifacts envelopes references =
      map_m decode_artifact envelopes >>= resolve_contents artifacts references

  abbrev after_references : Lookup → List SignedEnvelope → List ArtifactRef → Result TransactionCode
  after_references artifacts envelopes references =
      if not (distinct references) || any (is_committed artifacts) references
      then ok duplicate
      else contents_resolve artifacts envelopes references

  -- What the protocol asks of a transaction `t` sent as `transaction`
  pub record IsAcceptable (v : TransactionValidator) (transaction : Bytes) (artifacts : Lookup)
      (t : SignedTransaction) : Type 0 where
    pub fits : exceeds_encoded_size transaction ≡ false
    pub decodes : decode_transaction transaction ≡ ok t
    pub few : exceeds_artifact_count (length t.envelopes) ≡ false
    pub on_chain : chain_id t ≡ v.expected_chain_id
    pub is_signed : verify_transaction t ≡ ok true
    pub references : List ArtifactRef
    pub referenced : map_m artifact_ref t.envelopes ≡ ok references
    pub distinct_references : distinct references ≡ true
    pub new_references : any (is_committed artifacts) references ≡ false
    pub contents : List Artifact
    pub read : map_m decode_artifact t.envelopes ≡ ok contents
    pub ends_resolve : All (EndsResolve artifacts (contribution_refs references contents)) contents

  references-eq-accepted :
      (artifacts : Lookup) (envelopes : List SignedEnvelope) (references : List ArtifactRef)
      → after_references artifacts envelopes references ≡ ok accepted
      → (distinct references ≡ true)
        × (any (is_committed artifacts) references ≡ false)
        × (contents_resolve artifacts envelopes references ≡ ok accepted)
  references-eq-accepted artifacts envelopes references h = ground arith

  contents-eq-accepted :
      (artifacts : Lookup) (envelopes : List SignedEnvelope) (references : List ArtifactRef)
      → contents_resolve artifacts envelopes references ≡ ok accepted
      → (contents : List Artifact) × (map_m decode_artifact envelopes ≡ ok contents)
        × (all_resolve artifacts (included_contributions references contents) contents ≡ ok true)
  contents-eq-accepted artifacts envelopes references h =
      let (contents, read, rest) =
        >>=-eq-ok (map_m decode_artifact envelopes) (resolve_contents artifacts references) h in
      (contents, read, ground arith)

  validate-eq-accepted :
      (v : TransactionValidator) (transaction : Bytes) (artifacts : Lookup)
      → validate v transaction artifacts ≡ ok accepted
      → (t : SignedTransaction) × (exceeds_encoded_size transaction ≡ false)
        × (decode_transaction transaction ≡ ok t)
        × (validate_signed v artifacts t ≡ ok accepted)
  unfolding validate
  validate-eq-accepted v transaction artifacts h = ground arith

  signed-eq-accepted :
      (v : TransactionValidator) (artifacts : Lookup) (t : SignedTransaction)
      → validate_signed v artifacts t ≡ ok accepted
      → (exceeds_artifact_count (length t.envelopes) ≡ false)
        × (chain_id t ≡ v.expected_chain_id)
        × (verify_transaction t ≡ ok true)
        × (validate_references artifacts t.envelopes ≡ ok accepted)
  unfolding validate_signed
  signed-eq-accepted v artifacts t h = ground (arith, ==_iff (chain_id t) v.expected_chain_id)

  accepted-IsAcceptable :
      (v : TransactionValidator) (transaction : Bytes) (artifacts : Lookup)
      → validate v transaction artifacts ≡ ok accepted
      → (t : SignedTransaction) × IsAcceptable v transaction artifacts t
  unfolding validate_references
  accepted-IsAcceptable v transaction artifacts h =
      let (t, fits, decodes, signed) = validate-eq-accepted v transaction artifacts h in
      let (few, on_chain, is_signed, rest) = signed-eq-accepted v artifacts t signed in
      let (references, referenced, rest') =
        >>=-eq-ok (map_m artifact_ref t.envelopes) (after_references artifacts t.envelopes) rest in
      let (distinct_references, new_references, rest'') =
        references-eq-accepted artifacts t.envelopes references rest' in
      let (contents, read, resolved) =
        contents-eq-accepted artifacts t.envelopes references rest'' in
      (
        t,
        record {
          fits = fits;
          decodes = decodes;
          few = few;
          on_chain = on_chain;
          is_signed = is_signed;
          references = references;
          referenced = referenced;
          distinct_references = distinct_references;
          new_references = new_references;
          contents = contents;
          read = read;
          ends_resolve =
              subst (λ included. All (EndsResolve artifacts included) contents)
                (included_contributions-contribution_refs references contents)
                ((all_resolve_iff artifacts (included_contributions references contents) contents).0
                  resolved);
        },
      )

  IsAcceptable-accepted :
      (v : TransactionValidator) (transaction : Bytes) (artifacts : Lookup) (t : SignedTransaction)
      → IsAcceptable v transaction artifacts t
      → validate v transaction artifacts ≡ ok accepted
  unfolding validate validate_signed validate_references
  IsAcceptable-accepted v transaction artifacts t a =
      let included = included_contributions a.references a.contents in
      let resolved = (all_resolve_iff artifacts included a.contents).1 (
        subst (λ included. All (EndsResolve artifacts included) a.contents)
          (sym (included_contributions-contribution_refs a.references a.contents))
          a.ends_resolve) in
      rw (a.fits, a.decodes, a.few)
        (rw (a.on_chain, ==-refl v.expected_chain_id, a.is_signed)
          (rw (a.referenced, a.distinct_references, a.new_references) (rw (a.read, resolved))))

  -- A transaction gets the code `accepted` exactly when it is acceptable.
  pub accepted_iff :
      (v : TransactionValidator) (transaction : Bytes) (artifacts : Lookup)
      → (validate v transaction artifacts ≡ ok accepted)
        ↔ ((t : SignedTransaction) × IsAcceptable v transaction artifacts t)
  accepted_iff v transaction artifacts = (
    accepted-IsAcceptable v transaction artifacts,
    λ a. IsAcceptable-accepted v transaction artifacts a.0 a.1,
  )
