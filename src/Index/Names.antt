-- ===== src/Index/Names.antt =====
-- indexing/knowledge_graph_index.py: indexing the entries that a ledger replays succeeds, and names
-- the artifacts of the ledger.
use discovery_net.Base.{
  ℕ, suc, ◌≡◌, refl, sym, ap, ◌∙◌, subst, some, List, [], ◌∷◌, ◌++◌, append_assoc, false, length,
  length-append, get_elem?, arith, contains,
}
use discovery_net.Base.Dict.{keys, keys-append, has_key, insert-new}
use discovery_net.Base.Result.{ok, ok-injective, map_m, for_m, >>=-eq-ok, ◌>>=◌}
use discovery_net.Base.Text.{Bytes, text_eq}
use discovery_net.Graph.Models.{Artifact}
use discovery_net.Wire.Envelope.{SignedEnvelope}
use discovery_net.Wire.External.{External}
use discovery_net.Node.Validator.{TransactionValidator, decode_artifact}
use discovery_net.Node.Ledger.{
  ArtifactLedgerEntry, LocalArtifactLedger, record_envelope, record_entry,
}
use discovery_net.Node.Ledger.Append.{Index, record_envelope-eq-ok}
use discovery_net.Node.Ledger.Refinement.{append_transaction_iff}
use discovery_net.Node.Store.{Row}
use discovery_net.Node.Store.Rows.{IsStorable, Holds, nothing, holds}
use discovery_net.Node.Recovery.{replay_entry}
use discovery_net.Node.Handler.Replayed.{replay_entry-IsAcceptable}
use discovery_net.Index.{GraphState, new_indexed, add_artifact, add_entry, range_from}
use discovery_net.Index.Sound.{grown, indexed_at}

get_elem?-append :
    (xs : List SignedEnvelope) (e : SignedEnvelope) (ys : List SignedEnvelope)
    → get_elem? (xs ++ e ∷ ys) (length xs) ≡ some e
get_elem?-append [] e ys = refl
get_elem?-append (x ∷ xs) e ys = get_elem?-append xs e ys

module _ ⦃ext : External⦄ where
  -- The index and the dictionary of the ledger name the same artifacts, in the same order.
  abbrev pub NamesSame : GraphState → Index → Type 0
  NamesSame s d = keys s.nodes ≡ keys d

  add_artifact-NamesSame :
      (entry : ArtifactLedgerEntry) (s : GraphState) (d d' : Index) (i : ℕ) (e : SignedEnvelope)
      (a : Artifact)
      → get_elem? entry.transaction.envelopes i ≡ some e
      → decode_artifact e ≡ ok a
      → record_envelope d e ≡ ok d'
      → NamesSame s d
      → (t : GraphState) × (add_artifact entry s i ≡ ok t) × NamesSame t d'
  unfolding add_artifact new_indexed decode_artifact
  add_artifact-NamesSame entry s d d' i e a here decoded recorded same =
      let (r, found, fresh, placed) = record_envelope-eq-ok d d' e recorded in
      let new : has_key r s.nodes ≡ false = ap (contains r) same ∙ fresh in
      let x = indexed_at entry i a r in
      (
        grown s x,
        rw (here, decoded, found, new, insert-new r x s.nodes new) refl,
        keys-append s.nodes ((r, x) ∷ [])
            ∙ ap (λ l. l ++ r ∷ []) same
            ∙ sym (ap keys placed ∙ keys-append d ((r, e) ∷ [])),
      )

  -- The envelopes that the loop over the ledger still has before it
  add_artifacts-NamesSame :
      (entry : ArtifactLedgerEntry) (before after : List SignedEnvelope) (contents : List Artifact)
      (s : GraphState) (d d' : Index)
      → entry.transaction.envelopes ≡ before ++ after
      → map_m decode_artifact after ≡ ok contents
      → for_m record_envelope d after ≡ ok d'
      → NamesSame s d
      → (t : GraphState) × (for_m (add_artifact entry) s (range_from (length before) (length after))
          ≡ ok t)
        × NamesSame t d'
  add_artifacts-NamesSame entry before [] contents s d d' split read recorded same =
      (s, refl, same ∙ ap keys (ground arith))
  add_artifacts-NamesSame entry before (e ∷ after) contents s d d' split read recorded same =
      let (a, decoded, others) =
        >>=-eq-ok (decode_artifact e) (λ a. map_m decode_artifact after >>= λ l. ok (a ∷ l)) read in
      let (contents', read', _) =
        >>=-eq-ok (map_m decode_artifact after) (λ l. ok (a ∷ l)) others in
      let (d1, first, rest) =
        >>=-eq-ok (record_envelope d e) (λ t. for_m record_envelope t after) recorded in
      let (s1, added, same1) =
        add_artifact-NamesSame entry s d d1 (length before) e a
          (ap (λ l. get_elem? l (length before)) split ∙ get_elem?-append before e after) decoded
          first same in
      let (t, all_added, last) =
        add_artifacts-NamesSame entry (before ++ e ∷ []) after contents' s1 d1 d'
          (split ∙ sym (append_assoc before (e ∷ []) after)) read' rest same1 in
      let next : length (before ++ e ∷ []) ≡ suc (length before) =
        omega (arith, length-append before (e ∷ [])) in
      (
        t,
        rw added (
            subst (λ n. for_m (add_artifact entry) s1 (range_from n (length after)) ≡ ok t) next
              all_added),
        last,
      )

  record_entry-eq-ok :
      (ledger next : LocalArtifactLedger) (e : ArtifactLedgerEntry)
      → record_entry ledger e ≡ ok next
      → for_m record_envelope ledger.envelopes_by_ref e.transaction.envelopes
        ≡ ok next.envelopes_by_ref
  unfolding record_entry
  record_entry-eq-ok ledger next e h = ground arith

  add_entry-NamesSame :
      (e : ArtifactLedgerEntry) (contents : List Artifact) (s : GraphState)
      (ledger next : LocalArtifactLedger)
      → map_m decode_artifact e.transaction.envelopes ≡ ok contents
      → record_entry ledger e ≡ ok next
      → NamesSame s ledger.envelopes_by_ref
      → (t : GraphState) × (add_entry s e ≡ ok t) × NamesSame t next.envelopes_by_ref
  unfolding add_entry
  add_entry-NamesSame e contents s ledger next read recorded same =
      add_artifacts-NamesSame e [] e.transaction.envelopes contents s ledger.envelopes_by_ref
        next.envelopes_by_ref refl read (record_entry-eq-ok ledger next e recorded) same

  replay_entry-NamesSame :
      (v : TransactionValidator) (ledger next : LocalArtifactLedger) (e : ArtifactLedgerEntry)
      (bytes : Bytes) (s : GraphState)
      → IsStorable e bytes
      → replay_entry v ledger e ≡ ok next
      → NamesSame s ledger.envelopes_by_ref
      → (t : GraphState) × (add_entry s e ≡ ok t) × NamesSame t next.envelopes_by_ref
  replay_entry-NamesSame v ledger next e bytes s stored h same =
      let (k, appended) = replay_entry-IsAcceptable v ledger next e bytes stored h in
      add_entry-NamesSame e k.contents s ledger next k.read
        ((append_transaction_iff ledger next e).0 appended) same

  pub replay-NamesSame :
      (v : TransactionValidator) (ledger last : LocalArtifactLedger) {es : List ArtifactLedgerEntry}
      {rows : List Row} (s : GraphState)
      → Holds es rows
      → for_m (replay_entry v) ledger es ≡ ok last
      → NamesSame s ledger.envelopes_by_ref
      → (t : GraphState) × (for_m add_entry s es ≡ ok t) × NamesSame t last.envelopes_by_ref
  replay-NamesSame v ledger last s nothing h same =
      (s, refl, same ∙ ap (λ l. keys l.envelopes_by_ref) (ok-injective h))
  replay-NamesSame v ledger last s (holds {es = es} e bytes stored held) h same =
      let (next, first, rest) =
        >>=-eq-ok (replay_entry v ledger e) (λ l. for_m (replay_entry v) l es) h in
      let (t, added, same1) = replay_entry-NamesSame v ledger next e bytes s stored first same in
      let (u, all_added, same2) = replay-NamesSame v next last t held rest same1 in
      (u, rw added all_added, same2)
