-- ===== src/Node/Ledger/Fresh.antt =====
-- An entry whose references are new can be recorded: the loop of the constructor does not raise.
use discovery_net.Base.{
  is_some, Bool, true, false, ◌||◌, ◌≡◌, refl, ◌∙◌, ap, List, [], ◌∷◌, ◌++◌, arith, any, contains,
  distinct, ==_iff,
}
use discovery_net.Base.Dict.{lookup, has_key}
use discovery_net.Base.Result.{ok, map_m, for_m, >>=-eq-ok, ◌>>=◌}
use discovery_net.Base.Text.{Bytes, to_bytes, text_eq}
use discovery_net.Graph.Models.{ArtifactRef}
use discovery_net.Wire.Envelope.{SignedEnvelope}
use discovery_net.Wire.External.{External}
use discovery_net.Wire.Codec.{artifact_ref, encode_transaction}
use discovery_net.Node.Validator.{is_committed}
use discovery_net.Node.Ledger.{
  ledger_hash_domain, ArtifactLedgerEntry, LocalArtifactLedger, envelope_by_ref, record_envelope,
  record_entry, advance_state_hash, last_entry, precedes,
}
use discovery_net.Node.Ledger.Append.{Index, has_key-append, for_record_envelope-new}

-- Some reference is a key.
abbrev known : Index → List ArtifactRef → Bool
known d references = any (λ k. has_key k d) references

known-append :
    (d : Index) (r : ArtifactRef) (e : SignedEnvelope) (references : List ArtifactRef)
    → known (d ++ (r, e) ∷ []) references ≡ (known d references || contains r references)
known-append d r e [] = refl
known-append d r e (k ∷ references) =
    ground (
      arith,
      known-append d r e references,
      has_key-append k d ((r, e) ∷ []),
      ==_iff r k,
      ==_iff k r,
    )

has_key-lookup : (k : ArtifactRef) (d : Index) → has_key k d ≡ is_some (lookup k d)
has_key-lookup k [] = refl
has_key-lookup k ((j, w) ∷ d) = ground (arith, has_key-lookup k d)

pub known-committed :
    (ledger : LocalArtifactLedger) (references : List ArtifactRef)
    → known ledger.envelopes_by_ref references
      ≡ any (is_committed (envelope_by_ref ledger)) references
unfolding envelope_by_ref
known-committed ledger [] = refl
known-committed ledger (k ∷ references) =
    ground (arith, has_key-lookup k ledger.envelopes_by_ref, known-committed ledger references)

module _ ⦃ext : External⦄ where
  record_envelopes-of-fresh :
      (d : Index) (es : List SignedEnvelope) (references : List ArtifactRef)
      → map_m artifact_ref es ≡ ok references
      → distinct references ≡ true
      → known d references ≡ false
      → (x : Index) × (for_m record_envelope d es ≡ ok x)
  record_envelopes-of-fresh d [] references h distinct_ones fresh = (d, refl)
  record_envelopes-of-fresh d (e ∷ es) references h distinct_ones fresh =
      let (r, found, rest) =
        >>=-eq-ok (artifact_ref e) (λ r. map_m artifact_ref es >>= λ rs. ok (r ∷ rs)) h in
      let (rs, found', same) = >>=-eq-ok (map_m artifact_ref es) (λ rs. ok (r ∷ rs)) rest in
      let cons_eq : r ∷ rs ≡ references = cc in
      let distinct' : distinct (r ∷ rs) ≡ true = ap distinct cons_eq ∙ distinct_ones in
      let fresh' : known d (r ∷ rs) ≡ false = ap (known d) cons_eq ∙ fresh in
      let (x, recorded) =
        record_envelopes-of-fresh (d ++ (r, e) ∷ []) es rs found' (ground arith)
          (known-append d r e rs ∙ ground arith) in
      (x, for_record_envelope-new d e es r found (ground arith) ∙ recorded)

  abbrev next_state_hash : Bytes → ArtifactLedgerEntry → Bytes → Bytes
  next_state_hash previous_hash e bytes = ext.sha256 (
      ledger_hash_domain
      ++ (previous_hash
          ++ ((to_bytes 8 e.height ++ to_bytes 8 e.transaction_index) ++ ext.sha256 bytes)))

  -- The entry of a transaction that can be encoded, with new references and a later position, is
  -- recorded.
  pub record_entry-of-fresh :
      (ledger : LocalArtifactLedger) (e : ArtifactLedgerEntry) (references : List ArtifactRef)
      (bytes : Bytes)
      → map_m artifact_ref e.transaction.envelopes ≡ ok references
      → distinct references ≡ true
      → any (is_committed (envelope_by_ref ledger)) references ≡ false
      → encode_transaction e.transaction ≡ ok bytes
      → precedes e (last_entry ledger.entries) ≡ false
      → (next : LocalArtifactLedger) × (record_entry ledger e ≡ ok next)
        × (next.entries ≡ ledger.entries ++ e ∷ [])
  unfolding record_entry advance_state_hash
  record_entry-of-fresh ledger e references bytes referenced distinct_ones fresh encoded later =
      let (x, recorded) =
        record_envelopes-of-fresh ledger.envelopes_by_ref e.transaction.envelopes references
          referenced distinct_ones (known-committed ledger references ∙ fresh) in
      let next : LocalArtifactLedger = record {
        entries = ledger.entries ++ e ∷ [];
        envelopes_by_ref = x;
        state_hash = next_state_hash ledger.state_hash e bytes;
      } in
      (next, rw (later, recorded, encoded), refl)
