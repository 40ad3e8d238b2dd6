-- ===== src/Node/Ledger/Refinement.antt =====
-- The incremental ledger refines the one that the constructor builds from all entries at once.
use discovery_net.Base.{
  false, not, ◌≡◌, ◌↔◌, sym, ◌∙◌, ap, append-nil, List, [], ◌∷◌, ◌++◌, length, arith, eqb,
  if◌then◌else◌, any,
}
use discovery_net.Base.Dict.{keys, has_key, union}
use discovery_net.Base.Result.{Result, ok, for_m, for_m-snoc, >>=-eq-ok, ◌>>=◌}
use discovery_net.Base.Text.{text_eq}
use discovery_net.Wire.External.{External}
use discovery_net.Node.Ledger.{
  ArtifactLedgerEntry, LocalArtifactLedger, accepted, duplicate, record_envelope, record_entry,
  new_ledger, empty_ledger, add_envelope, append_transaction, append_new, AppendOutcome,
}
use discovery_net.Node.Ledger.Append.{
  Index, overlaps, record_envelopes-of-add, add_envelopes-of-record,
}

module _ ⦃ext : External⦄ where
  abbrev after_comprehension :
      LocalArtifactLedger
      → ArtifactLedgerEntry
      → Index
      → Result (LocalArtifactLedger × AppendOutcome)
  after_comprehension ledger e m =
      if not (eqb (length m) (length e.transaction.envelopes))
      then ok (ledger, duplicate)
      else if any (λ r. has_key r ledger.envelopes_by_ref) (keys m)
      then ok (ledger, duplicate)
      else append_new ledger e m

  after_comprehension-eq-accepted :
      (ledger next : LocalArtifactLedger) (e : ArtifactLedgerEntry) (m : Index)
      → after_comprehension ledger e m ≡ ok (next, accepted)
      → (length m ≡ length e.transaction.envelopes)
        × (overlaps ledger.envelopes_by_ref m ≡ false)
        × (append_new ledger e m ≡ ok (next, accepted))
  after_comprehension-eq-accepted ledger next e m h = ground arith

  recorded_envelopes :
      (ledger next : LocalArtifactLedger) (e : ArtifactLedgerEntry)
      → record_entry ledger e ≡ ok next
      → (x : Index) × (for_m record_envelope ledger.envelopes_by_ref e.transaction.envelopes ≡ ok x)
  unfolding record_entry
  recorded_envelopes ledger next e h = ground arith

  append_new-eq-record :
      (ledger : LocalArtifactLedger) (e : ArtifactLedgerEntry) (m : Index)
      → for_m record_envelope ledger.envelopes_by_ref e.transaction.envelopes
        ≡ ok (ledger.envelopes_by_ref ++ m)
      → union ledger.envelopes_by_ref m ≡ ledger.envelopes_by_ref ++ m
      → append_new ledger e m ≡ (record_entry ledger e >>= λ next. ok (next, accepted))
  unfolding append_new record_entry
  append_new-eq-record ledger e m recorded united = rw (recorded, united) (ground arith)

  record_entry-of-append :
      (ledger next : LocalArtifactLedger) (e : ArtifactLedgerEntry)
      → append_transaction ledger e ≡ ok (next, accepted)
      → record_entry ledger e ≡ ok next
  unfolding append_transaction
  record_entry-of-append ledger next e h =
      let (m, added, rest) =
        >>=-eq-ok (for_m add_envelope [] e.transaction.envelopes) (after_comprehension ledger e)
          h in
      let (full, apart, appended) = after_comprehension-eq-accepted ledger next e m rest in
      let (recorded, united) =
        record_envelopes-of-add ledger.envelopes_by_ref [] m e.transaction.envelopes added
          (omega arith) apart (sym (append-nil ledger.envelopes_by_ref)) in
      let same =
        append_new-eq-record ledger e m
          (ap (λ l. for_m record_envelope l e.transaction.envelopes)
              (sym (append-nil ledger.envelopes_by_ref))
            ∙ recorded)
          united in
      ground (arith, same, appended)

  append-of-record_entry :
      (ledger next : LocalArtifactLedger) (e : ArtifactLedgerEntry)
      → record_entry ledger e ≡ ok next
      → append_transaction ledger e ≡ ok (next, accepted)
  unfolding append_transaction
  append-of-record_entry ledger next e h =
      let (x, recorded) = recorded_envelopes ledger next e h in
      let (m, added, full, apart, whole, united) =
        add_envelopes-of-record ledger.envelopes_by_ref [] x e.transaction.envelopes
          (ap (λ l. for_m record_envelope l e.transaction.envelopes)
              (append-nil ledger.envelopes_by_ref)
            ∙ recorded)
          (sym (append-nil ledger.envelopes_by_ref)) in
      let same = append_new-eq-record ledger e m (recorded ∙ ap ok whole) united in
      rw added (ground (arith, full, apart, same, h))

  -- `append_transaction` accepts an entry exactly when the constructor can record it after the
  -- others, and the ledger that it returns is the one that the constructor builds.
  pub append_transaction_iff :
      (ledger next : LocalArtifactLedger) (e : ArtifactLedgerEntry)
      → (append_transaction ledger e ≡ ok (next, accepted)) ↔ (record_entry ledger e ≡ ok next)
  append_transaction_iff ledger next e =
      (record_entry-of-append ledger next e, append-of-record_entry ledger next e)

  -- For a ledger that the constructor built from some entries: appending one more is accepted
  -- exactly when the constructor takes all of them, and gives the same ledger, its index and its
  -- state hash included.
  pub append_transaction-new_ledger :
      (entries : List ArtifactLedgerEntry) (ledger next : LocalArtifactLedger)
      (e : ArtifactLedgerEntry)
      → new_ledger entries ≡ ok ledger
      → (append_transaction ledger e ≡ ok (next, accepted))
        ↔ (new_ledger (entries ++ e ∷ []) ≡ ok next)
  unfolding new_ledger
  append_transaction-new_ledger entries ledger next e built =
      let snoc = for_m-snoc record_entry empty_ledger ledger entries e built in
      (
        λ h. snoc ∙ record_entry-of-append ledger next e h,
        λ h. append-of-record_entry ledger next e (sym snoc ∙ h),
      )
