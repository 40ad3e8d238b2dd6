-- ===== src/Index/Rebuild.antt =====
-- indexing/knowledge_graph_index.py: appending new entries against a rebuild from the ledger.
use discovery_net.Base.{
  ℕ, ◌≤◌, ◌<◌, ◌≡◌, refl, ◌∙◌, List, [], ◌∷◌, ◌++◌, All, any, eqb, leb, ltb, not, false, true, ◌&&◌,
  arith, subst, length, inl, inr, Bool-cases,
}
use discovery_net.Base.Dict.{has_key}
use discovery_net.Base.Result.{
  Result, ok, err, Result-cases, for_m-commutes, for_m, for_m-append, >>=-eq-ok, ◌>>=◌,
}
use discovery_net.Base.Text.{is_empty, text_eq}
use discovery_net.Wire.External.{External}
use discovery_net.Node.Ledger.{ArtifactLedgerEntry}
use discovery_net.Node.Store.{ArtifactLedgerSnapshot}
use discovery_net.Index.{
  GraphState, new_index, add_artifact, new_indexed, range_from, add_entry, build_state,
  append_state, refresh, append,
}

-- The entries are of blocks after `low`, up to `high`.
abbrev pub AreWithin : ℕ → ℕ → List ArtifactLedgerEntry → Type 0
AreWithin low high entries = All (λ e. (low < e.height) × (e.height ≤ high)) entries

module _ ⦃ext : External⦄ where
  within-late :
      (low high : ℕ) (entries : List ArtifactLedgerEntry)
      → AreWithin low high entries
      → any (λ e. leb e.height low) entries ≡ false
  within-late low high [] h = refl
  within-late low high (e ∷ entries) h = ground (arith, within-late low high entries h.1)

  within-early :
      (low high : ℕ) (entries : List ArtifactLedgerEntry)
      → AreWithin low high entries
      → any (λ e. ltb high e.height) entries ≡ false
  within-early low high [] h = refl
  within-early low high (e ∷ entries) h = ground (arith, within-early low high entries h.1)

  within-moves :
      (low high : ℕ) (entries : List ArtifactLedgerEntry)
      → AreWithin low high entries
      → (eqb high low && not (is_empty entries)) ≡ false
  within-moves low high [] h = ground arith
  within-moves low high (e ∷ entries) h = ground arith

  abbrev at_height : ℕ → GraphState → GraphState
  at_height n s = record s { height = n }

  add_artifact-at_height :
      (n : ℕ) (e : ArtifactLedgerEntry) (s : GraphState) (i : ℕ)
      → add_artifact e (at_height n s) i ≡ (add_artifact e s i >>= λ t. ok (at_height n t))
  unfolding add_artifact
  add_artifact-at_height n e s i = elim (Result-cases (new_indexed e i)) [
    | inl (x, made) ↦ rw made (elim (Bool-cases (has_key x.artifact_ref s.nodes)) [
      | inl old ↦ rw old refl
      | inr new ↦ rw new refl
    ])
    | inr (e', failed) ↦ rw failed refl
  ]

  add_entry-at_height :
      (n : ℕ) (s : GraphState) (e : ArtifactLedgerEntry)
      → add_entry (at_height n s) e ≡ (add_entry s e >>= λ t. ok (at_height n t))
  unfolding add_entry
  add_entry-at_height n s e =
      for_m-commutes (add_artifact e) (at_height n) (add_artifact-at_height n e) s
        (range_from 0 (length e.transaction.envelopes))

  -- The height of the state does not matter to what is added.
  append_state-at_height :
      (s : GraphState) (n height : ℕ) (entries : List ArtifactLedgerEntry)
      → append_state (at_height n s) entries height ≡ append_state s entries height
  unfolding append_state
  append_state-at_height s n height entries =
      rw (for_m-commutes add_entry (at_height n) (add_entry-at_height n) s entries)
        (go (for_m add_entry s entries))
    where
      go :
          (r : Result GraphState)
          → ((r >>= λ t. ok (at_height n t)) >>= λ t. ok (at_height height t))
            ≡ (r >>= λ t. ok (at_height height t))
      go (ok t) = refl
      go (err e) = refl

  append-within :
      (s : GraphState) (entries : List ArtifactLedgerEntry) (height : ℕ)
      → s.height ≤ height
      → AreWithin s.height height entries
      → append s entries height ≡ append_state s entries height
  unfolding append
  append-within s entries height later within =
      let reaches : leb s.height height ≡ true = ground arith in
      rw
        (
          reaches,
          within-late s.height height entries within,
          within-early s.height height entries within,
          within-moves s.height height entries within,
        )
        refl

  append_state_lem :
      (s : GraphState) (entries : List ArtifactLedgerEntry) (height : ℕ)
      → append_state s entries height ≡ (for_m add_entry s entries >>= λ t. ok (at_height height t))
  unfolding append_state
  append_state_lem s entries height = refl

  -- For an index that was built from a snapshot, appending entries of later blocks, up to a
  -- height that is not below that of the snapshot, is the same as rebuilding the index from the
  -- snapshot with all entries: the same index, or the same error.
  pub append-refresh :
      (old s : GraphState) (snapshot : ArtifactLedgerSnapshot) (entries : List ArtifactLedgerEntry)
      (height : ℕ)
      → refresh old snapshot ≡ ok s
      → snapshot.height ≤ height
      → AreWithin snapshot.height height entries
      → append s entries height
        ≡ refresh s (record { height = height; entries = snapshot.entries ++ entries })
  unfolding refresh build_state
  append-refresh old s snapshot entries height built later within =
      let (u, added, same) =
        >>=-eq-ok (for_m add_entry new_index snapshot.entries)
          (λ u. ok (at_height snapshot.height u)) built in
      let named : at_height snapshot.height u ≡ s = cc in
      let whole = for_m-append add_entry new_index snapshot.entries entries in
      subst
        (λ v. append v entries height ≡ (
          for_m add_entry new_index (snapshot.entries ++ entries) >>= λ t. ok (at_height height t)))
        named
        (append-within (at_height snapshot.height u) entries height later within
          ∙ append_state-at_height u snapshot.height height entries
          ∙ rw (whole, added) (append_state_lem u entries height))
