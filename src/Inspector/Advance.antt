-- ===== src/Inspector/Advance.antt =====
-- inspector/service.py: what `_advance_index` does with an update of one chain.
use discovery_net.Base.{
  ℕ, ◌≤◌, true, false, not, ◌&&◌, ◌≡◌, refl, sym, ap, ◌∙◌, subst, Option, none, some, List, [], ◌∷◌,
  ◌==◌, ==-refl, any, eqb, All, arith, ◌⊎◌, inl, inr,
}
use discovery_net.Base.Result.{ok}
use discovery_net.Base.Text.{Str, text_eq, is_empty}
use discovery_net.Wire.Envelope.{chain_id}
use discovery_net.Wire.External.{External}
use discovery_net.Node.Ledger.{ArtifactLedgerEntry}
use discovery_net.Index.{GraphState, append}
use discovery_net.Inspector.{
  InspectorService, is_unset_or, is_behind, is_at, is_foreign, or_else, update_chain_id,
  take_update,
}

-- The height that the service recorded is unset before the first update, and else that of its index.
abbrev pub HeightAgrees : InspectorService → Type 0
HeightAgrees s = (s.indexed_height ≡ none) ⊎ (s.indexed_height ≡ some s.index.height)

abbrev pub ChainAgrees : InspectorService → Str → Type 0
ChainAgrees s chain = (s.indexed_chain_id ≡ none) ⊎ (s.indexed_chain_id ≡ some chain)

module _ ⦃ext : External⦄ where
  same_chain :
      (chain : Str) (e : ArtifactLedgerEntry) (es : List ArtifactLedgerEntry)
      → chain_id e.transaction ≡ chain
      → All (λ f. chain_id f.transaction ≡ chain) es
      → any (λ f. not (chain_id f.transaction == chain_id e.transaction)) es ≡ false
  same_chain chain e [] h k = refl
  same_chain chain e (f ∷ es) h k =
      rw (k.0 ∙ sym h, ==-refl (chain_id e.transaction)) (same_chain chain e es h k.1)

  -- The chain that an update of one chain names, if it has entries
  unfoldable pub chain_of : Str → List ArtifactLedgerEntry → Option Str
  chain_of chain [] = none
  chain_of chain (e ∷ es) = some chain

  update_chain_id-one :
      (chain : Str) (es : List ArtifactLedgerEntry)
      → All (λ e. chain_id e.transaction ≡ chain) es
      → update_chain_id es ≡ ok (chain_of chain es)
  unfolding update_chain_id chain_of
  update_chain_id-one chain [] h = refl
  update_chain_id-one chain (e ∷ es) h =
      rw (same_chain chain e es h.0 h.1) (ap (λ c. ok (some c)) h.0)

  pub unset_or :
      (o : Option Str) (chain : Str) → (o ≡ none) ⊎ (o ≡ some chain) → is_unset_or o chain ≡ true
  unset_or o chain (inl h) = rw h refl
  unset_or o chain (inr h) = rw (h, ==-refl chain) refl

  pub chain_of-agrees :
      (chain : Str) (es : List ArtifactLedgerEntry)
      → (chain_of chain es ≡ none) ⊎ (chain_of chain es ≡ some chain)
  unfolding chain_of
  chain_of-agrees chain [] = inl refl
  chain_of-agrees chain (e ∷ es) = inr refl

  not_foreign :
      (o p : Option Str) (chain : Str)
      → (o ≡ none) ⊎ (o ≡ some chain)
      → (p ≡ none) ⊎ (p ≡ some chain)
      → is_foreign o p ≡ false
  not_foreign o p chain (inl h) k = rw h refl
  not_foreign o p chain (inr h) (inl k) = rw (h, k) refl
  not_foreign o p chain (inr h) (inr k) = rw (h, k) (rw (==-refl chain) refl)

  pub take_update-lem :
      (s : InspectorService) (chain : Str) (height : ℕ) (es : List ArtifactLedgerEntry)
      (index : GraphState)
      → ChainAgrees s chain
      → All (λ e. chain_id e.transaction ≡ chain) es
      → append s.index es height ≡ ok index
      → take_update s (record { height = height; entries = es }) chain
        ≡ ok (record {
          index = index;
          indexed_height = some height;
          indexed_chain_id = or_else (chain_of chain es) s.indexed_chain_id;
        })
  unfolding take_update
  take_update-lem s chain height es index agrees here appended =
      rw
        (
          update_chain_id-one chain es here,
          unset_or (chain_of chain es) chain (chain_of-agrees chain es),
          not_foreign s.indexed_chain_id (chain_of chain es) chain agrees
              (chain_of-agrees chain es),
          appended,
        )
        refl

  pub or_else-agrees :
      (o p : Option Str) (chain : Str)
      → (o ≡ none) ⊎ (o ≡ some chain)
      → (p ≡ none) ⊎ (p ≡ some chain)
      → (or_else p o ≡ none) ⊎ (or_else p o ≡ some chain)
  or_else-agrees o p chain h (inl k) = rw k h
  or_else-agrees o p chain h (inr k) = rw k (inr refl)

  pub not_behind :
      (s : InspectorService) (height : ℕ)
      → HeightAgrees s
      → s.index.height ≤ height
      → is_behind s.indexed_height height ≡ false
  not_behind s height (inl h) le = rw h refl
  not_behind s height (inr h) le = rw h (ground arith)

  -- Nothing is new only at the height of the index.
  pub at_rest :
      (s : InspectorService) (height : ℕ) (es : List ArtifactLedgerEntry)
      → HeightAgrees s
      → (is_at s.indexed_height height && is_empty es) ≡ true
      → (s.index.height ≡ height) × (es ≡ [])
  at_rest s height [] (inl h) k =
      let idle : (is_at none height && true) ≡ true =
        subst (λ o. (is_at o height && true) ≡ true) h k in
      cc
  at_rest s height [] (inr h) k =
      let idle : (eqb height s.index.height && true) ≡ true =
        subst (λ o. (is_at o height && true) ≡ true) h k in
      (ground arith, refl)
  at_rest s height (e ∷ es) h k = ground arith
