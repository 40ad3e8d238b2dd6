-- ===== src/Node/Ledger/Append.antt =====
-- Appending one entry is the same as building the ledger anew from all entries.
use discovery_net.Base.{
  ==_iff, ==-refl, subst, ◌+◌, ◌≤◌, ◌<◌, Bool, true, false, not, ◌||◌, ◌≡◌, refl, sym, ◌∙◌, ap,
  List, [], ◌∷◌, ◌++◌, append_assoc, length, length-append, any, arith,
}
use discovery_net.Base.Dict.{Dict, keys, has_key, insert, insert-new, union}
use discovery_net.Base.Result.{ok, value_error, require, for_m, >>=-eq-ok, ◌>>◌}
use discovery_net.Base.Text.{text_eq}
use discovery_net.Graph.Models.{ArtifactRef}
use discovery_net.Wire.Envelope.{SignedEnvelope}
use discovery_net.Wire.External.{External}
use discovery_net.Wire.Codec.{artifact_ref}
use discovery_net.Node.Ledger.{record_envelope, add_envelope}

abbrev pub Index : Type 0
Index = Dict ArtifactRef SignedEnvelope

-- Some key of `n` is a key of `d`.
abbrev pub overlaps : Index → Index → Bool
overlaps d n = any (λ r. has_key r d) (keys n)

union-append : (d n m : Index) → union d (n ++ m) ≡ union (union d n) m
union-append d [] m = refl
union-append d ((k, v) ∷ n) m = union-append (insert k v d) n m

length-insert-le :
    (r : ArtifactRef) (e : SignedEnvelope) (n : Index) → length (insert r e n) ≤ length n + 1
length-insert-le r e [] = omega arith
length-insert-le r e ((j, w) ∷ n) = ground (arith, length-insert-le r e n)

length-insert :
    (r : ArtifactRef) (e : SignedEnvelope) (n : Index)
    → length n < length (insert r e n)
    → has_key r n ≡ false
length-insert r e [] h = refl
length-insert r e ((j, w) ∷ n) h = ground (arith, length-insert r e n)

pub has_key-append :
    (r : ArtifactRef) (d n : Index) → has_key r (d ++ n) ≡ (has_key r d || has_key r n)
has_key-append r [] n = refl
has_key-append r ((j, w) ∷ d) n = ground (arith, has_key-append r d n)

has_key-insert :
    (k r : ArtifactRef) (e : SignedEnvelope) (n : Index)
    → has_key k n ≡ true
    → has_key k (insert r e n) ≡ true
has_key-insert k r e [] h = cc
has_key-insert k r e ((j, w) ∷ n) h = ground (arith, has_key-insert k r e n)

has_key-insert_self :
    (r : ArtifactRef) (e : SignedEnvelope) (n : Index) → has_key r (insert r e n) ≡ true
has_key-insert_self r e [] = ground (arith, ==-refl r)
has_key-insert_self r e ((j, w) ∷ n) = ground (arith, has_key-insert_self r e n)

overlaps-has_key :
    (r : ArtifactRef) (d m : Index)
    → overlaps d m ≡ false
    → has_key r m ≡ true
    → has_key r d ≡ false
overlaps-has_key r d [] h k = cc
overlaps-has_key r d ((j, w) ∷ m) h k = ground (arith, ==_iff j r, overlaps-has_key r d m)

overlaps-append :
    (d n : Index) (r : ArtifactRef) (e : SignedEnvelope)
    → overlaps d (n ++ (r, e) ∷ []) ≡ (overlaps d n || has_key r d)
overlaps-append d [] r e = ground arith
overlaps-append d ((j, w) ∷ n) r e = ground (arith, overlaps-append d n r e)

union-snoc :
    (d n : Index) (r : ArtifactRef) (e : SignedEnvelope)
    → union d n ≡ d ++ n
    → has_key r (d ++ n) ≡ false
    → union d (n ++ (r, e) ∷ []) ≡ d ++ (n ++ (r, e) ∷ [])
union-snoc d n r e h k =
    union-append d n ((r, e) ∷ [])
    ∙ ap (insert r e) h
    ∙ insert-new r e (d ++ n) k
    ∙ append_assoc d n ((r, e) ∷ [])

module _ ⦃ext : External⦄ where
  add_envelope-eq-ok :
      (n m : Index) (e : SignedEnvelope)
      → add_envelope n e ≡ ok m
      → (r : ArtifactRef) × (artifact_ref e ≡ ok r) × (m ≡ insert r e n)
  unfolding add_envelope
  add_envelope-eq-ok n m e h =
      let (r, found, same) = >>=-eq-ok (artifact_ref e) (λ r. ok (insert r e n)) h in (r, found, cc)

  length-add_envelopes :
      (n m : Index) (es : List SignedEnvelope)
      → for_m add_envelope n es ≡ ok m
      → length m ≤ length n + length es
  length-add_envelopes n m [] h = ground arith
  length-add_envelopes n m (e ∷ es) h =
      let (n', added, rest) = >>=-eq-ok (add_envelope n e) (λ t. for_m add_envelope t es) h in
      let (r, found, same) = add_envelope-eq-ok n n' e added in
      omega (
        arith,
        length-add_envelopes n' m es rest,
        length-insert-le r e n,
        ap (λ (l : Index). length l) same,
      )

  has_key-add_envelopes :
      (k : ArtifactRef) (n m : Index) (es : List SignedEnvelope)
      → for_m add_envelope n es ≡ ok m
      → has_key k n ≡ true
      → has_key k m ≡ true
  has_key-add_envelopes k n m [] h p = ground arith
  has_key-add_envelopes k n m (e ∷ es) h p =
      let (n', added, rest) = >>=-eq-ok (add_envelope n e) (λ t. for_m add_envelope t es) h in
      let (r, found, same) = add_envelope-eq-ok n n' e added in
      has_key-add_envelopes k n' m es rest (rw same (has_key-insert k r e n p))

  pub record_envelope-new :
      (d : Index) (e : SignedEnvelope) (r : ArtifactRef)
      → artifact_ref e ≡ ok r
      → has_key r d ≡ false
      → record_envelope d e ≡ ok (d ++ (r, e) ∷ [])
  unfolding record_envelope
  record_envelope-new d e r found new = rw (found, new, insert-new r e d new)

  pub record_envelope-eq-ok :
      (d x : Index) (e : SignedEnvelope)
      → record_envelope d e ≡ ok x
      → (r : ArtifactRef) × (artifact_ref e ≡ ok r) × (has_key r d ≡ false) × (x ≡ d ++ (r, e) ∷ [])
  unfolding record_envelope
  record_envelope-eq-ok d x e h =
      let (r, found, rest) =
        >>=-eq-ok (artifact_ref e)
          (λ r. require (not (has_key r d)) value_error >> ok (insert r e d)) h in
      (r, found, ground arith, ground (arith, insert-new r e d))

  pub for_record_envelope-new :
      (d : Index) (e : SignedEnvelope) (es : List SignedEnvelope) (r : ArtifactRef)
      → artifact_ref e ≡ ok r
      → has_key r d ≡ false
      → for_m record_envelope d (e ∷ es) ≡ for_m record_envelope (d ++ (r, e) ∷ []) es
  for_record_envelope-new d e es r found new = rw (record_envelope-new d e r found new)

  for_add_envelope-new :
      (n : Index) (e : SignedEnvelope) (es : List SignedEnvelope) (r : ArtifactRef)
      → artifact_ref e ≡ ok r
      → has_key r n ≡ false
      → for_m add_envelope n (e ∷ es) ≡ for_m add_envelope (n ++ (r, e) ∷ []) es
  unfolding add_envelope
  for_add_envelope-new n e es r found new = rw (found, insert-new r e n new)

  -- The comprehension that met no key twice, and no key of `d`, is what the loop of the
  -- constructor records.
  pub record_envelopes-of-add :
      (d n m : Index) (es : List SignedEnvelope)
      → for_m add_envelope n es ≡ ok m
      → length m ≡ length n + length es
      → overlaps d m ≡ false
      → union d n ≡ d ++ n
      → (for_m record_envelope (d ++ n) es ≡ ok (d ++ m)) × (union d m ≡ d ++ m)
  record_envelopes-of-add d n m [] h full apart u = ground arith
  record_envelopes-of-add d n m (e ∷ es) h full apart u =
      let (n', added, rest) = >>=-eq-ok (add_envelope n e) (λ t. for_m add_envelope t es) h in
      let (r, found, same) = add_envelope-eq-ok n n' e added in
      let grows = ap (λ (l : Index). length l) same in
      let le = length-add_envelopes n' m es rest in
      let le' = length-insert-le r e n in
      let new : has_key r n ≡ false = length-insert r e n (omega arith) in
      let snoc : n' ≡ n ++ (r, e) ∷ [] = same ∙ insert-new r e n new in
      let inside =
        has_key-add_envelopes r n' m es rest
          (subst (λ l. has_key r l ≡ true) (sym same) (has_key-insert_self r e n)) in
      let outside = overlaps-has_key r d m apart inside in
      let fresh : has_key r (d ++ n) ≡ false = rw has_key-append (ground arith) in
      let (recorded, united) =
        record_envelopes-of-add d n' m es rest (omega arith) apart
          (rw snoc (union-snoc d n r e u fresh)) in
      (
        for_record_envelope-new (d ++ n) e es r found fresh
            ∙ ap (λ l. for_m record_envelope l es)
                (append_assoc d n ((r, e) ∷ []) ∙ ap (λ l. d ++ l) (sym snoc))
            ∙ recorded,
        united,
      )

  -- And what the loop records, the comprehension finds.
  pub add_envelopes-of-record :
      (d n x : Index) (es : List SignedEnvelope)
      → for_m record_envelope (d ++ n) es ≡ ok x
      → union d n ≡ d ++ n
      → (m : Index) × (for_m add_envelope n es ≡ ok m)
        × (length m ≡ length n + length es)
        × (overlaps d m ≡ overlaps d n)
        × (x ≡ d ++ m)
        × (union d m ≡ d ++ m)
  add_envelopes-of-record d n x [] h u = (n, refl, omega arith, refl, ground arith, u)
  add_envelopes-of-record d n x (e ∷ es) h u =
      let (x', first, rest) =
        >>=-eq-ok (record_envelope (d ++ n) e) (λ t. for_m record_envelope t es) h in
      let (r, found, fresh, same) = record_envelope-eq-ok (d ++ n) x' e first in
      let split : (has_key r d || has_key r n) ≡ false = sym (has_key-append r d n) ∙ fresh in
      let new : has_key r n ≡ false = ground arith in
      let outside : has_key r d ≡ false = ground arith in
      let n' : Index = n ++ (r, e) ∷ [] in
      let (m, added, full, apart, whole, united) =
        add_envelopes-of-record d n' x es
          (ap (λ l. for_m record_envelope l es) (sym (append_assoc d n ((r, e) ∷ [])) ∙ sym same)
            ∙ rest)
          (union-snoc d n r e u fresh) in
      (
        m,
        for_add_envelope-new n e es r found new ∙ added,
        omega (arith, full, length-append n ((r, e) ∷ [])),
        apart ∙ overlaps-append d n r e ∙ ground arith,
        whole,
        united,
      )
