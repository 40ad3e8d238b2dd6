-- ===== src/Wire/Payload/RoundTrip.antt =====
-- wire/codec.py: decoding an encoded payload gives the artifact back, with its time in UTC.
use discovery_net.Base.{true, ◌≡◌, refl, sym, ap, ◌∙◌, some, ==-refl, arith}
use discovery_net.Base.Result.{ok, codec_error, reraise-eq-ok, >>=-eq-ok, ok-injective, ◌>>=◌}
use discovery_net.Base.Text.{Bytes, text_eq}
use discovery_net.Graph.Time.{Datetime, Offset, is_aware, utc, astimezone_utc, encode_datetime}
use discovery_net.Graph.Time.Utc.{astimezone_utc-offset, encode_datetime-astimezone_utc}
use discovery_net.Graph.Models.{
  Contribution, ContributionRelation, Artifact, contribution, relation, new_contribution,
  new_relation,
}
use discovery_net.Wire.Envelope.{PayloadType, contribution_payload, contribution_relation_payload}
use discovery_net.Wire.External.{External, ContributionPayload, RelationPayload}
use discovery_net.Wire.Json.{obj, canonical_json}
use discovery_net.Wire.Payload.{
  contribution_value, relation_value, contribution_model, relation_model, is_validation_error,
  encode_contribution, encode_relation, encode_payload, parse_payload, parse_contribution,
  parse_relation, validate_contribution_json, validate_relation_json, decode_payload,
}

abbrev pub created_at : Artifact → Datetime
created_at (contribution c) = c.created_at
created_at (relation r) = r.created_at

-- The artifact with another time
abbrev pub dated : Artifact → Datetime → Artifact
dated (contribution c) d = contribution (record c { created_at = d })
dated (relation r) d = relation (record r { created_at = d })

-- The constructor of the artifact accepts it.
abbrev pub IsConstructed : Artifact → Type 0
IsConstructed (contribution c) = new_contribution c ≡ ok c
IsConstructed (relation r) = new_relation r ≡ ok r

abbrev pub contribution_fields : Contribution → ContributionPayload
contribution_fields c = record {
  body = c.body;
  created_at = c.created_at;
  kind = c.kind;
  title = c.title;
}

abbrev pub relation_fields : ContributionRelation → RelationPayload
relation_fields r = record {
  created_at = r.created_at;
  from_contribution = r.from_contribution;
  kind = r.kind;
  to_contribution = r.to_contribution;
}

-- The parser reads the fields of the artifact from its bytes.
abbrev pub ReadsBack : ⦃ext : External⦄ → Bytes → Artifact → Type 0
ReadsBack ⦃ext = ext⦄ bytes (contribution c) =
    ext.contribution_json bytes ≡ some (contribution_fields c)
ReadsBack ⦃ext = ext⦄ bytes (relation r) = ext.relation_json bytes ≡ some (relation_fields r)

aware_utc : (d : Datetime) → d.offset ≡ utc → is_aware d ≡ true
unfolding is_aware
aware_utc d h = rw h refl

aware_of : (d : Datetime) (o : Offset) → d.offset ≡ some o → is_aware d ≡ true
unfolding is_aware
aware_of d o h = rw h refl

module _ ⦃ext : External⦄ where
  encode_contribution-dated :
      (c : Contribution) (d : Datetime)
      → is_aware c.created_at ≡ true
      → is_aware d ≡ true
      → encode_datetime d ≡ encode_datetime c.created_at
      → encode_contribution (record c { created_at = d }) ≡ encode_contribution c
  unfolding encode_contribution contribution_model contribution_value
  encode_contribution-dated c d aware aware_d same = rw (aware, aware_d, same) refl

  relation_model-eq-ok : (m n : RelationPayload) → relation_model m ≡ ok n → n ≡ m
  unfolding relation_model
  relation_model-eq-ok m n h = ground arith

  relation_model-dated :
      (m : RelationPayload) (d : Datetime)
      → is_aware d ≡ true
      → relation_model m ≡ ok m
      → relation_model (record m { created_at = d }) ≡ ok (record m { created_at = d })
  unfolding relation_model
  relation_model-dated m d aware_d valid = rw aware_d (ground arith)

  encode_contribution-eq-ok :
      (c : Contribution) (p : PayloadType) (bytes : Bytes)
      → encode_contribution c ≡ ok (p, bytes)
      → p ≡ contribution_payload
  unfolding encode_contribution
  encode_contribution-eq-ok c p bytes h =
      let (m, valid, rest) =
        >>=-eq-ok (contribution_model (contribution_fields c))
          (λ m. contribution_value m >>= λ v.
            canonical_json (obj v) >>= λ b. ok (contribution_payload, b))
          h in
      let (v, value, text) =
        >>=-eq-ok (contribution_value m)
          (λ v. canonical_json (obj v) >>= λ b. ok (contribution_payload, b)) rest in
      let (b, written, same) =
        >>=-eq-ok (canonical_json (obj v)) (λ b. ok (contribution_payload, b)) text in
      ap (λ q. q.0) (sym (ok-injective same))

  encode_relation-eq-ok :
      (r : ContributionRelation) (p : PayloadType) (bytes : Bytes)
      → encode_relation r ≡ ok (p, bytes)
      → (p ≡ contribution_relation_payload)
        × (relation_model (relation_fields r) ≡ ok (relation_fields r))
  unfolding encode_relation
  encode_relation-eq-ok r p bytes h =
      let (m, valid, rest) =
        >>=-eq-ok (relation_model (relation_fields r))
          (λ m. relation_value m >>= λ v.
            canonical_json (obj v) >>= λ b. ok (contribution_relation_payload, b))
          h in
      let (v, value, text) =
        >>=-eq-ok (relation_value m)
          (λ v. canonical_json (obj v) >>= λ b. ok (contribution_relation_payload, b)) rest in
      let (b, written, same) =
        >>=-eq-ok (canonical_json (obj v)) (λ b. ok (contribution_relation_payload, b)) text in
      (
        ap (λ q. q.0) (sym (ok-injective same)),
        valid ∙ ap ok (relation_model-eq-ok (relation_fields r) m valid),
      )

  encode_relation-dated :
      (r : ContributionRelation) (d : Datetime)
      → is_aware d ≡ true
      → relation_model (relation_fields r) ≡ ok (relation_fields r)
      → encode_datetime d ≡ encode_datetime r.created_at
      → encode_relation (record r { created_at = d }) ≡ encode_relation r
  unfolding encode_relation relation_value
  encode_relation-dated r d aware_d valid same =
      rw (relation_model-dated (relation_fields r) d aware_d valid, valid, same) refl

  new_contribution-dated :
      (c : Contribution) (d : Datetime)
      → is_aware d ≡ true
      → new_contribution c ≡ ok c
      → new_contribution (record c { created_at = d }) ≡ ok (record c { created_at = d })
  unfolding new_contribution
  new_contribution-dated c d aware_d made = rw aware_d (ground arith)

  new_relation-dated :
      (r : ContributionRelation) (d : Datetime)
      → is_aware d ≡ true
      → new_relation r ≡ ok r
      → new_relation (record r { created_at = d }) ≡ ok (record r { created_at = d })
  unfolding new_relation
  new_relation-dated r d aware_d made = rw aware_d (ground arith)

  parse_contribution-dated :
      (c : Contribution) (d : Datetime) (bytes : Bytes)
      → is_aware d ≡ true
      → new_contribution c ≡ ok c
      → ReadsBack bytes (contribution (record c { created_at = d }))
      → parse_contribution bytes ≡ ok (contribution (record c { created_at = d }))
  unfolding parse_contribution validate_contribution_json contribution_model
  parse_contribution-dated c d bytes aware_d made read =
      rw (read, aware_d, new_contribution-dated c d aware_d made) refl

  parse_relation-dated :
      (r : ContributionRelation) (d : Datetime) (bytes : Bytes)
      → is_aware d ≡ true
      → new_relation r ≡ ok r
      → relation_model (relation_fields r) ≡ ok (relation_fields r)
      → ReadsBack bytes (relation (record r { created_at = d }))
      → parse_relation bytes ≡ ok (relation (record r { created_at = d }))
  unfolding parse_relation validate_relation_json
  parse_relation-dated r d bytes aware_d made valid read =
      rw
        (
          read,
          relation_model-dated (relation_fields r) d aware_d valid,
          new_relation-dated r d aware_d made,
        )
        refl

  -- Parsing the bytes of an artifact, and encoding what was parsed
  parse_dated :
      (a : Artifact) (d : Datetime) (p : PayloadType) (bytes : Bytes)
      → IsConstructed a
      → is_aware (created_at a) ≡ true
      → is_aware d ≡ true
      → encode_datetime d ≡ encode_datetime (created_at a)
      → encode_payload a ≡ ok (p, bytes)
      → ReadsBack bytes (dated a d)
      → (parse_payload p bytes ≡ ok (dated a d)) × (encode_payload (dated a d) ≡ ok (p, bytes))
  unfolding encode_payload parse_payload
  parse_dated (contribution c) d p bytes made aware aware_d same encoded read =
      let inner = reraise-eq-ok is_validation_error codec_error (encode_contribution c) encoded in
      let kind = encode_contribution-eq-ok c p bytes inner in
      (
        rw kind (parse_contribution-dated c d bytes aware_d made read),
        rw (encode_contribution-dated c d aware aware_d same) encoded,
      )
  parse_dated (relation r) d p bytes made aware aware_d same encoded read =
      let inner = reraise-eq-ok is_validation_error codec_error (encode_relation r) encoded in
      let (kind, valid) = encode_relation-eq-ok r p bytes inner in
      (
        rw kind (parse_relation-dated r d bytes aware_d made valid read),
        rw (encode_relation-dated r d aware_d valid same) encoded,
      )

  -- Where the parser reads the fields of an artifact, with its time in UTC, from the bytes that
  -- `encode_payload` gives for the artifact, `decode_payload` of these bytes returns the artifact
  -- with its time in UTC.
  pub decode_payload-encode_payload :
      (a : Artifact) (o : Offset) (d : Datetime) (p : PayloadType) (bytes : Bytes)
      → IsConstructed a
      → (created_at a).offset ≡ some o
      → astimezone_utc (created_at a) o ≡ ok d
      → encode_payload a ≡ ok (p, bytes)
      → ReadsBack bytes (dated a d)
      → decode_payload p bytes ≡ ok (dated a d)
  unfolding decode_payload
  decode_payload-encode_payload a o d p bytes made offset at encoded read =
      let (parsed, encoded_again) =
        parse_dated a d p bytes made (aware_of (created_at a) o offset)
          (aware_utc d (astimezone_utc-offset (created_at a) d o at))
          (encode_datetime-astimezone_utc (created_at a) d o offset at) encoded read in
      rw (parsed, encoded_again, ==-refl bytes) refl
