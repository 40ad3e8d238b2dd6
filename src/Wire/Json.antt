-- ===== src/Wire/Json.antt =====
-- JSON values and `_canonical_json` of wire/codec.py: `json.dumps` with sorted keys, the compact
-- separators and no ASCII escapes, encoded in UTF-8.
use discovery_net.Base.{
  ℕ, ◌/◌, ◌%◌, Bool, true, false, ◌||◌, ◌&&◌, List, [], ◌∷◌, ◌++◌, ltb, eqb, if◌then◌else◌,
}
use discovery_net.Base.Result.{Result, ok, err, codec_error, ◌>>=◌}
use discovery_net.Base.Text.{Str, Bytes, codes, hex_digit, utf8}

-- `token` is a number, `true`, `false` or `null`, as `json.dumps` prints it; `nonfinite` is a float
-- that is infinite or no number.
mutual
  pub data Json : Type 0 where
    str : Str → Json
    token : Str → Json
    nonfinite : Json
    arr : Items → Json
    obj : Fields → Json

  pub data Items : Type 0 where
    nil : Items
    cons : Json → Items → Items

  pub data Fields : Type 0 where
    end : Fields
    field : Str → Json → Fields → Fields

unfoldable pub escape_char : ℕ → Str
unfolding hex_digit
escape_char c =
    if eqb c 34
    then 92 ∷ 34 ∷ []
    else if eqb c 92
    then 92 ∷ 92 ∷ []
    else if eqb c 10
    then codes "\\n"
    else if eqb c 13
    then codes "\\r"
    else if eqb c 9
    then codes "\\t"
    else if eqb c 12
    then codes "\\f"
    else if eqb c 8
    then codes "\\b"
    else if ltb c 32
    then codes "\\u00" ++ hex_digit (c / 16) ∷ hex_digit (c % 16) ∷ []
    else c ∷ []

escape : Str → Str
unfolding escape_char
escape [] = []
escape (c ∷ s) = escape_char c ++ escape s

unfoldable pub quote : Str → Str
unfolding escape
quote s = 34 ∷ escape s ++ 34 ∷ []

-- The order of Python's strings
unfoldable pub str_lt : Str → Str → Bool
str_lt [] [] = false
str_lt [] (d ∷ t) = true
str_lt (c ∷ s) [] = false
str_lt (c ∷ s) (d ∷ t) = ltb c d || (eqb c d && str_lt s t)

unfoldable pub insert_key : Str × Str → List (Str × Str) → List (Str × Str)
unfolding str_lt
insert_key p [] = p ∷ []
insert_key p (q ∷ r) = if str_lt q.0 p.0 then q ∷ insert_key p r else p ∷ q ∷ r

unfoldable pub sort_keys : List (Str × Str) → List (Str × Str)
unfolding insert_key
sort_keys [] = []
sort_keys (p ∷ r) = insert_key p (sort_keys r)

unfoldable pub join : List Str → Str
join [] = []
join (s ∷ []) = s
join (s ∷ t ∷ r) = s ++ codes "," ++ join (t ∷ r)

unfoldable pub members : List (Str × Str) → List Str
members [] = []
members ((k, v) ∷ r) = (quote k ++ codes ":" ++ v) ∷ members r

unfoldable mutual
  pub dumps : Json → Result Str
  dumps (str s) = ok (quote s)
  dumps (token s) = ok s
  dumps nonfinite = err codec_error
  dumps (arr xs) = dumps_items xs >>= λ l. ok (codes "[" ++ join l ++ codes "]")
  dumps (obj fs) =
      dumps_fields fs >>= λ l. ok (codes "{" ++ join (members (sort_keys l)) ++ codes "}")

  pub dumps_items : Items → Result (List Str)
  dumps_items nil = ok []
  dumps_items (cons x xs) = let rest = dumps_items xs in dumps x >>= λ s. rest >>= λ l. ok (s ∷ l)

  pub dumps_fields : Fields → Result (List (Str × Str))
  dumps_fields end = ok []
  dumps_fields (field k v fs) =
      let rest = dumps_fields fs in dumps v >>= λ s. rest >>= λ l. ok ((k, s) ∷ l)

unfoldable pub canonical_json : Json → Result Bytes
unfolding dumps dumps_items dumps_fields quote sort_keys join members utf8
canonical_json value = dumps value >>= utf8
