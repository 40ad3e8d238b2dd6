-- ===== src/Base/Parse.antt =====
-- More of Python's `str`: lines, pieces, numerals. `ℤ` is the part of `int` below zero and above.
use Prim.Native.Nat.{ℕ, zero, suc, ◌+◌, ◌*◌}
use mathlib.Core.Bool.{Bool, true, false, ◌&&◌, ◌||◌}
use mathlib.Core.Option.{Option, none, some}
use mathlib.Core.List.{List, [], ◌∷◌, ◌++◌, map, reverse}
use discovery_net.Base.Tests.{ltb, leb, eqb, is_some, if◌then◌else◌}
use discovery_net.Base.Lists.{length, keep_if}
use discovery_net.Base.Text.{Str, strip, lstrip, starts_with}

pub data ℤ : Type 0 where
  pos negsuc : ℕ → ℤ

abbrev pub is_digit : ℕ → Bool
is_digit c = leb b'0' c && leb c b'9'

abbrev pub is_lower : ℕ → Bool
is_lower c = leb b'a' c && leb c b'z'

abbrev pub is_upper : ℕ → Bool
is_upper c = leb b'A' c && leb c b'Z'

-- `str.lower` on ASCII
abbrev pub lower_char : ℕ → ℕ
lower_char c = if is_upper c then c + 32 else c

abbrev pub lower : Str → Str
lower s = map lower_char s

abbrev pub ends_with : Str → Str → Bool
ends_with suffix s = starts_with (reverse suffix) (reverse s)

-- What `str.splitlines` ends a line at; a carriage return and a newline are one end.
unfoldable pub is_line_break : ℕ → Bool
is_line_break c =
    (leb 10 c && leb c 13) || (leb 28 c && leb c 30) || eqb c 133 || eqb c 8232 || eqb c 8233

abbrev pub push_char : ℕ → List Str → List Str
push_char c [] = (c ∷ []) ∷ []
push_char c (line ∷ lines) = (c ∷ line) ∷ lines

-- `s.splitlines()`
unfoldable pub split_lines : Str → List Str
unfolding is_line_break
split_lines [] = []
split_lines (c ∷ s) =
    let rest = split_lines s in
    if eqb c 13 && starts_with (10 ∷ []) s
    then rest
    else if is_line_break c
    then [] ∷ rest
    else push_char c rest

-- `sep.join(parts)`
abbrev pub join : Str → List Str → Str
join sep [] = []
join sep (part ∷ []) = part
join sep (part ∷ other ∷ parts) = part ++ sep ++ join sep (other ∷ parts)

abbrev before_of : ℕ → Option (Str × Str) → Option (Str × Str)
before_of c none = none
before_of c (some (before, after)) = some (c ∷ before, after)

-- `s.split(d, 1)` or `s.partition(d)` for one character; `none` if it is not in `s`.
unfoldable pub cut : ℕ → Str → Option (Str × Str)
cut d [] = none
cut d (c ∷ s) = let rest = before_of c (cut d s) in if eqb c d then some ([], s) else rest

-- `s.split(d)` for one character
unfoldable pub split_on : ℕ → Str → List Str
split_on d [] = [] ∷ []
split_on d (c ∷ s) = let rest = split_on d s in if eqb c d then [] ∷ rest else push_char c rest

-- The numeral read so far, and whether a digit was the last character
digit_step : (ℕ → Option ℕ) → Option (ℕ × Bool) → ℕ → Option (ℕ × Bool)
digit_step digit none c = none
digit_step digit (some (n, after_digit)) c = elim (digit c) [
  | some d ↦ some (10 * n + d, true)
  | none ↦ if eqb c b'_' && after_digit then some (n, false) else none
]

read_digits : (ℕ → Option ℕ) → Option (ℕ × Bool) → Str → Option ℕ
unfolding digit_step
read_digits digit none s = none
read_digits digit (some (n, after_digit)) [] = if after_digit then some n else none
read_digits digit (some state) (c ∷ s) = read_digits digit (digit_step digit (some state) c) s

read_sign : (ℕ → Option ℕ) → Str → Option ℤ
unfolding read_digits
read_sign digit [] = none
read_sign digit (c ∷ s) =
    if eqb c b'-'
    then elim (read_digits digit (some (0, false)) s) [
      | some zero ↦ some (pos 0)
      | some (suc n) ↦ some (negsuc n)
      | none ↦ none
    ]
    else elim (read_digits digit (some (0, false)) (if eqb c b'+' then s else c ∷ s)) [
      | some n ↦ some (pos n)
      | none ↦ none
    ]

-- `int(s)`, where `digit` gives the value of a decimal digit of Unicode; `none` is its `ValueError`,
-- which it also raises on more than 4300 digits.
unfoldable pub parse_int : (ℕ → Option ℕ) → Str → Option ℤ
unfolding read_sign
parse_int digit s =
    if ltb 4300 (length (keep_if (λ c. is_some (digit c)) s))
    then none
    else read_sign digit (strip s)

-- `s.rstrip()`
unfoldable pub rstrip : Str → Str
rstrip s = reverse (lstrip (reverse s))
