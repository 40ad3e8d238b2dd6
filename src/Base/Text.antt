-- ===== src/Base/Text.antt =====
-- Python's `str` as a list of code points and `bytes` as a list of bytes, with the functions of
-- the standard library that the code calls on them.
use Prim.Native.Char.{code}
use Prim.Native.String.{String}
use mathlib.Core.List.{reverse}
use Prim.Native.Nat.{ℕ, zero, suc, ◌+◌, ◌-◌, ◌*◌, ◌/◌, ◌%◌}
use mathlib.Core.Bool.{Bool, true, false, ◌&&◌, ◌||◌}
use mathlib.Core.Option.{Option, none, some}
use mathlib.Core.List.{List, [], ◌∷◌, ◌++◌}
use discovery_net.Base.Tests.{Eq, nat_eq, list_eq, ltb, leb, eqb, if◌then◌else◌}
use discovery_net.Base.Lists.{length, drop}
use discovery_net.Base.Result.{Result, ok, err, unicode_error, ◌>>=◌}

abbrev pub Str : Type 0
Str = List ℕ

abbrev pub Bytes : Type 0
Bytes = List ℕ

instance abbrev pub text_eq : Eq (List ℕ)
text_eq = list_eq

abbrev pub codes : String → Str
codes String.[] = []
codes (String.◌∷◌ c s) = code c ∷ codes s

-- `str.isspace`
unfoldable pub is_space : ℕ → Bool
is_space c =
    (leb 9 c && leb c 13)
    || (leb 28 c && leb c 32)
    || eqb c 133
    || eqb c 160
    || eqb c 5760
    || (leb 8192 c && leb c 8202)
    || eqb c 8232
    || eqb c 8233
    || eqb c 8239
    || eqb c 8287
    || eqb c 12288

unfoldable pub lstrip : Str → Str
unfolding is_space
lstrip [] = []
lstrip (c ∷ s) = if is_space c then lstrip s else c ∷ s

unfoldable pub strip : Str → Str
unfolding lstrip
strip s = reverse (lstrip (reverse (lstrip s)))

abbrev pub is_empty {ℓ} : {A : Type ℓ} → List A → Bool
is_empty [] = true
is_empty (x ∷ xs) = false

-- `not value.strip()`
unfoldable pub is_blank : Str → Bool
unfolding strip
is_blank s = is_empty (strip s)

abbrev pub starts_with : Str → Str → Bool
starts_with [] s = true
starts_with (c ∷ p) [] = false
starts_with (c ∷ p) (d ∷ s) = eqb c d && starts_with p s

-- `text in s`
abbrev pub contains_text : Str → Str → Bool
contains_text p [] = starts_with p []
contains_text p (c ∷ s) = starts_with p (c ∷ s) || contains_text p s

-- `s.replace(old, new)` for a nonempty `old`; the length of `s` is fuel enough.
replace_from : ℕ → Str → Str → Str → Str
replace_from zero old new s = s
replace_from (suc n) old new [] = []
replace_from (suc n) old new (c ∷ s) =
    let hit = new ++ replace_from n old new (drop (length old) (c ∷ s)) in
    let miss = c ∷ replace_from n old new s in if starts_with old (c ∷ s) then hit else miss

unfoldable pub replace : Str → Str → Str → Str
unfolding replace_from
replace old new s = replace_from (length s) old new s

-- `bytes.hex`
unfoldable pub hex_digit : ℕ → ℕ
hex_digit n = if ltb n 10 then b'0' + n else b'a' + (n - 10)

unfoldable pub hex : Bytes → Str
unfolding hex_digit
hex [] = []
hex (b ∷ bs) = hex_digit (b / 16) ∷ hex_digit (b % 16) ∷ hex bs

-- `bytes.fromhex` on text without spaces; `none` is its `ValueError`.
unfoldable pub hex_value : ℕ → Option ℕ
hex_value c =
    if leb b'0' c && leb c b'9'
    then some (c - b'0')
    else if leb b'a' c && leb c b'f'
    then some (c - b'a' + 10)
    else if leb b'A' c && leb c b'F'
    then some (c - b'A' + 10)
    else none

hex_pair : Option ℕ → Option ℕ → Option Bytes → Option Bytes
hex_pair (some a) (some b) (some r) = some ((16 * a + b) ∷ r)
hex_pair _ _ _ = none

unfoldable pub from_hex : Str → Option Bytes
unfolding hex_value hex_pair
from_hex [] = some []
from_hex (c ∷ []) = none
from_hex (c ∷ d ∷ s) = hex_pair (hex_value c) (hex_value d) (from_hex s)

-- `s.encode("utf-8")`; a surrogate raises `UnicodeEncodeError`.
unfoldable pub utf8_char : ℕ → Result Bytes
utf8_char c =
    if ltb c 128
    then ok (c ∷ [])
    else if ltb c 2048
    then ok ((192 + c / 64) ∷ (128 + c % 64) ∷ [])
    else if leb 55296 c && leb c 57343
    then err unicode_error
    else if ltb c 65536
    then ok ((224 + c / 4096) ∷ (128 + (c / 64) % 64) ∷ (128 + c % 64) ∷ [])
    else ok
        ((240 + c / 262144) ∷ (128 + (c / 4096) % 64) ∷ (128 + (c / 64) % 64) ∷ (128 + c % 64) ∷ [])

unfoldable pub utf8 : Str → Result Bytes
utf8 [] = ok []
utf8 (c ∷ s) = let rest = utf8 s in utf8_char c >>= λ b. rest >>= λ r. ok (b ++ r)

-- Decimal numerals, padded with zeros to a fixed number of digits.
unfoldable pub padded : ℕ → ℕ → Str
padded zero n = []
padded (suc w) n = padded w (n / 10) ++ (b'0' + n % 10) ∷ []

-- `str` of a number; the number is fuel enough for its digits.
decimal_from : ℕ → ℕ → Str
decimal_from zero n = (b'0' + n % 10) ∷ []
decimal_from (suc fuel) n =
    let rest = decimal_from fuel (n / 10) in
    if ltb n 10 then (b'0' + n) ∷ [] else rest ++ (b'0' + n % 10) ∷ []

unfoldable pub decimal : ℕ → Str
unfolding decimal_from
decimal n = decimal_from n n

-- `n.to_bytes(width, "big")` and `int.from_bytes(bs, "big")`.
unfoldable pub to_bytes : ℕ → ℕ → Bytes
to_bytes zero n = []
to_bytes (suc w) n = to_bytes w (n / 256) ++ (n % 256) ∷ []

unfoldable pub from_bytes_acc : ℕ → Bytes → ℕ
from_bytes_acc acc [] = acc
from_bytes_acc acc (b ∷ bs) = from_bytes_acc (256 * acc + b) bs

unfoldable pub from_bytes : Bytes → ℕ
unfolding from_bytes_acc
from_bytes bs = from_bytes_acc 0 bs
