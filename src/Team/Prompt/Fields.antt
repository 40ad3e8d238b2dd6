-- ===== src/Team/Prompt/Fields.antt =====
-- research_team/controller.py: the values of single fields.
use discovery_net.Base.{
  ℕ, zero, suc, ◌/◌, ◌%◌, Bool, true, false, not, ◌&&◌, ◌||◌, Option, none, some, [], ◌∷◌, ◌==◌,
  ltb, leb, eqb, all, length, if◌then◌else◌,
}
use discovery_net.Base.Parse.{ℤ, pos, negsuc, parse_int, is_lower, is_digit}
use discovery_net.Base.Result.{Result, ok, err, controller_error, require, ◌>>◌}
use discovery_net.Base.Text.{Str, text_eq, codes, starts_with}
use discovery_net.Team.Host.{Host}

-- `NAME_PATTERN`
unfoldable pub is_name : Str → Bool
is_name [] = false
is_name (c ∷ s) =
    is_lower c
    && leb 1 (length s)
    && leb (length s) 30
    && all (λ d. is_lower d || is_digit d || eqb d b'-') s

unfoldable pub validate_name : Str → Result (Unit {0})
unfolding is_name
validate_name name = require (is_name name) controller_error

unfoldable pub parse_bool : Str → Result Bool
parse_bool value =
    if value == codes "true"
    then ok true
    else if value == codes "false"
    then ok false
    else err controller_error

-- `parsed or None`
unfoldable pub limit_of : Option ℤ → Result (Option ℕ)
limit_of none = err controller_error
limit_of (some (negsuc n)) = err controller_error
limit_of (some (pos zero)) = ok none
limit_of (some (pos (suc n))) = ok (some (suc n))

unfoldable pub parse_limit : ⦃host : Host⦄ → Str → Result (Option ℕ)
unfolding limit_of
parse_limit ⦃host⦄ value = limit_of (parse_int host.decimal_digit value)

-- The sign, the exponent and the fraction of a 64-bit float
abbrev pub sign_bit : ℕ → ℕ
sign_bit bits = bits / 9223372036854775808

abbrev pub magnitude : ℕ → ℕ
magnitude bits = bits % 9223372036854775808

-- `parsed != parsed`: the exponent is that of infinity and the fraction is not zero.
unfoldable pub is_nan : ℕ → Bool
is_nan bits = ltb 9218868437227405312 (magnitude bits)

-- `parsed < 0`
unfoldable pub is_negative : ℕ → Bool
unfolding is_nan
is_negative bits = not (is_nan bits) && eqb (sign_bit bits) 1 && ltb 0 (magnitude bits)

unfoldable pub dollars_of : Option ℕ → Result (Option ℕ)
unfolding is_nan is_negative
dollars_of none = err controller_error
dollars_of (some bits) =
    if is_negative bits || is_nan bits
    then err controller_error
    else if eqb (magnitude bits) 0
    then ok none
    else ok (some bits)

unfoldable pub parse_dollars : ⦃host : Host⦄ → Str → Result (Option ℕ)
unfolding dollars_of
parse_dollars ⦃host⦄ value = dollars_of (host.float value)

-- The delay that the mode asks for
unfoldable pub require_restart : Str → Option ℤ → Result ℤ
require_restart mode none = err controller_error
require_restart mode (some (negsuc n)) = do
  require (not (mode == codes "continuous")) controller_error
  require (not (mode == codes "oneshot")) controller_error
  ok (negsuc n)
require_restart mode (some (pos n)) = do
  require (not ((mode == codes "continuous") && ltb n 60)) controller_error
  require (not ((mode == codes "oneshot") && not (eqb n 0))) controller_error
  ok (pos n)

unfoldable pub parse_restart_seconds : ⦃host : Host⦄ → Str → Str → Result ℤ
unfolding require_restart
parse_restart_seconds ⦃host⦄ mode value = require_restart mode (parse_int host.decimal_digit value)

-- `Path.is_absolute` of POSIX
abbrev pub is_absolute : Str → Bool
is_absolute path = starts_with (codes "/") path
