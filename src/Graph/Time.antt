-- ===== src/Graph/Time.antt =====
-- The part of Python's `datetime` that the code uses: awareness, the conversion to UTC, and the
-- ISO 8601 text of wire/codec.py.
pub mod Utc
use discovery_net.Base.{
  nat_eq, contains, ◌∷◌, ℕ, ◌+◌, ◌-◌, ◌/◌, ◌%◌, Bool, true, false, Option, none, some, [], ◌++◌,
  ltb, eqb, if◌then◌else◌,
}
use discovery_net.Base.Result.{Result, ok, err, overflow_error}
use discovery_net.Base.Text.{Str, codes, padded, replace}

-- A UTC offset in seconds, east or west of Greenwich; less than a day.
pub data Offset : Type 0 where
  east : ℕ → Offset
  west : ℕ → Offset

pub record Datetime : Type 0 where
  pub year : ℕ
  pub month : ℕ
  pub day : ℕ
  pub second : ℕ  -- of the day
  pub microsecond : ℕ
  pub offset : Option Offset

-- `value.tzinfo is not None and value.utcoffset() is not None`
unfoldable pub is_aware : Datetime → Bool
is_aware t = elim t.offset [ none ↦ false | some o ↦ true ]

has_leap_day : ℕ → Bool
has_leap_day y = if eqb (y % 100) 0 then eqb (y % 400) 0 else eqb (y % 4) 0

-- The lengths of the months, by number from 1
unfoldable pub days_in_month : ℕ → ℕ → ℕ
unfolding has_leap_day
days_in_month y m =
    if eqb m 2
    then (if has_leap_day y then 29 else 28)
    else if contains m (4 ∷ 6 ∷ 9 ∷ 11 ∷ [])
    then 30
    else 31

-- The date of the day before; before 0001-01-01 it raises `OverflowError`.
unfoldable pub day_before : Datetime → Result Datetime
unfolding days_in_month
day_before t =
    if ltb 1 t.day
    then ok (record t { day = t.day - 1 })
    else if ltb 1 t.month
    then ok (record t { month = t.month - 1; day = days_in_month t.year (t.month - 1) })
    else if ltb 1 t.year
    then ok (record t { year = t.year - 1; month = 12; day = 31 })
    else err overflow_error

-- The date of the day after; after 9999-12-31 it raises `OverflowError`.
unfoldable pub day_after : Datetime → Result Datetime
unfolding days_in_month
day_after t =
    if ltb t.day (days_in_month t.year t.month)
    then ok (record t { day = t.day + 1 })
    else if ltb t.month 12
    then ok (record t { month = t.month + 1; day = 1 })
    else if ltb t.year 9999
    then ok (record t { year = t.year + 1; month = 1; day = 1 })
    else err overflow_error

abbrev pub utc : Option Offset
utc = some (east 0)

-- `value.astimezone(UTC)` of an aware value
unfoldable pub astimezone_utc : Datetime → Offset → Result Datetime
astimezone_utc t (east s) =
    if ltb t.second s
    then day_before (record t { second = t.second + 86400 - s; offset = utc })
    else ok (record t { second = t.second - s; offset = utc })
astimezone_utc t (west s) =
    if ltb (t.second + s) 86400
    then ok (record t { second = t.second + s; offset = utc })
    else day_after (record t { second = t.second + s - 86400; offset = utc })

-- `isoformat` of a value in UTC
unfoldable pub isoformat : Datetime → Str
isoformat t =
    padded 4 t.year
    ++ (codes "-"
        ++ (padded 2 t.month
            ++ (codes "-"
                ++ (padded 2 t.day
                    ++ (codes "T"
                        ++ (padded 2 (t.second / 3600)
                            ++ (codes ":"
                                ++ (padded 2 ((t.second / 60) % 60)
                                    ++ (codes ":"
                                        ++ (padded 2 (t.second % 60)
                                            ++ ((if eqb t.microsecond 0
                                                  then []
                                                  else codes "." ++ padded 6 t.microsecond)
                                                ++ codes "+00:00")))))))))))

-- `_encode_datetime`, at the offset of the value; every caller has checked that the value is aware.
encode_utc : Result Datetime → Result Str
unfolding isoformat
encode_utc (ok t) = ok (replace (codes "+00:00") (codes "Z") (isoformat t))
encode_utc (err e) = err e

unfoldable pub encode_datetime : Datetime → Result Str
unfolding astimezone_utc encode_utc day_before day_after
encode_datetime t = elim t.offset [
  | none ↦ encode_utc (ok t)
  | some o ↦ encode_utc (astimezone_utc t o)
]
