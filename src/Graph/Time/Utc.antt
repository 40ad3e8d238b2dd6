-- ===== src/Graph/Time/Utc.antt =====
-- wire/codec.py:_encode_datetime: the text of a time is that of its UTC form.
use discovery_net.Base.{◌+◌, ◌-◌, ◌≡◌, sym, ap, ◌∙◌, some, ltb, false, arith}
use discovery_net.Base.Result.{ok}
use discovery_net.Graph.Time.{
  Datetime, Offset, east, west, utc, day_before, day_after, astimezone_utc, encode_datetime,
  encode_utc,
}

day_before-offset : (t d : Datetime) → day_before t ≡ ok d → d.offset ≡ t.offset
unfolding day_before
day_before-offset t d h = ground arith

day_after-offset : (t d : Datetime) → day_after t ≡ ok d → d.offset ≡ t.offset
unfolding day_after
day_after-offset t d h = ground arith

pub astimezone_utc-offset :
    (t d : Datetime) (o : Offset) → astimezone_utc t o ≡ ok d → d.offset ≡ utc
unfolding astimezone_utc
astimezone_utc-offset t d (east s) h =
    ground (arith, day_before-offset (record t { second = t.second + 86400 - s; offset = utc }) d)
astimezone_utc-offset t d (west s) h =
    ground (arith, day_after-offset (record t { second = t.second + s - 86400; offset = utc }) d)

astimezone_utc_idem : (d : Datetime) → d.offset ≡ utc → astimezone_utc d (east 0) ≡ ok d
unfolding astimezone_utc
astimezone_utc_idem d h =
    let early : ltb d.second 0 ≡ false = ground arith in
    let same : d.second - 0 ≡ d.second = omega arith in
    rw (early, same) (ap (λ o. ok (record d { offset = o })) (sym h))

-- A time that was put in UTC has the text of the original.
pub encode_datetime-astimezone_utc :
    (t d : Datetime) (o : Offset)
    → t.offset ≡ some o
    → astimezone_utc t o ≡ ok d
    → encode_datetime d ≡ encode_datetime t
unfolding encode_datetime
encode_datetime-astimezone_utc t d o h k =
    let at_utc = astimezone_utc-offset t d o k in
    rw (h, at_utc) (ap encode_utc (astimezone_utc_idem d at_utc ∙ sym k))
