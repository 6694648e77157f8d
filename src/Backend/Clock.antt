-- ===== src/Backend/Clock.antt =====
-- Python's `datetime` as the program uses it: comparison, and the steps that make it safe.
use test_orch.Base.{Bool, true, not, ◌&&◌, ◌||◌, if◌then◌else◌}
use test_orch.Base.Int.{ℤ, ◌+ℤ◌, ◌-ℤ◌, ltb_ℤ}
use test_orch.Base.Result.{Result, ok, err, type_error}
use test_orch.Backend.Models.{Datetime}

-- `a < b` on datetimes: a mix of aware and naive ones is a `TypeError`.
unfoldable pub lt_datetime : Datetime → Datetime → Result Bool
lt_datetime a b =
    if (a.aware && b.aware) || (not a.aware && not b.aware)
    then ok (ltb_ℤ a.micros b.micros)
    else err type_error

-- `hb.replace(tzinfo=utc)` if `hb` is naive.
abbrev pub as_utc : Datetime → Datetime
as_utc t = if not t.aware then record t { aware = true } else t

-- `t - timedelta(…)`, in microseconds.
abbrev pub minus : Datetime → ℤ → Datetime
minus t age = record t { micros = t.micros -ℤ age }

-- `t + timedelta(…)`
abbrev pub plus : Datetime → ℤ → Datetime
plus t age = record t { micros = t.micros +ℤ age }
