-- ===== src/Prelude/Time.antt =====
-- Go's time.Time as nanoseconds since Monday, 1 January of year 1, 00:00 UTC, which is its zero
-- value, and the parts of a UTC date that the sources group by.
use Prim.Native.Nat.{ℕ, ◌+◌, ◌-◌, ◌*◌, ◌/◌, ◌%◌}
use mathlib.Core.Path.{◌≡◌, refl}

abbrev pub Time : Type 0
Time = ℕ

abbrev pub day_ns : ℕ
day_ns = 86400000000000

-- `t.UTC().Format(time.DateOnly)` names this day.
abbrev pub day_of : Time → ℕ
day_of t = t / day_ns

-- `ISOWeek` names this week: it begins on a Monday, as the zero time does.
abbrev pub week_of : Time → ℕ
week_of t = day_of t / 7

-- Years counted from 1 March of year 0, in days since then.
abbrev year_of_era : ℕ → ℕ
year_of_era doe = (doe + doe / 36524 - doe / 1460 - doe / 146096) / 365

-- `t.UTC().Format("2006-01")` names this month: 12 times the year that begins in March, and the
-- month in it.
unfoldable pub month_of : Time → ℕ
month_of t =
    let z = day_of t + 306 in
    let era = z / 146097 in
    let doe = z % 146097 in
    let yoe = year_of_era doe in
    let doy = doe + yoe / 100 - (365 * yoe + yoe / 4) in
    (era * 400 + yoe) * 12 + (5 * doy + 2) / 153

-- 28 February, 29 February and 1 March of 2024, counted from 2024-01-01 (day 738885).
month_feb_28 : month_of (738943 * day_ns) ≡ 2023 * 12 + 11
unfolding month_of
month_feb_28 = refl

month_feb_29 : month_of (738944 * day_ns) ≡ 2023 * 12 + 11
unfolding month_of
month_feb_29 = refl

month_mar_1 : month_of (738945 * day_ns) ≡ 2024 * 12
unfolding month_of
month_mar_1 = refl
