-- ===== src/Aggregator/Rounding.antt =====
-- `roundToInterval` and `getStartOfDayUTC` (src/utils/time-utils.ts): the time of a snapshot. Dates
-- are milliseconds since 1970; `offset` is the local time zone, in milliseconds east of UTC, a day
-- added to a zone in the west. Dates of the first days of 1970 are left out.
use zero_knowledge_aggregato.Base.{
  ℕ, ◌+◌, ◌-◌, ◌*◌, ◌/◌, ◌%◌, ◌≤◌, ◌<◌, ◌≡◌, false, leb, le→leb, if◌then◌else◌, arith,
}

abbrev pub minute_ms : ℕ
minute_ms = 60 * 1000

abbrev pub hour_ms : ℕ
hour_ms = 60 * minute_ms

abbrev pub day_ms : ℕ
day_ms = 24 * hour_ms

-- `Date.UTC(getUTCFullYear(), getUTCMonth(), getUTCDate(), 0, 0, 0, 0)`
unfoldable pub get_start_of_day_utc : ℕ → ℕ
get_start_of_day_utc t = t - t % day_ms

-- `getMinutes`, and the start of the local hour.
abbrev pub get_minutes : ℕ → ℕ → ℕ
get_minutes offset t = (t + offset) % hour_ms / minute_ms

unfoldable pub truncate_to_hour : ℕ → ℕ → ℕ
truncate_to_hour offset t = t - (t + offset) % hour_ms

unfoldable pub round_to_interval : ℕ → ℕ → ℕ → ℕ
unfolding truncate_to_hour get_start_of_day_utc
round_to_interval offset interval t =
    if leb 1440 interval
    then get_start_of_day_utc t
    else truncate_to_hour offset t + get_minutes offset t / interval * interval * minute_ms

-- A snapshot of an interval of a day or longer is dated at midnight UTC, less than a day back and
-- not in the future, and the start of the day from which its trades are taken is its own date.
pub round_daily :
    (offset interval t : ℕ)
    → 1440 ≤ interval
    → let s = round_to_interval offset interval t in
      (s % day_ms ≡ 0) × (s ≤ t) × (t < s + day_ms) × (get_start_of_day_utc s ≡ s)
unfolding round_to_interval
round_daily offset interval t h =
    rw (le→leb 1440 interval h) (omega arith, omega arith, omega arith, omega arith)

-- After the first hour of 1970, a snapshot of an interval shorter than a day is dated less than an
-- hour back, and not in the future.
pub round_hourly :
    (offset interval t : ℕ)
    → interval < 1440
    → hour_ms ≤ t
    → let s = round_to_interval offset interval t in (s ≤ t) × (t < s + hour_ms)
unfolding round_to_interval
round_hourly offset interval t h late =
    let short : leb 1440 interval ≡ false = ground arith in
    let part = get_minutes offset t / interval * interval in
    let whole : part ≤ get_minutes offset t = omega arith in rw short (omega arith, omega arith)
