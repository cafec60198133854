-- ===== src/Alerts/QuietHours/Window.antt =====
-- Quiet hours are an arc of the day's circle, in the user's time zone as in UTC.
use intell_api.Prelude.{ℕ, ◌+◌, ◌-◌, ◌/◌, ◌%◌, ◌<◌, ◌≡◌, ◌≢◌, Bool, false}
use intell_api.Prelude.{ltb, arith, if◌then◌else◌, ◌&&◌, ◌||◌, leb, ◌==◌}
use intell_api.Prelude.Int.{ℤ}
use intell_api.Alerts.QuietHours.{
  ClockTime, UtcOffset, total_minutes, offset_minutes, minus_offset, wrap_day, convert_to_utc,
  utc_minutes, is_midnight, is_within_quiet_hours,
}

-- A time of the day, as "HH:mm" writes it.
pub record IsClock (t : ClockTime) : Type 0 where
  pub hours_lt : t.hours < 24
  pub mins_lt : t.mins < 60

-- The local minute of the day at a UTC minute, for a clock that is `offset` ahead of UTC.
abbrev pub local_minute : ℕ → UtcOffset → ℕ
local_minute now o =
    if o.negative
    then (now + (1440 - offset_minutes o % 1440)) % 1440
    else (now + offset_minutes o) % 1440

-- The minutes run from `start` to `x` clockwise.
abbrev pub since : ℕ → ℕ → ℕ
since start x = (x + 1440 - start) % 1440

pub utc_minutes_lem : (t : ℕ) → utc_minutes t ≡ t / 60000 % 1440
unfolding utc_minutes
utc_minutes_lem t = omega arith

wrap_day-lt : (z : ℤ) → wrap_day z < 1440
wrap_day-lt z = ground arith

-- The minute of the converted time.
total-convert_to_utc :
    (t : ClockTime) (o : UtcOffset)
    → total_minutes (convert_to_utc t o) ≡ wrap_day (minus_offset (total_minutes t) o)
unfolding convert_to_utc
total-convert_to_utc t o = omega arith

convert_to_utc-IsClock : (t : ClockTime) (o : UtcOffset) → IsClock (convert_to_utc t o)
unfolding convert_to_utc
convert_to_utc-IsClock t o = record {
  hours_lt = omega (arith, wrap_day-lt (minus_offset (total_minutes t) o));
  mins_lt = omega arith;
}

local_minute-wrap_day :
    (m : ℕ) (o : UtcOffset) → m < 1440 → local_minute (wrap_day (minus_offset m o)) o ≡ m
local_minute-wrap_day m o h = ground arith

-- For a clock text t and any offset, the conversion of t to UTC is a clock text again (hours below
-- 24, minutes below 60), and it is the UTC time at which the local clock shows t.
pub convert_to_utc-local :
    (t : ClockTime) (o : UtcOffset)
    → IsClock t
    → IsClock (convert_to_utc t o)
      × (local_minute (total_minutes (convert_to_utc t o)) o ≡ total_minutes t)
convert_to_utc-local t o c = (
  convert_to_utc-IsClock t o,
  rw (total-convert_to_utc t o) (local_minute-wrap_day (total_minutes t) o (omega arith)),
)

-- The window test of the code, on minutes.
abbrev in_window : ℕ → ℕ → ℕ → Bool
in_window now s e =
    if s == e then false else if ltb e s then leb s now || ltb now e else leb s now && ltb now e

in_window-eq-arc :
    (now s e : ℕ)
    → now < 1440
    → s < 1440
    → e < 1440
    → in_window now s e ≡ ltb (since s now) (since s e)
in_window-eq-arc now s e hn hs he = ground arith

since-rotate :
    (now m : ℕ) (o : UtcOffset)
    → now < 1440
    → m < 1440
    → since (wrap_day (minus_offset m o)) now ≡ since m (local_minute now o)
since-rotate now m o hn hm = ground arith

since-convert_to_utc :
    (now : ℕ) (t : ClockTime) (o : UtcOffset)
    → now < 1440
    → IsClock t
    → since (total_minutes (convert_to_utc t o)) now ≡ since (total_minutes t) (local_minute now o)
since-convert_to_utc now t o hn c =
    rw (total-convert_to_utc t o) (since-rotate now (total_minutes t) o hn (omega arith))

utc_minutes-lt : (t : ℕ) → utc_minutes t < 1440
unfolding utc_minutes
utc_minutes-lt t = omega arith

-- For clock texts start and end: the time lies within quiet hours exactly when both are 00:00, or
-- when going clockwise from start it is reached strictly before end. This covers ranges of one
-- day, ranges over midnight (start after end), and empty ranges (start = end, not 00:00).
pub is_within_quiet_hours-arc :
    (time : ℕ) (start end : ClockTime)
    → IsClock start
    → IsClock end
    → is_within_quiet_hours time start end ≡ (
        (is_midnight start && is_midnight end)
        || ltb
            (since (total_minutes start) (utc_minutes time))
            (since (total_minutes start) (total_minutes end)))
unfolding is_within_quiet_hours
is_within_quiet_hours-arc time start end cs ce = ground (
  arith,
  in_window-eq-arc (utc_minutes time) (total_minutes start) (total_minutes end),
  utc_minutes-lt time,
)

-- The window of a user in another time zone: for clock texts start and end that differ, the UTC
-- time lies within the window converted to UTC exactly when the user's local time lies in the
-- window as the user wrote it.
pub is_within_quiet_hours-local :
    (time : ℕ) (start end : ClockTime) (o : UtcOffset)
    → IsClock start
    → IsClock end
    → total_minutes start ≢ total_minutes end
    → is_within_quiet_hours time (convert_to_utc start o) (convert_to_utc end o)
      ≡ ltb
          (since (total_minutes start) (local_minute (utc_minutes time) o))
          (since (total_minutes start) (total_minutes end))
is_within_quiet_hours-local time start end o cs ce ne = ground (
  arith,
  is_within_quiet_hours-arc time (convert_to_utc start o) (convert_to_utc end o),
  convert_to_utc-IsClock start o,
  convert_to_utc-IsClock end o,
  convert_to_utc-local start o cs,
  convert_to_utc-local end o ce,
  since-convert_to_utc (utc_minutes time) start o,
  since-convert_to_utc (total_minutes (convert_to_utc end o)) start o,
  utc_minutes-lt time,
)

midnight-convert_to_utc :
    (t : ClockTime) (o : UtcOffset)
    → IsClock t
    → is_midnight (convert_to_utc t o) ≡ (total_minutes t == local_minute 0 o)
midnight-convert_to_utc t o c =
    ground (arith, convert_to_utc-local t o c, since-convert_to_utc 0 t o)

-- A window whose start and end are one clock text t is quiet at every time if t is the local time
-- of 00:00 UTC, and at no time otherwise.
pub is_within_quiet_hours-same :
    (time : ℕ) (t : ClockTime) (o : UtcOffset)
    → IsClock t
    → is_within_quiet_hours time (convert_to_utc t o) (convert_to_utc t o)
      ≡ (total_minutes t == local_minute 0 o)
unfolding is_within_quiet_hours
is_within_quiet_hours-same time t o c = rw (← midnight-convert_to_utc t o c) (ground arith)
