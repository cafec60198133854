-- ===== src/Alerts/QuietHours.antt =====
-- modules/alerts/helpers/quiet-hours.ts. A clock text "HH:mm" is read into its hours and minutes;
-- a `Date` is its milliseconds since the epoch.
pub mod Window
mod Tests
use intell_api.Prelude.{ℕ, ◌+◌, ◌*◌, ◌/◌, ◌%◌, Bool, true, false, ◌&&◌, ◌||◌}
use intell_api.Prelude.{ltb, leb, ◌==◌, if◌then◌else◌}
use intell_api.Prelude.Int.{ℤ, pos, pos_part, sub_ℕ, ◌+ℤ◌, rem}

-- The two numbers of a text "HH:mm", which `split(':').map(Number)` reads.
pub record ClockTime : Type 0 where
  pub hours : ℕ
  pub mins : ℕ

-- An offset text "+HH:mm" or "-HH:mm".
pub record UtcOffset : Type 0 where
  pub negative : Bool
  pub hours : ℕ
  pub mins : ℕ

-- hours * 60 + mins
abbrev pub total_minutes : ClockTime → ℕ
total_minutes t = t.hours * 60 + t.mins

abbrev pub offset_minutes : UtcOffset → ℕ
offset_minutes o = o.hours * 60 + o.mins

-- totalLocal - sign * (offH * 60 + offM)
abbrev pub minus_offset : ℕ → UtcOffset → ℤ
minus_offset total o =
    if o.negative then pos (total + offset_minutes o) else sub_ℕ total (offset_minutes o)

-- (((total % 1440) % 1440) + 1440) % 1440
abbrev pub wrap_day : ℤ → ℕ
wrap_day total = pos_part (rem (rem (rem total 1440) 1440 +ℤ pos 1440) 1440)

unfoldable pub convert_to_utc : ClockTime → UtcOffset → ClockTime
convert_to_utc local offset =
    let total_utc = wrap_day (minus_offset (total_minutes local) offset) in
    record { hours = total_utc / 60; mins = total_utc % 60 }

-- getUTCHours() * 60 + getUTCMinutes()
unfoldable pub utc_minutes : ℕ → ℕ
utc_minutes time = time / 3600000 % 24 * 60 + time / 60000 % 60

-- quietStart === '00:00'
abbrev pub is_midnight : ClockTime → Bool
is_midnight t = t.hours == 0 && t.mins == 0

unfoldable pub is_within_quiet_hours : ℕ → ClockTime → ClockTime → Bool
is_within_quiet_hours time start end =
    let now = utc_minutes time in
    let start_minutes = total_minutes start in
    let end_minutes = total_minutes end in
    if is_midnight start && is_midnight end
    then true
    else if start_minutes == end_minutes
    then false
    else if ltb end_minutes start_minutes
    then leb start_minutes now || ltb now end_minutes
    else leb start_minutes now && ltb now end_minutes
