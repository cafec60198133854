-- ===== src/Alerts/QuietHours/Tests.antt =====
-- Quiet hours of a user who is one hour ahead of UTC.
use intell_api.Prelude.{◌≡◌, false, ◌&&◌, ◌||◌, ltb, ◌==◌, arith, refl}
use intell_api.Alerts.QuietHours.{
  ClockTime, UtcOffset, convert_to_utc, is_within_quiet_hours, is_midnight, total_minutes,
  utc_minutes,
}
use intell_api.Alerts.QuietHours.Window.{
  since, local_minute, is_within_quiet_hours-arc, is_within_quiet_hours-local,
}

abbrev midnight : ClockTime
midnight = record { hours = 0; mins = 0 }

abbrev ten_pm : ClockTime
ten_pm = record { hours = 22; mins = 0 }

abbrev six_am : ClockTime
six_am = record { hours = 6; mins = 0 }

abbrev one_ahead : UtcOffset
one_ahead = record { negative = false; hours = 1; mins = 0 }

nine_pm_utc : convert_to_utc ten_pm one_ahead ≡ record { hours = 21; mins = 0 }
unfolding convert_to_utc
nine_pm_utc = refl

is_within_quiet_hours-arc_example : is_within_quiet_hours 84600000 ten_pm six_am ≡ (
    (is_midnight ten_pm && is_midnight six_am)
    || ltb
        (since (total_minutes ten_pm) (utc_minutes 84600000))
        (since (total_minutes ten_pm) (total_minutes six_am)))
is_within_quiet_hours-arc_example =
    is_within_quiet_hours-arc 84600000 ten_pm six_am (omega arith) (omega arith)

is_within_quiet_hours-local_example :
    is_within_quiet_hours 75600000
      (convert_to_utc ten_pm one_ahead)
      (convert_to_utc six_am one_ahead)
    ≡ ltb
        (since (total_minutes ten_pm) (local_minute (utc_minutes 75600000) one_ahead))
        (since (total_minutes ten_pm) (total_minutes six_am))
is_within_quiet_hours-local_example =
    is_within_quiet_hours-local 75600000 ten_pm six_am one_ahead (omega arith) (omega arith)
      (omega arith)

never_quiet : (total_minutes midnight == local_minute 0 one_ahead) ≡ false
never_quiet = refl
