-- ===== src/Alerts/Detection/Deferral.antt =====
-- Delivery that waits for the end of quiet hours.
use intell_api.Prelude.{
  ℕ, ◌+◌, ◌-◌, ◌*◌, ◌/◌, ◌%◌, ◌≤◌, ◌<◌, ◌≡◌, ◌≢◌, true, false, some, ltb, leb, ltb→lt, lt→ltb,
  arith, if◌then◌else◌,
}
use intell_api.Common.Enums.{AlertSeverity}
use intell_api.Alerts.QuietHours.{ClockTime, total_minutes, utc_minutes, is_within_quiet_hours}
use intell_api.Alerts.QuietHours.Window.{IsClock, since, is_within_quiet_hours-arc, utc_minutes_lem}
use intell_api.Alerts.Detection.{deferred_until, quiet_hours_end_date}

-- The delivery is scheduled for the first time after now at which the clock shows the end of quiet
-- hours: it is later than now by at most a day, and at the full minute of the end.
pub quiet_hours_end_date-next :
    (now : ℕ) (end : ClockTime)
    → IsClock end
    → let date = quiet_hours_end_date now end in
      (now < date)
      × (date ≤ now + 86400000)
      × (utc_minutes date ≡ total_minutes end)
      × (date % 60000 ≡ 0)
unfolding quiet_hours_end_date utc_minutes
quiet_hours_end_date-next now end c = (ground arith, ground arith, ground arith, ground arith)

-- The minutes from `start` of a time between now and the end of the window that now lies in.
arc_until_end :
    (now t s e : ℕ)
    → s < 1440
    → e < 1440
    → since s (now / 60000 % 1440) < since s e
    → now ≤ t
    → t < (
        let date = now - now % 86400000 + e * 60000 in
        if leb date now then date + 86400000 else date)
    → since s (t / 60000 % 1440) < since s e
arc_until_end now t s e hs he h le lt = ground arith

deferred_until-inside :
    (start end until : ClockTime) (severity : AlertSeverity) (now : ℕ)
    → deferred_until (some (start, end)) severity now ≡ some until
    → (until ≡ end) × (is_within_quiet_hours now start end ≡ true)
unfolding deferred_until
deferred_until-inside start end until severity now h = (ground arith, ground arith)

within-of_arc :
    (t : ℕ) (start end : ClockTime)
    → IsClock start
    → IsClock end
    → total_minutes start ≢ total_minutes end
    → is_within_quiet_hours t start end
      ≡ ltb
          (since (total_minutes start) (t / 60000 % 1440))
          (since (total_minutes start) (total_minutes end))
within-of_arc t start end cs ce ne =
    ground (arith, is_within_quiet_hours-arc t start end cs ce, utc_minutes_lem t)

-- For UTC quiet hours from start to end, two different clock texts: if the delivery of an alert is
-- deferred at the time now, then every time from now up to the scheduled date lies within quiet
-- hours, and the scheduled date itself does not.
pub deferred_until-end :
    (start end until : ClockTime) (severity : AlertSeverity) (now : ℕ)
    → IsClock start
    → IsClock end
    → total_minutes start ≢ total_minutes end
    → deferred_until (some (start, end)) severity now ≡ some until
    → let date = quiet_hours_end_date now until in
      ((t : ℕ) → now ≤ t → t < date → is_within_quiet_hours t start end ≡ true)
      × (is_within_quiet_hours date start end ≡ false)
deferred_until-end start end until severity now cs ce ne h =
    let (same, inside) = deferred_until-inside start end until severity now h in
    rw same (
      λ t le lt. rw (within-of_arc t start end cs ce ne) (
          lt→ltb _ _ (
            arc_until_end now t (total_minutes start) (total_minutes end) (omega arith)
              (omega arith) (ltb→lt _ _ (rw (within-of_arc now start end cs ce ne) at inside)) le
              (unfold quiet_hours_end_date in lt))),
      ground (
        arith,
        quiet_hours_end_date-next now end ce,
        is_within_quiet_hours-arc (quiet_hours_end_date now end) start end cs ce,
      ),
    )
