-- ===== src/Alerts/Suppression.antt =====
-- modules/alerts/helpers/duplicate-suppression.ts.
mod Rules
mod Tests
use intell_api.Prelude.{
  ℕ, ◌+◌, ◌-◌, ◌*◌, String, Bool, true, false, Option, none, some, ltb, if◌then◌else◌, ceil_div,
}
use intell_api.Prelude.Int.{ℤ, pos, pos_part, leb_ℤ}
use intell_api.Prelude.Text.{◌&◌, show}
use intell_api.Common.Enums.{
  AlertSeverity, low, medium, high, warning, critical, AlertType, AlertResolutionStatus, resolved,
  unresolved,
}
use intell_api.Exec.{Exec, ok, query, pure, ◌>>=◌}
use intell_api.Alerts.Entity.{Alert}
use intell_api.Alerts.Backend.{Backend}

pub record DuplicateCheckInput : Type 0 where
  pub user_id : String
  pub type : AlertType
  pub severity : AlertSeverity

pub record DuplicateCheckResult : Type 0 where
  pub is_duplicate : Bool
  pub existing_alert : Option Alert
  pub reason : Option String

-- severityOrder[s] ?? 0
abbrev pub severity_order : AlertSeverity → ℕ
severity_order low = 0
severity_order medium = 1
severity_order high = 2
severity_order warning = 3
severity_order critical = 4
severity_order AlertSeverity.none = 0

abbrev pub is_severity_upgrade : AlertSeverity → AlertSeverity → Bool
is_severity_upgrade existing incoming = ltb (severity_order existing) (severity_order incoming)

-- resolutionStatus !== RESOLVED
abbrev pub is_unresolved : Option AlertResolutionStatus → Bool
is_unresolved none = true
is_unresolved (some resolved) = false
is_unresolved (some unresolved) = true

abbrev fresh : Option String → DuplicateCheckResult
fresh reason = record { is_duplicate = false; existing_alert = none; reason = reason }

abbrev duplicate : Alert → String → DuplicateCheckResult
duplicate a reason = record { is_duplicate = true; existing_alert = some a; reason = some reason }

-- within_cooldown_${Math.ceil((cooldownMs - elapsed) / 60000)}min_remaining
cooldown_reason : ℕ → String
cooldown_reason remaining = "within_cooldown_" & show (ceil_div remaining 60000) & "min_remaining"

-- The last test of the method.
abbrev check_resolution : Alert → DuplicateCheckResult
check_resolution a =
    if is_unresolved a.resolution_status then duplicate a "unresolved_alert_exists" else fresh none

-- What the method answers at the time `now` about the row that it found. The elapsed time is below
-- the cooldown exactly if `now` is below the end of the cooldown.
unfoldable pub judge : Option Alert → DuplicateCheckInput → ℤ → ℕ → DuplicateCheckResult
unfolding cooldown_reason
judge none input cooldown_minutes now = fresh none
judge (some a) input cooldown_minutes now =
    let cooldown_end = a.created_at + pos_part cooldown_minutes * 60 * 1000 in
    if is_severity_upgrade a.severity input.severity
    then fresh (some "severity_upgrade")
    else if leb_ℤ cooldown_minutes (pos 0)
    then check_resolution a
    else if ltb now cooldown_end
    then duplicate a (cooldown_reason (cooldown_end - now))
    else check_resolution a

module _ (b : Backend) where
  open b use {World, now, find_latest}

  unfoldable pub is_duplicate : DuplicateCheckInput → ℤ → Exec World DuplicateCheckResult
  is_duplicate input cooldown_minutes = do
    existing ← query (find_latest input.user_id input.type)
    time ← query (λ w. ok (now w))
    pure (judge existing input cooldown_minutes time)
