-- ===== src/Alerts/Suppression/Rules.antt =====
-- When an alert is suppressed.
use intell_api.Prelude.{
  ℕ, ◌+◌, ◌*◌, ◌≤◌, ◌<◌, ◌≡◌, ◌≢◌, ◌↔◌, ◌⊎◌, true, false, Option, none, some, arith,
}
use intell_api.Prelude.Int.{ℤ, pos_part}
use intell_api.Common.Enums.{resolved}
use intell_api.Alerts.Entity.{Alert}
use intell_api.Alerts.Suppression.{DuplicateCheckInput, judge, severity_order}

-- The newest alert of the same user and type suppresses a proposed one exactly if the proposed one
-- is no more severe, and the newest one is within the cooldown (of a positive number of minutes,
-- counted from its creation) or is not resolved.
pub judge_iff :
    (a : Alert) (input : DuplicateCheckInput) (cooldown : ℤ) (now : ℕ)
    → ((judge (some a) input cooldown now).is_duplicate ≡ true) ↔ (
        (severity_order input.severity ≤ severity_order a.severity)
        × ((now < a.created_at + pos_part cooldown * 60000) × (0 < pos_part cooldown)
            ⊎ (a.resolution_status ≢ some resolved)))
unfolding judge
judge_iff a input cooldown now = ground arith

-- A suppressing answer names the alert that suppresses, and any other names none.
pub judge-existing_alert :
    (o : Option Alert) (input : DuplicateCheckInput) (cooldown : ℤ) (now : ℕ)
    → let r = judge o input cooldown now in
      ((r.is_duplicate ≡ true) × (r.existing_alert ≡ o) × (o ≢ none))
      ⊎ ((r.is_duplicate ≡ false) × (r.existing_alert ≡ none))
unfolding judge
judge-existing_alert o input cooldown now = ground arith
