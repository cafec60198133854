-- ===== src/Alerts/Service/Access.antt =====
-- Who may read and resolve an alert.
use intell_api.Prelude.{◌≡◌, ◌⊎◌, inl, inr, String, none, some, Bool-cases, eq_iff}
use intell_api.Common.Enums.{resolved}
use intell_api.Exec.{Error, not_found, unauthorized, ok, err}
use intell_api.Exec.Laws.{Result-cases}
use intell_api.Alerts.Entity.{Alert}
use intell_api.Alerts.Service.{AlertTable, is_owned, get_alert_details, resolve_alert}

module _ (b : AlertTable) where
  open b use {World, find_by_id, set_resolution}

  -- Reading and resolving an alert are permitted alike: either the alert is there and belongs to the
  -- user, is returned as it stands, and resolving it updates its row; or both fail with one and the
  -- same error and nothing is changed.
  pub resolve_alert_lem :
      (alert_id user_id : String) (w : World)
      → ((a : Alert) × (find_by_id alert_id w ≡ ok (some a))
          × (a.user_id ≡ user_id)
          × (get_alert_details b alert_id user_id w ≡ (ok a, w))
          × (resolve_alert b alert_id user_id w ≡ set_resolution alert_id resolved w))
        ⊎ ((e : Error) × (get_alert_details b alert_id user_id w ≡ (err e, w))
            × (resolve_alert b alert_id user_id w ≡ (err e, w)))
  unfolding get_alert_details resolve_alert
  resolve_alert_lem alert_id user_id w = elim (Result-cases (find_by_id alert_id w)) [
    | inr (x, e) ↦ inr (x, rw e, rw e)
    | inl (none, e) ↦ inr (not_found "The requested resource was not found", rw e, rw e)
    | inl (some a, e) ↦ elim (Bool-cases (is_owned user_id a)) [
      | inl own ↦ inl (a, e, (eq_iff a.user_id user_id).0 own, rw (e, own), rw (e, own))
      | inr other ↦
          inr
            (unauthorized "Authentication is required or has failed", rw (e, other), rw (e, other))
    ]
  ]
