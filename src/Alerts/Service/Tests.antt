-- ===== src/Alerts/Service/Tests.antt =====
-- The service over a table that is a list of rows.
use intell_api.Prelude.{
  ◌≡◌, ◌⊎◌, refl, String, true, Option, none, some, List, [], ◌∷◌, length, keep, round_div,
  if◌then◌else◌, str_eq,
}
use intell_api.Common.Enums.{
  AlertType, AlertSeverity, critical, warning, battery_percentage, power, pending,
  AlertResolutionStatus, resolved, unresolved,
}
use intell_api.Exec.{Error, Exec, ok, err}
use intell_api.Alerts.Entity.{Alert, DeliveryState}
use intell_api.Alerts.Service.{AlertTable, key_metrics, get_alert_details, resolve_alert, rate}
use intell_api.Alerts.Service.Access.{resolve_alert_lem}

abbrev row : String → AlertType → AlertSeverity → Option AlertResolutionStatus → Alert
row id t s status = record {
  id = id;
  created_at = 0;
  columns = record {
    user_id = "owner";
    type = t;
    platform = "growatt";
    severity = s;
    message = "";
    resolution_status = status;
    triggered_at = 0;
    is_active = true;
    delivery_processing_status = pending;
    deliverable = true;
    delivery_status = DeliveryState.pending;
    delivery_channel = none;
    metadata = [];
  };
}

abbrev row_of : String → List Alert → Option Alert
row_of id [] = none
row_of id (a ∷ rows) = let rest = row_of id rows in if str_eq a.id id then some a else rest

abbrev with_status : AlertResolutionStatus → Alert → Alert
with_status s a = record a { columns = record (a.columns) { resolution_status = some s } }

abbrev set_status : String → AlertResolutionStatus → Exec (List Alert) (Option Alert)
set_status id s [] = (ok none, [])
set_status id s (a ∷ rows) =
    let (found, rest) = set_status id s rows in
    if str_eq a.id id
    then (ok (some (with_status s a)), with_status s a ∷ rows)
    else (found, a ∷ rest)

abbrev rows_table : AlertTable
rows_table = record {
  World = List Alert;
  find_by_id = λ id rows. ok (row_of id rows);
  count_by = λ test rows. ok (length (keep test rows));
  find = λ test count rows. ok (keep test rows);
  find_page = λ test size page rows. ok (keep test rows);
  set_resolution = set_status;
}

abbrev low_battery : Alert
low_battery = row "1" battery_percentage critical (some unresolved)

abbrev older : List Alert
older =
    row "2" power warning (some resolved) ∷ row "3" battery_percentage warning (some resolved) ∷ []

two_thirds : (key_metrics (low_battery ∷ older)).resolution_rate ≡ 66670
unfolding key_metrics rate round_div
two_thirds = refl

resolve_alert_lem_example :
    ((a : Alert) × (rows_table.find_by_id "1" (low_battery ∷ older) ≡ ok (some a))
      × (a.user_id ≡ "owner")
      × (get_alert_details rows_table "1" "owner" (low_battery ∷ older)
          ≡ (ok a, low_battery ∷ older))
      × (resolve_alert rows_table "1" "owner" (low_battery ∷ older)
          ≡ set_status "1" resolved (low_battery ∷ older)))
    ⊎ ((e : Error) × (get_alert_details rows_table "1" "owner" (low_battery ∷ older)
          ≡ (err e, low_battery ∷ older))
        × (resolve_alert rows_table "1" "owner" (low_battery ∷ older)
            ≡ (err e, low_battery ∷ older)))
resolve_alert_lem_example = resolve_alert_lem rows_table "1" "owner" (low_battery ∷ older)
