-- ===== src/Alerts/Dispatch/Tests.antt =====
-- A dispatch job over a store that keeps the latest version of a row in front, with a WhatsApp
-- service that throws.
use intell_api.Prelude.{
  ◌≡◌, refl, String, true, false, Option, none, some, List, [], ◌∷◌, arith, if◌then◌else◌, str_eq,
  eq_iff, eq_refl,
}
use intell_api.Common.Enums.{UserRole, pms, critical, battery_percentage, pending}
use intell_api.Exec.{Result, ok}
use intell_api.Users.{User, UserSettings}
use intell_api.Alerts.Entity.{Alert, DeliveryState, DispatchJobData}
use intell_api.Alerts.Fallback.{sent, threw}
use intell_api.Alerts.Dispatch.{DispatchBackend, handle_dispatch}
use intell_api.Alerts.Dispatch.Outcome.{DispatchLaws, Settled, handle_dispatch-Settled}

abbrev row_of : String → List Alert → Option Alert
row_of id [] = none
row_of id (a ∷ rows) = let rest = row_of id rows in if str_eq a.id id then some a else rest

abbrev owner : User
owner = record {
  id = "owner";
  email = "owner@example.com";
  first_name = "Ada";
  last_name = "Obi";
  phone_number = some "+2348031234567";
  password_hash = none;
  google_id = none;
  email_verified = true;
  inverter_brand = none;
  onboarding_step = some 3;
  onboarding_complete = true;
  is_invited_user = false;
  is_active = true;
  last_login_at = none;
  role = UserRole.user;
  admin_status = none;
  created_at = 0;
}

abbrev preferences : UserSettings
preferences = record {
  id = "settings";
  user_id = "owner";
  profile_url = none;
  business_name = none;
  business_type = none;
  state = none;
  city = none;
  ai_language = none;
  generator_fuel_type = pms;
  generator_rated_power_kw = none;
  custom_fuel_price_naira = none;
  generator_average_daily_runtime_hours = none;
  whatsapp_alerts = some true;
  email_alerts = none;
  quiet_hours_start = none;
  quiet_hours_end = none;
  timezone = none;
  alert_cooldown_minutes = none;
  depletion_threshold = none;
}

abbrev rows_backend : DispatchBackend
rows_backend = record {
  World = List Alert;
  find_alert = λ id rows. ok (row_of id rows);
  find_user = λ id rows. ok (some owner);
  find_settings = λ id rows. ok (some preferences);
  save = λ a rows. (ok tt, a ∷ rows);
  send_text = λ to m rows. (threw "timeout", rows);
  send_email = λ e rows. (sent, rows);
  client_url = "https://app.example.com";
}

row_of-id :
    (id : String) (rows : List Alert) (a : Alert)
    → ◌≡◌ {A = Result (Option Alert)} (ok (row_of id rows)) (ok (some a))
    → a.id ≡ id
row_of-id id [] a e = absurd (ground arith)
row_of-id id (r ∷ rows) a e = ground (arith, row_of-id id rows a, eq_iff r.id id)

abbrev rows_laws : DispatchLaws rows_backend
rows_laws = record { find_alert_id = row_of-id; save_found = λ a rows _. rw (eq_refl a.id) refl }

abbrev low_battery : Alert
low_battery = record {
  id = "alert";
  created_at = 0;
  columns = record {
    user_id = "owner";
    type = battery_percentage;
    platform = "growatt";
    severity = critical;
    message = "Battery at 9%";
    resolution_status = none;
    triggered_at = 0;
    is_active = true;
    delivery_processing_status = pending;
    deliverable = true;
    delivery_status = DeliveryState.pending;
    delivery_channel = none;
    metadata = [];
  };
}

abbrev job : DispatchJobData
job = record {
  alert_id = "alert";
  user_id = "owner";
  type = battery_percentage;
  severity = critical;
  message = "Battery at 9%";
  channel = "whatsapp";
  dashboard_url = none;
}

handle_dispatch-Settled_example :
    Settled rows_backend rows_laws owner
      (some preferences)
      "alert"
      (handle_dispatch rows_backend job (low_battery ∷ []))
handle_dispatch-Settled_example =
    handle_dispatch-Settled rows_backend rows_laws job (low_battery ∷ []) low_battery owner
      (some preferences) (λ a w. refl) refl refl refl
