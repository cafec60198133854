-- ===== src/Poller/Tests.antt =====
-- Tracking, polling and the offline alert on concrete data.
use intell_api.Prelude.{
  ℕ, ◌≤◌, ◌≡◌, refl, String, true, false, not, ◌&&◌, ◌||◌, none, some, List, [], ◌∷◌, arith, str_eq,
}
use intell_api.Prelude.Int.{pos}
use intell_api.Common.Enums.{InverterBrand, growatt, inverter_fault}
use intell_api.Exec.{thrown, Exec, ok, err}
use intell_api.Inverters.{Inverter, NormalisedMetric}
use intell_api.Alerts.Entity.{Alert}
use intell_api.Alerts.Memory.{Memory, memory_backend, memory_laws}
use intell_api.Poller.Tracker.{Tracker, register, handle_inverter_deregistered}
use intell_api.Poller.Tracker.Tracked.{IsTracker, IsArray, once, is_tracked, register-IsTracker}
use intell_api.Poller.Tracker.Removed.{handle_inverter_deregistered-IsTracker}
use intell_api.Poller.Credentials.{raw_credential, email_part, password_part, raw_credential-parts}
use intell_api.Poller.Polling.{
  PollerBackend, count_of, fire_inverter_offline_alert, is_recent, offline_columns,
}
use intell_api.Poller.Polling.Failures.{
  polls, IsDown, IsKept, polls-IsDown, fire_inverter_offline_alert_once,
}

abbrev house : Inverter
house = record {
  id = "house";
  user_id = "ada";
  brand = growatt;
  model = "SPF 5000";
  serial_number = "SN1";
  installation_id = none;
  encrypted_credentials = none;
  is_active = true;
  rated_capacity_kwh = pos 5000;
  panel_capacity_kw = pos 4000;
}

abbrev shop : Inverter
shop = record house { id = "shop" }

abbrev no_inverters : Tracker
no_inverters = record {
  victron_inverters = [];
  growatt_inverters = [];
  sunsynk_inverters = [];
  sandbox_inverters = [];
  failure_counts = λ id. none;
}

abbrev all_growatt : String → InverterBrand
all_growatt id = growatt

empty-IsArray : (brand : InverterBrand) → IsArray all_growatt brand []
unfolding once
empty-IsArray brand = record { once_each = refl; brands = λ id e. absurd (ground arith) }

no_inverters-IsTracker : IsTracker all_growatt no_inverters
no_inverters-IsTracker = record {
  of_victron = empty-IsArray _;
  of_growatt = empty-IsArray _;
  of_sunsynk = empty-IsArray _;
  of_sandbox = empty-IsArray _;
}

register-IsTracker_example :
    IsTracker all_growatt (register house no_inverters)
    × ((key : String)
        → is_tracked key (register house no_inverters)
          ≡ (is_tracked key no_inverters || str_eq "house" key))
register-IsTracker_example =
    register-IsTracker all_growatt house no_inverters no_inverters-IsTracker refl (λ e. cc)

handle_inverter_deregistered-IsTracker_example :
    let t' = handle_inverter_deregistered "house" no_inverters in
    IsTracker all_growatt t'
    × ((key : String)
        → is_tracked key t' ≡ (is_tracked key no_inverters && not (str_eq key "house")))
    × (is_tracked "house" no_inverters ≡ true → t'.failure_counts "house" ≡ none)
handle_inverter_deregistered-IsTracker_example =
    handle_inverter_deregistered-IsTracker all_growatt "house" no_inverters no_inverters-IsTracker

-- a@b with the password x:y
abbrev address : List ℕ
address = b'a' ∷ b'@' ∷ b'b' ∷ []

abbrev password : List ℕ
password = b'x' ∷ b':' ∷ b'y' ∷ []

raw_credential-parts_example :
    (email_part (raw_credential address password) ≡ address)
    × (password_part (raw_credential address password) ≡ password)
raw_credential-parts_example = raw_credential-parts address password refl

abbrev reading : NormalisedMetric
reading = record {
  inverter_id = "house";
  inverter_brand = growatt;
  recorded_at = 0;
  inverter_status = "normal";
  solar_power_kw = some (pos 500);
  ac_output_power_kw = some (pos 900);
  grid_voltage_v = none;
  grid_frequency_hz = none;
  battery_soc = some (pos 62000);
  battery_voltage_v = none;
  battery_current_a = none;
  battery_temperature_c = none;
  battery_time_to_go_min = none;
  inverter_temperature_c = none;
  pv_string1_power_kw = none;
  pv_string2_power_kw = none;
  energy_generated_today_kwh = none;
  total_energy_generated_kwh = none;
  battery_charged_today_kwh = none;
  battery_discharged_today_kwh = none;
  grid_export_today_kwh = none;
  grid_import_today_kwh = none;
}

abbrev fetch_fails : Exec Memory NormalisedMetric
fetch_fails w = (err (thrown "timeout"), w)

abbrev fetch_reads : Exec Memory NormalisedMetric
fetch_reads w = (ok reading, w)

abbrev unit_ok : Exec Memory (Unit {0})
unit_ok w = (ok tt, w)

abbrev memory_poller : PollerBackend
memory_poller = record {
  alerts = memory_backend;
  decrypt = λ c. some [];
  fetch_victron = λ token installation id. fetch_fails;
  fetch_sandbox = λ token installation id. fetch_fails;
  fetch_growatt = λ serial token. fetch_fails;
  fetch_sunsynk = λ serial email password. fetch_fails;
  mark_online = λ id. unit_ok;
  mark_offline = λ id. unit_ok;
  save_metric = λ columns. unit_ok;
  publish = λ channel metric. unit_ok;
  client_url = "https://app.example.com";
}

abbrev start : Memory
start = record { time = 1000; rows = []; queue = [] }

always-IsDown : IsDown memory_poller house fetch_fails
unfolding IsDown
always-IsDown w = (thrown "timeout", refl)

polls-IsDown_example :
    ((n : ℕ)
      → n ≤ 2
      → ((polls memory_poller house fetch_fails n (no_inverters, start)).1 ≡ start)
        × (count_of (
              (polls memory_poller house fetch_fails n (no_inverters, start)).0.failure_counts
                "house")
            ≡ n)
        × IsKept memory_poller house no_inverters
            (polls memory_poller house fetch_fails n (no_inverters, start)).0)
    × ((polls memory_poller house fetch_fails 3 (no_inverters, start)).1
        ≡ fire_inverter_offline_alert memory_poller house start)
    × ((polls memory_poller house fetch_fails 3 (no_inverters, start)).0.failure_counts "house"
        ≡ some 3)
    × IsKept memory_poller house no_inverters
        (polls memory_poller house fetch_fails 3 (no_inverters, start)).0
polls-IsDown_example =
    polls-IsDown memory_poller house fetch_fails no_inverters start start always-IsDown refl refl

abbrev offline_row : Alert
offline_row = record { id = "alert"; created_at = 1000; columns = offline_columns house 1000 }

abbrev with_row : Memory
with_row = record { time = 1000; rows = offline_row ∷ []; queue = [] }

-- A minute later.
abbrev minute_later : Memory
minute_later = record { time = 61000; rows = offline_row ∷ []; queue = [] }

nothing_recent : is_recent none 1000 ≡ false
unfolding is_recent
nothing_recent = refl

newest_kept :
    memory_backend.find_latest "ada" inverter_fault minute_later
    ≡ memory_backend.find_latest "ada" inverter_fault
        (fire_inverter_offline_alert memory_poller house start)
unfolding fire_inverter_offline_alert is_recent offline_columns
newest_kept = refl

fire_inverter_offline_alert_once_example :
    fire_inverter_offline_alert memory_poller shop minute_later ≡ minute_later
fire_inverter_offline_alert_once_example =
    fire_inverter_offline_alert_once memory_poller memory_laws house shop start with_row
      minute_later offline_row none refl nothing_recent refl refl newest_kept (omega arith)
