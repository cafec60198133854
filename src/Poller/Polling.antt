-- ===== src/Poller/Polling.antt =====
-- modules/metrics-stream/poller/metrics-poller.service.ts: the polls of the four brands, what they
-- save and publish, and the alert that an inverter is offline.
pub mod Failures
use intell_api.Prelude.{
  ℕ, ◌+◌, ◌*◌, String, Bool, true, false, Option, none, some, List, [], ◌∷◌, ltb, leb,
  if◌then◌else◌,
}
use intell_api.Prelude.Int.{ℤ, pos}
use intell_api.Prelude.Text.{◌&◌}
use intell_api.Common.Enums.{
  brand_text, brand_lower, inverter_fault, critical, unresolved, ProcessingStatus,
}
use intell_api.Exec.{Result, ok, err, Exec, pure, query, try_catch, ◌>>=◌, ◌>>◌}
use intell_api.Inverters.{Inverter, NormalisedMetric}
use intell_api.Alerts.Entity.{
  stat, text, stats, DeliveryState, AlertColumns, Alert, AlertJob, dispatch,
}
use intell_api.Alerts.Backend.{Backend}
use intell_api.Poller.Tracker.{Tracker, set_count}
use intell_api.Poller.Credentials.{email_part, password_part}

-- What `metricsRepo.create` is given.
pub record MetricColumns : Type 0 where
  pub inverter_id : String
  pub solar_gen_kw : ℤ
  pub battery_soc_percent : ℤ
  pub load_kw : ℤ
  pub grid_voltage_v : Option ℤ
  pub grid_frequency_hz : Option ℤ
  pub battery_voltage_v : Option ℤ
  pub battery_current_a : Option ℤ
  pub inverter_status : String
  pub battery_temperature_c : Option ℤ
  pub battery_time_to_go_min : Option ℤ
  pub inverter_temperature_c : Option ℤ
  pub metric_timestamp : ℕ

-- The tables, the queue and the clock of the alerts, and what the poller uses besides.
pub record PollerBackend : Type 1 where
  pub alerts : Backend
  pub open alerts use {World, now, find_latest, insert, enqueue}
  -- SecretManager.decrypt: `none` where it throws. A text is the list of its characters.
  pub decrypt : Option String → Option (List ℕ)
  -- The adapters: with the token, the installation and the id; with the serial number and the
  -- token; with the serial number, the address and the password.
  pub fetch_victron : List ℕ → Option String → String → Exec World NormalisedMetric
  pub fetch_sandbox : List ℕ → Option String → String → Exec World NormalisedMetric
  pub fetch_growatt : String → List ℕ → Exec World NormalisedMetric
  pub fetch_sunsynk : String → List ℕ → List ℕ → Exec World NormalisedMetric
  -- inverterModelAction.markOnline and markOffline
  pub mark_online : String → Exec World (Unit {0})
  pub mark_offline : String → Exec World (Unit {0})
  -- metricsRepo.save(metricsRepo.create(columns))
  pub save_metric : MetricColumns → Exec World (Unit {0})
  -- pubSubService.publish(channel, JSON.stringify(metric))
  pub publish : String → NormalisedMetric → Exec World (Unit {0})
  -- appCfg.clientUrl
  pub client_url : String

abbrev or_zero : Option ℤ → ℤ
or_zero none = pos 0
or_zero (some z) = z

unfoldable pub metric_columns : NormalisedMetric → MetricColumns
metric_columns m = record {
  inverter_id = m.inverter_id;
  solar_gen_kw = or_zero m.solar_power_kw;
  battery_soc_percent = or_zero m.battery_soc;
  load_kw = or_zero m.ac_output_power_kw;
  grid_voltage_v = m.grid_voltage_v;
  grid_frequency_hz = m.grid_frequency_hz;
  battery_voltage_v = m.battery_voltage_v;
  battery_current_a = m.battery_current_a;
  inverter_status = m.inverter_status;
  battery_temperature_c = m.battery_temperature_c;
  battery_time_to_go_min = m.battery_time_to_go_min;
  inverter_temperature_c = m.inverter_temperature_c;
  metric_timestamp = m.recorded_at;
}

unfoldable pub offline_message : Inverter → String
offline_message i =
    "Your "
    & brand_text i.brand
    & " inverter ("
    & i.model
    & ") has gone offline after 3 consecutive failed data fetches. Check your inverter's network connection and power status."

unfoldable pub offline_columns : Inverter → ℕ → AlertColumns
offline_columns i time = record {
  user_id = i.user_id;
  type = inverter_fault;
  platform = brand_lower i.brand;
  severity = critical;
  message = offline_message i;
  resolution_status = some unresolved;
  triggered_at = time;
  is_active = true;
  delivery_processing_status = ProcessingStatus.pending;
  deliverable = true;
  delivery_status = DeliveryState.pending;
  delivery_channel = none;
  metadata =
      ("alertReason", text (offline_message i))
      ∷ ("alertTitle", text "Inverter offline")
      ∷ (
        "stats",
        stats (
            stat "Inverter" i.model
            ∷ stat "Brand" (brand_text i.brand)
            ∷ stat "Status" "Offline"
            ∷ []),
      )
      ∷ [];
}

-- cooldownMinutes * 60 * 1000
abbrev pub cooldown_ms : ℕ
cooldown_ms = 60 * 60 * 1000

-- recentAlert && recentAlert.createdAt > cooldownCutoff, the cutoff being `cooldown_ms` before.
unfoldable pub is_recent : Option Alert → ℕ → Bool
is_recent none time = false
is_recent (some a) time = ltb time (a.created_at + cooldown_ms)

abbrev pub count_of : Option ℕ → ℕ
count_of none = 0
count_of (some n) = n

-- { ...metric, inverterId: inverter.id }
abbrev with_id : Inverter → NormalisedMetric → NormalisedMetric
with_id i m = record m { inverter_id = i.id }

module _ (b : PollerBackend) where
  open b use {
    World, now, find_latest, insert, enqueue, decrypt, fetch_victron, fetch_sandbox, fetch_growatt,
    fetch_sunsynk, mark_online, mark_offline, save_metric, publish, client_url,
  }

  -- A failed save is logged and ends it; a failed publication is only logged.
  unfoldable pub persist_and_publish : NormalisedMetric → Exec World (Unit {0})
  persist_and_publish metric w =
      let (saved, w1) = save_metric (metric_columns metric) w in
      elim saved [
        | err e ↦ (ok tt, w1)
        | ok _ ↦ try_catch (publish ("inverter:" & metric.inverter_id) metric) (λ _. pure tt) w1
      ]

  unfoldable pub offline_job : Alert → AlertJob
  offline_job saved = dispatch (record {
    alert_id = saved.id;
    user_id = saved.user_id;
    type = saved.type;
    severity = saved.severity;
    message = saved.message;
    channel = "whatsapp";
    dashboard_url = some client_url;
  })

  unfoldable pub save_offline_alert : Inverter → ℕ → Exec World (Unit {0})
  unfolding offline_job
  save_offline_alert i time = do
    saved ← insert (offline_columns i time)
    enqueue (offline_job saved)

  -- The body of the `try`.
  unfoldable pub offline_alert : Inverter → Exec World (Unit {0})
  unfolding save_offline_alert
  offline_alert i = do
    time ← query (λ w. ok (now w))
    recent ← query (find_latest i.user_id inverter_fault)
    if is_recent recent time then pure tt else save_offline_alert i time

  unfoldable pub fire_inverter_offline_alert : Inverter → World → World
  unfolding offline_alert
  fire_inverter_offline_alert i w = (try_catch (offline_alert i) (λ _. pure tt) w).1

  -- The state of a poll: the tracker and the world.
  abbrev pub State : Type 0
  State = Tracker × World

  -- After markOffline: an error leaves the poll, and nothing more is done.
  unfoldable pub after_offline : Inverter → Tracker → Result (Unit {0}) → World → State
  unfolding fire_inverter_offline_alert
  after_offline i t (err e) w = (t, w)
  after_offline i t (ok _) w = (t, fire_inverter_offline_alert i w)

  -- The `catch` of a poll.
  unfoldable pub on_failure : Inverter → State → State
  unfolding after_offline
  on_failure i (t, w) =
      let failures = count_of (t.failure_counts i.id) in
      let t1 = set_count i.id (some (failures + 1)) t in
      if leb 2 failures
      then (let (marked, w1) = mark_offline i.id w in after_offline i t1 marked w1)
      else (t1, w)

  unfoldable pub after_online :
      Inverter → NormalisedMetric → Tracker → Result (Unit {0}) → World → State
  unfolding on_failure persist_and_publish
  after_online i metric t (err e) w = on_failure i (t, w)
  after_online i metric t (ok _) w = (t, (persist_and_publish metric w).1)

  -- A reading resets the count, and is saved and published once the inverter is marked online.
  unfoldable pub after_fetch : Inverter → Tracker → Result NormalisedMetric → World → State
  unfolding on_failure after_online
  after_fetch i t (err e) w = on_failure i (t, w)
  after_fetch i t (ok metric) w =
      let (marked, w1) = mark_online i.id w in
      after_online i metric (set_count i.id (some 0) t) marked w1

  unfoldable pub poll_with : Inverter → Exec World NormalisedMetric → State → State
  unfolding after_fetch
  poll_with i fetch (t, w) = let (reading, w1) = fetch w in after_fetch i t reading w1

  -- A credential that cannot be decrypted is logged, and ends the poll.
  unfoldable pub poll_decrypted :
      (Inverter → List ℕ → Exec World NormalisedMetric) → Inverter → State → State
  unfolding poll_with
  poll_decrypted fetch i s = elim (decrypt i.encrypted_credentials) [
    | none ↦ s
    | some raw ↦ poll_with i (fetch i raw) s
  ]

  unfoldable pub poll_victron_one : Inverter → State → State
  unfolding poll_decrypted
  poll_victron_one = poll_decrypted (λ i raw. fetch_victron raw i.installation_id i.id)

  unfoldable pub poll_sandbox_one : Inverter → State → State
  unfolding poll_decrypted
  poll_sandbox_one = poll_decrypted (λ i raw. fetch_sandbox raw i.installation_id i.id)

  unfoldable pub poll_growatt_one : Inverter → State → State
  unfolding poll_decrypted
  poll_growatt_one =
      poll_decrypted
        (λ i raw. (do metric ← fetch_growatt i.serial_number raw; pure (with_id i metric)))

  unfoldable pub poll_sunsynk_one : Inverter → State → State
  unfolding poll_decrypted
  poll_sunsynk_one = poll_decrypted (λ i raw. (do
    metric ← fetch_sunsynk i.serial_number (email_part raw) (password_part raw)
    pure (with_id i metric)))

  -- Promise.allSettled over the array: one inverter after the other, since a poll writes only the
  -- count of its own inverter.
  unfoldable pub poll_each : (Inverter → State → State) → List Inverter → State → State
  poll_each poll [] s = s
  poll_each poll (i ∷ is) s = poll_each poll is (poll i s)

  unfoldable pub poll_victron : State → State
  unfolding poll_each poll_victron_one
  poll_victron (t, w) = poll_each poll_victron_one t.victron_inverters (t, w)

  unfoldable pub poll_growatt : State → State
  unfolding poll_each poll_growatt_one
  poll_growatt (t, w) = poll_each poll_growatt_one t.growatt_inverters (t, w)

  unfoldable pub poll_sunsynk : State → State
  unfolding poll_each poll_sunsynk_one
  poll_sunsynk (t, w) = poll_each poll_sunsynk_one t.sunsynk_inverters (t, w)

  unfoldable pub poll_sandbox : State → State
  unfolding poll_each poll_sandbox_one
  poll_sandbox (t, w) = poll_each poll_sandbox_one t.sandbox_inverters (t, w)
