-- ===== src/Alerts/Dispatch.antt =====
-- modules/alerts/jobs/alert-dispatch.processor.ts: a job of the queue is delivered to its user. Log
-- lines are left out.
mod Outcome
mod Tests
use intell_api.Prelude.{
  String, Bool, true, false, not, ◌&&◌, Option, none, some, List, [], ◌∷◌, if◌then◌else◌, str_eq,
}
use intell_api.Prelude.Text.{◌&◌}
use intell_api.Common.Enums.{
  AlertSeverity, AlertType, processing, successful, failed, severity_text, type_text,
}
use intell_api.Exec.{not_found, thrown, Result, ok, Exec, throw, query, ◌>>=◌, ◌>>◌}
use intell_api.Users.{User, UserSettings}
use intell_api.Alerts.Entity.{
  Stat, stat, malformed, MetaValue, text, stats, anything_else, DeliveryState, AlertColumns, Alert,
  DispatchJobData, DeferredJobData, AlertJob, dispatch, deferred_delivery, unknown,
}
use intell_api.Alerts.Fallback.{
  AlertDelivery, DeliveryResult, DeliveryStatus, SendResult, Service, deliver_with_fallback,
}
use intell_api.Alerts.Whatsapp.{format_alert_message}

-- What `emailService.sendAlert` is given.
pub record EmailAlert : Type 0 where
  pub to : String
  pub first_name : String
  pub alert_type : AlertType
  pub alert_severity : AlertSeverity
  pub alert_reason : String
  pub resolve_link : String
  pub stat_cards : Option (List (String × String))
  pub alert_title : Option String

-- The repositories and the two senders, which are code outside these modules.
pub record DispatchBackend : Type 1 where
  pub World : Type 0
  -- alertRepo.findOne, userRepo.findOne and userSettingsRepo.findOne, by id
  pub find_alert : String → World → Result (Option Alert)
  pub find_user : String → World → Result (Option User)
  pub find_settings : String → World → Result (Option UserSettings)
  -- alertRepo.save of a row that is there
  pub save : Alert → Exec World (Unit {0})
  -- whatsappService.sendText and emailService.sendAlert
  pub send_text : String → String → World → SendResult × World
  pub send_email : EmailAlert → World → SendResult × World
  -- appCfg.clientUrl
  pub client_url : String

-- meta[key]
meta_at : String → List (String × MetaValue) → MetaValue
meta_at key [] = anything_else
meta_at key ((k, v) ∷ rest) = if str_eq k key then v else meta_at key rest

-- typeof v === 'string' ? v : d
abbrev text_or : MetaValue → String → String
text_or (text s) d = s
text_or _ d = d

abbrev text_only : MetaValue → Option String
text_only (text s) = some s
text_only _ = none

well_formed : List Stat → List (String × String)
well_formed [] = []
well_formed (stat label value ∷ rest) = (label, value) ∷ well_formed rest
well_formed (malformed ∷ rest) = well_formed rest

-- Array.isArray(v) ? v.filter(…) : undefined
abbrev stats_of : MetaValue → Option (List (String × String))
stats_of (stats entries) = some (well_formed entries)
stats_of _ = none

email_alert : User → Alert → DispatchJobData → String → String → EmailAlert
email_alert user alert data_ client_url message = record {
  to = user.email;
  first_name = user.first_name;
  alert_type = data_.type;
  alert_severity = data_.severity;
  alert_reason = text_or (meta_at "alertReason" alert.metadata) message;
  resolve_link =
      text_or (meta_at "resolveLink" alert.metadata)
        (elim data_.dashboard_url [ none ↦ client_url | some url ↦ url ]);
  stat_cards = stats_of (meta_at "stats" alert.metadata);
  alert_title = text_only (meta_at "alertTitle" alert.metadata);
}

abbrev is_true : Option Bool → Bool
is_true (some true) = true
is_true _ = false

abbrev settings_whatsapp : Option UserSettings → Bool
settings_whatsapp none = false
settings_whatsapp (some s) = is_true s.whatsapp_alerts

abbrev has_phone : Option String → Bool
has_phone none = false
has_phone (some p) = not (str_eq p "")

-- !!(user.phoneNumber && settings?.whatsappAlerts)
unfoldable pub whatsapp_enabled : User → Option UserSettings → Bool
whatsapp_enabled user settings = has_phone user.phone_number && settings_whatsapp settings

abbrev true_unless_false : Option Bool → Bool
true_unless_false (some false) = false
true_unless_false _ = true

-- settings?.emailAlerts ?? true
unfoldable pub email_enabled : Option UserSettings → Bool
email_enabled none = true
email_enabled (some s) = true_unless_false s.email_alerts

abbrev phone_of : User → String
phone_of user = elim user.phone_number [ none ↦ "" | some p ↦ p ]

delivery_for : DispatchJobData → String → User → Option UserSettings → AlertDelivery
delivery_for data_ message user settings = record {
  alert_id = data_.alert_id;
  user_id = data_.user_id;
  message = message;
  channels = "whatsapp" ∷ "email" ∷ [];
  user_settings = record {
    whatsapp_alerts = whatsapp_enabled user settings;
    email_alerts = email_enabled settings;
    sms_notification = false;
  };
}

-- The message of an alert, for both channels.
message_for : DispatchJobData → Alert → String
message_for data_ alert = format_alert_message (record {
  type = type_text data_.type;
  severity = severity_text data_.severity;
  message = alert.message;
  minutes_until_depletion = none;
})

abbrev with_columns : Alert → AlertColumns → Alert
with_columns alert c = record alert { columns = c }

unfoldable pub mark_processing : Alert → Alert
mark_processing alert =
    with_columns alert (record (alert.columns) { delivery_processing_status = processing })

unfoldable pub mark_delivered : Alert → Option String → Alert
mark_delivered alert channel = with_columns alert (record (alert.columns) {
  delivery_processing_status = successful;
  delivery_status = DeliveryState.delivered;
  delivery_channel = channel;
})

unfoldable pub mark_failed : Alert → Alert
mark_failed alert = with_columns alert (record (alert.columns) {
  delivery_processing_status = failed;
  delivery_status = DeliveryState.failed;
})

abbrev is_delivered : DeliveryStatus → Bool
is_delivered DeliveryStatus.delivered = true
is_delivered _ = false

module _ (b : DispatchBackend) where
  open b use {World, find_alert, find_user, find_settings, save, send_text, send_email, client_url}

  services : DispatchJobData → User → Alert → String → String → Option (Service World)
  services data_ user alert message channel =
      if str_eq channel "whatsapp"
      then some (λ details. send_text (phone_of user) details.message)
      else if str_eq channel "email"
      then some (λ details. send_email (email_alert user alert data_ client_url message))
      else none

  -- What follows the delivery.
  conclude : DispatchJobData → Alert → DeliveryResult → Exec World (Unit {0})
  conclude data_ alert result =
      if is_delivered result.status then save (mark_delivered alert result.channel_used) else (do
        save (mark_failed alert)
        throw (thrown ("Delivery failed for alert " & data_.alert_id)))

  -- From the save of the state `processing` on.
  deliver : DispatchJobData → Alert → User → Option UserSettings → Exec World (Unit {0})
  deliver data_ alert user settings = do
    save (mark_processing alert)
    let message = message_for data_ alert
    result ← λ w.
        let (r, w') =
          deliver_with_fallback (services data_ user (mark_processing alert) message)
            (delivery_for data_ message user settings) w in
        (ok r, w')
    conclude data_ (mark_processing alert) result

  with_user : DispatchJobData → Alert → Option User → Option UserSettings → Exec World (Unit {0})
  with_user data_ alert none settings = throw (thrown ("User not found: " & data_.user_id))
  with_user data_ alert (some user) settings = deliver data_ alert user settings

  with_alert : DispatchJobData → Option Alert → Exec World (Unit {0})
  with_alert data_ none = throw (thrown ("Alert not found: " & data_.alert_id))
  with_alert data_ (some alert) = do
    user ← query (find_user data_.user_id)
    settings ← query (find_settings data_.user_id)
    with_user data_ alert user settings

  pub handle_dispatch : DispatchJobData → Exec World (Unit {0})
  handle_dispatch data_ = do alert ← query (find_alert data_.alert_id); with_alert data_ alert

  deferred_with : DeferredJobData → Option Alert → Exec World (Unit {0})
  deferred_with data_ none = throw (not_found "Alert not found")
  deferred_with data_ (some alert) = handle_dispatch (record {
    alert_id = data_.alert_id;
    user_id = data_.user_id;
    type = alert.type;
    severity = alert.severity;
    message = alert.message;
    channel = "whatsapp";
    dashboard_url = none;
  })

  pub handle_deferred_delivery : DeferredJobData → Exec World (Unit {0})
  handle_deferred_delivery data_ = do
    alert ← query (find_alert data_.alert_id)
    deferred_with data_ alert

  pub process : AlertJob → Exec World (Unit {0})
  process (dispatch data_) = handle_dispatch data_
  process (deferred_delivery data_ delay) = handle_deferred_delivery data_
  process (unknown name) = throw (thrown ("Unknown alert dispatch job type: " & name))
