-- ===== src/Alerts/Fallback/Tests.antt =====
-- WhatsApp throws, and the mail is sent.
use intell_api.Prelude.{
  ◌≡◌, String, true, false, none, [], ◌∷◌, keep, find_first, length, str_eq, if◌then◌else◌,
}
use intell_api.Alerts.Fallback.{AlertDelivery, SendResult, sent, threw, deliver_with_fallback}
use intell_api.Alerts.Fallback.Chain.{
  noting, up_to, is_enabled, delivers, status_of, last_error, stops, deliver_with_fallback_lem,
}

abbrev mail_only : String → SendResult
mail_only c = if str_eq c "email" then sent else threw "timeout"

abbrev delivery : AlertDelivery
delivery = record {
  alert_id = "a";
  user_id = "u";
  message = "m";
  channels = "whatsapp" ∷ "sms" ∷ "email" ∷ [];
  user_settings = record { whatsapp_alerts = true; email_alerts = true; sms_notification = false };
}

deliver_with_fallback_lem_example :
    let r = deliver_with_fallback (noting mail_only) delivery [] in
    let enabled = keep (is_enabled mail_only delivery) delivery.channels in
    (r.1 ≡ up_to (delivers mail_only delivery) enabled)
    × (r.0.channel_used ≡ find_first (delivers mail_only delivery) enabled)
    × (r.0.status
        ≡ status_of mail_only delivery
            (find_first (delivers mail_only delivery) enabled)
            (last_error mail_only delivery none enabled))
    × (length r.0.audit ≡ length (up_to (stops mail_only delivery) delivery.channels))
deliver_with_fallback_lem_example = deliver_with_fallback_lem mail_only delivery
