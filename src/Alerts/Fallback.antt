-- ===== src/Alerts/Fallback.antt =====
-- modules/alerts/fallback.service.ts: delivery over an ordered list of channels.
pub mod Chain
mod Tests
use intell_api.Prelude.{
  String, Bool, not, ◌&&◌, ◌||◌, Option, none, some, List, [], ◌∷◌, ◌++◌, if◌then◌else◌, str_eq,
}
use intell_api.Prelude.Text.{◌&◌}

pub record ChannelSettings : Type 0 where
  pub whatsapp_alerts : Bool
  pub email_alerts : Bool
  pub sms_notification : Bool

pub record AlertDelivery : Type 0 where
  pub alert_id : String
  pub user_id : String
  pub message : String
  pub channels : List String
  pub user_settings : ChannelSettings

pub data DeliveryStatus : Type 0 where
  delivered failed partial_success : DeliveryStatus

pub record DeliveryResult : Type 0 where
  pub status : DeliveryStatus
  pub channel_used : Option String
  pub audit : List String

-- What `send` is given.
pub record Details : Type 0 where
  pub to : String
  pub message : String

-- `send` returns, or throws an error with a message.
pub data SendResult : Type 0 where
  sent : SendResult
  threw : String → SendResult

abbrev pub Service : Type 0 → Type 0
Service W = Details → W → SendResult × W

-- The user has switched the channel off.
unfoldable pub is_disabled : ChannelSettings → String → Bool
is_disabled s channel =
    (str_eq channel "whatsapp" && not s.whatsapp_alerts)
    || ((str_eq channel "email" && not s.email_alerts)
        || (str_eq channel "sms" && not s.sms_notification))

-- `lastError ? 'failed' : 'partial_success'`: neither null nor the empty text is true.
unfoldable pub final_status : Option String → DeliveryStatus
final_status none = partial_success
final_status (some e) = if str_eq e "" then partial_success else failed

module _ {W : Type 0} (services : String → Option (Service W)) where
  -- `channelServices[channel].send(…)`: a channel with no service throws a TypeError.
  unfoldable pub attempt : String → Details → W → SendResult × W
  attempt channel details w = elim (services channel) [
    | none ↦ (threw "Cannot read properties of undefined (reading 'send')", w)
    | some send ↦ send details w
  ]

  -- The loop over the channels that are left.
  unfoldable pub deliver_from :
      AlertDelivery → List String → List String → Option String → W → DeliveryResult × W
  deliver_from delivery [] audit last_error w =
      (record { status = final_status last_error; channel_used = none; audit = audit }, w)
  deliver_from delivery (channel ∷ rest) audit last_error w =
      let skip =
        deliver_from delivery rest (audit ++ (channel & ": skipped (user disabled)") ∷ [])
          last_error w in
      let (result, w') =
        attempt channel (record { to = delivery.user_id; message = delivery.message }) w in
      let next = λ (e : String).
        deliver_from delivery rest (audit ++ (channel & ": failed - " & e) ∷ []) (some e) w' in
      if is_disabled delivery.user_settings channel then skip else elim result [
        | sent ↦ (
          record {
            status = delivered;
            channel_used = some channel;
            audit = audit ++ (channel & ": delivered") ∷ [];
          },
          w',
        )
        | threw e ↦ next e
      ]

  unfoldable pub deliver_with_fallback : AlertDelivery → W → DeliveryResult × W
  unfolding deliver_from
  deliver_with_fallback delivery w = deliver_from delivery delivery.channels [] none w
