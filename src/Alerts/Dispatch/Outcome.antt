-- ===== src/Alerts/Dispatch/Outcome.antt =====
-- What a processed job leaves behind.
use intell_api.Prelude.{
  ◌≡◌, ◌⊎◌, inl, inr, refl, subst, String, true, Option, some, arith, Bool-cases,
}
use intell_api.Common.Enums.{successful, failed}
use intell_api.Exec.{Result, ok, err}
use intell_api.Users.{User, UserSettings}
use intell_api.Alerts.Entity.{Alert, DeliveryState, DispatchJobData}
use intell_api.Alerts.Fallback.{
  DeliveryResult, Service, deliver_with_fallback, final_status, is_disabled,
}
use intell_api.Alerts.Dispatch.{
  DispatchBackend, whatsapp_enabled, email_enabled, mark_processing, mark_delivered, mark_failed,
  is_delivered, services, conclude, deliver, with_user, with_alert, handle_dispatch, delivery_for,
  message_for,
}

-- The documented behaviour of the repository that the proofs rely on.
pub record DispatchLaws (b : DispatchBackend) : Type 0 where
  -- A row that is found by its id has that id.
  pub find_alert_id :
      (id : String) (w : b.World) (a : Alert) → b.find_alert id w ≡ ok (some a) → a.id ≡ id
  -- A row that was saved is found as it was saved.
  pub save_found :
      (a : Alert) (w : b.World)
      → (b.save a w).0 ≡ ok tt
      → b.find_alert a.id (b.save a w).1 ≡ ok (some a)

module _ {W : Type 0} (s : String → Option (Service W)) (d : DispatchJobData) (m : String)
    (user : User) (settings : Option UserSettings) where
  delivered_channel :
      (w : W)
      → let r = (deliver_with_fallback s (delivery_for d m user settings) w).0 in
        is_delivered r.status ≡ true
        → ((r.channel_used ≡ some "whatsapp") × (whatsapp_enabled user settings ≡ true))
          ⊎ ((r.channel_used ≡ some "email") × (email_enabled settings ≡ true))
  unfolding deliver_with_fallback is_disabled delivery_for final_status
  delivered_channel w h = ground arith

module _ (b : DispatchBackend) (laws : DispatchLaws b) where
  open b use {World, find_alert, find_user, find_settings, save}

  -- The row is delivered over a channel that the user has switched on.
  pub record IsDelivered (user : User) (settings : Option UserSettings) (a : Alert) : Type 0 where
    pub processed : a.delivery_processing_status ≡ successful
    pub state : a.delivery_status ≡ DeliveryState.delivered
    pub reached :
        ((a.delivery_channel ≡ some "whatsapp") × (whatsapp_enabled user settings ≡ true))
        ⊎ ((a.delivery_channel ≡ some "email") × (email_enabled settings ≡ true))

  pub record IsFailed (a : Alert) : Type 0 where
    pub processed : a.delivery_processing_status ≡ failed
    pub state : a.delivery_status ≡ DeliveryState.failed

  -- How a job ends: without an error and with the row delivered, or with an error and the row failed.
  abbrev pub Settled : User → Option UserSettings → String → Result (Unit {0}) × World → Type 0
  Settled user settings id (ok _, w) =
      (a : Alert) × (find_alert id w ≡ ok (some a)) × IsDelivered user settings a
  Settled user settings id (err e, w) = (a : Alert) × (find_alert id w ≡ ok (some a)) × IsFailed a

  conclude-Settled :
      (d : DispatchJobData) (user : User) (settings : Option UserSettings) (alert : Alert)
      (r : DeliveryResult) (w : World)
      → ((a : Alert) (w : World) → (save a w).0 ≡ ok tt)
      → (is_delivered r.status ≡ true
          → ((r.channel_used ≡ some "whatsapp") × (whatsapp_enabled user settings ≡ true))
            ⊎ ((r.channel_used ≡ some "email") × (email_enabled settings ≡ true)))
      → Settled user settings alert.id (conclude b d alert r w)
  unfolding conclude mark_delivered mark_failed
  conclude-Settled d user settings alert r w saves reached =
      elim (Bool-cases (is_delivered r.status)) [
        | inl yes_ ↦
            let a = mark_delivered alert r.channel_used in
            rw (yes_, saves a w)
              (
                a,
                laws.save_found a w (saves a w),
                record { processed = refl; state = refl; reached = reached yes_ },
              )
        | inr no_ ↦
            let a = mark_failed alert in
            rw (no_, saves a w)
              (a, laws.save_found a w (saves a w), record { processed = refl; state = refl })
      ]

  deliver-Settled :
      (d : DispatchJobData) (alert : Alert) (user : User) (settings : Option UserSettings)
      (w : World)
      → ((a : Alert) (w : World) → (save a w).0 ≡ ok tt)
      → Settled user settings alert.id (deliver b d alert user settings w)
  unfolding deliver mark_processing
  deliver-Settled d alert user settings w saves =
      let started = mark_processing alert in
      let w1 = (save started w).1 in
      let message = message_for d alert in
      let ss = services b d user started message in
      rw (saves started w) (
        conclude-Settled d user settings started
          (deliver_with_fallback ss (delivery_for d message user settings) w1).0
          (deliver_with_fallback ss (delivery_for d message user settings) w1).1 saves
          (delivered_channel ss d message user settings w1))

  -- For repositories whose saves succeed and behave as documented, and a dispatch job whose alert,
  -- user and settings can be read: the job ends without an error and with the alert's row marked
  -- successful and delivered, over WhatsApp or e-mail, whichever is named in the row being switched
  -- on for the user; or it throws and the row is marked failed.
  pub handle_dispatch-Settled :
      (d : DispatchJobData) (w : World) (alert : Alert) (user : User)
      (settings : Option UserSettings)
      → ((a : Alert) (w : World) → (save a w).0 ≡ ok tt)
      → find_alert d.alert_id w ≡ ok (some alert)
      → find_user d.user_id w ≡ ok (some user)
      → find_settings d.user_id w ≡ ok settings
      → Settled user settings d.alert_id (handle_dispatch b d w)
  unfolding handle_dispatch with_alert with_user
  handle_dispatch-Settled d w alert user settings saves fa fu fs =
      rw (fa, fu, fs)
        (subst (λ id. Settled user settings id (deliver b d alert user settings w))
          (laws.find_alert_id d.alert_id w alert fa)
          (deliver-Settled d alert user settings w saves))
