-- ===== src/Inverters/Service/Control.antt =====
-- The control messages of the service, as the poller reads them, and who may deactivate.
use intell_api.Prelude.{
  String, true, false, Option, none, some, ◌≡◌, ◌≢◌, ◌⊎◌, inl, inr, refl, arith, str_eq, Bool-cases,
  eq_iff,
}
use intell_api.Exec.{Error, not_found, conflict, forbidden, Result, ok, err}
use intell_api.Exec.Laws.{Result-cases}
use intell_api.Inverters.{Inverter}
use intell_api.Poller.Tracker.{
  Tracker, handle_control_message, handle_inverter_deregistered, is_valid_control_message, register,
  handle_inverter_registered,
}
use intell_api.Inverters.Service.{
  InverterBackend, registered_message, deregistered_message, has_id, inactive, found, find_one,
  notify, deactivate, deactivate_own, deactivate_inverter,
}

-- What the service publishes is what the poller understands: if the id is not empty, the message on
-- connecting makes the poller register the inverter that its query finds, and the message on
-- deactivating makes it deregister the id.
pub handle_control_message-registered_message :
    (find : String → Result (Option Inverter)) (i j : Inverter) (t : Tracker)
    → str_eq i.id "" ≡ false
    → find i.id ≡ ok (some j)
    → (handle_control_message find (some (registered_message i)) t ≡ register j t)
      × (handle_control_message find (some (deregistered_message i.id i)) t
          ≡ handle_inverter_deregistered i.id t)
unfolding handle_control_message handle_inverter_registered is_valid_control_message
    registered_message deregistered_message
handle_control_message-registered_message find i j t filled e =
    (rw (filled, e) refl, rw filled refl)

module _ (b : InverterBackend) where
  open b use {World, get, update, publish}

  -- How deactivating an inverter ends, by what the query for it gives: an error of the query is
  -- passed on; a missing inverter, another user's and an inactive one are refused, and nothing is
  -- changed; the user's own active one is set inactive, and if that succeeds the poller is told and
  -- the inverter comes back as inactive.
  pub deactivate_inverter_lem :
      (id user : String) (w : World)
      → ((e : Error) × (deactivate_inverter b id user w ≡ (err e, w))
          × ((i : Inverter)
              → get (has_id id) w ≡ ok (some i)
              → (i.user_id ≢ user) ⊎ (i.is_active ≡ false)))
        ⊎ ((i : Inverter) × (get (has_id id) w ≡ ok (some i))
            × (i.user_id ≡ user)
            × (i.is_active ≡ true)
            × ((w1 : World)
                → update (has_id id) inactive w ≡ (ok tt, w1)
                → deactivate_inverter b id user w
                  ≡ (ok (inactive i), (publish (deregistered_message id i) w1).1)))
  unfolding deactivate_inverter find_one found deactivate_own deactivate notify
  deactivate_inverter_lem id user w = elim (Result-cases (get (has_id id) w)) [
    | inr (x, e) ↦ inl (x, rw e refl, λ i h. absurd (ground (arith, e, h)))
    | inl (none, e) ↦ inl (
      not_found "The requested resource was not found",
      rw e refl,
      λ i h. absurd (ground (arith, e, h)),
    )
    | inl (some i, e) ↦ elim (Bool-cases (str_eq i.user_id user)) [
      | inr other ↦ inl (
        forbidden "You do not have permission to access this resource",
        rw (e, other) refl,
        λ j h. inl (λ o. absurd (ground (arith, e, h, (eq_iff j.user_id user).1 o))),
      )
      | inl own ↦ elim (Bool-cases i.is_active) [
        | inr off ↦ inl (
          conflict "This inverter is already deactivated",
          rw (e, own, off) refl,
          λ j h. inr (ground (arith, e, h, off)),
        )
        | inl on ↦ inr (i, e, (eq_iff i.user_id user).0 own, on, λ w1 u. rw (e, own, on, u) refl)
      ]
    ]
  ]
