-- ===== src/Inverters/Service/Tests.antt =====
-- The inverter service over a table that is a list of rows.
use intell_api.Prelude.{
  Bool, true, false, Option, none, some, List, [], ◌∷◌, map, any_of, find_first, keep, ◌≡◌, ◌≢◌,
  ◌⊎◌, refl, arith, ap, sym,
}
use intell_api.Prelude.Int.{pos}
use intell_api.Prelude.Distinct.{distinct}
use intell_api.Common.Enums.{growatt}
use intell_api.Exec.{Error, Result, ok, err}
use intell_api.Inverters.{Inverter}
use intell_api.Poller.Tracker.{
  Tracker, handle_control_message, register, handle_inverter_deregistered,
}
use intell_api.Inverters.Service.{
  InverterBackend, VerifiedSystem, NewInverter, InverterConnectorDto, has_id, inactive,
  registered_message, deregistered_message, deactivate_inverter, connect_inverter,
}
use intell_api.Inverters.Service.Serials.{
  InverterLaws, HasSerials, change, connect_inverter-HasSerials,
}
use intell_api.Inverters.Service.Control.{
  handle_control_message-registered_message, deactivate_inverter_lem,
}

abbrev row : NewInverter → Inverter
row c = record {
  id = "new";
  user_id = c.user_id;
  brand = c.brand;
  model = c.model;
  serial_number = c.serial_number;
  installation_id = some c.installation_id;
  encrypted_credentials = some c.encrypted_credentials;
  is_active = true;
  rated_capacity_kwh = c.rated_capacity_kwh;
  panel_capacity_kw = pos 0;
}

abbrev house_system : VerifiedSystem
house_system = record {
  model = "SPF 5000";
  serial_number = "SN1";
  installation_id = "plant";
  rated_capacity_kwh = pos 5000;
}

abbrev rows_backend : InverterBackend
rows_backend = record {
  World = List Inverter;
  get = λ p is. ok (find_first p is);
  find = λ p is. ok (keep p is);
  create = λ c is. (ok (row c), row c ∷ is);
  update = λ p f is. (ok tt, map (change p f) is);
  verify_victron = λ t is. (ok house_system, is);
  verify_sandbox = λ t is. (ok house_system, is);
  verify_growatt = λ t is. (ok house_system, is);
  verify_sunsynk = λ e p is. (ok house_system, is);
  encrypt = λ t is. (ok "secret", is);
  publish = λ m is. (ok tt, is);
}

find_first-none :
    (p : Inverter → Bool) (is : List Inverter)
    → ◌≡◌ {A = Result (Option Inverter)} (ok (find_first p is)) (ok none)
    → any_of p is ≡ false
find_first-none p [] h = refl
find_first-none p (i ∷ is) h = ground (arith, find_first-none p is)

never_failed :
    {A B : Type 0} (a : A) (w w' : List Inverter) (e : Error)
    → ◌≡◌ {A = Result A × List Inverter} (ok a, w) (err e, w')
    → {x y : B} → x ≡ y
never_failed {A = A} a w w' e h = absurd (cc (ap (λ (x : Result A × List Inverter). x.0) h))

created_row :
    (c : NewInverter) (w w' : List Inverter) (i : Inverter)
    → ◌≡◌ {A = Result Inverter × List Inverter} (ok (row c), row c ∷ w) (ok i, w')
    → (i.serial_number ≡ c.serial_number) × (w' ≡ i ∷ w)
created_row c w w' i h = (ground (arith, h), ground (arith, h))

abbrev rows_laws : InverterLaws rows_backend
rows_laws = record {
  rows = λ is. is;
  get_none = find_first-none;
  create_rows = created_row;
  create_failed = λ c w w' e h. never_failed _ _ _ _ h;
  update_rows = λ p f w w' h. sym (ap (λ (x : Result (Unit {0}) × List Inverter). x.1) h);
  update_failed = λ p f w w' e h. never_failed _ _ _ _ h;
  victron_rows = λ t w. refl;
  sandbox_rows = λ t w. refl;
  growatt_rows = λ t w. refl;
  sunsynk_rows = λ e p w. refl;
  encrypt_rows = λ t w. refl;
  publish_rows = λ m w. refl;
}

abbrev house : Inverter
house = record {
  id = "house";
  user_id = "ada";
  brand = growatt;
  model = "SPF 5000";
  serial_number = "SN1";
  installation_id = none;
  encrypted_credentials = none;
  is_active = true;
  rated_capacity_kwh = pos 5000;
  panel_capacity_kw = pos 4000;
}

abbrev connect_growatt : InverterConnectorDto
connect_growatt = record {
  brand = growatt;
  victron_access_token = [];
  sandbox_access_token = [];
  growatt_api_token = b't' ∷ [];
  solarman_email = [];
  solarman_password = [];
}

one_row : HasSerials rows_backend rows_laws (house ∷ [])
unfolding distinct
one_row = refl

connect_inverter-HasSerials_example :
    HasSerials rows_backend rows_laws
      (connect_inverter rows_backend connect_growatt "tunde" (house ∷ [])).1
connect_inverter-HasSerials_example =
    connect_inverter-HasSerials rows_backend rows_laws connect_growatt "tunde" (house ∷ []) one_row

-- The system is taken, so no row is added.
refused : (connect_inverter rows_backend connect_growatt "tunde" (house ∷ [])).1 ≡ house ∷ []
unfolding connect_inverter
refused = refl

deactivate_inverter_lem_example :
    ((e : Error) × (deactivate_inverter rows_backend "house" "ada" (house ∷ [])
        ≡ (err e, house ∷ []))
      × ((i : Inverter)
          → rows_backend.get (has_id "house") (house ∷ []) ≡ ok (some i)
          → (i.user_id ≢ "ada") ⊎ (i.is_active ≡ false)))
    ⊎ ((i : Inverter) × (rows_backend.get (has_id "house") (house ∷ []) ≡ ok (some i))
        × (i.user_id ≡ "ada")
        × (i.is_active ≡ true)
        × ((w1 : List Inverter)
            → rows_backend.update (has_id "house") inactive (house ∷ []) ≡ (ok tt, w1)
            → deactivate_inverter rows_backend "house" "ada" (house ∷ [])
              ≡ (ok (inactive i), (rows_backend.publish (deregistered_message "house" i) w1).1)))
deactivate_inverter_lem_example = deactivate_inverter_lem rows_backend "house" "ada" (house ∷ [])

abbrev no_inverters : Tracker
no_inverters = record {
  victron_inverters = [];
  growatt_inverters = [];
  sunsynk_inverters = [];
  sandbox_inverters = [];
  failure_counts = λ id. none;
}

handle_control_message-registered_message_example :
    (handle_control_message (λ id. ok (some house)) (some (registered_message house)) no_inverters
      ≡ register house no_inverters)
    × (handle_control_message
          (λ id. ok (some house))
          (some (deregistered_message "house" house))
          no_inverters
        ≡ handle_inverter_deregistered "house" no_inverters)
handle_control_message-registered_message_example =
    handle_control_message-registered_message (λ id. ok (some house)) house house no_inverters refl
      refl
