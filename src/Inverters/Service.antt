-- ===== src/Inverters/Service.antt =====
-- modules/inverters/inverters.service.ts and action/inverters.action.ts. Credentials are lists of
-- characters; the fields of the body that its brand requires are there.
pub mod Serials
pub mod Control
mod Tests
use intell_api.Prelude.{
  ℕ, String, Bool, true, false, not, ◌&&◌, Option, none, some, List, [], ◌∷◌, if◌then◌else◌, str_eq,
}
use intell_api.Prelude.Int.{ℤ}
use intell_api.Prelude.Text.{◌&◌}
use intell_api.Common.Enums.{InverterBrand, victron, growatt, sunsynk, deye, sandbox, brand_text}
use intell_api.Exec.{
  not_found, conflict, forbidden, Result, ok, Exec, pure, throw, query, ◌>>=◌, ◌>>◌,
}
use intell_api.Inverters.{Inverter}
use intell_api.Poller.Tracker.{ControlMessage}
use intell_api.Poller.Credentials.{raw_credential}

pub record VerifiedSystem : Type 0 where
  pub model : String
  pub serial_number : String
  pub installation_id : String
  pub rated_capacity_kwh : ℤ

-- What `create` is given; the API type has one value only.
pub record NewInverter : Type 0 where
  pub user_id : String
  pub model : String
  pub brand : InverterBrand
  pub serial_number : String
  pub installation_id : String
  pub rated_capacity_kwh : ℤ
  pub encrypted_credentials : String

pub record InverterConnectorDto : Type 0 where
  pub brand : InverterBrand
  pub victron_access_token : List ℕ
  pub sandbox_access_token : List ℕ
  pub growatt_api_token : List ℕ
  pub solarman_email : List ℕ
  pub solarman_password : List ℕ

pub record Connected : Type 0 where
  pub inverter : Inverter
  pub created : Bool

-- The model action over the table of inverters, the adapters, the cipher and the publisher.
pub record InverterBackend : Type 1 where
  pub World : Type 0
  pub get : (Inverter → Bool) → World → Result (Option Inverter)
  pub find : (Inverter → Bool) → World → Result (List Inverter)
  pub create : NewInverter → Exec World Inverter
  pub update : (Inverter → Bool) → (Inverter → Inverter) → Exec World (Unit {0})
  -- The calls of the brands' own services.
  pub verify_victron : List ℕ → Exec World VerifiedSystem
  pub verify_sandbox : List ℕ → Exec World VerifiedSystem
  pub verify_growatt : List ℕ → Exec World VerifiedSystem
  pub verify_sunsynk : List ℕ → List ℕ → Exec World VerifiedSystem
  -- SecretManager.encrypt, with a random vector
  pub encrypt : List ℕ → Exec World String
  -- pubsubService.publish(INVERTER_CONTROL_CHANNEL, JSON.stringify(message))
  pub publish : ControlMessage → Exec World (Unit {0})

abbrev pub has_id : String → Inverter → Bool
has_id id i = str_eq i.id id

abbrev pub has_serial : String → Inverter → Bool
has_serial s i = str_eq i.serial_number s

unfoldable pub registered_message : Inverter → ControlMessage
registered_message i = record {
  event = some "registered";
  inverter_id = some i.id;
  brand = some (brand_text i.brand);
}

unfoldable pub deregistered_message : String → Inverter → ControlMessage
deregistered_message id i = record {
  event = some "deregistered";
  inverter_id = some id;
  brand = some (brand_text i.brand);
}

abbrev pub inactive : Inverter → Inverter
inactive i = record i { is_active = false }

unfoldable pub new_inverter :
    VerifiedSystem → InverterBrand → String → String → String → NewInverter
new_inverter system brand serial user_id credentials = record {
  user_id = user_id;
  model = system.model;
  brand = brand;
  serial_number = serial;
  installation_id = system.installation_id;
  rated_capacity_kwh = system.rated_capacity_kwh;
  encrypted_credentials = credentials;
}

abbrev pub sandbox_serial : VerifiedSystem → String → String
sandbox_serial system user_id = system.serial_number & "-" & user_id

module _ (b : InverterBackend) where
  open b use {
    World, get, find, create, update, verify_victron, verify_sandbox, verify_growatt,
    verify_sunsynk, encrypt, publish,
  }

  unfoldable pub find_by_serial_number : String → World → Result (Option Inverter)
  find_by_serial_number serial = get (has_serial serial)

  -- A row for a system whose serial number is free.
  unfoldable pub create_inverter :
      VerifiedSystem → InverterBrand → String → List ℕ → String → Exec World Inverter
  create_inverter system brand serial credential user_id = do
    encrypted ← encrypt credential
    create (new_inverter system brand serial user_id encrypted)

  unfoldable pub persist_unless :
      VerifiedSystem → InverterBrand → List ℕ → String → Option Inverter → Exec World Inverter
  unfolding create_inverter
  persist_unless system brand credential user_id (some existing) =
      throw (
        conflict ("This " & brand_text brand & " installation is already connected to an account."))
  persist_unless system brand credential user_id none =
      create_inverter system brand system.serial_number credential user_id

  unfoldable pub persist_inverter :
      VerifiedSystem → InverterBrand → List ℕ → String → Exec World Inverter
  unfolding persist_unless find_by_serial_number
  persist_inverter system brand credential user_id = do
    existing ← query (find_by_serial_number system.serial_number)
    persist_unless system brand credential user_id existing

  unfoldable pub persist_sandbox_unless :
      VerifiedSystem → List ℕ → String → Option Inverter → Exec World Connected
  unfolding create_inverter
  persist_sandbox_unless system credential user_id (some existing) =
      pure (record { inverter = existing; created = false })
  persist_sandbox_unless system credential user_id none = do
    inverter ← create_inverter system sandbox (sandbox_serial system user_id) credential user_id
    pure (record { inverter = inverter; created = true })

  unfoldable pub persist_sandbox_inverter : VerifiedSystem → List ℕ → String → Exec World Connected
  unfolding persist_sandbox_unless find_by_serial_number
  persist_sandbox_inverter system credential user_id = do
    existing ← query (find_by_serial_number (sandbox_serial system user_id))
    persist_sandbox_unless system credential user_id existing

  -- connectVictronInverter, connectGrowattInverter and connectSunsynkInverter
  unfoldable pub connect_verified :
      Exec World VerifiedSystem → InverterBrand → List ℕ → String → Exec World Connected
  unfolding persist_inverter
  connect_verified verify brand credential user_id = do
    system ← verify
    inverter ← persist_inverter system brand credential user_id
    pure (record { inverter = inverter; created = true })

  unfoldable pub connect_sandbox_inverter : List ℕ → String → Exec World Connected
  unfolding persist_sandbox_inverter
  connect_sandbox_inverter token user_id = do
    system ← verify_sandbox token
    persist_sandbox_inverter system token user_id

  -- The `switch` of connectInverterWithMeta.
  unfoldable pub connect_brand :
      InverterBrand → InverterConnectorDto → String → Exec World Connected
  unfolding connect_verified connect_sandbox_inverter
  connect_brand victron dto user_id =
      connect_verified (verify_victron dto.victron_access_token) victron dto.victron_access_token
        user_id
  connect_brand growatt dto user_id =
      connect_verified (verify_growatt dto.growatt_api_token) growatt dto.growatt_api_token user_id
  connect_brand sunsynk dto user_id =
      connect_verified (verify_sunsynk dto.solarman_email dto.solarman_password) sunsynk
        (raw_credential dto.solarman_email dto.solarman_password) user_id
  connect_brand sandbox dto user_id = connect_sandbox_inverter dto.sandbox_access_token user_id
  connect_brand deye dto user_id = throw (conflict "Unsupported inverter brand: DEYE")

  -- publish(…).catch(…): nobody waits, and an error is only logged.
  unfoldable pub notify : ControlMessage → Exec World (Unit {0})
  notify message w = (ok tt, (publish message w).1)

  unfoldable pub announce : Connected → Exec World Connected
  unfolding notify
  announce c = if c.created then (do notify (registered_message c.inverter); pure c) else pure c

  unfoldable pub connect_inverter : InverterConnectorDto → String → Exec World Connected
  unfolding connect_brand announce
  connect_inverter dto user_id = do
    connected ← connect_brand dto.brand dto user_id
    announce connected

  unfoldable pub find_by_user_id : String → Exec World (List Inverter)
  find_by_user_id user_id = query (find (λ i. str_eq i.user_id user_id && i.is_active))

  unfoldable pub found : Option Inverter → Exec World Inverter
  found none = throw (not_found "The requested resource was not found")
  found (some i) = pure i

  unfoldable pub find_one : String → Exec World Inverter
  unfolding found
  find_one id = do inverter ← query (get (has_id id)); found inverter

  -- After the checks of deactivateInverter.
  unfoldable pub deactivate : String → Inverter → Exec World Inverter
  unfolding notify
  deactivate id i = do
    update (has_id id) inactive
    notify (deregistered_message id i)
    pure (inactive i)

  unfoldable pub deactivate_own : String → String → Inverter → Exec World Inverter
  unfolding deactivate
  deactivate_own id user_id i =
      if not (str_eq i.user_id user_id)
      then throw (forbidden "You do not have permission to access this resource")
      else if not i.is_active
      then throw (conflict "This inverter is already deactivated")
      else deactivate id i

  unfoldable pub deactivate_inverter : String → String → Exec World Inverter
  unfolding deactivate_own find_one
  deactivate_inverter inverter_id user_id = do
    inverter ← find_one inverter_id
    deactivate_own inverter_id user_id inverter

  abbrev pub get_supported_inverter_brands : List InverterBrand
  get_supported_inverter_brands = victron ∷ growatt ∷ sunsynk ∷ deye ∷ sandbox ∷ []
