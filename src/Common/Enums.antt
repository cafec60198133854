-- ===== src/Common/Enums.antt =====
-- common/enums: alert-type.ts, severity.enum.ts, resolution-status.enum.ts, inverter-brand.enum.ts,
-- user-role.ts, admin-status.enum.ts, subscription-plan.enum.ts, subscription-status.enum.ts and
-- generator.ts, and common/constants/processing-status.ts. `===` on an enumeration compares the places of two
-- members.
use intell_api.Prelude.{ℕ, String, Bool, true, ◌≡◌, ◌↔◌, ◌==◌, arith}

pub data AlertSeverity : Type 0 where
  low medium high warning critical none : AlertSeverity

pub data AlertType : Type 0 where
  battery_percentage battery_temperature energy other power solar_gen : AlertType
  inverter_fault inverter_temperature : AlertType

pub data AlertResolutionStatus : Type 0 where
  resolved unresolved : AlertResolutionStatus

pub data ProcessingStatus : Type 0 where
  pending processing failed successful : ProcessingStatus

pub data InverterBrand : Type 0 where
  victron growatt sunsynk deye sandbox : InverterBrand

pub data UserRole : Type 0 where
  admin super_admin user installer : UserRole

pub data AdminStatus : Type 0 where
  active invited disabled : AdminStatus

pub data SubscriptionPlan : Type 0 where
  free plus pro : SubscriptionPlan

pub data SubscriptionStatus : Type 0 where
  active trialing cancelled expired : SubscriptionStatus

pub data GeneratorFuelType : Type 0 where
  diesel pms : GeneratorFuelType

abbrev pub user_role_place : UserRole → ℕ
user_role_place admin = 0
user_role_place super_admin = 1
user_role_place user = 2
user_role_place installer = 3

abbrev pub user_role_eq : UserRole → UserRole → Bool
user_role_eq a b = user_role_place a == user_role_place b

abbrev pub subscription_status_place : SubscriptionStatus → ℕ
subscription_status_place SubscriptionStatus.active = 0
subscription_status_place trialing = 1
subscription_status_place cancelled = 2
subscription_status_place expired = 3

abbrev pub plan_place : SubscriptionPlan → ℕ
plan_place free = 0
plan_place plus = 1
plan_place pro = 2

abbrev pub severity_place : AlertSeverity → ℕ
severity_place low = 0
severity_place medium = 1
severity_place high = 2
severity_place warning = 3
severity_place critical = 4
severity_place AlertSeverity.none = 5

abbrev pub severity_eq : AlertSeverity → AlertSeverity → Bool
severity_eq a b = severity_place a == severity_place b

abbrev pub type_place : AlertType → ℕ
type_place battery_percentage = 0
type_place battery_temperature = 1
type_place energy = 2
type_place other = 3
type_place power = 4
type_place solar_gen = 5
type_place inverter_fault = 6
type_place inverter_temperature = 7

abbrev pub type_eq : AlertType → AlertType → Bool
type_eq a b = type_place a == type_place b

abbrev pub resolution_place : AlertResolutionStatus → ℕ
resolution_place resolved = 0
resolution_place unresolved = 1

abbrev pub brand_place : InverterBrand → ℕ
brand_place victron = 0
brand_place growatt = 1
brand_place sunsynk = 2
brand_place deye = 3
brand_place sandbox = 4

abbrev pub brand_eq : InverterBrand → InverterBrand → Bool
brand_eq a b = brand_place a == brand_place b

pub severity_eq_iff : (a b : AlertSeverity) → (severity_eq a b ≡ true) ↔ (a ≡ b)
severity_eq_iff a b = ground arith

pub type_eq_iff : (a b : AlertType) → (type_eq a b ≡ true) ↔ (a ≡ b)
type_eq_iff a b = ground arith

pub brand_eq_iff : (a b : InverterBrand) → (brand_eq a b ≡ true) ↔ (a ≡ b)
brand_eq_iff a b = ground arith

-- The text of a member, as it stands in messages.
unfoldable pub severity_text : AlertSeverity → String
severity_text low = "LOW"
severity_text medium = "MEDIUM"
severity_text high = "HIGH"
severity_text warning = "WARNING"
severity_text critical = "CRITICAL"
severity_text AlertSeverity.none = "NONE"

unfoldable pub type_text : AlertType → String
type_text battery_percentage = "BATTERY_PERCENTAGE"
type_text battery_temperature = "BATTERY_TEMPERATURE"
type_text energy = "ENERGY"
type_text other = "OTHER"
type_text power = "POWER"
type_text solar_gen = "SOLAR_GEN"
type_text inverter_fault = "INVERTER_FAULT"
type_text inverter_temperature = "INVERTER_TEMPERATURE"

unfoldable pub brand_text : InverterBrand → String
brand_text victron = "VICTRON"
brand_text growatt = "GROWATT"
brand_text sunsynk = "SUNSYNK"
brand_text deye = "DEYE"
brand_text sandbox = "SANDBOX"

-- brand.toLowerCase()
unfoldable pub brand_lower : InverterBrand → String
brand_lower victron = "victron"
brand_lower growatt = "growatt"
brand_lower sunsynk = "sunsynk"
brand_lower deye = "deye"
brand_lower sandbox = "sandbox"
