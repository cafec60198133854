-- ===== src/Inverters.antt =====
-- modules/inverters: the columns of entities/inverters.entity.ts and the reading of
-- types/shared.types.ts that the modelled code uses. Quantities are in thousandths.
pub mod Service
use intell_api.Prelude.{ℕ, String, Bool, Option}
use intell_api.Prelude.Int.{ℤ}
use intell_api.Common.Enums.{InverterBrand}

pub record Inverter : Type 0 where
  pub id : String
  pub user_id : String
  pub brand : InverterBrand
  pub model : String
  pub serial_number : String
  pub installation_id : Option String
  pub encrypted_credentials : Option String
  pub is_active : Bool
  pub rated_capacity_kwh : ℤ
  pub panel_capacity_kw : ℤ

pub record NormalisedMetric : Type 0 where
  pub inverter_id : String
  pub inverter_brand : InverterBrand
  pub recorded_at : ℕ
  pub inverter_status : String
  pub solar_power_kw : Option ℤ
  pub ac_output_power_kw : Option ℤ
  pub grid_voltage_v : Option ℤ
  pub grid_frequency_hz : Option ℤ
  pub battery_soc : Option ℤ
  pub battery_voltage_v : Option ℤ
  pub battery_current_a : Option ℤ
  pub battery_temperature_c : Option ℤ
  pub battery_time_to_go_min : Option ℤ
  pub inverter_temperature_c : Option ℤ
  pub pv_string1_power_kw : Option ℤ
  pub pv_string2_power_kw : Option ℤ
  pub energy_generated_today_kwh : Option ℤ
  pub total_energy_generated_kwh : Option ℤ
  pub battery_charged_today_kwh : Option ℤ
  pub battery_discharged_today_kwh : Option ℤ
  pub grid_export_today_kwh : Option ℤ
  pub grid_import_today_kwh : Option ℤ
