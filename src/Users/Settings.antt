-- ===== src/Users/Settings.antt =====
-- The settings of modules/users/users.service.ts, and actions/user-settings.action.ts.
use intell_api.Prelude.{
  ℕ, String, Bool, true, false, not, ◌||◌, Option, none, some, if◌then◌else◌, str_eq,
}
use intell_api.Prelude.Int.{pos}
use intell_api.Prelude.Text.{eq_ignoring_case}
use intell_api.Exec.{Result, ok, Exec, pure, query, ◌>>=◌, ◌>>◌}
use intell_api.Common.Enums.{GeneratorFuelType, diesel, pms}
use intell_api.Users.{User, UserSettings}
use intell_api.Users.Accounts.{AccountsBackend, required}
use intell_api.Users.Service.{find_one, resource_not_found, server_error}
use intell_api.Users.Rows.{has_id, or_else}

pub record UpdateUserPersonalSettingsDto : Type 0 where
  pub first_name : Option String
  pub last_name : Option String
  pub profile_url : Option String
  pub business_name : Option String
  pub business_type : Option String
  pub state : Option String
  pub city : Option String
  pub ai_language : Option String
  pub custom_fuel_price_naira : Option ℕ
  pub generator_rated_power_kw : Option ℕ
  pub generator_fuel_type : Option String
  pub generator_average_daily_runtime_hours : Option ℕ

-- isValidGeneratorType(t), with the member that t.toUpperCase() is.
unfoldable pub generator_type : String → Option GeneratorFuelType
generator_type t =
    if eq_ignoring_case t "DIESEL"
    then some diesel
    else if eq_ignoring_case t "PMS"
    then some pms
    else none

abbrev fuel_of : Option String → Option GeneratorFuelType
fuel_of none = none
fuel_of (some t) = generator_type t

abbrev is_given {ℓ} : {A : Type ℓ} → Option A → Bool
is_given none = false
is_given (some a) = true

-- A column that the payload names, or the column as it was.
abbrev column {ℓ} : {A : Type ℓ} → Option A → Option A → Option A
column none old = old
column (some a) old = some a

-- Object.keys(updatePayload).length === 0
unfoldable pub is_empty_payload : UpdateUserPersonalSettingsDto → Bool
unfolding generator_type
is_empty_payload dto = not (
    is_given dto.profile_url
    || (is_given dto.business_name
        || (is_given dto.business_type
            || (is_given dto.state
                || (is_given dto.city
                    || (is_given dto.ai_language
                        || (is_given dto.custom_fuel_price_naira
                            || (is_given dto.generator_rated_power_kw
                                || (is_given (fuel_of dto.generator_fuel_type)
                                    || is_given dto.generator_average_daily_runtime_hours)))))))))

-- The payload of the update, as the change of a row.
unfoldable pub with_settings : UpdateUserPersonalSettingsDto → UserSettings → UserSettings
unfolding generator_type
with_settings dto s = record s {
  profile_url = column dto.profile_url s.profile_url;
  business_name = column dto.business_name s.business_name;
  business_type = column dto.business_type s.business_type;
  state = column dto.state s.state;
  city = column dto.city s.city;
  ai_language = column dto.ai_language s.ai_language;
  custom_fuel_price_naira = column dto.custom_fuel_price_naira s.custom_fuel_price_naira;
  generator_rated_power_kw = column dto.generator_rated_power_kw s.generator_rated_power_kw;
  generator_fuel_type = or_else (fuel_of dto.generator_fuel_type) s.generator_fuel_type;
  generator_average_daily_runtime_hours =
      column dto.generator_average_daily_runtime_hours s.generator_average_daily_runtime_hours;
}

-- A row with the defaults of the entity's columns.
abbrev blank_settings : String → String → ℕ → UserSettings
blank_settings user_id id time = record {
  id = id;
  user_id = user_id;
  profile_url = none;
  business_name = none;
  business_type = none;
  state = none;
  city = none;
  ai_language = none;
  generator_fuel_type = pms;
  generator_rated_power_kw = none;
  custom_fuel_price_naira = none;
  generator_average_daily_runtime_hours = none;
  whatsapp_alerts = some false;
  email_alerts = some true;
  quiet_hours_start = none;
  quiet_hours_end = none;
  timezone = none;
  alert_cooldown_minutes = some (pos 15);
  depletion_threshold = some (pos 10000);
}

unfoldable pub new_settings : UpdateUserPersonalSettingsDto → String → String → ℕ → UserSettings
unfolding with_settings
new_settings dto user_id id time = with_settings dto (blank_settings user_id id time)

-- The payload for the user: the names that are given.
unfoldable pub with_given_names : UpdateUserPersonalSettingsDto → User → User
with_given_names dto u = record u {
  first_name = or_else dto.first_name u.first_name;
  last_name = or_else dto.last_name u.last_name;
}

module _ {W : Type 0} (b : AccountsBackend W) where
  open b use {users, settings}

  unfoldable pub find_settings_by_user_id : String → W → Result (Option UserSettings)
  find_settings_by_user_id user_id = settings.get (λ s. str_eq s.user_id user_id)

  unfoldable pub update_names : String → UpdateUserPersonalSettingsDto → Exec W (Unit {0})
  unfolding with_given_names
  update_names user_id dto =
      if is_given dto.first_name || is_given dto.last_name
      then (do
        updated ← users.update (has_id user_id) (with_given_names dto)
        _ ← query (required server_error updated)
        pure tt)
      else pure tt

  unfoldable pub save_settings :
      String → UpdateUserPersonalSettingsDto → Option UserSettings → Exec W UserSettings
  unfolding new_settings with_settings is_empty_payload
  save_settings user_id dto none = settings.create (new_settings dto user_id)
  save_settings user_id dto (some s) = if is_empty_payload dto then pure s else (do
    updated ← settings.update (λ x. str_eq x.id s.id) (with_settings dto)
    query (required server_error updated))

  unfoldable pub update_personal_settings :
      String → UpdateUserPersonalSettingsDto → Exec W UserSettings
  unfolding update_names find_settings_by_user_id save_settings
  update_personal_settings user_id dto = do
    update_names user_id dto
    found ← query (find_settings_by_user_id user_id)
    u ← find_one b user_id
    save_settings u.id dto found

  unfoldable pub get_user_settings : String → Exec W UserSettings
  unfolding find_settings_by_user_id
  get_user_settings user_id = do
    found ← query (find_settings_by_user_id user_id)
    query (required resource_not_found found)

  -- getUserSetting, of a column.
  unfoldable pub get_user_setting {ℓ} :
      {A : Type ℓ} → String → (UserSettings → A) → W → Result (Option A)
  get_user_setting user_id column_ w = elim (find_settings_by_user_id user_id w) [
    | Result.err e ↦ Result.err e
    | ok none ↦ ok none
    | ok (some s) ↦ ok (some (column_ s))
  ]
