-- ===== src/Users.antt =====
-- modules/users/entities: the columns of user.entity.ts, user-settings.entity.ts,
-- sessions.entity.ts and subscription.entity.ts. Nullable columns are options; decimal numbers are
-- in thousandths.
pub mod Accounts
pub mod Sessions
pub mod Rows
pub mod Service
pub mod Settings
pub mod Admins
use intell_api.Prelude.{ℕ, String, Bool, Option}
use intell_api.Prelude.Int.{ℤ}
use intell_api.Common.Enums.{
  UserRole, AdminStatus, SubscriptionPlan, SubscriptionStatus, GeneratorFuelType,
}
use intell_api.Alerts.QuietHours.{ClockTime, UtcOffset}

pub record User : Type 0 where
  pub id : String
  pub email : String
  pub password_hash : Option String
  pub first_name : String
  pub last_name : String
  pub google_id : Option String
  pub email_verified : Bool
  pub inverter_brand : Option String
  pub onboarding_step : Option ℕ
  pub onboarding_complete : Bool
  pub is_invited_user : Bool
  pub is_active : Bool
  pub last_login_at : Option ℕ
  pub role : UserRole
  pub admin_status : Option AdminStatus
  pub phone_number : Option String
  pub created_at : ℕ

pub record UserSettings : Type 0 where
  pub id : String
  pub user_id : String
  pub profile_url : Option String
  pub business_name : Option String
  pub business_type : Option String
  pub state : Option String
  pub city : Option String
  pub ai_language : Option String
  pub generator_fuel_type : GeneratorFuelType
  pub generator_rated_power_kw : Option ℕ
  pub custom_fuel_price_naira : Option ℕ
  pub generator_average_daily_runtime_hours : Option ℕ
  pub whatsapp_alerts : Option Bool
  pub email_alerts : Option Bool
  pub quiet_hours_start : Option ClockTime
  pub quiet_hours_end : Option ClockTime
  pub timezone : Option UtcOffset
  pub alert_cooldown_minutes : Option ℤ
  pub depletion_threshold : Option ℤ

pub record Session : Type 0 where
  pub id : String
  pub user_id : String
  pub refresh_token_hash : Option String
  pub device_name : Option String
  pub platform : Option String
  pub device_token : Option String
  pub last_activity_at : ℕ
  pub expires_at : Option ℕ
  pub is_active : Bool
  pub ip_address : Option String
  pub user_agent : Option String
  pub created_at : ℕ

pub record Subscription : Type 0 where
  pub id : String
  pub user_id : String
  pub plan : SubscriptionPlan
  pub status : SubscriptionStatus
  pub started_at : ℕ
  pub expires_at : Option ℕ
