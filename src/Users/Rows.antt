-- ===== src/Users/Rows.antt =====
-- Rows of users and subscriptions, and how they are made and changed: the data-transfer objects and
-- payloads of modules/users/users.service.ts.
use intell_api.Prelude.{
  ℕ, ◌+◌, String, Bool, true, false, ◌&&◌, Option, none, some, List, [], ◌∷◌, ◌==◌, if◌then◌else◌,
  str_eq,
}
use intell_api.Common.Enums.{
  UserRole, user, free, SubscriptionStatus, subscription_status_place, plan_place,
}
use intell_api.Users.{User, Subscription}

pub record CreateUserDto : Type 0 where
  pub email : String
  pub password : String
  pub first_name : String
  pub last_name : String
  pub role : Option UserRole

pub record GoogleOAuthDto : Type 0 where
  pub email : String
  pub first_name : String
  pub last_name : String
  pub google_id : String

pub record UpdateUserDto : Type 0 where
  pub first_name : Option String
  pub last_name : Option String
  pub phone_number : Option String

abbrev pub has_id : String → User → Bool
has_id id u = str_eq u.id id

abbrev pub or_else {ℓ} : {A : Type ℓ} → Option A → A → A
or_else none d = d
or_else (some a) d = a

-- A row with the defaults of the entity's columns.
abbrev pub blank_user : String → String → String → String → ℕ → User
blank_user email first_name last_name id time = record {
  id = id;
  email = email;
  password_hash = none;
  first_name = first_name;
  last_name = last_name;
  google_id = none;
  email_verified = false;
  inverter_brand = none;
  onboarding_step = none;
  onboarding_complete = false;
  is_invited_user = false;
  is_active = false;
  last_login_at = none;
  role = user;
  admin_status = none;
  phone_number = none;
  created_at = time;
}

-- The payloads of creations.
unfoldable pub new_user : CreateUserDto → String → String → ℕ → User
new_user dto hash id time = record (blank_user dto.email dto.first_name dto.last_name id time) {
  password_hash = some hash;
  role = or_else dto.role user;
  onboarding_step = some 1;
}

unfoldable pub invited_user : CreateUserDto → String → String → ℕ → User
invited_user dto hash id time = record (blank_user dto.email dto.first_name dto.last_name id time) {
  password_hash = some hash;
  role = or_else dto.role user;
  onboarding_step = some 2;
  onboarding_complete = true;
  is_invited_user = true;
  is_active = true;
  email_verified = true;
}

unfoldable pub google_user : GoogleOAuthDto → String → ℕ → User
google_user dto id time = record (blank_user dto.email dto.first_name dto.last_name id time) {
  google_id = some dto.google_id;
  email_verified = true;
  onboarding_step = some 2;
}

unfoldable pub free_subscription : String → ℕ → String → ℕ → Subscription
free_subscription user_id started id time = record {
  id = id;
  user_id = user_id;
  plan = free;
  status = SubscriptionStatus.active;
  started_at = started;
  expires_at = none;
}

-- The payloads of updates.
unfoldable pub linked : String → User → User
linked google_id u = record u { google_id = some google_id; email_verified = true }

unfoldable pub with_names : UpdateUserDto → User → User
with_names dto u = record u {
  first_name = or_else dto.first_name u.first_name;
  last_name = or_else dto.last_name u.last_name;
  phone_number = elim dto.phone_number [ none ↦ u.phone_number | some n ↦ some n ];
}

unfoldable pub with_role : UserRole → User → User
with_role role u = record u { role = role }

unfoldable pub with_password : String → User → User
with_password hash u = record u { password_hash = some hash }

unfoldable pub verified : Bool → User → User
verified v u = record u { email_verified = v; onboarding_step = some (if v then 2 else 1) }

unfoldable pub onboarded : String → User → User
onboarded brand u = record u {
  onboarding_step = some 3;
  onboarding_complete = true;
  inverter_brand = some brand;
}

abbrev pub is_active_subscription : Subscription → Bool
is_active_subscription s = subscription_status_place s.status == 0

-- where: { userId, status: ACTIVE }
abbrev pub is_current : String → Subscription → Bool
is_current user_id s = str_eq s.user_id user_id && is_active_subscription s

pub record PlanCounts : Type 0 where
  pub free : ℕ
  pub paid : ℕ

-- The loop of getPlanCounts.
unfoldable pub count_plans : List Subscription → PlanCounts
count_plans [] = record { free = 0; paid = 0 }
count_plans (s ∷ rows) =
    let c = count_plans rows in
    if plan_place s.plan == 0
    then record c { free = c.free + 1 }
    else record c { paid = c.paid + 1 }
