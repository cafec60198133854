-- ===== src/Users/Service.antt =====
-- modules/users/users.service.ts without sessions, settings and administrators, with
-- actions/users.action.ts and actions/subscription.action.ts.
pub mod Subscriptions
pub mod Changes
use intell_api.Prelude.{
  ℕ, String, Bool, true, false, not, ◌&&◌, Option, none, some, List, ltb, if◌then◌else◌, str_eq,
}
use intell_api.Exec.{
  Error, not_found, conflict, internal, Result, Exec, pure, throw, query, ◌>>=◌, ◌>>◌,
}
use intell_api.Common.Enums.{UserRole, user, brand_text}
use intell_api.Inverters.Service.{InverterConnectorDto, Connected}
use intell_api.Users.{User, Subscription}
use intell_api.Users.Accounts.{AccountsBackend, required}
use intell_api.Users.Sessions.{current_time}
use intell_api.Users.Rows.{
  CreateUserDto, GoogleOAuthDto, UpdateUserDto, has_id, or_else, new_user, invited_user,
  google_user, free_subscription, linked, with_names, with_role, with_password, verified, onboarded,
  is_active_subscription, is_current, PlanCounts, count_plans,
}

abbrev pub resource_not_found : Error
resource_not_found = not_found "The requested resource was not found"

abbrev pub resource_conflict : Error
resource_conflict = conflict "The request conflicts with the current resource state"

abbrev pub server_error : Error
server_error = internal "An unexpected server error occurred"

pub record OnboardingStatus : Type 0 where
  pub current_step : ℕ
  pub onboarding_complete : Bool
  pub email_verified : Bool
  pub inverter_connected : Bool

module _ {W : Type 0} (b : AccountsBackend W) where
  open b use {
    now, users, subscriptions, email_eq, insert_or_update, newest_subscription, newest_of_each_user,
    bcrypt_hash, connect_inverter,
  }

  unfoldable pub find_by_email : String → W → Result (Option User)
  find_by_email email = users.get (λ u. email_eq u.email email)

  unfoldable pub find_by_google_id : String → W → Result (Option User)
  find_by_google_id google_id =
      users.get (λ u. elim u.google_id [ none ↦ false | some g ↦ str_eq g google_id ])

  unfoldable pub free_address : Option User → String → Exec W String
  free_address (some existing) password = throw resource_conflict
  free_address none password = bcrypt_hash password

  unfoldable pub validate_and_hash_password : CreateUserDto → Exec W String
  unfolding find_by_email free_address
  validate_and_hash_password dto = do
    existing ← query (find_by_email dto.email)
    free_address existing dto.password

  unfoldable pub create : CreateUserDto → Exec W User
  unfolding validate_and_hash_password
  create dto = do hash ← validate_and_hash_password dto; users.create (new_user dto hash)

  unfoldable pub create_team_invited_user : CreateUserDto → Exec W User
  unfolding validate_and_hash_password
  create_team_invited_user dto = do
    hash ← validate_and_hash_password dto
    users.create (invited_user dto hash)

  unfoldable pub find_one : String → Exec W User
  find_one id = do found ← query (users.get (has_id id)); query (required resource_not_found found)

  unfoldable pub upsert_by_google : GoogleOAuthDto → Exec W User
  upsert_by_google dto = do
    id ← insert_or_update (google_user dto) (linked dto.google_id)
    found ← query (users.get (has_id id))
    query (required (internal "Failed to load upserted user") found)

  -- existingByEmail?.googleId && existingByEmail.googleId !== dto.googleId
  abbrev other_account : Option String → String → Bool
  other_account none google_id = false
  other_account (some g) google_id = not (str_eq g "") && not (str_eq g google_id)

  unfoldable pub link_or_create : GoogleOAuthDto → Option User → Exec W User
  unfolding upsert_by_google
  link_or_create dto none = upsert_by_google dto
  link_or_create dto (some existing) =
      if other_account existing.google_id dto.google_id
      then throw (conflict "This email is already linked to a different Google account")
      else upsert_by_google dto

  unfoldable pub google_account : GoogleOAuthDto → Option User → Exec W User
  unfolding link_or_create find_by_email
  google_account dto (some existing) = pure existing
  google_account dto none = do
    existing_by_email ← query (find_by_email dto.email)
    link_or_create dto existing_by_email

  unfoldable pub find_or_create_by_google : GoogleOAuthDto → Exec W User
  unfolding google_account find_by_google_id
  find_or_create_by_google dto = do
    existing ← query (find_by_google_id dto.google_id)
    google_account dto existing

  unfoldable pub find_all : ℕ → ℕ → W → Result (List User)
  find_all page limit = users.find (λ _. true) page limit

  -- update, promoteUser and updatePasswordHash: a change of the user who must be there.
  unfoldable pub change_user : String → (User → User) → Exec W User
  unfolding find_one
  change_user id f = do
    _ ← find_one id
    updated ← users.update (has_id id) f
    query (required server_error updated)

  unfoldable pub update : String → UpdateUserDto → Exec W User
  unfolding change_user
  update id dto = change_user id (with_names dto)

  unfoldable pub promote_user : String → UserRole → Exec W User
  unfolding change_user
  promote_user id role = change_user id (with_role role)

  unfoldable pub update_password_hash : String → String → Exec W User
  unfolding change_user
  update_password_hash id hash = change_user id (with_password hash)

  unfoldable pub remove : String → Exec W (Unit {0})
  unfolding find_one
  remove id = do _ ← find_one id; users.delete (has_id id)

  unfoldable pub set_email_verified : String → Bool → Exec W (Unit {0})
  set_email_verified id v = do _ ← users.update (has_id id) (verified v); pure tt

  unfoldable pub connect_user_inverter : InverterConnectorDto → String → Exec W Connected
  connect_user_inverter dto user_id = do
    result ← connect_inverter dto user_id
    _ ← users.update (has_id user_id) (onboarded (brand_text dto.brand))
    pure result

  unfoldable pub get_onboarding_status : String → Exec W OnboardingStatus
  unfolding find_one
  get_onboarding_status id = do
    u ← find_one id
    pure (record {
      current_step = or_else u.onboarding_step 1;
      onboarding_complete = u.onboarding_complete;
      email_verified = u.email_verified;
      inverter_connected = u.onboarding_complete;
    })

  unfoldable pub get_current_subscription : String → W → Result (Option Subscription)
  get_current_subscription user_id = newest_subscription (is_current user_id)

  unfoldable pub subscribe_unless : User → Option Subscription → Exec W Subscription
  subscribe_unless u (some existing) = throw resource_conflict
  subscribe_unless u none = do
    time ← current_time b
    subscriptions.create (free_subscription u.id time)

  unfoldable pub create_free_subscription : String → Exec W Subscription
  unfolding find_one get_current_subscription subscribe_unless
  create_free_subscription user_id = do
    u ← find_one user_id
    existing ← query (get_current_subscription user_id)
    subscribe_unless u existing

  unfoldable pub get_plan_counts : Exec W PlanCounts
  get_plan_counts = do
    time ← current_time b
    rows ← query (
        newest_of_each_user (λ s.
          is_active_subscription s && elim s.expires_at [ none ↦ true | some t ↦ ltb time t ]))
    pure (count_plans rows)
