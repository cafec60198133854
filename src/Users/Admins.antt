-- ===== src/Users/Admins.antt =====
-- The super administrator's part of modules/users/users.service.ts.
pub mod Filters
use intell_api.Prelude.{
  ℕ, ◌*◌, String, Bool, true, false, not, ◌&&◌, ◌||◌, Option, none, some, List, ltb, ◌==◌,
  if◌then◌else◌, str_eq,
}
use intell_api.Exec.{Result, Exec, pure, throw, query, ◌>>=◌}
use intell_api.Common.Enums.{
  UserRole, admin, super_admin, user, user_role_eq, AdminStatus, SubscriptionPlan, plan_place,
}
use intell_api.Users.{User, UserSettings}
use intell_api.Users.Accounts.{AccountsBackend, required}
use intell_api.Users.Service.{find_by_email, resource_not_found, resource_conflict}
use intell_api.Users.Rows.{has_id, or_else, blank_user}

pub data UserStatusFilter : Type 0 where
  active inactive pending : UserStatusFilter

pub record QuerySuperAdminUsersDto : Type 0 where
  pub page : Option ℕ
  pub limit : Option ℕ
  pub search : Option String
  pub plan : Option SubscriptionPlan
  pub status : Option UserStatusFilter
  pub state : Option String

pub record QueryAdminUsersDto : Type 0 where
  pub page : Option ℕ
  pub limit : Option ℕ
  pub search : Option String
  pub role : Option UserRole
  pub status : Option AdminStatus

pub record PaginationMeta : Type 0 where
  pub total : ℕ
  pub page : ℕ
  pub limit : ℕ
  pub has_next : Bool
  pub has_prev : Bool

pub record UserPage : Type 0 where
  pub payload : List User
  pub pagination_meta : Option PaginationMeta

pub record CreateAdminDto : Type 0 where
  pub first_name : String
  pub last_name : String
  pub email : String
  pub role : UserRole

abbrev admin_status_place : AdminStatus → ℕ
admin_status_place AdminStatus.active = 0
admin_status_place AdminStatus.invited = 1
admin_status_place AdminStatus.disabled = 2

abbrev has_status : Option UserStatusFilter → User → Bool
has_status none u = true
has_status (some active) u = u.is_active
has_status (some inactive) u = not u.is_active
has_status (some pending) u = not u.email_verified

-- query.state && { settings: { state: query.state } }: a user without settings is joined to none.
abbrev is_state : String → Option UserSettings → Bool
is_state st none = false
is_state st (some s) = elim s.state [ none ↦ false | some t ↦ str_eq t st ]

abbrev has_state : Option String → Option UserSettings → Bool
has_state none s = true
has_state (some st) s = if str_eq st "" then true else is_state st s

-- The test of `base`.
unfoldable pub is_base : QuerySuperAdminUsersDto → User → Option UserSettings → Bool
is_base q u s = has_status q.status u && (has_state q.state s && user_role_eq u.role user)

module _ (ilike : String → String → Bool) where
  -- where.push({ ...base, firstName }, { ...base, lastName }, { ...base, email }), or base alone.
  unfoldable pub is_listed :
      QuerySuperAdminUsersDto → Option String → User → Option UserSettings → Bool
  unfolding is_base
  is_listed q none u s = is_base q u s
  is_listed q (some t) u s =
      if str_eq t ""
      then is_base q u s
      else (is_base q u s && ilike u.first_name t)
        || ((is_base q u s && ilike u.last_name t) || (is_base q u s && ilike u.email t))

  abbrev matches_search : Option String → User → Bool
  matches_search none u = true
  matches_search (some t) u =
      if str_eq t "" then true else ilike u.first_name t || (ilike u.last_name t || ilike u.email t)

  -- The conditions that the query builder joins, in their order.
  unfoldable pub is_listed_with_plan :
      QuerySuperAdminUsersDto
      → SubscriptionPlan
      → User
      → Option UserSettings
      → SubscriptionPlan
      → Bool
  is_listed_with_plan q wanted u s plan =
      user_role_eq u.role user
      && (plan_place plan == plan_place wanted
          && (has_status q.status u && (has_state q.state s && matches_search q.search u)))

  abbrev is_admin : Option UserRole → User → Bool
  is_admin none u = user_role_eq u.role admin || user_role_eq u.role super_admin
  is_admin (some r) u = user_role_eq u.role r

  abbrev has_admin_status : Option AdminStatus → User → Bool
  has_admin_status none u = true
  has_admin_status (some s) u = elim u.admin_status [
    | none ↦ false
    | some t ↦ admin_status_place t == admin_status_place s
  ]

  unfoldable pub is_listed_admin : QueryAdminUsersDto → User → Bool
  is_listed_admin q u =
      (is_admin q.role u && has_admin_status q.status u) && matches_search q.search u

unfoldable pub pagination_meta_of : ℕ → ℕ → ℕ → PaginationMeta
pagination_meta_of total page limit = record {
  total = total;
  page = page;
  limit = limit;
  has_next = ltb (page * limit) total;
  has_prev = ltb 1 page;
}

unfoldable pub invited_admin : CreateAdminDto → String → ℕ → User
invited_admin dto id time = record (blank_user dto.email dto.first_name dto.last_name id time) {
  role = dto.role;
  admin_status = some AdminStatus.invited;
  onboarding_step = some 1;
}

module _ {W : Type 0} (b : AccountsBackend W) where
  open b use {users, ilike, list_with_settings, list_with_plan}

  unfoldable pub list_by : QuerySuperAdminUsersDto → Option SubscriptionPlan → Exec W UserPage
  unfolding pagination_meta_of is_listed is_listed_with_plan
  list_by q none = do
    rows ←
        query
          (list_with_settings (is_listed ilike q q.search) (or_else q.page 1) (or_else q.limit 20))
    pure (record { payload = rows; pagination_meta = none })
  list_by q (some plan) = do
    found ←
        query (
          list_with_plan (is_listed_with_plan ilike q plan) (or_else q.page 1) (or_else q.limit 20))
    pure (record {
      payload = found.0;
      pagination_meta = some (pagination_meta_of found.1 (or_else q.page 1) (or_else q.limit 20));
    })

  unfoldable pub admin_list_users : QuerySuperAdminUsersDto → Exec W UserPage
  unfolding list_by
  admin_list_users q = list_by q q.plan

  unfoldable pub admin_get_user : String → Exec W User
  admin_get_user id = do
    found ← query (users.get (λ u. has_id id u && user_role_eq u.role user))
    query (required resource_not_found found)

  -- A change of a row that a test has found; both fail as not found.
  unfoldable pub change_found : String → (User → Bool) → (User → User) → Exec W User
  change_found id test f = do
    found ← query (users.get (λ u. has_id id u && test u))
    _ ← query (required resource_not_found found)
    updated ← users.update (has_id id) f
    query (required resource_not_found updated)

  unfoldable pub admin_toggle_user_status : String → Bool → Exec W User
  unfolding change_found
  admin_toggle_user_status id is_active =
      change_found id (λ u. user_role_eq u.role user) (λ u. record u { is_active = is_active })

  unfoldable pub admin_list_admins : QueryAdminUsersDto → W → Result (List User)
  unfolding is_listed_admin
  admin_list_admins q = users.find (is_listed_admin ilike q) (or_else q.page 1) (or_else q.limit 20)

  unfoldable pub create_admin_unless : CreateAdminDto → Option User → Exec W User
  unfolding invited_admin
  create_admin_unless dto (some existing) = throw resource_conflict
  create_admin_unless dto none = users.create (invited_admin dto)

  unfoldable pub admin_create_admin : CreateAdminDto → Exec W User
  unfolding create_admin_unless
  admin_create_admin dto = do
    existing ← query (find_by_email b dto.email)
    create_admin_unless dto existing

  unfoldable pub admin_update_admin_role : String → UserRole → Exec W User
  unfolding change_found
  admin_update_admin_role id role =
      change_found id (λ u. user_role_eq u.role admin || user_role_eq u.role super_admin)
        (λ u. record u { role = role })

  unfoldable pub admin_update_admin_status : String → AdminStatus → Exec W User
  unfolding change_found
  admin_update_admin_status id status =
      change_found id (λ u. user_role_eq u.role admin || user_role_eq u.role super_admin)
        (λ u. record u { admin_status = some status })
