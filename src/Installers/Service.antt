-- ===== src/Installers/Service.antt =====
-- modules/installers/installers.service.ts.
use intell_api.Prelude.{
  ℕ, String, Bool, true, false, not, ◌&&◌, ◌||◌, Option, none, some, List, str_eq, if◌then◌else◌,
}
use intell_api.Exec.{
  Error, conflict, forbidden, Result, ok, err, Exec, pure, throw, query, ◌>>=◌, ◌>>◌,
}
use intell_api.Users.{User}
use intell_api.Users.Accounts.{required}
use intell_api.Users.Rows.{or_else}
use intell_api.Users.Service.{resource_not_found, resource_conflict}
use intell_api.Users.Admins.{PaginationMeta, pagination_meta_of}
use intell_api.Inverters.{Inverter}
use intell_api.Database.{Table}
use intell_api.Installers.{
  InstallerStatus, status_eq, AssignmentStatus, assignment_eq, InstallerProfile, InverterAssignment,
}
use intell_api.Installers.Rows.{
  CreateInstallerProfileDto, CreateAssignmentDto, QueryInstallersDto, Summary, has_id,
  is_profile_of, is_active_of, is_active_at, is_duplicate, new_profile, new_assignment, with_status,
  revoked, made_installer, is_promotable, summary_of, supports, is_given, is_some, is_simple,
}

-- The tables, the services and the transactions of the data source.
pub record InstallersBackend (W : Type 0) : Type 0 where
  pub now : W → ℕ
  pub profiles : Table W InstallerProfile
  pub assignments : Table W InverterAssignment
  pub users : Table W User
  -- invertersService.findOne and usersService.findOne
  pub find_inverter : String → W → Result Inverter
  pub find_user : String → W → Result User
  pub ilike : String → String → Bool
  -- The query builder of findAll: the rows of a page, and how many there are.
  pub page_of : (InstallerProfile → Bool) → ℕ → ℕ → W → Result (List InstallerProfile × ℕ)
  pub all_profiles : W → Result (List InstallerProfile)
  -- assignmentAction.list without a page
  pub list_assignments : (InverterAssignment → Bool) → W → Result (List InverterAssignment)
  -- connect and startTransaction, commitTransaction, and rollbackTransaction with the state at the
  -- start of the transaction and the present one.
  pub start : Exec W (Unit {0})
  pub commit : Exec W (Unit {0})
  pub rolled_back : W → W → W

abbrev pub not_owner : Error
not_owner = forbidden "You do not have permission to access this resource"

abbrev pub not_active : Error
not_active = conflict "Installer profile is not active and cannot be assigned."

abbrev already_assigned : Error
already_assigned = conflict "This installer already has an active assignment on this inverter."

abbrev pub privileged : Error
privileged =
    conflict "This account has a privileged role and cannot be assigned an installer profile."

module _ (ilike : String → String → Bool) where
  -- The conditions that the query builder joins.
  unfoldable pub matches_search : Option String → InstallerProfile → Bool
  matches_search none p = true
  matches_search (some t) p =
      if str_eq t ""
      then true
      else ilike p.contact_name t || (ilike p.email t || text_like p.company_name t)
    where
      text_like : Option String → String → Bool
      text_like none t = false
      text_like (some s) t = ilike s t

  unfoldable pub is_found : QueryInstallersDto → InstallerProfile → Bool
  unfolding matches_search is_simple
  is_found q p = is_simple q p && (supports q.brand p && matches_search q.search p)

module _ {W : Type 0} (b : InstallersBackend W) where
  open b use {
    now, profiles, assignments, users, find_inverter, find_user, ilike, page_of, all_profiles,
    list_assignments, start, commit, rolled_back,
  }

  -- What a transaction leaves of the state at its start: all if it fails.
  unfoldable pub settle : {A : Type 0} → W → Result A → W → Result A × W
  settle w (ok a) w' = (ok a, w')
  settle w (err e) w' = (err e, rolled_back w w')

  -- startTransaction; try { …; commitTransaction } catch { rollbackTransaction; throw }
  unfoldable pub transaction : {A : Type 0} → Exec W A → Exec W A
  unfolding settle
  transaction m = start >> (λ w. let (r, w') = m w in settle w r w')

  unfoldable pub find_profile_by_id : String → Exec W InstallerProfile
  find_profile_by_id id = do
    found ← query (profiles.get (has_id id))
    query (required resource_not_found found)

  unfoldable pub find_profile_by_user_id : String → W → Result (Option InstallerProfile)
  find_profile_by_user_id user_id = profiles.get (is_profile_of user_id)

  unfoldable pub get_summary : Exec W Summary
  unfolding summary_of
  get_summary = do rows ← query all_profiles; pure (summary_of rows)

  unfoldable pub find_all :
      QueryInstallersDto → Exec W (List InstallerProfile × Option PaginationMeta)
  unfolding is_found is_simple
  find_all q =
      let page = or_else q.page 1 in
      let limit = or_else q.limit 20 in
      if is_some q.brand || is_given q.search
      then (do
        found ← query (page_of (is_found ilike q) page limit)
        pure (found.0, some (pagination_meta_of found.1 page limit)))
      else (do rows ← query (profiles.find (is_simple q) page limit); pure (rows, none))

  -- The relations that findOne joins are left out.
  unfoldable pub find_one : String → Exec W InstallerProfile
  unfolding find_profile_by_id
  find_one = find_profile_by_id

  unfoldable pub promote_and_create : CreateInstallerProfileDto → Exec W InstallerProfile
  promote_and_create dto = do
    _ ← users.update_where (λ u. str_eq u.id dto.user_id) made_installer
    saved ← profiles.create (new_profile dto)
    commit
    pure saved

  unfoldable pub create_unless :
      CreateInstallerProfileDto → Option InstallerProfile → Exec W InstallerProfile
  unfolding transaction promote_and_create
  create_unless dto (some existing) = throw resource_conflict
  create_unless dto none = transaction (promote_and_create dto)

  unfoldable pub create_profile : CreateInstallerProfileDto → Exec W InstallerProfile
  unfolding create_unless find_profile_by_user_id
  create_profile dto = do
    u ← query (find_user dto.user_id)
    if not (is_promotable u.role)
        then throw privileged
        else (do existing ← query (find_profile_by_user_id dto.user_id); create_unless dto existing)

  unfoldable pub suspend_in : String → Exec W InstallerProfile
  suspend_in id = do
    found ← query (profiles.get (has_id id))
    profile ← query (required resource_not_found found)
    time ← query (λ w. ok (now w))
    _ ← assignments.update_where (is_active_of id) (revoked time)
    _ ← profiles.update_where (has_id id) (with_status InstallerStatus.suspended)
    commit
    pure (with_status InstallerStatus.suspended profile)

  -- The rest of updateStatus, for the other states.
  unfoldable pub set_status : String → InstallerStatus → Exec W InstallerProfile
  unfolding find_profile_by_id
  set_status id status = do
    profile ← find_profile_by_id id
    updated ← profiles.update (has_id profile.id) (with_status status)
    query (required resource_not_found updated)

  unfoldable pub update_status : String → InstallerStatus → Exec W InstallerProfile
  unfolding transaction suspend_in set_status
  update_status id InstallerStatus.suspended = transaction (suspend_in id)
  update_status id status = set_status id status

  unfoldable pub assign_unless :
      CreateAssignmentDto → String → Option InverterAssignment → Exec W InverterAssignment
  assign_unless dto user_id (some existing) = throw already_assigned
  assign_unless dto user_id none = do
    time ← query (λ w. ok (now w))
    saved ← assignments.create (new_assignment dto user_id time)
    commit
    pure saved

  unfoldable pub assign : CreateAssignmentDto → String → Exec W InverterAssignment
  unfolding assign_unless
  assign dto user_id = do
    found ← query (profiles.get (has_id dto.installer_profile_id))
    profile ← query (required resource_not_found found)
    if not (status_eq profile.status InstallerStatus.active) then throw not_active else (do
      existing ← query (assignments.get (is_duplicate dto.inverter_id dto.installer_profile_id))
      assign_unless dto user_id existing)

  unfoldable pub create_assignment : CreateAssignmentDto → String → Exec W InverterAssignment
  unfolding transaction assign
  create_assignment dto user_id = do
    inverter ← query (find_inverter dto.inverter_id)
    if not (str_eq inverter.user_id user_id)
        then throw not_owner
        else transaction (assign dto user_id)

  -- expectedInverterId !== undefined && assignment.inverterId !== expectedInverterId
  abbrev pub is_elsewhere : Option String → InverterAssignment → Bool
  is_elsewhere none a = false
  is_elsewhere (some id) a = not (str_eq a.inverter_id id)

  unfoldable pub revoke : String → Exec W InverterAssignment
  revoke id = do
    time ← query (λ w. ok (now w))
    updated ← assignments.update (λ a. str_eq a.id id) (revoked time)
    query (required resource_not_found updated)

  unfoldable pub revoke_assignment : String → String → Option String → Exec W InverterAssignment
  unfolding revoke
  revoke_assignment id user_id expected = do
    found ← query (assignments.get (λ a. str_eq a.id id))
    assignment ← query (required resource_not_found found)
    if is_elsewhere expected assignment then throw resource_not_found else (do
      inverter ← query (find_inverter assignment.inverter_id)
      if not (str_eq inverter.user_id user_id)
          then throw not_owner
          else if assignment_eq assignment.status AssignmentStatus.revoked
          then throw (conflict "Assignment is already revoked.")
          else revoke id)

  unfoldable pub get_assignments_for_inverter : String → String → Exec W (List InverterAssignment)
  get_assignments_for_inverter inverter_id user_id = do
    inverter ← query (find_inverter inverter_id)
    if not (str_eq inverter.user_id user_id)
        then throw not_owner
        else query (list_assignments (is_active_at inverter_id))

  unfoldable pub get_assignments_for_installer : String → W → Result (List InverterAssignment)
  get_assignments_for_installer profile_id = list_assignments (is_active_of profile_id)
