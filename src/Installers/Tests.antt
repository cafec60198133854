-- ===== src/Installers/Tests.antt =====
-- Installers on tables that are lists.
use intell_api.Prelude.{
  String, true, none, some, List, [], ◌∷◌, ◌≡◌, ◌≢◌, ◌⊎◌, inl, refl, arith, str_eq,
}
use intell_api.Exec.{Error, ok, err}
use intell_api.Common.Enums.{sunsynk}
use intell_api.Users.{User}
use intell_api.Users.Rows.{blank_user}
use intell_api.Inverters.{Inverter}
use intell_api.Database.Laws.{count}
use intell_api.Database.Memory.{memory_table, memory_laws}
use intell_api.Prelude.Int.{pos}
use intell_api.Installers.{
  InstallerType, InstallerStatus, AssignmentRole, AssignmentStatus, InstallerProfile,
  InverterAssignment,
}
use intell_api.Installers.Rows.{
  CreateInstallerProfileDto, CreateAssignmentDto, is_active_of, has_id, is_duplicate,
}
use intell_api.Installers.Service.{
  InstallersBackend, update_status, create_assignment, create_profile,
}
use intell_api.Installers.Laws.{InstallersLaws}
use intell_api.Installers.Register.{IsRegister}
use intell_api.Installers.Rules.{run, run-IsRegister}
use intell_api.Installers.Rules.InstallerOp.{status_op}
use intell_api.Installers.Suspension.{update_status_lem}
use intell_api.Installers.Profiles.{IsUnchanged, IsCreation, create_profile_lem}

record Site : Type 0 where
  profiles : List InstallerProfile
  assignments : List InverterAssignment
  users : List User

abbrev house : Inverter
house = record {
  id = "house";
  user_id = "ada";
  brand = sunsynk;
  model = "5K";
  serial_number = "S1";
  installation_id = none;
  encrypted_credentials = none;
  is_active = true;
  rated_capacity_kwh = pos 5000;
  panel_capacity_kw = pos 3000;
}

abbrev ada : User
ada = blank_user "ada@example.com" "Ada" "Obi" "ada" 0

abbrev backend : InstallersBackend Site
backend = record {
  now = λ w. 1000;
  profiles =
      memory_table (λ w. w.profiles) (λ rs w. record w { profiles = rs }) (λ p. p.id)
        (λ rs w. refl);
  assignments =
      memory_table (λ w. w.assignments) (λ rs w. record w { assignments = rs }) (λ a. a.id)
        (λ rs w. refl);
  users = memory_table (λ w. w.users) (λ rs w. record w { users = rs }) (λ u. u.id) (λ rs w. refl);
  find_inverter = λ id w. ok house;
  find_user = λ id w. ok ada;
  ilike = str_eq;
  page_of = λ p page limit w. ok (w.profiles, 0);
  all_profiles = λ w. ok w.profiles;
  list_assignments = λ p w. ok w.assignments;
  start = λ w. (ok tt, w);
  commit = λ w. (ok tt, w);
  rolled_back = λ w v. w;
}

abbrev laws : InstallersLaws backend
laws = record {
  profile_rows = λ w. w.profiles;
  assignment_rows = λ w. w.assignments;
  user_rows = λ w. w.users;
  profiles =
      memory_laws (λ w. w.profiles) (λ rs w. record w { profiles = rs }) (λ p. p.id) (λ rs w. refl);
  assignments =
      memory_laws (λ w. w.assignments) (λ rs w. record w { assignments = rs }) (λ a. a.id)
        (λ rs w. refl);
  users = memory_laws (λ w. w.users) (λ rs w. record w { users = rs }) (λ u. u.id) (λ rs w. refl);
  profiles_update = λ p f w. refl;
  profiles_update_where = λ p f w. refl;
  profiles_create = λ mk w. refl;
  profiles_create_users = λ mk w. refl;
  assignments_update = λ p f w. refl;
  assignments_update_where = λ p f w. refl;
  assignments_create = λ mk w. refl;
  users_profiles = λ p f w. refl;
  users_assignments = λ p f w. refl;
  start_profiles = λ w. refl;
  start_assignments = λ w. refl;
  start_users = λ w. refl;
  commit_profiles = λ w. refl;
  commit_assignments = λ w. refl;
  commit_users = λ w. refl;
  rolled_back_profiles = λ w v. refl;
  rolled_back_assignments = λ w v. refl;
  rolled_back_users = λ w v. refl;
}

abbrev musa : InstallerProfile
musa = record {
  id = "p1";
  user_id = "musa";
  type = InstallerType.technician;
  company_name = none;
  contact_name = "Musa";
  email = "musa@example.com";
  phone_number = none;
  state = none;
  region = none;
  supported_brands = [];
  status = InstallerStatus.active;
  notes = none;
  created_at = 0;
}

abbrev at_house : InverterAssignment
at_house = record {
  id = "a1";
  inverter_id = "house";
  installer_profile_id = "p1";
  assigned_by_user_id = some "ada";
  role = AssignmentRole.technician;
  status = AssignmentStatus.active;
  assigned_at = 0;
  revoked_at = none;
}

-- Musa is assigned to Ada's house.
abbrev site : Site
site = record { profiles = musa ∷ []; assignments = at_house ∷ []; users = ada ∷ [] }

site-IsRegister : IsRegister backend laws site
site-IsRegister = record {
  ids = λ id. ground arith;
  once = λ i id. ground arith;
  quiet = λ id. inl (ground arith);
}

abbrev suspended_site : Site
suspended_site = (update_status backend "p1" InstallerStatus.suspended site).1

suspended :
    update_status backend "p1" InstallerStatus.suspended site
    ≡ (ok (record musa { status = InstallerStatus.suspended }), suspended_site)
unfolding update_status intell_api.Users.Accounts.required intell_api.Installers.Rows.with_status
suspended = refl

run-IsRegister_example :
    IsRegister backend laws (run backend laws (status_op "p1" InstallerStatus.suspended) site)
run-IsRegister_example =
    run-IsRegister backend laws (status_op "p1" InstallerStatus.suspended) site site-IsRegister

update_status_lem_example :
    (count (is_active_of "p1") suspended_site.assignments ≡ 0)
    × ((inverter_id user_id : String) (dto : CreateAssignmentDto) (a : InverterAssignment)
        → (create_assignment backend
            (record dto { inverter_id = inverter_id; installer_profile_id = "p1" })
            user_id
            suspended_site).0
          ≢ ok a)
update_status_lem_example =
    update_status_lem backend laws "p1" (record musa { status = InstallerStatus.suspended }) site
      suspended_site suspended

abbrev new_dto : CreateInstallerProfileDto
new_dto = record {
  user_id = "ada";
  type = InstallerType.partner;
  company_name = none;
  contact_name = "Ada";
  email = "ada@example.com";
  phone_number = none;
  state = none;
  region = none;
  supported_brands = none;
  notes = none;
}

create_profile_lem_example :
    ((e : Error) × (create_profile backend new_dto site
        ≡ (err e, (create_profile backend new_dto site).1))
      × IsUnchanged backend laws site (create_profile backend new_dto site).1)
    ⊎ ((p : InstallerProfile) × (create_profile backend new_dto site
          ≡ (ok p, (create_profile backend new_dto site).1))
        × IsCreation backend laws new_dto p site (create_profile backend new_dto site).1)
create_profile_lem_example = create_profile_lem backend laws new_dto site
