-- ===== src/Installers/Rows.antt =====
-- Data-transfer objects, tests and payloads of modules/installers/installers.service.ts, with
-- modules/installers/dto.
use intell_api.Prelude.{
  ℕ, String, Bool, true, false, not, ◌&&◌, ◌||◌, Option, none, some, List, [], str_eq,
  if◌then◌else◌, any_of,
}
use intell_api.Common.Enums.{InverterBrand, brand_eq, UserRole, user, installer, user_role_eq}
use intell_api.Users.{User}
use intell_api.Users.Rows.{or_else}
use intell_api.Database.Laws.{count}
use intell_api.Installers.{
  InstallerType, type_eq, InstallerStatus, status_eq, AssignmentRole, AssignmentStatus,
  assignment_eq, InstallerProfile, InverterAssignment,
}

pub record CreateInstallerProfileDto : Type 0 where
  pub user_id : String
  pub type : InstallerType
  pub company_name : Option String
  pub contact_name : String
  pub email : String
  pub phone_number : Option String
  pub state : Option String
  pub region : Option String
  pub supported_brands : Option (List InverterBrand)
  pub notes : Option String

pub record CreateAssignmentDto : Type 0 where
  pub inverter_id : String
  pub installer_profile_id : String
  pub role : AssignmentRole

pub record QueryInstallersDto : Type 0 where
  pub page : Option ℕ
  pub limit : Option ℕ
  pub search : Option String
  pub type : Option InstallerType
  pub status : Option InstallerStatus
  pub state : Option String
  pub brand : Option InverterBrand

pub record Summary : Type 0 where
  pub total : ℕ
  pub partners : ℕ
  pub technicians : ℕ
  pub pending : ℕ
  pub active : ℕ
  pub suspended : ℕ

-- The tests of the queries.
abbrev pub has_id : String → InstallerProfile → Bool
has_id id p = str_eq p.id id

abbrev pub is_profile_of : String → InstallerProfile → Bool
is_profile_of user_id p = str_eq p.user_id user_id

abbrev pub is_active : InverterAssignment → Bool
is_active a = assignment_eq a.status AssignmentStatus.active

-- 'installer_profile_id = :id AND status = :status'
abbrev pub is_active_of : String → InverterAssignment → Bool
is_active_of profile_id a = str_eq a.installer_profile_id profile_id && is_active a

abbrev pub is_active_at : String → InverterAssignment → Bool
is_active_at inverter_id a = str_eq a.inverter_id inverter_id && is_active a

-- where: { inverterId, installerProfileId, status: ACTIVE }
abbrev pub is_duplicate : String → String → InverterAssignment → Bool
is_duplicate inverter_id profile_id a =
    str_eq a.inverter_id inverter_id && is_active_of profile_id a

-- The payloads.
unfoldable pub new_profile : CreateInstallerProfileDto → String → ℕ → InstallerProfile
new_profile dto id time = record {
  id = id;
  user_id = dto.user_id;
  type = dto.type;
  company_name = dto.company_name;
  contact_name = dto.contact_name;
  email = dto.email;
  phone_number = dto.phone_number;
  state = dto.state;
  region = dto.region;
  supported_brands = or_else dto.supported_brands [];
  status = InstallerStatus.pending;
  notes = dto.notes;
  created_at = time;
}

unfoldable pub new_assignment : CreateAssignmentDto → String → ℕ → String → ℕ → InverterAssignment
new_assignment dto user_id assigned id time = record {
  id = id;
  inverter_id = dto.inverter_id;
  installer_profile_id = dto.installer_profile_id;
  assigned_by_user_id = some user_id;
  role = dto.role;
  status = AssignmentStatus.active;
  assigned_at = assigned;
  revoked_at = none;
}

unfoldable pub with_status : InstallerStatus → InstallerProfile → InstallerProfile
with_status status p = record p { status = status }

unfoldable pub revoked : ℕ → InverterAssignment → InverterAssignment
revoked time a = record a { status = AssignmentStatus.revoked; revoked_at = some time }

abbrev pub made_installer : User → User
made_installer u = record u { role = installer }

-- promotableRoles.includes(user.role)
abbrev pub is_promotable : UserRole → Bool
is_promotable r = user_role_eq r user || user_role_eq r installer

unfoldable pub summary_of : List InstallerProfile → Summary
summary_of rows = record {
  total = count (λ p. true) rows;
  partners = count (λ p. type_eq p.type InstallerType.partner) rows;
  technicians = count (λ p. type_eq p.type InstallerType.technician) rows;
  pending = count (λ p. status_eq p.status InstallerStatus.pending) rows;
  active = count (λ p. status_eq p.status InstallerStatus.active) rows;
  suspended = count (λ p. status_eq p.status InstallerStatus.suspended) rows;
}

abbrev pub has_type : Option InstallerType → InstallerProfile → Bool
has_type none p = true
has_type (some t) p = type_eq p.type t

abbrev pub has_status : Option InstallerStatus → InstallerProfile → Bool
has_status none p = true
has_status (some s) p = status_eq p.status s

abbrev pub is_text : Option String → String → Bool
is_text none t = false
is_text (some s) t = str_eq s t

abbrev pub has_state : Option String → InstallerProfile → Bool
has_state none p = true
has_state (some s) p = if str_eq s "" then true else is_text p.state s

abbrev pub supports : Option InverterBrand → InstallerProfile → Bool
supports none p = true
supports (some b) p = any_of (brand_eq b) p.supported_brands

abbrev pub is_given : Option String → Bool
is_given none = false
is_given (some s) = not (str_eq s "")

abbrev pub is_some {ℓ} : {A : Type ℓ} → Option A → Bool
is_some none = false
is_some (some a) = true

-- filterRecordOptions
unfoldable pub is_simple : QueryInstallersDto → InstallerProfile → Bool
is_simple q p = has_type q.type p && (has_status q.status p && has_state q.state p)
