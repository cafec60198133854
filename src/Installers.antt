-- ===== src/Installers.antt =====
-- modules/installers/entities, and the enumerations of common/enums that they use: installers and
-- their assignments to inverters.
pub mod Rows
pub mod Service
pub mod Laws
pub mod Commits
pub mod Register
pub mod Rules
pub mod Suspension
pub mod Profiles
mod Tests
use intell_api.Prelude.{ℕ, String, Bool, Option, List, ◌==◌}
use intell_api.Common.Enums.{InverterBrand}

pub data InstallerType : Type 0 where
  partner technician : InstallerType

pub data InstallerStatus : Type 0 where
  active pending suspended : InstallerStatus

pub data AssignmentRole : Type 0 where
  viewer technician : AssignmentRole

pub data AssignmentStatus : Type 0 where
  active revoked : AssignmentStatus

abbrev type_place : InstallerType → ℕ
type_place InstallerType.partner = 0
type_place InstallerType.technician = 1

abbrev pub type_eq : InstallerType → InstallerType → Bool
type_eq a b = type_place a == type_place b

abbrev pub status_place : InstallerStatus → ℕ
status_place InstallerStatus.active = 0
status_place InstallerStatus.pending = 1
status_place InstallerStatus.suspended = 2

abbrev pub status_eq : InstallerStatus → InstallerStatus → Bool
status_eq a b = status_place a == status_place b

abbrev pub assignment_place : AssignmentStatus → ℕ
assignment_place AssignmentStatus.active = 0
assignment_place AssignmentStatus.revoked = 1

abbrev pub assignment_eq : AssignmentStatus → AssignmentStatus → Bool
assignment_eq a b = assignment_place a == assignment_place b

pub record InstallerProfile : Type 0 where
  pub id : String
  pub user_id : String
  pub type : InstallerType
  pub company_name : Option String
  pub contact_name : String
  pub email : String
  pub phone_number : Option String
  pub state : Option String
  pub region : Option String
  pub supported_brands : List InverterBrand
  pub status : InstallerStatus
  pub notes : Option String
  pub created_at : ℕ

pub record InverterAssignment : Type 0 where
  pub id : String
  pub inverter_id : String
  pub installer_profile_id : String
  pub assigned_by_user_id : Option String
  pub role : AssignmentRole
  pub status : AssignmentStatus
  pub assigned_at : ℕ
  pub revoked_at : Option ℕ
