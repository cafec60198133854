-- ===== src/Team/Member.antt =====
-- modules/team-access/entities/inverter-members.entity.ts and common/enums/inverter-role.enum.ts.
use intell_api.Prelude.{ℕ, String, Bool, true, Option, some, ◌≡◌, ◌↔◌, ◌==◌, arith, str_eq}

pub data InverterRole : Type 0 where
  owner admin technician viewer : InverterRole

pub data MemberStatus : Type 0 where
  invited active deactivated : MemberStatus

-- INVERTER_ROLE_RANK
abbrev pub role_rank : InverterRole → ℕ
role_rank owner = 4
role_rank admin = 3
role_rank technician = 2
role_rank viewer = 1

-- The text of a member, as e-mails show it.
unfoldable pub role_text : InverterRole → String
role_text owner = "inverter_owner"
role_text admin = "inverter_admin"
role_text technician = "inverter_technician"
role_text viewer = "inverter_viewer"

abbrev pub is_role : InverterRole → InverterRole → Bool
is_role a b = role_rank a == role_rank b

abbrev pub status_place : MemberStatus → ℕ
status_place invited = 0
status_place active = 1
status_place deactivated = 2

abbrev pub status_eq : MemberStatus → MemberStatus → Bool
status_eq a b = status_place a == status_place b

pub status_eq_iff : (a b : MemberStatus) → (status_eq a b ≡ true) ↔ (a ≡ b)
status_eq_iff a b = ground arith

-- What `create` is given. Dates are milliseconds since the epoch.
pub record MemberColumns : Type 0 where
  pub inverter_id : String
  pub user_id : Option String
  pub email : String
  pub role : InverterRole
  pub status : MemberStatus
  pub invited_by_id : Option String
  pub invite_token : String
  pub invite_token_expires_at : Option ℕ

-- A row: the columns, and the id.
pub record InverterMember : Type 0 where
  pub id : String
  pub columns : MemberColumns
  pub open columns use *

abbrev pub with_columns : InverterMember → MemberColumns → InverterMember
with_columns m c = record m { columns = c }

-- A nullable column equals a text.
abbrev pub is_text : Option String → String → Bool
is_text Option.none s = Bool.false
is_text (some t) s = str_eq t s
