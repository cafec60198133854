-- ===== src/Team/Guard.antt =====
-- common/guards/inverter-role.guard.ts. The metadata of the handler (whether the caller may be an
-- outsider, and the roles that it needs) and the request's parts are arguments.
pub mod Grants
use intell_api.Prelude.{
  String, Bool, true, false, ◌&&◌, Option, none, some, List, leb, any_of, if◌then◌else◌, str_eq,
}
use intell_api.Exec.{forbidden, Exec, pure, throw, query, ◌>>=◌}
use intell_api.Team.Member.{InverterRole, role_rank, active, InverterMember, status_eq, is_text}
use intell_api.Team.Backend.{TeamBackend}

-- !requiredRoles || requiredRoles.some(role => memberRank >= INVERTER_ROLE_RANK[role])
unfoldable pub rank_allows : Option (List InverterRole) → InverterRole → Bool
rank_allows none role = true
rank_allows (some required) role = any_of (λ r. leb (role_rank r) (role_rank role)) required

-- The test of the query for the caller's membership.
abbrev pub is_active_member : String → String → InverterMember → Bool
is_active_member inverter_id user_id m =
    str_eq m.inverter_id inverter_id && (is_text m.user_id user_id && status_eq m.status active)

module _ (b : TeamBackend) where
  open b use {World, get, find_inverter}

  unfoldable pub member_allows :
      Option (List InverterRole) → Option InverterMember → Exec World Bool
  member_allows required none =
      throw (forbidden "You do not have permission to access this resource")
  member_allows required (some m) = pure (rank_allows required m.role)

  -- For a request with an inverter id and a user.
  unfoldable pub check_user : Option (List InverterRole) → String → String → Exec World Bool
  unfolding member_allows
  check_user required inverter_id sub = do
    inverter ← query (find_inverter inverter_id)
    if str_eq sub inverter.user_id
        then pure true
        else (do m ← query (get (is_active_member inverter_id sub)); member_allows required m)

  unfoldable pub with_user : Option (List InverterRole) → String → Option String → Exec World Bool
  unfolding check_user
  with_user required inverter_id none = pure false
  with_user required inverter_id (some sub) = check_user required inverter_id sub

  unfoldable pub with_inverter_id :
      Option (List InverterRole) → Option String → Option String → Exec World Bool
  unfolding with_user
  with_inverter_id required none user = pure false
  with_inverter_id required (some inverter_id) user =
      if str_eq inverter_id "" then pure false else with_user required inverter_id user

  -- The roles, whether an outsider is let in, request.params['inverterId'] and request.user?.sub.
  unfoldable pub can_activate :
      Option (List InverterRole) → Bool → Option String → Option String → Exec World Bool
  unfolding with_inverter_id
  can_activate required is_outsider inverter_id user =
      if is_outsider then pure true else with_inverter_id required inverter_id user
