-- ===== src/Team/Access.antt =====
-- modules/team-access/team-access.service.ts and action/inverter-member.action.ts.
pub mod Changes
pub mod Edits
pub mod Rules
pub mod Invites
use intell_api.Prelude.{
  ℕ, ◌+◌, ◌*◌, String, Bool, false, not, ◌&&◌, Option, none, some, List, ltb, if◌then◌else◌, str_eq,
}
use intell_api.Prelude.Text.{◌&◌}
use intell_api.Common.Enums.{brand_text}
use intell_api.Exec.{
  Error, not_found, conflict, internal, Result, ok, Exec, pure, throw, query, ◌>>=◌, ◌>>◌,
}
use intell_api.Users.{User}
use intell_api.Inverters.{Inverter}
use intell_api.Team.Member.{
  InverterRole, MemberStatus, invited, active, deactivated, status_eq, InverterMember, with_columns,
  is_text,
}
use intell_api.Team.Backend.{TeamBackend}

-- 7 * 24 * 60 * 60 * 1000
abbrev pub invite_ttl_ms : ℕ
invite_ttl_ms = 7 * 24 * 60 * 60 * 1000

abbrev pub membership_not_found : Error
membership_not_found =
    not_found "The requested inverter membership does not exist or has been deactivated"

abbrev pub no_invite : Error
no_invite = not_found "No invite exists with this id or user already accepted"

pub record InviteMemberDto : Type 0 where
  pub email : String
  pub role : InverterRole

-- The payloads of the updates.
unfoldable pub re_invited : InverterRole → String → String → ℕ → InverterMember → InverterMember
re_invited role token inviter expiry m = with_columns m (record (m.columns) {
  status = invited;
  role = role;
  invite_token = token;
  invited_by_id = some inviter;
  invite_token_expires_at = some expiry;
})

unfoldable pub refreshed : String → ℕ → InverterMember → InverterMember
refreshed token expiry m =
    with_columns m
      (record (m.columns) { invite_token = token; invite_token_expires_at = some expiry })

unfoldable pub activated : String → ℕ → InverterMember → InverterMember
activated user_id time m = with_columns m (record (m.columns) {
  status = active;
  invite_token_expires_at = some time;
  user_id = some user_id;
})

unfoldable pub with_role : InverterRole → InverterMember → InverterMember
with_role role m = with_columns m (record (m.columns) { role = role })

unfoldable pub revoked : InverterMember → InverterMember
revoked m = with_columns m (record (m.columns) { status = deactivated })

-- The tests of the queries.
abbrev pub has_id : String → InverterMember → Bool
has_id id m = str_eq m.id id

abbrev pub has_status : MemberStatus → InverterMember → Bool
has_status s m = status_eq m.status s

abbrev full_name : User → String
full_name u = u.first_name & " " & u.last_name

abbrev inverter_name : Inverter → String
inverter_name i = brand_text i.brand & " " & i.model

abbrev first_name_of : Option User → Option String
first_name_of none = none
first_name_of (some u) = some u.first_name

abbrev id_of : Option User → Option String
id_of none = none
id_of (some u) = some u.id

-- member.inviteTokenExpiresAt && Date.now() > member.inviteTokenExpiresAt.getTime()
unfoldable pub is_expired : Option ℕ → ℕ → Bool
is_expired none time = false
is_expired (some expiry) time = ltb expiry time

abbrev or_default : Option ℕ → ℕ → ℕ
or_default none d = d
or_default (some n) d = n

module _ (b : TeamBackend) where
  open b use {
    World, now, random_uuid, email_eq, get, update, update_where, create, find_page, find_inverter,
    find_user, find_user_by_email, send_invite,
  }

  abbrev new_token : Exec World String
  new_token w = let (token, w') = random_uuid w in (ok token, w')

  abbrev pub current_time : Exec World ℕ
  current_time = query (λ w. ok (now w))

  unfoldable pub find_by_inverter_id_and_email :
      String → String → World → Result (Option InverterMember)
  find_by_inverter_id_and_email inverter_id email =
      get (λ m. str_eq m.inverter_id inverter_id && email_eq m.email email)

  unfoldable pub find_by_token_and_email : String → String → World → Result (Option InverterMember)
  find_by_token_and_email token email =
      get (λ m. str_eq m.invite_token token && email_eq m.email email)

  -- The test of the row that atomicReInviteExistingRecord has read back.
  unfoldable pub still_invited : Option InverterMember → Exec World InverterMember
  still_invited none = throw (internal "Failed to load upserted user")
  still_invited (some m) =
      if has_status invited m then pure m else throw (internal "Failed to load upserted user")

  unfoldable pub atomic_re_invite_existing_record :
      String → InverterRole → String → String → ℕ → Exec World InverterMember
  unfolding still_invited
  atomic_re_invite_existing_record id role token inviter expiry = do
    update_where (λ m. has_id id m && has_status deactivated m)
        (re_invited role token inviter expiry)
    updated ← query (get (has_id id))
    still_invited updated

  unfoldable pub send_invite_email :
      String → InverterRole → String → String → String → Option User → Exec World (Unit {0})
  send_invite_email email role token inviter inverter user =
      send_invite email (first_name_of user) inviter inverter role token

  unfoldable pub invite :
      Inverter → InviteMemberDto → User → Option User → Exec World InverterMember
  unfolding send_invite_email
  invite inverter dto inviter existing_user = do
    token ← new_token
    time ← current_time
    member ← create (record {
      inverter_id = inverter.id;
      user_id = id_of existing_user;
      email = dto.email;
      role = dto.role;
      status = invited;
      invited_by_id = some inviter.id;
      invite_token = token;
      invite_token_expires_at = some (time + invite_ttl_ms);
    })
    send_invite_email member.email member.role member.invite_token (full_name inviter)
        (inverter_name inverter) existing_user
    pure member

  unfoldable pub re_invite : InviteMemberDto → String → InverterMember → Exec World InverterMember
  unfolding atomic_re_invite_existing_record
  re_invite dto invited_by_id existing = do
    token ← new_token
    time ← current_time
    atomic_re_invite_existing_record existing.id dto.role token invited_by_id (time + invite_ttl_ms)

  -- What inviteMember does about the row that it found.
  unfoldable pub invite_with :
      InviteMemberDto → String → String → Option InverterMember → Exec World InverterMember
  unfolding invite re_invite
  invite_with dto inverter_id invited_by_id none = do
    inverter ← query (find_inverter inverter_id)
    inviter ← query (find_user invited_by_id)
    existing_user ← query (find_user_by_email dto.email)
    invite inverter dto inviter existing_user
  invite_with dto inverter_id invited_by_id (some existing) =
      if has_status deactivated existing
      then re_invite dto invited_by_id existing
      else throw (conflict "Pending invite or membership exists for this user")

  unfoldable pub invite_member : InviteMemberDto → String → String → Exec World InverterMember
  unfolding invite_with find_by_inverter_id_and_email
  invite_member dto inverter_id invited_by_id = do
    existing ← query (find_by_inverter_id_and_email inverter_id dto.email)
    invite_with dto inverter_id invited_by_id existing

  -- The rows that a query or an update must have given.
  unfoldable pub required : Error → Option InverterMember → Exec World InverterMember
  required e none = throw e
  required e (some m) = pure m

  -- The user that the invite names, if any.
  abbrev user_of : Option String → World → Result (Option User)
  user_of none w = ok none
  user_of (some id) w = elim (find_user id w) [ Result.err e ↦ Result.err e | ok u ↦ ok (some u) ]

  unfoldable pub refresh_user_invite : String → String → String → Exec World InverterMember
  unfolding required send_invite_email
  refresh_user_invite invite_id inverter_id user_id = do
    caller ← query (find_user user_id)
    inverter ← query (find_inverter inverter_id)
    token ← new_token
    time ← current_time
    found ←
        update
          (λ m. has_id invite_id m && (has_status invited m && str_eq m.inverter_id inverter_id))
          (refreshed token (time + invite_ttl_ms))
    updated ← required no_invite found
    existing_user ← query (user_of updated.user_id)
    send_invite_email updated.email updated.role updated.invite_token (full_name caller)
        (inverter_name inverter) existing_user
    pure updated

  -- The checks of findInviteByTokenAndEmail.
  unfoldable pub acceptable : Option InverterMember → ℕ → Result InverterMember
  acceptable none time = Result.err membership_not_found
  acceptable (some m) time =
      if not (has_status invited m)
      then Result.err (conflict "This invite has already been accepted.")
      else if is_expired m.invite_token_expires_at time
      then Result.err (conflict "This invite link has expired. Please request a new one.")
      else ok m

  unfoldable pub find_invite_by_token_and_email : String → String → Exec World InverterMember
  unfolding acceptable find_by_token_and_email
  find_invite_by_token_and_email token email = do
    member ← query (find_by_token_and_email token email)
    query (λ w. acceptable member (now w))

  unfoldable pub activate_membership : InverterMember → String → Exec World (Unit {0})
  unfolding required
  activate_membership member user_id = do
    time ← current_time
    found ← update (has_id member.id) (activated user_id time)
    _ ← required membership_not_found found
    pure tt

  unfoldable pub list_members : String → Option ℕ → Option ℕ → Exec World (List InverterMember)
  list_members inverter_id page limit = query (
      find_page (λ m. str_eq m.inverter_id inverter_id && has_status active m) (or_default page 1)
        (or_default limit 100))

  unfoldable pub get_member : String → String → Exec World InverterMember
  unfolding required
  get_member inverter_id member_id = do
    found ← query (get (λ m. str_eq m.inverter_id inverter_id && has_id member_id m))
    required membership_not_found found

  -- getUserInvites and getUserMemberships
  unfoldable pub user_rows : MemberStatus → String → Option ℕ → Exec World (List InverterMember)
  user_rows status user_id page =
      query
        (find_page (λ m. is_text m.user_id user_id && has_status status m) (or_default page 1) 100)

  unfoldable pub get_user_invites : String → Option ℕ → Exec World (List InverterMember)
  unfolding user_rows
  get_user_invites = user_rows invited

  unfoldable pub get_user_memberships : String → Option ℕ → Exec World (List InverterMember)
  unfolding user_rows
  get_user_memberships = user_rows active

  unfoldable pub update_member_role : String → String → InverterRole → Exec World InverterMember
  unfolding get_member required
  update_member_role inverter_id member_id role = do
    member ← get_member inverter_id member_id
    found ← update (has_id member.id) (with_role role)
    required membership_not_found found

  unfoldable pub revoke_member_access : String → String → Exec World (Unit {0})
  unfolding get_member
  revoke_member_access inverter_id member_id = do
    member ← get_member inverter_id member_id
    _ ← update (has_id member.id) revoked
    pure tt
