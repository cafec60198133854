-- ===== src/Team/Access/Rules.antt =====
-- What the operations keep true of the table of members.
use intell_api.Prelude.{
  ℕ, ◌+◌, ◌≡◌, String, Bool, false, ◌&&◌, Option, none, some, any_of, str_eq, Bool-cases, inl, inr,
}
use intell_api.Exec.{Error, ok, query, pure, ◌>>◌}
use intell_api.Exec.Laws.{Result-cases}
use intell_api.Users.{User}
use intell_api.Inverters.{Inverter}
use intell_api.Team.Member.{
  InverterRole, owner, is_role, InverterMember, MemberColumns, deactivated, invited,
}
use intell_api.Team.Backend.{TeamBackend, TeamLaws}
use intell_api.Team.Access.Changes.{
  IsTable, Safe, update-Safe, update_where-Safe, send_invite-Safe, query-Safe, bind-Safe,
  create-IsTable,
}
use intell_api.Team.Access.Edits.{
  re_invited-IsEdit, refreshed-IsEdit, activated-IsEdit, with_role-IsEdit, revoked-IsEdit,
}
use intell_api.Team.Access.{
  InviteMemberDto, re_invited, refreshed, activated, with_role, revoked, has_status, still_invited,
  required, atomic_re_invite_existing_record, send_invite_email, invite, re_invite, invite_with,
  find_by_inverter_id_and_email, invite_member, refresh_user_invite, activate_membership,
  get_member, update_member_role, revoke_member_access, first_name_of, has_id, current_time,
  invite_ttl_ms, id_of, full_name, inverter_name, membership_not_found, no_invite, user_of,
}

-- The operations of the service that write, with their arguments.
pub data TeamOp : Type 0 where
  invite_op : InviteMemberDto → String → String → TeamOp
  refresh_op : String → String → String → TeamOp
  activate_op : InverterMember → String → TeamOp
  role_op : String → String → InverterRole → TeamOp
  revoke_op : String → String → TeamOp

-- The validation of the bodies: a role is never that of an owner.
unfoldable pub IsValid : TeamOp → Type 0
IsValid (invite_op dto inverter_id by) = is_role dto.role owner ≡ false
IsValid (role_op inverter_id member_id role) = is_role role owner ≡ false
IsValid _ = Unit {0}

module _ (b : TeamBackend) (laws : TeamLaws b) where
  open b use {
    World, now, random_uuid, email_eq, get, update, update_where, create, find_inverter, find_user,
    find_user_by_email, send_invite,
  }
  open laws use {rows}

  -- The table after an operation, whether it returns or throws.
  pub run : TeamOp → World → World
  run (invite_op dto inverter_id by) w = (invite_member b dto inverter_id by w).1
  run (refresh_op invite_id inverter_id by) w = (refresh_user_invite b invite_id inverter_id by w).1
  run (activate_op member user_id) w = (activate_membership b member user_id w).1
  run (role_op inverter_id member_id role) w = (update_member_role b inverter_id member_id role w).1
  run (revoke_op inverter_id member_id) w = (revoke_member_access b inverter_id member_id w).1

  token-Safe : Safe b laws (λ w. let (t, w') = random_uuid w in (ok t, w'))
  unfolding Safe
  token-Safe w t = rw (laws.uuid_rows w) t

  time-Safe : Safe b laws (current_time b)
  time-Safe = query-Safe b laws (λ w. ok (now w))

  get-Safe : (p : InverterMember → Bool) → Safe b laws (query (get p))
  get-Safe p = query-Safe b laws (get p)

  required-Safe : (e : Error) (o : Option InverterMember) → Safe b laws (required b e o)
  unfolding required Safe
  required-Safe e none w t = t
  required-Safe e (some m) w t = t

  still_invited-Safe : (o : Option InverterMember) → Safe b laws (still_invited b o)
  unfolding still_invited Safe
  still_invited-Safe none w t = t
  still_invited-Safe (some m) w t = elim (Bool-cases (has_status invited m)) [
    | inl e ↦ rw e t
    | inr e ↦ rw e t
  ]

  get_member-Safe : (i m : String) → Safe b laws (get_member b i m)
  unfolding get_member
  get_member-Safe i m =
      bind-Safe b laws _ _ (get-Safe (λ x. str_eq x.inverter_id i && has_id m x))
        (required-Safe membership_not_found)

  re_invite-Safe :
      (dto : InviteMemberDto) (by : String) (m : InverterMember)
      → is_role dto.role owner ≡ false
      → Safe b laws (re_invite b dto by m)
  unfolding re_invite atomic_re_invite_existing_record
  re_invite-Safe dto by m h = bind-Safe b laws _ _ token-Safe (λ token.
      bind-Safe b laws _ _ time-Safe (λ time.
        bind-Safe b laws _ _
          (update_where-Safe b laws (λ x. has_id m.id x && has_status deactivated x)
            (re_invited dto.role token by (time + invite_ttl_ms))
            (re_invited-IsEdit dto.role token by (time + invite_ttl_ms) h))
          (λ _. bind-Safe b laws _ _ (get-Safe (has_id m.id)) still_invited-Safe)))

  send_invite_email-Safe :
      (email : String) (role : InverterRole) (token inviter inverter : String) (u : Option User)
      (m : InverterMember)
      → Safe b laws (send_invite_email b email role token inviter inverter u >> pure m)
  unfolding send_invite_email
  send_invite_email-Safe email role token inviter inverter u m =
      bind-Safe b laws _ (λ _. pure m)
        (send_invite-Safe b laws email (first_name_of u) inviter inverter role token)
        (λ _. query-Safe b laws (λ _. ok m))

  invite-IsTable :
      (i : Inverter) (dto : InviteMemberDto) (inviter : User) (u : Option User) (w : World)
      → is_role dto.role owner ≡ false
      → IsTable b laws (rows w)
      → any_of
          (λ (y : InverterMember). str_eq y.inverter_id i.id && email_eq y.email dto.email)
          (rows w)
        ≡ false
      → IsTable b laws (rows (invite b i dto inviter u w).1)
  unfolding invite Safe
  invite-IsTable i dto inviter u w role t free =
      let token = (random_uuid w).0 in
      let w1 = (random_uuid w).1 in
      let c : MemberColumns = record {
        inverter_id = i.id;
        user_id = id_of u;
        email = dto.email;
        role = dto.role;
        status = invited;
        invited_by_id = some inviter.id;
        invite_token = token;
        invite_token_expires_at = some (now w1 + invite_ttl_ms);
      } in
      let same = laws.uuid_rows w in
      let created = create-IsTable b laws c w1 (rw same t) role (rw same free) in
      elim (Result-cases (create c w1).0) [
        | inl (m, e) ↦ rw e (
            send_invite_email-Safe m.email m.role m.invite_token (full_name inviter)
              (inverter_name i) u m (create c w1).1 created)
        | inr (x, e) ↦ rw e created
      ]

  new-IsTable :
      (dto : InviteMemberDto) (id by : String) (w : World)
      → is_role dto.role owner ≡ false
      → find_by_inverter_id_and_email b id dto.email w ≡ ok none
      → IsTable b laws (rows w)
      → IsTable b laws (rows (invite_with b dto id by none w).1)
  unfolding invite_with find_by_inverter_id_and_email
  new-IsTable dto id by w role none_ t = elim (Result-cases (find_inverter id w)) [
    | inr (x, e) ↦ rw e t
    | inl (i, ei) ↦ elim (Result-cases (find_user by w)) [
      | inr (x, e) ↦ rw (ei, e) t
      | inl (u, eu) ↦ elim (Result-cases (find_user_by_email dto.email w)) [
        | inr (x, e) ↦ rw (ei, eu, e) t
        | inl (o, eo) ↦
            rw (ei, eu, eo)
              (invite-IsTable i dto u o w role t
                (rw (laws.find_inverter_id id w i ei) (laws.get_none _ w none_)))
      ]
    ]
  ]

  known-Safe :
      (dto : InviteMemberDto) (id by : String) (m : InverterMember)
      → is_role dto.role owner ≡ false
      → Safe b laws (invite_with b dto id by (some m))
  unfolding invite_with Safe
  known-Safe dto id by m role w t = elim (Bool-cases (has_status deactivated m)) [
    | inl e ↦ rw e (re_invite-Safe dto by m role w t)
    | inr e ↦ rw e t
  ]

  invite_member-IsTable :
      (dto : InviteMemberDto) (id by : String) (w : World)
      → is_role dto.role owner ≡ false
      → IsTable b laws (rows w)
      → IsTable b laws (rows (invite_member b dto id by w).1)
  unfolding invite_member Safe
  invite_member-IsTable dto id by w role t =
      elim (Result-cases (find_by_inverter_id_and_email b id dto.email w)) [
        | inr (x, e) ↦ rw e t
        | inl (none, e) ↦ rw e (new-IsTable dto id by w role e t)
        | inl (some m, e) ↦ rw e (known-Safe dto id by m role w t)
      ]

  refresh_update-Safe :
      (i v token : String) (time : ℕ)
      → Safe b laws (
          update
            (λ m. has_id i m && (has_status invited m && str_eq m.inverter_id v))
            (refreshed token (time + invite_ttl_ms)))
  refresh_update-Safe i v token time =
      update-Safe b laws (λ m. has_id i m && (has_status invited m && str_eq m.inverter_id v))
        (refreshed token (time + invite_ttl_ms)) (refreshed-IsEdit token (time + invite_ttl_ms))

  refresh-Safe : (i v u : String) → Safe b laws (refresh_user_invite b i v u)
  unfolding refresh_user_invite
  refresh-Safe i v u = bind-Safe b laws _ _ (query-Safe b laws (find_user u)) (λ caller.
      bind-Safe b laws _ _ (query-Safe b laws (find_inverter v)) (λ inverter.
        bind-Safe b laws _ _ token-Safe (λ token. bind-Safe b laws _ _ time-Safe (λ time.
          bind-Safe b laws _ _ (refresh_update-Safe i v token time) (λ found.
            bind-Safe b laws _ _ (required-Safe no_invite found) (λ m.
              bind-Safe b laws _ _ (query-Safe b laws (user_of b m.user_id)) (λ user.
                send_invite_email-Safe m.email m.role m.invite_token (full_name caller)
                  (inverter_name inverter) user m)))))))

  activate-Safe : (m : InverterMember) (u : String) → Safe b laws (activate_membership b m u)
  unfolding activate_membership
  activate-Safe m u = bind-Safe b laws _ _ time-Safe (λ time.
      bind-Safe b laws _ _
        (update-Safe b laws (has_id m.id) (activated u time) (activated-IsEdit u time))
        (λ found.
          bind-Safe b laws _ _ (required-Safe membership_not_found found)
            (λ _. query-Safe b laws (λ _. ok tt))))

  role-Safe :
      (i m : String) (r : InverterRole)
      → is_role r owner ≡ false
      → Safe b laws (update_member_role b i m r)
  unfolding update_member_role
  role-Safe i m r h = bind-Safe b laws _ _ (get_member-Safe i m) (λ x.
      bind-Safe b laws _ _ (update-Safe b laws (has_id x.id) (with_role r) (with_role-IsEdit r h))
        (required-Safe membership_not_found))

  revoke-Safe : (i m : String) → Safe b laws (revoke_member_access b i m)
  unfolding revoke_member_access
  revoke-Safe i m = bind-Safe b laws _ _ (get_member-Safe i m) (λ x.
      bind-Safe b laws _ _ (update-Safe b laws (has_id x.id) revoked revoked-IsEdit)
        (λ found. query-Safe b laws (λ _. ok tt)))

  -- Every operation of the service that writes keeps the invariants of the table of members, also
  -- where it throws: ids are unique, each e-mail address has at most one row at an inverter (a
  -- deactivated one included), and no member has the role of an owner. The table is one that
  -- behaves as documented, and the roles that are given to the operations are not that of an owner.
  pub run-IsTable :
      (op : TeamOp) (w : World)
      → IsValid op
      → IsTable b laws (rows w)
      → IsTable b laws (rows (run op w))
  unfolding run IsValid Safe
  run-IsTable (invite_op dto id by) w v t = invite_member-IsTable dto id by w v t
  run-IsTable (refresh_op i v u) w _ t = refresh-Safe i v u w t
  run-IsTable (activate_op m u) w _ t = activate-Safe m u w t
  run-IsTable (role_op i m r) w v t = role-Safe i m r v w t
  run-IsTable (revoke_op i m) w _ t = revoke-Safe i m w t
