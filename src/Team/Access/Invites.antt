-- ===== src/Team/Access/Invites.antt =====
-- A new invitation and its acceptance.
use intell_api.Prelude.{
  ◌+◌, ◌≡◌, inl, inr, refl, String, true, Option, none, some, ◌∷◌, arith, if◌then◌else◌, str_eq,
  eq_refl, ltb, Memᴰ, any_of-Memᴰ, ap,
}
use mathlib.Core.List.Memᴰ.{head, tail}
use intell_api.Exec.{conflict, ok, err, pure, ◌>>◌}
use intell_api.Exec.Laws.{Result-cases}
use intell_api.Users.{User}
use intell_api.Inverters.{Inverter}
use intell_api.Team.Member.{InverterRole, InverterMember, MemberColumns, invited}
use intell_api.Team.Backend.{TeamBackend, TeamLaws}
use intell_api.Team.Access.{
  InviteMemberDto, invite_ttl_ms, invite, invite_with, invite_member, send_invite_email, id_of,
  first_name_of, is_expired, acceptable, find_by_inverter_id_and_email, find_by_token_and_email,
  find_invite_by_token_and_email, full_name, inverter_name,
}

module _ (b : TeamBackend) (laws : TeamLaws b) where
  open b use {
    World, now, random_uuid, email_eq, create, find_inverter, find_user, find_user_by_email,
  }
  open laws use {rows}

  -- The row of an invitation that was made at `w`.
  pub record IsInvitation (w : World) (dto : InviteMemberDto) (m : InverterMember) : Type 0 where
    pub token : m.invite_token ≡ (random_uuid w).0
    pub email : m.email ≡ dto.email
    pub role : m.role ≡ dto.role
    pub status : m.status ≡ invited
    pub expiry : m.invite_token_expires_at ≡ some (now (random_uuid w).1 + invite_ttl_ms)

  new_columns : Inverter → InviteMemberDto → User → Option User → World → MemberColumns
  new_columns i dto inviter u w = record {
    inverter_id = i.id;
    user_id = id_of u;
    email = dto.email;
    role = dto.role;
    status = invited;
    invited_by_id = some inviter.id;
    invite_token = (random_uuid w).0;
    invite_token_expires_at = some (now (random_uuid w).1 + invite_ttl_ms);
  }

  mailed :
      (email : String) (role : InverterRole) (token by inverter : String) (u : Option User)
      (m m' : InverterMember) (w w' : World)
      → (send_invite_email b email role token by inverter u >> pure m') w ≡ (ok m, w')
      → (m ≡ m') × (rows w' ≡ rows w)
  unfolding send_invite_email
  mailed email role token by inverter u m m' w w' h =
      let name = first_name_of u in
      let sent = laws.send_invite_rows email name by inverter role token w in
      elim (Result-cases (b.send_invite email name by inverter role token w).0) [
        | inr (x, e) ↦ absurd (ground (arith, e))
        | inl (tt, e) ↦ (ground (arith, e), ground (arith, e, sent))
      ]

  invite-columns :
      (i : Inverter) (dto : InviteMemberDto) (inviter : User) (u : Option User) (w w' : World)
      (m : InverterMember)
      → invite b i dto inviter u w ≡ (ok m, w')
      → (m.columns ≡ new_columns i dto inviter u w) × (rows w' ≡ m ∷ rows w)
  unfolding invite new_columns
  invite-columns i dto inviter u w w' m h =
      let w1 = (random_uuid w).1 in
      let c = new_columns i dto inviter u w in
      let w2 = (create c w1).1 in
      elim (Result-cases (create c w1).0) [
        | inr (x, e) ↦ absurd (ground (arith, e))
        | inl (m', e) ↦
            let (cols, r, _) = laws.create_rows c w1 w2 m' (ap (λ x. (x, w2)) e) in
            let h' = rw e at h in
            let (same, kept) =
              mailed m'.email m'.role m'.invite_token (full_name inviter) (inverter_name i) u m m'
                w2 w' h' in
            (rw same cols, rw (kept, same, r, laws.uuid_rows w) refl)
      ]

  new_member :
      (dto : InviteMemberDto) (id by : String) (w w' : World) (m : InverterMember)
      → find_by_inverter_id_and_email b id dto.email w ≡ ok none
      → invite_member b dto id by w ≡ (ok m, w')
      → IsInvitation w dto m × (rows w' ≡ m ∷ rows w)
  unfolding invite_member invite_with new_columns
  new_member dto id by w w' m none_ h = elim (Result-cases (find_inverter id w)) [
    | inr (x, e) ↦ absurd (ground (arith, e, none_))
    | inl (i, ei) ↦ elim (Result-cases (find_user by w)) [
      | inr (x, e) ↦ absurd (ground (arith, ei, e, none_))
      | inl (u, eu) ↦ elim (Result-cases (find_user_by_email dto.email w)) [
        | inr (x, e) ↦ absurd (ground (arith, ei, eu, e, none_))
        | inl (o, eo) ↦
            let (cols, r) = invite-columns i dto u o w w' m (rw (none_, ei, eu, eo) at h) in
            (
              record {
                token = ap (λ (c : MemberColumns). c.invite_token) cols;
                email = ap (λ (c : MemberColumns). c.email) cols;
                role = ap (λ (c : MemberColumns). c.role) cols;
                status = ap (λ (c : MemberColumns). c.status) cols;
                expiry = ap (λ (c : MemberColumns). c.invite_token_expires_at) cols;
              },
              r,
            )
      ]
    ]
  ]

  -- The only row with the token of a new invitation is its own.
  only_row :
      (w w' : World) (dto : InviteMemberDto) (m x : InverterMember)
      → IsInvitation w dto m
      → rows w' ≡ m ∷ rows w
      → Memᴰ x (rows w')
      → str_eq x.invite_token m.invite_token ≡ true
      → x ≡ m
  only_row w w' dto m x inv r row same = from (rw r at row)
    where
      from : Memᴰ x (m ∷ rows w) → x ≡ m
      from (head e) = e
      from (tail d) = absurd (
          ground (
            arith,
            laws.uuid_fresh w,
            inv.token,
            any_of-Memᴰ (λ (y : InverterMember). str_eq y.invite_token (random_uuid w).0) d,
          ))

  -- An invitation of an address that has no row at the inverter yet: as long as the table is as the
  -- invitation left it and can be read, its token and address find the invitation itself up to
  -- seven days after it was made, and are refused as expired later.
  pub find_invite_by_token_and_email-invite_member :
      (dto : InviteMemberDto) (id by : String) (w w' later : World) (m : InverterMember)
      (r : Option InverterMember)
      → find_by_inverter_id_and_email b id dto.email w ≡ ok none
      → invite_member b dto id by w ≡ (ok m, w')
      → rows later ≡ rows w'
      → find_by_token_and_email b m.invite_token m.email later ≡ ok r
      → find_invite_by_token_and_email b m.invite_token m.email later ≡ (
        if ltb (now (random_uuid w).1 + invite_ttl_ms) (now later)
            then err (conflict "This invite link has expired. Please request a new one.")
            else ok m,
        later,
      )
  unfolding find_invite_by_token_and_email find_by_token_and_email acceptable is_expired
  find_invite_by_token_and_email-invite_member dto id by w w' later m none none_ h same found =
      let (inv, r) = new_member dto id by w w' m none_ h in
      let missing = laws.get_none _ later found in
      absurd
        (ground (arith, rw (same, r) at missing, eq_refl m.invite_token, laws.email_refl m.email))
  find_invite_by_token_and_email-invite_member dto id by w w' later m (some x) none_ h same found =
      let (inv, r) = new_member dto id by w w' m none_ h in
      let (row, test) = laws.get_some _ later x found in
      let e : x ≡ m = only_row w w' dto m x inv r (rw same at row) (ground arith) in
      rw (found, e, inv.status, inv.expiry) (ground arith)
