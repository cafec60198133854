-- ===== src/Team/Guard/Grants.antt =====
-- Whom the guard lets through.
use intell_api.Prelude.{
  ◌≤◌, ◌≡◌, ◌⊎◌, inl, inr, refl, String, Bool, true, false, Option, none, some, List, [], ◌∷◌,
  arith, str_eq, Bool-cases, eq_iff, Memᴰ,
}
use intell_api.Exec.{ok, query, ◌>>=◌}
use intell_api.Exec.Laws.{Result-cases}
use intell_api.Inverters.{Inverter}
use intell_api.Team.Member.{InverterRole, role_rank, active, InverterMember, is_text, status_eq_iff}
use intell_api.Team.Backend.{TeamBackend, TeamLaws}
use intell_api.Team.Guard.{
  rank_allows, is_active_member, member_allows, check_user, with_user, with_inverter_id,
  can_activate,
}

-- A role that ranks as high passes wherever the lower one does.
pub rank_allows_mono :
    (required : Option (List InverterRole)) (r s : InverterRole)
    → role_rank r ≤ role_rank s
    → rank_allows required r ≡ true
    → rank_allows required s ≡ true
unfolding rank_allows
rank_allows_mono none r s h e = refl
rank_allows_mono (some []) r s h e = e
rank_allows_mono (some (x ∷ xs)) r s h e = ground (arith, rank_allows_mono (some xs) r s h)

module _ (b : TeamBackend) (laws : TeamLaws b) where
  open b use {World, get, find_inverter}
  open laws use {rows}

  -- An active member of the inverter whose role is high enough.
  pub record IsEntitled (required : Option (List InverterRole)) (inverter_id user : String)
      (w : World) (m : InverterMember) : Type 0 where
    pub row : Memᴰ m (rows w)
    pub inverter : m.inverter_id ≡ inverter_id
    pub user_id : m.user_id ≡ some user
    pub status : m.status ≡ active
    pub rank : rank_allows required m.role ≡ true

  entitled :
      (required : Option (List InverterRole)) (id user : String) (w : World) (m : InverterMember)
      → Memᴰ m (rows w)
      → is_active_member id user m ≡ true
      → rank_allows required m.role ≡ true
      → IsEntitled required id user w m
  entitled required id user w m row test rank = record {
    row = row;
    inverter = ground (arith, eq_iff m.inverter_id id);
    user_id = user_step m.user_id (ground arith);
    status = ground (arith, status_eq_iff m.status active);
    rank = rank;
  }
    where
      user_step : (o : Option String) → is_text o user ≡ true → o ≡ some user
      user_step none h = absurd (ground arith)
      user_step (some u) h = ground (arith, eq_iff u user)

  member_step :
      (required : Option (List InverterRole)) (id user : String) (w : World)
      → ((query (get (is_active_member id user)) >>= member_allows b required) w).0 ≡ ok true
      → (m : InverterMember) × IsEntitled required id user w m
  unfolding member_allows
  member_step required id user w h = elim (Result-cases (get (is_active_member id user) w)) [
    | inr (x, e) ↦ absurd (ground (arith, e))
    | inl (none, e) ↦ absurd (ground (arith, e))
    | inl (some m, e) ↦
        let (row, test) = laws.get_some (is_active_member id user) w m e in
        (m, entitled required id user w m row test (ground (arith, e)))
  ]

  -- With a table that behaves as documented, the guard lets a request through only if its handler is
  -- open to outsiders, or it names an inverter and a user, and the user owns the inverter or has an
  -- active membership of it with a role that is high enough.
  pub can_activate-IsEntitled :
      (required : Option (List InverterRole)) (is_outsider : Bool)
      (inverter_id user : Option String) (w : World)
      → (can_activate b required is_outsider inverter_id user w).0 ≡ ok true
      → (is_outsider ≡ true)
        ⊎ ((id : String) × (u : String) × (i : Inverter) × (inverter_id ≡ some id)
            × (user ≡ some u)
            × (find_inverter id w ≡ ok i)
            × ((u ≡ i.user_id) ⊎ ((m : InverterMember) × IsEntitled required id u w m)))
  unfolding can_activate with_inverter_id with_user check_user
  can_activate-IsEntitled required true inverter_id user w h = inl refl
  can_activate-IsEntitled required false none user w h = absurd (ground arith)
  can_activate-IsEntitled required false (some id) none w h = absurd (ground arith)
  can_activate-IsEntitled required false (some id) (some u) w h =
      elim (Result-cases (find_inverter id w)) [
        | inr (x, e) ↦ absurd (ground (arith, e))
        | inl (i, e) ↦ elim (Bool-cases (str_eq u i.user_id)) [
          | inl own ↦ inr (id, u, i, refl, refl, e, inl ((eq_iff u i.user_id).0 own))
          | inr other ↦
              inr (id, u, i, refl, refl, e, inr (member_step required id u w (ground (arith, e))))
        ]
      ]
