-- ===== src/Installers/Profiles.antt =====
-- A new installer.
use intell_api.Prelude.{
  true, false, none, some, ◌∷◌, map, ◌≡◌, ◌⊎◌, inl, inr, refl, ap, str_eq, Bool-cases, any_of,
}
use intell_api.Exec.{Error, Result, ok, err}
use intell_api.Exec.Laws.{Result-cases}
use intell_api.Users.{User}
use intell_api.Users.Service.{resource_conflict}
use intell_api.Database.Laws.{change}
use intell_api.Installers.{InstallerStatus, InstallerProfile}
use intell_api.Installers.Rows.{
  CreateInstallerProfileDto, is_promotable, is_profile_of, new_profile, made_installer,
}
use intell_api.Installers.Service.{
  InstallersBackend, transaction, promote_and_create, create_unless, find_profile_by_user_id,
  create_profile, privileged,
}
use intell_api.Installers.Commits.{transaction-eq-ok, transaction-eq-err, promote_and_create-eq-ok}
use intell_api.Installers.Laws.{InstallersLaws}

module _ {W : Type 0} (b : InstallersBackend W) (laws : InstallersLaws b) where
  open laws use {profile_rows, assignment_rows, user_rows}

  -- The same profiles and users.
  abbrev pub IsUnchanged : W → W → Type 0
  IsUnchanged w w' = (profile_rows w' ≡ profile_rows w) × (user_rows w' ≡ user_rows w)

  -- What has become of a creation that succeeds.
  pub record IsCreation (dto : CreateInstallerProfileDto) (p : InstallerProfile) (w w' : W)
      : Type 0 where
    pub account : User
    pub found : b.find_user dto.user_id w ≡ ok account
    pub promotable : is_promotable account.role ≡ true
    pub first : any_of (is_profile_of dto.user_id) (profile_rows w) ≡ false
    pub of_user : p.user_id ≡ dto.user_id
    pub pending : p.status ≡ InstallerStatus.pending
    pub added : profile_rows w' ≡ p ∷ profile_rows w
    pub promoted :
        user_rows w' ≡ map (change (λ u. str_eq u.id dto.user_id) made_installer) (user_rows w)

  created :
      (dto : CreateInstallerProfileDto) (u : User) (w : W)
      → b.find_user dto.user_id w ≡ ok u
      → is_promotable u.role ≡ true
      → b.profiles.get (is_profile_of dto.user_id) w ≡ ok none
      → ((e : Error) × (create_profile b dto w ≡ (err e, (create_profile b dto w).1))
          × IsUnchanged w (create_profile b dto w).1)
        ⊎ ((p : InstallerProfile) × (create_profile b dto w ≡ (ok p, (create_profile b dto w).1))
            × IsCreation dto p w (create_profile b dto w).1)
  unfolding create_profile create_unless find_profile_by_user_id new_profile
  created dto u w e own q =
      let m = promote_and_create b dto in
      let run : create_profile b dto w ≡ transaction b m w = rw (e, own, q) refl in
      let w' = (transaction b m w).1 in
      let pair : Result InstallerProfile → Result InstallerProfile × W = λ x. (x, w') in
      rw run (elim (Result-cases (transaction b m w).0) [
        | inr (x, k) ↦
            let (rows, others, accounts) = transaction-eq-err b laws m x w k in
            inl (x, ap pair k, (rows, accounts))
        | inl (p, k) ↦
            let w1 = (b.start w).1 in
            let won = transaction-eq-ok b laws m p w w' (ap pair k) in
            let s = promote_and_create-eq-ok b laws dto p w1 w' won in
            inr (
              p,
              ap pair k,
              record {
                account = u;
                found = e;
                promotable = own;
                first = laws.profiles.get_none (is_profile_of dto.user_id) w q;
                of_user = rw s.made refl;
                pending = rw s.made refl;
                added = rw (← laws.start_profiles w) s.added;
                promoted = rw (← laws.start_users w) s.promoted;
              },
            )
      ])

  -- Creating a profile, with tables and transactions that behave as documented, either fails and
  -- leaves profiles and users as they were; or the user exists and was a plain user or an installer
  -- without a profile, a pending profile of the user is added, and the user becomes an installer,
  -- and nothing else of the two tables changes.
  pub create_profile_lem :
      (dto : CreateInstallerProfileDto) (w : W)
      → ((e : Error) × (create_profile b dto w ≡ (err e, (create_profile b dto w).1))
          × IsUnchanged w (create_profile b dto w).1)
        ⊎ ((p : InstallerProfile) × (create_profile b dto w ≡ (ok p, (create_profile b dto w).1))
            × IsCreation dto p w (create_profile b dto w).1)
  unfolding create_profile create_unless find_profile_by_user_id
  create_profile_lem dto w = elim (Result-cases (b.find_user dto.user_id w)) [
    | inr (x, e) ↦ inl (x, rw e refl, rw e (refl, refl))
    | inl (u, e) ↦ elim (Bool-cases (is_promotable u.role)) [
      | inr other ↦ inl (privileged, rw (e, other) refl, rw (e, other) (refl, refl))
      | inl own ↦ elim (Result-cases (b.profiles.get (is_profile_of dto.user_id) w)) [
        | inr (x, q) ↦ inl (x, rw (e, own, q) refl, rw (e, own, q) (refl, refl))
        | inl (some p, q) ↦
            inl (resource_conflict, rw (e, own, q) refl, rw (e, own, q) (refl, refl))
        | inl (none, q) ↦ created dto u w e own q
      ]
    ]
  ]
