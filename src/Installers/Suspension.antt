-- ===== src/Installers/Suspension.antt =====
-- A suspended installer.
use intell_api.Prelude.{String, true, some, ◌≡◌, ◌≢◌, inl, inr, refl, ap, arith, str_eq, Bool-cases}
use intell_api.Exec.{Result, ok}
use intell_api.Exec.Laws.{Result-cases}
use intell_api.Database.Laws.{count, count-change_out, Memᴰ-change}
use intell_api.Installers.{InstallerStatus, InstallerProfile, InverterAssignment, status_eq}
use intell_api.Installers.Rows.{CreateAssignmentDto, has_id, is_active_of, with_status, revoked}
use intell_api.Installers.Service.{
  InstallersBackend, transaction, suspend_in, assign, update_status, create_assignment,
}
use intell_api.Installers.Commits.{transaction-eq-ok, suspend_in-eq-ok, assign-eq-ok}
use intell_api.Installers.Laws.{InstallersLaws}

module _ {W : Type 0} (b : InstallersBackend W) (laws : InstallersLaws b) where
  open laws use {profile_rows, assignment_rows}

  created_there :
      (dto : CreateAssignmentDto) (user_id : String) (a : InverterAssignment) (w : W)
      → (create_assignment b dto user_id w).0 ≡ ok a
      → (p : InstallerProfile) × (b.profiles.get (has_id dto.installer_profile_id) (b.start w).1
          ≡ ok (some p))
        × (status_eq p.status InstallerStatus.active ≡ true)
  unfolding create_assignment
  created_there dto user_id a w h = elim (Result-cases (b.find_inverter dto.inverter_id w)) [
    | inr (x, e) ↦ absurd (ground (arith, e, h))
    | inl (i, e) ↦ elim (Bool-cases (str_eq i.user_id user_id)) [
      | inr other ↦ absurd (ground (arith, e, other, h))
      | inl own ↦
          let m = assign b dto user_id in
          let w' = (transaction b m w).1 in
          let pair : Result InverterAssignment → Result InverterAssignment × W = λ x. (x, w') in
          let won = transaction-eq-ok b laws m a w w' (ap pair (rw (e, own) at h)) in
          let s = assign-eq-ok b laws dto user_id a (b.start w).1 w' won in
          (s.profile, s.found, s.active)
    ]
  ]

  -- After an installer is suspended with success, with tables and transactions that behave as
  -- documented, the installer has no active assignment, and no user can assign the installer to any
  -- inverter from there.
  pub update_status_lem :
      (id : String) (p : InstallerProfile) (w w' : W)
      → update_status b id InstallerStatus.suspended w ≡ (ok p, w')
      → (count (is_active_of id) (assignment_rows w') ≡ 0)
        × ((inverter_id user_id : String) (dto : CreateAssignmentDto) (a : InverterAssignment)
            → (create_assignment b
                (record dto { inverter_id = inverter_id; installer_profile_id = id })
                user_id
                w').0
              ≢ ok a)
  unfolding update_status revoked with_status
  update_status_lem id p w w' h =
      let w1 = (b.start w).1 in
      let s =
        suspend_in-eq-ok b laws id p w1 w' (transaction-eq-ok b laws (suspend_in b id) p w w' h) in
      let g = revoked (b.now w1) in
      let out =
        count-change_out (is_active_of id) (is_active_of id) g (assignment_rows w1)
          (λ a. ground arith) (λ a k. k) in
      (
        rw s.revoked_rows (omega (arith, out)),
        λ inverter_id user_id dto a won.
            let d : CreateAssignmentDto = record dto {
              inverter_id = inverter_id;
              installer_profile_id = id;
            } in
            let (q, found, active) = created_there d user_id a w' won in
            let (row, key) = laws.profiles.get_some (has_id id) (b.start w').1 q found in
            let (r, made) =
              Memᴰ-change (has_id id) (with_status InstallerStatus.suspended) (profile_rows w1)
                (λ x. refl) (rw (laws.start_profiles w', s.suspended_rows) at row) key in
            absurd (ground (arith, made, active)),
      )
