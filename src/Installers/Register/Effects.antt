-- ===== src/Installers/Register/Effects.antt =====
-- The transactions of the installers service keep the rules of the tables.
use intell_api.Prelude.{String, not, ◌≡◌, inl, inr, ap, arith, str_eq, eq_iff, Bool-cases, ◌&&◌}
use intell_api.Exec.{Result, ok, Exec}
use intell_api.Exec.Laws.{Result-cases}
use intell_api.Exec.Keeps.{Keeps}
use intell_api.Database.Laws.{count, count-change_le, count-change_out, count-any_of, count-Memᴰ}
use intell_api.Installers.{InstallerStatus, InstallerProfile, InverterAssignment, status_eq}
use intell_api.Installers.Rows.{
  CreateInstallerProfileDto, CreateAssignmentDto, has_id, is_active_of, is_duplicate, new_profile,
  new_assignment, with_status, revoked,
}
use intell_api.Installers.Service.{
  InstallersBackend, transaction, suspend_in, assign, promote_and_create,
}
use intell_api.Installers.Commits.{
  transaction-eq-ok, transaction-eq-err, suspend_in-eq-ok, assign-eq-ok, promote_and_create-eq-ok,
}
use intell_api.Installers.Laws.{InstallersLaws}
use intell_api.Installers.Register.{is_suspended, IsRegister, same, others-count, split_count}

module _ {W : Type 0} (b : InstallersBackend W) (laws : InstallersLaws b) where
  open laws use {profile_rows, assignment_rows}

  pub transaction-Keeps :
      {A : Type 0} (m : Exec W A)
      → ((a : A) (w w' : W) → m w ≡ (ok a, w') → IsRegister b laws w → IsRegister b laws w')
      → Keeps (IsRegister b laws) (transaction b m)
  transaction-Keeps {A} m h w r =
      let w' = (transaction b m w).1 in
      let pair : Result A → Result A × W = λ x. (x, w') in
      elim (Result-cases (transaction b m w).0) [
        | inr (e, q) ↦ let (k, l, n) = transaction-eq-err b laws m e w q in same b laws w w' k l r
        | inl (a, q) ↦
            let w1 = (b.start w).1 in
            h a w1 w' (transaction-eq-ok b laws m a w w' (ap pair q))
              (same b laws w w1 (laws.start_profiles w) (laws.start_assignments w) r)
      ]

  pub suspension-IsRegister :
      (id : String) (p : InstallerProfile) (w w' : W)
      → suspend_in b id w ≡ (ok p, w')
      → IsRegister b laws w
      → IsRegister b laws w'
  unfolding revoked with_status
  suspension-IsRegister id p w w' h r =
      let s = suspend_in-eq-ok b laws id p w w' h in
      let f = with_status InstallerStatus.suspended in
      let g = revoked (b.now w) in
      let ps = profile_rows w in
      let as_ = assignment_rows w in
      record {
        ids = λ i.
            let le = count-change_le (has_id i) (has_id id) f ps (λ x k. k) in
            rw s.suspended_rows (omega (arith, le, r.ids i));
        once = λ i k.
            let le =
              count-change_le (is_duplicate i k) (is_active_of id) g as_
                (λ a k. absurd (ground (arith, k))) in
            rw s.revoked_rows (omega (arith, le, r.once i k));
        quiet = λ i. elim (Bool-cases (str_eq id i)) [
          | inl here ↦
              let none_ =
                count-change_out (is_active_of id) (is_active_of id) g as_ (λ a. ground arith)
                  (λ a k. k) in
              inr (rw (← (eq_iff id i).0 here, s.revoked_rows) (omega (arith, none_)))
          | inr there ↦ elim (r.quiet i) [
            | inl none_ ↦ inl (rw (s.suspended_rows, others-count id i ps there) none_)
            | inr none_ ↦
                let le =
                  count-change_le (is_active_of i) (is_active_of id) g as_
                    (λ a k. absurd (ground (arith, k))) in
                inr (rw s.revoked_rows (omega (arith, le, none_)))
          ]
        ];
      }

  pub assign-IsRegister :
      (dto : CreateAssignmentDto) (user_id : String) (a : InverterAssignment) (w w' : W)
      → assign b dto user_id w ≡ (ok a, w')
      → IsRegister b laws w
      → IsRegister b laws w'
  unfolding new_assignment
  assign-IsRegister dto user_id a w w' h r =
      let s = assign-eq-ok b laws dto user_id a w w' h in
      let id = dto.installer_profile_id in
      let (row, key) = laws.profiles.get_some (has_id id) w s.profile s.found in
      let one =
        count-Memᴰ (λ p. has_id id p && not (status_eq p.status InstallerStatus.suspended)) row
          (ground (arith, key, s.active)) in
      let none_ : count (is_suspended id) (profile_rows w) ≡ 0 =
        omega (arith, one, split_count id (profile_rows w), r.ids id) in
      let free = count-any_of (is_duplicate dto.inverter_id id) (assignment_rows w) s.free in
      record {
        ids = λ i. rw s.others (r.ids i);
        once = λ i k.
            rw (s.added, s.made)
              (elim (Bool-cases (str_eq dto.inverter_id i && str_eq id k)) [
                | inl here ↦
                    let e1 = (eq_iff dto.inverter_id i).0 (ground (arith, here)) in
                    let e2 = (eq_iff id k).0 (ground (arith, here)) in
                    let zero_ : count (is_duplicate i k) (assignment_rows w) ≡ 0 =
                      rw (e1, e2) at free in
                    ground (arith, here, zero_)
                | inr there ↦ ground (arith, there, r.once i k)
              ]);
        quiet = λ k. elim (Bool-cases (str_eq id k)) [
          | inl here ↦ inl (rw (← (eq_iff id k).0 here, s.others) none_)
          | inr there ↦ elim (r.quiet k) [
            | inl zero_ ↦ inl (rw s.others zero_)
            | inr zero_ ↦ inr (rw (s.added, s.made) (ground (arith, there, zero_)))
          ]
        ];
      }

  pub promotion-IsRegister :
      (dto : CreateInstallerProfileDto) (p : InstallerProfile) (w w' : W)
      → promote_and_create b dto w ≡ (ok p, w')
      → IsRegister b laws w
      → IsRegister b laws w'
  unfolding new_profile
  promotion-IsRegister dto p w w' h r =
      let s = promote_and_create-eq-ok b laws dto p w w' h in
      let free = count-any_of (has_id s.key) (profile_rows w) s.fresh in
      record {
        ids = λ i.
            rw (s.added, s.made)
              (elim (Bool-cases (str_eq s.key i)) [
                | inl here ↦
                    let zero_ : count (has_id i) (profile_rows w) ≡ 0 =
                      let e = (eq_iff s.key i).0 here in rw e at free in
                    ground (arith, here, zero_)
                | inr there ↦ ground (arith, there, r.ids i)
              ]);
        once = λ i k. rw s.others (r.once i k);
        quiet = λ k. elim (r.quiet k) [
          | inl zero_ ↦ inl (rw (s.added, s.made) (ground (arith, zero_)))
          | inr zero_ ↦ inr (rw s.others zero_)
        ];
      }
