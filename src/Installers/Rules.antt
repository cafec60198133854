-- ===== src/Installers/Rules.antt =====
-- Every operation of the installers service keeps the rules of the tables.
use intell_api.Prelude.{
  String, Bool, false, Option, none, some, ◌≡◌, inl, inr, refl, arith, str_eq, Bool-cases,
}
use intell_api.Exec.{ok}
use intell_api.Exec.Laws.{Result-cases}
use intell_api.Exec.Keeps.{Keeps}
use intell_api.Users.Accounts.{required}
use intell_api.Database.Laws.{count-change_le, update_cases}
use intell_api.Installers.{
  InstallerStatus, AssignmentStatus, InstallerProfile, InverterAssignment, status_eq, assignment_eq,
}
use intell_api.Installers.Rows.{
  CreateInstallerProfileDto, CreateAssignmentDto, is_promotable, is_profile_of, has_id, with_status,
  revoked,
}
use intell_api.Installers.Service.{
  InstallersBackend, suspend_in, assign, promote_and_create, create_profile, create_unless,
  find_profile_by_user_id, update_status, set_status, find_profile_by_id, create_assignment, revoke,
  revoke_assignment, is_elsewhere,
}
use intell_api.Installers.Laws.{InstallersLaws}
use intell_api.Installers.Register.{is_suspended, IsRegister, same, revoked-Keeps-update}
use intell_api.Installers.Register.Effects.{
  transaction-Keeps, suspension-IsRegister, assign-IsRegister, promotion-IsRegister,
}

-- The operations of the service that write, with their arguments.
pub data InstallerOp : Type 0 where
  profile_op : CreateInstallerProfileDto → InstallerOp
  status_op : String → InstallerStatus → InstallerOp
  assign_op : CreateAssignmentDto → String → InstallerOp
  revoke_op : String → String → Option String → InstallerOp

module _ {W : Type 0} (b : InstallersBackend W) (laws : InstallersLaws b) where
  open laws use {profile_rows, assignment_rows}

  updated-Keeps :
      (test : InstallerProfile → Bool) (status : InstallerStatus)
      → status_eq status InstallerStatus.suspended ≡ false
      → Keeps (IsRegister b laws) (b.profiles.update test (with_status status))
  unfolding with_status
  updated-Keeps test status open_ w r =
      let f = with_status status in
      let w' = (b.profiles.update test f w).1 in
      let k = laws.profiles_update test f w in
      elim (update_cases b.profiles laws.profiles test f w) [
        | inl e ↦ same b laws w w' e k r
        | inr e ↦ record {
          ids = λ i.
              let le = count-change_le (has_id i) test f (profile_rows w) (λ x h. h) in
              rw e (omega (arith, le, r.ids i));
          once = λ i j. rw k (r.once i j);
          quiet = λ i. elim (r.quiet i) [
            | inr none_ ↦ inr (rw k none_)
            | inl none_ ↦
                let le =
                  count-change_le (is_suspended i) test f (profile_rows w)
                    (λ x h. absurd (ground (arith, h, open_))) in
                inl (rw e (omega (arith, le, none_)))
          ];
        }
      ]

  -- A profile that is given another state than that of the suspended.
  set_status-Keeps :
      (id : String) (status : InstallerStatus)
      → status_eq status InstallerStatus.suspended ≡ false
      → Keeps (IsRegister b laws) (set_status b id status)
  unfolding set_status find_profile_by_id required
  set_status-Keeps id status open_ w r = elim (Result-cases (b.profiles.get (has_id id) w)) [
    | inr (x, e) ↦ rw e r
    | inl (none, e) ↦ rw e r
    | inl (some p, e) ↦
        let kept = updated-Keeps (has_id p.id) status open_ w r in
        elim (Result-cases (b.profiles.update (has_id p.id) (with_status status) w).0) [
          | inr (x, q) ↦ rw (e, q) kept
          | inl (none, q) ↦ rw (e, q) kept
          | inl (some a, q) ↦ rw (e, q) kept
        ]
  ]

  revoke-Keeps : (id : String) → Keeps (IsRegister b laws) (revoke b id)
  unfolding revoke required
  revoke-Keeps id w r =
      let test : InverterAssignment → Bool = λ a. str_eq a.id id in
      let kept = revoked-Keeps-update b laws test (b.now w) w r in
      elim (Result-cases (b.assignments.update test (revoked (b.now w)) w).0) [
        | inr (x, q) ↦ rw q kept
        | inl (none, q) ↦ rw q kept
        | inl (some a, q) ↦ rw q kept
      ]

  create_profile-Keeps :
      (dto : CreateInstallerProfileDto) → Keeps (IsRegister b laws) (create_profile b dto)
  unfolding create_profile create_unless find_profile_by_user_id
  create_profile-Keeps dto w r = elim (Result-cases (b.find_user dto.user_id w)) [
    | inr (x, e) ↦ rw e r
    | inl (u, e) ↦ elim (Bool-cases (is_promotable u.role)) [
      | inr other ↦ rw (e, other) r
      | inl own ↦ elim (Result-cases (b.profiles.get (is_profile_of dto.user_id) w)) [
        | inr (x, q) ↦ rw (e, own, q) r
        | inl (some p, q) ↦ rw (e, own, q) r
        | inl (none, q) ↦
            rw (e, own, q)
              (transaction-Keeps b laws (promote_and_create b dto) (promotion-IsRegister b laws dto)
                w r)
      ]
    ]
  ]

  create_assignment-Keeps :
      (dto : CreateAssignmentDto) (user_id : String)
      → Keeps (IsRegister b laws) (create_assignment b dto user_id)
  unfolding create_assignment
  create_assignment-Keeps dto user_id w r =
      elim (Result-cases (b.find_inverter dto.inverter_id w)) [
        | inr (x, e) ↦ rw e r
        | inl (i, e) ↦ elim (Bool-cases (str_eq i.user_id user_id)) [
          | inr other ↦ rw (e, other) r
          | inl own ↦
              rw (e, own)
                (transaction-Keeps b laws (assign b dto user_id)
                  (assign-IsRegister b laws dto user_id) w r)
        ]
      ]

  revoke_found :
      (id user_id : String) (expected : Option String) (a : InverterAssignment) (w : W)
      → b.assignments.get (λ x. str_eq x.id id) w ≡ ok (some a)
      → IsRegister b laws w
      → IsRegister b laws (revoke_assignment b id user_id expected w).1
  unfolding revoke_assignment required
  revoke_found id user_id expected a w e r = elim (Bool-cases (is_elsewhere b expected a)) [
    | inl elsewhere ↦ rw (e, elsewhere) r
    | inr here ↦ elim (Result-cases (b.find_inverter a.inverter_id w)) [
      | inr (x, q) ↦ rw (e, here, q) r
      | inl (i, q) ↦ elim (Bool-cases (str_eq i.user_id user_id)) [
        | inr other ↦ rw (e, here, q, other) r
        | inl own ↦ elim (Bool-cases (assignment_eq a.status AssignmentStatus.revoked)) [
          | inl done ↦ rw (e, here, q, own, done) r
          | inr live ↦ rw (e, here, q, own, live) (revoke-Keeps id w r)
        ]
      ]
    ]
  ]

  revoke_assignment-Keeps :
      (id user_id : String) (expected : Option String)
      → Keeps (IsRegister b laws) (revoke_assignment b id user_id expected)
  unfolding revoke_assignment required
  revoke_assignment-Keeps id user_id expected w r =
      elim (Result-cases (b.assignments.get (λ x. str_eq x.id id) w)) [
        | inr (x, e) ↦ rw e r
        | inl (none, e) ↦ rw e r
        | inl (some a, e) ↦ revoke_found id user_id expected a w e r
      ]

  -- The tables after an operation, whether it returns or throws.
  pub run : InstallerOp → W → W
  run (profile_op dto) w = (create_profile b dto w).1
  run (status_op id status) w = (update_status b id status w).1
  run (assign_op dto user_id) w = (create_assignment b dto user_id w).1
  run (revoke_op id user_id expected) w = (revoke_assignment b id user_id expected w).1

  -- Every operation that writes, also where it throws, keeps the ids of profiles unique, one active
  -- assignment at most of each installer to each inverter, and none of a suspended installer, with
  -- tables and transactions that behave as documented.
  pub run-IsRegister :
      (op : InstallerOp) (w : W) → IsRegister b laws w → IsRegister b laws (run op w)
  unfolding run update_status
  run-IsRegister (profile_op dto) w r = create_profile-Keeps dto w r
  run-IsRegister (status_op id InstallerStatus.suspended) w r =
      transaction-Keeps b laws (suspend_in b id) (suspension-IsRegister b laws id) w r
  run-IsRegister (status_op id InstallerStatus.active) w r =
      set_status-Keeps id InstallerStatus.active refl w r
  run-IsRegister (status_op id InstallerStatus.pending) w r =
      set_status-Keeps id InstallerStatus.pending refl w r
  run-IsRegister (assign_op dto user_id) w r = create_assignment-Keeps dto user_id w r
  run-IsRegister (revoke_op id user_id expected) w r =
      revoke_assignment-Keeps id user_id expected w r
