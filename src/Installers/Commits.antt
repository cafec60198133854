-- ===== src/Installers/Commits.antt =====
-- What the transactions of the installers service have written when they succeed, and that they have
-- written nothing when they fail.
use intell_api.Prelude.{
  ℕ, String, Bool, true, false, Option, none, some, ◌∷◌, map, ◌≡◌, inl, inr, refl, ap, sym, ◌∙◌,
  arith, str_eq, Bool-cases, any_of,
}
use intell_api.Exec.{Error, Result, ok, err, Exec, query, resume}
use intell_api.Exec.Laws.{Result-cases, >>=-eq-ok}
use intell_api.Users.{User}
use intell_api.Users.Accounts.{required}
use intell_api.Database.Laws.{change}
use intell_api.Installers.{InstallerStatus, InstallerProfile, InverterAssignment, status_eq}
use intell_api.Installers.Rows.{
  CreateInstallerProfileDto, CreateAssignmentDto, has_id, is_active_of, is_duplicate, new_profile,
  new_assignment, with_status, revoked, made_installer,
}
use intell_api.Installers.Service.{
  InstallersBackend, transaction, settle, suspend_in, assign, assign_unless, promote_and_create,
}
use intell_api.Installers.Laws.{InstallersLaws}

module _ {W : Type 0} (b : InstallersBackend W) (laws : InstallersLaws b) where
  open b use {now, profiles, assignments, users, start, commit}
  open laws use {profile_rows, assignment_rows, user_rows}

  pub transaction-eq-ok :
      {A : Type 0} (m : Exec W A) (a : A) (w w' : W)
      → transaction b m w ≡ (ok a, w')
      → m (start w).1 ≡ (ok a, w')
  unfolding transaction settle
  transaction-eq-ok {A} m a w w' h =
      let w1 = (start w).1 in
      let (u, e, k) = >>=-eq-ok start _ w w' h in by_result (m w1).0 (m w1).1 k
    where
      by_result :
          (r : Result A) (v : W)
          → settle b (start w).1 r v ≡ (ok a, w')
          → ◌≡◌ {A = Result A × W} (r, v) (ok a, w')
      by_result (ok x) v k = k
      by_result (err e) v k = absurd (ground (arith, k))

  -- A transaction that fails leaves every row as it was.
  pub transaction-eq-err :
      {A : Type 0} (m : Exec W A) (e : Error) (w : W)
      → (transaction b m w).0 ≡ err e
      → (profile_rows (transaction b m w).1 ≡ profile_rows w)
        × (assignment_rows (transaction b m w).1 ≡ assignment_rows w)
        × (user_rows (transaction b m w).1 ≡ user_rows w)
  unfolding transaction settle
  transaction-eq-err m e w h = elim (Result-cases (start w).0) [
    | inr (x, q) ↦ rw q (laws.start_profiles w, laws.start_assignments w, laws.start_users w)
    | inl (u, q) ↦
        let w1 = (start w).1 in
        elim (Result-cases (m w1).0) [
          | inl (a, k) ↦ absurd (ground (arith, q, k, h))
          | inr (x, k) ↦
              rw (q, k)
                (
                  laws.rolled_back_profiles w1 (m w1).1 ∙ laws.start_profiles w,
                  laws.rolled_back_assignments w1 (m w1).1 ∙ laws.start_assignments w,
                  laws.rolled_back_users w1 (m w1).1 ∙ laws.start_users w,
                )
        ]
  ]

  -- A row that is required, by a query.
  found_row :
      {A B : Type 0} (e : Error) (o : Option A) (f : A → Exec W B) (y : B) (w w' : W)
      → resume (required e o w) f w ≡ (ok y, w')
      → (a : A) × (o ≡ some a) × (f a w ≡ (ok y, w'))
  unfolding required
  found_row e none f y w w' h = absurd (ground (arith, h))
  found_row e (some a) f y w w' h = (a, refl, h)

  pub record IsSuspension (id : String) (p : InstallerProfile) (w w' : W) : Type 0 where
    pub profile : InstallerProfile
    pub found : profiles.get (has_id id) w ≡ ok (some profile)
    pub answer : p ≡ with_status InstallerStatus.suspended profile
    pub revoked_rows :
        assignment_rows w' ≡ map (change (is_active_of id) (revoked (now w))) (assignment_rows w)
    pub suspended_rows :
        profile_rows w'
        ≡ map (change (has_id id) (with_status InstallerStatus.suspended)) (profile_rows w)

  pub suspend_in-eq-ok :
      (id : String) (p : InstallerProfile) (w w' : W)
      → suspend_in b id w ≡ (ok p, w')
      → IsSuspension id p w w'
  unfolding suspend_in
  suspend_in-eq-ok id p w w' h =
      let f = with_status InstallerStatus.suspended in
      let revoke = revoked (now w) in
      let (o, e1, h1) = >>=-eq-ok (query (profiles.get (has_id id))) _ w w' h in
      let (profile, e2, h2) = found_row _ o _ p w w' h1 in
      let m1 = assignments.update_where (is_active_of id) revoke in
      let w1 = (m1 w).1 in
      let (n, e3, h3) = >>=-eq-ok m1 _ w w' h2 in
      let m2 = profiles.update_where (has_id id) f in
      let w2 = (m2 w1).1 in
      let (k, e4, h4) = >>=-eq-ok m2 _ w1 w' h3 in
      let (u, e5, h5) = >>=-eq-ok commit _ w2 w' h4 in
      let last : (commit w2).1 ≡ w' = ap (λ (r : Result InstallerProfile × W). r.1) h5 in
      record {
        profile = profile;
        found = ap (λ (r : Result (Option InstallerProfile) × W). r.0) e1 ∙ ap (λ x. ok x) e2;
        answer = ground (arith, h5);
        revoked_rows =
            ap assignment_rows (sym last)
            ∙ laws.commit_assignments w2
            ∙ laws.profiles_update_where (has_id id) f w1
            ∙ (laws.assignments.update_where_rows (is_active_of id) revoke w w1 n e3).0;
        suspended_rows =
            ap profile_rows (sym last)
            ∙ laws.commit_profiles w2
            ∙ (laws.profiles.update_where_rows (has_id id) f w1 w2 k e4).0
            ∙ ap (map (change (has_id id) f))
                (laws.assignments_update_where (is_active_of id) revoke w);
      }

  pub record IsAssigned (dto : CreateAssignmentDto) (user_id : String) (a : InverterAssignment)
      (w w' : W) : Type 0 where
    pub profile : InstallerProfile
    pub found : profiles.get (has_id dto.installer_profile_id) w ≡ ok (some profile)
    pub active : status_eq profile.status InstallerStatus.active ≡ true
    pub free :
        any_of (is_duplicate dto.inverter_id dto.installer_profile_id) (assignment_rows w) ≡ false
    pub key : String
    pub time : ℕ
    pub made : a ≡ new_assignment dto user_id (now w) key time
    pub added : assignment_rows w' ≡ a ∷ assignment_rows w
    pub others : profile_rows w' ≡ profile_rows w

  assign_unless-eq-ok :
      (dto : CreateAssignmentDto) (user_id : String) (o : Option InverterAssignment)
      (profile : InstallerProfile) (a : InverterAssignment) (w w' : W)
      → profiles.get (has_id dto.installer_profile_id) w ≡ ok (some profile)
      → status_eq profile.status InstallerStatus.active ≡ true
      → assignments.get (is_duplicate dto.inverter_id dto.installer_profile_id) w ≡ ok o
      → assign_unless b dto user_id o w ≡ (ok a, w')
      → IsAssigned dto user_id a w w'
  unfolding assign_unless
  assign_unless-eq-ok dto user_id (some x) profile a w w' f s e h = absurd (ground (arith, h))
  assign_unless-eq-ok dto user_id none profile a w w' f s e h =
      let mk = new_assignment dto user_id (now w) in
      let w1 = (assignments.create mk w).1 in
      let (x, e1, h1) = >>=-eq-ok (assignments.create mk) _ w w' h in
      let (u, e2, h2) = >>=-eq-ok commit _ w1 w' h1 in
      let last : (commit w1).1 ≡ w' = ap (λ (r : Result InverterAssignment × W). r.1) h2 in
      let same : x ≡ a = ground (arith, h2) in
      let (key, at, made, added, fresh) = laws.assignments.create_rows mk w w1 x e1 in
      record {
        profile = profile;
        found = f;
        active = s;
        free =
            laws.assignments.get_none (is_duplicate dto.inverter_id dto.installer_profile_id) w e;
        key = key;
        time = at;
        made = sym same ∙ made;
        added =
            ap assignment_rows (sym last)
            ∙ laws.commit_assignments w1
            ∙ (added ∙ ap (λ y. y ∷ assignment_rows w) same);
        others =
            ap profile_rows (sym last) ∙ laws.commit_profiles w1 ∙ laws.assignments_create mk w;
      }

  pub assign-eq-ok :
      (dto : CreateAssignmentDto) (user_id : String) (a : InverterAssignment) (w w' : W)
      → assign b dto user_id w ≡ (ok a, w')
      → IsAssigned dto user_id a w w'
  unfolding assign
  assign-eq-ok dto user_id a w w' h =
      let get = profiles.get (has_id dto.installer_profile_id) in
      let (o, e1, h1) = >>=-eq-ok (query get) _ w w' h in
      let (profile, e2, h2) = found_row _ o _ a w w' h1 in
      let found : get w ≡ ok (some profile) =
        ap (λ (r : Result (Option InstallerProfile) × W). r.0) e1 ∙ ap (λ x. ok x) e2 in
      elim (Bool-cases (status_eq profile.status InstallerStatus.active)) [
        | inr off ↦ absurd (ground (arith, off, h2))
        | inl on ↦
            let dup = assignments.get (is_duplicate dto.inverter_id dto.installer_profile_id) in
            let (x, e3, h3) = >>=-eq-ok (query dup) _ w w' (simp on at h2) in
            assign_unless-eq-ok dto user_id x profile a w w' found on
              (ap (λ (r : Result (Option InverterAssignment) × W). r.0) e3) h3
      ]

  pub record IsPromoted (dto : CreateInstallerProfileDto) (p : InstallerProfile) (w w' : W)
      : Type 0 where
    pub key : String
    pub time : ℕ
    pub made : p ≡ new_profile dto key time
    pub added : profile_rows w' ≡ p ∷ profile_rows w
    pub fresh : any_of (has_id key) (profile_rows w) ≡ false
    pub promoted :
        user_rows w' ≡ map (change (λ u. str_eq u.id dto.user_id) made_installer) (user_rows w)
    pub others : assignment_rows w' ≡ assignment_rows w

  pub promote_and_create-eq-ok :
      (dto : CreateInstallerProfileDto) (p : InstallerProfile) (w w' : W)
      → promote_and_create b dto w ≡ (ok p, w')
      → IsPromoted dto p w w'
  unfolding promote_and_create
  promote_and_create-eq-ok dto p w w' h =
      let is_user : User → Bool = λ u. str_eq u.id dto.user_id in
      let m1 = users.update_where is_user made_installer in
      let w1 = (m1 w).1 in
      let (n, e1, h1) = >>=-eq-ok m1 _ w w' h in
      let mk = new_profile dto in
      let w2 = (profiles.create mk w1).1 in
      let (x, e2, h2) = >>=-eq-ok (profiles.create mk) _ w1 w' h1 in
      let (u, e3, h3) = >>=-eq-ok commit _ w2 w' h2 in
      let last : (commit w2).1 ≡ w' = ap (λ (r : Result InstallerProfile × W). r.1) h3 in
      let same : x ≡ p = ground (arith, h3) in
      let (key, at, made, added, fresh) = laws.profiles.create_rows mk w1 w2 x e2 in
      let rows = laws.users_profiles is_user made_installer w in
      record {
        key = key;
        time = at;
        made = sym same ∙ made;
        added =
            ap profile_rows (sym last)
            ∙ laws.commit_profiles w2
            ∙ added
            ∙ (ap (λ y. y ∷ profile_rows w1) same ∙ ap (λ ys. p ∷ ys) rows);
        fresh = ap (any_of (has_id key)) (sym rows) ∙ fresh;
        promoted =
            ap user_rows (sym last)
            ∙ laws.commit_users w2
            ∙ laws.profiles_create_users mk w1
            ∙ (laws.users.update_where_rows is_user made_installer w w1 n e1).0;
        others =
            ap assignment_rows (sym last)
            ∙ laws.commit_assignments w2
            ∙ laws.profiles_create mk w1
            ∙ laws.users_assignments is_user made_installer w;
      }
