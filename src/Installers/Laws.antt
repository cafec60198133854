-- ===== src/Installers/Laws.antt =====
-- What is asked of the tables and the transactions of the installers service.
use intell_api.Prelude.{Bool, String, List, ◌≡◌, ℕ}
use intell_api.Users.{User}
use intell_api.Database.Laws.{TableLaws}
use intell_api.Installers.{InstallerProfile, InverterAssignment}
use intell_api.Installers.Service.{InstallersBackend}

pub record InstallersLaws {W : Type 0} (b : InstallersBackend W) : Type 0 where
  pub profile_rows : W → List InstallerProfile
  pub assignment_rows : W → List InverterAssignment
  pub user_rows : W → List User
  pub profiles : TableLaws b.profiles profile_rows (λ p. p.id)
  pub assignments : TableLaws b.assignments assignment_rows (λ a. a.id)
  pub users : TableLaws b.users user_rows (λ u. u.id)
  -- A write to one table leaves the others alone.
  pub profiles_update :
      (p : InstallerProfile → Bool) (f : InstallerProfile → InstallerProfile) (w : W)
      → assignment_rows (b.profiles.update p f w).1 ≡ assignment_rows w
  pub profiles_update_where :
      (p : InstallerProfile → Bool) (f : InstallerProfile → InstallerProfile) (w : W)
      → assignment_rows (b.profiles.update_where p f w).1 ≡ assignment_rows w
  pub profiles_create :
      (mk : String → ℕ → InstallerProfile) (w : W)
      → assignment_rows (b.profiles.create mk w).1 ≡ assignment_rows w
  pub profiles_create_users :
      (mk : String → ℕ → InstallerProfile) (w : W)
      → user_rows (b.profiles.create mk w).1 ≡ user_rows w
  pub assignments_update :
      (p : InverterAssignment → Bool) (f : InverterAssignment → InverterAssignment) (w : W)
      → profile_rows (b.assignments.update p f w).1 ≡ profile_rows w
  pub assignments_update_where :
      (p : InverterAssignment → Bool) (f : InverterAssignment → InverterAssignment) (w : W)
      → profile_rows (b.assignments.update_where p f w).1 ≡ profile_rows w
  pub assignments_create :
      (mk : String → ℕ → InverterAssignment) (w : W)
      → profile_rows (b.assignments.create mk w).1 ≡ profile_rows w
  pub users_profiles :
      (p : User → Bool) (f : User → User) (w : W)
      → profile_rows (b.users.update_where p f w).1 ≡ profile_rows w
  pub users_assignments :
      (p : User → Bool) (f : User → User) (w : W)
      → assignment_rows (b.users.update_where p f w).1 ≡ assignment_rows w
  -- So do the start and the end of a transaction; rolling back restores the rows at its start.
  pub start_profiles : (w : W) → profile_rows (b.start w).1 ≡ profile_rows w
  pub start_assignments : (w : W) → assignment_rows (b.start w).1 ≡ assignment_rows w
  pub start_users : (w : W) → user_rows (b.start w).1 ≡ user_rows w
  pub commit_profiles : (w : W) → profile_rows (b.commit w).1 ≡ profile_rows w
  pub commit_assignments : (w : W) → assignment_rows (b.commit w).1 ≡ assignment_rows w
  pub commit_users : (w : W) → user_rows (b.commit w).1 ≡ user_rows w
  pub rolled_back_profiles : (w v : W) → profile_rows (b.rolled_back w v) ≡ profile_rows w
  pub rolled_back_assignments : (w v : W) → assignment_rows (b.rolled_back w v) ≡ assignment_rows w
  pub rolled_back_users : (w v : W) → user_rows (b.rolled_back w v) ≡ user_rows w
