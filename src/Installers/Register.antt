-- ===== src/Installers/Register.antt =====
-- What is kept true of the tables of installers and assignments.
pub mod Effects
use intell_api.Prelude.{
  ℕ, ◌+◌, ◌≤◌, String, Bool, true, false, not, List, [], ◌∷◌, map, ◌≡◌, ◌⊎◌, inl, inr, refl, arith,
  str_eq, eq_iff, Bool-cases, ◌&&◌,
}
use intell_api.Exec.Keeps.{Keeps}
use intell_api.Database.Laws.{change, count, count-change_le, update_cases}
use intell_api.Installers.{InstallerStatus, InstallerProfile, InverterAssignment, status_eq}
use intell_api.Installers.Rows.{has_id, is_active_of, is_duplicate, with_status, revoked}
use intell_api.Installers.Service.{InstallersBackend}
use intell_api.Installers.Laws.{InstallersLaws}

abbrev pub is_suspended : String → InstallerProfile → Bool
is_suspended id p = has_id id p && status_eq p.status InstallerStatus.suspended

-- Suspending one profile suspends no other.
pub others-count :
    (id i : String) (rs : List InstallerProfile)
    → str_eq id i ≡ false
    → count (is_suspended i) (map (change (has_id id) (with_status InstallerStatus.suspended)) rs)
      ≡ count (is_suspended i) rs
unfolding with_status
others-count id i [] h = refl
others-count id i (r ∷ rs) h = elim (Bool-cases (has_id id r)) [
  | inr miss ↦ rw miss (ground (arith, others-count id i rs h))
  | inl hit ↦
      let other : has_id i r ≡ false = rw (← (eq_iff r.id id).0 hit) at h in
      rw (hit, other) (omega (arith, others-count id i rs h))
]

-- Of the profiles of an id some are suspended, and the others not.
pub split_count :
    (id : String) (rs : List InstallerProfile)
    → count (is_suspended id) rs
        + count (λ p. has_id id p && not (status_eq p.status InstallerStatus.suspended)) rs
      ≡ count (has_id id) rs
split_count id [] = refl
split_count id (r ∷ rs) = ground (arith, split_count id rs)

module _ {W : Type 0} (b : InstallersBackend W) (laws : InstallersLaws b) where
  open laws use {profile_rows, assignment_rows}

  -- Ids of profiles are unique, an installer has one active assignment to an inverter at most, and a
  -- suspended one has none.
  pub record IsRegister (w : W) : Type 0 where
    pub ids : (id : String) → count (has_id id) (profile_rows w) ≤ 1
    pub once : (inverter id : String) → count (is_duplicate inverter id) (assignment_rows w) ≤ 1
    pub quiet :
        (id : String)
        → (count (is_suspended id) (profile_rows w) ≡ 0)
          ⊎ (count (is_active_of id) (assignment_rows w) ≡ 0)

  -- A state with the same rows.
  pub same :
      (v w : W)
      → profile_rows w ≡ profile_rows v
      → assignment_rows w ≡ assignment_rows v
      → IsRegister v
      → IsRegister w
  same v w e k r = record {
    ids = λ id. rw e (r.ids id);
    once = λ i id. rw k (r.once i id);
    quiet = λ id. rw (e, k) (r.quiet id);
  }

  -- No more active assignments than before, and the same profiles.
  pub fewer :
      (v w : W) (p : InverterAssignment → Bool) (f : InverterAssignment → InverterAssignment)
      → ((i id : String) (a : InverterAssignment)
          → is_duplicate i id (f a) ≡ true
          → is_duplicate i id a ≡ true)
      → ((id : String) (a : InverterAssignment)
          → is_active_of id (f a) ≡ true
          → is_active_of id a ≡ true)
      → profile_rows w ≡ profile_rows v
      → assignment_rows w ≡ map (change p f) (assignment_rows v)
      → IsRegister v
      → IsRegister w
  fewer v w p f h k e q r = record {
    ids = λ id. rw e (r.ids id);
    once = λ i id.
        let le = count-change_le (is_duplicate i id) p f (assignment_rows v) (h i id) in
        rw q (omega (arith, le, r.once i id));
    quiet = λ id. elim (r.quiet id) [
      | inl none_ ↦ inl (rw e none_)
      | inr none_ ↦
          let le = count-change_le (is_active_of id) p f (assignment_rows v) (k id) in
          inr (rw q (omega (arith, le, none_)))
    ];
  }

  pub revoked-Keeps-update :
      (p : InverterAssignment → Bool) (time : ℕ)
      → Keeps IsRegister (b.assignments.update p (revoked time))
  unfolding revoked
  revoked-Keeps-update p time w r =
      let w' = (b.assignments.update p (revoked time) w).1 in
      let e = laws.assignments_update p (revoked time) w in
      elim (update_cases b.assignments laws.assignments p (revoked time) w) [
        | inl q ↦ same w w' e q r
        | inr q ↦
            fewer w w' p (revoked time) (λ i id a h. absurd (ground (arith, h)))
              (λ id a h. absurd (ground (arith, h))) e q r
      ]
