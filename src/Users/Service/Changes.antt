-- ===== src/Users/Service/Changes.antt =====
-- What a change of a user does to the table.
use intell_api.Prelude.{String, Option, none, some, List, map, ◌≡◌, inl, inr, ap, arith}
use intell_api.Exec.{Result, ok}
use intell_api.Exec.Laws.{Result-cases}
use intell_api.Users.{User}
use intell_api.Users.Accounts.{AccountsBackend, required}
use intell_api.Users.Service.{find_one, change_user}
use intell_api.Users.Rows.{has_id}
use intell_api.Database.Laws.{TableLaws, change}

module _ {W : Type 0} (b : AccountsBackend W) (rows : W → List User)
    (laws : TableLaws b.users rows (λ u. u.id)) where
  pub change_user-rows :
      (id : String) (f : User → User) (u : User) (w w' : W)
      → change_user b id f w ≡ (ok u, w')
      → rows w' ≡ map (change (has_id id) f) (rows w)
  unfolding change_user find_one required
  change_user-rows id f u w w' h = elim (Result-cases (b.users.get (has_id id) w)) [
    | inr (x, e) ↦ absurd (ground (arith, e, h))
    | inl (none, e) ↦ absurd (ground (arith, e, h))
    | inl (some v, e) ↦
        let w1 = (b.users.update (has_id id) f w).1 in
        let pair : Result (Option User) → Result (Option User) × W = λ r. (r, w1) in
        elim (Result-cases (b.users.update (has_id id) f w).0) [
          | inr (x, q) ↦ absurd (ground (arith, e, q, h))
          | inl (none, q) ↦ absurd (ground (arith, e, q, h))
          | inl (some r, q) ↦
              let last = ap (λ (x : Result User × W). x.1) (rw (e, q) at h) in
              rw (← last) (laws.update_some (has_id id) f w w1 r (ap pair q))
        ]
  ]
