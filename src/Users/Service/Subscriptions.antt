-- ===== src/Users/Service/Subscriptions.antt =====
-- Active subscriptions.
use intell_api.Prelude.{
  ℕ, ◌+◌, ◌≤◌, String, Bool, false, none, some, List, [], ◌∷◌, ◌≡◌, inl, inr, refl, ap, arith,
  length, str_eq, eq_iff, eq_refl, Bool-cases, any_of, if◌then◌else◌,
}
use intell_api.Exec.{Result, ok}
use intell_api.Exec.Laws.{Result-cases}
use intell_api.Users.{User, Subscription}
use intell_api.Users.Accounts.{AccountsBackend, required}
use intell_api.Users.Service.{
  find_one, get_current_subscription, subscribe_unless, create_free_subscription,
}
use intell_api.Users.Rows.{has_id, is_current, free_subscription, count_plans}
use intell_api.Database.Laws.{TableLaws, count, count-any_of}

-- Every active subscription that getPlanCounts reads is counted once, as free or as paid.
pub count_plans-length :
    (rows : List Subscription) → (count_plans rows).free + (count_plans rows).paid ≡ length rows
unfolding count_plans
count_plans-length [] = refl
count_plans-length (s ∷ rows) = ground (arith, count_plans-length rows)

module _ {W : Type 0} (b : AccountsBackend W) (rows : W → List Subscription)
    (laws : TableLaws b.subscriptions rows (λ s. s.id)) where
  -- No user has two active subscriptions.
  abbrev pub HasOnePlan : W → Type 0
  HasOnePlan w = (user_id : String) → count (is_current user_id) (rows w) ≤ 1

  created :
      (u : User) (time : ℕ) (w : W)
      → HasOnePlan w
      → any_of (is_current u.id) (rows w) ≡ false
      → HasOnePlan (b.subscriptions.create (free_subscription u.id time) w).1
  unfolding free_subscription
  created u time w h free user_id =
      let mk = free_subscription u.id time in
      let w' = (b.subscriptions.create mk w).1 in
      let pair : Result Subscription → Result Subscription × W = λ r. (r, w') in
      elim (Result-cases (b.subscriptions.create mk w).0) [
        | inr (x, e) ↦ rw (laws.create_failed mk w w' x (ap pair e)) (h user_id)
        | inl (s, e) ↦
            let (key, at, made, added, fresh) = laws.create_rows mk w w' s (ap pair e) in
            rw (added, made) (one user_id)
      ]
    where
      one :
          (user_id : String)
          → (if is_current user_id (free_subscription u.id time "" 0) then 1 else 0)
              + count (is_current user_id) (rows w)
            ≤ 1
      one user_id = elim (Bool-cases (str_eq u.id user_id)) [
        | inr other ↦ ground (arith, other, h user_id)
        | inl same ↦
            let zero_ = count-any_of (is_current u.id) (rows w) free in
            rw (← (eq_iff u.id user_id).0 same, eq_refl u.id, zero_) (omega arith)
      ]

  -- With a query for the newest active subscription that is not mistaken when it finds none: giving
  -- a user a free subscription, with whatever end, leaves no user with two active ones, if
  -- there was none before.
  pub create_free_subscription-HasOnePlan :
      (accounts : W → List User) (users : TableLaws b.users accounts (λ u. u.id))
      → ((p : Subscription → Bool) (w : W)
          → b.newest_subscription p w ≡ ok none
          → any_of p (rows w) ≡ false)
      → (user_id : String) (w : W) → HasOnePlan w
      → HasOnePlan (create_free_subscription b user_id w).1
  unfolding create_free_subscription find_one get_current_subscription subscribe_unless required
  create_free_subscription-HasOnePlan accounts users newest user_id w h =
      elim (Result-cases (b.users.get (has_id user_id) w)) [
        | inr (x, e) ↦ rw e h
        | inl (none, e) ↦ rw e h
        | inl (some u, e) ↦ elim (Result-cases (b.newest_subscription (is_current user_id) w)) [
          | inr (x, q) ↦ rw (e, q) h
          | inl (some s, q) ↦ rw (e, q) h
          | inl (none, q) ↦
              let (row, key) = users.get_some (has_id user_id) w u e in
              let same = (eq_iff u.id user_id).0 key in
              rw (e, q) (created u (b.now w) w h (rw same (newest (is_current user_id) w q)))
        ]
      ]
