-- ===== src/Auth/Tokens/Worlds.antt =====
-- What single requests do to the rows of the table of sessions.
use intell_api.Prelude.{
  ℕ, ◌+◌, ◌≤◌, String, Bool, Option, none, some, List, ◌∷◌, ◌++◌, map, ◌≡◌, ◌⊎◌, inl, inr, refl,
  sym, ◌∙◌, arith, str_eq, Bool-cases,
}
use intell_api.Exec.Laws.{Result-cases}
use intell_api.Users.{Session}
use intell_api.Users.Accounts.{AccountsBackend}
use intell_api.Users.Sessions.{
  has_id, is_swappable, rotated, with_hash, logged_out, ended, find_session_by_id, found_session,
  validate_session, expire_session, set_refresh_token_hash, compare_and_swap_refresh_token,
  deactivate_session,
}
use intell_api.Database.Laws.{change, count, count-change_add, count-change_le, count-append}
use intell_api.Team.Backend.{TeamBackend}
use intell_api.Auth.Tokens.Rotation.{holds, is_text}

-- What the requests do to the rows.
module _ (t : TeamBackend) (b : AccountsBackend t.World) where
  open t use {World}
  open b use {now, sessions}

  pub set_world :
      (id : String) (h : Option String) (w : World)
      → (set_refresh_token_hash b id h w).1
        ≡ (sessions.update (has_id id) (with_hash h (now w)) w).1
  unfolding set_refresh_token_hash
  set_world id h w = elim (Result-cases (sessions.update (has_id id) (with_hash h (now w)) w).0) [
    | inr (x, e) ↦ rw e refl
    | inl (none, e) ↦ rw e refl
    | inl (some s, e) ↦ rw e refl
  ]

  pub close_world :
      (id : String) (w : World)
      → (deactivate_session b id w).1 ≡ (sessions.update (has_id id) (logged_out (now w)) w).1
  unfolding deactivate_session
  close_world id w = elim (Result-cases (sessions.update (has_id id) (logged_out (now w)) w).0) [
    | inr (x, e) ↦ rw e refl
    | inl (none, e) ↦ rw e refl
    | inl (some s, e) ↦ rw e refl
  ]

  pub swap_world :
      (id old new : String) (c : ℕ) (w : World)
      → (compare_and_swap_refresh_token b id old new c w).1
        ≡ (sessions.update_where (is_swappable id old (now w)) (rotated new c (now w)) w).1
  unfolding compare_and_swap_refresh_token
  swap_world id old new c w =
      elim (Result-cases
        (sessions.update_where (is_swappable id old (now w)) (rotated new c (now w)) w).0) [
          | inr (x, e) ↦ rw e refl
          | inl (n, e) ↦ rw e refl
        ]

  expire_world :
      (s : Session) (w : World)
      → (expire_session b s w).1 ≡ (sessions.update (has_id s.id) ended w).1
  unfolding expire_session
  expire_world s w = elim (Result-cases (sessions.update (has_id s.id) ended w).0) [
    | inr (x, e) ↦ rw e refl
    | inl (r, e) ↦ rw e refl
  ]

  validate_world :
      (s : Session) (w : World)
      → ((validate_session b s w).1 ≡ w)
        ⊎ ((validate_session b s w).1 ≡ (sessions.update (has_id s.id) ended w).1)
  unfolding validate_session
  validate_world s w = ground (arith, expire_world s w)

  pub find_world :
      (id : String) (w : World)
      → ((find_session_by_id b id w).1 ≡ w)
        ⊎ ((s : Session) × ((find_session_by_id b id w).1
              ≡ (sessions.update (has_id s.id) ended w).1))
  unfolding find_session_by_id found_session
  find_world id w = elim (Result-cases (sessions.get (has_id id) w)) [
    | inr (x, e) ↦ inl (rw e refl)
    | inl (none, e) ↦ inl (rw e refl)
    | inl (some s, e) ↦ elim (validate_world s w) [
      | inl same ↦ inl (rw e same)
      | inr over ↦ inr (s, rw e over)
    ]
  ]

-- A token that is written to at most one row leaves the list of pending ones.
pub write-le :
    (p : Session → Bool) (f : Session → Session) (hash h : String) (before after : List String)
    (rs : List Session)
    → ((r : Session) → holds h (f r) ≡ str_eq hash h)
    → count p rs ≤ 1
    → count (holds h) (map (change p f) rs) + count (is_text h) (before ++ after)
      ≤ count (holds h) rs + count (is_text h) (before ++ hash ∷ after)
write-le p f hash h before after rs new few =
    let left = count-append (is_text h) before after in
    let right = count-append (is_text h) before (hash ∷ after) in
    elim (Bool-cases (str_eq hash h)) [
      | inl same ↦
          let add = count-change_add (holds h) p f rs in ground (arith, left, right, add, same)
      | inr other ↦
          let le = count-change_le (holds h) p f rs (λ r e. absurd (cc (sym e ∙ new r ∙ other))) in
          ground (arith, left, right, le, other)
    ]

pub drop-le :
    (hash h : String) (before after : List String)
    → count (is_text h) (before ++ after) ≤ count (is_text h) (before ++ hash ∷ after)
drop-le hash h before after =
    omega
      (arith, count-append (is_text h) before after, count-append (is_text h) before (hash ∷ after))
