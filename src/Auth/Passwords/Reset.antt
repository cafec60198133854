-- ===== src/Auth/Passwords/Reset.antt =====
-- A reset token serves once, and sets the password that was asked for.
use intell_api.Prelude.{
  ℕ, String, true, Option, none, some, List, map, ◌≡◌, inl, inr, refl, ap, ◌∙◌, arith, str_eq,
  Bool-cases,
}
use intell_api.Exec.{forbidden, Result, ok, err, query, resume}
use intell_api.Exec.Laws.{>>=-eq-ok}
use intell_api.Users.{User}
use intell_api.Users.Accounts.{AccountsBackend}
use intell_api.Users.Service.{find_by_email, update_password_hash}
use intell_api.Users.Rows.{has_id, with_password}
use intell_api.Users.Service.Changes.{change_user-rows}
use intell_api.Database.Laws.{TableLaws, change}
use intell_api.Team.Backend.{TeamBackend}
use intell_api.Auth.Backend.{AuthBackend}
use intell_api.Auth.Redis.{redis_get, redis_delete, redis_key}
use intell_api.Auth.Redis.Laws.{RedisLaws}
use intell_api.Auth.Tokens.{PublicUser}
use intell_api.Auth.Passwords.{ResetPasswordDto, reset_for, reset_with, reset_password}

module _ (t : TeamBackend) (b : AccountsBackend t.World) (a : AuthBackend t.World)
    (redis : RedisLaws a.redis) where
  open t use {World}

  -- The key of the reset record of an address.
  abbrev reset_key : String → List ℕ
  reset_key email = redis_key email "password_reset_token"

  -- What a reset that succeeds has done.
  pub record IsReset (dto : ResetPasswordDto) (u : User) (w w' : World) : Type 0 where
    pub hash : String
    pub after_hash : World
    pub hashed : b.bcrypt_hash dto.password w ≡ (ok hash, after_hash)
    pub after_update : World
    pub stored : User
    pub updated : update_password_hash b u.id hash after_hash ≡ (ok stored, after_update)
    pub after_mail : World
    pub mailed : a.send_password_update u.email u.first_name after_update ≡ (ok tt, after_mail)
    pub deleted : a.redis.del (reset_key dto.email) after_mail ≡ (ok tt, w')

  reset_for-eq-ok :
      (dto : ResetPasswordDto) (u : User) (p : PublicUser) (w w' : World)
      → reset_for t b a dto (some u) w ≡ (ok p, w')
      → (u.email_verified ≡ true) × IsReset dto u w w'
  unfolding reset_for redis_delete
  reset_for-eq-ok dto u p w w' h = elim (Bool-cases u.email_verified) [
    | inr pending ↦ absurd (ground (arith, pending, h))
    | inl verified ↦
        let w1 = (b.bcrypt_hash dto.password w).1 in
        let (hash, e1, h1) = >>=-eq-ok (b.bcrypt_hash dto.password) _ w w' (simp verified at h) in
        let w2 = (update_password_hash b u.id hash w1).1 in
        let (u', e2, h2) = >>=-eq-ok (update_password_hash b u.id hash) _ w1 w' h1 in
        let mail = a.send_password_update u.email u.first_name in
        let (x, e3, h3) = >>=-eq-ok mail _ w2 w' h2 in
        let del = a.redis.del (reset_key dto.email) in
        let (y, e4, h4) = >>=-eq-ok del _ (mail w2).1 w' h3 in
        let last = ap (λ (r : Result PublicUser × World). r.1) h4 in
        (
          verified,
          record {
            hash = hash;
            after_hash = w1;
            hashed = e1;
            after_update = w2;
            stored = u';
            updated = e2;
            after_mail = (mail w2).1;
            mailed = e3;
            deleted = e4 ∙ ap (λ (v : World). (ok tt, v)) last;
          },
        )
  ]

  -- The checks of a reset that succeeds.
  checked :
      (dto : ResetPasswordDto) (o : Option String) (p : PublicUser) (w w' : World)
      → reset_with t b a dto o w ≡ (ok p, w')
      → (u : User) × (find_by_email b dto.email w ≡ ok (some u))
        × (reset_for t b a dto (some u) w ≡ (ok p, w'))
  unfolding reset_with
  checked dto none p w w' h = absurd (ground (arith, h))
  checked dto (some hash) p w w' h = elim (Bool-cases (str_eq hash "")) [
    | inl empty ↦ absurd (ground (arith, empty, h))
    | inr full ↦ elim (Bool-cases (b.bcrypt_compare dto.token hash)) [
      | inr other ↦ absurd (ground (arith, full, other, h))
      | inl same ↦ by_user (find_by_email b dto.email w) refl (rw (full, same) at h)
    ]
  ]
    where
      by_user :
          (r : Result (Option User))
          → find_by_email b dto.email w ≡ r
          → resume r (reset_for t b a dto) w ≡ (ok p, w')
          → (u : User) × (find_by_email b dto.email w ≡ ok (some u))
            × (reset_for t b a dto (some u) w ≡ (ok p, w'))
      by_user (err x) e k = absurd (ground (arith, k))
      by_user (ok none) e k = absurd (unfold reset_for in ground (arith, k))
      by_user (ok (some u)) e k = (u, e, k)

  module _ (accounts : World → List User) (users : TableLaws b.users accounts (λ u. u.id))
      -- bcrypt accepts the password that it has hashed; neither it, nor the mailer, nor Redis
      -- touches the accounts.
      (bcrypt : (password hash : String) (w w' : World)
        → b.bcrypt_hash password w ≡ (ok hash, w')
        → (b.bcrypt_compare password hash ≡ true) × (accounts w' ≡ accounts w))
      (mail : (email name : String) (w : World)
        → accounts (a.send_password_update email name w).1 ≡ accounts w)
      (del : (k : List ℕ) (w : World) → accounts (a.redis.del k w).1 ≡ accounts w) where
    -- A reset that succeeds is for a verified user of the address. It leaves the accounts as they
    -- were, except that the user has a hash of the new password; and from there no reset for the
    -- address is permitted, with any token.
    pub reset_password_lem :
        (dto : ResetPasswordDto) (p : PublicUser) (w w' : World)
        → reset_password t b a dto w ≡ (ok p, w')
        → (u : User) × (hash : String) × (find_by_email b dto.email w ≡ ok (some u))
          × (u.email_verified ≡ true)
          × (b.bcrypt_compare dto.password hash ≡ true)
          × (accounts w' ≡ map (change (has_id u.id) (with_password hash)) (accounts w))
          × ((token password : String)
              → reset_password t b a
                  (record { email = dto.email; password = password; token = token })
                  w'
                ≡ (err (forbidden "You do not have permission to access this resource"), w'))
    unfolding reset_password redis_get update_password_hash reset_with
    reset_password_lem dto p w w' h =
        let (o, e, h1) = >>=-eq-ok (query (a.redis.get (reset_key dto.email))) _ w w' h in
        let (u, found, h2) = checked dto o p w w' h1 in
        let (verified, r) = reset_for-eq-ok dto u p w w' h2 in
        let (accepted, same) = bcrypt dto.password r.hash w r.after_hash r.hashed in
        let rows =
          change_user-rows b accounts users u.id (with_password r.hash) r.stored r.after_hash
            r.after_update r.updated in
        let mailed = state_after (mail u.email u.first_name r.after_update) r.mailed in
        let deleted = state_after (del (reset_key dto.email) r.after_mail) r.deleted in
        let gone = redis.get_del (reset_key dto.email) r.after_mail w' r.deleted in
        (
          u,
          r.hash,
          found,
          verified,
          accepted,
          deleted ∙ mailed ∙ rows ∙ ap (map (change (has_id u.id) (with_password r.hash))) same,
          λ token password. rw gone refl,
        )
      where
        state_after :
            {m : Result (Unit {0}) × World} {v v' : World}
            → accounts m.1 ≡ accounts v
            → m ≡ (ok tt, v')
            → accounts v' ≡ accounts v
        state_after k e = rw e at k
