-- ===== src/Auth/Service/Attempts.antt =====
-- The limit on guesses of a one-time code.
use intell_api.Prelude.{
  ℕ, ◌+◌, ◌≤◌, ◌<◌, String, Bool, true, false, Option, some, List, [], ◌∷◌, ◌≡◌, ◌≢◌, inl, inr,
  refl, ap, ◌∙◌, arith, any_of, length, leb, Bool-cases,
}
use Prim.Native.Nat.{zero, suc}
use intell_api.Prelude.Text.{show, parse_int}
use intell_api.Exec.{Result, ok, err}
use intell_api.Users.{User}
use intell_api.Users.Accounts.{AccountsBackend}
use intell_api.Users.Sessions.{CreateSessionDto}
use intell_api.Users.Service.{find_by_email}
use intell_api.Team.Backend.{TeamBackend}
use intell_api.Auth.Backend.{AuthBackend}
use intell_api.Auth.Redis.{redis_get, redis_set, redis_key}
use intell_api.Auth.Redis.Laws.{RedisLaws}
use intell_api.Auth.Service.{
  attempts_of, next_attempt, attempts_exceeded, matches_hash, check_otp, verify_user, verify_email,
  SigninResponse,
}

-- The counter that is written after a wrong code is read back as one more.
attempts_of-next_attempt :
    (n : ℕ) → n < 5 → attempts_of (some (next_attempt (some n))) ≡ some (n + 1)
unfolding attempts_of next_attempt show parse_int
attempts_of-next_attempt zero h = refl
attempts_of-next_attempt (suc zero) h = refl
attempts_of-next_attempt (suc (suc zero)) h = refl
attempts_of-next_attempt (suc (suc (suc zero))) h = refl
attempts_of-next_attempt (suc (suc (suc (suc zero)))) h = refl
attempts_of-next_attempt (suc (suc (suc (suc (suc n))))) h = absurd (omega arith)

fourth : List ℕ → ℕ
fourth (c ∷ d ∷ e ∷ f ∷ rest) = f
fourth _ = 0

other_key : (email : String) → redis_key email "otp" ≢ redis_key email "otp_attempts"
unfolding redis_key fourth
other_key email h = let differ : b':' ≡ b'_' = ap fourth h in absurd (omega (arith, differ))

module _ (t : TeamBackend) (b : AccountsBackend t.World) (a : AuthBackend t.World)
    (laws : RedisLaws a.redis)
    -- Redis can be reached, and writing to it leaves the accounts alone.
    (reached : (k : List ℕ) (v : String) (ttl : ℕ) (w : t.World)
      → (a.redis.set k v ttl w).0 ≡ ok tt)
    (kept : (p : User → Bool) (k : List ℕ) (v : String) (ttl : ℕ) (w : t.World)
      → b.users.get p (a.redis.set k v ttl w).1 ≡ b.users.get p w) where
  open t use {World}

  -- An address of a user who is not verified, a hash of a code, and a number of wrong codes.
  pub record IsGuarded (email : String) (u : User) (hash : Option String) (n : ℕ) (w : World)
      : Type 0 where
    pub user : find_by_email b email w ≡ ok (some u)
    pub unverified : u.email_verified ≡ false
    pub raw : Option String
    pub counter : redis_get a.redis email "otp_attempts" w ≡ ok raw
    pub wrong : attempts_of raw ≡ some n
    pub stored : redis_get a.redis email "otp" w ≡ ok hash

  locked :
      (email otp : String) (u : User) (hash : Option String) (n : ℕ) (dto : CreateSessionDto)
      (is_mobile : Bool) (w : World)
      → IsGuarded email u hash n w
      → 5 ≤ n
      → verify_email t b a email otp dto is_mobile w ≡ (err attempts_exceeded, w)
  unfolding verify_email verify_user
  locked email otp u hash n dto is_mobile w g h =
      let full : leb 5 n ≡ true = ground arith in
      rw (g.user, g.unverified, g.counter, g.wrong, full) refl

  counted :
      (email otp : String) (u : User) (hash : Option String) (n : ℕ) (dto : CreateSessionDto)
      (is_mobile : Bool) (w : World)
      → IsGuarded email u hash n w
      → n < 5
      → matches_hash t b a otp hash ≡ false
      → IsGuarded email u hash (n + 1) (verify_email t b a email otp dto is_mobile w).1
  unfolding verify_email verify_user check_otp find_by_email redis_get redis_set
  counted email otp u hash n dto is_mobile w g h wrong =
      let open_ : leb 5 n ≡ false = ground arith in
      let k = redis_key email "otp_attempts" in
      let v = next_attempt (some n) in
      let w' = (a.redis.set k v 900 w).1 in
      let set : a.redis.set k v 900 w ≡ (ok tt, w') = pair_of (reached k v 900 w) in
      let after : (verify_email t b a email otp dto is_mobile w).1 ≡ w' =
        rw (g.user, g.unverified, g.counter, g.wrong, open_, g.stored, wrong, set) refl in
      rw after (record {
        user = kept (λ x. b.email_eq x.email email) k v 900 w ∙ g.user;
        unverified = g.unverified;
        raw = some v;
        counter = laws.get_set k v 900 w w' set;
        wrong = attempts_of-next_attempt n h;
        stored =
            laws.get_set_other k (redis_key email "otp") v 900 w w' set (other_key email)
            ∙ g.stored;
      })
    where
      pair_of : {m : Result (Unit {0}) × World} → m.0 ≡ ok tt → m ≡ (ok tt, m.1)
      pair_of h = ground (arith, h)

  -- One guess after the other, whatever each ends with.
  abbrev pub guess_all : String → CreateSessionDto → Bool → List String → World → World
  guess_all email dto is_mobile [] w = w
  guess_all email dto is_mobile (otp ∷ otps) w =
      guess_all email dto is_mobile otps (verify_email t b a email otp dto is_mobile w).1

  exhausted :
      (email : String) (u : User) (hash : Option String) (n : ℕ) (dto : CreateSessionDto)
      (is_mobile : Bool) (otps : List String) (w : World)
      → IsGuarded email u hash n w
      → n ≤ 5
      → 5 ≤ n + length otps
      → any_of (λ otp. matches_hash t b a otp hash) otps ≡ false
      → (m : ℕ) × (5 ≤ m) × IsGuarded email u hash m (guess_all email dto is_mobile otps w)
  exhausted email u hash n dto is_mobile [] w g low enough wrong = (n, omega arith, g)
  exhausted email u hash n dto is_mobile (otp ∷ otps) w g low enough wrong =
      elim (Bool-cases (leb 5 n)) [
        | inl full ↦
            let still = locked email otp u hash n dto is_mobile w g (ground (arith, full)) in
            rw (ap (λ (r : Result SigninResponse × World). r.1) still) (
              exhausted email u hash n dto is_mobile otps w g low (ground (arith, full))
                (ground (arith, wrong)))
        | inr room ↦
            exhausted email u hash (n + 1) dto is_mobile otps
              (verify_email t b a email otp dto is_mobile w).1
              (counted email otp u hash n dto is_mobile w g (ground (arith, room))
                (ground (arith, wrong)))
              (ground (arith, room)) (omega arith) (ground (arith, wrong))
      ]

  -- While no key expires: after five or more wrong guesses at the code of an unverified user, one after
  -- the other and counted from none, every further guess, also of the right code, is refused for
  -- too many attempts and changes nothing.
  pub verify_email_locks :
      (email : String) (u : User) (hash : Option String) (dto : CreateSessionDto) (is_mobile : Bool)
      (otps : List String) (w : World)
      → IsGuarded email u hash 0 w
      → 5 ≤ length otps
      → any_of (λ otp. matches_hash t b a otp hash) otps ≡ false
      → (otp : String)
      → verify_email t b a email otp dto is_mobile (guess_all email dto is_mobile otps w)
        ≡ (err attempts_exceeded, guess_all email dto is_mobile otps w)
  verify_email_locks email u hash dto is_mobile otps w g enough wrong otp =
      let (m, full, end) =
        exhausted email u hash 0 dto is_mobile otps w g (omega arith) (omega arith) wrong in
      locked email otp u hash m dto is_mobile (guess_all email dto is_mobile otps w) end full
