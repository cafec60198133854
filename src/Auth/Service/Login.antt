-- ===== src/Auth/Service/Login.antt =====
-- Who may sign in with a password, and what the answer is.
use intell_api.Prelude.{
  String, Bool, true, sym, ◌∙◌, Option, none, some, ◌≡◌, inl, inr, refl, ap, arith, Bool-cases,
}
use intell_api.Exec.{Result, ok, err, ◌>>=◌}
use intell_api.Exec.Laws.{Result-cases, >>=-eq-ok}
use intell_api.Users.{User}
use intell_api.Users.Accounts.{AccountsBackend}
use intell_api.Users.Sessions.{CreateSessionDto}
use intell_api.Users.Service.{find_by_email}
use intell_api.Team.Backend.{TeamBackend}
use intell_api.Auth.Backend.{AuthBackend}
use intell_api.Auth.Tokens.{AuthResponse, set_refresh_token}
use intell_api.Auth.Tokens.Laws.{TokenLaws}
use intell_api.Auth.Tokens.Answer.{body_for, body-eq-ok, set_refresh_token_rows}
use intell_api.Auth.Service.{
  SigninResponse, login, login_as, compare_password, send_verification_email, open_session,
  signed_response,
}
use intell_api.Auth.Service.SigninResponse.{signed_in}
use intell_api.Auth.Service.Answers.{IsAnswer, moved-IsAnswer, open_session-IsAnswer}

abbrev unwrap : SigninResponse → Result SigninResponse → SigninResponse
unwrap r (ok x) = x
unwrap r (err e) = r

module _ (t : TeamBackend) (b : AccountsBackend t.World) (a : AuthBackend t.World)
    (laws : TokenLaws t b a) where
  open t use {World}

  -- The answer with an open session of the user, and the refresh token in it for a mobile client.
  pub record IsSignedIn (u : User) (is_mobile : Bool) (r : SigninResponse) (w : World)
      : Type 0 where
    pub response : AuthResponse
    pub shape : r ≡ signed_in response (body_for is_mobile response.tokens.refresh_token)
    pub answer : IsAnswer t b a laws u response w

  signed-IsSignedIn :
      (u : User) (dto : Option CreateSessionDto) (is_mobile : Bool) (r : SigninResponse)
      (w w' : World)
      → (open_session t b a u dto >>= λ x. signed_response t b a x is_mobile) w ≡ (ok r, w')
      → IsSignedIn u is_mobile r w'
  unfolding signed_response
  signed-IsSignedIn u dto is_mobile r w w' h =
      let (response, e1, h1) = >>=-eq-ok (open_session t b a u dto) _ w w' h in
      let w1 = (open_session t b a u dto w).1 in
      let token = response.tokens.refresh_token in
      let (body, e2, h2) = >>=-eq-ok (set_refresh_token t b a token is_mobile) _ w1 w' h1 in
      let to = ap (λ (p : Result SigninResponse × World). p.1) h2 in
      let same = ap (λ (p : Result SigninResponse × World). unwrap r p.0) h2 in
      record {
        response = response;
        shape = sym same ∙ ap (signed_in response) (body-eq-ok t b a token is_mobile body w1 _ e2);
        answer =
            moved-IsAnswer t b a laws u response w1 w'
              (rw (← to) (set_refresh_token_rows t b a laws token is_mobile w1))
              (open_session-IsAnswer t b a laws u dto response w w1 e1);
      }

  -- The user of an address, who is verified and has a hash that the password matches.
  pub record IsKnown (email password : String) (u : User) (w : World) : Type 0 where
    pub found : find_by_email b email w ≡ ok (some u)
    pub hash : String
    pub has_hash : u.password_hash ≡ some hash
    pub matches : b.bcrypt_compare password hash ≡ true
    pub verified : u.email_verified ≡ true

  login_as-known :
      (password : String) (dto : CreateSessionDto) (is_mobile : Bool) (u : User) (hash : String)
      (w : World)
      → u.password_hash ≡ some hash
      → b.bcrypt_compare password hash ≡ true
      → u.email_verified ≡ true
      → login_as t b a password dto is_mobile (some u) w
        ≡ (open_session t b a u (some dto) >>= λ x. signed_response t b a x is_mobile) w
  unfolding login_as compare_password
  login_as-known password dto is_mobile u hash w e same verified = rw (e, same, verified) refl

  login_as-eq-ok :
      (password : String) (dto : CreateSessionDto) (is_mobile : Bool) (u : User)
      (stored : Option String) (r : SigninResponse) (w w' : World)
      → u.password_hash ≡ stored
      → login_as t b a password dto is_mobile (some u) w ≡ (ok r, w')
      → (hash : String) × (stored ≡ some hash)
        × (b.bcrypt_compare password hash ≡ true)
        × (u.email_verified ≡ true)
        × IsSignedIn u is_mobile r w'
  unfolding login_as compare_password
  login_as-eq-ok password dto is_mobile u none r w w' e h = absurd (ground (arith, e, h))
  login_as-eq-ok password dto is_mobile u (some hash) r w w' e h =
      elim (Bool-cases (b.bcrypt_compare password hash)) [
        | inr other ↦ absurd (ground (arith, e, other, h))
        | inl same ↦ elim (Bool-cases u.email_verified) [
          | inl verified ↦ (
            hash,
            refl,
            same,
            verified,
            signed-IsSignedIn u (some dto) is_mobile r w w'
                (sym (login_as-known password dto is_mobile u hash w e same verified) ∙ h),
          )
          | inr pending ↦ elim (Result-cases (send_verification_email t b a u w).0) [
            | inr (x, q) ↦ absurd (ground (arith, e, same, pending, q, h))
            | inl (x, q) ↦ absurd (ground (arith, e, same, pending, q, h))
          ]
        ]
      ]

  -- A sign-in with a password succeeds only if there is a user of the address whose e-mail is
  -- verified and whose stored hash the password matches. The answer then names that user, and a
  -- session that is an active row of the table, is that user's, and has the hash of the refresh
  -- token; a mobile client has the token in the answer, another does not. The table behaves as
  -- documented, and signing, drawing tokens and setting cookies do not touch it.
  pub login-IsKnown :
      (email password : String) (dto : CreateSessionDto) (is_mobile : Bool) (r : SigninResponse)
      (w w' : World)
      → login t b a email password dto is_mobile w ≡ (ok r, w')
      → (u : User) × IsKnown email password u w × IsSignedIn u is_mobile r w'
  unfolding login
  login-IsKnown email password dto is_mobile r w w' h =
      elim (Result-cases (find_by_email b email w)) [
        | inr (x, e) ↦ absurd (ground (arith, e, h))
        | inl (none, e) ↦ absurd (unfold login_as in ground (arith, e, h))
        | inl (some u, e) ↦
            let (hash, e1, e2, e3, signed) =
              login_as-eq-ok password dto is_mobile u u.password_hash r w w' refl (rw e at h) in
            (
              u,
              record { found = e; hash = hash; has_hash = e1; matches = e2; verified = e3 },
              signed,
            )
      ]
