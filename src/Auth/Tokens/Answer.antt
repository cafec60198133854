-- ===== src/Auth/Tokens/Answer.antt =====
-- What signing a pair of tokens and answering with it leaves of the table of sessions, and the
-- refresh token in an answer.
use intell_api.Prelude.{
  ◌≡◌, inl, inr, refl, ◌∙◌, arith, String, Bool, true, false, not, Option, none, some,
  if◌then◌else◌,
}
use intell_api.Exec.{ok}
use intell_api.Exec.Laws.{Result-cases}
use intell_api.Users.{User, Session}
use intell_api.Users.Accounts.{AccountsBackend}
use intell_api.Team.Backend.{TeamBackend}
use intell_api.Auth.Backend.{AuthBackend, Cookie}
use intell_api.Auth.Tokens.{payload_of, sign_tokens, set_refresh_token}
use intell_api.Auth.Tokens.Laws.{TokenLaws}

-- A mobile client finds its refresh token in the answer, another does not.
abbrev pub body_for : Bool → String → Option String
body_for is_mobile token = if is_mobile then some token else none

module _ (t : TeamBackend) (b : AccountsBackend t.World) (a : AuthBackend t.World) where
  open t use {World}

  pub body-eq-ok :
      (token : String) (is_mobile : Bool) (body : Option String) (w w' : World)
      → set_refresh_token t b a token is_mobile w ≡ (ok body, w')
      → body ≡ body_for is_mobile token
  unfolding set_refresh_token
  body-eq-ok token true body w w' h = ground (arith, h)
  body-eq-ok token false body w w' h =
      let c : Cookie = record { value = token; secure = not a.config.is_development } in
      elim (Result-cases (a.set_cookie c w).0) [
        | inr (x, e) ↦ absurd (ground (arith, e, h))
        | inl (x, e) ↦ ground (arith, e, h)
      ]

  module _ (laws : TokenLaws t b a) where
    open laws use {rows}

    pub sign_tokens_rows :
        (u : User) (s : Session) (w : World) → rows (sign_tokens t b a u s w).1 ≡ rows w
    unfolding sign_tokens
    sign_tokens_rows u s w =
        let p = payload_of u s (a.random_uuid w).0 in
        let w1 = (a.random_uuid w).1 in
        let w2 = (a.sign_async p w1).1 in
        let signed = laws.sign_rows p w1 ∙ laws.uuid_rows w in
        elim (Result-cases (a.sign_async p w1).0) [
          | inr (x, e) ↦ rw e signed
          | inl (access, e) ↦ rw e (laws.bytes_rows w2 ∙ signed)
        ]

    pub set_refresh_token_rows :
        (token : String) (is_mobile : Bool) (w : World)
        → rows (set_refresh_token t b a token is_mobile w).1 ≡ rows w
    unfolding set_refresh_token
    set_refresh_token_rows token true w = refl
    set_refresh_token_rows token false w =
        let c : Cookie = record { value = token; secure = not a.config.is_development } in
        elim (Result-cases (a.set_cookie c w).0) [
          | inr (x, e) ↦ rw e (laws.cookie_rows c w)
          | inl (x, e) ↦ rw e (laws.cookie_rows c w)
        ]
