-- ===== src/Auth/Signin/Redirects.antt =====
-- Where a sign-in with Google may send the browser.
use intell_api.Prelude.{
  String, true, not, Option, none, some, List, ◌≡◌, ◌⊎◌, inl, inr, refl, ap, arith, any_of, str_eq,
  eq_iff, Bool-cases,
}
use intell_api.Prelude.Text.{◌&◌}
use intell_api.Exec.{Result, ok, err, query, ◌>>=◌}
use intell_api.Exec.Laws.{Result-cases, >>=-eq-ok}
use intell_api.Users.Accounts.{AccountsBackend}
use intell_api.Team.Backend.{TeamBackend}
use intell_api.Auth.Backend.{AuthBackend, Url, Cookie}
use intell_api.Auth.Redirect.{has_origin, validate_parsed, validate_redirect_url}
use intell_api.Auth.Tokens.{AuthResponse}
use intell_api.Auth.Signin.{
  CallbackAnswer, redirect, after_web, redirect_base, redirection, google_callback_redirect,
}

-- An address that may be used: it is one, over HTTP or HTTPS, and of an allowed origin.
pub record IsAllowed (parse_url : String → Option Url) (allowed : List String) (url : String)
    : Type 0 where
  pub parsed : Url
  pub is_parsed : parse_url url ≡ some parsed
  pub protocol : (parsed.protocol ≡ "http:") ⊎ (parsed.protocol ≡ "https:")
  pub origin : any_of (has_origin parse_url parsed.origin) allowed ≡ true

validate_parsed-eq-ok :
    (parse_url : String → Option Url) (allowed : List String) (url : String) (o : Option Url)
    → parse_url url ≡ o
    → validate_parsed parse_url o allowed ≡ ok tt
    → IsAllowed parse_url allowed url
unfolding validate_parsed
validate_parsed-eq-ok parse_url allowed url none e h = absurd (ground (arith, h))
validate_parsed-eq-ok parse_url allowed url (some u) e h = record {
  parsed = u;
  is_parsed = e;
  protocol = elim (Bool-cases (str_eq u.protocol "http:")) [
    | inl plain ↦ inl ((eq_iff u.protocol "http:").0 plain)
    | inr other ↦ inr ((eq_iff u.protocol "https:").0 (ground (arith, other, h)))
  ];
  origin = elim (Bool-cases (any_of (has_origin parse_url u.origin) allowed)) [
    | inl among ↦ among
    | inr foreign ↦ absurd (ground (arith, foreign, h))
  ];
}

module _ (t : TeamBackend) (b : AccountsBackend t.World) (a : AuthBackend t.World) where
  open t use {World}
  open a use {config, parse_url}

  redirection-eq-ok :
      (response : AuthResponse) (base : String) (target : String)
      → redirection t b a response base ≡ ok (redirect target)
      → IsAllowed parse_url config.allowed_redirect_origins (base & "/onboarding")
        × (target
            ≡ (base & "/onboarding")
              & "#token="
              & response.tokens.access_token
              & "&sessionId="
              & response.session_id)
  unfolding redirection validate_redirect_url
  redirection-eq-ok response base target h =
      let url = base & "/onboarding" in
      elim (Result-cases (validate_redirect_url parse_url url config.allowed_redirect_origins)) [
        | inr (x, e) ↦ absurd (ground (arith, e, h))
        | inl (x, e) ↦ (
          validate_parsed-eq-ok parse_url config.allowed_redirect_origins url (parse_url url) refl
              e,
          ground (arith, e, h),
        )
      ]

  -- A sign-in with Google that redirects the browser, whatever the state that the request carries,
  -- sends it to an address of an allowed origin over HTTP or HTTPS, followed by a fragment with
  -- the access token and the session.
  pub google_callback_redirect-IsAllowed :
      (state : String) (response : AuthResponse) (target : String) (w w' : World)
      → google_callback_redirect t b a state response w ≡ (ok (redirect target), w')
      → (url : String) × IsAllowed parse_url config.allowed_redirect_origins url
        × (target
            ≡ url & "#token=" & response.tokens.access_token & "&sessionId=" & response.session_id)
  unfolding google_callback_redirect
  google_callback_redirect-IsAllowed state response target w w' h =
      let c : Cookie = record {
        value = response.tokens.refresh_token;
        secure = not config.is_development;
      } in
      let (x, e1, h1) = >>=-eq-ok (a.set_cookie c) _ w w' h in
      elim (Bool-cases (str_eq state "mobile")) [
        | inl mobile ↦ absurd (ground (arith, mobile, h1))
        | inr web ↦
            by_base (a.set_cookie c w).1 (redirect_base t b a (after_web state)) (simp web at h1)
      ]
    where
      by_base :
          (v : World) (r : Result String)
          → ((query (λ u. r) >>= λ base. query (λ u. redirection t b a response base)) v)
            ≡ (ok (redirect target), w')
          → (url : String) × IsAllowed parse_url config.allowed_redirect_origins url
            × (target
                ≡ url & "#token=" & response.tokens.access_token & "&sessionId="
                  & response.session_id)
      by_base v (err x) k = absurd (ground (arith, k))
      by_base v (ok base) k =
          let (allowed, is_target) =
            redirection-eq-ok response base target
              (ap (λ (r : Result CallbackAnswer × World). r.0) k) in
          (base & "/onboarding", allowed, is_target)
