-- ===== src/Auth/Signin.antt =====
-- Sign-in with Google: googleMobileLogin and googleCallbackRedirect of modules/auth/auth.service.ts,
-- and strategies/google.strategy.ts.
pub mod Redirects
use intell_api.Prelude.{
  String, Bool, not, Option, none, some, List, [], ◌∷◌, if◌then◌else◌, str_eq, ◌==◌,
}
use intell_api.Prelude.Text.{◌&◌}
use Prim.Native.Char.{code}
use intell_api.Exec.{
  Error, unauthorized, bad_request, Result, ok, err, Exec, pure, throw, query, ◌>>=◌, ◌>>◌,
}
use intell_api.Users.Accounts.{AccountsBackend}
use intell_api.Users.Sessions.{CreateSessionDto}
use intell_api.Users.Service.{find_or_create_by_google, create_free_subscription}
use intell_api.Users.Rows.{or_else}
use intell_api.Team.Backend.{TeamBackend}
use intell_api.Auth.Backend.{AuthBackend, TokenPayload}
use intell_api.Auth.Redirect.{validate_redirect_url}
use intell_api.Auth.Tokens.{AuthResponse, PublicUser}
use intell_api.Auth.Service.{open_session, find_or_create_google_oauth_user}

abbrev pub missing_profile : Error
missing_profile = unauthorized "Google account did not provide required profile information"

abbrev pub unverified_google : Error
unverified_google = unauthorized "Google account email is not verified"

-- text.split(' ')[0]
unfoldable pub first_word : String → String
first_word String.[] = ""
first_word (String.◌∷◌ c s) =
    let rest = first_word s in if code c == b' ' then "" else String.◌∷◌ c rest

-- text.split(' ').slice(1).join(' '): what follows the first space.
unfoldable pub other_words : String → String
other_words String.[] = ""
other_words (String.◌∷◌ c s) = let rest = other_words s in if code c == b' ' then s else rest

abbrev first_of : Option String → String
first_of none = "User"
first_of (some name) = first_word name

-- state.startsWith('web:') ? state.slice(4) : none
unfoldable pub after_web : String → Option String
after_web (String.◌∷◌ w (String.◌∷◌ e (String.◌∷◌ b (String.◌∷◌ c rest)))) =
    if str_eq (String.◌∷◌ w (String.◌∷◌ e (String.◌∷◌ b (String.◌∷◌ c "")))) "web:"
    then some rest
    else none
after_web _ = none

-- What the callback answers: a body, for a mobile client, or a redirection.
pub data CallbackAnswer : Type 0 where
  json : String → String → PublicUser → CallbackAnswer
  redirect : String → CallbackAnswer

-- The first address of a Google profile, and the parts of its name.
pub record GoogleProfile : Type 0 where
  pub id : String
  pub display_name : String
  pub emails : List (String × Bool)
  pub given_name : Option String
  pub family_name : Option String

module _ (t : TeamBackend) (b : AccountsBackend t.World) (a : AuthBackend t.World) where
  open t use {World}
  open a use {config, verify_id_token, parse_url, decode_uri_component, set_cookie}

  -- The checks of the payload.
  unfoldable pub checked_payload : Option TokenPayload → Result (String × TokenPayload)
  checked_payload none = Result.err (unauthorized "Invalid Google token payload")
  checked_payload (some p) = elim p.email [
    | none ↦ Result.err (unauthorized "Invalid Google token payload")
    | some email ↦
        if str_eq email ""
        then Result.err (unauthorized "Invalid Google token payload")
        else if not p.email_verified
        then Result.err unverified_google
        else ok (email, p)
  ]

  -- The catch clause: an UnauthorizedException is passed on, anything else becomes one.
  unfoldable pub google_failure : {A : Type 0} → Error → Exec World A
  google_failure (unauthorized m) = throw (unauthorized m)
  google_failure _ = throw (unauthorized "Google authentication failed")

  unfoldable pub payload_step : Result (Option TokenPayload) → Exec World (String × TokenPayload)
  unfolding checked_payload google_failure
  payload_step (Result.err e) w = google_failure e w
  payload_step (ok p) w = elim (checked_payload p) [
    | ok found ↦ (ok found, w)
    | Result.err e ↦ google_failure e w
  ]

  unfoldable pub verified_payload : String → Exec World (String × TokenPayload)
  unfolding payload_step
  verified_payload id_token w = let (r, w') = verify_id_token id_token w in payload_step r w'

  unfoldable pub google_mobile_login : String → CreateSessionDto → Exec World AuthResponse
  unfolding verified_payload first_word other_words
  google_mobile_login id_token session_dto = do
    found ← verified_payload id_token
    u ← find_or_create_by_google b (record {
      email = found.0;
      first_name = or_else found.1.given_name (first_of found.1.name);
      last_name = or_else found.1.family_name (other_words found.0);
      google_id = found.1.sub;
    })
    open_session t b a u (some session_dto)

  -- Where the browser is sent.
  unfoldable pub redirect_base : Option String → Result String
  redirect_base none = ok config.client_url
  redirect_base (some encoded) = elim (decode_uri_component encoded) [
    | none ↦ Result.err (bad_request "Invalid Oauth State")
    | some requested ↦
        elim (validate_redirect_url parse_url requested config.allowed_redirect_origins) [
          | Result.err e ↦ Result.err e
          | ok _ ↦ ok requested
        ]
  ]

  unfoldable pub redirection : AuthResponse → String → Result CallbackAnswer
  redirection response base =
      let redirect_url = base & "/onboarding" in
      elim (validate_redirect_url parse_url redirect_url config.allowed_redirect_origins) [
        | Result.err e ↦ Result.err e
        | ok _ ↦ ok (
            redirect (
              redirect_url & "#token=" & response.tokens.access_token & "&sessionId="
              & response.session_id))
      ]

  unfoldable pub google_callback_redirect : String → AuthResponse → Exec World CallbackAnswer
  unfolding redirect_base redirection after_web
  google_callback_redirect state response = do
    set_cookie
        (record { value = response.tokens.refresh_token; secure = not config.is_development })
    if str_eq state "mobile"
        then pure (json response.tokens.access_token response.session_id response.user)
        else (do
          base ← query (λ w. redirect_base (after_web state))
          query (λ w. redirection response base))

  -- GoogleStrategy.validate, which hands the response to done.
  unfoldable pub google_validate : GoogleProfile → Exec World AuthResponse
  unfolding first_word other_words
  google_validate profile = elim profile.emails [
    | [] ↦ throw missing_profile
    | (email, is_verified) ∷ _ ↦ if not is_verified then throw unverified_google else (do
      response ← find_or_create_google_oauth_user t b a (record {
        email = email;
        first_name = or_else profile.given_name (first_word profile.display_name);
        last_name = or_else profile.family_name (other_words profile.display_name);
        google_id = profile.id;
      })
      _ ← create_free_subscription b response.user.id
      pure response)
  ]
