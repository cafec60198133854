-- ===== src/Auth/Tests/Requests.antt =====
-- Ada signs in and out, resets her password, and signs in with Google.
use intell_api.Prelude.{String, Bool, true, Option, some, [], ◌∷◌, ◌≡◌, ◌≢◌, refl, map, eq_refl}
use intell_api.Prelude.Text.{◌&◌}
use intell_api.Exec.{Result, ok, err, forbidden}
use intell_api.Users.{User, UserSettings, Session, Subscription}
use intell_api.Users.Accounts.{required}
use intell_api.Users.Sessions.{
  CreateSessionDto, no_device, has_id, find_session_by_id, found_session, validate_session, is_past,
  deactivate_session,
}
use intell_api.Users.Service.{find_by_email, update_password_hash}
use intell_api.Users.Rows.{has_id as has_user_id, with_password}
use intell_api.Database.Laws.{change}
use intell_api.Database.Memory.{memory_laws, ok-injective, state_of, value_of}
use intell_api.Auth.Backend.{AuthBackend, JwtPayload, Url}
use intell_api.Auth.Redis.{redis_key}
use intell_api.Auth.Tokens.{
  AuthTokens, AuthResponse, to_public_user, ClientTokens, blacklist, logout, refresh, validate,
}
use intell_api.Auth.Tokens.Logout.{logout_lem}
use intell_api.Auth.Service.{SigninResponse, login, open_session, signed_response, compare_password}
use intell_api.Auth.Service.SigninResponse.{public_user}
use intell_api.Auth.Service.Login.{IsKnown, IsSignedIn, login-IsKnown}
use intell_api.Auth.Passwords.{ResetPasswordDto, reset_password}
use intell_api.Auth.Passwords.Reset.{reset_password_lem}
use intell_api.Auth.Signin.{google_callback_redirect}
use intell_api.Auth.Signin.CallbackAnswer.{redirect}
use intell_api.Auth.Signin.Redirects.{IsAllowed, google_callback_redirect-IsAllowed}
use intell_api.Auth.Tests.Store.{
  Store, store, team, accounts, auth, token_laws, redis_laws, ada, cached,
}

-- Ada's session is closed.
closed :
    (deactivate_session accounts "s1" (blacklist team accounts auth (auth.decode "s1") store).1).0
    ≡ ok tt
unfolding deactivate_session blacklist intell_api.Auth.Redis.redis_set
closed = refl

logout_lem_example :
    ((token : String) (is_mobile : Bool) (x : ClientTokens)
      → (refresh team accounts auth token "s1" is_mobile
          (logout team accounts auth "s1" "s1" store).1).0
        ≢ ok x)
    × ((p q : JwtPayload)
        → (validate team accounts auth
            (record p { session_id = "s1" })
            (logout team accounts auth "s1" "s1" store).1).0
          ≢ ok q)
logout_lem_example =
    logout_lem team accounts auth (λ w. w.sessions)
      (memory_laws (λ w. w.sessions) (λ rs w. record w { sessions = rs }) (λ s. s.id)
        (λ rs w. refl))
      "s1" "s1" store closed

-- Ada signs in with her password.
answer_of : Result SigninResponse → SigninResponse
answer_of (ok r) = r
answer_of (err e) = public_user (to_public_user ada)

ada_answer : SigninResponse
unfolding answer_of
ada_answer = answer_of (login team accounts auth "ada@example.com" "secret" no_device true store).0

ada_login :
    login team accounts auth "ada@example.com" "secret" no_device true store
    ≡ (ok ada_answer, (login team accounts auth "ada@example.com" "secret" no_device true store).1)
unfolding login find_by_email compare_password open_session signed_response ada_answer
    intell_api.Users.Sessions.create_session intell_api.Auth.Tokens.issue_tokens
    intell_api.Users.Sessions.set_refresh_token_hash intell_api.Team.Access.get_user_memberships
    intell_api.Auth.Tokens.set_refresh_token
ada_login = refl

login-IsKnown_example :
    (u : User) × IsKnown team accounts auth token_laws "ada@example.com" "secret" u store
    × IsSignedIn team accounts auth token_laws u true ada_answer
        (login team accounts auth "ada@example.com" "secret" no_device true store).1
login-IsKnown_example =
    login-IsKnown team accounts auth token_laws "ada@example.com" "secret" no_device true ada_answer
      store (login team accounts auth "ada@example.com" "secret" no_device true store).1 ada_login

-- A reset that Ada has asked for.
abbrev asked : Store
asked = record store { cache = (redis_key "ada@example.com" "password_reset_token", "#tok") ∷ [] }

abbrev reset_dto : ResetPasswordDto
reset_dto = record { email = "ada@example.com"; password = "new"; token = "tok" }

abbrev after_reset : Store
after_reset = (reset_password team accounts auth reset_dto asked).1

ada_reset :
    reset_password team accounts auth reset_dto asked ≡ (ok (to_public_user ada), after_reset)
unfolding reset_password to_public_user intell_api.Auth.Redis.redis_get cached redis_key
    find_by_email update_password_hash required intell_api.Auth.Redis.redis_delete
ada_reset = refl

hash_accepts :
    (password hash : String) (w w' : Store)
    → accounts.bcrypt_hash password w ≡ (ok hash, w')
    → (accounts.bcrypt_compare password hash ≡ true) × (w'.users ≡ w.users)
hash_accepts password hash w w' h = (
  rw (← ok-injective (value_of Store h)) (eq_refl ("#" & password)),
  rw (← state_of Store h) refl,
)

reset_password_lem_example :
    (u : User) × (hash : String) × (find_by_email accounts "ada@example.com" asked ≡ ok (some u))
    × (u.email_verified ≡ true)
    × (accounts.bcrypt_compare "new" hash ≡ true)
    × (after_reset.users ≡ map (change (has_user_id u.id) (with_password hash)) asked.users)
    × ((token password : String)
        → reset_password team accounts auth
            (record { email = "ada@example.com"; password = password; token = token })
            after_reset
          ≡ (err (forbidden "You do not have permission to access this resource"), after_reset))
reset_password_lem_example =
    reset_password_lem team accounts auth redis_laws (λ w. w.users)
      (memory_laws (λ w. w.users) (λ rs w. record w { users = rs }) (λ s. s.id) (λ rs w. refl))
      hash_accepts (λ email name w. refl) (λ k w. refl) reset_dto (to_public_user ada) asked
      after_reset ada_reset

-- Addresses of one site, as they are parsed.
abbrev site_url : String → Option Url
site_url s = some (record { protocol = "https:"; origin = "https://intell.africa" })

abbrev browser : AuthBackend Store
browser = record auth { parse_url = site_url }

abbrev google_response : AuthResponse
google_response = record {
  tokens = record { access_token = "at"; refresh_token = "rt" };
  user = to_public_user ada;
  session_id = "s1";
  inverter_access = [];
}

to_site :
    google_callback_redirect team accounts browser "web:https://intell.africa/app" google_response
      store
    ≡ (ok (redirect "https://intell.africa/app/onboarding#token=at&sessionId=s1"), store)
unfolding google_callback_redirect intell_api.Auth.Redirect.validate_redirect_url
to_site = refl

google_callback_redirect-IsAllowed_example :
    (url : String) × IsAllowed site_url ("https://intell.africa" ∷ []) url
    × ("https://intell.africa/app/onboarding#token=at&sessionId=s1"
        ≡ url & "#token=" & "at" & "&sessionId=" & "s1")
google_callback_redirect-IsAllowed_example =
    google_callback_redirect-IsAllowed team accounts browser "web:https://intell.africa/app"
      google_response "https://intell.africa/app/onboarding#token=at&sessionId=s1" store store
      to_site
