-- ===== src/Auth/Service.antt =====
-- Registration, sign-in and one-time codes of modules/auth/auth.service.ts, with
-- common/utils/otp.util.ts.
pub mod Attempts
pub mod Login
pub mod Answers
use intell_api.Prelude.{
  ℕ, ℕ, ◌+◌, String, Bool, true, false, not, Option, none, some, leb, if◌then◌else◌, str_eq,
}
use Prim.Native.Nat.{zero, suc}
use intell_api.Prelude.Text.{◌&◌, show, parse_int}
use intell_api.Common.Enums.{brand_text}
use intell_api.Exec.{
  Error, not_found, unauthorized, forbidden, thrown, Result, ok, Exec, pure, throw, query, ◌>>=◌,
  ◌>>◌,
}
use intell_api.Inverters.{Inverter}
use intell_api.Users.{User}
use intell_api.Users.Accounts.{AccountsBackend}
use intell_api.Users.Sessions.{CreateSessionDto, create_session}
use intell_api.Users.Service.{
  create, create_team_invited_user, find_one, find_by_email, find_or_create_by_google,
  set_email_verified, create_free_subscription,
}
use intell_api.Users.Rows.{CreateUserDto, GoogleOAuthDto}
use intell_api.Team.Member.{InverterMember}
use intell_api.Team.Backend.{TeamBackend}
use intell_api.Team.Access.{find_invite_by_token_and_email, activate_membership}
use intell_api.Auth.Backend.{AuthBackend}
use intell_api.Auth.Redis.{redis_get, redis_set, redis_delete}
use intell_api.Auth.Tokens.{
  AuthResponse, InverterAccess, PublicUser, to_public_user, issue_tokens, set_refresh_token,
}

pub record RegisterFromInviteDto : Type 0 where
  pub invite_token : String
  pub email : String
  pub password : String
  pub first_name : String
  pub last_name : String

-- What a sign-in answers: a public user only, or tokens with the refresh token for a mobile client.
pub data SigninResponse : Type 0 where
  public_user : PublicUser → SigninResponse
  signed_in : AuthResponse → Option String → SigninResponse

abbrev pub invalid_credentials : Error
invalid_credentials = unauthorized "The provided email or password is incorrect"

abbrev pub invalid_otp : Error
invalid_otp = unauthorized "The verification code is invalid or has expired"

abbrev pub attempts_exceeded : Error
attempts_exceeded = unauthorized "Too many verification attempts. Try again later"

abbrev full_name : User → String
full_name u = u.first_name & " " & u.last_name

abbrev inverter_name : Inverter → String
inverter_name i = brand_text i.brand & " " & i.model

-- attemptsRaw ? Number.parseInt(attemptsRaw, 10) : 0, where none is NaN.
unfoldable pub attempts_of : Option String → Option ℕ
attempts_of none = some 0
attempts_of (some raw) = if str_eq raw "" then some 0 else parse_int raw

-- attempts >= 5
abbrev pub is_exceeded : Option ℕ → Bool
is_exceeded none = false
is_exceeded (some n) = leb 5 n

-- `${attempts + 1}`
unfoldable pub next_attempt : Option ℕ → String
next_attempt none = "NaN"
next_attempt (some n) = show (n + 1)

module _ (t : TeamBackend) (b : AccountsBackend t.World) (a : AuthBackend t.World) where
  open t use {World}
  open b use {bcrypt_hash, bcrypt_compare}
  open a use {
    config, redis, random_digit, set_cookie, send_verify_email, send_welcome,
    send_team_invite_accepted,
  }

  -- generateOtp: as many digits as the first argument says, after a text.
  unfoldable pub otp_digits : ℕ → String → Exec World String
  otp_digits zero text w = (ok text, w)
  otp_digits (suc n) text w = let (d, w') = random_digit w in otp_digits n (text & show d) w'

  unfoldable pub generate_otp : Exec World String
  unfolding otp_digits
  generate_otp = otp_digits 6 ""

  unfoldable pub send_verification_email : User → Exec World (Unit {0})
  unfolding generate_otp
  send_verification_email u = do
    otp ← generate_otp
    hash ← bcrypt_hash otp
    redis_set redis u.email hash "otp" 900
    send_verify_email u.email (full_name u) otp

  unfoldable pub send_welcome_email : User → Exec World (Unit {0})
  send_welcome_email u = send_welcome u.email (full_name u)

  unfoldable pub register : CreateUserDto → Exec World PublicUser
  unfolding send_verification_email
  register dto = do u ← create b dto; send_verification_email u; pure (to_public_user u)

  -- The session and the tokens of a user who has signed in.
  unfoldable pub open_session : User → Option CreateSessionDto → Exec World AuthResponse
  open_session u dto = do session ← create_session b u.id dto; issue_tokens t b a u session

  -- What is common to the two ways of accepting an invite.
  unfoldable pub accept : InverterMember → User → Exec World (Unit {0}) → Exec World (Unit {0})
  accept invite u welcome = do
    inverter ← query (t.find_inverter invite.inverter_id)
    welcome
    activate_membership t invite u.id
    send_team_invite_accepted u.email u.first_name (inverter_name inverter) invite.role

  unfoldable pub register_from_invite :
      RegisterFromInviteDto → CreateSessionDto → Exec World AuthResponse
  unfolding accept open_session send_welcome_email
  register_from_invite dto session_dto = do
    invite ← find_invite_by_token_and_email t dto.invite_token dto.email
    u ← create_team_invited_user b (record {
      email = invite.email;
      password = dto.password;
      first_name = dto.first_name;
      last_name = dto.last_name;
      role = none;
    })
    accept invite u (send_welcome_email u)
    response ← open_session u (some session_dto)
    set_cookie
        (record { value = response.tokens.refresh_token; secure = not config.is_development })
    pure response

  unfoldable pub existing_user_accept_invite : String → String → Exec World InverterAccess
  unfolding accept
  existing_user_accept_invite invite_token user_id = do
    u ← find_one b user_id
    invite ← find_invite_by_token_and_email t invite_token u.email
    accept invite u (pure tt)
    pure (record { inverter_id = invite.inverter_id; role = invite.role })

  -- bcrypt.compare, which throws without a hash.
  unfoldable pub compare_password : String → Option String → World → Result Bool
  compare_password password none w = Result.err (thrown "data and hash arguments required")
  compare_password password (some hash) w = ok (bcrypt_compare password hash)

  unfoldable pub signed_response : AuthResponse → Bool → Exec World SigninResponse
  signed_response response is_mobile = do
    body ← set_refresh_token t b a response.tokens.refresh_token is_mobile
    pure (signed_in response body)

  unfoldable pub login_as :
      String → CreateSessionDto → Bool → Option User → Exec World SigninResponse
  unfolding compare_password send_verification_email open_session signed_response
  login_as password session_dto is_mobile none = throw invalid_credentials
  login_as password session_dto is_mobile (some u) = do
    valid ← query (compare_password password u.password_hash)
    if not valid
        then throw invalid_credentials
        else if not u.email_verified
        then (do send_verification_email u; throw (forbidden "This user email is not verified"))
        else (do response ← open_session u (some session_dto); signed_response response is_mobile)

  unfoldable pub login : String → String → CreateSessionDto → Bool → Exec World SigninResponse
  unfolding login_as
  login email password session_dto is_mobile = do
    u ← query (find_by_email b email)
    login_as password session_dto is_mobile u

  abbrev pub matches_hash : String → Option String → Bool
  matches_hash otp none = false
  matches_hash otp (some hash) = if str_eq hash "" then false else bcrypt_compare otp hash

  -- After a code that matches.
  unfoldable pub confirm_email : String → User → CreateSessionDto → Bool → Exec World SigninResponse
  unfolding open_session signed_response send_welcome_email
  confirm_email email u session_dto is_mobile = do
    set_email_verified b u.id true
    _ ← create_free_subscription b u.id
    redis_delete redis email "otp"
    redis_delete redis email "otp_attempts"
    response ← open_session (record u { email_verified = true }) (some session_dto)
    answer ← signed_response response is_mobile
    send_welcome_email u
    pure answer

  -- The check of a code: a wrong one counts.
  unfoldable pub check_otp :
      String → String → Option ℕ → User → CreateSessionDto → Bool → Exec World SigninResponse
  unfolding confirm_email
  check_otp email otp attempts u session_dto is_mobile = do
    stored_hash ← query (redis_get redis email "otp")
    if not (matches_hash otp stored_hash)
        then (do
          redis_set redis email (next_attempt attempts) "otp_attempts" 900
          throw invalid_otp)
        else confirm_email email u session_dto is_mobile

  unfoldable pub verify_user :
      String → String → CreateSessionDto → Bool → Option User → Exec World SigninResponse
  unfolding check_otp attempts_of next_attempt
  verify_user email otp session_dto is_mobile none = throw invalid_otp
  verify_user email otp session_dto is_mobile (some u) =
      if u.email_verified then pure (public_user (to_public_user u)) else (do
        raw ← query (redis_get redis email "otp_attempts")
        if is_exceeded (attempts_of raw)
            then throw attempts_exceeded
            else check_otp email otp (attempts_of raw) u session_dto is_mobile)

  unfoldable pub verify_email :
      String → String → CreateSessionDto → Bool → Exec World SigninResponse
  unfolding verify_user
  verify_email email otp session_dto is_mobile = do
    u ← query (find_by_email b email)
    verify_user email otp session_dto is_mobile u

  unfoldable pub resend_to : String → Option User → Exec World PublicUser
  unfolding send_verification_email attempts_of next_attempt
  resend_to email none = throw (not_found "No user found with the provided email address")
  resend_to email (some u) = do
    raw ← query (redis_get redis email "otp_resend_attempts")
    if is_exceeded (attempts_of raw) then throw attempts_exceeded else (do
      redis_set redis email (next_attempt (attempts_of raw)) "otp_resend_attempts" 900
      send_verification_email u
      pure (to_public_user u))

  unfoldable pub resend_verification_email : String → Exec World PublicUser
  unfolding resend_to
  resend_verification_email email = do u ← query (find_by_email b email); resend_to email u

  unfoldable pub find_or_create_google_oauth_user : GoogleOAuthDto → Exec World AuthResponse
  unfolding open_session
  find_or_create_google_oauth_user dto = do u ← find_or_create_by_google b dto; open_session u none
