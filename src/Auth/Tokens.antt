-- ===== src/Auth/Tokens.antt =====
-- The tokens of modules/auth/auth.service.ts: issuing, rotating and revoking them, and
-- strategies/jwt.strategy.ts, which checks them.
pub mod Laws
pub mod Rotation
mod Worlds
mod Quiet
pub mod Replay
pub mod Runs
pub mod Answer
pub mod Outcome
pub mod Logout
use intell_api.Prelude.{
  ℕ, ◌-◌, ◌/◌, String, Bool, false, not, ◌&&◌, ◌++◌, Option, none, some, List, map, ltb,
  if◌then◌else◌, str_eq,
}
use intell_api.Exec.{
  Error, unauthorized, thrown, Result, ok, err, Exec, pure, throw, query, ◌>>=◌, ◌>>◌,
}
use intell_api.Common.Enums.{UserRole}
use intell_api.Inverters.{Inverter}
use intell_api.Users.{User, Session}
use intell_api.Users.Accounts.{AccountsBackend}
use intell_api.Users.Sessions.{
  current_time, find_session_by_id, set_refresh_token_hash, compare_and_swap_refresh_token,
  deactivate_session,
}
use intell_api.Users.Service.{find_one}
use intell_api.Team.Member.{InverterRole, owner, InverterMember}
use intell_api.Team.Backend.{TeamBackend}
use intell_api.Team.Access.{get_user_memberships}
use intell_api.Auth.Backend.{AuthBackend, JwtPayload}
use intell_api.Auth.Redis.{redis_get, redis_set}

pub record AuthTokens : Type 0 where
  pub access_token : String
  pub refresh_token : String

pub record InverterAccess : Type 0 where
  pub inverter_id : String
  pub role : InverterRole

pub record PublicUser : Type 0 where
  pub id : String
  pub email : String
  pub first_name : String
  pub last_name : String
  pub role : UserRole
  pub last_login_at : Option ℕ
  pub email_verified : Bool
  pub created_at : ℕ

pub record AuthResponse : Type 0 where
  pub tokens : AuthTokens
  pub user : PublicUser
  pub session_id : String
  pub inverter_access : List InverterAccess

-- A response without the refresh token, or with it, for a mobile client.
pub record ClientTokens : Type 0 where
  pub access_token : String
  pub body_refresh_token : Option String

unfoldable pub to_public_user : User → PublicUser
to_public_user u = record {
  id = u.id;
  email = u.email;
  first_name = u.first_name;
  last_name = u.last_name;
  role = u.role;
  last_login_at = u.last_login_at;
  email_verified = u.email_verified;
  created_at = u.created_at;
}

abbrev pub invalid_refresh_token : Error
invalid_refresh_token = unauthorized "The refresh token is invalid, expired, or cannot be used"

abbrev pub invalid_token : Error
invalid_token = unauthorized "The token is invalid"

-- The test of the query of findByUserId in modules/inverters/inverters.service.ts.
abbrev pub is_owned : String → Inverter → Bool
is_owned user_id i = str_eq i.user_id user_id && i.is_active

unfoldable pub owned_access : Inverter → InverterAccess
owned_access i = record { inverter_id = i.id; role = owner }

unfoldable pub member_access : InverterMember → InverterAccess
member_access m = record { inverter_id = m.inverter_id; role = m.role }

unfoldable pub payload_of : User → Session → String → JwtPayload
payload_of u s jti = record {
  sub = u.id;
  email = u.email;
  role = u.role;
  session_id = s.id;
  jti = jti;
}

-- crypto.timingSafeEqual of the hash of what was received and the stored one.
unfoldable pub compare_refresh_token_hash : (String → String) → String → String → Bool
compare_refresh_token_hash sha256 received stored = str_eq (sha256 received) stored

module _ (t : TeamBackend) (b : AccountsBackend t.World) (a : AuthBackend t.World) where
  open t use {World}
  open a use {
    config, redis, random_uuid, random_bytes, sha256, sign_async, decode, set_cookie,
    find_inverters,
  }

  abbrev new_uuid : Exec World String
  new_uuid w = let (id, w') = random_uuid w in (ok id, w')

  abbrev pub new_secret : Exec World String
  new_secret w = let (bytes, w') = random_bytes 32 w in (ok bytes, w')

  unfoldable pub sign_tokens : User → Session → Exec World AuthTokens
  unfolding payload_of
  sign_tokens u session = do
    jti ← new_uuid
    access ← sign_async (payload_of u session jti)
    refresh ← new_secret
    pure (record { access_token = access; refresh_token = refresh })

  unfoldable pub persist_refresh_token : String → String → Exec World (Unit {0})
  persist_refresh_token session_id refresh_token =
      set_refresh_token_hash b session_id (some (sha256 refresh_token))

  unfoldable pub compute_inverter_access : String → Exec World (List InverterAccess)
  unfolding owned_access member_access
  compute_inverter_access user_id = do
    owned ← query (find_inverters (is_owned user_id))
    memberships ← get_user_memberships t user_id none
    pure (map owned_access owned ++ map member_access memberships)

  unfoldable pub get_profile : String → Exec World (User × List InverterAccess)
  unfolding compute_inverter_access
  get_profile user_id = do
    u ← find_one b user_id
    access ← compute_inverter_access user_id
    pure (u, access)

  unfoldable pub issue_tokens : User → Session → Exec World AuthResponse
  unfolding sign_tokens persist_refresh_token compute_inverter_access to_public_user
  issue_tokens u session = do
    tokens ← sign_tokens u session
    persist_refresh_token session.id tokens.refresh_token
    access ← compute_inverter_access u.id
    pure (record {
      tokens = tokens;
      user = to_public_user u;
      session_id = session.id;
      inverter_access = access;
    })

  unfoldable pub set_refresh_token : String → Bool → Exec World (Option String)
  set_refresh_token refresh_token is_mobile = if is_mobile then pure (some refresh_token) else (do
    set_cookie (record { value = refresh_token; secure = not config.is_development })
    pure none)

  -- The end of refresh: a new pair of tokens, and the swap.
  unfoldable pub rotate : User → Session → String → Bool → Exec World ClientTokens
  unfolding sign_tokens set_refresh_token
  rotate u session stored_hash is_mobile = do
    tokens ← sign_tokens u session
    swapped ←
        compare_and_swap_refresh_token b session.id stored_hash (sha256 tokens.refresh_token)
          session.created_at
    if not swapped then throw invalid_refresh_token else (do
      body ← set_refresh_token tokens.refresh_token is_mobile
      pure (record { access_token = tokens.access_token; body_refresh_token = body }))

  unfoldable pub rotate_if :
      String → User → Session → Option String → Bool → Exec World ClientTokens
  unfolding rotate compare_refresh_token_hash
  rotate_if refresh_token u session none is_mobile = throw invalid_refresh_token
  rotate_if refresh_token u session (some stored) is_mobile =
      if str_eq stored ""
      then throw invalid_refresh_token
      else if not (compare_refresh_token_hash sha256 refresh_token stored)
      then throw invalid_refresh_token
      else rotate u session stored is_mobile

  unfoldable pub refresh : String → String → Bool → Exec World ClientTokens
  unfolding rotate_if
  refresh refresh_token session_id is_mobile = do
    session ← find_session_by_id b session_id
    u ← find_one b session.user_id
    rotate_if refresh_token u session session.refresh_token_hash is_mobile

  -- decoded.jti && decoded.exp, and what is left of the token's life.
  unfoldable pub blacklist : Option (Option String × Option ℕ) → Exec World (Unit {0})
  blacklist none = throw (thrown "Cannot read properties of null")
  blacklist (some (none, exp)) = pure tt
  blacklist (some (some jti, none)) = pure tt
  blacklist (some (some jti, some exp)) = if str_eq jti "" then pure tt else (do
    time ← current_time b
    if ltb (time / 1000) exp
        then redis_set redis jti "1" "blacklist" (exp - time / 1000)
        else pure tt)

  -- try { … } finally { … }: an error of the second part hides one of the first.
  abbrev after_both : Result (Unit {0}) → Result (Unit {0}) → Result (Unit {0})
  after_both r (ok x) = r
  after_both r (Result.err e) = Result.err e

  abbrev finally_ : Exec World (Unit {0}) → Exec World (Unit {0}) → Exec World (Unit {0})
  finally_ m n w = let (r, w1) = m w in let (s, w2) = n w1 in (after_both r s, w2)

  unfoldable pub logout : String → String → Exec World (Unit {0})
  unfolding blacklist
  logout session_id access_token =
      finally_ (blacklist (decode access_token)) (deactivate_session b session_id)

  abbrev is_text_given : Option String → Bool
  is_text_given none = false
  is_text_given (some s) = not (str_eq s "")

  -- !session.isActive && session.expiresAt && session.expiresAt.getTime() < Date.now()
  abbrev is_stale : Session → ℕ → Bool
  is_stale s time = not s.is_active && elim s.expires_at [ none ↦ false | some e ↦ ltb e time ]

  unfoldable pub validate_unlisted : JwtPayload → Option String → Exec World JwtPayload
  validate_unlisted payload blacklisted =
      if is_text_given blacklisted then throw invalid_token else (do
        session ← find_session_by_id b payload.session_id
        time ← current_time b
        if is_stale session time then throw invalid_token else pure payload)

  -- JwtStrategy.validate
  unfoldable pub validate : JwtPayload → Exec World JwtPayload
  unfolding validate_unlisted
  validate payload =
      if not (not (str_eq payload.jti "") && not (str_eq payload.session_id ""))
      then throw invalid_token
      else (do
        blacklisted ← query (redis_get redis payload.jti "blacklist")
        validate_unlisted payload blacklisted)
