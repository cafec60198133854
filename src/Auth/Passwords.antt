-- ===== src/Auth/Passwords.antt =====
-- Forgotten passwords of modules/auth/auth.service.ts, with common/utils/password.util.ts.
pub mod Reset
use intell_api.Prelude.{String, not, Option, none, some, if◌then◌else◌, str_eq}
use intell_api.Prelude.Text.{◌&◌}
use intell_api.Exec.{forbidden, Exec, pure, throw, query, ◌>>=◌, ◌>>◌}
use intell_api.Users.{User}
use intell_api.Users.Accounts.{AccountsBackend}
use intell_api.Users.Service.{find_by_email, update_password_hash}
use intell_api.Team.Backend.{TeamBackend}
use intell_api.Auth.Backend.{AuthBackend}
use intell_api.Auth.Redis.{redis_get, redis_set, redis_delete}
use intell_api.Auth.Tokens.{PublicUser, to_public_user, new_secret, invalid_token}

pub record ResetPasswordDto : Type 0 where
  pub email : String
  pub password : String
  pub token : String

-- clientUrl.endsWith('/') ? clientUrl.substring(0, clientUrl.length - 1) : clientUrl
unfoldable pub without_slash : String → String
without_slash String.[] = ""
without_slash (String.◌∷◌ c s) =
    let rest = without_slash s in if str_eq (String.◌∷◌ c s) "/" then "" else String.◌∷◌ c rest

module _ (t : TeamBackend) (b : AccountsBackend t.World) (a : AuthBackend t.World) where
  open t use {World}
  open b use {bcrypt_hash, bcrypt_compare}
  open a use {config, redis, send_password_reset, send_password_update}

  unfoldable pub send_password_reset_email : User → Exec World String
  unfolding without_slash
  send_password_reset_email u = do
    token ← new_secret t b a
    send_password_reset u.email (without_slash config.client_url & "/reset-password?token=" & token)
        u.first_name
    pure token

  unfoldable pub forgot_for : String → Option User → Exec World String
  unfolding send_password_reset_email
  forgot_for email none = pure email
  forgot_for email (some u) = if not u.email_verified then pure email else (do
    token ← send_password_reset_email u
    hash ← bcrypt_hash token
    redis_set redis email hash "password_reset_token" 300
    pure email)

  unfoldable pub forgot_password : String → Exec World String
  unfolding forgot_for
  forgot_password email = do u ← query (find_by_email b email); forgot_for email u

  unfoldable pub reset_for : ResetPasswordDto → Option User → Exec World PublicUser
  unfolding to_public_user
  reset_for dto none = throw (forbidden "The provided email or password is incorrect")
  reset_for dto (some u) =
      if not u.email_verified then throw (forbidden "The user email is not verified") else (do
        hash ← bcrypt_hash dto.password
        _ ← update_password_hash b u.id hash
        send_password_update u.email u.first_name
        redis_delete redis dto.email "password_reset_token"
        pure (to_public_user u))

  unfoldable pub reset_with : ResetPasswordDto → Option String → Exec World PublicUser
  unfolding reset_for
  reset_with dto none = throw (forbidden "You do not have permission to access this resource")
  reset_with dto (some token_hash) =
      if str_eq token_hash ""
      then throw (forbidden "You do not have permission to access this resource")
      else if not (bcrypt_compare dto.token token_hash)
      then throw invalid_token
      else (do u ← query (find_by_email b dto.email); reset_for dto u)

  unfoldable pub reset_password : ResetPasswordDto → Exec World PublicUser
  unfolding reset_with
  reset_password dto = do
    token_hash ← query (redis_get redis dto.email "password_reset_token")
    reset_with dto token_hash
