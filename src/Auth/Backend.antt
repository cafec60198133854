-- ===== src/Auth/Backend.antt =====
-- What the auth service uses of code outside the repository and of the mailer: the client of Redis,
-- crypto, the token library, Google's client, cookies, addresses and the configuration.
use intell_api.Prelude.{ℕ, String, Bool, Option, List}
use intell_api.Exec.{Result, Exec}
use intell_api.Common.Enums.{UserRole}
use intell_api.Inverters.{Inverter}
use intell_api.Team.Member.{InverterRole}
use intell_api.Auth.Redis.{RedisClient}

pub record JwtPayload : Type 0 where
  pub sub : String
  pub email : String
  pub role : UserRole
  pub session_id : String
  pub jti : String

-- The payload of a Google token, as far as it is read.
pub record TokenPayload : Type 0 where
  pub email : Option String
  pub email_verified : Bool
  pub given_name : Option String
  pub name : Option String
  pub family_name : Option String
  pub sub : String

-- The parts of `new URL(text)` that are read.
pub record Url : Type 0 where
  pub protocol : String
  pub origin : String

pub record AuthConfig : Type 0 where
  pub client_url : String
  pub allowed_redirect_origins : List String
  pub is_development : Bool

pub record Cookie : Type 0 where
  pub value : String
  pub secure : Bool

pub record AuthBackend (W : Type 0) : Type 0 where
  pub config : AuthConfig
  pub redis : RedisClient W
  -- crypto.randomUUID, crypto.randomBytes(n).toString('hex') and crypto.randomInt(0, 10)
  pub random_uuid : W → String × W
  pub random_bytes : ℕ → W → String × W
  pub random_digit : W → ℕ × W
  -- crypto.createHash('sha256').update(text).digest('hex')
  pub sha256 : String → String
  -- jwtService.signAsync, and jwtService.decode: null if the text is no token, else jti and exp.
  pub sign_async : JwtPayload → Exec W String
  pub decode : String → Option (Option String × Option ℕ)
  -- googleClient.verifyIdToken and ticket.getPayload
  pub verify_id_token : String → Exec W (Option TokenPayload)
  -- new URL(text), and decodeURIComponent(text): none where they throw.
  pub parse_url : String → Option Url
  pub decode_uri_component : String → Option String
  -- res.cookie('refresh_token', value, options), where the other options are constants.
  pub set_cookie : Cookie → Exec W (Unit {0})
  -- emailService: the address, and what the mail is made of.
  pub send_verify_email : String → String → String → Exec W (Unit {0})
  pub send_welcome : String → String → Exec W (Unit {0})
  pub send_password_reset : String → String → String → Exec W (Unit {0})
  pub send_password_update : String → String → Exec W (Unit {0})
  pub send_team_invite_accepted : String → String → String → InverterRole → Exec W (Unit {0})
  -- The query of invertersService.findByUserId.
  pub find_inverters : (Inverter → Bool) → W → Result (List Inverter)
