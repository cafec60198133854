-- ===== src/Users/Accounts.antt =====
-- What the users service uses of code outside its module: the tables, the clock, bcrypt, the
-- inverters service and the storage of images. All of it acts on one state of the world, W.
use intell_api.Prelude.{ℕ, String, Bool, Option, none, some, List}
use intell_api.Exec.{Result, Exec, Error, ok}
use intell_api.Common.Enums.{SubscriptionPlan}
use intell_api.Users.{User, UserSettings, Session, Subscription}
use intell_api.Inverters.Service.{InverterConnectorDto, Connected}
use intell_api.Database.{Table}

pub record AccountsBackend (W : Type 0) : Type 0 where
  -- Date.now()
  pub now : W → ℕ
  pub users : Table W User
  pub settings : Table W UserSettings
  pub sessions : Table W Session
  pub subscriptions : Table W Subscription
  -- Equality of citext columns.
  pub email_eq : String → String → Bool
  -- column ILIKE '%text%', the column first.
  pub ilike : String → String → Bool
  -- A page of users, newest first, with the settings of each joined: those that pass a test; and
  -- those that pass a test of the user, the settings and the plan of the newest active
  -- subscription, with the number of all such users.
  pub list_with_settings : (User → Option UserSettings → Bool) → ℕ → ℕ → W → Result (List User)
  pub list_with_plan :
      (User → Option UserSettings → SubscriptionPlan → Bool) → ℕ → ℕ → W → Result (List User × ℕ)
  -- The insert of upsertByGoogle: the new row, and what becomes of the row that has its address
  -- already; the id that the database gives back.
  pub insert_or_update : (String → ℕ → User) → (User → User) → Exec W String
  -- The newest subscription that passes the test.
  pub newest_subscription : (Subscription → Bool) → W → Result (Option Subscription)
  -- The newest subscription of each user among those that pass the test: distinctOn(['s.user_id']).
  pub newest_of_each_user : (Subscription → Bool) → W → Result (List Subscription)
  -- bcrypt.hash(text, 10)
  pub bcrypt_hash : String → Exec W String
  -- bcrypt.compare of a text with a hash that is not null.
  pub bcrypt_compare : String → String → Bool
  -- invertersService.connectInverter
  pub connect_inverter : InverterConnectorDto → String → Exec W Connected

-- A row that the database must have given.
unfoldable pub required {ℓ} : {W : Type 0} {A : Type ℓ} → Error → Option A → W → Result A
required e none w = Result.err e
required e (some a) w = ok a
