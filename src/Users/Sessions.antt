-- ===== src/Users/Sessions.antt =====
-- The sessions of modules/users/users.service.ts, and actions/sessions.action.ts.
pub mod Lifetime
use intell_api.Prelude.{
  ℕ, ◌+◌, ◌*◌, String, Bool, true, false, not, ◌&&◌, Option, none, some, List, map, ltb,
  if◌then◌else◌, str_eq,
}
use intell_api.Exec.{Error, not_found, unauthorized, internal, ok, Exec, pure, throw, query, ◌>>=◌}
use intell_api.Users.{Session}
use intell_api.Users.Accounts.{AccountsBackend}

-- 7 * 24 * 60 * 60 * 1000
abbrev pub sliding_ms : ℕ
sliding_ms = 7 * 24 * 60 * 60 * 1000

-- 30 * 24 * 60 * 60 * 1000
abbrev pub session_absolute_max_ms : ℕ
session_absolute_max_ms = 30 * 24 * 60 * 60 * 1000

abbrev pub invalid_session : Error
invalid_session = unauthorized "The session id is invalid or does not exist"

abbrev pub session_expired : Error
session_expired = unauthorized "Session expired or inactive"

pub record CreateSessionDto : Type 0 where
  pub device_name : Option String
  pub platform : Option String
  pub ip_address : Option String
  pub user_agent : Option String

abbrev pub has_id : String → Session → Bool
has_id id s = str_eq s.id id

-- text.slice(0, n)
unfoldable pub take_text : ℕ → String → String
take_text ℕ.zero s = ""
take_text (ℕ.suc n) String.[] = ""
take_text (ℕ.suc n) (String.◌∷◌ c s) = String.◌∷◌ c (take_text n s)

-- …(text && { column: text.slice(0, n) })
abbrev column : ℕ → Option String → Option String
column n none = none
column n (some s) = if str_eq s "" then none else some (take_text n s)

abbrev non_empty : Option String → Option String
non_empty none = none
non_empty (some s) = if str_eq s "" then none else some s

abbrev pub no_device : CreateSessionDto
no_device = record { device_name = none; platform = none; ip_address = none; user_agent = none }

abbrev pub device_of : Option CreateSessionDto → CreateSessionDto
device_of none = no_device
device_of (some dto) = dto

unfoldable pub new_session : String → CreateSessionDto → ℕ → String → ℕ → Session
unfolding take_text
new_session user_id dto expiry id time = record {
  id = id;
  user_id = user_id;
  refresh_token_hash = none;
  device_name = column 100 dto.device_name;
  platform = column 20 dto.platform;
  device_token = none;
  last_activity_at = time;
  expires_at = some expiry;
  is_active = true;
  ip_address = column 45 dto.ip_address;
  user_agent = non_empty dto.user_agent;
  created_at = time;
}

-- The payloads of the updates.
unfoldable pub ended : Session → Session
ended s = record s { is_active = false }

unfoldable pub logged_out : ℕ → Session → Session
logged_out time s = record s {
  is_active = false;
  refresh_token_hash = none;
  last_activity_at = time;
}

unfoldable pub with_hash : Option String → ℕ → Session → Session
with_hash none time s = record s {
  refresh_token_hash = none;
  last_activity_at = time;
  is_active = false;
}
with_hash (some hash) time s = record s {
  refresh_token_hash = some hash;
  last_activity_at = time;
  expires_at = some (time + sliding_ms);
}

-- slidingWindow < absoluteCap ? slidingWindow : absoluteCap
unfoldable pub new_expires_at : ℕ → ℕ → ℕ
new_expires_at created time =
    if ltb (time + sliding_ms) (created + session_absolute_max_ms)
    then time + sliding_ms
    else created + session_absolute_max_ms

unfoldable pub rotated : String → ℕ → ℕ → Session → Session
unfolding new_expires_at
rotated hash created time s = record s {
  refresh_token_hash = some hash;
  last_activity_at = time;
  expires_at = some (new_expires_at created time);
}

-- A comparison with NULL is not true.
abbrev pub is_hash : Option String → String → Bool
is_hash none h = false
is_hash (some g) h = str_eq g h

abbrev pub is_after : Option ℕ → ℕ → Bool
is_after none time = false
is_after (some t) time = ltb time t

-- The conditions of the atomic swap: created_at > now - 30 days, without a subtraction.
unfoldable pub is_swappable : String → String → ℕ → Session → Bool
is_swappable id expected time s =
    has_id id s
    && (is_hash s.refresh_token_hash expected
        && (s.is_active
            && (is_after s.expires_at time && ltb time (s.created_at + session_absolute_max_ms))))

-- session.expiresAt && now > session.expiresAt.getTime()
abbrev pub is_past : Option ℕ → ℕ → Bool
is_past none time = false
is_past (some t) time = ltb t time

module _ {W : Type 0} (b : AccountsBackend W) where
  open b use {now, sessions}

  abbrev pub current_time : Exec W ℕ
  current_time = query (λ w. ok (now w))

  unfoldable pub create_session : String → Option CreateSessionDto → Exec W Session
  unfolding new_session
  create_session user_id dto = do
    time ← current_time
    sessions.create (new_session user_id (device_of dto) (time + sliding_ms))

  unfoldable pub expire_session : Session → Exec W Session
  expire_session session = do _ ← sessions.update (has_id session.id) ended; throw session_expired

  unfoldable pub validate_session : Session → Exec W Session
  unfolding expire_session
  validate_session session = if not session.is_active then throw session_expired else (do
    time ← current_time
    if ltb (session.created_at + session_absolute_max_ms) time
        then expire_session session
        else if is_past session.expires_at time
        then expire_session session
        else pure session)

  unfoldable pub found_session : Option Session → Exec W Session
  unfolding validate_session
  found_session none = throw invalid_session
  found_session (some session) = validate_session session

  unfoldable pub find_session_by_id : String → Exec W Session
  unfolding found_session
  find_session_by_id session_id = do
    session ← query (sessions.get (has_id session_id))
    found_session session

  abbrev updated : Error → Option Session → Exec W (Unit {0})
  updated e none = throw e
  updated e (some s) = pure tt

  unfoldable pub set_refresh_token_hash : String → Option String → Exec W (Unit {0})
  unfolding with_hash
  set_refresh_token_hash session_id hash = do
    time ← current_time
    found ← sessions.update (has_id session_id) (with_hash hash time)
    updated (internal "Failed to update session") found

  unfoldable pub compare_and_swap_refresh_token : String → String → String → ℕ → Exec W Bool
  unfolding is_swappable rotated
  compare_and_swap_refresh_token session_id expected_hash new_hash created_at = do
    time ← current_time
    affected ←
        sessions.update_where (is_swappable session_id expected_hash time)
          (rotated new_hash created_at time)
    pure (ltb 0 affected)

  unfoldable pub deactivate_session : String → Exec W (Unit {0})
  unfolding logged_out
  deactivate_session id = do
    time ← current_time
    found ← sessions.update (has_id id) (logged_out time)
    updated (not_found "The session id is invalid or does not exist") found

  -- The tokens as they stand: the filter drops undefined, and a column without a value is null.
  unfoldable pub get_user_device_tokens : String → Exec W (List (Option String))
  get_user_device_tokens user_id = do
    rows ← query (sessions.find (λ s. str_eq s.user_id user_id) 1 100)
    pure (map (λ (s : Session). s.device_token) rows)

  unfoldable pub set_device_token : String → String → String → Exec W Bool
  set_device_token user_id session_id token = do
    time ← current_time
    affected ←
        sessions.update_where
          (λ s.
            has_id session_id s
            && (str_eq s.user_id user_id && (s.is_active && is_after s.expires_at time)))
          (λ s. record s { device_token = some token; last_activity_at = time })
    pure (ltb 0 affected)
