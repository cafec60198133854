-- ===== src/Auth/Tests/Store.antt =====
-- A world of accounts whose tables are lists.
use intell_api.Prelude.{
  ℕ, String, Bool, true, false, Option, none, some, List, [], ◌∷◌, any_of, find_first, str_eq, ◌≡◌,
  ◌≢◌, refl, sym, ap, ◌∙◌, inl, inr, arith, Bool-cases, if◌then◌else◌, ◌==◌, ◌&&◌,
}
use intell_api.Prelude.Text.{◌&◌}
use intell_api.Prelude.Names.{fresh_name, fresh_name-any_of}
use intell_api.Exec.{not_found, ok, err}
use intell_api.Users.{User, UserSettings, Session, Subscription}
use intell_api.Users.Accounts.{AccountsBackend}
use intell_api.Users.Rows.{blank_user}
use intell_api.Database.{Table}
use intell_api.Database.Memory.{memory_table, memory_laws, state_of}
use intell_api.Team.Backend.{TeamBackend}
use intell_api.Auth.Redis.Laws.{RedisLaws}
use intell_api.Auth.Backend.{AuthBackend}
use intell_api.Auth.Tokens.Laws.{TokenLaws}

pub record Store : Type 0 where
  pub users : List User
  pub sessions : List Session
  pub subscriptions : List Subscription
  pub settings : List UserSettings
  pub drawn : List String
  pub cache : List (List ℕ × String)
  pub time : ℕ

same_key : List ℕ → List ℕ → Bool
same_key [] [] = true
same_key (a ∷ as_) (c ∷ cs) = a == c && same_key as_ cs
same_key _ _ = false

unfoldable pub cached : List ℕ → List (List ℕ × String) → Option String
unfolding same_key
cached k [] = none
cached k ((j, v) ∷ rest) = let r = cached k rest in if same_key j k then some v else r

unfoldable pub without : List ℕ → List (List ℕ × String) → List (List ℕ × String)
unfolding same_key
without k [] = []
without k ((j, v) ∷ rest) = let r = without k rest in if same_key j k then r else (j, v) ∷ r

abbrev pub sessions_table : Table Store Session
sessions_table =
    memory_table (λ w. w.sessions) (λ rs w. record w { sessions = rs }) (λ s. s.id) (λ rs w. refl)

abbrev pub users_table : Table Store User
users_table =
    memory_table (λ w. w.users) (λ rs w. record w { users = rs }) (λ s. s.id) (λ rs w. refl)

abbrev pub subscriptions_table : Table Store Subscription
subscriptions_table =
    memory_table (λ w. w.subscriptions) (λ rs w. record w { subscriptions = rs }) (λ s. s.id)
      (λ rs w. refl)

abbrev pub settings_table : Table Store UserSettings
settings_table =
    memory_table (λ w. w.settings) (λ rs w. record w { settings = rs }) (λ s. s.id) (λ rs w. refl)

abbrev pub team : TeamBackend
team = record {
  World = Store;
  now = λ w. w.time;
  random_uuid = λ w. ("uuid", w);
  email_eq = str_eq;
  get = λ p w. ok none;
  update = λ p f w. (ok none, w);
  update_where = λ p f w. (ok tt, w);
  create = λ c w. (err (not_found "no table"), w);
  find_page = λ p page limit w. ok [];
  find_inverter = λ id w. err (not_found "no inverter");
  find_user = λ id w. err (not_found "no user");
  find_user_by_email = λ email w. ok none;
  send_invite = λ to name inviter inverter role token w. (ok tt, w);
}

abbrev pub accounts : AccountsBackend Store
accounts = record {
  now = λ w. w.time;
  users = users_table;
  settings = settings_table;
  sessions = sessions_table;
  subscriptions = subscriptions_table;
  email_eq = str_eq;
  ilike = λ s text. str_eq s text;
  list_with_settings = λ p page limit w. ok w.users;
  list_with_plan = λ p page limit w. ok (w.users, 0);
  insert_or_update = λ mk f w. (err (not_found "no upsert"), w);
  newest_subscription = λ p w. ok (find_first p w.subscriptions);
  newest_of_each_user = λ p w. ok w.subscriptions;
  bcrypt_hash = λ s w. (ok ("#" & s), w);
  bcrypt_compare = λ s hash. str_eq ("#" & s) hash;
  connect_inverter = λ dto user w. (err (not_found "no inverter"), w);
}

abbrev word : String → String
word s = s

abbrev pub auth : AuthBackend Store
auth = record {
  config = record {
    client_url = "https://intell.africa";
    allowed_redirect_origins = "https://intell.africa" ∷ [];
    is_development = false;
  };
  redis = record {
    get = λ k w. ok (cached k w.cache);
    set = λ k v ttl w. (ok tt, record w { cache = (k, v) ∷ without k w.cache });
    del = λ k w. (ok tt, record w { cache = without k w.cache });
  };
  random_uuid = λ w. ("uuid", w);
  random_bytes =
      λ n w. (fresh_name word w.drawn, record w { drawn = fresh_name word w.drawn ∷ w.drawn });
  random_digit = λ w. (7, w);
  sha256 = word;
  sign_async = λ p w. (ok p.session_id, w);
  decode = λ s. some (some s, some 99999999999);
  verify_id_token = λ s w. (ok none, w);
  parse_url = λ s. none;
  decode_uri_component = λ s. some s;
  set_cookie = λ c w. (ok tt, w);
  send_verify_email = λ a b c w. (ok tt, w);
  send_welcome = λ a b w. (ok tt, w);
  send_password_reset = λ a b c w. (ok tt, w);
  send_password_update = λ a b w. (ok tt, w);
  send_team_invite_accepted = λ a b c d w. (ok tt, w);
  find_inverters = λ p w. ok [];
}

abbrev pub is_drawn : Store → String → Bool
is_drawn w h = any_of (λ x. str_eq x h) w.drawn

abbrev pub token_laws : TokenLaws team accounts auth
token_laws = record {
  rows = λ w. w.sessions;
  used = is_drawn;
  sessions =
      memory_laws (λ w. w.sessions) (λ rs w. record w { sessions = rs }) (λ s. s.id) (λ rs w. refl);
  bytes_fresh = λ w. fresh_name-any_of word w.drawn;
  bytes_used = λ w h. refl;
  bytes_rows = λ w. refl;
  uuid_rows = λ w. refl;
  uuid_used = λ w h. refl;
  sign_rows = λ p w. refl;
  sign_used = λ p w h. refl;
  cookie_rows = λ c w. refl;
  cookie_used = λ c w h. refl;
  update_used = λ p f w h. refl;
  update_where_used = λ p f w h. refl;
  create_used = λ mk w h. refl;
}

same_key_refl : (k : List ℕ) → same_key k k ≡ true
unfolding same_key
same_key_refl [] = refl
same_key_refl (c ∷ cs) = ground (arith, same_key_refl cs)

same_key-eq : (j k : List ℕ) → same_key j k ≡ true → j ≡ k
unfolding same_key
same_key-eq [] [] h = refl
same_key-eq [] (d ∷ ds) h = cc
same_key-eq (c ∷ cs) [] h = cc
same_key-eq (c ∷ cs) (d ∷ ds) h = ground (arith, same_key-eq cs ds)

cached-without_other :
    (j k : List ℕ) (m : List (List ℕ × String)) → j ≢ k → cached j (without k m) ≡ cached j m
unfolding cached without
cached-without_other j k [] h = refl
cached-without_other j k ((i, v) ∷ m) h = elim (Bool-cases (same_key i k)) [
  | inl hit ↦ elim (Bool-cases (same_key i j)) [
    | inl both ↦ absurd (h (sym (same_key-eq i j both) ∙ same_key-eq i k hit))
    | inr one ↦ rw (hit, one) (cached-without_other j k m h)
  ]
  | inr miss ↦ rw miss (ground (arith, cached-without_other j k m h))
]

cached-without_self : (k : List ℕ) (m : List (List ℕ × String)) → cached k (without k m) ≡ none
unfolding cached without
cached-without_self k [] = refl
cached-without_self k ((i, v) ∷ m) = elim (Bool-cases (same_key i k)) [
  | inl hit ↦ rw hit (cached-without_self k m)
  | inr miss ↦ rw (miss, cached, miss) (cached-without_self k m)
]

pub redis_laws : RedisLaws auth.redis
unfolding cached
redis_laws = record {
  get_set = λ k v ttl w w' h. rw (← state_of Store h, same_key_refl k) refl;
  get_set_other = λ k j v ttl w w' h d. elim (Bool-cases (same_key k j)) [
    | inl hit ↦ absurd (d (sym (same_key-eq k j hit)))
    | inr miss ↦
        rw (← state_of Store h, miss)
          (ap (λ (o : Option String). ok o) (cached-without_other j k w.cache d))
  ];
  get_del = λ k w w' h.
      rw (← state_of Store h) (ap (λ (o : Option String). ok o) (cached-without_self k w.cache));
}

-- A verified user, and an unverified one.
abbrev pub ada : User
ada = record (blank_user "ada@example.com" "Ada" "Obi" "ada" 0) {
  email_verified = true;
  password_hash = some "#secret";
}

abbrev pub bola : User
bola = record (blank_user "bola@example.com" "Bola" "Ade" "bola" 0) {
  password_hash = some "#secret";
}

-- A session whose token is "t1", opened at time 0 and read at time 1000.
abbrev pub session : Session
session = record {
  id = "s1";
  user_id = "ada";
  refresh_token_hash = some "t1";
  device_name = none;
  platform = none;
  device_token = none;
  last_activity_at = 0;
  expires_at = some 604800000;
  is_active = true;
  ip_address = none;
  user_agent = none;
  created_at = 0;
}

abbrev pub store : Store
store = record {
  users = ada ∷ bola ∷ [];
  sessions = session ∷ [];
  subscriptions = [];
  settings = [];
  drawn = "t2" ∷ "t1" ∷ [];
  cache = [];
  time = 1000;
}
