-- ===== src/Auth/Service/Answers.antt =====
-- The session that a sign-in opens, and what is in the answer.
use intell_api.Prelude.{
  ◌≡◌, inl, inr, refl, sym, ap, ◌∙◌, arith, String, true, Option, none, some, List, ◌∷◌, eq_refl,
  Memᴰ, str_eq, ◌+◌, ◌&&◌,
}
use intell_api.Exec.{Result, ok, err}
use intell_api.Exec.Laws.{Result-cases, >>=-eq-ok}
use intell_api.Users.{User, Session}
use intell_api.Users.Accounts.{AccountsBackend}
use intell_api.Users.Sessions.{
  CreateSessionDto, sliding_ms, device_of, has_id, with_hash, new_session, create_session,
  set_refresh_token_hash,
}
use intell_api.Database.Laws.{change}
use intell_api.Team.Member.{active, is_text, status_eq}
use intell_api.Team.Backend.{TeamBackend}
use intell_api.Team.Access.{get_user_memberships}
use intell_api.Auth.Backend.{AuthBackend}
use intell_api.Auth.Tokens.{
  AuthTokens, InverterAccess, AuthResponse, to_public_user, sign_tokens, persist_refresh_token,
  compute_inverter_access, issue_tokens,
}
use intell_api.Auth.Tokens.Laws.{TokenLaws}
use intell_api.Auth.Tokens.Answer.{sign_tokens_rows}
use intell_api.Auth.Service.{open_session}

abbrev unwrap : AuthResponse → Result AuthResponse → AuthResponse
unwrap r (ok x) = x
unwrap r (err e) = r

module _ (t : TeamBackend) (b : AccountsBackend t.World) (a : AuthBackend t.World)
    (laws : TokenLaws t b a) where
  open t use {World}
  open laws use {rows}

  -- An answer for a user: its session is an active row of the table, is the user's, and has the hash
  -- of its refresh token.
  pub record IsAnswer (u : User) (response : AuthResponse) (w : World) : Type 0 where
    pub user : response.user ≡ to_public_user u
    pub session : Session
    pub row : Memᴰ session (rows w)
    pub id : session.id ≡ response.session_id
    pub owner : session.user_id ≡ u.id
    pub live : session.is_active ≡ true
    pub hash : session.refresh_token_hash ≡ some (a.sha256 response.tokens.refresh_token)

  compute_world : (id : String) (w : World) → (compute_inverter_access t b a id w).1 ≡ w
  unfolding compute_inverter_access get_user_memberships
  compute_world id w =
      let owned = a.find_inverters (λ i. str_eq i.user_id id && i.is_active) w in
      let page = t.find_page (λ m. is_text m.user_id id && status_eq m.status active) 1 100 w in
      elim (Result-cases owned) [
        | inr (x, e) ↦ rw e refl
        | inl (is, e) ↦ elim (Result-cases page) [
          | inr (x, q) ↦ rw (e, q) refl
          | inl (ms, q) ↦ rw (e, q) refl
        ]
      ]

  persisted :
      (id token : String) (s : Session) (rest : List Session) (w w' : World)
      → s.id ≡ id
      → rows w ≡ s ∷ rest
      → persist_refresh_token t b a id token w ≡ (ok tt, w')
      → (row : Session) × Memᴰ row (rows w')
        × (row.id ≡ id)
        × (row.user_id ≡ s.user_id)
        × (row.is_active ≡ s.is_active)
        × (row.refresh_token_hash ≡ some (a.sha256 token))
  unfolding persist_refresh_token set_refresh_token_hash with_hash
  persisted id token s rest w w' same e h =
      let time = b.now w in
      let f = with_hash (some (a.sha256 token)) time in
      let w1 = (b.sessions.update (has_id id) f w).1 in
      elim (Result-cases (b.sessions.update (has_id id) f w).0) [
        | inr (x, q) ↦ absurd (ground (arith, q, h))
        | inl (none, q) ↦ absurd (ground (arith, q, h))
        | inl (some r, q) ↦
            let moved =
              laws.sessions.update_some (has_id id) f w w1 r
                (ap (λ (x : Result (Option Session)). (x, w1)) q) in
            let to : w1 ≡ w' = ap (λ (x : Result (Unit {0}) × World). x.1) (rw q at h) in
            let here : Memᴰ (change (has_id id) f s) (rows w1) = rw (moved, e) (Memᴰ.head refl) in
            let hit : change (has_id id) f s ≡ f s = rw (same, eq_refl id) refl in
            (f s, rw (← to) (rw hit at here), same, refl, refl, refl)
      ]

  created :
      (u : User) (dto : Option CreateSessionDto) (s : Session) (w w' : World)
      → create_session b u.id dto w ≡ (ok s, w')
      → (rows w' ≡ s ∷ rows w) × (s.user_id ≡ u.id) × (s.is_active ≡ true)
  unfolding create_session new_session
  created u dto s w w' h =
      let (key, time, is, row, _) =
        laws.sessions.create_rows (new_session u.id (device_of dto) (b.now w + sliding_ms)) w w' s
          h in
      (row, rw is refl, rw is refl)

  answered :
      (u : User) (s : Session) (tokens : AuthTokens) (access : List InverterAccess)
      (response : AuthResponse) (row : Session) (w w' : World)
      → ◌≡◌ {A = Result AuthResponse × World}
          (
            ok (record {
              tokens = tokens;
              user = to_public_user u;
              session_id = s.id;
              inverter_access = access;
            }),
            w,
          )
          (ok response, w')
      → Memᴰ row (rows w)
        × (row.id ≡ s.id)
        × (row.user_id ≡ u.id)
        × (row.is_active ≡ true)
        × (row.refresh_token_hash ≡ some (a.sha256 tokens.refresh_token))
      → IsAnswer u response w'
  answered u s tokens access response row w w' e (held, id, owner, live, hash) =
      let same = ap (λ (p : Result AuthResponse × World). unwrap response p.0) e in
      record {
        user = ap (λ (r : AuthResponse). r.user) (sym same);
        session = row;
        row = rw (ap (λ (p : Result AuthResponse × World). p.1) e) at held;
        id = id ∙ ap (λ (r : AuthResponse). r.session_id) same;
        owner = owner;
        live = live;
        hash = hash ∙ ap (λ (r : AuthResponse). some (a.sha256 r.tokens.refresh_token)) same;
      }

  pub open_session-IsAnswer :
      (u : User) (dto : Option CreateSessionDto) (response : AuthResponse) (w w' : World)
      → open_session t b a u dto w ≡ (ok response, w')
      → IsAnswer u response w'
  unfolding open_session issue_tokens
  open_session-IsAnswer u dto response w w' h =
      let (s, e1, h1) = >>=-eq-ok (create_session b u.id dto) _ w w' h in
      let (tokens, e2, h2) = >>=-eq-ok (sign_tokens t b a u s) _ _ w' h1 in
      let (_, e3, h3) =
        >>=-eq-ok (persist_refresh_token t b a s.id tokens.refresh_token) _ _ w' h2 in
      let (access, e4, h4) = >>=-eq-ok (compute_inverter_access t b a u.id) _ _ w' h3 in
      let (row0, owner, live) = created u dto s w _ e1 in
      let (row, held, id, of_user, on, hash) =
        persisted s.id tokens.refresh_token s (rows w) _ _ refl
          (sign_tokens_rows t b a laws u s (create_session b u.id dto w).1 ∙ row0) e3 in
      let same =
        compute_world u.id
          (persist_refresh_token t b a s.id tokens.refresh_token
            (sign_tokens t b a u s (create_session b u.id dto w).1).1).1 in
      answered u s tokens access response row _ w' (rw same at h4)
        (held, id, of_user ∙ owner, on ∙ live, hash)

  pub moved-IsAnswer :
      (u : User) (response : AuthResponse) (w w' : World)
      → rows w' ≡ rows w
      → IsAnswer u response w
      → IsAnswer u response w'
  moved-IsAnswer u response w w' same k = record {
    user = k.user;
    session = k.session;
    row = rw same k.row;
    id = k.id;
    owner = k.owner;
    live = k.live;
    hash = k.hash;
  }
