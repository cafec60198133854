-- ===== src/Auth/Tokens/Logout.antt =====
-- A session that is signed out.
use intell_api.Prelude.{
  String, Bool, not, Option, none, some, List, ◌≡◌, ◌≢◌, inl, inr, refl, ap, sym, ◌∙◌, arith,
  str_eq, ◌&&◌, Bool-cases,
}
use intell_api.Exec.{Result, ok}
use intell_api.Exec.Laws.{Result-cases}
use intell_api.Users.{Session}
use intell_api.Users.Accounts.{AccountsBackend}
use intell_api.Users.Sessions.{has_id, logged_out, find_session_by_id, deactivate_session}
use intell_api.Users.Sessions.Lifetime.{find_session_by_id-eq-ok}
use intell_api.Database.Laws.{TableLaws, Memᴰ-change}
use intell_api.Team.Backend.{TeamBackend}
use intell_api.Auth.Backend.{AuthBackend, JwtPayload}
use intell_api.Auth.Redis.{redis_get}
use intell_api.Auth.Tokens.{ClientTokens, blacklist, logout, refresh, validate, validate_unlisted}

module _ (t : TeamBackend) (b : AccountsBackend t.World) (a : AuthBackend t.World)
    (rows : t.World → List Session) (laws : TableLaws b.sessions rows (λ s. s.id)) where
  open t use {World}

  closed_session :
      (id : String) (s : Session) (w : World)
      → (deactivate_session b id w).0 ≡ ok tt
      → (find_session_by_id b id (deactivate_session b id w).1).0 ≢ ok s
  unfolding deactivate_session logged_out
  closed_session id s w h won =
      let f = logged_out (b.now w) in
      let w' = (b.sessions.update (has_id id) f w).1 in
      let pair : Result (Option Session) → Result (Option Session) × World = λ r. (r, w') in
      elim (Result-cases (b.sessions.update (has_id id) f w).0) [
        | inr (x, e) ↦ absurd (ground (arith, e, h))
        | inl (none, e) ↦ absurd (ground (arith, e, h))
        | inl (some r, e) ↦
            let (get, still, live) = find_session_by_id-eq-ok b id w' s (rw e at won) in
            let (row, key) = laws.get_some (has_id id) w' s get in
            let (old, made) =
              Memᴰ-change (has_id id) f (rows w) {s = s} (λ r. refl)
                (rw (← laws.update_some (has_id id) f w w' r (ap pair e)) row) key in
            absurd (cc (sym live.active ∙ ap (λ (x : Session). x.is_active) made))
      ]

  no_refresh :
      (token id : String) (is_mobile : Bool) (x : ClientTokens) (w : World)
      → ((s : Session) → (find_session_by_id b id w).0 ≢ ok s)
      → (refresh t b a token id is_mobile w).0 ≢ ok x
  unfolding refresh
  no_refresh token id is_mobile x w h won = elim (Result-cases (find_session_by_id b id w).0) [
    | inr (y, e) ↦ absurd (ground (arith, e, won))
    | inl (s, e) ↦ absurd (h s e)
  ]

  ended_there :
      (p q : JwtPayload) (w : World)
      → ((s : Session) → (find_session_by_id b p.session_id w).0 ≢ ok s)
      → (validate_unlisted t b a p none w).0 ≢ ok q
  unfolding validate_unlisted
  ended_there p q w h won = elim (Result-cases (find_session_by_id b p.session_id w).0) [
    | inr (y, e) ↦ absurd (ground (arith, e, won))
    | inl (s, e) ↦ absurd (h s e)
  ]

  no_session :
      (p q : JwtPayload) (listed : Option String) (w : World)
      → ((s : Session) → (find_session_by_id b p.session_id w).0 ≢ ok s)
      → (validate_unlisted t b a p listed w).0 ≢ ok q
  unfolding validate_unlisted
  no_session p q none w h won = ended_there p q w h won
  no_session p q (some text) w h won = elim (Bool-cases (str_eq text "")) [
    | inr given ↦ absurd (ground (arith, given, won))
    | inl empty ↦ ended_there p q w h (rw empty at won)
  ]

  no_validation :
      (p q : JwtPayload) (w : World)
      → ((s : Session) → (find_session_by_id b p.session_id w).0 ≢ ok s)
      → (validate t b a p w).0 ≢ ok q
  unfolding validate
  no_validation p q w h won =
      elim (Bool-cases (not (not (str_eq p.jti "") && not (str_eq p.session_id "")))) [
        | inl bad ↦ absurd (ground (arith, bad, won))
        | inr good ↦ elim (Result-cases (redis_get a.redis p.jti "blacklist" w)) [
          | inr (y, e) ↦ absurd (ground (arith, good, e, won))
          | inl (listed, e) ↦ no_session p q listed w h (rw (good, e) at won)
        ]
      ]

  -- If the session of a sign-out is set inactive with success, then, whether the access token could
  -- be read or not, no refresh of that session succeeds from there, with any refresh token, and no
  -- access token of that session is accepted.
  pub logout_lem :
      (id access_token : String) (w : World)
      → (deactivate_session b id (blacklist t b a (a.decode access_token) w).1).0 ≡ ok tt
      → ((token : String) (is_mobile : Bool) (x : ClientTokens)
          → (refresh t b a token id is_mobile (logout t b a id access_token w).1).0 ≢ ok x)
        × ((p q : JwtPayload)
            → (validate t b a (record p { session_id = id }) (logout t b a id access_token w).1).0
              ≢ ok q)
  unfolding logout
  logout_lem id access_token w h =
      let w1 = (blacklist t b a (a.decode access_token) w).1 in
      let gone = λ (s : Session). closed_session id s w1 h in
      (
        λ token is_mobile x. no_refresh token id is_mobile x (deactivate_session b id w1).1 gone,
        λ p q. no_validation (record p { session_id = id }) q (deactivate_session b id w1).1 gone,
      )
