-- ===== src/Auth/Tokens/Runs.antt =====
-- What the functions do is what the steps of the system allow: each runs as a sequence of steps.
use intell_api.Prelude.{
  String, Bool, true, false, not, Option, none, some, [], inl, inr, refl, str_eq, Bool-cases,
}
use intell_api.Exec.Laws.{Result-cases}
use intell_api.Users.{User, Session}
use intell_api.Users.Accounts.{AccountsBackend}
use intell_api.Users.Sessions.{find_session_by_id, compare_and_swap_refresh_token}
use intell_api.Users.Service.{find_one}
use intell_api.Team.Backend.{TeamBackend}
use intell_api.Auth.Backend.{AuthBackend, Cookie}
use intell_api.Auth.Tokens.{
  refresh, rotate_if, rotate, compare_refresh_token_hash, sign_tokens, payload_of,
  set_refresh_token, persist_refresh_token,
}
use intell_api.Auth.Tokens.Laws.{TokenLaws}
use intell_api.Auth.Tokens.Rotation.{Reach}
use intell_api.Auth.Tokens.Rotation.Step.{drawn, stored, swapped, found, elsewhere}
use intell_api.Auth.Tokens.Rotation.Reach.{here, next}
use intell_api.Auth.Tokens.Quiet.{Sys}
use intell_api.Auth.Tokens.Replay.{find_one_world}

module _ (t : TeamBackend) (b : AccountsBackend t.World) (a : AuthBackend t.World)
    (laws : TokenLaws t b a) where
  open t use {World}
  open laws use {rows, used}

  -- The same requests under way, in another world.
  abbrev at : Sys t b a laws → World → Sys t b a laws
  at u w = record u { world = w }

  cookie-Reach :
      (u v : Sys t b a laws) (token : String) (is_mobile : Bool)
      → Reach t b a laws u v
      → Reach t b a laws u (at v (set_refresh_token t b a token is_mobile v.world).1)
  unfolding set_refresh_token
  cookie-Reach u v token true r = r
  cookie-Reach u v token false r =
      let c : Cookie = record { value = token; secure = not a.config.is_development } in
      let s = next r (
        elsewhere (a.set_cookie c v.world).1 (laws.cookie_rows c v.world)
          (laws.cookie_used c v.world)) in
      elim (Result-cases (a.set_cookie c v.world).0) [ inr (x, e) ↦ rw e s | inl (x, e) ↦ rw e s ]

  rotate-Reach :
      (user : User) (s : Session) (stored_hash : String) (is_mobile : Bool) (u : Sys t b a laws)
      → Reach t b a laws u (at u (rotate t b a user s stored_hash is_mobile u.world).1)
  unfolding rotate sign_tokens
  rotate-Reach user s stored_hash is_mobile u =
      let w0 = u.world in
      let w1 = (a.random_uuid w0).1 in
      let p = payload_of user s (a.random_uuid w0).0 in
      let w2 = (a.sign_async p w1).1 in
      let r1 : Reach t b a laws u (at u w1) =
        next here (elsewhere w1 (laws.uuid_rows w0) (laws.uuid_used w0)) in
      let r2 : Reach t b a laws u (at u w2) =
        next r1 (elsewhere w2 (laws.sign_rows p w1) (laws.sign_used p w1)) in
      elim (Result-cases (a.sign_async p w1).0) [
        | inr (x, e) ↦ rw e r2
        | inl (access, e) ↦
            let bytes = (a.random_bytes 32 w2).0 in
            let w3 = (a.random_bytes 32 w2).1 in
            let hash = a.sha256 bytes in
            let swap = compare_and_swap_refresh_token b s.id stored_hash hash s.created_at w3 in
            let r3 : Reach t b a laws u (at u swap.1) =
              next (next r2 drawn) (swapped [] u.pending s.id stored_hash hash s.created_at refl) in
            elim (Result-cases swap.0) [
              | inr (x, q) ↦ rw (e, q) r3
              | inl (false, q) ↦ rw (e, q) r3
              | inl (true, q) ↦
                  let r4 = cookie-Reach u (at u swap.1) bytes is_mobile r3 in
                  elim (Result-cases (set_refresh_token t b a bytes is_mobile swap.1).0) [
                    | inr (x, k) ↦ rw (e, q, k) r4
                    | inl (o, k) ↦ rw (e, q, k) r4
                  ]
            ]
      ]

  Reach-trans :
      {u v w : Sys t b a laws} → Reach t b a laws u v → Reach t b a laws v w → Reach t b a laws u w
  Reach-trans r here = r
  Reach-trans r (next q s) = next (Reach-trans r q) s

  rotate_if-Reach :
      (token : String) (user : User) (s : Session) (stored : Option String) (is_mobile : Bool)
      (u : Sys t b a laws)
      → Reach t b a laws u (at u (rotate_if t b a token user s stored is_mobile u.world).1)
  unfolding rotate_if
  rotate_if-Reach token user s none is_mobile u = here
  rotate_if-Reach token user s (some old) is_mobile u = elim (Bool-cases (str_eq old "")) [
    | inl empty ↦ rw empty here
    | inr full ↦ elim (Bool-cases (compare_refresh_token_hash a.sha256 token old)) [
      | inr other ↦ rw (full, other) here
      | inl same ↦ rw (full, same) (rotate-Reach user s old is_mobile u)
    ]
  ]

  -- A refresh, with whatever end, is a sequence of steps of the system of requests, and leaves no
  -- token pending.
  pub refresh-Reach :
      (token id : String) (is_mobile : Bool) (u : Sys t b a laws)
      → Reach t b a laws u (record u { world = (refresh t b a token id is_mobile u.world).1 })
  unfolding refresh
  refresh-Reach token id is_mobile u =
      let w1 = (find_session_by_id b id u.world).1 in
      let r1 : Reach t b a laws u (at u w1) = next here (found id) in
      elim (Result-cases (find_session_by_id b id u.world).0) [
        | inr (x, e) ↦ rw e r1
        | inl (s, e) ↦
            let same = find_one_world t b a laws s.user_id w1 in
            elim (Result-cases (find_one b s.user_id w1).0) [
              | inr (x, q) ↦ rw (e, q, same) r1
              | inl (user, q) ↦
                  rw (e, q, same)
                    (Reach-trans r1
                      (rotate_if-Reach token user s s.refresh_token_hash is_mobile (at u w1)))
            ]
      ]

  -- A sign-in draws a token, and stores it in its session.
  pub persist-Reach :
      (id : String) (u : Sys t b a laws)
      → Reach t b a laws u (record u {
        world =
            (persist_refresh_token t b a id
              (a.random_bytes 32 u.world).0
              (a.random_bytes 32 u.world).1).1;
      })
  unfolding persist_refresh_token
  persist-Reach id u =
      next (next here drawn) (stored [] u.pending id (a.sha256 (a.random_bytes 32 u.world).0) refl)
