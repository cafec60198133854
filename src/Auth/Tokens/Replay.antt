-- ===== src/Auth/Tokens/Replay.antt =====
-- A refresh token that was rotated away is never accepted again.
use intell_api.Prelude.{
  ℕ, ◌+◌, ◌<◌, String, Bool, true, false, Option, none, some, List, ◌∷◌, ◌++◌, ◌≡◌, ◌≢◌, inl, inr,
  refl, sym, ap, ◌∙◌, arith, str_eq, eq_iff, Bool-cases,
}
use intell_api.Exec.{Result, ok}
use intell_api.Exec.Laws.{Result-cases}
use intell_api.Users.{User, Session}
use intell_api.Users.Accounts.{AccountsBackend}
use intell_api.Users.Sessions.{
  has_id, is_hash, is_swappable, rotated, find_session_by_id, compare_and_swap_refresh_token,
}
use intell_api.Users.Sessions.Lifetime.{find_session_by_id-eq-ok}
use intell_api.Users.Service.{find_one}
use intell_api.Database.Laws.{count, count-change_out, count_mono, count-append, count-Memᴰ}
use intell_api.Team.Backend.{TeamBackend}
use intell_api.Auth.Backend.{AuthBackend}
use intell_api.Auth.Tokens.{ClientTokens, refresh, rotate_if, compare_refresh_token_hash}
use intell_api.Auth.Tokens.Laws.{TokenLaws}
use intell_api.Auth.Tokens.Rotation.{holds, is_text, total, Step, Reach, Inv, IsRetired}
use intell_api.Auth.Tokens.Rotation.Step.{swapped}
use intell_api.Auth.Tokens.Rotation.Reach.{here, next}
use intell_api.Auth.Tokens.Quiet.{Sys, step-IsQuiet, quiet-Inv}

module _ (t : TeamBackend) (b : AccountsBackend t.World) (a : AuthBackend t.World)
    (laws : TokenLaws t b a) where
  open t use {World}
  open laws use {rows, used}

  abbrev after_draw : Sys t b a laws → Sys t b a laws
  after_draw u = record {
    world = (a.random_bytes 32 u.world).1;
    pending = a.sha256 (a.random_bytes 32 u.world).0 ∷ u.pending;
  }

  draw-Inv : (u : Sys t b a laws) → Inv t b a laws u → Inv t b a laws (after_draw u)
  draw-Inv u inv =
      let same = laws.bytes_rows u.world in
      let new = a.sha256 (a.random_bytes 32 u.world).0 in
      let none_yet = inv.known new (laws.bytes_fresh u.world) in
      record {
        ids = λ id. rw same (inv.ids id);
        once = λ h. elim (Bool-cases (str_eq new h)) [
          | inl e ↦
              let zero_ : total t b a laws h u ≡ 0 = rw (← (eq_iff new h).0 e) none_yet in
              rw (same, e) (omega (arith, zero_))
          | inr e ↦ rw (same, e) (omega (arith, inv.once h))
        ];
        known = λ h n. elim (Bool-cases (str_eq new h)) [
          | inl e ↦ absurd (ground (arith, laws.bytes_used u.world h))
          | inr e ↦
              rw (same, e) (omega (arith, inv.known h (ground (arith, laws.bytes_used u.world h))))
        ];
      }

  pub step-Inv : {u v : Sys t b a laws} → Step t b a laws u v → Inv t b a laws u → Inv t b a laws v
  step-Inv {u} s inv = elim (step-IsQuiet t b a laws s inv) [
    | inl q ↦ quiet-Inv t b a laws q inv
    | inr e ↦ rw e (draw-Inv u inv)
  ]

  step-IsRetired :
      {u v : Sys t b a laws} (h : String)
      → Step t b a laws u v
      → Inv t b a laws u
      → IsRetired t b a laws h u
      → IsRetired t b a laws h v
  step-IsRetired {u} h s inv r = elim (step-IsQuiet t b a laws s inv) [
    | inl q ↦ record { gone = omega (arith, q.mass h, r.gone); was_used = q.memory h ∙ r.was_used }
    | inr e ↦
        let new = a.sha256 (a.random_bytes 32 u.world).0 in
        elim (Bool-cases (str_eq new h)) [
          | inl same ↦ absurd (
              cc (
                sym (laws.bytes_fresh u.world)
                ∙ ap (used u.world) ((eq_iff new h).0 same)
                ∙ r.was_used))
          | inr other ↦ rw e (record {
            gone = rw (laws.bytes_rows u.world, other) (omega (arith, r.gone));
            was_used = rw (laws.bytes_used u.world h, other) r.was_used;
          })
        ]
  ]

  pub Reach-Inv :
      {u v : Sys t b a laws} → Reach t b a laws u v → Inv t b a laws u → Inv t b a laws v
  Reach-Inv here inv = inv
  Reach-Inv (next r s) inv = step-Inv s (Reach-Inv r inv)

  Reach-IsRetired :
      {u v : Sys t b a laws} (h : String)
      → Reach t b a laws u v
      → Inv t b a laws u
      → IsRetired t b a laws h u
      → IsRetired t b a laws h v
  Reach-IsRetired h here inv r = r
  Reach-IsRetired h (next p s) inv r =
      step-IsRetired h s (Reach-Inv p inv) (Reach-IsRetired h p inv r)

  -- A swap that succeeds found a row with the old hash, and leaves none.
  swapped-IsRetired :
      (before after : List String) (id old hash : String) (created : ℕ) (u : Sys t b a laws)
      → Inv t b a laws u
      → u.pending ≡ before ++ hash ∷ after
      → (compare_and_swap_refresh_token b id old hash created u.world).0 ≡ ok true
      → IsRetired t b a laws old (record {
        world = (compare_and_swap_refresh_token b id old hash created u.world).1;
        pending = before ++ after;
      })
  unfolding compare_and_swap_refresh_token is_swappable rotated
  swapped-IsRetired before after id old hash created u inv e won =
      let p = is_swappable id old (b.now u.world) in
      let f = rotated hash created (b.now u.world) in
      let w' = (b.sessions.update_where p f u.world).1 in
      let pair : Result ℕ → Result ℕ × World = λ r. (r, w') in
      elim (Result-cases (b.sessions.update_where p f u.world).0) [
        | inr (x, q) ↦ absurd (ground (arith, q))
        | inl (n, q) ↦
            let (changed, n_is) = laws.sessions.update_where_rows p f u.world w' n (ap pair q) in
            let some_row : 0 < n = ground (arith, q) in
            let few = inv.once old in
            let held = count_mono p (holds old) (rows u.world) (λ r k. ground (arith, k)) in
            let split = count-append (is_text old) before (hash ∷ after) in
            let joined = count-append (is_text old) before after in
            let other : str_eq hash old ≡ false = ground (arith, e, split) in
            let out =
              count-change_out (holds old) p f (rows u.world) (λ r. other)
                (λ r k. ground (arith, k)) in
            let place : total t b a laws old u
                ≡ count (holds old) (rows u.world) + count (is_text old) (before ++ hash ∷ after) =
              rw e refl in
            record {
              gone = rw (q, changed) (ground (arith, place, split, joined, out));
              was_used =
                  rw (q, laws.update_where_used p f u.world old)
                    (ground (arith, inv.known old, place));
            }
      ]

  -- Where no row has a hash, no swap succeeds that expects it.
  no_swap :
      (id old hash : String) (created : ℕ) (w : World)
      → count (holds old) (rows w) ≡ 0
      → (compare_and_swap_refresh_token b id old hash created w).0 ≢ ok true
  unfolding compare_and_swap_refresh_token is_swappable
  no_swap id old hash created w gone won =
      let p = is_swappable id old (b.now w) in
      let f = rotated hash created (b.now w) in
      let w' = (b.sessions.update_where p f w).1 in
      let pair : Result ℕ → Result ℕ × World = λ r. (r, w') in
      elim (Result-cases (b.sessions.update_where p f w).0) [
        | inr (x, q) ↦ absurd (ground (arith, q))
        | inl (n, q) ↦
            let (changed, n_is) = laws.sessions.update_where_rows p f w w' n (ap pair q) in
            let held = count_mono p (holds old) (rows w) (λ r k. ground (arith, k)) in
            absurd (ground (arith, q, held, n_is))
      ]

  -- A user who is read changes nothing.
  pub find_one_world : (id : String) (w : World) → (find_one b id w).1 ≡ w
  unfolding find_one
  find_one_world id w = elim (Result-cases (b.users.get (λ u. str_eq u.id id) w)) [
    | inr (x, e) ↦ rw e refl
    | inl (o, e) ↦ rw e refl
  ]

  -- A token whose hash is not the stored one is refused.
  refused :
      (token : String) (u : User) (s : Session) (stored : Option String) (is_mobile : Bool)
      (x : ClientTokens) (w : World)
      → is_hash stored (a.sha256 token) ≡ false
      → (rotate_if t b a token u s stored is_mobile w).0 ≢ ok x
  unfolding rotate_if compare_refresh_token_hash
  refused token u s none is_mobile x w h won = cc
  refused token u s (some old) is_mobile x w h won =
      elim (Bool-cases (str_eq (a.sha256 token) old)) [
        | inl same ↦
            absurd
              (ground (arith, h, same, eq_iff (a.sha256 token) old, eq_iff old (a.sha256 token)))
        | inr other ↦ absurd (ground (arith, other, won))
      ]

  -- Where no row has the hash of a token, no refresh with it succeeds.
  no_refresh :
      (token id : String) (is_mobile : Bool) (x : ClientTokens) (w : World)
      → count (holds (a.sha256 token)) (rows w) ≡ 0
      → (refresh t b a token id is_mobile w).0 ≢ ok x
  unfolding refresh
  no_refresh token id is_mobile x w gone won = elim (Result-cases (find_session_by_id b id w).0) [
    | inr (y, e) ↦ absurd (ground (arith, e, won))
    | inl (s, e) ↦
        let (get, still, live) = find_session_by_id-eq-ok b id w s e in
        let (row, key) = laws.sessions.get_some (has_id id) w s get in
        let same = find_one_world s.user_id w in
        elim (Result-cases (find_one b s.user_id w).0) [
          | inr (y, q) ↦ absurd (ground (arith, still, q, won))
          | inl (u, q) ↦
              let other : is_hash s.refresh_token_hash (a.sha256 token) ≡ false =
                ground (arith, count-Memᴰ (holds (a.sha256 token)) row, gone) in
              refused token u s s.refresh_token_hash is_mobile x w other
                (rw (still, q, same) at won)
        ]
  ]

  -- Take a state with any number of requests under way, where the ids of sessions are unique and the
  -- hash of a refresh token is held by one session or one request at most, and by none if it was
  -- not drawn. If a swap succeeds that expects the hash of a token, then after any further steps of
  -- sign-ins, refreshes and sign-outs no swap that expects it succeeds, also of a request that had
  -- read the session before, and no refresh with the token succeeds.
  pub refresh_once :
      (token id hash : String) (created : ℕ) (before after : List String) (u v : Sys t b a laws)
      → Inv t b a laws u
      → u.pending ≡ before ++ hash ∷ after
      → (compare_and_swap_refresh_token b id (a.sha256 token) hash created u.world).0 ≡ ok true
      → Reach t b a laws
          (record {
            world = (compare_and_swap_refresh_token b id (a.sha256 token) hash created u.world).1;
            pending = before ++ after;
          })
          v
      → ((id' new : String) (since : ℕ)
          → (compare_and_swap_refresh_token b id' (a.sha256 token) new since v.world).0 ≢ ok true)
        × ((id' : String) (is_mobile : Bool) (x : ClientTokens)
            → (refresh t b a token id' is_mobile v.world).0 ≢ ok x)
  refresh_once token id hash created before after u v inv e won reach =
      let old = a.sha256 token in
      let inv' = step-Inv (swapped before after id old hash created e) inv in
      let r =
        Reach-IsRetired old reach inv'
          (swapped-IsRetired before after id old hash created u inv e won) in
      let none_left : count (holds old) (rows v.world) ≡ 0 = omega (arith, r.gone) in
      (
        λ id' new since. no_swap id' old new since v.world none_left,
        λ id' is_mobile x. no_refresh token id' is_mobile x v.world none_left,
      )
