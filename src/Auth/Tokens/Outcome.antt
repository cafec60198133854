-- ===== src/Auth/Tokens/Outcome.antt =====
-- What a refresh in modules/auth/auth.service.ts may do, as a relation on the rows of sessions before
-- and after it: refuse, end a session that is overdue, or rotate the token of a session that had its
-- hash.
use intell_api.Prelude.{
  ◌+◌, ◌<◌, ℕ, ◌≡◌, ◌⊎◌, inl, inr, refl, subst, sym, ap, ◌∙◌, arith, String, Bool, true, false,
  Option, none, some, List, [], ◌∷◌, map, ltb, str_eq, eq_iff, Bool-cases, Memᴰ,
}
use intell_api.Exec.{Error, Result, ok, err}
use intell_api.Exec.Laws.{Result-cases}
use intell_api.Users.{User, Session}
use intell_api.Users.Accounts.{AccountsBackend}
use intell_api.Users.Sessions.{
  has_id, is_hash, is_past, is_swappable, ended, rotated, session_absolute_max_ms, expire_session,
  validate_session, found_session, find_session_by_id, compare_and_swap_refresh_token,
}
use intell_api.Users.Sessions.Lifetime.{IsLive, find_session_by_id-eq-ok}
use intell_api.Users.Service.{find_one}
use intell_api.Database.Laws.{change, count, update_cases}
use intell_api.Team.Backend.{TeamBackend}
use intell_api.Auth.Backend.{AuthBackend, JwtPayload}
use intell_api.Auth.Tokens.{
  ClientTokens, refresh, rotate_if, rotate, compare_refresh_token_hash, sign_tokens, payload_of,
  set_refresh_token, invalid_refresh_token,
}
use intell_api.Auth.Tokens.Laws.{TokenLaws}
use intell_api.Auth.Tokens.Answer.{body_for, body-eq-ok, set_refresh_token_rows}
use intell_api.Auth.Tokens.Replay.{find_one_world}

-- Where no row passes the test, a change is none.
none_changed :
    (p : Session → Bool) (f : Session → Session) (rs : List Session)
    → count p rs ≡ 0
    → map (change p f) rs ≡ rs
none_changed p f [] h = refl
none_changed p f (r ∷ rs) h = ground (arith, none_changed p f rs)

module _ (t : TeamBackend) (b : AccountsBackend t.World) (a : AuthBackend t.World)
    (laws : TokenLaws t b a) where
  open t use {World}
  open laws use {rows, used}

  -- A session of the id, which is live and has the hash of the token.
  pub record IsHolder (token id : String) (w : World) (s : Session) : Type 0 where
    pub row : Memᴰ s (rows w)
    pub id_is : s.id ≡ id
    pub live : IsLive s (b.now w)
    pub hash : s.refresh_token_hash ≡ some (a.sha256 token)

  -- Why a refresh is refused: what it reads is not there, the stored hash is another or empty, no
  -- row may be swapped any more, or something outside fails.
  pub data Reason (token id : String) (w : World) : Type 0 where
    no_session : (e : Error) → (find_session_by_id b id w).0 ≡ err e → Reason token id w
    no_user :
        (s : Session) (e : Error)
        → find_session_by_id b id w ≡ (ok s, w)
        → (find_one b s.user_id w).0 ≡ err e
        → Reason token id w
    no_match :
        (s : Session)
        → find_session_by_id b id w ≡ (ok s, w)
        → is_hash s.refresh_token_hash (a.sha256 token) ≡ false
        → Reason token id w
    no_hash :
        (s : Session)
        → find_session_by_id b id w ≡ (ok s, w)
        → s.refresh_token_hash ≡ some ""
        → Reason token id w
    not_signed :
        (p : JwtPayload) (w' : World) (e : Error)
        → (a.sign_async p w').0 ≡ err e
        → Reason token id w
    not_written :
        (p : Session → Bool) (f : Session → Session) (w' : World) (e : Error)
        → (b.sessions.update_where p f w').0 ≡ err e
        → Reason token id w
    overtaken :
        (s : Session) (time : ℕ)
        → IsHolder token id w s
        → count (is_swappable s.id (a.sha256 token) time) (rows w) ≡ 0
        → Reason token id w

  -- Older than 30 days, or past its own end.
  pub record IsOverdue (id : String) (w : World) (s : Session) : Type 0 where
    pub row : Memᴰ s (rows w)
    pub id_is : s.id ≡ id
    pub late :
        (s.created_at + session_absolute_max_ms < b.now w) ⊎ (is_past s.expires_at (b.now w) ≡ true)

  pub data Outcome (token id : String) (is_mobile : Bool) (w : World)
      : Result ClientTokens → World → Type 0 where
    refused :
        (e : Error) (w' : World)
        → Reason token id w
        → rows w' ≡ rows w
        → Outcome token id is_mobile w (err e) w'
    expired :
        (e : Error) (w' : World) (s : Session)
        → IsOverdue id w s
        → rows w' ≡ map (change (has_id id) ended) (rows w)
        → Outcome token id is_mobile w (err e) w'
    -- At some time, rows that have the old hash, one at least, take that of a token never drawn
    -- before, which is in the answer for a mobile client. Setting a cookie may still fail.
    moved :
        (r : Result ClientTokens) (w' : World) (s : Session) (secret : String) (time : ℕ)
        → IsHolder token id w s
        → used w (a.sha256 secret) ≡ false
        → 0 < count (is_swappable s.id (a.sha256 token) time) (rows w)
        → rows w'
          ≡ map
              (change
                (is_swappable s.id (a.sha256 token) time)
                (rotated (a.sha256 secret) s.created_at time))
              (rows w)
        → ((x : ClientTokens) → r ≡ ok x → x.body_refresh_token ≡ body_for is_mobile secret)
        → Outcome token id is_mobile w r w'

  expire_rows :
      (s : Session) (w : World)
      → (rows (expire_session b s w).1 ≡ rows w)
        ⊎ (rows (expire_session b s w).1 ≡ map (change (has_id s.id) ended) (rows w))
  unfolding expire_session
  expire_rows s w =
      let cases = update_cases b.sessions laws.sessions (has_id s.id) ended w in
      elim (Result-cases (b.sessions.update (has_id s.id) ended w).0) [
        | inr (x, e) ↦ rw e cases
        | inl (o, e) ↦ rw e cases
      ]

  abbrev Ended : String → World → World → Type 0
  Ended id w w' =
      (rows w' ≡ rows w)
      ⊎ ((s : Session) × IsOverdue id w s × (rows w' ≡ map (change (has_id id) ended) (rows w)))

  expire-Ended :
      (id : String) (s : Session) (w : World)
      → IsOverdue id w s
      → Ended id w (expire_session b s w).1
  expire-Ended id s w late = elim (expire_rows s w) [
    | inl same ↦ inl same
    | inr changed ↦
        inr (s, late, changed ∙ ap (λ key. map (change (has_id key) ended) (rows w)) late.id_is)
  ]

  invalid-Ended :
      (id : String) (s : Session) (w : World) (e : Error)
      → Memᴰ s (rows w)
      → s.id ≡ id
      → (validate_session b s w).0 ≡ err e
      → Ended id w (validate_session b s w).1
  unfolding validate_session
  invalid-Ended id s w e row id_is h = elim (Bool-cases s.is_active) [
    | inr off ↦ rw off (inl refl)
    | inl on ↦ elim (Bool-cases (ltb (s.created_at + session_absolute_max_ms) (b.now w))) [
      | inl old ↦
          let late : IsOverdue id w s = record {
            row = row;
            id_is = id_is;
            late = inl (ground (arith, old));
          } in
          rw (on, old) (expire-Ended id s w late)
      | inr young ↦ elim (Bool-cases (is_past s.expires_at (b.now w))) [
        | inl past ↦
            let late : IsOverdue id w s = record { row = row; id_is = id_is; late = inr past } in
            rw (on, young, past) (expire-Ended id s w late)
        | inr current ↦ absurd (ground (arith, on, young, current, h))
      ]
    ]
  ]

  -- A session that cannot be read leaves the rows, or is ended because it is overdue.
  unread :
      (id : String) (w : World) (e : Error)
      → (find_session_by_id b id w).0 ≡ err e
      → Ended id w (find_session_by_id b id w).1
  unfolding find_session_by_id found_session
  unread id w e h = elim (Result-cases (b.sessions.get (has_id id) w)) [
    | inr (x, q) ↦ rw q (inl refl)
    | inl (none, q) ↦ rw q (inl refl)
    | inl (some s, q) ↦
        let (row, key) = laws.sessions.get_some (has_id id) w s q in
        rw q (invalid-Ended id s w e row ((eq_iff s.id id).0 key) (rw q at h))
  ]

  rotate-Outcome :
      (token id : String) (user : User) (s : Session) (is_mobile : Bool) (w : World)
      → IsHolder token id w s
      → let (r, w') = rotate t b a user s (a.sha256 token) is_mobile w in
        Outcome token id is_mobile w r w'
  unfolding rotate sign_tokens compare_and_swap_refresh_token
  rotate-Outcome token id user s is_mobile w holder =
      let w1 = (a.random_uuid w).1 in
      let p = payload_of user s (a.random_uuid w).0 in
      let w2 = (a.sign_async p w1).1 in
      let signed : rows w2 ≡ rows w = laws.sign_rows p w1 ∙ laws.uuid_rows w in
      elim (Result-cases (a.sign_async p w1).0) [
        | inr (x, e) ↦ rw e (Outcome.refused x w2 (Reason.not_signed p w1 x e) signed)
        | inl (access, e) ↦
            let bytes = (a.random_bytes 32 w2).0 in
            let w3 = (a.random_bytes 32 w2).1 in
            let drawn : rows w3 ≡ rows w = laws.bytes_rows w2 ∙ signed in
            let fresh : used w (a.sha256 bytes) ≡ false =
              sym (laws.sign_used p w1 (a.sha256 bytes) ∙ laws.uuid_used w (a.sha256 bytes))
              ∙ laws.bytes_fresh w2 in
            let time = b.now w3 in
            let q = is_swappable s.id (a.sha256 token) time in
            let f = rotated (a.sha256 bytes) s.created_at time in
            let w4 = (b.sessions.update_where q f w3).1 in
            elim (Result-cases (b.sessions.update_where q f w3).0) [
              | inr (x, k) ↦
                  rw (e, k)
                    (Outcome.refused x w4 (Reason.not_written q f w3 x k)
                      (laws.sessions.update_where_failed q f w3 w4 x (ap (λ r. (r, w4)) k) ∙ drawn))
              | inl (n, k) ↦
                  let (changed, n_is) =
                    laws.sessions.update_where_rows q f w3 w4 n (ap (λ r. (r, w4)) k) in
                  let changed' : rows w4 ≡ map (change q f) (rows w) = rw drawn at changed in
                  let n_is' : n ≡ count q (rows w) = rw drawn at n_is in
                  elim (Bool-cases (ltb 0 n)) [
                    | inr zero_ ↦
                        let idle : count q (rows w) ≡ 0 = ground (arith, zero_, n_is') in
                        rw (e, k, zero_)
                          (Outcome.refused invalid_refresh_token w4
                            (Reason.overtaken s time holder idle)
                            (changed' ∙ none_changed q f (rows w) idle))
                    | inl won ↦
                        let some_row : 0 < count q (rows w) = ground (arith, won, n_is') in
                        let w5 = (set_refresh_token t b a bytes is_mobile w4).1 in
                        let last : rows w5 ≡ map (change q f) (rows w) =
                          set_refresh_token_rows t b a laws bytes is_mobile w4 ∙ changed' in
                        elim (Result-cases (set_refresh_token t b a bytes is_mobile w4).0) [
                          | inr (x, c) ↦
                              rw (e, k, won, c)
                                (Outcome.moved (err x) w5 s bytes time holder fresh some_row last
                                  (λ y h. absurd (ground (arith, h))))
                          | inl (body, c) ↦
                              let body_is =
                                body-eq-ok t b a bytes is_mobile body w4 w5 (ap (λ r. (r, w5)) c) in
                              rw (e, k, won, c)
                                (Outcome.moved
                                  (ok (record { access_token = access; body_refresh_token = body }))
                                  w5 s bytes time holder fresh some_row last
                                  (λ y h. ground (arith, h, body_is)))
                        ]
                  ]
            ]
      ]

  rotate_if-Outcome :
      (token id : String) (user : User) (s : Session) (stored : Option String) (is_mobile : Bool)
      (w : World)
      → find_session_by_id b id w ≡ (ok s, w)
      → s.refresh_token_hash ≡ stored
      → let (r, w') = rotate_if t b a token user s stored is_mobile w in
        Outcome token id is_mobile w r w'
  unfolding rotate_if compare_refresh_token_hash
  rotate_if-Outcome token id user s none is_mobile w read same =
      Outcome.refused invalid_refresh_token w (Reason.no_match s read (rw same refl)) refl
  rotate_if-Outcome token id user s (some old) is_mobile w read same =
      elim (Bool-cases (str_eq old "")) [
        | inl empty ↦
            let no = Reason.no_hash s read (same ∙ ap some ((eq_iff old "").0 empty)) in
            rw empty (Outcome.refused invalid_refresh_token w no refl)
        | inr full ↦ elim (Bool-cases (str_eq (a.sha256 token) old)) [
          | inr other ↦
              let differs : str_eq old (a.sha256 token) ≡ false =
                ground (arith, other, eq_iff (a.sha256 token) old, eq_iff old (a.sha256 token)) in
              rw (full, other)
                (Outcome.refused invalid_refresh_token w (Reason.no_match s read (rw same differs))
                  refl)
          | inl hit ↦
              let hash = (eq_iff (a.sha256 token) old).0 hit in
              let (get, _, live) =
                find_session_by_id-eq-ok b id w s (ap (λ (p : Result Session × World). p.0) read) in
              let (row, key) = laws.sessions.get_some (has_id id) w s get in
              let holder : IsHolder token id w s = record {
                row = row;
                id_is = (eq_iff s.id id).0 key;
                live = live;
                hash = same ∙ ap some (sym hash);
              } in
              rw (full, hit)
                (subst
                  (λ (o : String).
                    let (r, w') = rotate t b a user s o is_mobile w in
                    Outcome token id is_mobile w r w')
                  hash (rotate-Outcome token id user s is_mobile w holder))
        ]
      ]

  -- Every refresh has one of three outcomes. It is refused for a named reason and leaves the rows of
  -- sessions as they are. Or the session of its id is overdue, and is ended. Or a live session of
  -- its id had the hash of its token, and the rows that still have this hash, one at least, now have
  -- that of a new token, which is in the answer for a mobile client; only then can it succeed. The
  -- table, hashes and random bytes are ones that behave as documented.
  pub refresh-Outcome :
      (token id : String) (is_mobile : Bool) (w : World)
      → let (r, w') = refresh t b a token id is_mobile w in Outcome token id is_mobile w r w'
  unfolding refresh
  refresh-Outcome token id is_mobile w = elim (Result-cases (find_session_by_id b id w).0) [
    | inr (x, e) ↦
        let reason = Reason.no_session x e in
        elim (unread id w x e) [
          | inl same ↦ rw e (Outcome.refused x (find_session_by_id b id w).1 reason same)
          | inr (s, late, changed) ↦
              rw e (Outcome.expired x (find_session_by_id b id w).1 s late changed)
        ]
    | inl (s, e) ↦
        let (get, read, live) = find_session_by_id-eq-ok b id w s e in
        let same = find_one_world t b a laws s.user_id w in
        elim (Result-cases (find_one b s.user_id w).0) [
          | inr (x, q) ↦ rw (read, q, same) (Outcome.refused x w (Reason.no_user s x read q) refl)
          | inl (user, q) ↦
              rw (read, q, same)
                (rotate_if-Outcome token id user s s.refresh_token_hash is_mobile w read refl)
        ]
  ]
