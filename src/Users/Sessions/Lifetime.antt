-- ===== src/Users/Sessions/Lifetime.antt =====
-- How long a session lives.
use intell_api.Prelude.{
  ℕ, ◌+◌, ◌≤◌, String, true, false, none, some, ◌≡◌, ◌≢◌, inl, inr, refl, ap, arith, Bool-cases,
  ltb,
}
use intell_api.Exec.{Result, ok}
use intell_api.Exec.Laws.{Result-cases}
use intell_api.Users.{Session}
use intell_api.Users.Accounts.{AccountsBackend}
use intell_api.Users.Sessions.{
  has_id, ended, session_absolute_max_ms, is_past, expire_session, validate_session, found_session,
  find_session_by_id,
}

-- At most 30 days old, and not past its own end, which a refresh moves.
pub record IsLive (s : Session) (time : ℕ) : Type 0 where
  pub active : s.is_active ≡ true
  pub young : time ≤ s.created_at + session_absolute_max_ms
  pub current : is_past s.expires_at time ≡ false

module _ {W : Type 0} (b : AccountsBackend W) where
  open b use {now, sessions}

  expire_session-ne-ok : (r s : Session) (w : W) → (expire_session b r w).0 ≢ ok s
  unfolding expire_session
  expire_session-ne-ok r s w h = elim (Result-cases (sessions.update (has_id r.id) ended w).0) [
    | inr (x, e) ↦ absurd (ground (arith, e, h))
    | inl (o, e) ↦ absurd (ground (arith, e, h))
  ]

  pub validate_session-eq-ok :
      (r s : Session) (w : W)
      → (validate_session b r w).0 ≡ ok s
      → (r ≡ s) × (validate_session b r w ≡ (ok s, w)) × IsLive s (now w)
  unfolding validate_session
  validate_session-eq-ok r s w h = elim (Bool-cases r.is_active) [
    | inr off ↦ absurd (ground (arith, off, h))
    | inl on ↦ elim (Bool-cases (ltb (r.created_at + session_absolute_max_ms) (now w))) [
      | inl old ↦ absurd (expire_session-ne-ok r s w (rw (on, old) at h))
      | inr young ↦ elim (Bool-cases (is_past r.expires_at (now w))) [
        | inl past ↦ absurd (expire_session-ne-ok r s w (rw (on, young, past) at h))
        | inr current ↦
            let e : r ≡ s = ground (arith, on, young, current, h) in
            (
              e,
              simp (on, young, current) (ap pair e),
              record {
                active = rw (← e) on;
                young = rw (← e) (ground (arith, young));
                current = rw (← e) current;
              },
            )
      ]
    ]
  ]
    where
      pair : Session → Result Session × W
      pair x = (ok x, w)

  -- A session that is read is the row of that id that the query finds, it is live, and reading it
  -- changes nothing.
  pub find_session_by_id-eq-ok :
      (id : String) (w : W) (s : Session)
      → (find_session_by_id b id w).0 ≡ ok s
      → (sessions.get (has_id id) w ≡ ok (some s))
        × (find_session_by_id b id w ≡ (ok s, w))
        × IsLive s (now w)
  unfolding find_session_by_id found_session
  find_session_by_id-eq-ok id w s h = elim (Result-cases (sessions.get (has_id id) w)) [
    | inr (x, e) ↦ absurd (ground (arith, e, h))
    | inl (none, e) ↦ absurd (ground (arith, e, h))
    | inl (some r, e) ↦
        let (same, still, live) = validate_session-eq-ok r s w (rw e at h) in
        (rw (e, same) refl, rw e still, live)
  ]
