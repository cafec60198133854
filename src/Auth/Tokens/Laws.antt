-- ===== src/Auth/Tokens/Laws.antt =====
-- The documented behaviour that the proofs about tokens rely on.
use intell_api.Prelude.{ℕ, String, Bool, false, List, ◌||◌, ◌≡◌, str_eq}
use intell_api.Users.{Session}
use intell_api.Users.Accounts.{AccountsBackend}
use intell_api.Database.Laws.{TableLaws}
use intell_api.Team.Backend.{TeamBackend}
use intell_api.Auth.Backend.{AuthBackend, JwtPayload, Cookie}

-- The rows of the table of sessions, and whether a hash is that of a token that was drawn before.
pub record TokenLaws (t : TeamBackend) (b : AccountsBackend t.World) (a : AuthBackend t.World)
    : Type 0 where
  pub rows : t.World → List Session
  pub used : t.World → String → Bool
  pub sessions : TableLaws b.sessions rows (λ s. s.id)
  -- 32 random bytes never hash to what an earlier token hashed to, and touch no table.
  pub bytes_fresh : (w : t.World) → used w (a.sha256 (a.random_bytes 32 w).0) ≡ false
  pub bytes_used :
      (w : t.World) (h : String)
      → used (a.random_bytes 32 w).1 h ≡ (str_eq (a.sha256 (a.random_bytes 32 w).0) h || used w h)
  pub bytes_rows : (w : t.World) → rows (a.random_bytes 32 w).1 ≡ rows w
  -- Nothing else draws tokens.
  pub uuid_rows : (w : t.World) → rows (a.random_uuid w).1 ≡ rows w
  pub uuid_used : (w : t.World) (h : String) → used (a.random_uuid w).1 h ≡ used w h
  pub sign_rows : (p : JwtPayload) (w : t.World) → rows (a.sign_async p w).1 ≡ rows w
  pub sign_used :
      (p : JwtPayload) (w : t.World) (h : String) → used (a.sign_async p w).1 h ≡ used w h
  pub cookie_rows : (c : Cookie) (w : t.World) → rows (a.set_cookie c w).1 ≡ rows w
  pub cookie_used : (c : Cookie) (w : t.World) (h : String) → used (a.set_cookie c w).1 h ≡ used w h
  pub update_used :
      (p : Session → Bool) (f : Session → Session) (w : t.World) (h : String)
      → used (b.sessions.update p f w).1 h ≡ used w h
  pub update_where_used :
      (p : Session → Bool) (f : Session → Session) (w : t.World) (h : String)
      → used (b.sessions.update_where p f w).1 h ≡ used w h
  pub create_used :
      (mk : String → ℕ → Session) (w : t.World) (h : String)
      → used (b.sessions.create mk w).1 h ≡ used w h
