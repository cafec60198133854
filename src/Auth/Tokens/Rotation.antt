-- ===== src/Auth/Tokens/Rotation.antt =====
-- The requests that touch refresh tokens, as steps that may interleave at every wait of the code.
-- A request that has drawn a token and not yet stored it is pending.
use intell_api.Prelude.{
  ℕ, ◌+◌, ◌≤◌, String, Bool, true, false, Option, some, List, ◌∷◌, ◌++◌, ◌≡◌, str_eq,
}
use intell_api.Users.{Session}
use intell_api.Users.Accounts.{AccountsBackend}
use intell_api.Users.Sessions.{
  CreateSessionDto, has_id, is_hash, create_session, find_session_by_id, set_refresh_token_hash,
  compare_and_swap_refresh_token, deactivate_session,
}
use intell_api.Database.Laws.{count}
use intell_api.Team.Backend.{TeamBackend}
use intell_api.Auth.Backend.{AuthBackend}
use intell_api.Auth.Tokens.Laws.{TokenLaws}

abbrev pub holds : String → Session → Bool
holds h s = is_hash s.refresh_token_hash h

abbrev pub is_text : String → String → Bool
is_text h x = str_eq x h

module _ (t : TeamBackend) (b : AccountsBackend t.World) (a : AuthBackend t.World)
    (laws : TokenLaws t b a) where
  open t use {World}
  open laws use {rows, used}

  pub record System : Type 0 where
    pub world : World
    -- The hashes of the tokens that are drawn and not stored.
    pub pending : List String

  abbrev pub total : String → System → ℕ
  total h s = count (holds h) (rows s.world) + count (is_text h) s.pending

  pub data Step (s : System) : System → Type 0 where
    -- A request draws a token.
    drawn : Step s (record {
      world = (a.random_bytes 32 s.world).1;
      pending = a.sha256 (a.random_bytes 32 s.world).0 ∷ s.pending;
    })
    -- A sign-in stores its token.
    stored :
        (before after : List String) (session_id hash : String)
        → s.pending ≡ before ++ hash ∷ after
        → Step s (record {
          world = (set_refresh_token_hash b session_id (some hash) s.world).1;
          pending = before ++ after;
        })
    -- A refresh swaps its token for the one that it has read, at any time before.
    swapped :
        (before after : List String) (session_id expected hash : String) (created : ℕ)
        → s.pending ≡ before ++ hash ∷ after
        → Step s (record {
          world = (compare_and_swap_refresh_token b session_id expected hash created s.world).1;
          pending = before ++ after;
        })
    -- A session is opened, read, or ended.
    opened :
        (user_id : String) (dto : Option CreateSessionDto)
        → Step s (record s { world = (create_session b user_id dto s.world).1 })
    found :
        (session_id : String)
        → Step s (record s { world = (find_session_by_id b session_id s.world).1 })
    closed :
        (session_id : String)
        → Step s (record s { world = (deactivate_session b session_id s.world).1 })
    -- A request fails with a token in hand, or the rest of the world moves on.
    dropped :
        (before after : List String) (hash : String)
        → s.pending ≡ before ++ hash ∷ after
        → Step s (record s { pending = before ++ after })
    elsewhere :
        (w : World)
        → rows w ≡ rows s.world
        → ((h : String) → used w h ≡ used s.world h)
        → Step s (record s { world = w })

  pub data Reach (s : System) : System → Type 0 where
    here : Reach s s
    next : {u v : System} → Reach s u → Step u v → Reach s v

  -- Each hash stands in one row or is pending once, only drawn hashes do, and ids are unique.
  pub record Inv (s : System) : Type 0 where
    pub ids : (id : String) → count (has_id id) (rows s.world) ≤ 1
    pub once : (h : String) → total h s ≤ 1
    pub known : (h : String) → used s.world h ≡ false → total h s ≡ 0

  -- A hash that was drawn, and that no row and no request has any more.
  pub record IsRetired (h : String) (s : System) : Type 0 where
    pub gone : total h s ≡ 0
    pub was_used : used s.world h ≡ true
