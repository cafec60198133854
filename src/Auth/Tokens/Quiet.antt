-- ===== src/Auth/Tokens/Quiet.antt =====
-- Every step keeps the places of tokens.
use intell_api.Prelude.{
  ℕ, ◌+◌, ◌≤◌, String, Bool, true, false, Option, some, List, ◌∷◌, ◌++◌, map, ◌≡◌, ◌⊎◌, inl, inr,
  refl, ap, arith, if◌then◌else◌, str_eq, eq_iff, Bool-cases, any_of,
}
use intell_api.Exec.{Result}
use intell_api.Exec.Laws.{Result-cases}
use intell_api.Users.{Session}
use intell_api.Users.Accounts.{AccountsBackend}
use intell_api.Users.Sessions.{
  CreateSessionDto, has_id, is_swappable, rotated, with_hash, logged_out, ended, new_session,
  create_session, find_session_by_id, set_refresh_token_hash, compare_and_swap_refresh_token,
  deactivate_session, sliding_ms, device_of,
}
use intell_api.Database.Laws.{
  change, count, count-change_le, count_mono, count-any_of, update_cases, update_where_cases,
}
use intell_api.Team.Backend.{TeamBackend}
use intell_api.Auth.Backend.{AuthBackend}
use intell_api.Auth.Tokens.Laws.{TokenLaws}
use intell_api.Auth.Tokens.Rotation.{holds, System, total, Step, Inv}
use intell_api.Auth.Tokens.Rotation.Step.{
  drawn, stored, swapped, opened, found, closed, dropped, elsewhere,
}
use intell_api.Auth.Tokens.Worlds.{
  set_world, close_world, swap_world, find_world, write-le, drop-le,
}

module _ (t : TeamBackend) (b : AccountsBackend t.World) (a : AuthBackend t.World)
    (laws : TokenLaws t b a) where
  open t use {World}
  open laws use {rows, used}

  abbrev pub Sys : Type 0
  Sys = System t b a laws

  -- A step that draws nothing: no hash gets a new place, and ids stay unique.
  pub record IsQuiet (u v : Sys) : Type 0 where
    pub memory : (h : String) → used v.world h ≡ used u.world h
    pub mass : (h : String) → total t b a laws h v ≤ total t b a laws h u
    pub ids : (id : String) → count (has_id id) (rows v.world) ≤ 1

  -- A change of rows that gives no hash to a row.
  calm :
      (p : Session → Bool) (f : Session → Session) (rs rs' : List Session)
      → ((h : String) (r : Session) → holds h (f r) ≡ true → holds h r ≡ true)
      → ((r : Session) → (f r).id ≡ r.id)
      → (rs' ≡ rs) ⊎ (rs' ≡ map (change p f) rs)
      → ((h : String) → count (holds h) rs' ≤ count (holds h) rs)
        × ((id : String) → count (has_id id) rs' ≤ count (has_id id) rs)
  calm p f rs rs' h k (inl e) = (λ x. rw e (omega arith), λ x. rw e (omega arith))
  calm p f rs rs' h k (inr e) = (
    λ x. rw e (count-change_le (holds x) p f rs (h x)),
    λ x. rw e (count-change_le (has_id x) p f rs (λ r q. rw (← k r) q)),
  )

  -- A step that is one calm update of the table.
  calm-IsQuiet :
      (p : Session → Bool) (f : Session → Session) (u : Sys) (w : World)
      → ((h : String) (r : Session) → holds h (f r) ≡ true → holds h r ≡ true)
      → ((r : Session) → (f r).id ≡ r.id)
      → w ≡ (b.sessions.update p f u.world).1
      → Inv t b a laws u
      → IsQuiet u (record u { world = w })
  calm-IsQuiet p f u w h k e inv =
      let (m, i) =
        calm p f (rows u.world) (rows (b.sessions.update p f u.world).1) h k
          (update_cases b.sessions laws.sessions p f u.world) in
      record {
        memory = λ x. rw e (laws.update_used p f u.world x);
        mass = λ x. rw e (omega (arith, m x));
        ids = λ x. rw e (omega (arith, i x, inv.ids x));
      }

  found-IsQuiet :
      (id : String) (u : Sys)
      → Inv t b a laws u
      → IsQuiet u (record u { world = (find_session_by_id b id u.world).1 })
  unfolding ended
  found-IsQuiet id u inv = elim (find_world t b id u.world) [
    | inl e ↦ record {
      memory = λ x. rw e refl;
      mass = λ x. rw e (omega arith);
      ids = λ x. rw e (inv.ids x);
    }
    | inr (s, e) ↦ calm-IsQuiet (has_id s.id) ended u _ (λ h r q. q) (λ r. refl) e inv
  ]

  closed-IsQuiet :
      (id : String) (u : Sys)
      → Inv t b a laws u
      → IsQuiet u (record u { world = (deactivate_session b id u.world).1 })
  unfolding logged_out
  closed-IsQuiet id u inv =
      calm-IsQuiet (has_id id) (logged_out (b.now u.world)) u _ (λ h r q. cc) (λ r. refl)
        (close_world t b id u.world) inv

  -- A step that writes a pending token to one row.
  write-IsQuiet :
      (p : Session → Bool) (f : Session → Session) (hash : String) (before after : List String)
      (u : Sys) (w : World)
      → ((h : String) (r : Session) → holds h (f r) ≡ str_eq hash h)
      → ((r : Session) → (f r).id ≡ r.id)
      → count p (rows u.world) ≤ 1
      → u.pending ≡ before ++ hash ∷ after
      → ((h : String) → used w h ≡ used u.world h)
      → (rows w ≡ rows u.world) ⊎ (rows w ≡ map (change p f) (rows u.world))
      → Inv t b a laws u
      → IsQuiet u (record { world = w; pending = before ++ after })
  write-IsQuiet p f hash before after u w new k few e m (inl same) inv = record {
    memory = m;
    mass = λ h. rw (same, e) (omega (arith, drop-le hash h before after));
    ids = λ x. rw same (inv.ids x);
  }
  write-IsQuiet p f hash before after u w new k few e m (inr changed) inv = record {
    memory = m;
    mass = λ h. rw (changed, e) (write-le p f hash h before after (rows u.world) (new h) few);
    ids = λ x. rw changed (
        omega
          (arith, count-change_le (has_id x) p f (rows u.world) (λ r q. rw (← k r) q), inv.ids x));
  }

  stored-IsQuiet :
      (before after : List String) (id hash : String) (u : Sys)
      → u.pending ≡ before ++ hash ∷ after
      → Inv t b a laws u
      → IsQuiet u (record {
        world = (set_refresh_token_hash b id (some hash) u.world).1;
        pending = before ++ after;
      })
  unfolding with_hash
  stored-IsQuiet before after id hash u e inv =
      let f = with_hash (some hash) (b.now u.world) in
      let w = set_world t b id (some hash) u.world in
      write-IsQuiet (has_id id) f hash before after u _ (λ h r. refl) (λ r. refl) (inv.ids id) e
        (λ h. rw w (laws.update_used (has_id id) f u.world h))
        (rw w (update_cases b.sessions laws.sessions (has_id id) f u.world)) inv

  swapped-IsQuiet :
      (before after : List String) (id old hash : String) (created : ℕ) (u : Sys)
      → u.pending ≡ before ++ hash ∷ after
      → Inv t b a laws u
      → IsQuiet u (record {
        world = (compare_and_swap_refresh_token b id old hash created u.world).1;
        pending = before ++ after;
      })
  unfolding rotated is_swappable
  swapped-IsQuiet before after id old hash created u e inv =
      let p = is_swappable id old (b.now u.world) in
      let f = rotated hash created (b.now u.world) in
      let w = swap_world t b id old hash created u.world in
      let few = count_mono p (has_id id) (rows u.world) (λ r q. ground (arith, q)) in
      write-IsQuiet p f hash before after u _ (λ h r. refl) (λ r. refl)
        (omega (arith, few, inv.ids id)) e (λ h. rw w (laws.update_where_used p f u.world h))
        (rw w (update_where_cases b.sessions laws.sessions p f u.world)) inv

  opened-IsQuiet :
      (user_id : String) (dto : Option CreateSessionDto) (u : Sys)
      → Inv t b a laws u
      → IsQuiet u (record u { world = (create_session b user_id dto u.world).1 })
  unfolding create_session new_session
  opened-IsQuiet user_id dto u inv =
      let mk = new_session user_id (device_of dto) (b.now u.world + sliding_ms) in
      let w' = (b.sessions.create mk u.world).1 in
      let pair : Result Session → Result Session × World = λ r. (r, w') in
      elim (Result-cases (b.sessions.create mk u.world).0) [
        | inr (x, e) ↦
            let same = laws.sessions.create_failed mk u.world w' x (ap pair e) in
            record {
              memory = λ h. laws.create_used mk u.world h;
              mass = λ h. rw same (omega arith);
              ids = λ id. rw same (inv.ids id);
            }
        | inl (s, e) ↦
            let (key, time, made, added, new) =
              laws.sessions.create_rows mk u.world w' s (ap pair e) in
            record {
              memory = λ h. laws.create_used mk u.world h;
              mass = λ h. rw (added, made) (omega arith);
              ids = λ id. rw (added, made) (one_id key id (rows u.world) new (inv.ids id));
            }
      ]
    where
      one_id :
          (key id : String) (rs : List Session)
          → any_of (λ (x : Session). str_eq x.id key) rs ≡ false
          → count (has_id id) rs ≤ 1
          → (if str_eq key id then 1 else 0) + count (has_id id) rs ≤ 1
      one_id key id rs new few = elim (Bool-cases (str_eq key id)) [
        | inr other ↦ rw other (omega arith)
        | inl same ↦
            let e = (eq_iff key id).0 same in
            rw same (omega (arith, count-any_of (has_id id) rs (rw (← e) new)))
      ]

  -- Every step that draws nothing is quiet.
  pub step-IsQuiet :
      {u v : Sys}
      → Step t b a laws u v
      → Inv t b a laws u
      → IsQuiet u v
        ⊎ (v ≡ record {
          world = (a.random_bytes 32 u.world).1;
          pending = a.sha256 (a.random_bytes 32 u.world).0 ∷ u.pending;
        })
  step-IsQuiet drawn inv = inr refl
  step-IsQuiet {u} (stored before after id hash e) inv =
      inl (stored-IsQuiet before after id hash u e inv)
  step-IsQuiet {u} (swapped before after id old hash created e) inv =
      inl (swapped-IsQuiet before after id old hash created u e inv)
  step-IsQuiet {u} (opened user_id dto) inv = inl (opened-IsQuiet user_id dto u inv)
  step-IsQuiet {u} (found id) inv = inl (found-IsQuiet id u inv)
  step-IsQuiet {u} (closed id) inv = inl (closed-IsQuiet id u inv)
  step-IsQuiet {u} (dropped before after hash e) inv = inl (record {
    memory = λ h. refl;
    mass = λ h. rw e (omega (arith, drop-le hash h before after));
    ids = inv.ids;
  })
  step-IsQuiet (elsewhere w same m) inv =
      inl
        (record { memory = m; mass = λ h. rw same (omega arith); ids = λ id. rw same (inv.ids id) })

  pub quiet-Inv : {u v : Sys} → IsQuiet u v → Inv t b a laws u → Inv t b a laws v
  quiet-Inv q inv = record {
    ids = q.ids;
    once = λ h. omega (arith, q.mass h, inv.once h);
    known = λ h n. omega (arith, q.mass h, inv.known h (rw (← q.memory h) n));
  }
