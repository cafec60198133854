-- ===== src/Auth/Tests/Rotation.antt =====
-- Two requests that refresh one session.
use intell_api.Prelude.{
  ℕ, String, Bool, true, some, [], ◌∷◌, ◌≡◌, ◌≢◌, refl, arith, str_eq, eq_iff, Bool-cases, inl, inr,
  ◌++◌,
}
use intell_api.Exec.{ok}
use intell_api.Users.Sessions.{compare_and_swap_refresh_token, find_session_by_id}
use intell_api.Users.Accounts.{required}
use intell_api.Users.Service.{find_one}
use intell_api.Auth.Tokens.{ClientTokens, refresh}
use intell_api.Auth.Tokens.Rotation.{System, Inv}
use intell_api.Auth.Tokens.Rotation.Reach.{here}
use intell_api.Auth.Tokens.Replay.{refresh_once}
use intell_api.Auth.Tokens.Outcome.{Outcome, refresh-Outcome}
use intell_api.Auth.Tests.Store.{store, team, accounts, auth, token_laws}

-- The token t1 is stored, and a request has drawn t2.
abbrev two_tokens : System team accounts auth token_laws
two_tokens = record { world = store; pending = "t2" ∷ [] }

two_tokens-Inv : Inv team accounts auth token_laws two_tokens
two_tokens-Inv = record {
  ids = λ id. ground arith;
  once = λ h. elim (Bool-cases (str_eq "t1" h)) [
    | inl e ↦ rw (← (eq_iff "t1" h).0 e) (omega arith)
    | inr e ↦ rw e (ground arith)
  ];
  known = λ h n. ground arith;
}

abbrev swapped_state : System team accounts auth token_laws
swapped_state = record {
  world = (compare_and_swap_refresh_token accounts "s1" (auth.sha256 "t1") "t2" 0 store).1;
  pending = [] ++ [];
}

first_swap : (compare_and_swap_refresh_token accounts "s1" "t1" "t2" 0 store).0 ≡ ok true
unfolding compare_and_swap_refresh_token
first_swap = refl

-- After the swap for t2 by one request, a request that read t1 before fails, and so do later ones.
refresh_once_example :
    ((id' new : String) (since : ℕ)
      → (compare_and_swap_refresh_token accounts id'
          (auth.sha256 "t1")
          new
          since
          swapped_state.world).0
        ≢ ok true)
    × ((id' : String) (is_mobile : Bool) (x : ClientTokens)
        → (refresh team accounts auth "t1" id' is_mobile swapped_state.world).0 ≢ ok x)
refresh_once_example =
    refresh_once team accounts auth token_laws "t1" "s1" "t2" 0 [] [] two_tokens swapped_state
      two_tokens-Inv refl first_swap here

refresh-Outcome_example :
    Outcome team accounts auth token_laws "t1" "s1" true store
      (refresh team accounts auth "t1" "s1" true store).0
      (refresh team accounts auth "t1" "s1" true store).1
refresh-Outcome_example = refresh-Outcome team accounts auth token_laws "t1" "s1" true store

refreshed :
    (refresh team accounts auth "t1" "s1" true store).0
    ≡ ok (record { access_token = "s1"; body_refresh_token = some "t2t1x" })
unfolding refresh find_session_by_id find_one compare_and_swap_refresh_token required
refreshed = refl
