-- ===== src/Auth/Tests/Codes.antt =====
-- Guesses of Bola's one-time code, which is 777777.
use intell_api.Prelude.{String, true, none, some, List, [], ◌∷◌, ◌≡◌, refl, arith}
use intell_api.Prelude.Text.{show}
use intell_api.Exec.{ok, err}
use intell_api.Users.Sessions.{no_device}
use intell_api.Users.Service.{find_by_email}
use intell_api.Auth.Redis.{redis_key, redis_get}
use intell_api.Auth.Service.{attempts_exceeded, verify_email, generate_otp, attempts_of}
use intell_api.Auth.Service.Attempts.{IsGuarded, guess_all, verify_email_locks}
use intell_api.Auth.Tests.Store.{Store, store, bola, team, accounts, auth, redis_laws, cached}

-- The hash of the code is in the cache.
abbrev sent : Store
sent = record store { cache = (redis_key "bola@example.com" "otp", "#777777") ∷ [] }

abbrev guesses : List String
guesses = "000000" ∷ "000001" ∷ "000002" ∷ "000003" ∷ "000004" ∷ []

six_digits : (generate_otp team accounts auth store).0 ≡ ok "777777"
unfolding generate_otp show
six_digits = refl

sent-IsGuarded :
    IsGuarded team accounts auth redis_laws
      (λ k v ttl w. refl)
      (λ p k v ttl w. refl)
      "bola@example.com"
      bola
      (some "#777777")
      0
      sent
unfolding find_by_email redis_get redis_key cached attempts_of
sent-IsGuarded = record {
  user = refl;
  unverified = refl;
  raw = none;
  counter = refl;
  wrong = refl;
  stored = refl;
}

verify_email_locks_example :
    verify_email team accounts auth "bola@example.com" "777777" no_device true (
      guess_all team accounts auth redis_laws
        (λ k v ttl w. refl)
        (λ p k v ttl w. refl)
        "bola@example.com"
        no_device
        true
        guesses
        sent)
    ≡ (
      err attempts_exceeded,
      guess_all team accounts auth redis_laws
          (λ k v ttl w. refl)
          (λ p k v ttl w. refl)
          "bola@example.com"
          no_device
          true
          guesses
          sent,
    )
verify_email_locks_example =
    verify_email_locks team accounts auth redis_laws (λ k v ttl w. refl) (λ p k v ttl w. refl)
      "bola@example.com" bola (some "#777777") no_device true guesses sent sent-IsGuarded
      (omega arith) refl "777777"
