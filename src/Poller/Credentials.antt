-- ===== src/Poller/Credentials.antt =====
-- The credential of a Sunsynk account: written by connectSunsynkInverter of
-- modules/inverters/inverters.service.ts and read by pollSunsynkOne of
-- modules/metrics-stream/poller/metrics-poller.service.ts. A text is the list of its characters.
use intell_api.Prelude.{
  ℕ, Bool, true, false, List, [], ◌∷◌, ◌++◌, any_of, ◌==◌, if◌then◌else◌, ◌≡◌, refl, arith,
}

-- `${email}:${password}`
unfoldable pub raw_credential : List ℕ → List ℕ → List ℕ
raw_credential email password = email ++ b':' ∷ password

-- raw.slice(0, raw.indexOf(':')): without a colon the index is -1, and all but the last character
-- is taken.
unfoldable pub email_part : List ℕ → List ℕ
email_part [] = []
email_part (c ∷ cs) =
    let rest = email_part cs in if c == b':' then [] else elim cs [ [] ↦ [] | _ ∷ _ ↦ c ∷ rest ]

abbrev is_colon : ℕ → Bool
is_colon c = c == b':'

-- What follows the first colon.
after_colon : List ℕ → List ℕ
after_colon [] = []
after_colon (c ∷ cs) = let rest = after_colon cs in if is_colon c then cs else rest

-- raw.slice(raw.indexOf(':') + 1): the whole text without a colon.
unfoldable pub password_part : List ℕ → List ℕ
unfolding after_colon
password_part raw = if any_of is_colon raw then after_colon raw else raw

colon_found : (email password : List ℕ) → any_of is_colon (email ++ b':' ∷ password) ≡ true
colon_found [] password = refl
colon_found (c ∷ cs) password = ground (arith, colon_found cs password)

email_part_step :
    (c : ℕ) (cs password : List ℕ)
    → is_colon c ≡ false
    → email_part (cs ++ b':' ∷ password) ≡ cs
    → email_part (c ∷ cs ++ b':' ∷ password) ≡ c ∷ cs
unfolding email_part
email_part_step c [] password h e = ground (arith, e)
email_part_step c (d ∷ cs) password h e = rw (h, e) refl

email_read :
    (email password : List ℕ)
    → any_of is_colon email ≡ false
    → email_part (email ++ b':' ∷ password) ≡ email
unfolding email_part
email_read [] password h = refl
email_read (c ∷ cs) password h =
    email_part_step c cs password (ground arith) (email_read cs password (ground arith))

password_read :
    (email password : List ℕ)
    → any_of is_colon email ≡ false
    → after_colon (email ++ b':' ∷ password) ≡ password
unfolding after_colon
password_read [] password h = refl
password_read (c ∷ cs) password h = ground (arith, password_read cs password)

-- The poller reads the e-mail address and the password back that were stored on connecting, if the
-- address has no colon; the password may have any.
pub raw_credential-parts :
    (email password : List ℕ)
    → any_of (λ (c : ℕ). c == b':') email ≡ false
    → (email_part (raw_credential email password) ≡ email)
      × (password_part (raw_credential email password) ≡ password)
unfolding raw_credential password_part
raw_credential-parts email password h =
    (email_read email password h, rw (colon_found email password) (password_read email password h))
