-- ===== src/Alerts/Whatsapp/Laws.antt =====
-- Lengths, phone numbers and the icon of a message.
use intell_api.Prelude.{
  ℕ, zero, suc, ◌-◌, ◌≤◌, ◌<◌, ◌≡◌, ◌⊎◌, inl, inr, ◌↔◌, ◌==◌, Bool-cases, refl, String, true,
  Option, List, [], ◌∷◌, ◌++◌, length, length-append, arith,
}
use intell_api.Prelude.Text.{◌&◌}
use intell_api.Prelude.Int.{ℤ}
use intell_api.Common.Enums.{AlertSeverity, severity_text}
use intell_api.Alerts.Whatsapp.{
  all_digits, take, truncate_message, validate_phone_number, matches_subscriber, matches_country,
  dots, format_alert_message, severity_icon, depletion_line,
}

length-take : (n : ℕ) (xs : List ℕ) → n ≤ length xs → length (take n xs) ≡ n
length-take zero xs h = refl
length-take (suc n) [] h = elim h [ ]
length-take (suc n) (x ∷ xs) h = omega (arith, length-take n xs)

cut_length :
    (body : List ℕ) (n : ℕ) → 3 ≤ n → n < length body → length (take (n - 3) body ++ dots) ≡ n
cut_length body n h long =
    omega (arith, length-append (take (n - 3) body) dots, length-take (n - 3) body (omega arith))

-- For a limit of at least 3 characters: the truncated message fits it; a message that fits is left
-- as it is; a longer one becomes exactly as long as the limit, with its first characters kept and
-- three dots behind them.
pub truncate_message_fits :
    (body : List ℕ) (max_length : ℕ)
    → 3 ≤ max_length
    → (length (truncate_message body max_length) ≤ max_length)
      × (length body ≤ max_length → truncate_message body max_length ≡ body)
      × (max_length < length body
          → (truncate_message body max_length ≡ take (max_length - 3) body ++ dots)
            × (length (truncate_message body max_length) ≡ max_length))
unfolding truncate_message
truncate_message_fits body n h = (
  ground (arith, cut_length body n h),
  λ fits. ground arith,
  λ long. (ground arith, ground (arith, cut_length body n h)),
)

abbrev pub country_code : List ℕ
country_code = b'+' ∷ b'2' ∷ b'3' ∷ b'4' ∷ []

-- A subscriber number: one of 7, 8 and 9, and nine more digits.
pub record IsSubscriber (c : ℕ) (cs : List ℕ) : Type 0 where
  pub first : (b'7' ≤ c) × (c ≤ b'9')
  pub nine : length cs ≡ 9
  pub digits : all_digits cs ≡ true

matches_subscriber_iff :
    (c : ℕ) (cs : List ℕ) → (matches_subscriber (c ∷ cs) ≡ true) ↔ IsSubscriber c cs
matches_subscriber_iff c cs = ground arith

-- The number behind 0 or +234 in an accepted text.
Rest : List ℕ → List ℕ → Type 0
Rest phone r = ((phone ≡ b'0' ∷ r) ⊎ (phone ≡ country_code ++ r)) × (matches_subscriber r ≡ true)

country_rest :
    (r : List ℕ)
    → matches_country r ≡ true
    → (s : List ℕ) × (r ≡ b'2' ∷ b'3' ∷ b'4' ∷ s) × (matches_subscriber s ≡ true)
unfolding matches_country
country_rest (a ∷ b ∷ c ∷ s) h = (s, ground arith, ground arith)
country_rest _ h = absurd (ground arith)

accepted-Rest : (phone : List ℕ) → validate_phone_number phone ≡ true → (r : List ℕ) × Rest phone r
unfolding validate_phone_number Rest
accepted-Rest [] h = absurd (ground arith)
accepted-Rest (c ∷ rest) h = elim (Bool-cases (c == b'+')) [
  | inl plus ↦ let (s, e, m) = country_rest rest (ground arith) in (s, (inr (ground arith), m))
  | inr other ↦ (rest, (inl (ground arith), ground arith))
]

IsSubscriber-parts :
    (r : List ℕ)
    → matches_subscriber r ≡ true
    → (c : ℕ) × (cs : List ℕ) × (r ≡ c ∷ cs) × IsSubscriber c cs
IsSubscriber-parts [] h = absurd (ground arith)
IsSubscriber-parts (c ∷ cs) h = (c, cs, refl, (matches_subscriber_iff c cs).0 h)

abbrev pub NumberOf : List ℕ → Type 0
NumberOf phone =
    (c : ℕ) × (cs : List ℕ) × ((phone ≡ b'0' ∷ c ∷ cs) ⊎ (phone ≡ country_code ++ c ∷ cs))
    × IsSubscriber c cs

accepted : (phone : List ℕ) → validate_phone_number phone ≡ true → NumberOf phone
unfolding Rest
accepted phone h =
    let (r, found) = accepted-Rest phone h in
    let (form, m) = found in
    let (c, cs, e, sub) = IsSubscriber-parts r m in (c, cs, rw e at form, sub)

accepts_local : (r : List ℕ) → validate_phone_number (b'0' ∷ r) ≡ matches_subscriber r
unfolding validate_phone_number
accepts_local r = refl

accepts_country : (r : List ℕ) → validate_phone_number (country_code ++ r) ≡ matches_subscriber r
unfolding validate_phone_number
accepts_country r = refl

accepts : (phone : List ℕ) → NumberOf phone → validate_phone_number phone ≡ true
accepts phone (c, cs, inl e, sub) =
    rw (e, accepts_local (c ∷ cs)) ((matches_subscriber_iff c cs).1 sub)
accepts phone (c, cs, inr e, sub) =
    rw (e, accepts_country (c ∷ cs)) ((matches_subscriber_iff c cs).1 sub)

-- A phone number is accepted exactly if it is 0 or +234 and then a subscriber number: 7, 8 or 9 and
-- nine more digits.
pub validate_phone_number_iff :
    (phone : List ℕ) → (validate_phone_number phone ≡ true) ↔ NumberOf phone
validate_phone_number_iff phone = (accepted phone, accepts phone)

icon-severity_text : (s : AlertSeverity) → severity_icon (severity_text s) ≡ "⚠\u{fe0f}"
unfolding severity_text
icon-severity_text AlertSeverity.low = refl
icon-severity_text _ = refl

-- Every severity of the enumeration, CRITICAL too, gets the warning icon in a formatted alert; the
-- type and the message of the alert follow it.
pub format_alert_message-icon :
    (s : AlertSeverity) (type message : String) (m : Option ℤ)
    → (tail : String) × (format_alert_message (record {
      type = type;
      severity = severity_text s;
      message = message;
      minutes_until_depletion = m;
    })
        ≡ "⚠\u{fe0f}" & " Intell Alert\nType: " & type & "\n" & message & tail)
unfolding format_alert_message
format_alert_message-icon s type message m = (depletion_line m, rw (icon-severity_text s))
