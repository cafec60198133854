-- ===== src/Alerts/Whatsapp/Tests.antt =====
-- Messages and phone numbers.
use intell_api.Prelude.{ℕ, ◌≡◌, refl, true, List, [], ◌∷◌}
use intell_api.Alerts.Whatsapp.{truncate_message, validate_phone_number, dots}

abbrev hello : List ℕ
hello = b'h' ∷ b'e' ∷ b'l' ∷ b'l' ∷ b'o' ∷ []

shortened : truncate_message hello 4 ≡ b'h' ∷ dots
unfolding truncate_message
shortened = refl

-- 08031234567
abbrev local_number : List ℕ
local_number = b'0' ∷ b'8' ∷ b'0' ∷ b'3' ∷ b'1' ∷ b'2' ∷ b'3' ∷ b'4' ∷ b'5' ∷ b'6' ∷ b'7' ∷ []

accepted_number : validate_phone_number local_number ≡ true
unfolding validate_phone_number
accepted_number = refl
