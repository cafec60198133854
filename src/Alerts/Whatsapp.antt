-- ===== src/Alerts/Whatsapp.antt =====
-- modules/alerts/helpers/whatsapp-helpers.ts. Where the code counts or tests characters, a text is
-- the list of its character codes.
pub mod Laws
mod Tests
use intell_api.Prelude.{
  ℕ, zero, suc, ◌-◌, ◌*◌, String, Bool, true, false, ◌&&◌, Option, none, some, List, [], ◌∷◌, ◌++◌,
  length, leb, ◌==◌, if◌then◌else◌, str_eq, round_div, ceil_div,
}
use intell_api.Prelude.Int.{ℤ, pos, negsuc}
use intell_api.Prelude.Text.{◌&◌, show}

pub record AlertForFormatting : Type 0 where
  pub type : String
  pub severity : String
  pub message : String
  pub minutes_until_depletion : Option ℤ

-- `${Math.round(x)}` of a number of thousandths: halves go up, and -0 is printed as 0.
show_rounded : ℤ → String
show_rounded (pos m) = show (round_div m 1000)
show_rounded (negsuc m) =
    let r = ceil_div (2 * suc m - 1000) 2000 in if r == 0 then "0" else "-" & show r

abbrev pub severity_icon : String → String
severity_icon severity = if str_eq severity "critical" then "🚨" else "⚠\u{fe0f}"

depletion_line : Option ℤ → String
depletion_line none = ""
depletion_line (some m) = "\n⏱ Estimated depletion in: " & show_rounded m & " min"

unfoldable pub format_alert_message : AlertForFormatting → String
unfolding depletion_line show_rounded
format_alert_message alert =
    severity_icon alert.severity
    & " Intell Alert\nType: "
    & alert.type
    & "\n"
    & alert.message
    & depletion_line alert.minutes_until_depletion

abbrev pub take {ℓ} : {A : Type ℓ} → ℕ → List A → List A
take zero xs = []
take (suc n) [] = []
take (suc n) (x ∷ xs) = x ∷ take n xs

abbrev pub dots : List ℕ
dots = b'.' ∷ b'.' ∷ b'.' ∷ []

-- body.substring(0, maxLength - 3) + '...': a negative end counts as 0.
pub truncate_message : List ℕ → ℕ → List ℕ
truncate_message body max_length =
    if leb (length body) max_length then body else take (max_length - 3) body ++ dots

abbrev pub is_digit : ℕ → Bool
is_digit c = leb b'0' c && leb c b'9'

abbrev pub all_digits : List ℕ → Bool
all_digits [] = true
all_digits (c ∷ cs) = is_digit c && all_digits cs

-- [789]\d{9}$
abbrev pub matches_subscriber : List ℕ → Bool
matches_subscriber [] = false
matches_subscriber (c ∷ cs) = leb b'7' c && leb c b'9' && (length cs == 9 && all_digits cs)

-- The rest of +234 after the plus sign.
matches_country : List ℕ → Bool
matches_country (a ∷ b ∷ c ∷ rest) =
    a == b'2' && (b == b'3' && (c == b'4' && matches_subscriber rest))
matches_country _ = false

-- /^(\+234|0)[789]\d{9}$/.test(phone): the two alternatives begin differently.
pub validate_phone_number : List ℕ → Bool
unfolding matches_country
validate_phone_number [] = false
validate_phone_number (c ∷ rest) =
    if c == b'+' then matches_country rest else c == b'0' && matches_subscriber rest
