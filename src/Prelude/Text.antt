-- ===== src/Prelude/Text.antt =====
-- Numbers in text, as template literals and `toFixed` print them. A quantity that the program
-- holds as a decimal number is a number of thousandths here.
use Prim.Native.Nat.{ℕ, zero, suc, ◌/◌, ◌%◌, ◌+◌, ◌-◌, ◌*◌}
use mathlib.Core.Option.{Option, none, some}
use Prim.Native.String.{String, ◌++◌}
use Prim.Native.Char.{code}
use mathlib.Core.Bool.{Bool, true, false, ◌&&◌}
use mathlib.Core.List.{List, [], ◌∷◌, map}
use intell_api.Prelude.Tests.{◌==◌, ltb, leb, if◌then◌else◌}
use intell_api.Prelude.Division.{round_div}
use intell_api.Prelude.Int.{ℤ, pos, negsuc}

infixr 66 ◌&◌
abbrev pub ◌&◌ : String → String → String
s & t = s ++ t

digit : ℕ → String
digit zero = "0"
digit (suc zero) = "1"
digit (suc (suc zero)) = "2"
digit (suc (suc (suc zero))) = "3"
digit (suc (suc (suc (suc zero)))) = "4"
digit (suc (suc (suc (suc (suc zero))))) = "5"
digit (suc (suc (suc (suc (suc (suc zero)))))) = "6"
digit (suc (suc (suc (suc (suc (suc (suc zero))))))) = "7"
digit (suc (suc (suc (suc (suc (suc (suc (suc zero)))))))) = "8"
digit _ = "9"

-- The fuel is the number itself, more than its digits.
show_from : ℕ → ℕ → String
show_from zero n = digit n
show_from (suc fuel) n =
    let more = show_from fuel (n / 10) in if ltb n 10 then digit n else more & digit (n % 10)

-- `${n}`
unfoldable pub show : ℕ → String
unfolding digit show_from
show n = show_from n n

two_digits : ℕ → String
unfolding digit
two_digits n = digit (n / 10) & digit (n % 10)

-- `${x}` of a number of thousandths: no trailing zeros.
unfoldable pub show_milli : ℕ → String
unfolding show digit two_digits
show_milli m =
    if m % 1000 == 0
    then show (m / 1000)
    else if m % 100 == 0
    then show (m / 1000) & "." & digit (m / 100 % 10)
    else if m % 10 == 0
    then show (m / 1000) & "." & two_digits (m / 10 % 100)
    else show (m / 1000) & "." & two_digits (m / 10 % 100) & digit (m % 10)

unfoldable pub show_milli_ℤ : ℤ → String
unfolding show_milli
show_milli_ℤ (pos m) = show_milli m
show_milli_ℤ (negsuc m) = "-" & show_milli (suc m)

-- `x.toFixed(2)` of a number of thousandths.
unfoldable pub to_fixed2 : ℕ → String
unfolding show two_digits round_div
to_fixed2 m = let h = round_div m 10 in show (h / 100) & "." & two_digits (h % 100)

-- The code points of a text.
abbrev pub codes : String → List ℕ
codes String.[] = []
codes (String.◌∷◌ c s) = code c ∷ codes s

-- The lower case of an ASCII letter.
abbrev pub lower : ℕ → ℕ
lower c = if leb b'A' c && leb c b'Z' then c + 32 else c

same_codes : List ℕ → List ℕ → Bool
same_codes [] [] = true
same_codes (a ∷ as_) (b ∷ bs) = a == b && same_codes as_ bs
same_codes _ _ = false

-- s.toLowerCase() === t.toLowerCase()
unfoldable pub eq_ignoring_case : String → String → Bool
unfolding same_codes
eq_ignoring_case s t = same_codes (map lower (codes s)) (map lower (codes t))

-- The number that the leading digits of a text are, after digits that have been read; none without
-- a digit.
parse_digits : Option ℕ → List ℕ → Option ℕ
parse_digits read [] = read
parse_digits read (c ∷ cs) =
    if leb b'0' c && leb c b'9' then parse_digits (some (shifted read + (c - b'0'))) cs else read
  where
    shifted : Option ℕ → ℕ
    shifted none = 0
    shifted (some n) = n * 10

-- Number.parseInt(text, 10) of a text with no sign and no spaces in front; none is NaN.
unfoldable pub parse_int : String → Option ℕ
unfolding parse_digits
parse_int s = parse_digits none (codes s)
