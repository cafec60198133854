-- ===== src/Prelude/Names.antt =====
-- A text that stands in no list of texts: a generator of unique names for concrete stores.
use Prim.Native.Nat.{◌≤◌, ◌<◌}
use Prim.Native.String.{String, ◌++◌, count}
use mathlib.Core.Path.{◌≡◌, refl, ap}
use mathlib.Core.Bool.{false}
use mathlib.Core.List.{List, [], ◌∷◌}
use native.Mathlib.Omega.{arith}
use text.Mathlib.Text.{◌==◌ as str_eq}
use text.Mathlib.TextEquality.{eq_iff}
use text.Mathlib.TextLemmas.{length-append}
use intell_api.Prelude.Tests.{Bool-cases}
use mathlib.Core.Logic.{inl, inr}
use intell_api.Prelude.Lists.{any_of}

module _ {ℓ} {A : Type ℓ} (name : A → String) where
  -- All the names in a row, and one character more.
  abbrev pub fresh_name : List A → String
  fresh_name [] = "x"
  fresh_name (x ∷ xs) = name x ++ fresh_name xs

  fresh_name-pos : (xs : List A) → 1 ≤ count (fresh_name xs)
  fresh_name-pos [] = omega arith
  fresh_name-pos (x ∷ xs) = omega (arith, fresh_name-pos xs, length-append (name x) (fresh_name xs))

  longer :
      (xs : List A) (f : String)
      → count (fresh_name xs) ≤ count f
      → any_of (λ x. str_eq (name x) f) xs ≡ false
  longer [] f h = refl
  longer (x ∷ xs) f h =
      let split = length-append (name x) (fresh_name xs) in
      let some_ = fresh_name-pos xs in
      ground (arith, longer xs f (omega arith), other x f (omega arith))
    where
      other : (x : A) (f : String) → count (name x) < count f → str_eq (name x) f ≡ false
      other x f lt = elim (Bool-cases (str_eq (name x) f)) [
        | inr no_ ↦ no_
        | inl same ↦ let e = ap count ((eq_iff (name x) f).0 same) in absurd (omega arith)
      ]

  pub fresh_name-any_of : (xs : List A) → any_of (λ x. str_eq (name x) (fresh_name xs)) xs ≡ false
  fresh_name-any_of xs = longer xs (fresh_name xs) (omega arith)
