-- ===== src/Prelude/Distinct.antt =====
-- Lists without repetitions, up to a relation, and tests of a list whose elements are changed.
use mathlib.Core.Path.{◌≡◌, refl}
use mathlib.Core.Bool.{Bool, true, false, not, ◌&&◌}
use mathlib.Core.List.{List, [], ◌∷◌, map}
use native.Mathlib.Omega.{arith}
use intell_api.Prelude.Lists.{any_of}

-- No two elements of the list are related, the later one first.
unfoldable pub distinct : {A : Type 0} → (A → A → Bool) → List A → Bool
distinct r [] = true
distinct r (x ∷ xs) = not (any_of (λ y. r y x) xs) && distinct r xs

any_of-map :
    {A : Type 0} (r : A → A → Bool) (g : A → A) (x : A) (xs : List A)
    → ((a b : A) → r (g a) (g b) ≡ r a b)
    → any_of (λ y. r y (g x)) (map g xs) ≡ any_of (λ y. r y x) xs
any_of-map r g x [] h = refl
any_of-map r g x (y ∷ xs) h = rw (h y x, any_of-map r g x xs h)

pub distinct-map :
    {A : Type 0} (r : A → A → Bool) (g : A → A) (xs : List A)
    → ((a b : A) → r (g a) (g b) ≡ r a b)
    → distinct r (map g xs) ≡ distinct r xs
unfolding distinct
distinct-map r g [] h = refl
distinct-map r g (x ∷ xs) h = rw (any_of-map r g x xs h, distinct-map r g xs h)

pub any_of-map-false :
    {A : Type 0} (p q : A → Bool) (g : A → A) (xs : List A)
    → ((a : A) → p a ≡ false → q (g a) ≡ false)
    → any_of p xs ≡ false
    → any_of q (map g xs) ≡ false
any_of-map-false p q g [] h e = refl
any_of-map-false p q g (x ∷ xs) h e = ground (arith, h x, any_of-map-false p q g xs h)
