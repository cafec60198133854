-- ===== src/Prelude/Division.antt =====
-- Quotients rounded to the nearest number, as `Math.round(a / b)` does, and their order.
use Prim.Native.Nat.{ℕ, zero, suc, ◌+◌, ◌-◌, ◌*◌, ◌/◌, ◌≤◌, ◌<◌}
use native.Mathlib.Omega.{arith}
use native.Mathlib.Nat.{lt-div-mul-add}

-- `Math.round(a / b)` for non-negative a and positive b: halves go up.
unfoldable pub round_div : ℕ → ℕ → ℕ
round_div a b = (2 * a + b) / (2 * b)

-- `Math.ceil(a / b)` for non-negative a and positive b.
unfoldable pub ceil_div : ℕ → ℕ → ℕ
ceil_div a b = (a + (b - 1)) / b

pub le-div_of_mul : (k a b : ℕ) → 0 < b → k * b ≤ a → k ≤ a / b
le-div_of_mul k a b pos h = grind arith

pub mul-le_of_div : (k a b : ℕ) → k ≤ a / b → k * b ≤ a
mul-le_of_div k a b h = grind arith

pub div_mono : (a b c : ℕ) → 0 < c → a ≤ b → a / c ≤ b / c
div_mono a b c pos h = grind arith

pub round_div_mono : (a b c : ℕ) → 0 < c → a ≤ b → round_div a c ≤ round_div b c
unfolding round_div
round_div_mono a b c pos h = div_mono (2 * a + c) (2 * b + c) (2 * c) (omega arith) (omega arith)

round_div_anti_step :
    (a b c q : ℕ) → 0 < b → b ≤ c → q * (2 * c) ≤ 2 * a + c → q * (2 * b) ≤ 2 * a + b
round_div_anti_step a b c zero p h k = omega arith
round_div_anti_step a b c (suc q) p h k = grind arith

pub round_div_anti : (a b c : ℕ) → 0 < b → b ≤ c → round_div a c ≤ round_div a b
unfolding round_div
round_div_anti a b c pos h =
    le-div_of_mul ((2 * a + c) / (2 * c)) (2 * a + b) (2 * b) (omega arith) (
      round_div_anti_step a b c ((2 * a + c) / (2 * c)) pos h
        (mul-le_of_div ((2 * a + c) / (2 * c)) (2 * a + c) (2 * c) (omega arith)))

-- The rounded quotient lies within a half of the exact one.
pub round_div_near :
    (a b : ℕ)
    → 0 < b
    → (round_div a b * (2 * b) ≤ 2 * a + b) × (2 * a + b < round_div a b * (2 * b) + 2 * b)
unfolding round_div
round_div_near a b pos = (
  mul-le_of_div ((2 * a + b) / (2 * b)) (2 * a + b) (2 * b) (omega arith),
  lt-div-mul-add (omega arith),
)
