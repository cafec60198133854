-- ===== src/Metrics/Insights/Projections.antt =====
-- What the projection of a reading says.
use intell_api.Prelude.{ℕ, ◌+◌, ◌-◌, ◌*◌, ◌<◌, true, some, ◌≡◌, refl, arith, ltb, round_div}
use native.Mathlib.Nat.{mul-div-mul_left}
use intell_api.Prelude.Int.{pos}
use intell_api.Metrics.Insights.{
  Generator, usable_energy, is_depleting, savings_at_risk, shed_savings, project,
}

-- A quotient does not change when both parts are multiplied.
cancel : (n a b : ℕ) → 0 < n → round_div (n * a) (n * b) ≡ round_div a b
unfolding round_div
cancel n a b h =
    let top : 2 * (n * a) + n * b ≡ n * (2 * a + b) = grind arith in
    let bottom : 2 * (n * b) ≡ n * (2 * b) = grind arith in
    rw (top, bottom) (mul-div-mul_left (2 * a + b) (2 * b) h)

-- While the battery drains, with charge above the cut-off, a capacity and a generator: the savings at
-- risk are the price of the fuel that the usable energy replaces, whatever the load and the sun;
-- shedding the load that exceeds the sun saves just as much, and leaves a load that the sun covers;
-- and the minutes left are those that the usable energy lasts at the net load.
pub project_draining :
    (soc load solar capacity : ℕ) (g : Generator)
    → solar < load
    → 20000 < soc
    → 0 < capacity
    → 0 < g.rated_power_kw
    → let p = project soc load solar (pos capacity) g in
      let usable = (soc - 20000) * capacity in
      (p.ngn_at_risk ≡ some (round_div (g.rate * g.price * usable) (1000000000 * g.rated_power_kw)))
      × (p.additional_savings_ngn ≡ p.ngn_at_risk)
      × (p.target_load_kw ≡ solar)
      × (p.shed_reaches_steady_state ≡ true)
      × (p.estimated_depletion_minutes ≡ some (round_div (60 * usable) (100000 * (load - solar))))
unfolding project usable_energy is_depleting savings_at_risk shed_savings
project_draining soc load solar capacity g more above some_ rated =
    let usable = (soc - 20000) * capacity in
    let net = load - solar in
    let drains : ltb solar load ≡ true = ground arith in
    let full : usable_energy soc (pos capacity) ≡ usable = ground arith in
    let left : 0 < usable = grind arith in
    let lasts : ltb 0 usable ≡ true = ground (arith, left) in
    let runs : ltb 0 g.rated_power_kw ≡ true = ground arith in
    let net_ : ltb 0 net ≡ true = ground arith in
    let same =
      cancel net (g.rate * g.price * usable) (1000000000 * g.rated_power_kw) (omega arith) in
    (
      rw (full, drains, lasts, runs, net_, same) refl,
      rw (full, drains, lasts, runs, net_) refl,
      omega arith,
      rw (full, drains, lasts, net_) refl,
      rw (full, drains, lasts) refl,
    )
