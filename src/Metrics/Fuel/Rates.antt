-- ===== src/Metrics/Fuel/Rates.antt =====
-- Larger generators burn more.
use intell_api.Prelude.{ℕ, ◌*◌, ◌≤◌, ◌<◌, arith}
use intell_api.Prelude.{round_div, round_div_mono}
use intell_api.Common.Enums.{GeneratorFuelType, diesel, pms}
use intell_api.Metrics.Fuel.{rate_in, beyond_table, estimate_fuel_consumption_rate}

beyond_table_mono : (p q f : ℕ) → p ≤ q → beyond_table p f ≤ beyond_table q f
unfolding beyond_table
beyond_table_mono p q f h =
    let le = round_div_mono (p * f) (q * f) 100 (omega arith) (grind (arith, h)) in
    omega (arith, le)

-- Past the tables the rule of thumb gives more than their last brackets.
beyond_diesel : (q : ℕ) → 20000 < q → 4500 ≤ beyond_table q 3
unfolding beyond_table round_div
beyond_diesel q h = omega arith

beyond_pms : (q : ℕ) → 10000 < q → 3500 ≤ beyond_table q 5
unfolding beyond_table round_div
beyond_pms q h = omega arith

-- Of two generators of one fuel, the one of more rated power is not estimated to burn less.
pub estimate_fuel_consumption_rate_mono :
    (t : GeneratorFuelType) (p q : ℕ)
    → p ≤ q
    → estimate_fuel_consumption_rate t p ≤ estimate_fuel_consumption_rate t q
unfolding estimate_fuel_consumption_rate rate_in
estimate_fuel_consumption_rate_mono diesel p q h =
    ground (arith, beyond_table_mono p q 3 h, beyond_diesel q)
estimate_fuel_consumption_rate_mono pms p q h =
    ground (arith, beyond_table_mono p q 5 h, beyond_pms q)
