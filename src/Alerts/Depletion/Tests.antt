-- ===== src/Alerts/Depletion/Tests.antt =====
-- A battery of 5 kWh at 60% and at 30%, under a load of 2 kW.
use intell_api.Prelude.{ℕ, ◌+◌, ◌*◌, ◌≤◌, ◌<◌, ◌≡◌, some, arith, refl, round_div}
use intell_api.Prelude.Int.{pos}
use intell_api.Alerts.Depletion.{
  DepletionInput, default_threshold, safe_soc, net_load, usable_percent, depletion_minutes,
  calculate_depletion,
}
use intell_api.Alerts.Depletion.Bounds.{calculate_depletion-exact, calculate_depletion_anti}

abbrev battery_at : ℕ → DepletionInput
battery_at soc = record {
  battery_soc_percent = pos soc;
  load_kw = pos 2000;
  battery_capacity_kwh = pos 5000;
  solar_gen_kw = pos 0;
  inverter_rated_power_kw = pos 3000;
}

seventy_five_minutes :
    (calculate_depletion (battery_at 60000) default_threshold).minutes_until_depletion
    ≡ some (pos 75000)
unfolding calculate_depletion net_load safe_soc depletion_minutes round_div
seventy_five_minutes = refl

calculate_depletion-exact_example :
    let energy = 60 * (usable_percent (safe_soc (battery_at 60000)) default_threshold * 5000) in
    let rate = 100 * net_load (battery_at 60000) in
    (0 < rate) × (75000 * rate ≤ energy + 5 * rate) × (energy ≤ 75000 * rate + 5 * rate)
calculate_depletion-exact_example =
    calculate_depletion-exact (battery_at 60000) default_threshold 75000 seventy_five_minutes
      (omega arith)

calculate_depletion_anti_example :
    (n : ℕ) × ((calculate_depletion (battery_at 30000) default_threshold).minutes_until_depletion
      ≡ some (pos n))
    × (n ≤ 75000)
calculate_depletion_anti_example =
    calculate_depletion_anti (battery_at 60000) (battery_at 30000) default_threshold
      default_threshold 75000
      (record { capacity = refl; soc = omega arith; load = omega arith; solar = omega arith })
      (omega arith) seventy_five_minutes
