-- ===== src/Alerts/Depletion/Bounds.antt =====
-- The depletion estimate: when there is one, how exact it is, and how it moves with the readings.
use intell_api.Prelude.{
  refl, ℕ, ◌+◌, ◌*◌, ◌≤◌, ◌<◌, ◌≡◌, ◌↔◌, Bool, true, ◌&&◌, ◌||◌, none, some, ltb, ◌==◌, arith,
  dec_lt, ◌⊎◌, ap, sym, round_div_mono, round_div_anti, round_div_near,
}
use intell_api.Prelude.Int.{ℤ, pos, negsuc, pos_part, neg_part}
use intell_api.Alerts.Depletion.{
  DepletionInput, at_least_zero, min_meaningful_capacity_kwh, round_hundredths, safe_soc, net_load,
  usable_percent, depletion_minutes, calculate_depletion,
}

-- The capacity is positive and below 0.02 kWh.
abbrev pub is_misconfigured : DepletionInput → Bool
is_misconfigured input =
    let c = at_least_zero input.battery_capacity_kwh in ltb 0 c && ltb c min_meaningful_capacity_kwh

-- The system counts as charging exactly when there is no estimate, and both hold exactly when the
-- sun covers the load or the battery capacity is positive and below 0.02 kWh. The threshold in the
-- result is the one that was given.
pub calculate_depletion-charging :
    (input : DepletionInput) (threshold : ℤ)
    → let r = calculate_depletion input threshold in
      (r.is_charging ≡ ((net_load input == 0) || is_misconfigured input))
      × ((r.minutes_until_depletion ≡ none) ↔ (r.is_charging ≡ true))
      × (r.used_threshold_percent ≡ threshold)
unfolding calculate_depletion
calculate_depletion-charging input threshold = (ground arith, ground arith, ground arith)

-- The rounded quotient lies within five thousandths of the exact one.
round_hundredths_near :
    (a b : ℕ)
    → 0 < b
    → (round_hundredths a b * b ≤ a + 5 * b) × (a < round_hundredths a b * b + 5 * b)
unfolding round_hundredths
round_hundredths_near a b h =
    let (lo, hi) = round_div_near (a * 100) (b * 1000) (omega arith) in (grind arith, grind arith)

round_hundredths_mono :
    (a b c d : ℕ) → 0 < d → a ≤ b → d ≤ c → round_hundredths a c ≤ round_hundredths b d
unfolding round_hundredths
round_hundredths_mono a b c d p h k = omega (
  arith,
  round_div_anti (a * 100) (d * 1000) (c * 1000) (omega arith) (omega arith),
  round_div_mono (a * 100) (b * 100) (d * 1000) (omega arith) (omega arith),
)

depletion_minutes_mono :
    (u v c net more : ℕ)
    → 0 < net
    → u ≤ v
    → net ≤ more
    → depletion_minutes u c more ≤ depletion_minutes v c net
unfolding depletion_minutes
depletion_minutes_mono u v c net more p h k =
    round_hundredths_mono (u * c * 60) (v * c * 60) (100 * more) (100 * net) (omega arith)
      (grind arith) (omega arith)

depletion_minutes-zero : (c net : ℕ) → 0 < net → depletion_minutes 0 c net ≡ 0
unfolding depletion_minutes
depletion_minutes-zero c net p =
    let (lo, _) = round_hundredths_near (0 * c * 60) (100 * net) (omega arith) in grind arith

-- The estimate where there is one and the battery has a meaningful capacity.
estimate_lem :
    (input : DepletionInput) (t : ℤ)
    → 20 ≤ at_least_zero input.battery_capacity_kwh
    → 0 < net_load input
    → (calculate_depletion input t).minutes_until_depletion
      ≡ some (
          pos (
            depletion_minutes
              (usable_percent (safe_soc input) t)
              (at_least_zero input.battery_capacity_kwh)
              (net_load input)))
unfolding calculate_depletion
estimate_lem input t big p =
    ground
      (arith, depletion_minutes-zero (at_least_zero input.battery_capacity_kwh) (net_load input))

no_estimate_lem :
    (input : DepletionInput) (t : ℤ)
    → net_load input ≡ 0
    → (calculate_depletion input t).minutes_until_depletion ≡ none
unfolding calculate_depletion
no_estimate_lem input t e = ground arith

pub estimate_shape :
    (input : DepletionInput) (t z : ℤ)
    → (calculate_depletion input t).minutes_until_depletion ≡ some z
    → (m : ℕ) × (z ≡ pos m)
unfolding calculate_depletion
estimate_shape input t (pos m) e = (m, refl)
estimate_shape input t (negsuc m) e = absurd (ground arith)

depletion_minutes_near :
    (u c n m : ℕ)
    → 0 < n
    → depletion_minutes u c n ≡ m
    → (m * (100 * n) ≤ 60 * (u * c) + 5 * (100 * n))
      × (60 * (u * c) ≤ m * (100 * n) + 5 * (100 * n))
unfolding depletion_minutes
depletion_minutes_near u c n m p e =
    let (lo, hi) = round_hundredths_near (u * c * 60) (100 * n) (omega arith) in
    (rw (← e) (omega (arith, lo)), rw (← e) (omega (arith, hi)))

-- For a capacity of at least 0.02 kWh, an estimate m (in thousandths of a minute) is the time that
-- the energy above the threshold lasts at the net load, to within five thousandths: with u the
-- usable charge, c the capacity and n the net load, m differs from (60 * u * c) / (100 * n) by at
-- most 5.
pub calculate_depletion-exact :
    (input : DepletionInput) (threshold : ℤ) (m : ℕ)
    → (calculate_depletion input threshold).minutes_until_depletion ≡ some (pos m)
    → min_meaningful_capacity_kwh ≤ at_least_zero input.battery_capacity_kwh
    → let energy =
        60
        * (usable_percent (safe_soc input) threshold * at_least_zero input.battery_capacity_kwh) in
      let rate = 100 * net_load input in
      (0 < rate) × (m * rate ≤ energy + 5 * rate) × (energy ≤ m * rate + 5 * rate)
calculate_depletion-exact input threshold m e big =
    let p : 0 < net_load input = ground (arith, no_estimate_lem input threshold) in
    let u = usable_percent (safe_soc input) threshold in
    let c = at_least_zero input.battery_capacity_kwh in
    let (lo, hi) =
      depletion_minutes_near u c (net_load input) m p
        (ground (arith, estimate_lem input threshold big p)) in
    (omega arith, lo, hi)

small_lem :
    (input : DepletionInput) (t : ℤ)
    → at_least_zero input.battery_capacity_kwh < 20
    → (at_least_zero input.battery_capacity_kwh ≡ 0)
      ⊎ ((calculate_depletion input t).minutes_until_depletion ≡ none)
unfolding calculate_depletion
small_lem input t h = ground arith

empty_lem :
    (input : DepletionInput) (t : ℤ)
    → at_least_zero input.battery_capacity_kwh ≡ 0
    → 0 < net_load input
    → (calculate_depletion input t).minutes_until_depletion ≡ some (pos 0)
unfolding calculate_depletion
empty_lem input t e p = ground arith

-- `j` is in no better a state than `i`: as small a battery charge, as high a load, as little sun.
pub record IsNoBetter (i j : DepletionInput) : Type 0 where
  pub capacity : i.battery_capacity_kwh ≡ j.battery_capacity_kwh
  pub soc : pos_part j.battery_soc_percent ≤ pos_part i.battery_soc_percent
  pub load : pos_part i.load_kw ≤ pos_part j.load_kw
  pub solar : pos_part j.solar_gen_kw ≤ pos_part i.solar_gen_kw

net_load-anti : (i j : DepletionInput) → IsNoBetter i j → net_load i ≤ net_load j
unfolding net_load
net_load-anti i j h = omega arith

usable-anti :
    (i j : DepletionInput) (s t : ℤ)
    → IsNoBetter i j
    → pos_part s + neg_part t ≤ pos_part t + neg_part s
    → usable_percent (safe_soc j) t ≤ usable_percent (safe_soc i) s
unfolding safe_soc
usable-anti i j s t h le = omega arith

-- Less charge, more load, less sun or a higher threshold never lengthen the estimate, and never
-- make it disappear.
pub calculate_depletion_anti :
    (i j : DepletionInput) (s t : ℤ) (m : ℕ)
    → IsNoBetter i j
    → pos_part s + neg_part t ≤ pos_part t + neg_part s
    → (calculate_depletion i s).minutes_until_depletion ≡ some (pos m)
    → (n : ℕ) × ((calculate_depletion j t).minutes_until_depletion ≡ some (pos n)) × (n ≤ m)
calculate_depletion_anti i j s t m h le e =
    let p : 0 < net_load i = ground (arith, no_estimate_lem i s) in
    let q : net_load i ≤ net_load j = net_load-anti i j h in
    let same : at_least_zero j.battery_capacity_kwh ≡ at_least_zero i.battery_capacity_kwh =
      ap at_least_zero (sym h.capacity) in
    elim (dec_lt (at_least_zero i.battery_capacity_kwh) 20) [
      | yes small ↦
          (0, empty_lem j t (ground (arith, small_lem i s small)) (omega arith), omega arith)
      | no big ↦ (
        depletion_minutes (usable_percent (safe_soc j) t) (at_least_zero j.battery_capacity_kwh)
            (net_load j),
        estimate_lem j t (omega arith) (omega arith),
        rw same (
            ground (
              arith,
              estimate_lem i s (omega arith) p,
              depletion_minutes_mono (usable_percent (safe_soc j) t) (usable_percent (safe_soc i) s)
                  (at_least_zero i.battery_capacity_kwh) (net_load i) (net_load j) p
                  (usable-anti i j s t h le) q,
            )),
      )
    ]
