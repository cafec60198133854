-- ===== src/Metrics/Health/Colours.antt =====
-- The colours of the health status.
use intell_api.Prelude.{
  ℕ, Option, none, refl, inl, inr, ◌*◌, ◌≤◌, ◌<◌, ◌≡◌, ◌↔◌, ◌⊎◌, false, some, arith,
}
use intell_api.Prelude.Int.{ℤ, pos}
use intell_api.Metrics.Health.{
  HealthInput, HealthStatus, green, amber, red, grey, compute_health_status,
}

-- 0 for GREEN, 1 for AMBER, 2 for RED, 3 for GREY.
abbrev pub concern : HealthStatus → ℕ
concern green = 0
concern amber = 1
concern red = 2
concern grey = 3

abbrev charge_of : Option ℕ → Option ℤ
charge_of none = none
charge_of (some soc) = some (pos soc)

-- An online inverter with charge soc (or none known), solar output s, panel capacity p and the thresholds c and l.
abbrev pub online : Option ℕ → ℕ → ℕ → ℕ → ℕ → ℕ → HealthInput
online soc s p hour c l = record {
  soc_percent = charge_of soc;
  solar_kw = pos s;
  panel_capacity_kw = pos p;
  system_offline = false;
  local_hour = some hour;
  critical_soc_threshold = some (pos c);
  low_soc_threshold = some (pos l);
}

-- Of two states of one inverter at one hour and with the same thresholds, the one with no less charge
-- and no less sun has a status of no more concern (GREEN, AMBER, RED).
pub compute_health_status_anti :
    (i j s t p hour c l now : ℕ)
    → i ≤ j
    → s ≤ t
    → concern (compute_health_status (online (some j) t p hour c l) now).status
      ≤ concern (compute_health_status (online (some i) s p hour c l) now).status
unfolding compute_health_status
compute_health_status_anti i j s t p hour c l now hi hs = ground arith

known_bands :
    (soc s p hour c l now : ℕ)
    → let status = (compute_health_status (online (some soc) s p hour c l) now).status in
      ((status ≡ red) ↔ ((soc ≤ c) ⊎ ((soc ≤ l) × (s ≡ 0) × (6 ≤ hour) × (hour < 19))))
      × ((status ≡ green)
          ↔ ((c < soc) × (l < soc) × ((hour < 6) ⊎ (19 ≤ hour) ⊎ (p ≡ 0) ⊎ (3 * p ≤ 10 * s))))
unfolding compute_health_status
known_bands soc s p hour c l now = (ground arith, ground arith)

some_injective : (m n : ℕ) → ◌≡◌ {A = Option ℕ} (some m) (some n) → m ≡ n
some_injective m n e = ground arith

-- An online inverter is RED exactly if no charge is known, or the charge is at most the critical
-- threshold, or is at most the low one with no solar output between 6:00 and 19:00. It is GREEN if
-- the charge is known and above both, and it is night, or no panel capacity is known, or the output
-- is above 30% of it; and GREEN only if this holds or the output is 30% of it.
pub compute_health_status_bands :
    (soc : Option ℕ) (s p hour c l now : ℕ)
    → let status = (compute_health_status (online soc s p hour c l) now).status in
      ((status ≡ red) ↔ (
        (soc ≡ none)
        ⊎ ((n : ℕ) × (soc ≡ some n) × ((n ≤ c) ⊎ ((n ≤ l) × (s ≡ 0) × (6 ≤ hour) × (hour < 19))))))
      × (((n : ℕ) × (soc ≡ some n)
            × (c < n)
            × (l < n)
            × ((hour < 6) ⊎ (19 ≤ hour) ⊎ (p ≡ 0) ⊎ (3 * p < 10 * s)))
          → status ≡ green)
      × (status ≡ green
          → (n : ℕ) × (soc ≡ some n)
            × (c < n)
            × (l < n)
            × ((hour < 6) ⊎ (19 ≤ hour) ⊎ (p ≡ 0) ⊎ (3 * p ≤ 10 * s)))
unfolding compute_health_status
compute_health_status_bands none s p hour c l now = (
  (λ h. inl refl, λ h. refl),
  λ (n, e, high, low, rest). absurd (ground (arith, e)),
  λ h. absurd (ground (arith, h)),
)
compute_health_status_bands (some n) s p hour c l now =
    let (is_red, is_green) = known_bands n s p hour c l now in
    (
      (
        λ h. inr (n, refl, is_red.0 h),
        λ h. elim h [
          | inl e ↦ absurd (ground (arith, e))
          | inr (m, e, rest) ↦ is_red.1 (rw (← some_injective n m e) at rest)
        ],
      ),
      λ (m, e, high, low, rest). is_green.1 (ground (arith, some_injective n m e, rest)),
      λ h. let (high, low, rest) = is_green.0 h in (n, refl, high, low, rest),
    )
