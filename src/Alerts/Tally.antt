-- ===== src/Alerts/Tally.antt =====
-- The two `reduce` calls of getDominantAlertType and getDominantAlertSeverity in
-- modules/alerts/alerts.service.ts, over any key: counts in the order of first occurrence, and the
-- first entry with the highest count.
pub mod Dominant
use intell_api.Prelude.{ℕ, ◌+◌, Bool, Option, none, some, List, [], ◌∷◌, ltb, if◌then◌else◌}

module _ {K : Type 0} (eq : K → K → Bool) where
  -- acc[key] = (acc[key] ?? 0) + 1
  bump : K → List (K × ℕ) → List (K × ℕ)
  bump k [] = (k, 1) ∷ []
  bump k ((j, n) ∷ rest) = if eq j k then (j, n + 1) ∷ rest else (j, n) ∷ bump k rest

  tally : List (K × ℕ) → List K → List (K × ℕ)
  tally acc [] = acc
  tally acc (k ∷ ks) = tally (bump k acc) ks

  -- b[1] > a[1] ? b : a
  better : K × ℕ → K × ℕ → K × ℕ
  better a b = if ltb a.1 b.1 then b else a

  -- reduce((a, b) => …)
  pick_max : K × ℕ → List (K × ℕ) → K × ℕ
  pick_max a [] = a
  pick_max a (b ∷ rest) = pick_max (better a b) rest

  -- Object.entries(counts).reduce(…)[0]
  first_max : List (K × ℕ) → Option K
  first_max [] = none
  first_max (e ∷ rest) = some (pick_max e rest).0

  pub dominant : List K → Option K
  unfolding bump tally better pick_max first_max
  dominant ks = first_max (tally [] ks)

  -- How often a key stands in a list.
  abbrev pub count : K → List K → ℕ
  count k [] = 0
  count k (j ∷ js) = (if eq j k then 1 else 0) + count k js
