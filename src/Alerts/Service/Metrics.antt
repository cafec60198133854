-- ===== src/Alerts/Service/Metrics.antt =====
-- The numbers of an alert report.
use intell_api.Prelude.{
  ℕ, ◌+◌, ◌-◌, ◌*◌, ◌≤◌, ◌<◌, ◌≡◌, ◌≢◌, ◌↔◌, ◌⊎◌, inl, inr, Bool, true, none, some, List, [], ◌∷◌,
  map, length, keep, arith, round_div, ceil_div, length-keep-le, lt→ltb, round_div_near, dec_lt,
}
use intell_api.Common.Enums.{
  AlertSeverity, AlertType, type_eq, type_eq_iff, severity_eq, severity_eq_iff,
}
use intell_api.Alerts.Entity.{Alert}
use intell_api.Alerts.Tally.{dominant}
use intell_api.Alerts.Tally.Dominant.{dominant_lem, IsDominant}
use intell_api.Alerts.Service.{
  is_resolved, is_open, Report, custom, day_ms, get_report_span_days, get_dominant_alert_type,
  get_dominant_alert_severity, rate, key_metrics,
}

resolved-add-open :
    (alerts : List Alert)
    → length (keep is_resolved alerts) + length (keep is_open alerts) ≤ length alerts
resolved-add-open [] = omega arith
resolved-add-open (a ∷ alerts) = ground (arith, resolved-add-open alerts)

rate_step : (done total : ℕ) → 0 < total → done ≤ total → round_div (done * 10000) total ≤ 10000
rate_step done total p h = let (lo, _) = round_div_near (done * 10000) total p in grind arith

rate-le : (done total : ℕ) → done ≤ total → rate done total ≤ 100000
unfolding rate
rate-le done total h = elim (dec_lt 0 total) [
  | yes p ↦ ground (arith, rate_step done total p h)
  | no p ↦ ground arith
]

-- The resolved and the unresolved alerts of a report are at most all of them, and its resolution
-- rate is at most 100 percent.
pub key_metrics_bounds :
    (alerts : List Alert)
    → let m = key_metrics alerts in
      (m.resolved_alerts + m.unresolved_alerts ≤ m.total_alerts) × (m.resolution_rate ≤ 100000)
unfolding key_metrics
key_metrics_bounds alerts = (
  resolved-add-open alerts,
  rate-le (length (keep is_resolved alerts)) (length alerts) (length-keep-le is_resolved alerts),
)

abbrev pub types_of : List Alert → List AlertType
types_of = map (λ (a : Alert). a.type)

abbrev pub severities_of : List Alert → List AlertSeverity
severities_of = map (λ (a : Alert). a.severity)

of_cons :
    {K : Type 0} (eq : K → K → Bool) (iff : (a b : K) → (eq a b ≡ true) ↔ (a ≡ b)) (ks : List K)
    → ks ≢ []
    → (k : K) × (dominant eq ks ≡ some k) × IsDominant eq iff k ks
of_cons eq iff ks ne = elim (dominant_lem eq iff ks) [
  | inl (_, e) ↦ absurd (ne e)
  | inr found ↦ found
]

empty_lem :
    {K : Type 0} (eq : K → K → Bool) (iff : (a b : K) → (eq a b ≡ true) ↔ (a ≡ b))
    → dominant eq [] ≡ none
empty_lem eq iff = elim (dominant_lem eq iff []) [
  | inl (e, _) ↦ e
  | inr (k, _, found) ↦ absurd (omega (arith, found.0))
]

-- A report over no alerts names no dominant type; any other names a type that occurs in it, at
-- least as often as any type does. The same holds of the dominant severity.
pub key_metrics-IsDominant :
    (a : Alert) (alerts : List Alert)
    → let m = key_metrics (a ∷ alerts) in
      ((t : AlertType) × (m.dominant_alert_type ≡ some t)
        × IsDominant type_eq type_eq_iff t (types_of (a ∷ alerts)))
      × ((s : AlertSeverity) × (m.dominant_alert_severity ≡ some s)
          × IsDominant severity_eq severity_eq_iff s (severities_of (a ∷ alerts)))
      × ((key_metrics []).dominant_alert_type ≡ none)
unfolding key_metrics get_dominant_alert_type get_dominant_alert_severity
key_metrics-IsDominant a alerts = (
  of_cons type_eq type_eq_iff (types_of (a ∷ alerts)) (λ e. cc),
  of_cons severity_eq severity_eq_iff (severities_of (a ∷ alerts)) (λ e. cc),
  empty_lem type_eq type_eq_iff,
)

-- The days of a custom report are those between its dates, begun days counted as whole: n days
-- reach the end date and n - 1 do not. Dates in the wrong order, or a missing one, give none.
pub get_report_span_days_custom :
    (r : Report) (start end : ℕ)
    → r.period ≡ custom
    → r.start_date ≡ some start
    → r.end_date ≡ some end
    → ((end < start) × (get_report_span_days r ≡ none))
      ⊎ ((n : ℕ) × (get_report_span_days r ≡ some n)
          × (end ≤ start + n * day_ms)
          × (start + n * day_ms < end + day_ms))
unfolding get_report_span_days ceil_div
get_report_span_days_custom r start end p s e = elim (dec_lt end start) [
  | yes h ↦ inl (h, rw (p, s, e, get_report_span_days) (rw (lt→ltb _ _ h)))
  | no h ↦ inr (
    ceil_div (end - start) day_ms,
    rw (p, s, e, get_report_span_days) (ground arith),
    omega arith,
    omega arith,
  )
]
