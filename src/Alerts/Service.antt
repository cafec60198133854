-- ===== src/Alerts/Service.antt =====
-- modules/alerts/alerts.service.ts and modules/alerts/actions/alert.action.ts. A `where` clause is
-- the test that it makes of a row.
pub mod Access
pub mod Metrics
mod Tests
use intell_api.Prelude.{
  ℕ, ◌+◌, ◌-◌, ◌*◌, String, Bool, true, false, not, ◌&&◌, Option, none, some, List, map, length,
  keep, ltb, leb, ◌==◌, if◌then◌else◌, str_eq, round_div, ceil_div,
}
use intell_api.Common.Enums.{
  AlertSeverity, critical, warning, severity_eq, AlertType, type_eq, AlertResolutionStatus,
  resolved, unresolved,
}
use intell_api.Exec.{not_found, unauthorized, thrown, Result, Exec, pure, throw, query, ◌>>=◌}
use intell_api.Alerts.Entity.{Alert}
use intell_api.Alerts.Tally.{dominant}

-- The repository and the model action of the package @hng-sdk/orm.
pub record AlertTable : Type 1 where
  pub World : Type 0
  -- this.get({ identifierOptions: { id } })
  pub find_by_id : String → World → Result (Option Alert)
  -- repository.countBy(where)
  pub count_by : (Alert → Bool) → World → Result ℕ
  -- repository.find({ where, take })
  pub find : (Alert → Bool) → Option ℕ → World → Result (List Alert)
  -- this.find({ findOptions, paginationPayload: { limit, page } })
  pub find_page : (Alert → Bool) → ℕ → ℕ → World → Result (List Alert)
  -- this.update({ identifierOptions: { id }, updatePayload: { resolutionStatus } })
  pub set_resolution : String → AlertResolutionStatus → Exec World (Option Alert)

abbrev is_status : AlertResolutionStatus → Option AlertResolutionStatus → Bool
is_status resolved (some resolved) = true
is_status unresolved (some unresolved) = true
is_status _ _ = false

abbrev pub is_resolved : Alert → Bool
is_resolved a = is_status resolved a.resolution_status

abbrev pub is_open : Alert → Bool
is_open a = is_status unresolved a.resolution_status

abbrev pub is_owned : String → Alert → Bool
is_owned user a = str_eq a.user_id user

pub data StatusFilter : Type 0 where
  active_only resolved_only all : StatusFilter

pub record FindAlertsDto : Type 0 where
  pub count : Option ℕ
  pub start_date : Option ℕ
  pub end_date : Option ℕ
  pub platform : Option String
  pub status : Option StatusFilter
  pub severity : Option AlertSeverity
  pub type : Option AlertType

-- `if (o) where.x = o`: no test without a value.
abbrev given {ℓ} : {A : Type ℓ} → Option A → (A → Bool) → Bool
given none p = true
given (some a) p = p a

-- Between is inclusive at both ends.
in_dates : Option ℕ → Option ℕ → ℕ → Bool
in_dates (some start) (some end) t = leb start t && leb t end
in_dates none (some end) t = leb t end
in_dates (some start) none t = leb start t
in_dates none none t = true

has_status : Option StatusFilter → Alert → Bool
has_status (some active_only) a = a.is_active && not (is_status resolved a.resolution_status)
has_status (some resolved_only) a = is_resolved a
has_status _ a = true

-- whereOptions of findAlertsWhere
unfoldable pub matches : FindAlertsDto → String → Alert → Bool
unfolding in_dates has_status
matches options user_id a =
    is_owned user_id a
    && (in_dates options.start_date options.end_date a.created_at
        && (given options.platform (λ p. str_eq a.platform p)
            && (has_status options.status a
                && (given options.severity (λ s. severity_eq a.severity s)
                    && given options.type (λ t. type_eq a.type t)))))

pub data ReportPeriod : Type 0 where
  weekly monthly custom : ReportPeriod

pub record Report : Type 0 where
  pub user_id : String
  pub name : String
  pub period : ReportPeriod
  pub start_date : Option ℕ
  pub end_date : Option ℕ
  pub reference_date : Option ℕ

-- The rate is in thousandths of a percent.
pub record AlertKeyMetrics : Type 0 where
  pub total_alerts : ℕ
  pub resolved_alerts : ℕ
  pub unresolved_alerts : ℕ
  pub dominant_alert_type : Option AlertType
  pub dominant_alert_severity : Option AlertSeverity
  pub resolution_rate : ℕ

abbrev pub day_ms : ℕ
day_ms = 1000 * 60 * 60 * 24

span_between : Option ℕ → Option ℕ → Option ℕ
span_between (some start) (some end) =
    if ltb end start then none else some (ceil_div (end - start) day_ms)
span_between _ _ = none

span_days : ReportPeriod → Option ℕ → Option ℕ → Option ℕ
span_days custom start end = span_between start end
span_days weekly start end = some 7
span_days monthly start end = some 30

unfoldable pub get_report_span_days : Report → Option ℕ
unfolding span_between span_days
get_report_span_days r = span_days r.period r.start_date r.end_date

abbrev first_of : Option ℕ → Option ℕ → Option ℕ
first_of (some a) b = some a
first_of none b = b

-- new Date(report.endDate) of a custom report, else the start and `days` more days.
report_end : ReportPeriod → Option ℕ → ℕ → ℕ → ℕ
report_end custom (some end) start days = end
report_end custom none start days = start
report_end _ end start days = start + days * day_ms

unfoldable pub get_dominant_alert_type : List Alert → Option AlertType
get_dominant_alert_type alerts = dominant type_eq (map (λ (a : Alert). a.type) alerts)

unfoldable pub get_dominant_alert_severity : List Alert → Option AlertSeverity
get_dominant_alert_severity alerts = dominant severity_eq (map (λ (a : Alert). a.severity) alerts)

-- parseFloat(((resolved / total) * 100).toFixed(2))
unfoldable pub rate : ℕ → ℕ → ℕ
rate done total = if ltb 0 total then 10 * round_div (done * 10000) total else 0

pub key_metrics : List Alert → AlertKeyMetrics
key_metrics alerts =
    let done = length (keep is_resolved alerts) in
    record {
      total_alerts = length alerts;
      resolved_alerts = done;
      unresolved_alerts = length (keep is_open alerts);
      dominant_alert_type = get_dominant_alert_type alerts;
      dominant_alert_severity = get_dominant_alert_severity alerts;
      resolution_rate = rate done (length alerts);
    }

-- The span that the report needs: neither null nor 0.
abbrev needed : Option ℕ → Option ℕ
needed none = none
needed (some n) = if n == 0 then none else some n

pub record AlertSummary : Type 0 where
  pub active : ℕ
  pub critical : ℕ
  pub unresolved : ℕ
  pub warning : ℕ

module _ (b : AlertTable) where
  open b use {World, find_by_id, count_by, find, find_page, set_resolution}

  pub find_alerts_where : FindAlertsDto → String → Exec World (List Alert)
  find_alerts_where options user_id = query (find (matches options user_id) options.count)

  -- dto: the type, the page's size and number, and the user
  pub get_alerts : Option AlertType → Option ℕ → Option ℕ → String → Exec World (List Alert)
  get_alerts alert_type page_size page_number user_id = query (
      find_page (λ a. is_owned user_id a && given alert_type (λ t. type_eq a.type t))
        (elim page_size [ none ↦ 10 | some n ↦ n ]) (elim page_number [ none ↦ 1 | some n ↦ n ]))

  pub get_alerts_summary : String → Exec World AlertSummary
  get_alerts_summary user_id = do
    active ← query (count_by (λ a. is_owned user_id a && is_open a))
    serious ← query (count_by (λ a. is_owned user_id a && severity_eq a.severity critical))
    warned ← query (count_by (λ a. is_owned user_id a && severity_eq a.severity warning))
    open_ ← query (count_by (λ a. is_owned user_id a && is_open a))
    pure (record { active = active; critical = serious; unresolved = open_; warning = warned })

  -- The checks that getAlertDetails and resolveAlert begin with.
  own_alert : String → Option Alert → Exec World Alert
  own_alert user_id none = throw (not_found "The requested resource was not found")
  own_alert user_id (some a) =
      if is_owned user_id a
      then pure a
      else throw (unauthorized "Authentication is required or has failed")

  pub get_alert_details : String → String → Exec World Alert
  unfolding own_alert
  get_alert_details alert_id user_id = do
    found ← query (find_by_id alert_id)
    own_alert user_id found

  pub mark_as_resolved : String → Exec World (Option Alert)
  mark_as_resolved alert_id = set_resolution alert_id resolved

  pub resolve_alert : String → String → Exec World (Option Alert)
  unfolding own_alert mark_as_resolved
  resolve_alert alert_id user_id = do
    found ← query (find_by_id alert_id)
    _ ← own_alert user_id found
    mark_as_resolved alert_id

  report_alerts : Report → Option ℕ → Option ℕ → Exec World (List Alert)
  report_alerts r none start = throw (thrown "Unable to calculate days difference")
  report_alerts r (some days) none = throw (thrown "Report start date is required")
  report_alerts r (some days) (some start) =
      find_alerts_where
        (record {
          count = none;
          start_date = some start;
          end_date = some (report_end r.period r.end_date start days);
          platform = none;
          status = none;
          severity = none;
          type = none;
        })
        r.user_id

  pub get_alert_report : Report → Exec World AlertKeyMetrics
  unfolding report_alerts find_alerts_where report_end
  get_alert_report r = do
    alerts ←
        report_alerts r (needed (get_report_span_days r)) (first_of r.reference_date r.start_date)
    pure (key_metrics alerts)
