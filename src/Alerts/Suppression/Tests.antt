-- ===== src/Alerts/Suppression/Tests.antt =====
-- A warning that was resolved five minutes ago, and a proposed warning.
use intell_api.Prelude.{◌+◌, ◌*◌, ◌≤◌, ◌<◌, ◌≡◌, ◌≢◌, ◌↔◌, ◌⊎◌, true, none, some, []}
use intell_api.Prelude.Int.{pos}
use intell_api.Common.Enums.{warning, power, resolved, ProcessingStatus}
use intell_api.Alerts.Entity.{Alert, DeliveryState}
use intell_api.Alerts.Suppression.{DuplicateCheckInput, judge, severity_order}
use intell_api.Alerts.Suppression.Rules.{judge_iff}

abbrev old : Alert
old = record {
  id = "a";
  created_at = 600000;
  columns = record {
    user_id = "u";
    type = power;
    platform = "growatt";
    severity = warning;
    message = "m";
    resolution_status = some resolved;
    triggered_at = 600000;
    is_active = true;
    delivery_processing_status = ProcessingStatus.successful;
    deliverable = true;
    delivery_status = DeliveryState.delivered;
    delivery_channel = none;
    metadata = [];
  };
}

abbrev proposed : DuplicateCheckInput
proposed = record { user_id = "u"; type = power; severity = warning }

judge_iff_example : ((judge (some old) proposed (pos 15) 900000).is_duplicate ≡ true) ↔ (
    (severity_order warning ≤ severity_order warning)
    × ((900000 < 600000 + 15 * 60000) × (0 < 15) ⊎ (old.resolution_status ≢ some resolved)))
judge_iff_example = judge_iff old proposed (pos 15) 900000
