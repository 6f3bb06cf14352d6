-- ===== src/Tests/Heartbeats.antt =====
-- A heartbeat of a queue that is full: a notification, and its mark.
use editorial_team_v.Prelude.{
  Result, ok, err, is_ok, Text, text, ℕ, zero, suc, ◌+◌, ◌≤◌, take, Option, none, some, List, [],
  ◌∷◌, true, false, ◌≡◌, ◌↔◌, ◌≢◌, refl, arith,
}
use editorial_team_v.Prelude.Sorting.{IsOrdered}
use mathlib.Core.List.{Perm}
use editorial_team_v.Contracts.{
  Datetime, Checked, is_utc, Zone, naive, no_offset, east, west, not_utc,
}
use editorial_team_v.Graphs.State.{value}
use editorial_team_v.Runtime.Queue.{telegram}
use editorial_team_v.Runtime.Stats.{RuntimeSourceStats, RuntimeQueueStats}
use editorial_team_v.Operations.Models.{
  notify, silence, queue_pressure, system_healthy, OperationalSnapshot, HeartbeatResult,
  AdminAssessment, make_heartbeat, make_snapshot,
}
use editorial_team_v.Operations.Policy.{
  AdminPolicy, expected_admin_assessment, InForce, expected-InForce,
}
use editorial_team_v.Operations.Collector.{Collector, Reading, collect, collect_all}
use editorial_team_v.Operations.Collector.Windows.{completed_of, failed_of, sum_of, windows_total}
use editorial_team_v.Operations.Store.{
  Row, save, get_result, find_row, mark_notification_sent, list_recent, to_results,
  max_recent_results, duplicate_result,
}
use editorial_team_v.Operations.Store.RoundTrip.{IsHeartbeat, save-accepts, get-save}
use editorial_team_v.Operations.Store.Marking.{mark-notify}
use editorial_team_v.Operations.Store.Recent.{NotBefore, list_recent-IsOrdered}
use editorial_team_v.Operations.Service.{evaluate_and_store}
use editorial_team_v.Operations.Service.Agreement.{evaluate_and_store-InForce}
use editorial_team_v.Operations.Runner.{World, delivered, operation}
use editorial_team_v.Operations.Runner.Delivery.{Delivered, operation-Delivered}
use editorial_team_v.Tests.Fixtures.{noon}

-- A form of a UTC time that can be read back: its microseconds, and the form of its offset.
abbrev stamp : Datetime → Text
stamp t = elim t.zone [
  | naive ↦ []
  | no_offset ↦ []
  | east o ↦ t.instant ∷ 0 ∷ o ∷ []
  | west o ↦ t.instant ∷ 1 ∷ o ∷ []
]

abbrev unstamp : Text → Checked Datetime
unstamp (i ∷ zero ∷ o ∷ []) = ok (record { instant = i; zone = east o })
unstamp (i ∷ suc n ∷ o ∷ []) = ok (record { instant = i; zone = west o })
unstamp _ = ok noon

read_back :
    (i : ℕ) (z : Zone)
    → is_utc z ≡ true
    → unstamp (stamp (record { instant = i; zone = z })) ≡ ok (record { instant = i; zone = z })
read_back i naive h = ground arith
read_back i no_offset h = ground arith
read_back i (east o) h = refl
read_back i (west o) h = refl

unstamp-stamp : (t : Datetime) → is_utc t.zone ≡ true → unstamp (stamp t) ≡ ok t
unstamp-stamp t h = read_back t.instant t.zone h

abbrev full_queue : OperationalSnapshot
full_queue = record {
  observed_at = noon;
  worker_running = true;
  queue_depth = 4;
  queue_capacity = 4;
  completed_jobs = 3;
  failed_jobs = 0;
  last_success_at = some noon;
}

abbrev half_queue : OperationalSnapshot
half_queue = record full_queue { queue_depth = 3 }

abbrev policy : AdminPolicy
policy = record { failure_threshold = 2; ratio_numerator = 75; ratio_denominator = 100 }

abbrev pressure : AdminAssessment
pressure = record { decision = notify; reason_code = queue_pressure }

abbrev alert : HeartbeatResult
alert = record {
  id = text "h1";
  snapshot = full_queue;
  decision = notify;
  reason_code = queue_pressure;
  notification_sent = false;
}

expected-InForce_example :
    (a : AdminAssessment) × (expected_admin_assessment full_queue policy ≡ ok a)
    × InForce full_queue policy a.reason_code
    × (a.decision ≡ silence ↔ a.reason_code ≡ system_healthy)
expected-InForce_example = expected-InForce full_queue policy

abbrev kept : List Row
unfolding save
kept = elim (save stamp [] alert) [ ok rows ↦ rows | err e ↦ [] ]

alert-IsHeartbeat : IsHeartbeat alert
unfolding make_heartbeat make_snapshot editorial_team_v.Contracts.validate_identifier
    editorial_team_v.Prelude.strip editorial_team_v.Prelude.contains
    editorial_team_v.Operations.Models.validate_admin_decision
    editorial_team_v.Contracts.require_utc_timestamp
alert-IsHeartbeat = record { result_checked = refl; snapshot_checked = refl }

get-save_example : get_result unstamp kept (text "h1") ≡ ok alert
unfolding save kept editorial_team_v.Operations.Store.to_row
    editorial_team_v.Contracts.require_utc_timestamp editorial_team_v.Operations.Store.insert_row
    find_row editorial_team_v.Operations.Store.row_allowed editorial_team_v.Prelude.text_eq
get-save_example = get-save stamp unstamp unstamp-stamp [] kept alert alert-IsHeartbeat refl

save-accepts_example :
    (find_row alert.id [] ≡ none → is_ok (save stamp [] alert) ≡ true)
    × (find_row alert.id [] ≢ none → save stamp [] alert ≡ err duplicate_result)
save-accepts_example = save-accepts stamp [] alert alert-IsHeartbeat

mark-notify_example :
    ((mark_notification_sent unstamp kept (text "h1")).0
      ≡ ok (record alert { notification_sent = true }))
    × (mark_notification_sent unstamp
          (mark_notification_sent unstamp kept (text "h1")).1
          (text "h1")
        ≡ mark_notification_sent unstamp kept (text "h1"))
unfolding kept get_result editorial_team_v.Contracts.validate_identifier
    editorial_team_v.Prelude.strip editorial_team_v.Prelude.contains find_row
    editorial_team_v.Operations.Store.to_row editorial_team_v.Contracts.require_utc_timestamp
    editorial_team_v.Operations.Store.insert_row editorial_team_v.Operations.Store.row_allowed
    editorial_team_v.Prelude.text_eq editorial_team_v.Operations.Store.to_result make_snapshot
    make_heartbeat editorial_team_v.Operations.Models.validate_admin_decision
mark-notify_example = mark-notify unstamp kept (text "h1") alert refl refl

list_recent-IsOrdered_example :
    (sorted : List Row) × Perm sorted kept
    × IsOrdered NotBefore sorted
    × (list_recent unstamp kept 5 ≡ to_results unstamp (take 5 sorted))
list_recent-IsOrdered_example = list_recent-IsOrdered unstamp kept 5 (omega arith) (omega arith)

evaluate_and_store-InForce_example :
    InForce full_queue policy alert.reason_code
    × (alert.decision ≡ silence ↔ alert.reason_code ≡ system_healthy)
    × (alert.notification_sent ≡ false)
    × (save stamp [] alert ≡ ok kept)
unfolding evaluate_and_store kept editorial_team_v.Contracts.validate_identifier
    editorial_team_v.Prelude.strip editorial_team_v.Prelude.contains expected_admin_assessment
    make_heartbeat editorial_team_v.Operations.Store.to_row
    editorial_team_v.Contracts.require_utc_timestamp editorial_team_v.Operations.Store.insert_row
    find_row editorial_team_v.Operations.Store.row_allowed editorial_team_v.Prelude.text_eq
evaluate_and_store-InForce_example =
    evaluate_and_store-InForce stamp policy [] kept full_queue (text "h1") alert (value pressure)
      (value (text "h1")) refl

abbrev world : World
world = record { assessment = value pressure; identifier = value (text "h1"); notifier = delivered }

operation-Delivered_example :
    Delivered unstamp delivered notify alert
      (operation stamp unstamp policy world [] full_queue (text "h1"))
unfolding evaluate_and_store kept make_snapshot editorial_team_v.Contracts.require_utc_timestamp
    editorial_team_v.Contracts.validate_identifier editorial_team_v.Prelude.strip
    editorial_team_v.Prelude.contains expected_admin_assessment make_heartbeat
    editorial_team_v.Operations.Store.to_row editorial_team_v.Operations.Store.insert_row find_row
    editorial_team_v.Operations.Store.row_allowed editorial_team_v.Prelude.text_eq
operation-Delivered_example =
    operation-Delivered stamp unstamp policy unstamp-stamp world [] kept full_queue (text "h1")
      alert refl refl

abbrev readings : RuntimeQueueStats
readings = record {
  worker_running = true;
  waiting_depth = 1;
  capacity = 4;
  sources =
      record { source = telegram; completed_jobs = 7; failed_jobs = 2; last_success_at = none }
      ∷ [];
}

abbrev telegram_readings : RuntimeSourceStats
telegram_readings = record {
  source = telegram;
  completed_jobs = 7;
  failed_jobs = 2;
  last_success_at = none;
}

-- The clock of the heartbeat is not in UTC.
abbrev late : Datetime
late = record { instant = 2000000; zone = east 3600000000 }

abbrev baseline : Collector
baseline = record { completed_baseline = 5; failed_baseline = 2 }

abbrev series : List Reading
series = record { stats = readings; now = noon } ∷ record { stats = readings; now = noon } ∷ []

windows_total_example :
    (baseline.completed_baseline + sum_of completed_of (collect_all baseline series).0
      ≡ (collect_all baseline series).1.completed_baseline)
    × (baseline.failed_baseline + sum_of failed_of (collect_all baseline series).0
        ≡ (collect_all baseline series).1.failed_baseline)
unfolding collect make_snapshot editorial_team_v.Contracts.require_utc_timestamp
windows_total_example =
    windows_total baseline series
      (refl, omega arith, omega arith, (refl, omega arith, omega arith, tt))
