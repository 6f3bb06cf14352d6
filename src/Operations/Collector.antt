-- ===== src/Operations/Collector.antt =====
-- operations/collector.py: cumulative counters of the product's jobs as windows between heartbeats.
pub mod Windows
use editorial_team_v.Prelude.{leb, if◌then◌else◌, ok, err, ℕ, ◌-◌, List, [], ◌∷◌}
use editorial_team_v.Contracts.{Checked, Datetime}
use editorial_team_v.Runtime.Queue.{telegram}
use editorial_team_v.Runtime.Stats.{RuntimeSourceStats, RuntimeQueueStats, for_source}
use editorial_team_v.Operations.Models.{OperationalSnapshot, make_snapshot}

-- `_PRODUCT_SOURCES` holds `telegram` alone, so each baseline is one number.
pub record Collector : Type 0 where
  pub completed_baseline : ℕ
  pub failed_baseline : ℕ

abbrev pub new_collector : Collector
new_collector = record { completed_baseline = 0; failed_baseline = 0 }

unfoldable pub delta : ℕ → ℕ → ℕ
delta current baseline = if leb baseline current then current - baseline else current

-- The loop over the sources, and the snapshot. The baselines advance before the snapshot is checked,
-- so they have advanced also where it is refused.
unfoldable pub collect_source :
    Collector
    → RuntimeQueueStats
    → Checked RuntimeSourceStats
    → Datetime
    → Checked OperationalSnapshot × Collector
unfolding delta
collect_source c s (err e) now = (err e, c)
collect_source c s (ok current) now = (
  make_snapshot (record {
    observed_at = now;
    worker_running = s.worker_running;
    queue_depth = s.waiting_depth;
    queue_capacity = s.capacity;
    completed_jobs = delta current.completed_jobs c.completed_baseline;
    failed_jobs = delta current.failed_jobs c.failed_baseline;
    last_success_at = current.last_success_at;
  }),
  record { completed_baseline = current.completed_jobs; failed_baseline = current.failed_jobs },
)

unfoldable pub collect :
    Collector → Checked RuntimeQueueStats → Datetime → Checked OperationalSnapshot × Collector
unfolding collect_source for_source
collect c (err e) now = (err e, c)
collect c (ok s) now = collect_source c s (for_source telegram s.sources) now

pub record Reading : Type 0 where
  pub stats : RuntimeQueueStats
  pub now : Datetime

-- The snapshots of a sequence of heartbeats, and the collector after them.
unfoldable pub collect_all :
    Collector → List Reading → List (Checked OperationalSnapshot) × Collector
collect_all c [] = ([], c)
collect_all c (r ∷ rs) =
    let (snapshot, next) = collect c (ok r.stats) r.now in
    let (snapshots, last) = collect_all next rs in (snapshot ∷ snapshots, last)
