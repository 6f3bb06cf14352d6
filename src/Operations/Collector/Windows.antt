-- ===== src/Operations/Collector/Windows.antt =====
-- What the windows of a sequence of heartbeats add up to.
use editorial_team_v.Prelude.{
  leb, ok, err, is_ok, ℕ, ◌+◌, ◌≤◌, ◌≡◌, Bool, true, Option, none, some, List, [], ◌∷◌, arith,
}
use editorial_team_v.Contracts.{Checked, Datetime, require_utc_timestamp, is_utc}
use editorial_team_v.Runtime.Queue.{RuntimeQueue}
use editorial_team_v.Runtime.Stats.{stats}
use editorial_team_v.Runtime.Invariant.{IsQueue}
use editorial_team_v.Operations.Models.{OperationalSnapshot, make_snapshot}
use editorial_team_v.Operations.Collector.{Collector, collect, Reading, collect_all}

abbrev pub completed_of : Checked OperationalSnapshot → ℕ
completed_of (ok s) = s.completed_jobs
completed_of (err e) = 0

abbrev pub failed_of : Checked OperationalSnapshot → ℕ
failed_of (ok s) = s.failed_jobs
failed_of (err e) = 0

abbrev pub sum_of : (Checked OperationalSnapshot → ℕ) → List (Checked OperationalSnapshot) → ℕ
sum_of f [] = 0
sum_of f (s ∷ ss) = f s + sum_of f ss

-- Every snapshot is accepted, and no counter falls.
abbrev pub Grows : Collector → List Reading → Type 0
Grows c [] = Unit
Grows c (r ∷ rs) =
    (is_ok (collect c (ok r.stats) r.now).0 ≡ true)
    × (c.completed_baseline ≤ (collect c (ok r.stats) r.now).1.completed_baseline)
    × (c.failed_baseline ≤ (collect c (ok r.stats) r.now).1.failed_baseline)
    × Grows (collect c (ok r.stats) r.now).1 rs

collect-window :
    (c : Collector) (r : Reading)
    → is_ok (collect c (ok r.stats) r.now).0 ≡ true
    → c.completed_baseline ≤ (collect c (ok r.stats) r.now).1.completed_baseline
    → c.failed_baseline ≤ (collect c (ok r.stats) r.now).1.failed_baseline
    → (c.completed_baseline + completed_of (collect c (ok r.stats) r.now).0
        ≡ (collect c (ok r.stats) r.now).1.completed_baseline)
      × (c.failed_baseline + failed_of (collect c (ok r.stats) r.now).0
          ≡ (collect c (ok r.stats) r.now).1.failed_baseline)
unfolding collect make_snapshot
collect-window c r h hc hf = ground arith

-- Over a sequence of readings whose snapshots are accepted and whose counters do not fall, the
-- windows of completed and of failed jobs add up to the difference between the last and the first
-- baseline.
pub windows_total :
    (c : Collector) (rs : List Reading)
    → Grows c rs
    → (c.completed_baseline + sum_of completed_of (collect_all c rs).0
        ≡ (collect_all c rs).1.completed_baseline)
      × (c.failed_baseline + sum_of failed_of (collect_all c rs).0
          ≡ (collect_all c rs).1.failed_baseline)
unfolding collect_all
windows_total c [] g = (omega arith, omega arith)
windows_total c (r ∷ rs) (h, hc, hf, g) =
    let (wc, wf) = collect-window c r h hc hf in
    let (tc, tf) = windows_total (collect c (ok r.stats) r.now).1 rs g in
    (omega (arith, wc, tc), omega (arith, wf, tf))

abbrev pub not_after : Option Datetime → Datetime → Bool
not_after none now = true
not_after (some t) now = leb t.instant now.instant

-- The snapshot of a well-formed queue is accepted at a UTC time that is not before the last success
-- of a Telegram job.
pub collect-ok :
    {V : Type 0} (c : Collector) (q : RuntimeQueue V) (now : Datetime)
    → IsQueue q
    → is_utc now.zone ≡ true
    → not_after q.last_success.of_telegram now ≡ true
    → is_ok (collect c (stats q) now).0 ≡ true
unfolding collect stats make_snapshot require_utc_timestamp
collect-ok c q now h u n = ground arith
