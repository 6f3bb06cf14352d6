-- ===== src/Runtime/Stats.antt =====
-- `RuntimeSourceStats`, `RuntimeQueueStats` and `RuntimeQueue.stats` of runtime/queue.py.
use editorial_team_v.Prelude.{
  ltb, ◌==◌, if◌then◌else◌, length, any, ok, err, ◌>>=◌, ◌>>◌, reject_if, ℕ, Bool, true, false,
  ◌&&◌, not, Option, none, some, List, [], ◌∷◌,
}
use editorial_team_v.Contracts.{rule, not_utc, Checked, Datetime, is_utc}
use editorial_team_v.Runtime.Queue.{
  RuntimeJobSource, telegram, heartbeat, at_source, Worker, absent, idle, busy, done, crashed,
  RuntimeQueue,
}

pub record RuntimeSourceStats : Type 0 where
  pub source : RuntimeJobSource
  pub completed_jobs : ℕ
  pub failed_jobs : ℕ
  pub last_success_at : Option Datetime

abbrev pub check_last_success : Option Datetime → Checked (Unit {0})
check_last_success none = ok tt
check_last_success (some t) = reject_if (not (is_utc t.zone)) (not_utc "last_success_at")

unfoldable pub make_source_stats : RuntimeSourceStats → Checked RuntimeSourceStats
make_source_stats s = do check_last_success s.last_success_at; ok s

pub record RuntimeQueueStats : Type 0 where
  pub worker_running : Bool
  pub waiting_depth : ℕ
  pub capacity : ℕ
  pub sources : List RuntimeSourceStats

abbrev pub same_source : RuntimeJobSource → RuntimeJobSource → Bool
same_source telegram telegram = true
same_source heartbeat heartbeat = true
same_source _ _ = false

abbrev pub has_source : RuntimeJobSource → List RuntimeSourceStats → Bool
has_source source items = any (λ (i : RuntimeSourceStats). same_source i.source source) items

-- `{item.source for item in self.sources} != set(RuntimeJobSource) or len(...) != ...`
abbrev pub covers_sources : List RuntimeSourceStats → Bool
covers_sources items = has_source telegram items && has_source heartbeat items && length items == 2

unfoldable pub make_stats : RuntimeQueueStats → Checked RuntimeQueueStats
make_stats s = do
  reject_if (s.capacity == 0) (rule "capacity must be a positive integer")
  reject_if (ltb s.capacity s.waiting_depth)
      (rule "waiting_depth must be between zero and capacity")
  reject_if (not (covers_sources s.sources))
      (rule "sources must contain each RuntimeJobSource exactly once")
  ok s

unfoldable pub for_source : RuntimeJobSource → List RuntimeSourceStats → Checked RuntimeSourceStats
for_source source [] = err (rule "Runtime job source is unavailable")
for_source source (i ∷ rest) = if same_source i.source source then ok i else for_source source rest

abbrev pub is_running : Worker → Bool
is_running absent = false
is_running idle = true
is_running (busy j) = true
is_running done = false
is_running crashed = false

module _ {V : Type 0} where
  abbrev pub source_stats : RuntimeQueue V → RuntimeJobSource → Checked RuntimeSourceStats
  source_stats q source = make_source_stats (record {
    source = source;
    completed_jobs = at_source q.completed source;
    failed_jobs = at_source q.failed source;
    last_success_at = at_source q.last_success source;
  })

  unfoldable pub stats : RuntimeQueue V → Checked RuntimeQueueStats
  unfolding make_source_stats make_stats
  stats q = do
    t ← source_stats q telegram
    h ← source_stats q heartbeat
    make_stats (record {
      worker_running = is_running q.worker;
      waiting_depth = length q.items;
      capacity = q.capacity;
      sources = t ∷ h ∷ [];
    })
