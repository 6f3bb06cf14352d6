-- ===== src/Runtime/Invariant.antt =====
-- What holds of a queue between two events.
use editorial_team_v.Prelude.{
  length, length-append, is_ok, ℕ, ◌+◌, ◌≤◌, ◌≡◌, ◌↔◌, Bool, true, false, Option, none, some, List,
  [], ◌∷◌, arith,
}
use editorial_team_v.Contracts.{Datetime, is_utc}
use editorial_team_v.Runtime.Queue.{
  PerSource, queued, stop, Worker, absent, busy, Closing, uncalled, awaiting, returned_close,
  failed_close, RuntimeQueue, Event, start, submit, cancel, get, finish, close, joined,
  worker_awaited, init, step, run,
}
use editorial_team_v.Runtime.Stats.{stats}

-- The job that the worker executes, as a count.
abbrev pub running_jobs : Worker → ℕ
running_jobs (busy j) = 1
running_jobs _ = 0

abbrev pub total : PerSource ℕ → ℕ
total d = d.of_telegram + d.of_heartbeat

abbrev pub is_utc_success : Option Datetime → Bool
is_utc_success none = true
is_utc_success (some t) = is_utc t.zone

abbrev pub is_stopping : Closing → Bool
is_stopping awaiting = true
is_stopping returned_close = true
is_stopping failed_close = true
is_stopping _ = false

module _ {V : Type 0} where
  pub record IsQueue (q : RuntimeQueue V) : Type 0 where
    pub capacity_positive : 1 ≤ q.capacity
    pub bounded : length q.items ≤ q.capacity
    pub counted : q.unfinished ≡ length q.items + running_jobs q.worker
    pub open_iff : q.closed ≡ false ↔ q.closing ≡ uncalled
    pub accepts_open : q.accepting ≡ true → q.closed ≡ false
    pub idle_before_start : q.worker ≡ absent → q.accepting ≡ false
    pub telegram_utc : is_utc_success q.last_success.of_telegram ≡ true
    pub heartbeat_utc : is_utc_success q.last_success.of_heartbeat ≡ true

  pub init-IsQueue : (c : ℕ) (q : RuntimeQueue V) → init c ≡ some q → IsQueue q
  unfolding init
  init-IsQueue c q h = ground arith

  pub step-IsQueue : (q : RuntimeQueue V) (e : Event V) → IsQueue q → IsQueue (step q e).0
  unfolding step
  step-IsQueue q start h = ground arith
  step-IsQueue q (submit j) h = ground (arith, length-append q.items (queued j ∷ []))
  step-IsQueue q (cancel id) h = ground arith
  step-IsQueue q get h = ground arith
  step-IsQueue q (finish o c) h = ground arith
  step-IsQueue q close h = ground arith
  step-IsQueue q joined h = ground (arith, length-append q.items (stop ∷ []))
  step-IsQueue q worker_awaited h = ground arith

  -- Any sequence of events keeps a well-formed runtime queue well-formed: no more items wait than
  -- its capacity, `unfinished` counts the waiting items and the running job, it is open exactly
  -- while its close was not called, it accepts only while it is open and has a worker, and the
  -- times of its last successes are in UTC.
  pub run-IsQueue : (q : RuntimeQueue V) (es : List (Event V)) → IsQueue q → IsQueue (run q es)
  unfolding run
  run-IsQueue q [] h = h
  run-IsQueue q (e ∷ es) h = run-IsQueue (step q e).0 es (step-IsQueue q e h)

  -- The statistics of a well-formed queue are accepted.
  pub stats-ok : (q : RuntimeQueue V) → IsQueue q → is_ok (stats q) ≡ true
  unfolding stats
  stats-ok q h = ground arith
