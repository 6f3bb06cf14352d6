-- ===== src/Runtime/Queue.antt =====
-- runtime/queue.py: the bounded FIFO queue and its one worker. The asyncio event loop is a sequence
-- of events: a call of a method, or a point where the worker or `close` goes on after an `await`.
-- `step` gives the state after an event and the exception that the call raises; an event that the
-- state does not enable changes nothing. Futures are kept by job id. Tracing is left out.
use editorial_team_v.Prelude.{
  leb, ◌==◌, if◌then◌else◌, length, all, is_empty, Text, ℕ, ◌+◌, ◌-◌, Bool, true, false, ◌&&◌, ◌||◌,
  not, Option, none, some, List, [], ◌∷◌, ◌++◌,
}
use editorial_team_v.Contracts.{Datetime, is_utc}

pub data RuntimeJobSource : Type 0 where
  telegram heartbeat : RuntimeJobSource

pub data QueueError : Type 0 where
  not_started closed_queue at_capacity invalid_correlation_id worker_unavailable : QueueError

-- A dictionary with the two sources for keys.
pub record PerSource (A : Type 0) : Type 0 where
  pub of_telegram : A
  pub of_heartbeat : A

module _ {A : Type 0} where
  abbrev pub at_source : PerSource A → RuntimeJobSource → A
  at_source d telegram = d.of_telegram
  at_source d heartbeat = d.of_heartbeat

  abbrev pub put_source : PerSource A → RuntimeJobSource → A → PerSource A
  put_source d telegram a = record d { of_telegram = a }
  put_source d heartbeat a = record d { of_heartbeat = a }

pub record Job : Type 0 where
  pub job_id : ℕ
  pub source : RuntimeJobSource
  pub correlation_id : Text

pub data Item : Type 0 where
  queued : Job → Item
  stop : Item

-- The worker task: none yet, waiting in `get`, executing a job, done, or ended by an exception.
pub data Worker : Type 0 where
  absent idle : Worker
  busy : Job → Worker
  done crashed : Worker

-- Where the call of `close` stands: not called, in `join`, in `await worker`, returned, or ended by
-- the worker's exception.
pub data Closing : Type 0 where
  uncalled joining awaiting returned_close failed_close : Closing

-- What the job's operation does: a value, an `Exception`, or a `BaseException` such as a cancellation.
pub data Outcome (V : Type 0) : Type 0 where
  returned : V → Outcome V
  raised : Outcome V
  interrupted : Outcome V

pub data Future (V : Type 0) : Type 0 where
  pending cancelled job_failed : Future V
  fulfilled : V → Future V

-- What `self._clock()` gives.
pub data ClockReading : Type 0 where
  clock_raised not_datetime : ClockReading
  reading : Datetime → ClockReading

pub record RuntimeQueue (V : Type 0) : Type 0 where
  pub capacity : ℕ
  pub items : List Item
  pub unfinished : ℕ
  pub worker : Worker
  pub accepting : Bool
  pub closed : Bool
  pub closing : Closing
  pub completed : PerSource ℕ
  pub failed : PerSource ℕ
  pub last_success : PerSource (Option Datetime)
  pub futures : ℕ → Future V

pub data Event (V : Type 0) : Type 0 where
  start : Event V
  submit : Job → Event V
  cancel : ℕ → Event V
  get : Event V
  finish : Outcome V → ClockReading → Event V
  close : Event V
  joined : Event V
  worker_awaited : Event V

-- `[A-Za-z0-9_.:-]`
abbrev pub is_safe_char : ℕ → Bool
is_safe_char c =
    (leb 65 c && leb c 90)
    || (leb 97 c && leb c 122)
    || (leb 48 c && leb c 57)
    || c == 95
    || c == 46
    || c == 58
    || c == 45

-- `_SAFE_IDENTIFIER.fullmatch` of a nonempty text
unfoldable pub is_safe_identifier : Text → Bool
is_safe_identifier s = not (is_empty s) && all is_safe_char s

abbrev pub is_absent : Worker → Bool
is_absent absent = true
is_absent _ = false

module _ {V : Type 0} where
  abbrev pub update : (ℕ → Future V) → ℕ → Future V → ℕ → Future V
  update futures id f k = if k == id then f else futures k

  -- `if not job.result.done(): ...`
  abbrev pub settle : (ℕ → Future V) → ℕ → Future V → ℕ → Future V
  settle futures id f = elim (futures id) [ pending ↦ update futures id f | _ ↦ futures ]

  unfoldable pub init : ℕ → Option (RuntimeQueue V)
  init capacity =
      if capacity == 0
      then none
      else some (record {
        capacity = capacity;
        items = [];
        unfinished = 0;
        worker = absent;
        accepting = false;
        closed = false;
        closing = uncalled;
        completed = record { of_telegram = 0; of_heartbeat = 0 };
        failed = record { of_telegram = 0; of_heartbeat = 0 };
        last_success = record { of_telegram = none; of_heartbeat = none };
        futures = λ _. pending;
      })

  abbrev start_worker : Worker → RuntimeQueue V → RuntimeQueue V × Option QueueError
  start_worker absent q = (record q { accepting = true; worker = idle }, none)
  start_worker idle q = (q, none)
  start_worker (busy j) q = (q, none)
  start_worker done q = (q, some worker_unavailable)
  start_worker crashed q = (q, some worker_unavailable)

  unfoldable pub start_queue : RuntimeQueue V → RuntimeQueue V × Option QueueError
  start_queue q = if q.closed then (q, some closed_queue) else start_worker q.worker q

  -- `_validate_submission`
  unfoldable pub validate_submission : RuntimeQueue V → Job → Option QueueError
  validate_submission q j =
      if q.closed
      then some closed_queue
      else if not q.accepting
      then some not_started
      else if not (is_safe_identifier j.correlation_id)
      then some invalid_correlation_id
      else none

  -- `put_nowait` and its `QueueFull`
  unfoldable pub enqueue : RuntimeQueue V → Job → RuntimeQueue V × Option QueueError
  enqueue q j = if leb q.capacity (length q.items) then (q, some at_capacity) else (
    record q {
      items = q.items ++ (queued j ∷ []);
      unfinished = q.unfinished + 1;
      futures = update q.futures j.job_id pending;
    },
    none,
  )

  unfoldable pub submit_job : RuntimeQueue V → Job → RuntimeQueue V × Option QueueError
  submit_job q j = elim (validate_submission q j) [ some e ↦ (q, some e) | none ↦ enqueue q j ]

  -- `task_done` after an item, and the worker's next state
  abbrev item_done : RuntimeQueue V → Worker → RuntimeQueue V
  item_done q w = record q { unfinished = q.unfinished - 1; worker = w }

  abbrev take_item : Worker → List Item → RuntimeQueue V → RuntimeQueue V
  take_item idle (queued j ∷ rest) q = record q { items = rest; worker = busy j }
  take_item idle (stop ∷ rest) q = item_done (record q { items = rest }) done
  take_item _ _ q = q

  -- `await self._queue.get()` and the test for the stop item
  unfoldable pub worker_get : RuntimeQueue V → RuntimeQueue V
  worker_get q = take_item q.worker q.items q

  abbrev job_failure : Job → RuntimeQueue V → RuntimeQueue V
  job_failure j q =
      item_done
        (record q {
          failed = put_source q.failed j.source (at_source q.failed j.source + 1);
          futures = settle q.futures j.job_id job_failed;
        })
        idle

  abbrev job_success : Job → V → Datetime → RuntimeQueue V → RuntimeQueue V
  job_success j v t q =
      item_done
        (record q {
          completed = put_source q.completed j.source (at_source q.completed j.source + 1);
          last_success = put_source q.last_success j.source (some t);
          futures = settle q.futures j.job_id (fulfilled v);
        })
        idle

  abbrev execute_value : Job → V → ClockReading → RuntimeQueue V → RuntimeQueue V
  execute_value j v clock_raised q = job_failure j q
  execute_value j v not_datetime q = job_failure j q
  execute_value j v (reading t) q = if is_utc t.zone then job_success j v t q else job_failure j q

  -- `_execute`, from the return of the operation on
  abbrev execute : Job → Outcome V → ClockReading → RuntimeQueue V → RuntimeQueue V
  execute j (returned v) c q = execute_value j v c q
  execute j raised c q = job_failure j q
  execute j interrupted c q = item_done q crashed

  abbrev finish_job : Worker → Outcome V → ClockReading → RuntimeQueue V → RuntimeQueue V
  finish_job (busy j) o c q = execute j o c q
  finish_job _ o c q = q

  unfoldable pub worker_finish : Outcome V → ClockReading → RuntimeQueue V → RuntimeQueue V
  worker_finish o c q = finish_job q.worker o c q

  -- `close` up to its first `await`
  unfoldable pub close_queue : RuntimeQueue V → RuntimeQueue V
  close_queue q = if q.closed then q else record q {
    accepting = false;
    closed = true;
    closing = if is_absent q.worker then returned_close else joining;
  }

  abbrev after_join : Closing → RuntimeQueue V → RuntimeQueue V
  after_join joining q =
      if q.unfinished == 0
      then record q {
        items = q.items ++ (stop ∷ []);
        unfinished = q.unfinished + 1;
        closing = awaiting;
      }
      else q
  after_join _ q = q

  abbrev after_worker : Closing → Worker → RuntimeQueue V → RuntimeQueue V
  after_worker awaiting done q = record q { worker = absent; closing = returned_close }
  after_worker awaiting crashed q = record q { closing = failed_close }
  after_worker _ _ q = q

  unfoldable pub step : RuntimeQueue V → Event V → RuntimeQueue V × Option QueueError
  unfolding start_queue submit_job worker_get worker_finish close_queue validate_submission enqueue
  step q start = start_queue q
  step q (submit j) = submit_job q j
  step q (cancel id) = (record q { futures = settle q.futures id cancelled }, none)
  step q get = (worker_get q, none)
  step q (finish o c) = (worker_finish o c q, none)
  step q close = (close_queue q, none)
  step q joined = (after_join q.closing q, none)
  step q worker_awaited = (after_worker q.closing q.worker q, none)

  unfoldable pub run : RuntimeQueue V → List (Event V) → RuntimeQueue V
  unfolding step
  run q [] = q
  run q (e ∷ es) = run (step q e).0 es
