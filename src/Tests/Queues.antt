-- ===== src/Tests/Queues.antt =====
-- A queue of two places: a job that is accepted, executed and settled before it closes.
use editorial_team_v.Prelude.{◌+◌, Text, text, none, List, [], ◌∷◌, ◌++◌, length, ◌≡◌, refl, false}
use editorial_team_v.Runtime.Queue.{
  Job, telegram, RuntimeQueue, absent, uncalled, pending, Event, start, submit, get, finish,
  returned, reading, close, joined, worker_awaited, returned_close, init, run,
}
use editorial_team_v.Runtime.Invariant.{total, IsQueue, init-IsQueue, run-IsQueue}
use editorial_team_v.Runtime.Order.{jobs_of, accepted_in, started_in, lost_jobs, run-order}
use editorial_team_v.Runtime.Drain.{close_drains}
use editorial_team_v.Tests.Fixtures.{noon}

abbrev pub fresh_queue : RuntimeQueue Text
fresh_queue = record {
  capacity = 2;
  items = [];
  unfinished = 0;
  worker = absent;
  accepting = false;
  closed = false;
  closing = uncalled;
  completed = record { of_telegram = 0; of_heartbeat = 0 };
  failed = record { of_telegram = 0; of_heartbeat = 0 };
  last_success = record { of_telegram = none; of_heartbeat = none };
  futures = λ _. pending;
}

abbrev job : Job
job = record { job_id = 1; source = telegram; correlation_id = text "u1" }

abbrev session : List (Event Text)
session =
    start
    ∷ submit job
    ∷ get
    ∷ finish (returned (text "done")) (reading noon)
    ∷ close
    ∷ joined
    ∷ get
    ∷ worker_awaited
    ∷ []

run-IsQueue_example : IsQueue (run fresh_queue session)
unfolding init
run-IsQueue_example = run-IsQueue fresh_queue session (init-IsQueue 2 fresh_queue refl)

run-order_example :
    jobs_of fresh_queue.items ++ accepted_in fresh_queue session
    ≡ started_in fresh_queue session ++ jobs_of (run fresh_queue session).items
run-order_example = run-order fresh_queue session

close_drains_example :
    (started_in fresh_queue session ≡ accepted_in fresh_queue session)
    × (total (run fresh_queue session).completed
          + total (run fresh_queue session).failed
          + lost_jobs (run fresh_queue session).worker
        ≡ length (accepted_in fresh_queue session))
    × ((run fresh_queue session).closing ≡ returned_close
        → total (run fresh_queue session).completed + total (run fresh_queue session).failed
          ≡ length (accepted_in fresh_queue session))
unfolding init run editorial_team_v.Runtime.Queue.is_safe_identifier
close_drains_example = close_drains 2 fresh_queue session refl refl
