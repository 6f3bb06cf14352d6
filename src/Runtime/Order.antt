-- ===== src/Runtime/Order.antt =====
-- Which jobs a queue accepts and starts over a sequence of events, and in which order.
use editorial_team_v.Prelude.{
  length, length-append, ℕ, ◌+◌, ◌≡◌, refl, sym, ap, ◌∙◌, Option, none, some, List, [], ◌∷◌, ◌++◌,
  append_assoc, append-nil, arith,
}
use editorial_team_v.Runtime.Queue.{
  Job, Item, queued, stop, Worker, idle, crashed, QueueError, RuntimeQueue, Event, start, submit,
  cancel, get, finish, close, joined, worker_awaited, init, step, run,
}
use editorial_team_v.Runtime.Invariant.{running_jobs, total}

abbrev pub jobs_of : List Item → List Job
jobs_of [] = []
jobs_of (queued j ∷ rest) = j ∷ jobs_of rest
jobs_of (stop ∷ rest) = jobs_of rest

abbrev if_accepted : Option QueueError → Job → List Job
if_accepted none j = j ∷ []
if_accepted (some e) j = []

abbrev next_job : Worker → List Item → List Job
next_job idle (queued j ∷ rest) = j ∷ []
next_job _ _ = []

-- The job that a crash of the worker left in neither counter, its future pending.
abbrev pub lost_jobs : Worker → ℕ
lost_jobs crashed = 1
lost_jobs _ = 0

pub jobs_of-append : (xs ys : List Item) → jobs_of (xs ++ ys) ≡ jobs_of xs ++ jobs_of ys
jobs_of-append [] ys = refl
jobs_of-append (queued j ∷ xs) ys = ap (λ t. j ∷ t) (jobs_of-append xs ys)
jobs_of-append (stop ∷ xs) ys = jobs_of-append xs ys

module _ {V : Type 0} where
  abbrev pub accepted_by : RuntimeQueue V → Event V → List Job
  accepted_by q (submit j) = if_accepted (step q (submit j)).1 j
  accepted_by q _ = []

  abbrev pub started_by : RuntimeQueue V → Event V → List Job
  started_by q get = next_job q.worker q.items
  started_by q _ = []

  pub accepted_in : RuntimeQueue V → List (Event V) → List Job
  accepted_in q [] = []
  accepted_in q (e ∷ es) = accepted_by q e ++ accepted_in (step q e).0 es

  pub started_in : RuntimeQueue V → List (Event V) → List Job
  started_in q [] = []
  started_in q (e ∷ es) = started_by q e ++ started_in (step q e).0 es

  -- The jobs that were started and run no more: counted as completed or failed, or lost by a crash.
  abbrev pub ended : RuntimeQueue V → ℕ
  ended q = total q.completed + total q.failed + lost_jobs q.worker

  step-order :
      (q : RuntimeQueue V) (e : Event V)
      → jobs_of q.items ++ accepted_by q e ≡ started_by q e ++ jobs_of (step q e).0.items
  unfolding step
  step-order q start = ground (arith, append-nil (jobs_of q.items))
  step-order q (submit j) =
      ground (arith, append-nil (jobs_of q.items), jobs_of-append q.items (queued j ∷ []))
  step-order q (cancel id) = append-nil (jobs_of q.items)
  step-order q get = ground (arith, append-nil (jobs_of q.items))
  step-order q (finish o c) = ground (arith, append-nil (jobs_of q.items))
  step-order q close = ground (arith, append-nil (jobs_of q.items))
  step-order q joined =
      ground (arith, append-nil (jobs_of q.items), jobs_of-append q.items (stop ∷ []))
  step-order q worker_awaited = ground (arith, append-nil (jobs_of q.items))

  step-ended :
      (q : RuntimeQueue V) (e : Event V)
      → ended (step q e).0 + running_jobs (step q e).0.worker
        ≡ ended q + running_jobs q.worker + length (started_by q e)
  unfolding step
  step-ended q start = ground arith
  step-ended q (submit j) = ground arith
  step-ended q (cancel id) = ground arith
  step-ended q get = ground arith
  step-ended q (finish o c) = ground arith
  step-ended q close = ground arith
  step-ended q joined = ground arith
  step-ended q worker_awaited = ground arith

  -- Jobs are first in, first out: the jobs that waited and then those that are accepted in a
  -- sequence of events are the jobs that are started in it, in that order, and then the jobs that
  -- wait at its end.
  pub run-order :
      (q : RuntimeQueue V) (es : List (Event V))
      → jobs_of q.items ++ accepted_in q es ≡ started_in q es ++ jobs_of (run q es).items
  unfolding run accepted_in started_in
  run-order q [] = append-nil (jobs_of q.items)
  run-order q (e ∷ es) =
      sym (append_assoc (jobs_of q.items) (accepted_by q e) (accepted_in (step q e).0 es))
      ∙ ap (λ t. t ++ accepted_in (step q e).0 es) (step-order q e)
      ∙ append_assoc (started_by q e) (jobs_of (step q e).0.items) (accepted_in (step q e).0 es)
      ∙ ap (λ t. started_by q e ++ t) (run-order (step q e).0 es)
      ∙ sym (
          append_assoc (started_by q e) (started_in (step q e).0 es)
            (jobs_of (run (step q e).0 es).items))

  pub run-ended :
      (q : RuntimeQueue V) (es : List (Event V))
      → ended (run q es) + running_jobs (run q es).worker
        ≡ ended q + running_jobs q.worker + length (started_in q es)
  unfolding run started_in
  run-ended q [] = omega arith
  run-ended q (e ∷ es) = omega (
    arith,
    step-ended q e,
    run-ended (step q e).0 es,
    length-append (started_by q e) (started_in (step q e).0 es),
  )

  -- In a queue that began empty, the accepted jobs are as many as the ended, the running and the
  -- waiting jobs together.
  pub accepted_accounted :
      (c : ℕ) (q : RuntimeQueue V) (es : List (Event V))
      → init c ≡ some q
      → length (accepted_in q es)
        ≡ ended (run q es) + running_jobs (run q es).worker + length (jobs_of (run q es).items)
  unfolding init
  accepted_accounted c q es h = ground (
    arith,
    run-ended q es,
    ap length (run-order q es),
    length-append (started_in q es) (jobs_of (run q es).items),
  )
