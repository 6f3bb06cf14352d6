-- ===== src/Runtime/Drain.antt =====
-- What `close` has done when it returns.
use editorial_team_v.Prelude.{
  length, ℕ, ◌+◌, ◌≡◌, refl, sym, ap, ◌∙◌, true, some, List, [], ◌∷◌, ◌++◌, append-nil, arith,
}
use editorial_team_v.Runtime.Queue.{
  stop, absent, RuntimeQueue, Event, start, submit, cancel, get, finish, close, joined,
  worker_awaited, returned_close, init, step, run,
}
use editorial_team_v.Runtime.Invariant.{
  running_jobs, is_stopping, total, IsQueue, init-IsQueue, step-IsQueue,
}
use editorial_team_v.Runtime.Order.{
  jobs_of, accepted_in, started_in, lost_jobs, run-order, accepted_accounted, jobs_of-append,
}

length-eq-zero {ℓ} : {A : Type ℓ} (xs : List A) → length xs ≡ 0 → xs ≡ []
length-eq-zero [] h = refl
length-eq-zero (x ∷ xs) h = absurd (omega arith)

module _ {V : Type 0} where
  record IsDrained (q : RuntimeQueue V) : Type 0 where
    queue : IsQueue q
    open queue use *
    nothing_waits : is_stopping q.closing ≡ true → jobs_of q.items ≡ []
    nothing_runs : is_stopping q.closing ≡ true → running_jobs q.worker ≡ 0
    returned_intact : q.closing ≡ returned_close → lost_jobs q.worker ≡ 0
    fresh : q.worker ≡ absent → jobs_of q.items ≡ []

  init-IsDrained : (c : ℕ) (q : RuntimeQueue V) → init c ≡ some q → IsDrained q
  unfolding init
  init-IsDrained c q h = ground (arith, init-IsQueue c q h)

  step-IsDrained : (q : RuntimeQueue V) (e : Event V) → IsDrained q → IsDrained (step q e).0
  unfolding step
  step-IsDrained q start h = ground (arith, step-IsQueue q start h.queue)
  step-IsDrained q (submit j) h = ground (arith, step-IsQueue q (submit j) h.queue)
  step-IsDrained q (cancel id) h = ground (arith, step-IsQueue q (cancel id) h.queue)
  step-IsDrained q get h = ground (arith, step-IsQueue q get h.queue)
  step-IsDrained q (finish o c) h = ground (arith, step-IsQueue q (finish o c) h.queue)
  step-IsDrained q close h = ground (arith, step-IsQueue q close h.queue)
  step-IsDrained q joined h = ground (
    arith,
    step-IsQueue q joined h.queue,
    jobs_of-append q.items (stop ∷ []),
    length-eq-zero q.items,
    append-nil (jobs_of q.items),
  )
  step-IsDrained q worker_awaited h = ground (arith, step-IsQueue q worker_awaited h.queue)

  run-IsDrained : (q : RuntimeQueue V) (es : List (Event V)) → IsDrained q → IsDrained (run q es)
  unfolding run
  run-IsDrained q [] h = h
  run-IsDrained q (e ∷ es) h = run-IsDrained (step q e).0 es (step-IsDrained q e h)

  init-no_jobs : (c : ℕ) (q : RuntimeQueue V) → init c ≡ some q → jobs_of q.items ≡ []
  unfolding init
  init-no_jobs c q h = ground arith

  -- When the close of a queue that began empty has got past its join, the jobs that were started
  -- are those that were accepted, in order, and the jobs counted as completed or failed are as
  -- many, but for one where an executed job ended the worker, which is in neither count; where the
  -- close has returned without an exception, there is no such job.
  pub close_drains :
      (c : ℕ) (q : RuntimeQueue V) (es : List (Event V))
      → init c ≡ some q
      → is_stopping (run q es).closing ≡ true
      → (started_in q es ≡ accepted_in q es)
        × (total (run q es).completed + total (run q es).failed + lost_jobs (run q es).worker
            ≡ length (accepted_in q es))
        × ((run q es).closing ≡ returned_close
            → total (run q es).completed + total (run q es).failed ≡ length (accepted_in q es))
  close_drains c q es h s =
      let d = run-IsDrained q es (init-IsDrained c q h) in
      let empty = init-no_jobs c q h in
      let order = run-order q es in
      let waits = d.nothing_waits s in
      let runs = d.nothing_runs s in
      let counts : total (run q es).completed
            + total (run q es).failed
            + lost_jobs (run q es).worker
          ≡ length (accepted_in q es) =
        omega (arith, accepted_accounted c q es h, ap length waits, runs) in
      (
        sym (append-nil (started_in q es))
            ∙ ap (λ t. started_in q es ++ t) (sym waits)
            ∙ sym order
            ∙ ap (λ t. t ++ accepted_in q es) empty,
        counts,
        λ r. omega (arith, counts, d.returned_intact r),
      )
