-- ===== src/Telegram/Lifecycle.antt =====
-- interfaces/telegram.py: the start and the close of the runtime with the optional heartbeat. The
-- calls of the other components are recorded in order; whether a call raises, given those before it,
-- and what, is a parameter.
use editorial_team_v.Prelude.{
  if◌then◌else◌, Option-cases, ◌≡◌, refl, sym, ap, ◌∙◌, inl, inr, Bool, true, false, ◌&&◌, ◌||◌,
  Option, none, some, List, [], ◌∷◌, ◌++◌, append_assoc, append-nil,
}

data Component : Type 0 where
  queue_start store_initialize scheduler_start scheduler_close queue_close service_close : Component

-- Which of the fields that `configure_heartbeat` sets are not `None`.
record Heartbeat : Type 0 where
  has_store : Bool
  has_scheduler : Bool

abbrev no_heartbeat : Heartbeat
no_heartbeat = record { has_store = false; has_scheduler = false }

-- `none` where it is configured already
unfoldable configure_heartbeat : Heartbeat → Option Heartbeat
configure_heartbeat h =
    if h.has_store || h.has_scheduler
    then none
    else some (record { has_store = true; has_scheduler = true })

module _ {X : Type 0} (raises : List Component → Component → Option X) where
  unfoldable call_all : List Component → List Component → List Component × Option X
  call_all [] log = (log, none)
  call_all (c ∷ cs) log =
      let further = call_all cs (log ++ (c ∷ [])) in
      elim (raises log c) [ some x ↦ (log ++ (c ∷ []), some x) | none ↦ further ]

  unfoldable start_runtime : Heartbeat → List Component → List Component × Option X
  unfolding call_all
  start_runtime h log =
      if h.has_store && h.has_scheduler
      then call_all (queue_start ∷ store_initialize ∷ scheduler_start ∷ []) log
      else call_all (queue_start ∷ []) log

  -- `except BaseException as exc: if failure is None: failure = exc`
  unfoldable attempt : Component → List Component × Option X → List Component × Option X
  attempt c (log, failure) =
      (log ++ (c ∷ []), elim failure [ some x ↦ some x | none ↦ raises log c ])

  -- `closable`: the service has a `close` that can be called.
  unfoldable close_parts : Bool → Bool → List Component → List Component × Option X
  unfolding attempt
  close_parts closable has_scheduler log =
      let scheduler = if has_scheduler then attempt scheduler_close (log, none) else (log, none) in
      let drained = attempt queue_close scheduler in
      if closable then attempt service_close drained else drained

  unfoldable close_runtime : Bool → Heartbeat → List Component → List Component × Option X
  unfolding close_parts
  close_runtime closable h log = close_parts closable h.has_scheduler log

  -- The exception of the first call of a list that raises.
  unfoldable first_raised : List Component → List Component → Option X
  first_raised [] log = none
  first_raised (c ∷ cs) log = elim (raises log c) [
    | some x ↦ some x
    | none ↦ first_raised cs (log ++ (c ∷ []))
  ]

  abbrev closing_order : Bool → Bool → List Component
  closing_order closable has_scheduler =
      (if has_scheduler then scheduler_close ∷ [] else [])
      ++ (queue_close ∷ (if closable then service_close ∷ [] else []))

  attempt_all : List Component → List Component × Option X → List Component × Option X
  unfolding attempt
  attempt_all [] done = done
  attempt_all (c ∷ cs) done = attempt_all cs (attempt c done)

  attempt_all-failed :
      (cs log : List Component) (x : X) → attempt_all cs (log, some x) ≡ (log ++ cs, some x)
  unfolding attempt_all
  attempt_all-failed [] log x = ap (λ l. (l, some x)) (sym (append-nil log))
  attempt_all-failed (c ∷ cs) log x =
      attempt_all-failed cs (log ++ (c ∷ [])) x
      ∙ ap (λ l. (l, some x)) (append_assoc log (c ∷ []) cs)

  attempt_all-first_raised :
      (cs log : List Component) → attempt_all cs (log, none) ≡ (log ++ cs, first_raised cs log)
  unfolding attempt_all first_raised
  attempt_all-first_raised [] log = ap (λ l. (l, none)) (sym (append-nil log))
  attempt_all-first_raised (c ∷ cs) log = elim (Option-cases (raises log c)) [
    | inl e ↦
        rw (e, attempt_all, attempt, first_raised)
          (attempt_all-first_raised cs (log ++ (c ∷ []))
            ∙ ap (λ l. (l, first_raised cs (log ++ (c ∷ [])))) (append_assoc log (c ∷ []) cs))
    | inr (x, e) ↦
        rw (e, attempt_all, attempt, first_raised)
          (attempt_all-failed cs (log ++ (c ∷ [])) x
            ∙ ap (λ l. (l, some x)) (append_assoc log (c ∷ []) cs))
  ]

  close_parts-all :
      (closable has_scheduler : Bool) (log : List Component)
      → close_parts closable has_scheduler log
        ≡ attempt_all (closing_order closable has_scheduler) (log, none)
  unfolding close_parts attempt_all
  close_parts-all true true log = refl
  close_parts-all true false log = refl
  close_parts-all false true log = refl
  close_parts-all false false log = refl

  -- The close of the runtime calls the close of the scheduler, if there is one, of the queue and of the
  -- service, if it has one, in this order, whichever of them raise, and then raises what the first of
  -- them raised.
  close_runtime-all :
      (closable : Bool) (h : Heartbeat) (log : List Component)
      → close_runtime closable h log ≡ (
        log ++ closing_order closable h.has_scheduler,
        first_raised (closing_order closable h.has_scheduler) log,
      )
  unfolding close_runtime
  close_runtime-all closable h log =
      close_parts-all closable h.has_scheduler log
      ∙ attempt_all-first_raised (closing_order closable h.has_scheduler) log
