-- ===== src/Telegram/Handlers.antt =====
-- interfaces/telegram.py: the handlers of an update, `start` and `handle_text`. The latter awaits the result
-- of its job: what it raises is settled by the future of the job, when other events have settled it.
use editorial_team_v.Prelude.{
  if◌then◌else◌, Result, ok, err, Text, ℕ, Bool, not, Option, none, some, List,
}
use editorial_team_v.Runtime.Queue.{
  Future, pending, fulfilled, job_failed, cancelled, RuntimeQueue, Job, QueueError, telegram,
  at_capacity, submit_job,
}
use editorial_team_v.Telegram.{Integer}
use editorial_team_v.Telegram.Adapter.{
  Update, Action, send_message, HandlerError, refused, bot_raised, job_raised, job_cancelled,
  Adapter, PendingTurn, Handling, ignored, turned_away, accepted, onboarding_message,
  busy_turn_error, trace_for_update, supported_chat, and_then, perform,
}

module _ {V : Type 0} where
  -- `return await job.result`: nothing as long as the future is pending
  unfoldable pub await_result : Future V → Option (Result HandlerError (Unit {0}))
  await_result pending = none
  await_result (fulfilled v) = some (ok tt)
  await_result job_failed = some (err job_raised)
  await_result cancelled = some (err job_cancelled)

  unfoldable pub finish_text :
      (ℕ → Future V) → Result HandlerError Handling → Option (Result HandlerError (Unit {0}))
  unfolding await_result
  finish_text futures (ok ignored) = some (ok tt)
  finish_text futures (ok turned_away) = some (ok tt)
  finish_text futures (ok (accepted j turn)) = await_result (futures j.job_id)
  finish_text futures (err e) = some (err e)

module _ {D : Type 0} (bot : List (Action D) → Action D → Bool) where
  -- `start`
  unfoldable pub start_chat :
      Adapter D → Update → List (Action D) → List (Action D) × Result HandlerError (Unit {0})
  unfolding supported_chat perform
  start_chat adapter u log = elim u.effective_chat [
    | none ↦ (log, ok tt)
    | some chat ↦
        let thread : Option Integer = elim u.effective_message [
          | none ↦ none
          | some m ↦ m.message_thread_id
        ] in
        if supported_chat adapter (some chat)
        then perform bot bot_raised (send_message chat.id thread onboarding_message) log
        else (log, ok tt)
  ]

  -- What `handle_text` does after `submit`, with the exception that it raised, if any.
  unfoldable pub after_submit :
      Option QueueError
      → Job
      → PendingTurn
      → List (Action D)
      → List (Action D) × Result HandlerError Handling
  unfolding perform and_then
  after_submit none j turn log = (log, ok (accepted j turn))
  after_submit (some at_capacity) j turn log =
      and_then (perform bot bot_raised (send_message turn.chat_id none busy_turn_error) log)
        (λ _ done. (done, ok turned_away))
  after_submit (some e) j turn log = (log, err (refused e))

  module _ {V : Type 0} where
    unfoldable pub submit_turn :
        RuntimeQueue V
        → Job
        → PendingTurn
        → List (Action D)
        → RuntimeQueue V × (List (Action D) × Result HandlerError Handling)
    unfolding submit_job after_submit
    submit_turn q j turn log = ((submit_job q j).0, after_submit (submit_job q j).1 j turn log)

    -- `handle_text` up to the await of its job's result; `job_id` is the identity of the job.
    unfoldable pub accept_text :
        Adapter D
        → Text
        → ℕ
        → Update
        → RuntimeQueue V
        → List (Action D)
        → RuntimeQueue V × (List (Action D) × Result HandlerError Handling)
    unfolding supported_chat submit_turn trace_for_update
    accept_text adapter uuid job_id u q log = elim u.effective_chat [
      | none ↦ (q, (log, ok ignored))
      | some chat ↦ elim u.effective_message [
        | none ↦ (q, (log, ok ignored))
        | some m ↦ elim m.body [
          | none ↦ (q, (log, ok ignored))
          | some body ↦
              if not (supported_chat adapter (some chat))
              then (q, (log, ok ignored))
              else submit_turn q
                  (record {
                    job_id = job_id;
                    source = telegram;
                    correlation_id = trace_for_update uuid u.update_id;
                  })
                  (record { chat_id = chat.id; thread_id = m.message_thread_id; body = body }) log
        ]
      ]
    ]

    -- How the call of `handle_text` ends, with the futures at a later time, if it has ended by then.
    unfoldable pub handle_text :
        Adapter D
        → Text
        → ℕ
        → Update
        → RuntimeQueue V
        → List (Action D)
        → (ℕ → Future V)
        → Option (Result HandlerError (Unit {0}))
    unfolding accept_text finish_text
    handle_text adapter uuid job_id u q log futures =
        finish_text futures (accept_text adapter uuid job_id u q log).1.1
