-- ===== src/Telegram/Sending.antt =====
-- interfaces/telegram.py: `_send_messages`, and `_process_turn`, which is the operation of a job.
use editorial_team_v.Prelude.{
  Result, ok, err, Text, ℕ, zero, suc, ◌+◌, Bool, Option, none, some, List, [], ◌∷◌,
}
use editorial_team_v.Domain.Conversation.{Message}
use editorial_team_v.Telegram.{
  Integer, conversation_id_for_chat, chunk_text, max_telegram_text_length,
}
use editorial_team_v.Telegram.Adapter.{
  Action, send_message, send_typing, sleep, TurnError, bot_failed, unsendable, Adapter, PendingTurn,
  generic_turn_error, and_then, perform,
}

module _ {D : Type 0} (bot : List (Action D) → Action D → Bool) where
  -- The inner loop of `_send_messages`; `n` is `chunk_count`.
  unfoldable pub send_chunks :
      Integer
      → Option Integer
      → List Text
      → ℕ
      → List (Action D)
      → List (Action D) × Result TurnError ℕ
  unfolding perform and_then
  send_chunks chat thread [] n log = (log, ok n)
  send_chunks chat thread (c ∷ cs) n log =
      and_then (perform bot bot_failed (send_message chat thread c) log)
        (λ _ done. send_chunks chat thread cs (n + 1) done)

  unfoldable pub send_content :
      Integer → Option Integer → Text → ℕ → List (Action D) → List (Action D) × Result TurnError ℕ
  unfolding send_chunks
  send_content chat thread content n log = elim (chunk_text content max_telegram_text_length) [
    | err e ↦ (log, err (unsendable e))
    | ok cs ↦ send_chunks chat thread cs n log
  ]

  -- `if index: ...`
  unfoldable pub hand_off :
      D
      → Integer
      → Option Integer
      → ℕ
      → List (Action D)
      → List (Action D) × Result TurnError (Unit {0})
  unfolding perform and_then
  hand_off delay chat thread zero log = (log, ok tt)
  hand_off delay chat thread (suc index) log =
      and_then (perform bot bot_failed (send_typing chat thread) log)
        (λ _ done. perform bot bot_failed (sleep delay) done)

  unfoldable pub send_from :
      D
      → Integer
      → Option Integer
      → ℕ
      → List Message
      → ℕ
      → List (Action D)
      → List (Action D) × Result TurnError ℕ
  unfolding send_content hand_off and_then
  send_from delay chat thread index [] n log = (log, ok n)
  send_from delay chat thread index (m ∷ ms) n log =
      and_then (hand_off delay chat thread index log) (λ _ ready.
        and_then (send_content chat thread m.content n ready)
          (λ k done. send_from delay chat thread (suc index) ms k done))

  unfoldable pub send_messages :
      Adapter D
      → Integer
      → Option Integer
      → List Message
      → List (Action D)
      → List (Action D) × Result TurnError ℕ
  unfolding send_from
  send_messages adapter chat thread ms log = send_from adapter.handoff_delay chat thread 0 ms 0 log

  -- `_process_turn`, which is the job's operation
  unfoldable pub process_turn :
      Adapter D
      → (Text → Text → Option (List Message))
      → PendingTurn
      → List (Action D)
      → List (Action D) × Result TurnError (Unit {0})
  unfolding send_messages conversation_id_for_chat and_then perform
  process_turn adapter service turn log =
      elim (service (conversation_id_for_chat turn.chat_id turn.thread_id) turn.body) [
        | none ↦ perform bot bot_failed (send_message turn.chat_id none generic_turn_error) log
        | some ms ↦
            and_then (send_messages adapter turn.chat_id turn.thread_id ms log)
              (λ _ done. (done, ok tt))
      ]
