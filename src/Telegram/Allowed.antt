-- ===== src/Telegram/Allowed.antt =====
-- interfaces/telegram.py: a turn and the command `start` call the bot for allowed chats only.
use editorial_team_v.Prelude.{
  Bool-cases, Option-cases, All, All-append, Result, ok, err, Result-cases, Text, ℕ, zero, suc, ◌+◌,
  ◌≡◌, inl, inr, Bool, true, Option, none, some, List, [], ◌∷◌, arith,
}
use editorial_team_v.Domain.Conversation.{Message}
use editorial_team_v.Telegram.{
  Integer, conversation_id_for_chat, chunk_text, max_telegram_text_length,
}
use editorial_team_v.Telegram.Adapter.{
  Action, Adapter, Update, PendingTurn, send_message, send_typing, sleep, bot_failed, bot_raised,
  and_then, perform, is_allowed, supported_chat, generic_turn_error, Chat,
}
use editorial_team_v.Telegram.Sending.{
  process_turn, send_chunks, send_content, hand_off, send_from, send_messages,
}
use editorial_team_v.Telegram.Handlers.{start_chat}

module _ {D : Type 0} (adapter : Adapter D) where
  abbrev pub IsToAllowed : Action D → Type 0
  IsToAllowed (send_message chat _ _) = is_allowed adapter chat ≡ true
  IsToAllowed (send_typing chat _) = is_allowed adapter chat ≡ true
  IsToAllowed (sleep _) = Unit {0}

  abbrev pub IsAllowedTurn : PendingTurn → Type 0
  IsAllowedTurn turn = is_allowed adapter turn.chat_id ≡ true

  abbrev pub Scoped : List (Action D) → Type 0
  Scoped log = All IsToAllowed log

  pub and_then-Scoped :
      {E A B : Type 0} (step : List (Action D) × Result E A)
      (next : A → List (Action D) → List (Action D) × Result E B)
      → Scoped step.0
      → ((a : A) → Scoped (next a step.0).0)
      → Scoped (and_then step next).0
  unfolding and_then
  and_then-Scoped (log, ok a) next h k = k a
  and_then-Scoped (log, err e) next h k = h

  module _ (bot : List (Action D) → Action D → Bool) where
    pub perform-Scoped :
        {E : Type 0} (e : E) (a : Action D) (log : List (Action D))
        → IsToAllowed a
        → Scoped log
        → Scoped (perform bot e a log).0
    unfolding perform
    perform-Scoped e a log h k = All-append IsToAllowed log (a ∷ []) k (h, tt)

    module _ (chat : Integer) (thread : Option Integer)
        (allowed : is_allowed adapter chat ≡ true) where
      send_chunks-Scoped :
          (cs : List Text) (n : ℕ) (log : List (Action D))
          → Scoped log
          → Scoped (send_chunks bot chat thread cs n log).0
      unfolding send_chunks
      send_chunks-Scoped [] n log h = h
      send_chunks-Scoped (c ∷ cs) n log h =
          let step = perform bot bot_failed (send_message chat thread c) log in
          let kept = perform-Scoped bot_failed (send_message chat thread c) log allowed h in
          and_then-Scoped step (λ _ done. send_chunks bot chat thread cs (n + 1) done) kept
            (λ _. send_chunks-Scoped cs (n + 1) step.0 kept)

      send_content-Scoped :
          (t : Text) (n : ℕ) (log : List (Action D))
          → Scoped log
          → Scoped (send_content bot chat thread t n log).0
      unfolding send_content
      send_content-Scoped t n log h = elim (Result-cases (chunk_text t max_telegram_text_length)) [
        | inl (cs, p) ↦ rw (p, send_content) (send_chunks-Scoped cs n log h)
        | inr (e, p) ↦ rw (p, send_content) h
      ]

      hand_off-Scoped :
          (delay : D) (index : ℕ) (log : List (Action D))
          → Scoped log
          → Scoped (hand_off bot delay chat thread index log).0
      unfolding hand_off
      hand_off-Scoped delay zero log h = h
      hand_off-Scoped delay (suc index) log h =
          let step = perform bot bot_failed (send_typing chat thread) log in
          let kept = perform-Scoped bot_failed (send_typing chat thread) log allowed h in
          and_then-Scoped step (λ _ done. perform bot bot_failed (sleep delay) done) kept
            (λ _. perform-Scoped bot_failed (sleep delay) step.0 tt kept)

      send_from-Scoped :
          (delay : D) (index : ℕ) (ms : List Message) (n : ℕ) (log : List (Action D))
          → Scoped log
          → Scoped (send_from bot delay chat thread index ms n log).0
      unfolding send_from
      send_from-Scoped delay index [] n log h = h
      send_from-Scoped delay index (m ∷ ms) n log h =
          let start = hand_off bot delay chat thread index log in
          let content =
            λ (ready : List (Action D)). send_content bot chat thread m.content n ready in
          let further = λ (j : ℕ) (done : List (Action D)).
            send_from bot delay chat thread (suc index) ms j done in
          let kept = hand_off-Scoped delay index log h in
          let sent = send_content-Scoped m.content n start.0 kept in
          and_then-Scoped start (λ _ ready. and_then (content ready) further) kept
            (λ _.
              and_then-Scoped (content start.0) further sent
                (λ j. send_from-Scoped delay (suc index) ms j (content start.0).0 sent))

    pub process_turn-Scoped :
        (service : Text → Text → Option (List Message)) (turn : PendingTurn) (log : List (Action D))
        → IsAllowedTurn turn
        → Scoped log
        → Scoped (process_turn bot adapter service turn log).0
    unfolding process_turn send_messages
    process_turn-Scoped service turn log allowed h =
        elim (Option-cases
          (service (conversation_id_for_chat turn.chat_id turn.thread_id) turn.body)) [
            | inl e ↦
                rw (e, process_turn)
                  (perform-Scoped bot_failed (send_message turn.chat_id none generic_turn_error) log
                    allowed h)
            | inr (ms, e) ↦
                let kept =
                  send_from-Scoped turn.chat_id turn.thread_id allowed adapter.handoff_delay 0 ms 0
                    log h in
                rw (e, process_turn)
                  (and_then-Scoped (send_messages bot adapter turn.chat_id turn.thread_id ms log)
                    (λ _ done. (done, ok tt)) kept (λ _. kept))
          ]

    pub supported_chat-allowed :
        (chat : Chat)
        → supported_chat adapter (some chat) ≡ true
        → is_allowed adapter chat.id ≡ true
    unfolding supported_chat
    supported_chat-allowed chat h = ground arith

    pub start_chat-Scoped :
        (u : Update) (log : List (Action D)) → Scoped log → Scoped (start_chat bot adapter u log).0
    unfolding start_chat
    start_chat-Scoped u log h = elim (Option-cases u.effective_chat) [
      | inl e ↦ rw (e, start_chat) h
      | inr (chat, e) ↦ elim (Bool-cases (supported_chat adapter (some chat))) [
        | inl b ↦
            rw (e, b, start_chat)
              (perform-Scoped bot_raised _ log (supported_chat-allowed chat b) h)
        | inr b ↦ rw (e, b, start_chat) h
      ]
    ]
