-- ===== src/Telegram/Scope.antt =====
-- interfaces/telegram.py: the bot is called for allowed chats only.
use editorial_team_v.Prelude.{
  Bool-cases, Option-cases, All, All-append, Result, ok, err, Text, ℕ, inl, inr, Bool, Option, none,
  some, List, [], ◌∷◌,
}
use editorial_team_v.Domain.Conversation.{Message}
use editorial_team_v.Runtime.Queue.{
  RuntimeQueue, Job, QueueError, at_capacity, not_started, closed_queue, invalid_correlation_id,
  worker_unavailable,
}
use editorial_team_v.Telegram.Adapter.{
  Action, Adapter, Update, PendingTurn, Handling, HandlerError, ignored, turned_away, accepted,
  send_message, bot_raised, and_then, perform, supported_chat, busy_turn_error,
}
use editorial_team_v.Telegram.Handlers.{accept_text, after_submit, submit_turn}
use editorial_team_v.Telegram.Session.{
  Session, Happening, commanded, received, queue_event, executed, admit, execute_next, receive,
  happen, serve,
}
use editorial_team_v.Telegram.Allowed.{
  IsToAllowed, IsAllowedTurn, Scoped, perform-Scoped, process_turn-Scoped, supported_chat-allowed,
  start_chat-Scoped,
}

module _ {D : Type 0} (adapter : Adapter D) where
  -- What may be said of an accepted turn.
  Admits : Result HandlerError Handling → Type 0
  Admits (ok ignored) = Unit {0}
  Admits (ok turned_away) = Unit {0}
  Admits (ok (accepted j turn)) = IsAllowedTurn adapter turn
  Admits (err e) = Unit {0}

  admit-All :
      (turns : List PendingTurn) (r : Result HandlerError Handling)
      → All (IsAllowedTurn adapter) turns
      → Admits r
      → All (IsAllowedTurn adapter) (admit turns r)
  unfolding admit Admits
  admit-All turns (ok ignored) h a = h
  admit-All turns (ok turned_away) h a = h
  admit-All turns (ok (accepted j turn)) h a =
      All-append (IsAllowedTurn adapter) turns (turn ∷ []) h (a, tt)
  admit-All turns (err e) h a = h

  after_submit-Scoped :
      (bot : List (Action D) → Action D → Bool) (e : Option QueueError) (j : Job)
      (turn : PendingTurn) (log : List (Action D))
      → IsAllowedTurn adapter turn
      → Scoped adapter log
      → Scoped adapter (after_submit bot e j turn log).0 × Admits (after_submit bot e j turn log).1
  unfolding after_submit Admits and_then perform
  after_submit-Scoped bot none j turn log a h = (h, a)
  after_submit-Scoped bot (some at_capacity) j turn log a h =
      let busy : Action D = send_message turn.chat_id none busy_turn_error in
      let kept = perform-Scoped adapter bot bot_raised busy log a h in
      elim (Bool-cases (bot log busy)) [ inl b ↦ rw b (kept, tt) | inr b ↦ rw b (kept, tt) ]
  after_submit-Scoped bot (some not_started) j turn log a h = (h, tt)
  after_submit-Scoped bot (some closed_queue) j turn log a h = (h, tt)
  after_submit-Scoped bot (some invalid_correlation_id) j turn log a h = (h, tt)
  after_submit-Scoped bot (some worker_unavailable) j turn log a h = (h, tt)

module _ {D V : Type 0} (adapter : Adapter D) where
  accept_text-Scoped :
      (bot : List (Action D) → Action D → Bool) (uuid : Text) (job_id : ℕ) (u : Update)
      (q : RuntimeQueue V) (log : List (Action D))
      → Scoped adapter log
      → Scoped adapter (accept_text bot adapter uuid job_id u q log).1.0
        × Admits adapter (accept_text bot adapter uuid job_id u q log).1.1
  unfolding accept_text submit_turn Admits
  accept_text-Scoped bot uuid job_id u q log h = elim (Option-cases u.effective_chat) [
    | inl e ↦ rw (e, accept_text) (h, tt)
    | inr (chat, e) ↦ elim (Option-cases u.effective_message) [
      | inl f ↦ rw (e, f, accept_text) (h, tt)
      | inr (m, f) ↦ elim (Option-cases m.body) [
        | inl g ↦ rw (e, f, g, accept_text) (h, tt)
        | inr (body, g) ↦ elim (Bool-cases (supported_chat adapter (some chat))) [
          | inr b ↦ rw (e, f, g, b, accept_text) (h, tt)
          | inl b ↦
              rw (e, f, g, b, accept_text)
                (after_submit-Scoped adapter bot _ _ _ log
                  (supported_chat-allowed adapter bot chat b) h)
        ]
      ]
    ]
  ]

  IsScoped : Session V D → Type 0
  IsScoped s = Scoped adapter s.log × All (IsAllowedTurn adapter) s.turns

  execute_next-IsScoped :
      (bot : List (Action D) → Action D → Bool) (service : Text → Text → Option (List Message))
      (turns : List PendingTurn) (s : Session V D)
      → Scoped adapter s.log
      → All (IsAllowedTurn adapter) turns
      → All (IsAllowedTurn adapter) s.turns
      → IsScoped (execute_next bot service adapter turns s)
  unfolding execute_next IsScoped
  execute_next-IsScoped bot service [] s h k l = (h, l)
  execute_next-IsScoped bot service (turn ∷ rest) s h k l =
      (process_turn-Scoped adapter bot service turn s.log k.0 h, k.1)

  happen-IsScoped :
      (bot : List (Action D) → Action D → Bool) (service : Text → Text → Option (List Message))
      (s : Session V D) (e : Happening V)
      → IsScoped s
      → IsScoped (happen bot service adapter s e)
  unfolding happen receive IsScoped
  happen-IsScoped bot service s (commanded u) (h, k) = (start_chat-Scoped adapter bot u s.log h, k)
  happen-IsScoped bot service s (received uuid job_id u) (h, k) =
      let (scoped, admits) = accept_text-Scoped bot uuid job_id u s.queue s.log h in
      (
        scoped,
        admit-All adapter s.turns (accept_text bot adapter uuid job_id u s.queue s.log).1.1 k
            admits,
      )
  happen-IsScoped bot service s (queue_event e) (h, k) = (h, k)
  happen-IsScoped bot service s executed (h, k) = execute_next-IsScoped bot service s.turns s h k k

-- Where every call so far was for a chat that the adapter allows and every turn that waits is of
-- such a chat, this holds after any sequence of commands, texts, executions of turns and events of
-- the queue, whatever the service answers and whichever calls of the bot fail.
pub serve-IsScoped :
    {D V : Type 0} (bot : List (Action D) → Action D → Bool)
    (service : Text → Text → Option (List Message)) (adapter : Adapter D) (s : Session V D)
    (events : List (Happening V))
    → All (IsToAllowed adapter) s.log × All (IsAllowedTurn adapter) s.turns
    → All (IsToAllowed adapter) (serve bot service adapter s events).log
      × All (IsAllowedTurn adapter) (serve bot service adapter s events).turns
unfolding serve IsScoped
serve-IsScoped bot service adapter s [] h = h
serve-IsScoped bot service adapter s (e ∷ es) h =
    serve-IsScoped bot service adapter (happen bot service adapter s e) es
      (happen-IsScoped adapter bot service s e h)
