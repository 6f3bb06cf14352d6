-- ===== src/Telegram/Session.antt =====
-- interfaces/telegram.py: the application that is built of the adapter. The dispatch of updates to the
-- handlers and the worker's execution of jobs are a sequence of events. `turns` are the accepted turns
-- that the worker has not executed yet, in order.
use editorial_team_v.Prelude.{Result, ok, err, Text, ℕ, Bool, Option, List, [], ◌∷◌, ◌++◌}
use editorial_team_v.Domain.Conversation.{Message}
use editorial_team_v.Runtime.Queue.{RuntimeQueue, Event, step}
use editorial_team_v.Telegram.Adapter.{
  Action, Adapter, Update, PendingTurn, Handling, HandlerError, ignored, turned_away, accepted,
}
use editorial_team_v.Telegram.Sending.{process_turn}
use editorial_team_v.Telegram.Handlers.{start_chat, accept_text}

pub record Session (V D : Type 0) : Type 0 where
  pub queue : RuntimeQueue V
  pub turns : List PendingTurn
  pub log : List (Action D)

-- An update with the command `start`; one with another text, with what `uuid4` gives and the job's
-- identity; an event of the queue; the worker's execution of the next job's operation.
pub data Happening (V : Type 0) : Type 0 where
  commanded : Update → Happening V
  received : Text → ℕ → Update → Happening V
  queue_event : Event V → Happening V
  executed : Happening V

unfoldable pub admit : List PendingTurn → Result HandlerError Handling → List PendingTurn
admit turns (ok ignored) = turns
admit turns (ok turned_away) = turns
admit turns (ok (accepted j turn)) = turns ++ (turn ∷ [])
admit turns (err e) = turns

module _ {D V : Type 0} where
  module _ (bot : List (Action D) → Action D → Bool) (service : Text → Text → Option (List Message))
      (adapter : Adapter D) where
    unfoldable pub execute_next : List PendingTurn → Session V D → Session V D
    unfolding process_turn
    execute_next [] s = s
    execute_next (turn ∷ rest) s = record s {
      turns = rest;
      log = (process_turn bot adapter service turn s.log).0;
    }

    unfoldable pub receive : Text → ℕ → Update → Session V D → Session V D
    unfolding accept_text admit
    receive uuid job_id u s =
        let (q, (log, handling)) = accept_text bot adapter uuid job_id u s.queue s.log in
        record { queue = q; turns = admit s.turns handling; log = log }

    unfoldable pub happen : Session V D → Happening V → Session V D
    unfolding start_chat receive execute_next step
    happen s (commanded u) = record s { log = (start_chat bot adapter u s.log).0 }
    happen s (received uuid job_id u) = receive uuid job_id u s
    happen s (queue_event e) = record s { queue = (step s.queue e).0 }
    happen s executed = execute_next s.turns s

    unfoldable pub serve : Session V D → List (Happening V) → Session V D
    unfolding happen
    serve s [] = s
    serve s (h ∷ hs) = serve (happen s h) hs
