-- ===== src/Tests/Updates.antt =====
-- Updates, and the replies to them.
use editorial_team_v.Prelude.{
  err, length, All, Text, text, strip, ℕ, ◌≡◌, refl, Bool, true, false, Option, none, some, List,
  [], ◌∷◌,
}
use editorial_team_v.Domain.Conversation.{Message, assistant}
use editorial_team_v.Runtime.Queue.{
  Future, job_failed, RuntimeQueue, start, close, step, closed_queue, init, idle, uncalled, pending,
  is_safe_char,
}
use editorial_team_v.Telegram.{nonneg, negative, max_telegram_text_length}
use editorial_team_v.Telegram.Chunks.{concat, Fits}
use editorial_team_v.Telegram.Adapter.{job_raised, refused, Action, Adapter, Update, supergroup}
use editorial_team_v.Telegram.Sending.{send_messages}
use editorial_team_v.Telegram.Handlers.{accept_text, handle_text}
use editorial_team_v.Telegram.Added.{sent, pauses, IsFor}
use editorial_team_v.Telegram.Delivery.{send_messages-Delivered}
use editorial_team_v.Telegram.Session.{Session, Happening, received, commanded, executed, serve}
use editorial_team_v.Telegram.Allowed.{IsToAllowed, IsAllowedTurn}
use editorial_team_v.Telegram.Scope.{serve-IsScoped}
use editorial_team_v.Telegram.Refusal.{Raises, handle_text-Raises}
use editorial_team_v.Tests.Fixtures.{noon}

abbrev newsroom : Adapter ℕ
newsroom = record { allowed_chat_ids = negative 100 ∷ []; handoff_delay = 1250 }

-- A bot whose every call succeeds.
abbrev bot : List (Action ℕ) → Action ℕ → Bool
bot log a = true

abbrev reply : Text → Message
reply t = record {
  id = text "m1";
  conversation_id = text "c1";
  role = assistant;
  content = t;
  created_at = noon;
}

abbrev service : Text → Text → Option (List Message)
service conversation t = some (reply (text "Hi.") ∷ reply (text "Done.") ∷ [])

abbrev update_from : ℕ → Update
update_from chat = record {
  update_id = some (nonneg 7);
  effective_chat = some (record { id = negative chat; kind = supergroup });
  effective_message =
      some (record { body = some (text "Hello"); message_thread_id = some (nonneg 3) });
}

abbrev quiet_queue : RuntimeQueue ℕ
quiet_queue = record {
  capacity = 1;
  items = [];
  unfinished = 0;
  worker = idle;
  accepting = true;
  closed = false;
  closing = uncalled;
  completed = record { of_telegram = 0; of_heartbeat = 0 };
  failed = record { of_telegram = 0; of_heartbeat = 0 };
  last_success = record { of_telegram = none; of_heartbeat = none };
  futures = λ _. pending;
}

abbrev closed_for_good : RuntimeQueue ℕ
closed_for_good = record quiet_queue { closed = true }

abbrev opening : Session ℕ ℕ
opening = record { queue = quiet_queue; turns = []; log = [] }

abbrev uuid : Text
uuid = text "0123456789abcdef"

-- The queue has no place for the second text, and the third is from another chat.
abbrev morning : List (Happening ℕ)
morning =
    commanded (update_from 100)
    ∷ received uuid 1 (update_from 100)
    ∷ received uuid 2 (update_from 100)
    ∷ received uuid 3 (update_from 200)
    ∷ executed
    ∷ []

serve-IsScoped_example :
    All (IsToAllowed newsroom) (serve bot service newsroom opening morning).log
    × All (IsAllowedTurn newsroom) (serve bot service newsroom opening morning).turns
serve-IsScoped_example = serve-IsScoped bot service newsroom opening morning (tt, tt)

morning_calls : length (serve bot service newsroom opening morning).log ≡ 6
unfolding serve editorial_team_v.Runtime.Queue.is_safe_identifier
    editorial_team_v.Telegram.chunk_text strip
morning_calls = refl

abbrev delivered : List (Action ℕ)
delivered =
    (send_messages bot newsroom (negative 100) none (reply (text "Hi.") ∷ reply (text "Done.") ∷ [])
      []).0

send_messages-Delivered_example :
    (concat (sent delivered) ≡ text "Hi.Done.")
    × All (Fits max_telegram_text_length) (sent delivered)
    × (2 ≡ length (sent delivered))
    × (pauses delivered ≡ 1)
    × All (IsFor (negative 100) none) delivered
unfolding send_messages editorial_team_v.Telegram.chunk_text strip
send_messages-Delivered_example =
    send_messages-Delivered bot newsroom (negative 100) none (reply (text "Hi."))
      (reply (text "Done.") ∷ []) 2 refl

-- The operation of the accepted job raised.
abbrev failing : ℕ → Future ℕ
failing = λ n. job_failed

handle_text-Raises_example :
    Raises {D = ℕ} quiet_queue [] 1 failing
      (accept_text bot newsroom uuid 1 (update_from 100) quiet_queue []).0
      (accept_text bot newsroom uuid 1 (update_from 100) quiet_queue []).1.0
      job_raised
unfolding handle_text editorial_team_v.Runtime.Queue.validate_submission
    editorial_team_v.Runtime.Queue.is_safe_identifier editorial_team_v.Runtime.Queue.enqueue
handle_text-Raises_example =
    handle_text-Raises bot newsroom uuid 1 (update_from 100) quiet_queue [] failing job_raised refl
      refl

handle_text_closed :
    handle_text bot newsroom uuid 1 (update_from 100) closed_for_good [] failing
    ≡ some (err (refused closed_queue))
unfolding handle_text editorial_team_v.Runtime.Queue.validate_submission
handle_text_closed = refl
