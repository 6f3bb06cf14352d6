-- ===== src/Telegram/Adapter.antt =====
-- interfaces/telegram.py: the adapter and what it takes and does, and the correlation identifier of an
-- update in tracing.py. Calls of the bot and pauses are recorded in the
-- order in which they are made. The bot is a parameter that says of each call, given those before
-- it, whether it succeeds; so is the service, which gives a turn's messages or raises. A pause is
-- taken as such a call. The other trace events are left out.
use editorial_team_v.Prelude.{
  ◌==◌, if◌then◌else◌, take, any, all, is_empty, Result, ok, err, Text, text, Bool, true, false,
  ◌&&◌, ◌||◌, not, Option, none, some, List, [], ◌∷◌, ◌++◌,
}
use editorial_team_v.Runtime.Queue.{Job, QueueError}
use editorial_team_v.Telegram.{Integer, nonneg, negative, encode_id, ChunkError}

pub data ChatType : Type 0 where
  private_chat group supergroup channel sender : ChatType

pub record Chat : Type 0 where
  pub id : Integer
  pub kind : ChatType

pub record Incoming : Type 0 where
  pub body : Option Text
  pub message_thread_id : Option Integer

pub record Update : Type 0 where
  pub update_id : Option Integer
  pub effective_chat : Option Chat
  pub effective_message : Option Incoming

-- What the adapter does: the first argument of a call of the bot is its `chat_id`, the second its
-- `message_thread_id`, where the call has one.
pub data Action (D : Type 0) : Type 0 where
  send_message : Integer → Option Integer → Text → Action D
  send_typing : Integer → Option Integer → Action D
  sleep : D → Action D

pub data TurnError : Type 0 where
  bot_failed : TurnError
  unsendable : ChunkError → TurnError

pub data HandlerError : Type 0 where
  refused : QueueError → HandlerError
  bot_raised job_raised job_cancelled : HandlerError

pub data AdapterError : Type 0 where
  bad_delay bad_chat_ids : AdapterError

pub record Adapter (D : Type 0) : Type 0 where
  pub allowed_chat_ids : List Integer
  pub handoff_delay : D

-- The arguments of `_process_turn`, as the job's operation holds them.
pub record PendingTurn : Type 0 where
  pub chat_id : Integer
  pub thread_id : Option Integer
  pub body : Text

pub data Handling : Type 0 where
  ignored turned_away : Handling
  accepted : Job → PendingTurn → Handling

abbrev pub onboarding_message : Text
onboarding_message =
    text
      "Talker\n\nHi — welcome to Editorial Team. We can discuss, draft, review, revise, translate, or proofread text together."

abbrev pub generic_turn_error : Text
generic_turn_error = text "Sorry — I couldn’t complete that turn. Please try again."

abbrev pub busy_turn_error : Text
busy_turn_error = text "Sorry — the team is busy right now. Please try again shortly."

abbrev pub integer_eq : Integer → Integer → Bool
integer_eq (nonneg m) (nonneg n) = m == n
integer_eq (negative m) (negative n) = m == n
integer_eq (nonneg m) (negative n) = m == 0 && n == 0
integer_eq (negative m) (nonneg n) = m == 0 && n == 0

-- `chat_type in SUPPORTED_CHAT_TYPES`
abbrev pub is_supported_type : ChatType → Bool
is_supported_type private_chat = true
is_supported_type group = true
is_supported_type supergroup = true
is_supported_type channel = false
is_supported_type sender = false

-- `uuid` is the text of `uuid4().hex`.
unfoldable pub trace_for_update : Text → Option Integer → Text
unfolding encode_id
trace_for_update uuid (some n) = text "tg-" ++ encode_id n
trace_for_update uuid none = text "tg-" ++ take 12 uuid

module _ {D : Type 0} where
  -- `valid_delay` is what `__init__` asks of the delay: a finite number from 0 on.
  unfoldable pub make_adapter : (D → Bool) → List Integer → D → Result AdapterError (Adapter D)
  make_adapter valid_delay ids delay =
      if not (valid_delay delay)
      then err bad_delay
      else if is_empty ids || not (all (λ i. not (integer_eq i (nonneg 0))) ids)
      then err bad_chat_ids
      else ok (record { allowed_chat_ids = ids; handoff_delay = delay })

  abbrev pub is_allowed : Adapter D → Integer → Bool
  is_allowed adapter chat = any (integer_eq chat) adapter.allowed_chat_ids

  -- `_supported_chat`
  unfoldable pub supported_chat : Adapter D → Option Chat → Bool
  supported_chat adapter none = false
  supported_chat adapter (some chat) = is_supported_type chat.kind && is_allowed adapter chat.id

  -- A step that may raise, and what is done after it.
  unfoldable pub and_then :
      {E A B : Type 0}
      → List (Action D) × Result E A
      → (A → List (Action D) → List (Action D) × Result E B)
      → List (Action D) × Result E B
  and_then step next = elim step.1 [ ok a ↦ next a step.0 | err e ↦ (step.0, err e) ]

module _ {D : Type 0} (bot : List (Action D) → Action D → Bool) where
  unfoldable pub perform :
      {E : Type 0} → E → Action D → List (Action D) → List (Action D) × Result E (Unit {0})
  perform e a log = (log ++ (a ∷ []), if bot log a then ok tt else err e)
