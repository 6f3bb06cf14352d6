-- ===== src/Domain/Conversation.antt =====
-- domain/conversation.py: messages and the durable state of a conversation.
use editorial_team_v.Prelude.{
  all, ok, ◌>>=◌, ◌>>◌, reject_if, Text, text_eq, Bool, true, not, Option, none, some, List,
}
use editorial_team_v.Contracts.{
  rule, Checked, require_non_blank, Datetime, require_utc_timestamp, validate_identifier,
}
use editorial_team_v.Domain.Editorial.{WritingTask}

pub data MessageRole : Type 0 where
  user assistant : MessageRole

pub record Message : Type 0 where
  pub id : Text
  pub conversation_id : Text
  pub role : MessageRole
  pub content : Text
  pub created_at : Datetime

unfoldable pub make_message : Message → Checked Message
make_message m = do
  i ← validate_identifier m.id "id"
  c ← validate_identifier m.conversation_id "conversation_id"
  t ← require_non_blank m.content "content"
  _ ← require_utc_timestamp m.created_at "created_at"
  ok (record m { id = i; conversation_id = c; content = t })

pub record ConversationState : Type 0 where
  pub conversation_id : Text
  pub recent_messages : List Message
  pub active_task : Option WritingTask

abbrev pub owns_task : Text → Option WritingTask → Bool
owns_task c none = true
owns_task c (some t) = text_eq t.conversation_id c

abbrev pub owns_message : Text → Message → Bool
owns_message c m = text_eq m.conversation_id c

unfoldable pub make_conversation : ConversationState → Checked ConversationState
make_conversation s = do
  c ← validate_identifier s.conversation_id "conversation_id"
  reject_if (not (owns_task c s.active_task)) (rule "active_task must belong to the conversation")
  reject_if (not (all (owns_message c) s.recent_messages))
      (rule "recent_messages must belong to the conversation")
  ok (record s { conversation_id = c })
