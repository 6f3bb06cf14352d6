-- ===== src/Graphs/Turn.antt =====
-- What the nodes of graphs/conversation.py share: their errors, their effects and the services that
-- they are built with. A node is an action: it gives a state or an error, and the effects after it.
-- `identifiers` and `clock` are the answers of the generator and the clock to their n-th call.
pub mod Chains
use editorial_team_v.Prelude.{
  Result, ok, err, or_raise, Text, ℕ, suc, ◌+◌, String, Option, none, some, List, Bool,
}
use editorial_team_v.Contracts.{ValueError, Datetime, require_utc_timestamp, validate_identifier}
use editorial_team_v.Domain.Routing.{CoordinatorDecision, TalkerContext}
use editorial_team_v.Domain.Conversation.{Message, MessageRole, make_message, ConversationState}
use editorial_team_v.Artifacts.Models.{EditorialArtifact}
use editorial_team_v.Artifacts.Store.{Tables, ChunkRow}
use editorial_team_v.Contracts.{Checked}
use editorial_team_v.Graphs.State.{
  Reply, raised, other, value, ToolCall, ToolOutput, ChatMessage, GraphState,
}
use editorial_team_v.Graphs.Editorial.{Agents}

pub data GraphError : Type 0 where
  unsupported_version invalid_input state_invalid : GraphError
  coordinator_failed invalid_decision historical_revision draft_needs_task : GraphError
  draft_required tool_state_invalid tool_limit retrieval_unavailable : GraphError
  talker_failed talker_invalid task_input_invalid draft_not_retrieved draft_invalid : GraphError
  no_task_for_revision instructions_invalid revision_invalid : GraphError
  workflow_failed workflow_invalid unsupported_route : GraphError
  artifact_input_invalid artifacts_not_saved activation_failed : GraphError
  identifier_failed clock_failed message_failed : GraphError
  out_of_rounds : GraphError
  escaped : ValueError → GraphError

pub record Effects : Type 0 where
  pub id_calls : ℕ
  pub clock_calls : ℕ
  pub tables : Tables

-- Arguments that the schema refuses, a request that fails, or the artifacts that were found.
pub data SearchReply : Type 0 where
  bad_arguments bad_request : SearchReply
  results : List Text → SearchReply

pub record Services : Type 0 where
  pub coordinator : ConversationState → Message → Reply CoordinatorDecision
  -- the answer of the tool-calling Coordinator: its text and its tool calls
  pub tool_coordinator : Option (List ChatMessage → Reply (Text × List ToolCall))
  pub parse_decision : Text → Option CoordinatorDecision
  pub prompt : ConversationState → Message → Datetime → Option Text
  pub talker : ConversationState → Message → Option TalkerContext → Reply Text
  pub agents : Agents
  -- the call of `search_corpus` in a conversation, and the checked arguments of `get_draft`
  pub search : Option (Text → Text → Tables → SearchReply)
  pub draft_id : Text → Option Text
  pub identifiers : ℕ → Reply Text
  pub clock : ℕ → Reply Datetime
  pub max_recent_messages : ℕ
  pub sha256 : Text → Text
  pub stamp : Datetime → Text
  pub unstamp : Text → Checked Datetime
  pub chunker_version : Text
  pub chunk : EditorialArtifact → Checked (List ChunkRow)

abbrev pub Turn : Type 0 → Type 0
Turn A = Effects → Result GraphError A × Effects

abbrev pub pure : {A : Type 0} → A → Turn A
pure a fx = (ok a, fx)

abbrev pub raise : {A : Type 0} → GraphError → Turn A
raise e fx = (err e, fx)

abbrev pub lift : {A : Type 0} → Result GraphError A → Turn A
lift r fx = (r, fx)

abbrev pub continue : {A B : Type 0} → Result GraphError A → (A → Turn B) → Turn B
continue (ok a) f fx = f a fx
continue (err e) f fx = (err e, fx)

infixl 5 ◌>>=◌ ◌>>◌
abbrev pub ◌>>=◌ : {A B : Type 0} → Turn A → (A → Turn B) → Turn B
◌>>=◌ m f fx = continue (m fx).0 f (m fx).1

abbrev pub ◌>>◌ : {B : Type 0} → Turn (Unit {0}) → Turn B → Turn B
m >> k = m >>= λ _. k

-- `try: ... except Exception: raise e from None`
abbrev pub raising : {A : Type 0} → GraphError → Turn A → Turn A
raising e m fx = (or_raise e (m fx).0, (m fx).1)

-- A `ValueError` that no handler catches, and one that becomes `e`.
abbrev pub escape : {A : Type 0} → Checked A → Result GraphError A
escape (ok a) = ok a
escape (err e) = err (escaped e)

-- `_turn`
abbrev pub both :
    Option ConversationState → Option Message → Result GraphError (ConversationState × Message)
both (some c) (some m) = ok (c, m)
both _ _ = err invalid_input

abbrev pub turn_of : GraphState → Result GraphError (ConversationState × Message)
turn_of s = both s.turn_conversation s.user_message

-- `_decision`
abbrev pub decision_of : Option CoordinatorDecision → Result GraphError CoordinatorDecision
decision_of none = err invalid_decision
decision_of (some d) = ok d

abbrev pub checked_identifier : Reply Text → Result GraphError Text
checked_identifier (value i) = or_raise identifier_failed (validate_identifier i "id")
checked_identifier _ = err identifier_failed

abbrev pub checked_time : Reply Datetime → Result GraphError Datetime
checked_time (value t) = or_raise clock_failed (require_utc_timestamp t "timestamp")
checked_time _ = err clock_failed

module _ (services : Services) where
  unfoldable pub identifier : Turn Text
  identifier fx = (
    checked_identifier (services.identifiers fx.id_calls),
    record fx { id_calls = fx.id_calls + 1 },
  )

  unfoldable pub timestamp : Turn Datetime
  timestamp fx =
      (checked_time (services.clock fx.clock_calls), record fx { clock_calls = fx.clock_calls + 1 })

  unfoldable pub message : Text → MessageRole → Text → Turn Message
  unfolding identifier timestamp
  message conversation role content = do
    i ← identifier
    t ← timestamp
    lift (
        or_raise message_failed (
          make_message (record {
            id = i;
            conversation_id = conversation;
            role = role;
            content = content;
            created_at = t;
          })))
