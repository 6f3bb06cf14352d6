-- ===== src/Graphs/Coordinator.antt =====
-- graphs/conversation.py: the Coordinator's node, with the guards on its decision.
-- `coordinator_tool_steps` of `none` counts as 0: the first node sets it.
use editorial_team_v.Prelude.{
  ltb, if◌then◌else◌, is_some, is_none, Result, ok, err, Text, ℕ, Bool, true, false, ◌&&◌, ◌||◌,
  not, Option, none, some, List, [], ◌∷◌, ◌++◌,
}
use editorial_team_v.Contracts.{validate_identifier}
use editorial_team_v.Domain.Routing.{
  CoordinatorRoute, start_writing_task, revise_task, show_retrieved_draft, CoordinatorDecision,
  make_decision,
}
use editorial_team_v.Domain.Conversation.{Message, ConversationState}
use editorial_team_v.Artifacts.Store.{Tables}
use editorial_team_v.Graphs.State.{
  Reply, raised, other, value, ToolCall, ChatMessage, system, human, ai, GraphState,
}
use editorial_team_v.Graphs.Turn.{
  GraphError, coordinator_failed, invalid_decision, historical_revision, draft_needs_task,
  draft_required, retrieval_unavailable, escaped, SearchReply, Services, Turn, pure, raise, lift,
  raising, turn_of, timestamp, ◌>>=◌,
}

abbrev pub tool_steps : GraphState → ℕ
tool_steps s = elim s.coordinator_tool_steps [ none ↦ 0 | some n ↦ n ]

abbrev pub starts_task : CoordinatorRoute → Bool
starts_task start_writing_task = true
starts_task _ = false

abbrev pub revises_task : CoordinatorRoute → Bool
revises_task revise_task = true
revises_task _ = false

abbrev pub shows_draft : CoordinatorRoute → Bool
shows_draft show_retrieved_draft = true
shows_draft _ = false

-- What the guarded block of `coordinator_agent` leaves: the messages of an answer that calls tools,
-- a decision and the messages to keep, or a decision of another type.
pub data Answer : Type 0 where
  calls : List ChatMessage → Answer
  decided : CoordinatorDecision → Option (List ChatMessage) → Answer
  undecided : Answer

abbrev pub plain_answer :
    Option (List ChatMessage) → Reply CoordinatorDecision → Result GraphError Answer
plain_answer messages raised = err coordinator_failed
plain_answer messages other = ok undecided
plain_answer messages (value d) = ok (decided d messages)

-- The response of the model: tool calls, or a decision in its text.
abbrev pub model_answer :
    (Text → Option CoordinatorDecision)
    → List ChatMessage
    → Reply (Text × List ToolCall)
    → Result GraphError Answer
model_answer parse messages raised = err coordinator_failed
model_answer parse messages other = err coordinator_failed
model_answer parse messages (value (t, c ∷ cs)) = ok (calls (messages ++ (ai t (c ∷ cs) ∷ [])))
model_answer parse messages (value (t, [])) = elim (parse t) [
  | none ↦ err coordinator_failed
  | some d ↦ ok (decided d (some (messages ++ (ai t [] ∷ []))))
]

-- The guards on a decision, with what the turn has retrieved.
unfoldable pub check_decision :
    GraphState → CoordinatorDecision → Result GraphError CoordinatorDecision
check_decision s d = elim (make_decision d) [
  | err _ ↦ err invalid_decision
  | ok _ ↦
      if ltb 0 (tool_steps s) && revises_task d.route
      then err historical_revision
      else if is_some s.retrieved_draft && not (starts_task d.route || shows_draft d.route)
      then err draft_needs_task
      else if shows_draft d.route && is_none s.retrieved_draft
      then err draft_required
      else ok d
]

-- `messages[-1]`, where it is an `AIMessage`
unfoldable pub last_calls : List ChatMessage → Option (List ToolCall)
last_calls [] = none
last_calls (ai t cs ∷ []) = some cs
last_calls (_ ∷ []) = none
last_calls (_ ∷ m ∷ ms) = last_calls (m ∷ ms)

abbrev pub pending_calls : Option (List ChatMessage) → Option (List ToolCall)
pending_calls none = none
pending_calls (some ms) = last_calls ms

-- `_scoped_tools`
abbrev pub scoped_tools :
    Option (Text → Text → Tables → SearchReply)
    → Text
    → Result GraphError (Text → Text → Tables → SearchReply)
scoped_tools none conversation = err retrieval_unavailable
scoped_tools (some search) conversation =
    elim (validate_identifier conversation "conversation_id") [
      | err e ↦ err (escaped e)
      | ok _ ↦ ok search
    ]

-- The update of `coordinator_agent` by what its guarded block left.
unfoldable pub settle_answer : GraphState → Answer → Result GraphError GraphState
unfolding check_decision
settle_answer s (calls messages) = ok (record s { coordinator_messages = some messages })
settle_answer s undecided = err invalid_decision
settle_answer s (decided d messages) = elim (check_decision s d) [
  | err e ↦ err e
  | ok _ ↦ ok (record s { decision = some d; coordinator_messages = messages })
]

module _ (services : Services) where
  -- The messages of the tool loop, or its first two.
  unfoldable pub loop_messages :
      Option (List ChatMessage) → ConversationState → Message → Turn (List ChatMessage)
  unfolding timestamp
  loop_messages (some ms) c m = pure ms
  loop_messages none c m = do
    now ← timestamp services
    elim (services.prompt c m now) [
      | none ↦ raise coordinator_failed
      | some p ↦ pure (system p ∷ human m.content ∷ [])
    ]

  unfoldable pub answer : GraphState → ConversationState → Message → Turn Answer
  unfolding loop_messages
  answer s c m = elim services.tool_coordinator [
    | none ↦ lift (plain_answer s.coordinator_messages (services.coordinator c m))
    | some respond ↦ do
      messages ← loop_messages s.coordinator_messages c m
      _ ← lift (scoped_tools services.search c.conversation_id)
      lift (model_answer services.parse_decision messages (respond messages))
  ]

  unfoldable pub coordinator_agent : GraphState → Turn GraphState
  unfolding answer settle_answer
  coordinator_agent s = do
    (c, m) ← lift (turn_of s)
    a ← raising coordinator_failed (answer s c m)
    lift (settle_answer s a)
