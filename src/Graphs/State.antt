-- ===== src/Graphs/State.antt =====
-- graphs/state.py: the state of one graph turn. A key that is absent and a key whose value is `None`
-- read the same through `state.get`, so both are `none`; `invocation_kind` is read nowhere and is
-- left out. Of a LangChain message the state keeps what the graph looks at.
use native.Mathlib.Decide.{ℕ_discrete}
use editorial_team_v.Prelude.{◌==◌, Text, ℕ, Bool, false, Option, none, some, List}
use editorial_team_v.Domain.Editorial.{
  WritingTask, CriticReport, EditorialResult, EditorialRunContext,
}
use editorial_team_v.Domain.Routing.{CoordinatorDecision}
use editorial_team_v.Domain.Conversation.{Message, ConversationState}
use editorial_team_v.Artifacts.Models.{RetrievedDraft}

-- What a call of an agent comes back with: an exception, a value of another type, or a value.
pub data Reply (A : Type 0) : Type 0 where
  raised : Reply A
  other : Reply A
  value : A → Reply A

-- One entry of `tool_calls`, with the arguments as the JSON text that they stand for.
pub record ToolCall : Type 0 where
  pub name : Text
  pub args : Text
  pub id : Text

pub data ToolError : Type 0 where
  unknown_tool search_required invalid_tool_arguments invalid_search_request artifact_not_found :
      ToolError

-- The dictionary that a tool returns, or its digest that is passed on to the Coordinator:
-- `loaded` is a draft without its content.
pub data ToolOutput : Type 0 where
  failed : ToolError → ToolOutput
  found : List Text → ToolOutput
  draft : RetrievedDraft → ToolOutput
  loaded : (artifact_id task_id user_request : Text) → ToolOutput

pub data ChatMessage : Type 0 where
  system human : Text → ChatMessage
  ai : Text → List ToolCall → ChatMessage
  tool : ToolOutput → Text → Text → ChatMessage

pub record GraphState : Type 0 where
  pub state_version : Option ℕ
  pub conversation_id : Option Text
  pub input_text : Option Text
  pub conversation : Option ConversationState
  pub turn_conversation : Option ConversationState
  pub user_message : Option Message
  pub decision : Option CoordinatorDecision
  pub talker_response : Option Text
  pub writing_task : Option WritingTask
  pub editorial_run_context : Option EditorialRunContext
  pub writer_run_id : Option Text
  pub critic_run_id : Option Text
  pub writer_output : Option Text
  pub critic_report : Option CriticReport
  pub working_draft : Option Text
  pub editorial_result : Option EditorialResult
  pub assistant_messages : Option (List Message)
  pub coordinator_messages : Option (List ChatMessage)
  pub coordinator_tool_steps : Option ℕ
  pub coordinator_search_completed : Option Bool
  pub retrieved_draft : Option RetrievedDraft

abbrev pub editorial_graph_state_version : ℕ
editorial_graph_state_version = 1

abbrev pub is_supported : Option ℕ → Bool
is_supported none = false
is_supported (some version) = version == editorial_graph_state_version

-- `==` of two tasks, field by field.
unfoldable pub WritingTask-discrete : Discrete WritingTask
unfolding ℕ_discrete
WritingTask-discrete = hlevel ℕ_discrete
