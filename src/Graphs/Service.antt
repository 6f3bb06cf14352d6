-- ===== src/Graphs/Service.antt =====
-- conversation/service.py: one message of a conversation, from the stored state of its thread.
pub mod Reply
use editorial_team_v.Prelude.{
  if◌then◌else◌, is_empty, Result, ok, err, ◌>>=◌, ◌>>◌, Text, Option, none, some, List,
}
use editorial_team_v.Contracts.{validate_identifier, require_non_blank}
use editorial_team_v.Domain.Conversation.{Message}
use editorial_team_v.Graphs.State.{GraphState}
use editorial_team_v.Graphs.Turn.{GraphError, escaped, unsupported_version, Effects, Services}
use editorial_team_v.Graphs.Conversation.{run_turn}

-- `failed` passes the graph's message on; `crashed` is an exception that is no `ServiceError`, such as the
-- version's, which is a `ValueError`.
pub data ConversationServiceError : Type 0 where
  invalid_input crashed invalid_result : ConversationServiceError
  failed : GraphError → ConversationServiceError

-- The stored state of the thread with the input of the turn.
abbrev pub invocation : GraphState → Text → Text → GraphState
invocation s conversation t = record s {
  state_version = some 1;
  conversation_id = some conversation;
  input_text = some t;
}

abbrev pub service_error : GraphError → ConversationServiceError
service_error (escaped e) = crashed
service_error unsupported_version = crashed
service_error e = failed e

abbrev pub replies_of : Option (List Message) → Result ConversationServiceError (List Message)
replies_of none = err invalid_result
replies_of (some ms) = if is_empty ms then err invalid_result else ok ms

-- The messages and the state that the thread keeps.
abbrev pub returned :
    Result GraphError GraphState → Result ConversationServiceError (List Message × GraphState)
returned (err e) = err (service_error e)
returned (ok t) = do ms ← replies_of t.assistant_messages; ok (ms, t)

module _ (services : Services) where
  unfoldable pub process_message :
      GraphState
      → Text
      → Text
      → Effects
      → Result ConversationServiceError (List Message × GraphState) × Effects
  unfolding run_turn
  process_message stored conversation t fx =
      elim (validate_identifier conversation "conversation_id") [
        | err _ ↦ (err invalid_input, fx)
        | ok id ↦ elim (require_non_blank t "text") [
          | err _ ↦ (err invalid_input, fx)
          | ok input ↦
              let done = run_turn services (invocation stored id input) fx in
              (returned done.0, done.1)
        ]
      ]
