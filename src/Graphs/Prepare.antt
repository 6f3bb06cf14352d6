-- ===== src/Graphs/Prepare.antt =====
-- graphs/conversation.py: the first node, which checks the input and clears the keys of the turn.
use editorial_team_v.Prelude.{
  Result, ok, err, reject_if, or_raise, Text, text_eq, false, not, Option, none, some, [], ◌∷◌,
  ◌++◌,
}
use editorial_team_v.Contracts.{require_non_blank, validate_identifier, Checked}
use editorial_team_v.Domain.Conversation.{Message, user, ConversationState, make_conversation}
use editorial_team_v.Graphs.State.{GraphState, is_supported}
use editorial_team_v.Graphs.Turn.{
  GraphError, unsupported_version, invalid_input, state_invalid, Services, Turn, pure, lift, escape,
  message, ◌>>=◌, ◌>>◌,
}

-- A state with the updates of the first node.
abbrev pub prepared_state : ConversationState → Message → GraphState → GraphState
prepared_state c m s = record s {
  turn_conversation = some c;
  user_message = some m;
  decision = none;
  talker_response = none;
  writing_task = none;
  editorial_run_context = none;
  writer_run_id = none;
  critic_run_id = none;
  writer_output = none;
  critic_report = none;
  working_draft = none;
  editorial_result = none;
  assistant_messages = none;
  coordinator_messages = none;
  coordinator_tool_steps = some 0;
  coordinator_search_completed = some false;
  retrieved_draft = none;
}

-- `state.get("conversation")`, or a new state where it is `None`
abbrev pub stored_conversation : Option ConversationState → Text → Checked ConversationState
stored_conversation (some c) id = ok c
stored_conversation none id =
    make_conversation (record { conversation_id = id; recent_messages = []; active_task = none })

abbrev pub required_identifier : Option Text → Result GraphError Text
required_identifier none = err invalid_input
required_identifier (some t) = or_raise invalid_input (validate_identifier t "conversation_id")

abbrev pub required_input : Option Text → Result GraphError Text
required_input none = err invalid_input
required_input (some t) = or_raise invalid_input (require_non_blank t "input_text")

module _ (services : Services) where
  unfoldable pub validate_and_prepare_turn : GraphState → Turn GraphState
  unfolding message
  validate_and_prepare_turn s = do
    lift (reject_if (not (is_supported s.state_version)) unsupported_version)
    id ← lift (required_identifier s.conversation_id)
    t ← lift (required_input s.input_text)
    c ← lift (escape (stored_conversation s.conversation id))
    lift (reject_if (not (text_eq c.conversation_id id)) state_invalid)
    m ← message services id user t
    turn ←
        lift (
          escape (make_conversation (record c { recent_messages = c.recent_messages ++ (m ∷ []) })))
    pure (prepared_state turn m s)
