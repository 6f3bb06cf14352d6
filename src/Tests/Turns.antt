-- ===== src/Tests/Turns.antt =====
-- One turn of a new conversation.
use editorial_team_v.Prelude.{
  is_some, Result, ok, err, Text, text, ℕ, Option, none, some, List, [], ◌∷◌, true, false, ◌≡◌, ◌≢◌,
  refl,
}
use editorial_team_v.Domain.Conversation.{MessageRole}
use editorial_team_v.Graphs.State.{GraphState, raised, ai, ToolCall}
use editorial_team_v.Graphs.Turn.{Effects, Services, out_of_rounds, talker_failed, results}
use editorial_team_v.Graphs.Coordinator.{coordinator_agent}
use editorial_team_v.Graphs.Tools.{progress_of, coordinator_tools}
use editorial_team_v.Graphs.Prepare.{required_identifier}
use editorial_team_v.Graphs.Tools.Retrieval.{Searched, coordinator_tools-Searched}
use editorial_team_v.Graphs.Conversation.{route_coordinator_decision, run_turn, run_turn_within}
use editorial_team_v.Graphs.Conversation.Guards.{IsAllowed, coordinator_agent-IsAllowed}
use editorial_team_v.Domain.Routing.{chat, CoordinatorDecision}
use editorial_team_v.Graphs.Conversation.Completed.{Completed, run_turn-Completed}
use editorial_team_v.Graphs.Conversation.Effect.{run_turn-Safe}
use editorial_team_v.Graphs.Conversation.Ends.{run_turn-ends}
use editorial_team_v.Graphs.Conversation.Leftovers.{run_turn-SameInput}
use editorial_team_v.Graphs.Service.{invalid_result, process_message}
use editorial_team_v.Graphs.Service.Reply.{process_message-result}
use editorial_team_v.Tests.Searches.{digest, draft_row}
use editorial_team_v.Tests.Fixtures.{chat_decision, noon, services, no_effects, first_turn}

abbrev chat_end : GraphState
unfolding run_turn
chat_end = elim (run_turn services first_turn no_effects).0 [ ok t ↦ t | err e ↦ first_turn ]

run_turn-Completed_example :
    (id : Text) × (required_identifier first_turn.conversation_id ≡ ok id)
    × Completed 1 id first_turn chat_end
unfolding run_turn chat_end editorial_team_v.Graphs.Prepare.validate_and_prepare_turn
    editorial_team_v.Contracts.validate_identifier editorial_team_v.Prelude.strip
    editorial_team_v.Prelude.contains editorial_team_v.Domain.Conversation.make_conversation
    editorial_team_v.Prelude.text_eq editorial_team_v.Contracts.require_utc_timestamp
    editorial_team_v.Domain.Conversation.make_message
    editorial_team_v.Graphs.Coordinator.coordinator_agent
    editorial_team_v.Domain.Routing.make_decision editorial_team_v.Contracts.require_optional
    editorial_team_v.Graphs.Conversation.route_coordinator_decision
    editorial_team_v.Graphs.Tasks.talker editorial_team_v.Graphs.Finish.finalize_turn
run_turn-Completed_example = run_turn-Completed services first_turn chat_end no_effects refl

-- The Talker raises.
abbrev silent_services : Services
silent_services = record services { talker = λ c m x. raised }

run_turn-Safe_example :
    (run_turn silent_services first_turn no_effects).1.tables ≡ no_effects.tables
unfolding run_turn editorial_team_v.Graphs.Prepare.validate_and_prepare_turn
    editorial_team_v.Contracts.validate_identifier editorial_team_v.Prelude.strip
    editorial_team_v.Prelude.contains editorial_team_v.Domain.Conversation.make_conversation
    editorial_team_v.Prelude.text_eq editorial_team_v.Contracts.require_utc_timestamp
    editorial_team_v.Domain.Conversation.make_message
    editorial_team_v.Graphs.Coordinator.coordinator_agent
    editorial_team_v.Domain.Routing.make_decision editorial_team_v.Contracts.require_optional
    editorial_team_v.Graphs.Conversation.route_coordinator_decision
    editorial_team_v.Graphs.Tasks.talker
run_turn-Safe_example = run_turn-Safe silent_services first_turn no_effects talker_failed refl

run_turn-ends_example : (run_turn services first_turn no_effects).0 ≢ err out_of_rounds
run_turn-ends_example = run_turn-ends services first_turn no_effects

-- The same input, with the rest of a turn that failed.
abbrev leftover_turn : GraphState
leftover_turn = record first_turn {
  talker_response = some (text "Old.");
  coordinator_tool_steps = some 4;
}

run_turn-SameInput_example :
    run_turn services leftover_turn no_effects ≡ run_turn services first_turn no_effects
run_turn-SameInput_example =
    run_turn-SameInput services leftover_turn first_turn no_effects (refl, refl, refl, refl)

process_message-result_example :
    (process_message services first_turn (text "c1") (text "Hi") no_effects).0 ≢ err invalid_result
process_message-result_example =
    process_message-result services first_turn (text "c1") (text "Hi") no_effects

-- A search that finds one artifact.
abbrev searching_services : Services
searching_services = record services { search = some (λ c t ts. results (text "a1" ∷ [])) }

abbrev search_call : ToolCall
search_call = record { name = text "search_corpus"; args = text "{}"; id = text "t1" }

abbrev searching_turn : GraphState
searching_turn = record first_turn {
  turn_conversation =
      some (record { conversation_id = text "c1"; recent_messages = []; active_task = none });
  user_message = some (record {
    id = text "m1";
    conversation_id = text "c1";
    role = MessageRole.user;
    content = text "Hi";
    created_at = noon;
  });
  coordinator_messages = some (ai (text "") (search_call ∷ []) ∷ []);
}

abbrev searched_turn : GraphState
unfolding coordinator_tools
searched_turn = elim (coordinator_tools searching_services searching_turn no_effects).0 [
  | ok t ↦ t
  | err e ↦ searching_turn
]

-- A search and then the draft that it found, in a conversation that has one.
abbrev drafting_services : Services
drafting_services = record services {
  search = some (λ c t ts. results (text "artifact-v1-d" ∷ []));
  draft_id = λ t. some (text "artifact-v1-d");
  sha256 = digest;
}

abbrev draft_call : ToolCall
draft_call = record { name = text "get_draft"; args = text "{}"; id = text "t2" }

abbrev drafting_turn : GraphState
drafting_turn = record searching_turn {
  turn_conversation =
      some (record { conversation_id = text "c"; recent_messages = []; active_task = none });
  user_message = some (record {
    id = text "m1";
    conversation_id = text "c";
    role = MessageRole.user;
    content = text "Hi";
    created_at = noon;
  });
  coordinator_messages = some (ai (text "") (search_call ∷ draft_call ∷ []) ∷ []);
}

abbrev stored_effects : Effects
stored_effects = record no_effects { tables = record { artifacts = draft_row ∷ []; chunks = [] } }

abbrev drafted_turn : GraphState
unfolding coordinator_tools
drafted_turn = elim (coordinator_tools drafting_services drafting_turn stored_effects).0 [
  | ok t ↦ t
  | err e ↦ drafting_turn
]

draft_is_there : is_some (progress_of drafted_turn).retrieved ≡ true
unfolding drafted_turn editorial_team_v.Graphs.Coordinator.last_calls
    editorial_team_v.Contracts.validate_identifier editorial_team_v.Prelude.strip
    editorial_team_v.Prelude.contains editorial_team_v.Graphs.Tools.absorb
    editorial_team_v.Graphs.Tools.call_tool editorial_team_v.Prelude.text_eq
    editorial_team_v.Artifacts.Store.get_artifact_for_conversation
    editorial_team_v.Artifacts.Store.find_scoped editorial_team_v.Artifacts.Store.artifact_from_row
    editorial_team_v.Artifacts.Models.make_artifact
    editorial_team_v.Artifacts.Models.artifact_id_for
    editorial_team_v.Contracts.require_utc_timestamp
    editorial_team_v.Artifacts.Models.content_sha256
draft_is_there = refl

coordinator_tools-Searched_example :
    Searched stored_effects.tables (text "c") (progress_of drafted_turn)
    × ((coordinator_tools drafting_services drafting_turn stored_effects).1 ≡ stored_effects)
unfolding coordinator_tools editorial_team_v.Graphs.Coordinator.last_calls
    editorial_team_v.Contracts.validate_identifier editorial_team_v.Prelude.strip
    editorial_team_v.Prelude.contains editorial_team_v.Graphs.Tools.absorb
    editorial_team_v.Graphs.Tools.call_tool editorial_team_v.Prelude.text_eq
    editorial_team_v.Artifacts.Store.get_artifact_for_conversation
    editorial_team_v.Artifacts.Store.find_scoped editorial_team_v.Artifacts.Store.artifact_from_row
    editorial_team_v.Artifacts.Models.make_artifact
    editorial_team_v.Artifacts.Models.artifact_id_for
    editorial_team_v.Contracts.require_utc_timestamp
    editorial_team_v.Artifacts.Models.content_sha256
coordinator_tools-Searched_example =
    coordinator_tools-Searched drafting_services drafting_turn drafted_turn stored_effects
      (text "c") refl tt refl

-- The state that the first node leaves, and the one after the Coordinator.
abbrev asked_turn : GraphState
asked_turn = record searching_turn { coordinator_messages = none; coordinator_tool_steps = some 0 }

abbrev decided_turn : GraphState
decided_turn = record asked_turn { decision = some chat_decision }

coordinator_agent-IsAllowed_example :
    (d : CoordinatorDecision) × (decided_turn.decision ≡ some d)
    × (d.route ≡ chat)
    × IsAllowed asked_turn d
unfolding coordinator_agent route_coordinator_decision editorial_team_v.Domain.Routing.make_decision
    editorial_team_v.Contracts.require_optional
coordinator_agent-IsAllowed_example =
    coordinator_agent-IsAllowed services asked_turn decided_turn no_effects chat refl refl
