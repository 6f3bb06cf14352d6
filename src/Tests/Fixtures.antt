-- ===== src/Tests/Fixtures.antt =====
-- The values that the examples share.
use editorial_team_v.Prelude.{ok, text, none, some, [], false}
use editorial_team_v.Contracts.{Datetime, east}
use editorial_team_v.Domain.Editorial.{CriticReport, pass}
use editorial_team_v.Domain.Routing.{chat, CoordinatorDecision, finite}
use editorial_team_v.Graphs.State.{value, GraphState}
use editorial_team_v.Graphs.Editorial.{Agents}
use editorial_team_v.Graphs.Turn.{Effects, Services}

abbrev pub noon : Datetime
noon = record { instant = 1000000; zone = east 0 }

abbrev pub chat_decision : CoordinatorDecision
chat_decision = record {
  route = chat;
  confidence = finite false 1 1;
  task_input = none;
  revision_instructions = none;
  talker_context = none;
}

abbrev pub clean_report : CriticReport
clean_report = record { verdict = pass; summary = text "Good."; issues = [] }

abbrev pub agents : Agents
agents = record {
  write = λ c. value (text "A draft.");
  review = λ c d. value clean_report;
  edit = λ c d r. value (text "A better draft.");
}

abbrev pub services : Services
services = record {
  coordinator = λ c m. value chat_decision;
  tool_coordinator = none;
  parse_decision = λ t. none;
  prompt = λ c m t. some (text "Decide.");
  talker = λ c m x. value (text "Hello.");
  agents = agents;
  search = none;
  draft_id = λ t. none;
  identifiers = λ n. value (text "id");
  clock = λ n. value noon;
  max_recent_messages = 1;
  sha256 = λ t. t;
  stamp = λ t. text "1";
  unstamp = λ t. ok noon;
  chunker_version = text "v1";
  chunk = λ a. ok [];
}

abbrev pub no_effects : Effects
no_effects = record {
  id_calls = 0;
  clock_calls = 0;
  tables = record { artifacts = []; chunks = [] };
}

abbrev pub first_turn : GraphState
first_turn = record {
  state_version = some 1;
  conversation_id = some (text "c1");
  input_text = some (text "Hi");
  conversation = none;
  turn_conversation = none;
  user_message = none;
  decision = none;
  talker_response = none;
  writing_task = none;
  editorial_run_context = none;
  writer_run_id = none;
  critic_run_id = none;
  writer_output = none;
  critic_report = none;
  working_draft = none;
  editorial_result = none;
  assistant_messages = none;
  coordinator_messages = none;
  coordinator_tool_steps = none;
  coordinator_search_completed = none;
  retrieved_draft = none;
}
