-- ===== src/Graphs/Conversation.antt =====
-- graphs/conversation.py: the conversation graph from START to END. `rounds` bounds the visits of the
-- Coordinator: its tool node refuses the seventh round, so seven are enough, and a graph of
-- seven visits has fewer steps than LangGraph's limit of 25.
pub mod Rounds
pub mod Errors
pub mod Ends
pub mod Effect
pub mod Kept
pub mod Completed
pub mod Leftovers
pub mod Guards
use editorial_team_v.Prelude.{
  if◌then◌else◌, is_empty, Result, ok, err, ℕ, zero, suc, Bool, false, not, Option, none, some,
  List,
}
use editorial_team_v.Domain.Routing.{
  CoordinatorRoute, chat, start_writing_task, revise_task, show_retrieved_draft,
  CoordinatorDecision,
}
use editorial_team_v.Graphs.State.{ToolCall, GraphState}
use editorial_team_v.Graphs.Turn.{
  GraphError, out_of_rounds, invalid_decision, Services, Turn, raise, lift, ◌>>=◌, ◌>>◌,
}
use editorial_team_v.Graphs.Coordinator.{pending_calls, coordinator_agent}
use editorial_team_v.Graphs.Tools.{max_coordinator_tool_rounds, coordinator_tools}
use editorial_team_v.Graphs.Prepare.{validate_and_prepare_turn}
use editorial_team_v.Graphs.Tasks.{
  talker, prepare_new_task, prepare_revision, editorial_subgraph, finalize_task,
}
use editorial_team_v.Graphs.Finish.{finalize_turn, persist_editorial_artifacts}

-- `tools`, or the route of the decision
pub data ParentRoute : Type 0 where
  tools : ParentRoute
  route_to : CoordinatorRoute → ParentRoute

abbrev pub has_calls : Option (List ToolCall) → Bool
has_calls none = false
has_calls (some cs) = not (is_empty cs)

abbrev pub decided_route : Option CoordinatorDecision → Result GraphError ParentRoute
decided_route none = err invalid_decision
decided_route (some d) = ok (route_to d.route)

unfoldable pub route_coordinator_decision : GraphState → Result GraphError ParentRoute
route_coordinator_decision s =
    if has_calls (pending_calls s.coordinator_messages) then ok tools else decided_route s.decision

module _ (services : Services) where
  -- From the subgraph to the end of a writing turn.
  unfoldable pub write_task : GraphState → Turn GraphState
  write_task s = do
    e ← editorial_subgraph services s
    f ← finalize_task services e
    persist_editorial_artifacts services f

  -- The edges that leave the Coordinator with a decision.
  unfoldable pub follow_route : CoordinatorRoute → GraphState → Turn GraphState
  unfolding write_task
  follow_route chat s = do t ← talker services s; finalize_turn services t
  follow_route show_retrieved_draft s = finalize_turn services s
  follow_route start_writing_task s = do p ← prepare_new_task services s; write_task p
  follow_route revise_task s = do p ← prepare_revision services s; write_task p

  unfoldable pub run_rounds : ℕ → GraphState → Turn GraphState
  unfolding follow_route
  run_rounds zero s = raise out_of_rounds
  run_rounds (suc n) s = do
    a ← coordinator_agent services s
    r ← lift (route_coordinator_decision a)
    elim r [
      | tools ↦ (do t ← coordinator_tools services a; run_rounds n t)
      | route_to route ↦ follow_route route a
    ]

  unfoldable pub run_turn_within : ℕ → GraphState → Turn GraphState
  unfolding run_rounds
  run_turn_within rounds s = do p ← validate_and_prepare_turn services s; run_rounds rounds p

  unfoldable pub run_turn : GraphState → Turn GraphState
  unfolding run_turn_within
  run_turn s = run_turn_within (suc max_coordinator_tool_rounds) s
