-- ===== src/Graphs/Conversation/Errors.antt =====
-- graphs/conversation.py: no node asks for more rounds.
use editorial_team_v.Prelude.{
  Option-cases, err, Result-cases, Text, ◌≢◌, inl, inr, List, [], ◌∷◌, arith,
}
use editorial_team_v.Domain.Conversation.{MessageRole, assistant, ConversationState}
use editorial_team_v.Domain.Routing.{CoordinatorRoute}
use editorial_team_v.Domain.Editorial.{EditorialResult, WritingTask}
use editorial_team_v.Artifacts.Store.{Tables}
use editorial_team_v.Graphs.State.{ToolOutput, ToolCall, GraphState}
use editorial_team_v.Graphs.Turn.{
  SearchReply, decision_of, out_of_rounds, Effects, Services, identifier, timestamp, message,
  turn_of,
}
use editorial_team_v.Graphs.Coordinator.{pending_calls, scoped_tools, coordinator_agent}
use editorial_team_v.Graphs.Tools.{
  ToolProgress, run_calls, absorb, call_tool, progress_of, coordinator_tools,
}
use editorial_team_v.Graphs.Prepare.{validate_and_prepare_turn}
use editorial_team_v.Graphs.Tasks.{
  talker, prepare_new_task, prepare_revision, editorial_subgraph, finalize_task,
}
use editorial_team_v.Graphs.Finish.{
  assistant_messages_of, turn_contents, completed_turn_state, artifacts_of,
  persist_editorial_artifacts,
}

module _ (services : Services) where
  pub talker-ends : (s : GraphState) (fx : Effects) → (talker services s fx).0 ≢ err out_of_rounds
  unfolding talker
  talker-ends s fx = ground arith

  pub identifier-ends : (fx : Effects) → (identifier services fx).0 ≢ err out_of_rounds
  unfolding identifier
  identifier-ends fx = ground arith

  pub timestamp-ends : (fx : Effects) → (timestamp services fx).0 ≢ err out_of_rounds
  unfolding timestamp
  timestamp-ends fx = ground arith

  pub subgraph-ends :
      (s : GraphState) (fx : Effects) → (editorial_subgraph services s fx).0 ≢ err out_of_rounds
  unfolding editorial_subgraph
  subgraph-ends s fx = ground arith

  pub new_task-ends :
      (s : GraphState) (fx : Effects) → (prepare_new_task services s fx).0 ≢ err out_of_rounds
  unfolding prepare_new_task
  new_task-ends s fx = ground arith

  pub message-ends :
      (c : Text) (r : MessageRole) (t : Text) (fx : Effects)
      → (message services c r t fx).0 ≢ err out_of_rounds
  unfolding message
  message-ends c r t fx = ground arith

  pub prepare-ends :
      (s : GraphState) (fx : Effects)
      → (validate_and_prepare_turn services s fx).0 ≢ err out_of_rounds
  unfolding validate_and_prepare_turn
  prepare-ends s fx = ground (arith)

  pub agent-ends :
      (s : GraphState) (fx : Effects) → (coordinator_agent services s fx).0 ≢ err out_of_rounds
  unfolding coordinator_agent
  agent-ends s fx = ground (arith)

  pub absorb-ends :
      (c : Text) (ts : Tables) (f : Text → Text → Tables → SearchReply) (o : ToolOutput)
      (p : ToolProgress)
      → absorb services c ts f o p ≢ err out_of_rounds
  unfolding absorb
  absorb-ends c ts f o p = ground arith

  pub calls-ends :
      (c : Text) (ts : Tables) (f : Text → Text → Tables → SearchReply) (cs : List ToolCall)
      (p : ToolProgress)
      → run_calls services c ts f cs p ≢ err out_of_rounds
  unfolding run_calls
  calls-ends c ts f [] p = ground arith
  calls-ends c ts f (x ∷ cs) p =
      elim (Result-cases
        (absorb services c ts f (call_tool services c ts f p.search_completed x) p)) [
          | inl ((o, q), e) ↦ ground (arith, calls-ends c ts f cs q)
          | inr (e, h) ↦
              ground (arith, absorb-ends c ts f (call_tool services c ts f p.search_completed x) p)
        ]

  pub messages-ends :
      (c : Text) (ts : List Text) (fx : Effects)
      → (assistant_messages_of services c ts fx).0 ≢ err out_of_rounds
  unfolding assistant_messages_of
  messages-ends c [] fx = ground arith
  messages-ends c (t ∷ ts) fx = elim (Result-cases (message services c assistant t fx).0) [
    | inl (m, e) ↦ ground (arith, messages-ends c ts (message services c assistant t fx).1)
    | inr (e, h) ↦ ground (arith, message-ends c assistant t fx)
  ]

  pub tools-ends :
      (s : GraphState) (fx : Effects) → (coordinator_tools services s fx).0 ≢ err out_of_rounds
  unfolding coordinator_tools
  tools-ends s fx = elim (Result-cases (turn_of s)) [
    | inr (e, h) ↦ ground arith
    | inl ((c, m), e) ↦ elim (Option-cases (pending_calls s.coordinator_messages)) [
      | inl h ↦ ground arith
      | inr (cs, h) ↦ elim (Result-cases (scoped_tools services.search c.conversation_id)) [
        | inr (x, q) ↦ ground arith
        | inl (f, q) ↦ ground (arith, calls-ends c.conversation_id fx.tables f cs (progress_of s))
      ]
    ]
  ]

  pub revision-ends :
      (s : GraphState) (fx : Effects) → (prepare_revision services s fx).0 ≢ err out_of_rounds
  unfolding prepare_revision
  revision-ends s fx = ground arith

  pub task-ends :
      (s : GraphState) (fx : Effects) → (finalize_task services s fx).0 ≢ err out_of_rounds
  unfolding finalize_task
  task-ends s fx = ground arith

  pub contents-ends :
      (r : CoordinatorRoute) (s : GraphState) (c : ConversationState) (fx : Effects)
      → (turn_contents services r s c fx).0 ≢ err out_of_rounds
  unfolding turn_contents
  contents-ends r s c fx = ground arith

  pub turn-ends :
      (s : GraphState) (fx : Effects) → (completed_turn_state services s fx).0 ≢ err out_of_rounds
  unfolding completed_turn_state
  turn-ends s fx = elim (Result-cases (turn_of s)) [
    | inr (e, h) ↦ ground arith
    | inl ((c, m), h) ↦ elim (Result-cases (decision_of s.decision)) [
      | inr (e, q) ↦ ground arith
      | inl (d, q) ↦ elim (Result-cases (turn_contents services d.route s c fx).0) [
        | inr (e, r) ↦ ground (arith, contents-ends d.route s c fx)
        | inl ((a, ts), r) ↦
            ground
              (arith, messages-ends a.conversation_id ts (turn_contents services d.route s c fx).1)
      ]
    ]
  ]

  pub artifacts-ends :
      (r : EditorialResult) (t : WritingTask) (c : ConversationState) (u : Text)
      → artifacts_of services r t c u ≢ err out_of_rounds
  unfolding artifacts_of
  artifacts-ends r t c u = ground arith

  pub persist-ends :
      (s : GraphState) (fx : Effects)
      → (persist_editorial_artifacts services s fx).0 ≢ err out_of_rounds
  unfolding persist_editorial_artifacts
  persist-ends s fx = elim (Result-cases (completed_turn_state services s fx).0) [
    | inr (e, h) ↦ ground (arith, turn-ends s fx)
    | inl (t, h) ↦ ground arith
  ]
