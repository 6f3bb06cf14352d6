-- ===== src/Graphs/Conversation/Effect.antt =====
-- graphs/conversation.py: a turn that fails leaves the stored artifacts as they were.
use editorial_team_v.Prelude.{
  err, Result-cases, Text, ℕ, zero, suc, ◌≡◌, refl, ◌∙◌, inl, inr, List, [], ◌∷◌, arith,
}
use editorial_team_v.Domain.Routing.{
  CoordinatorRoute, chat, start_writing_task, revise_task, show_retrieved_draft,
}
use editorial_team_v.Domain.Conversation.{MessageRole, assistant, ConversationState}
use editorial_team_v.Graphs.State.{GraphState}
use editorial_team_v.Graphs.Turn.{
  GraphError, decision_of, turn_of, identifier, timestamp, message, Effects, Services,
}
use editorial_team_v.Graphs.Turn.Chains.{Idle, Safe}
use editorial_team_v.Graphs.Coordinator.{loop_messages, answer, coordinator_agent}
use editorial_team_v.Graphs.Tools.{coordinator_tools}
use editorial_team_v.Graphs.Prepare.{validate_and_prepare_turn}
use editorial_team_v.Graphs.Tasks.{
  talker, prepare_new_task, prepare_revision, editorial_subgraph, finalize_task,
}
use editorial_team_v.Graphs.Finish.{
  activate_draft, turn_contents, assistant_messages_of, completed_turn_state, save_artifacts,
  finalize_turn, persist_editorial_artifacts,
}
use editorial_team_v.Graphs.Conversation.{
  tools, route_to, write_task, follow_route, run_rounds, run_turn_within, run_turn,
  route_coordinator_decision,
}

module _ (services : Services) where
  prepare-Idle : (s : GraphState) → Idle (validate_and_prepare_turn services s)
  unfolding validate_and_prepare_turn message identifier timestamp
  prepare-Idle s fx = ground arith

  talker-Idle : (s : GraphState) → Idle (talker services s)
  unfolding talker
  talker-Idle s fx = ground arith

  agent-Idle : (s : GraphState) → Idle (coordinator_agent services s)
  unfolding coordinator_agent answer loop_messages timestamp
  agent-Idle s fx = ground arith

  tools-Idle : (s : GraphState) → Idle (coordinator_tools services s)
  unfolding coordinator_tools
  tools-Idle s fx = ground arith

  new_task-Idle : (s : GraphState) → Idle (prepare_new_task services s)
  unfolding prepare_new_task identifier timestamp
  new_task-Idle s fx = ground arith

  revision-Idle : (s : GraphState) → Idle (prepare_revision services s)
  unfolding prepare_revision identifier timestamp
  revision-Idle s fx = ground arith

  subgraph-Idle : (s : GraphState) → Idle (editorial_subgraph services s)
  unfolding editorial_subgraph
  subgraph-Idle s fx = ground arith

  task-Idle : (s : GraphState) → Idle (finalize_task services s)
  unfolding finalize_task timestamp
  task-Idle s fx = ground arith

  contents-Idle :
      (r : CoordinatorRoute) (s : GraphState) (c : ConversationState)
      → Idle (turn_contents services r s c)
  unfolding turn_contents activate_draft identifier timestamp
  contents-Idle r s c fx = ground arith

  message-Idle : (c : Text) (r : MessageRole) (t : Text) → Idle (message services c r t)
  unfolding message identifier timestamp
  message-Idle c r t fx = ground arith

  messages-Idle : (c : Text) (ts : List Text) → Idle (assistant_messages_of services c ts)
  unfolding assistant_messages_of
  messages-Idle c [] fx = ground arith
  messages-Idle c (t ∷ ts) fx = elim (Result-cases (message services c assistant t fx).0) [
    | inl (m, e) ↦ ground (
      arith,
      message-Idle c assistant t fx,
      messages-Idle c ts (message services c assistant t fx).1,
    )
    | inr (e, h) ↦ ground (arith, message-Idle c assistant t fx)
  ]

  completed-Idle : (s : GraphState) → Idle (completed_turn_state services s)
  unfolding completed_turn_state
  completed-Idle s fx = elim (Result-cases (turn_of s)) [
    | inr (e, h) ↦ ground arith
    | inl ((c, m), h) ↦ elim (Result-cases (decision_of s.decision)) [
      | inr (e, q) ↦ ground arith
      | inl (d, q) ↦ elim (Result-cases (turn_contents services d.route s c fx).0) [
        | inr (e, r) ↦ ground (arith, contents-Idle d.route s c fx)
        | inl ((a, ts), r) ↦ ground (
          arith,
          contents-Idle d.route s c fx,
          messages-Idle a.conversation_id ts (turn_contents services d.route s c fx).1,
        )
      ]
    ]
  ]

  finish-Idle : (s : GraphState) → Idle (finalize_turn services s)
  unfolding finalize_turn
  finish-Idle s = completed-Idle s

  persist-Safe : (s : GraphState) → Safe (persist_editorial_artifacts services s)
  unfolding persist_editorial_artifacts save_artifacts
  persist-Safe s fx e p = elim (Result-cases (completed_turn_state services s fx).0) [
    | inr (x, h) ↦ ground (arith, completed-Idle s fx)
    | inl (t, h) ↦ ground (arith, completed-Idle s fx)
  ]

  write-Safe : (s : GraphState) → Safe (write_task services s)
  unfolding write_task
  write-Safe s fx e p = elim (Result-cases (editorial_subgraph services s fx).0) [
    | inr (x, h) ↦ ground (arith, subgraph-Idle s fx)
    | inl (a, h) ↦
        elim (Result-cases (finalize_task services a (editorial_subgraph services s fx).1).0) [
          | inr (x, q) ↦
              ground (arith, subgraph-Idle s fx, task-Idle a (editorial_subgraph services s fx).1)
          | inl (b, q) ↦ ground (
            arith,
            subgraph-Idle s fx,
            task-Idle a (editorial_subgraph services s fx).1,
            persist-Safe b (finalize_task services a (editorial_subgraph services s fx).1).1 e,
          )
        ]
  ]

  route-Safe : (r : CoordinatorRoute) (s : GraphState) → Safe (follow_route services r s)
  unfolding follow_route
  route-Safe chat s fx e p = elim (Result-cases (talker services s fx).0) [
    | inr (x, h) ↦ ground (arith, talker-Idle s fx)
    | inl (t, h) ↦ ground (arith, talker-Idle s fx, finish-Idle t (talker services s fx).1)
  ]
  route-Safe show_retrieved_draft s fx e p = finish-Idle s fx
  route-Safe start_writing_task s fx e p = elim (Result-cases (prepare_new_task services s fx).0) [
    | inr (x, h) ↦ ground (arith, new_task-Idle s fx)
    | inl (t, h) ↦
        ground (arith, new_task-Idle s fx, write-Safe t (prepare_new_task services s fx).1 e)
  ]
  route-Safe revise_task s fx e p = elim (Result-cases (prepare_revision services s fx).0) [
    | inr (x, h) ↦ ground (arith, revision-Idle s fx)
    | inl (t, h) ↦
        ground (arith, revision-Idle s fx, write-Safe t (prepare_revision services s fx).1 e)
  ]

  rounds-Safe : (n : ℕ) (s : GraphState) → Safe (run_rounds services n s)
  unfolding run_rounds
  rounds-Safe zero s fx e p = refl
  rounds-Safe (suc n) s fx e p = elim (Result-cases (coordinator_agent services s fx).0) [
    | inr (x, h) ↦ ground (arith, agent-Idle s fx)
    | inl (a, h) ↦ elim (Result-cases (route_coordinator_decision a)) [
      | inr (x, q) ↦ ground (arith, agent-Idle s fx)
      | inl (route_to r, q) ↦
          ground (arith, agent-Idle s fx, route-Safe r a (coordinator_agent services s fx).1 e)
      | inl (tools, q) ↦
          elim (Result-cases (coordinator_tools services a (coordinator_agent services s fx).1).0) [
            | inr (x, r) ↦
                ground (arith, agent-Idle s fx, tools-Idle a (coordinator_agent services s fx).1)
            | inl (t, r) ↦
                let rest =
                  rounds-Safe n t
                    (coordinator_tools services a (coordinator_agent services s fx).1).1 e in
                rw (h, q, r)
                  (rest (rw (h, q, r) at p)
                    ∙ tools-Idle a (coordinator_agent services s fx).1
                    ∙ agent-Idle s fx)
          ]
    ]
  ]

-- A turn of the conversation graph that fails leaves the tables of stored artifacts as they were,
-- whichever node failed.
pub run_turn-Safe :
    (services : Services) (s : GraphState) (fx : Effects) (e : GraphError)
    → (run_turn services s fx).0 ≡ err e
    → (run_turn services s fx).1.tables ≡ fx.tables
unfolding run_turn run_turn_within
run_turn-Safe services s fx e p = elim (Result-cases (validate_and_prepare_turn services s fx).0) [
  | inr (x, h) ↦ ground (arith, prepare-Idle services s fx)
  | inl (t, h) ↦ rw h (
      rounds-Safe services 7 t (validate_and_prepare_turn services s fx).1 e (rw h at p)
      ∙ prepare-Idle services s fx)
]
