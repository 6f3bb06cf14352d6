-- ===== src/Graphs/Conversation/Ends.antt =====
-- graphs/conversation.py: a turn never runs out of the rounds that it is given.
use editorial_team_v.Prelude.{err, Result-cases, ℕ, zero, suc, ◌+◌, ◌≤◌, ◌≢◌, inl, inr, arith}
use editorial_team_v.Domain.Routing.{
  CoordinatorRoute, chat, start_writing_task, revise_task, show_retrieved_draft,
}
use editorial_team_v.Graphs.State.{GraphState}
use editorial_team_v.Graphs.Turn.{out_of_rounds, Effects, Services}
use editorial_team_v.Graphs.Turn.Chains.{Avoids, chain-Avoids}
use editorial_team_v.Graphs.Coordinator.{tool_steps, coordinator_agent}
use editorial_team_v.Graphs.Tools.{coordinator_tools}
use editorial_team_v.Graphs.Prepare.{validate_and_prepare_turn}
use editorial_team_v.Graphs.Finish.{finalize_turn}
use editorial_team_v.Graphs.Conversation.{
  tools, route_to, write_task, follow_route, run_rounds, run_turn_within, run_turn,
  route_coordinator_decision,
}
use editorial_team_v.Graphs.Conversation.Errors.{
  talker-ends, subgraph-ends, new_task-ends, prepare-ends, agent-ends, tools-ends, revision-ends,
  task-ends, turn-ends, persist-ends,
}
use editorial_team_v.Graphs.Conversation.Rounds.{
  agent-tool_steps, tools-tool_steps, prepared-tool_steps,
}

module _ (services : Services) where
  finish-ends : (s : GraphState) → Avoids out_of_rounds (finalize_turn services s)
  unfolding finalize_turn
  finish-ends s = turn-ends services s

  write-ends : (s : GraphState) → Avoids out_of_rounds (write_task services s)
  unfolding write_task
  write-ends s =
      chain-Avoids out_of_rounds _ _ (subgraph-ends services s)
        λ e. chain-Avoids out_of_rounds _ _ (task-ends services e) λ f. persist-ends services f

  route-ends :
      (r : CoordinatorRoute) (s : GraphState) → Avoids out_of_rounds (follow_route services r s)
  unfolding follow_route
  route-ends chat s = chain-Avoids out_of_rounds _ _ (talker-ends services s) finish-ends
  route-ends show_retrieved_draft s = finish-ends s
  route-ends start_writing_task s =
      chain-Avoids out_of_rounds _ _ (new_task-ends services s) write-ends
  route-ends revise_task s = chain-Avoids out_of_rounds _ _ (revision-ends services s) write-ends

  edge-ends : (s : GraphState) → route_coordinator_decision s ≢ err out_of_rounds
  unfolding route_coordinator_decision
  edge-ends s = ground arith

  rounds-ends :
      (n : ℕ) (s : GraphState) (fx : Effects)
      → tool_steps s ≤ 6
      → 7 ≤ n + tool_steps s
      → (run_rounds services n s fx).0 ≢ err out_of_rounds
  unfolding run_rounds
  rounds-ends zero s fx low high = ground arith
  rounds-ends (suc n) s fx low high = elim (Result-cases (coordinator_agent services s fx).0) [
    | inr (e, p) ↦ ground (arith, agent-ends services s fx)
    | inl (a, p) ↦ elim (Result-cases (route_coordinator_decision a)) [
      | inr (e, q) ↦ ground (arith, edge-ends a)
      | inl (route_to r, q) ↦ ground (arith, route-ends r a (coordinator_agent services s fx).1)
      | inl (tools, q) ↦
          elim (Result-cases (coordinator_tools services a (coordinator_agent services s fx).1).0) [
            | inr (e, r) ↦ ground (arith, tools-ends services a (coordinator_agent services s fx).1)
            | inl (t, r) ↦
                let one = agent-tool_steps services s a fx p in
                let two = tools-tool_steps services a t (coordinator_agent services s fx).1 r in
                let rest =
                  rounds-ends n t
                    (coordinator_tools services a (coordinator_agent services s fx).1).1
                    (omega (arith, one, two)) (omega (arith, one, two)) in
                rw (p, q, r) rest
          ]
    ]
  ]

-- A turn of the conversation graph never ends because it is out of rounds: seven visits of the
-- Coordinator are enough in every turn.
pub run_turn-ends :
    (services : Services) (s : GraphState) (fx : Effects)
    → (run_turn services s fx).0 ≢ err out_of_rounds
unfolding run_turn run_turn_within
run_turn-ends services s fx = elim (Result-cases (validate_and_prepare_turn services s fx).0) [
  | inr (e, p) ↦ ground (arith, prepare-ends services s fx)
  | inl (t, p) ↦
      let zero_steps = prepared-tool_steps services s t fx p in
      let rest =
        rounds-ends services 7 t (validate_and_prepare_turn services s fx).1
          (omega (arith, zero_steps)) (omega (arith, zero_steps)) in
      rw p rest
]
