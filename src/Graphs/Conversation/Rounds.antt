-- ===== src/Graphs/Conversation/Rounds.antt =====
-- graphs/conversation.py: the number of visits of the Coordinator in one turn.
use editorial_team_v.Prelude.{ok, Result-cases, suc, ◌<◌, ◌≡◌, inl, inr, arith}
use editorial_team_v.Graphs.State.{GraphState}
use editorial_team_v.Graphs.Turn.{Effects, Services, turn_of}
use editorial_team_v.Graphs.Coordinator.{
  Answer, calls, decided, undecided, settle_answer, check_decision, tool_steps, answer,
  coordinator_agent,
}
use editorial_team_v.Graphs.Tools.{finish_tools, coordinator_tools}
use editorial_team_v.Graphs.Prepare.{validate_and_prepare_turn}

settle-tool_steps :
    (s : GraphState) (a : Answer) {t : GraphState}
    → settle_answer s a ≡ ok t
    → tool_steps t ≡ tool_steps s
unfolding settle_answer
settle-tool_steps s (calls ms) h = grind arith
settle-tool_steps s undecided h = cc
settle-tool_steps s (decided d ms) h = elim (Result-cases (check_decision s d)) [
  | inl (a, e) ↦ grind arith
  | inr (x, e) ↦ grind arith
]

-- The Coordinator leaves the number of rounds alone.
pub agent-tool_steps :
    (services : Services) (s t : GraphState) (fx : Effects)
    → (coordinator_agent services s fx).0 ≡ ok t
    → tool_steps t ≡ tool_steps s
unfolding coordinator_agent
agent-tool_steps services s t fx h = elim (Result-cases (turn_of s)) [
  | inr (e, q) ↦ ground arith
  | inl ((c, m), q) ↦ elim (Result-cases (answer services s c m fx).0) [
    | inr (e, p) ↦ ground arith
    | inl (a, p) ↦ ground (arith, settle-tool_steps s a)
  ]
]

-- A round of the tools is one of the six, and counts.
pub tools-tool_steps :
    (services : Services) (s t : GraphState) (fx : Effects)
    → (coordinator_tools services s fx).0 ≡ ok t
    → (tool_steps s < 6) × (tool_steps t ≡ suc (tool_steps s))
unfolding coordinator_tools finish_tools
tools-tool_steps services s t fx h = ground arith

pub prepared-tool_steps :
    (services : Services) (s t : GraphState) (fx : Effects)
    → (validate_and_prepare_turn services s fx).0 ≡ ok t
    → tool_steps t ≡ 0
unfolding validate_and_prepare_turn
prepared-tool_steps services s t fx h = ground arith
