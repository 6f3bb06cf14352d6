-- ===== src/Graphs/Service/Reply.antt =====
-- conversation/service.py: the graph's results pass the service's check.
use editorial_team_v.Prelude.{err, Result-cases, Text, ◌≢◌, inl, inr, arith}
use editorial_team_v.Contracts.{validate_identifier, require_non_blank}
use editorial_team_v.Graphs.State.{GraphState}
use editorial_team_v.Graphs.Turn.{Effects, Services}
use editorial_team_v.Graphs.Conversation.{run_turn}
use editorial_team_v.Graphs.Conversation.Completed.{run_turn-Completed}
use editorial_team_v.Graphs.Service.{invalid_result, invocation, process_message}

-- `process_message` never refuses the graph's result as invalid: a turn that succeeds has assistant
-- messages.
pub process_message-result :
    (services : Services) (stored : GraphState) (conversation t : Text) (fx : Effects)
    → (process_message services stored conversation t fx).0 ≢ err invalid_result
unfolding process_message
process_message-result services stored conversation t fx =
    elim (Result-cases (validate_identifier conversation "conversation_id")) [
      | inr (e, p) ↦ ground arith
      | inl (id, p) ↦ elim (Result-cases (require_non_blank t "text")) [
        | inr (e, q) ↦ ground arith
        | inl (input, q) ↦
            elim (Result-cases (run_turn services (invocation stored id input) fx).0) [
              | inr (e, r) ↦ ground arith
              | inl (done, r) ↦
                  let (i, j, (c, ms, same, some_message, finished)) =
                    run_turn-Completed services (invocation stored id input) done fx r in
                  ground arith
            ]
      ]
    ]
