-- ===== src/Graphs/Conversation/Guards.antt =====
-- graphs/conversation.py: the decisions that may leave the Coordinator.
use editorial_team_v.Prelude.{
  Option-cases, is_some, ok, is_ok, Result-cases, Text, ◌≤◌, ◌≡◌, refl, ap, ◌∙◌, ◌≢◌, inl, inr,
  true, ◌||◌, Option, some, List, [], ◌∷◌, ◌++◌, arith,
}
use editorial_team_v.Domain.Routing.{
  CoordinatorRoute, revise_task, show_retrieved_draft, CoordinatorDecision, make_decision,
}
use editorial_team_v.Domain.Conversation.{Message, ConversationState}
use editorial_team_v.Graphs.State.{
  Reply, raised, other, value, ToolCall, ChatMessage, ai, GraphState,
}
use editorial_team_v.Graphs.Turn.{Effects, Services, turn_of}
use editorial_team_v.Graphs.Coordinator.{
  Answer, calls, decided, undecided, model_answer, check_decision, last_calls, tool_steps,
  starts_task, shows_draft, settle_answer, answer, loop_messages, scoped_tools, coordinator_agent,
}
use editorial_team_v.Graphs.Conversation.{route_to, has_calls, route_coordinator_decision}

-- A valid decision that fits what the turn has retrieved.
pub record IsAllowed (s : GraphState) (d : CoordinatorDecision) : Type 0 where
  pub valid : is_ok (make_decision d) ≡ true
  pub no_revision_after_tools : 1 ≤ tool_steps s → d.route ≢ revise_task
  pub draft_is_used :
      is_some s.retrieved_draft ≡ true → (starts_task d.route || shows_draft d.route) ≡ true
  pub draft_to_show : d.route ≡ show_retrieved_draft → is_some s.retrieved_draft ≡ true

check_decision-IsAllowed :
    (s : GraphState) (d e : CoordinatorDecision) → check_decision s d ≡ ok e → IsAllowed s d
unfolding check_decision
check_decision-IsAllowed s d e h = ground arith

last_calls-append :
    (ms : List ChatMessage) (t : Text) (cs : List ToolCall)
    → last_calls (ms ++ (ai t cs ∷ [])) ≡ some cs
unfolding last_calls
last_calls-append [] t cs = refl
last_calls-append (m ∷ []) t cs = refl
last_calls-append (m ∷ n ∷ ms) t cs = last_calls-append (n ∷ ms) t cs

model_answer-calls :
    (parse : Text → Option CoordinatorDecision) (ms ns : List ChatMessage)
    (r : Reply (Text × List ToolCall))
    → model_answer parse ms r ≡ ok (calls ns)
    → has_calls (last_calls ns) ≡ true
model_answer-calls parse ms ns raised h = ground arith
model_answer-calls parse ms ns other h = ground arith
model_answer-calls parse ms ns (value (t, [])) h = elim (Option-cases (parse t)) [
  | inl e ↦ ground arith
  | inr (d, e) ↦ ground arith
]
model_answer-calls parse ms ns (value (t, c ∷ cs)) h =
    ground (arith, last_calls-append ms t (c ∷ cs))

answer-calls :
    (services : Services) (s : GraphState) (c : ConversationState) (m : Message) (fx : Effects)
    (ns : List ChatMessage)
    → (answer services s c m fx).0 ≡ ok (calls ns)
    → has_calls (last_calls ns) ≡ true
unfolding answer
answer-calls services s c m fx ns h = elim (Option-cases services.tool_coordinator) [
  | inl e ↦ ground arith
  | inr (respond, e) ↦
      elim (Result-cases (loop_messages services s.coordinator_messages c m fx).0) [
        | inr (x, p) ↦ ground arith
        | inl (ms, p) ↦ elim (Result-cases (scoped_tools services.search c.conversation_id)) [
          | inr (x, q) ↦ ground arith
          | inl (f, q) ↦
              model_answer-calls services.parse_decision ms ns (respond ms) (rw (e, p, q) at h)
        ]
      ]
]

settle-IsAllowed :
    (s t : GraphState) (a : Answer) (r : CoordinatorRoute)
    → settle_answer s a ≡ ok t
    → ((ns : List ChatMessage) → a ≡ calls ns → has_calls (last_calls ns) ≡ true)
    → route_coordinator_decision t ≡ ok (route_to r)
    → (d : CoordinatorDecision) × (t.decision ≡ some d) × (d.route ≡ r) × IsAllowed s d
unfolding settle_answer route_coordinator_decision
settle-IsAllowed s t (calls ns) r h w k = ground (arith, w ns refl)
settle-IsAllowed s t undecided r h w k = ground arith
settle-IsAllowed s t (decided d ms) r h w k = elim (Result-cases (check_decision s d)) [
  | inl (e, p) ↦ (d, ground arith, ground arith, check_decision-IsAllowed s d e p)
  | inr (x, p) ↦ ground arith
]

-- Where the Coordinator succeeds and the graph then follows a route that is not the one to its
-- tools, the state holds a decision for that route which is valid, does not revise the active task
-- after a round of tools, starts a task or shows the draft if a draft was retrieved, and shows a
-- draft only if one was retrieved.
pub coordinator_agent-IsAllowed :
    (services : Services) (s t : GraphState) (fx : Effects) (r : CoordinatorRoute)
    → (coordinator_agent services s fx).0 ≡ ok t
    → route_coordinator_decision t ≡ ok (route_to r)
    → (d : CoordinatorDecision) × (t.decision ≡ some d) × (d.route ≡ r) × IsAllowed s d
unfolding coordinator_agent
coordinator_agent-IsAllowed services s t fx r h k = elim (Result-cases (turn_of s)) [
  | inr (e, q) ↦ ground arith
  | inl ((c, m), q) ↦ elim (Result-cases (answer services s c m fx).0) [
    | inr (e, p) ↦ ground arith
    | inl (a, p) ↦
        settle-IsAllowed s t a r (rw (q, p) at h)
          (λ ns e. answer-calls services s c m fx ns (p ∙ ap ok e)) k
  ]
]
