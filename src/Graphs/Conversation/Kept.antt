-- ===== src/Graphs/Conversation/Kept.antt =====
-- graphs/conversation.py: what every node of a turn keeps.
use editorial_team_v.Prelude.{
  is_empty, ok, Result-cases, Text, text_eq_sound, ◌≡◌, inl, inr, false, Option, none, some, List,
  arith,
}
use editorial_team_v.Contracts.{validate_identifier}
use editorial_team_v.Contracts.Identity.{validate_identifier_idem}
use editorial_team_v.Domain.Routing.{CoordinatorRoute}
use editorial_team_v.Domain.Conversation.{ConversationState, make_conversation}
use editorial_team_v.Graphs.State.{GraphState}
use editorial_team_v.Graphs.Turn.{turn_of, Effects, Services}
use editorial_team_v.Graphs.Turn.Chains.{Yields}
use editorial_team_v.Graphs.Coordinator.{
  Answer, calls, decided, undecided, check_decision, answer, settle_answer, coordinator_agent,
}
use editorial_team_v.Graphs.Tools.{finish_tools, coordinator_tools}
use editorial_team_v.Graphs.Prepare.{
  stored_conversation, required_identifier, validate_and_prepare_turn,
}
use editorial_team_v.Graphs.Tasks.{
  talker, prepare_new_task, prepare_revision, editorial_subgraph, finalize_task,
}
use editorial_team_v.Graphs.Finish.{activate_draft, turn_contents}

abbrev pub turn_id : GraphState → Option Text
turn_id s = elim s.turn_conversation [ none ↦ none | some c ↦ some c.conversation_id ]

-- During a turn on the conversation `id`: the keys that no node updates, and the conversation.
abbrev pub Kept : Text → GraphState → GraphState → Type 0
Kept id s u =
    (u.state_version ≡ s.state_version)
    × (u.conversation_id ≡ s.conversation_id)
    × (turn_id u ≡ some id)
    × (validate_identifier id "conversation_id" ≡ ok id)

pub settle-Kept :
    (id : Text) (s u : GraphState) (a : Answer) {t : GraphState}
    → Kept id s u
    → settle_answer u a ≡ ok t
    → Kept id s t
unfolding settle_answer
settle-Kept id s u (calls ms) k h = ground arith
settle-Kept id s u undecided k h = ground arith
settle-Kept id s u (decided d ms) k h = elim (Result-cases (check_decision u d)) [
  | inl (a, e) ↦ ground arith
  | inr (x, e) ↦ ground arith
]

module _ (services : Services) (id : Text) (s : GraphState) where
  pub talker-Kept : (u : GraphState) → Kept id s u → Yields (Kept id s) (talker services u)
  unfolding talker
  talker-Kept u k fx t h = ground arith

  pub agent-Kept :
      (u : GraphState) → Kept id s u → Yields (Kept id s) (coordinator_agent services u)
  unfolding coordinator_agent
  agent-Kept u k fx t h = elim (Result-cases (turn_of u)) [
    | inr (e, q) ↦ ground arith
    | inl ((c, m), q) ↦ elim (Result-cases (answer services u c m fx).0) [
      | inr (e, p) ↦ ground arith
      | inl (a, p) ↦ settle-Kept id s u a k (rw (q, p) at h)
    ]
  ]

  pub tools-Kept :
      (u : GraphState) → Kept id s u → Yields (Kept id s) (coordinator_tools services u)
  unfolding coordinator_tools finish_tools
  tools-Kept u k fx t h = ground arith

  pub new_task-Kept :
      (u : GraphState) → Kept id s u → Yields (Kept id s) (prepare_new_task services u)
  unfolding prepare_new_task
  new_task-Kept u k fx t h = ground arith

  pub revision-Kept :
      (u : GraphState) → Kept id s u → Yields (Kept id s) (prepare_revision services u)
  unfolding prepare_revision
  revision-Kept u k fx t h = ground arith

  pub subgraph-Kept :
      (u : GraphState) → Kept id s u → Yields (Kept id s) (editorial_subgraph services u)
  unfolding editorial_subgraph
  subgraph-Kept u k fx t h = ground arith

  pub task-Kept : (u : GraphState) → Kept id s u → Yields (Kept id s) (finalize_task services u)
  unfolding finalize_task make_conversation
  task-Kept u k fx t h = ground arith

  pub contents-Kept :
      (r : CoordinatorRoute) (u : GraphState) (c a : ConversationState) (ts : List Text)
      (fx : Effects)
      → c.conversation_id ≡ id
      → validate_identifier id "conversation_id" ≡ ok id
      → (turn_contents services r u c fx).0 ≡ ok (a, ts)
      → (a.conversation_id ≡ id) × (is_empty ts ≡ false)
  unfolding turn_contents activate_draft make_conversation
  contents-Kept r u c a ts fx k v h = ground arith

identifier-valid :
    (o : Option Text) (id : Text)
    → required_identifier o ≡ ok id
    → validate_identifier id "conversation_id" ≡ ok id
identifier-valid none id h = ground arith
identifier-valid (some t) id h =
    validate_identifier_idem t id "conversation_id" "conversation_id" (ground arith)

-- A turn that got past the first node has a checked conversation, and keeps to it.
pub prepare-Kept :
    (services : Services) (s t : GraphState) (fx : Effects)
    → (validate_and_prepare_turn services s fx).0 ≡ ok t
    → (id : Text) × (required_identifier s.conversation_id ≡ ok id) × Kept id s t
unfolding validate_and_prepare_turn make_conversation
prepare-Kept services s t fx h = elim (Result-cases (required_identifier s.conversation_id)) [
  | inr (e, p) ↦ ground arith
  | inl (id, p) ↦
      let v = identifier-valid s.conversation_id id p in
      elim (Result-cases (stored_conversation s.conversation id)) [
        | inr (e, q) ↦ ground (arith, v)
        | inl (c, q) ↦ (id, p, ground (arith, v, text_eq_sound c.conversation_id id))
      ]
]
