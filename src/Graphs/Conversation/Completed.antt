-- ===== src/Graphs/Conversation/Completed.antt =====
-- graphs/conversation.py: what a turn that succeeds leaves in the state.
use editorial_team_v.Prelude.{
  length, all, is_empty, length-drop, ok, Result-cases, Text, ℕ, zero, suc, ◌-◌, ◌≤◌, ◌≡◌, subst,
  ◌≢◌, inl, inr, true, false, List, [], ◌∷◌, ◌++◌, arith,
}
use editorial_team_v.Contracts.{validate_identifier}
use editorial_team_v.Domain.Routing.{
  CoordinatorRoute, chat, start_writing_task, revise_task, show_retrieved_draft,
}
use editorial_team_v.Domain.Conversation.{
  Message, ConversationState, make_conversation, owns_task, owns_message,
}
use editorial_team_v.Graphs.State.{GraphState}
use editorial_team_v.Graphs.Turn.{decision_of, turn_of, Effects, Services}
use editorial_team_v.Graphs.Turn.Chains.{Yields, chain-Yields}
use editorial_team_v.Graphs.Coordinator.{coordinator_agent}
use editorial_team_v.Graphs.Tools.{coordinator_tools}
use editorial_team_v.Graphs.Prepare.{required_identifier, validate_and_prepare_turn}
use editorial_team_v.Graphs.Finish.{
  last_items, completed_state, turn_contents, assistant_messages_of, completed_turn_state,
  finalize_turn, persist_editorial_artifacts,
}
use editorial_team_v.Graphs.Conversation.{
  tools, route_to, write_task, follow_route, run_rounds, run_turn_within, run_turn,
  route_coordinator_decision,
}
use editorial_team_v.Graphs.Conversation.Kept.{
  Kept, talker-Kept, agent-Kept, tools-Kept, new_task-Kept, revision-Kept, subgraph-Kept, task-Kept,
  contents-Kept, prepare-Kept,
}

-- The conversation that a turn leaves: its tasks and messages are its own, and there are at most
-- `limit` messages, except that a limit of 0 keeps all.
pub record IsFinished (limit : ℕ) (id : Text) (c : ConversationState) : Type 0 where
  pub same_conversation : c.conversation_id ≡ id
  pub owns_active_task : owns_task id c.active_task ≡ true
  pub owns_messages : all (owns_message id) c.recent_messages ≡ true
  pub bounded : limit ≢ 0 → length c.recent_messages ≤ limit

abbrev pub Completed : ℕ → Text → GraphState → GraphState → Type 0
Completed limit id s t =
    (c : ConversationState) × (ms : List Message) × (t ≡ completed_state c ms s)
    × (is_empty ms ≡ false)
    × IsFinished limit id c

make_conversation-parts :
    (r c : ConversationState)
    → make_conversation r ≡ ok c
    → (validate_identifier r.conversation_id "conversation_id" ≡ ok c.conversation_id)
      × (owns_task c.conversation_id c.active_task ≡ true)
      × (all (owns_message c.conversation_id) c.recent_messages ≡ true)
      × (c.recent_messages ≡ r.recent_messages)
unfolding make_conversation
make_conversation-parts r c h = ground arith

length-last_items : {A : Type 0} (n : ℕ) (xs : List A) → n ≢ 0 → length (last_items n xs) ≤ n
unfolding last_items
length-last_items n xs h = ground (arith, length-drop (length xs - n) xs)

module _ (services : Services) (id : Text) (s : GraphState) where
  messages-some :
      (c : Text) (ts : List Text) (fx : Effects) (ms : List Message)
      → is_empty ts ≡ false
      → (assistant_messages_of services c ts fx).0 ≡ ok ms
      → is_empty ms ≡ false
  unfolding assistant_messages_of
  messages-some c [] fx ms e h = ground arith
  messages-some c (t ∷ ts) fx ms e h = ground arith

  finished :
      (a c : ConversationState) (ms : List Message)
      → a.conversation_id ≡ id
      → validate_identifier id "conversation_id" ≡ ok id
      → make_conversation (record a {
        recent_messages = last_items services.max_recent_messages (a.recent_messages ++ ms);
      })
        ≡ ok c
      → IsFinished services.max_recent_messages id c
  finished a c ms k v h =
      let (i, t, m, e) = make_conversation-parts _ c h in
      let same : c.conversation_id ≡ id = ground arith in
      record {
        same_conversation = same;
        owns_active_task = subst (λ x. owns_task x c.active_task ≡ true) same t;
        owns_messages = subst (λ x. all (owns_message x) c.recent_messages ≡ true) same m;
        bounded = λ n.
            ground
              (arith, length-last_items services.max_recent_messages (a.recent_messages ++ ms) n);
      }

  turn_state-Completed :
      (u : GraphState)
      → Kept id s u
      → Yields (Completed services.max_recent_messages id s) (completed_turn_state services u)
  unfolding completed_turn_state
  turn_state-Completed u k fx t h = elim (Result-cases (turn_of u)) [
    | inr (e, q) ↦ ground arith
    | inl ((c, m), q) ↦ elim (Result-cases (decision_of u.decision)) [
      | inr (e, r) ↦ ground arith
      | inl (d, r) ↦ elim (Result-cases (turn_contents services d.route u c fx).0) [
        | inr (e, p) ↦ ground arith
        | inl ((a, ts), p) ↦
            elim (Result-cases
              (assistant_messages_of services a.conversation_id ts
                (turn_contents services d.route u c fx).1).0) [
                  | inr (e, w) ↦ ground arith
                  | inl (ms, w) ↦
                      elim (Result-cases (
                        make_conversation (record a {
                          recent_messages =
                              last_items services.max_recent_messages (a.recent_messages ++ ms);
                        }))) [
                          | inr (e, x) ↦ ground arith
                          | inl (done, x) ↦
                              let (same, some_text) =
                                contents-Kept services id s d.route u c a ts fx (ground arith) k.3
                                  p in
                              (
                                done,
                                ms,
                                ground arith,
                                messages-some a.conversation_id ts
                                    (turn_contents services d.route u c fx).1 ms some_text w,
                                finished a done ms same k.3 x,
                              )
                        ]
                ]
      ]
    ]
  ]

  finish-Completed :
      (u : GraphState)
      → Kept id s u
      → Yields (Completed services.max_recent_messages id s) (finalize_turn services u)
  unfolding finalize_turn
  finish-Completed u k = turn_state-Completed u k

  persist-Completed :
      (u : GraphState)
      → Kept id s u
      → Yields
          (Completed services.max_recent_messages id s)
          (persist_editorial_artifacts services u)
  unfolding persist_editorial_artifacts
  persist-Completed u k =
      let C = Completed services.max_recent_messages id s in
      chain-Yields C C _ _ (turn_state-Completed u k) λ t c fx r h. subst C (ground arith) c

  write-Completed :
      (u : GraphState)
      → Kept id s u
      → Yields (Completed services.max_recent_messages id s) (write_task services u)
  unfolding write_task
  write-Completed u k =
      let K = Kept id s in
      let C = Completed services.max_recent_messages id s in
      chain-Yields K C _ _ (subgraph-Kept services id s u k)
        λ e q. chain-Yields K C _ _ (task-Kept services id s e q) persist-Completed

  route-Completed :
      (r : CoordinatorRoute) (u : GraphState)
      → Kept id s u
      → Yields (Completed services.max_recent_messages id s) (follow_route services r u)
  unfolding follow_route
  route-Completed chat u k =
      chain-Yields (Kept id s) (Completed services.max_recent_messages id s) _ _
        (talker-Kept services id s u k) finish-Completed
  route-Completed show_retrieved_draft u k = finish-Completed u k
  route-Completed start_writing_task u k =
      chain-Yields (Kept id s) (Completed services.max_recent_messages id s) _ _
        (new_task-Kept services id s u k) write-Completed
  route-Completed revise_task u k =
      chain-Yields (Kept id s) (Completed services.max_recent_messages id s) _ _
        (revision-Kept services id s u k) write-Completed

  rounds-Completed :
      (n : ℕ) (u : GraphState)
      → Kept id s u
      → Yields (Completed services.max_recent_messages id s) (run_rounds services n u)
  unfolding run_rounds
  rounds-Completed zero u k fx t h = ground arith
  rounds-Completed (suc n) u k fx t h = elim (Result-cases (coordinator_agent services u fx).0) [
    | inr (e, p) ↦ ground arith
    | inl (a, p) ↦ elim (Result-cases (route_coordinator_decision a)) [
      | inr (e, q) ↦ ground arith
      | inl (route_to r, q) ↦
          route-Completed r a (agent-Kept services id s u k fx a p)
            (coordinator_agent services u fx).1 t (rw (p, q) at h)
      | inl (tools, q) ↦
          elim (Result-cases (coordinator_tools services a (coordinator_agent services u fx).1).0) [
            | inr (e, r) ↦ ground arith
            | inl (b, r) ↦
                rounds-Completed n b
                  (tools-Kept services id s a (agent-Kept services id s u k fx a p)
                    (coordinator_agent services u fx).1 b r)
                  (coordinator_tools services a (coordinator_agent services u fx).1).1 t
                  (rw (p, q, r) at h)
          ]
    ]
  ]

-- A turn of the conversation graph that succeeds leaves the state that it was given, except that
-- every key of the turn is cleared, the assistant's messages are there and are not empty, and the
-- conversation is one of the turn's checked identifier that owns its active task and its messages
-- and holds at most `max_recent_messages` messages, where that limit is not 0.
pub run_turn-Completed :
    (services : Services) (s t : GraphState) (fx : Effects)
    → (run_turn services s fx).0 ≡ ok t
    → (id : Text) × (required_identifier s.conversation_id ≡ ok id)
      × Completed services.max_recent_messages id s t
unfolding run_turn run_turn_within
run_turn-Completed services s t fx h =
    elim (Result-cases (validate_and_prepare_turn services s fx).0) [
      | inr (e, p) ↦ ground arith
      | inl (u, p) ↦
          let (id, q, k) = prepare-Kept services s u fx p in
          (
            id,
            q,
            rounds-Completed services id s 7 u k (validate_and_prepare_turn services s fx).1 t
                (rw p at h),
          )
    ]
