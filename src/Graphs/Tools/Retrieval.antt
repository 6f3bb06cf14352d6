-- ===== src/Graphs/Tools/Retrieval.antt =====
-- graphs/conversation.py and artifacts/tools.py: what the Coordinator's tools may load.
use editorial_team_v.Prelude.{
  ap, ◌∙◌, Option-cases, ok, Result-cases, Text, ◌≡◌, refl, sym, subst, inl, inr, Bool, true, false,
  Option, none, some, List, [], ◌∷◌, arith,
}
use editorial_team_v.Artifacts.Models.{RetrievedDraft}
use editorial_team_v.Artifacts.Store.{Tables, get_artifact_for_conversation}
use editorial_team_v.Artifacts.Store.Scope.{IsStored, get_artifact-IsStored}
use editorial_team_v.Graphs.State.{
  ToolCall, ToolOutput, failed, found, draft, loaded, ChatMessage, GraphState,
}
use editorial_team_v.Graphs.Turn.{Effects, SearchReply, Services, turn_of}
use editorial_team_v.Graphs.Coordinator.{pending_calls, scoped_tools}
use editorial_team_v.Graphs.Tools.{
  ToolProgress, draft_of, get_draft, progress_of, reread_draft, call_tool, absorb, run_calls,
  finish_tools, coordinator_tools,
}

-- A draft that is there is one of the conversation, as it is stored, and there only after a search.
abbrev pub IsSearched : Tables → Text → Option RetrievedDraft → Bool → Type 0
IsSearched tables conversation none completed = Unit
IsSearched tables conversation (some d) completed =
    (d.conversation_id ≡ conversation)
    × IsStored tables conversation d.artifact_id d.content
    × (completed ≡ true)

abbrev pub Searched : Tables → Text → ToolProgress → Type 0
Searched tables conversation p = IsSearched tables conversation p.retrieved p.search_completed

IsSearched-monotone :
    (t : Tables) (c : Text) (o : Option RetrievedDraft) (b : Bool)
    → IsSearched t c o b
    → IsSearched t c o true
IsSearched-monotone t c none b h = h
IsSearched-monotone t c (some d) b h = (h.0, h.1, refl)

loaded-Searched :
    (t : Tables) (c : Text) (p q : ToolProgress) (r : RetrievedDraft)
    → (record p { retrieved = some r }) ≡ q
    → r.conversation_id ≡ c
    → IsStored t c r.artifact_id r.content
    → p.search_completed ≡ true
    → Searched t c q
loaded-Searched t c p q r e h stored completed = subst (Searched t c) e (h, stored, completed)

module _ (services : Services) (conversation : Text) (tables : Tables)
    (search : Text → Text → Tables → SearchReply) where
  get_draft-IsStored :
      (o : Option Text) (d : RetrievedDraft)
      → get_draft services conversation tables search o ≡ draft d
      → IsStored tables conversation d.artifact_id d.content
  unfolding get_draft
  get_draft-IsStored none d h = cc
  get_draft-IsStored (some id) d h =
      elim (Result-cases
        (get_artifact_for_conversation services.sha256 services.unstamp tables id conversation)) [
          | inr (e, g) ↦ absurd (ground arith)
          | inl (o, g) ↦ elim (Option-cases o) [
            | inl n ↦ absurd (ground arith)
            | inr (a, n) ↦
                let stored =
                  get_artifact-IsStored services.sha256 services.unstamp tables id conversation a
                    (g ∙ ap ok n) in
                let same : draft_of a ≡ d = ground arith in
                subst (λ x. IsStored tables conversation x.artifact_id x.content) same stored
          ]
        ]

  -- Only a search makes a draft possible, and only a stored one.
  call_tool-draft :
      (completed : Bool) (c : ToolCall) (d : RetrievedDraft)
      → call_tool services conversation tables search completed c ≡ draft d
      → (completed ≡ true) × IsStored tables conversation d.artifact_id d.content
  unfolding call_tool
  call_tool-draft true c d h =
      (refl, get_draft-IsStored (services.draft_id c.args) d (ground arith))
  call_tool-draft false c d h = ground arith

  reread_draft-same :
      (d r : RetrievedDraft)
      → reread_draft services conversation tables search d ≡ ok r
      → (r.conversation_id ≡ conversation)
        × (d.artifact_id ≡ r.artifact_id)
        × (d.content ≡ r.content)
  unfolding reread_draft
  reread_draft-same d r h = ground arith

  absorb-Searched :
      (o : ToolOutput) (p q : ToolProgress) (shown : ToolOutput)
      → Searched tables conversation p
      → ((d : RetrievedDraft)
          → o ≡ draft d
          → (p.search_completed ≡ true) × IsStored tables conversation d.artifact_id d.content)
      → absorb services conversation tables search o p ≡ ok (shown, q)
      → Searched tables conversation q
  unfolding absorb
  absorb-Searched (failed e) p q shown h w eq =
      subst (Searched tables conversation) (ground arith) h
  absorb-Searched (found ids) p q shown h w eq =
      subst (Searched tables conversation) (ground arith)
        (IsSearched-monotone tables conversation p.retrieved p.search_completed h)
  absorb-Searched (loaded a t u) p q shown h w eq =
      subst (Searched tables conversation) (ground arith) h
  absorb-Searched (draft d) p q shown h w eq =
      elim (Result-cases (reread_draft services conversation tables search d)) [
        | inr (e, r) ↦ ground arith
        | inl (r, g) ↦
            let (here, id, content) = reread_draft-same d r g in
            let (completed, stored) = w d refl in
            loaded-Searched tables conversation p q r (ground arith) here
              (subst (λ x. IsStored tables conversation r.artifact_id x) content
                (subst (λ x. IsStored tables conversation x d.content) id stored))
              completed
      ]

  run_calls-Searched :
      (cs : List ToolCall) (p q : ToolProgress) (ms : List ChatMessage)
      → Searched tables conversation p
      → run_calls services conversation tables search cs p ≡ ok (ms, q)
      → Searched tables conversation q
  unfolding run_calls
  run_calls-Searched [] p q ms h eq = subst (Searched tables conversation) (ground arith) h
  run_calls-Searched (c ∷ cs) p q ms h eq =
      elim (Result-cases (
        absorb services conversation tables search
          (call_tool services conversation tables search p.search_completed c) p)) [
            | inr (e, r) ↦ ground arith
            | inl ((o, r), g) ↦
                elim (Result-cases (run_calls services conversation tables search cs r)) [
                  | inr (e, k) ↦ ground arith
                  | inl ((ns, k), w) ↦ subst (Searched tables conversation) (ground arith) (
                      run_calls-Searched cs r k ns
                        (absorb-Searched _ p r o h (λ d e. call_tool-draft p.search_completed c d e)
                          g)
                        w)
                ]
          ]

coordinator_tools-effects :
    (services : Services) (s : GraphState) (fx : Effects) → (coordinator_tools services s fx).1 ≡ fx
unfolding coordinator_tools
coordinator_tools-effects services s fx = ground arith

round-Searched :
    (services : Services) (s t : GraphState) (fx : Effects) (id : Text)
    → elim s.turn_conversation [ none ↦ none | some c ↦ some c.conversation_id ] ≡ some id
    → Searched fx.tables id (progress_of s)
    → (coordinator_tools services s fx).0 ≡ ok t
    → Searched fx.tables id (progress_of t)
unfolding coordinator_tools finish_tools
round-Searched services s t fx id same h eq = elim (Result-cases (turn_of s)) [
  | inr (e, p) ↦ ground arith
  | inl ((c, m), p) ↦ elim (Option-cases (pending_calls s.coordinator_messages)) [
    | inl q ↦ ground arith
    | inr (cs, q) ↦ elim (Result-cases (scoped_tools services.search c.conversation_id)) [
      | inr (e, r) ↦ ground arith
      | inl (f, r) ↦
          elim (Result-cases
            (run_calls services c.conversation_id fx.tables f cs (progress_of s))) [
              | inr (e, w) ↦ ground arith
              | inl ((ms, k), w) ↦
                  let here : c.conversation_id ≡ id = ground arith in
                  subst (Searched fx.tables id) (ground arith) (
                    subst (λ x. Searched fx.tables x k) here
                      (run_calls-Searched services c.conversation_id fx.tables f cs (progress_of s)
                        k ms (subst (λ x. Searched fx.tables x (progress_of s)) (sym here) h) w))
            ]
    ]
  ]
]

-- A round of the Coordinator's tools that succeeds in the conversation `id` keeps this: a retrieved
-- draft is named for that conversation, a stored artifact of that trimmed conversation has its
-- identifier and its content but for white space at the ends, and a search was completed in the
-- turn; and the round has no effects.
pub coordinator_tools-Searched :
    (services : Services) (s t : GraphState) (fx : Effects) (id : Text)
    → elim s.turn_conversation [ none ↦ none | some c ↦ some c.conversation_id ] ≡ some id
    → Searched fx.tables id (progress_of s)
    → (coordinator_tools services s fx).0 ≡ ok t
    → Searched fx.tables id (progress_of t) × ((coordinator_tools services s fx).1 ≡ fx)
coordinator_tools-Searched services s t fx id same h eq =
    (round-Searched services s t fx id same h eq, coordinator_tools-effects services s fx)
