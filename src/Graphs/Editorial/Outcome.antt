-- ===== src/Graphs/Editorial/Outcome.antt =====
-- What a run of the editorial subgraph leaves behind.
use editorial_team_v.Prelude.{
  Bool-cases, Option-cases, ok, ◌>>=◌, Result-cases, >>=-eq-ok, Text, ◌≡◌, refl, ◌∙◌, ◌≢◌, inl, inr,
  Option, none, some, arith,
}
use editorial_team_v.Contracts.{require_non_blank}
use editorial_team_v.Contracts.Identity.{require_non_blank_idem}
use editorial_team_v.Domain.Editorial.{CriticReport, EditorialResult, make_result}
use editorial_team_v.Domain.Validity.{IsResult}
use editorial_team_v.Graphs.State.{GraphState, Reply, raised, other, value}
use editorial_team_v.Graphs.Editorial.{
  EditorialError, Agents, reply_text, required_text, editor_failed, editor_invalid_output, is_pass,
  result_of, writer_node, critic_node, editor_node, build_pass_result, build_revised_result,
  route_critic_verdict, run_editorial,
}

-- What no node of the subgraph touches.
abbrev pub SameRun : GraphState → GraphState → Type 0
SameRun s e =
    (e.editorial_run_context ≡ s.editorial_run_context) × (e.writing_task ≡ s.writing_task)

pub record HasResult (e : GraphState) (r : EditorialResult) : Type 0 where
  pub stored : e.editorial_result ≡ some r
  pub result : IsResult r
  pub report_stored : e.critic_report ≡ some r.critic_report
  pub draft_stored : e.working_draft ≡ some r.working_draft

pub writer_node-SameRun : (a : Agents) (s w : GraphState) → writer_node a s ≡ ok w → SameRun s w
unfolding writer_node
writer_node-SameRun a s w h = ground arith

pub critic_node-SameRun : (a : Agents) (s w : GraphState) → critic_node a s ≡ ok w → SameRun s w
unfolding critic_node
critic_node-SameRun a s w h = ground arith

editor_node-SameRun : (a : Agents) (s w : GraphState) → editor_node a s ≡ ok w → SameRun s w
unfolding editor_node
editor_node-SameRun a s w h = ground arith

build_pass_result-HasResult :
    (s e : GraphState) (r : EditorialResult)
    → build_pass_result s ≡ ok e
    → e.editorial_result ≡ some r
    → HasResult e r
unfolding build_pass_result result_of make_result
build_pass_result-HasResult s e r h er = ground arith

build_pass_result-stored :
    (s e : GraphState) → build_pass_result s ≡ ok e → SameRun s e × (e.editorial_result ≢ none)
unfolding build_pass_result
build_pass_result-stored s e h = ground arith

build_revised_result-stored :
    (s e : GraphState) → build_revised_result s ≡ ok e → SameRun s e × (e.editorial_result ≢ none)
unfolding build_revised_result
build_revised_result-stored s e h = ground arith

abbrev IsTrimmed : Option Text → Type 0
IsTrimmed o = (d : Text) → o ≡ some d → require_non_blank d "output" ≡ ok d

reply_text-IsTrimmed :
    (f i : EditorialError) (r : Reply Text) (d : Text)
    → reply_text f i r ≡ ok d
    → require_non_blank d "output" ≡ ok d
reply_text-IsTrimmed f i raised d h = cc
reply_text-IsTrimmed f i other d h = cc
reply_text-IsTrimmed f i (value t) d h =
    ground (arith, require_non_blank_idem t d "output" "output")

editor_node-IsTrimmed :
    (a : Agents) (s e : GraphState) → editor_node a s ≡ ok e → IsTrimmed e.working_draft
unfolding editor_node
editor_node-IsTrimmed a s e h d q = elim (Option-cases s.editorial_run_context) [
  | inl n ↦ ground arith
  | inr (c, hc) ↦ elim (Option-cases s.critic_report) [
    | inl n ↦ ground arith
    | inr (p, hp) ↦ elim (Result-cases (required_text s.writer_output)) [
      | inl (o, ho) ↦
          ground (arith, reply_text-IsTrimmed editor_failed editor_invalid_output (a.edit c o p) d)
      | inr (x, hx) ↦ ground arith
    ]
  ]
]

build_revised_result-HasResult :
    (s e : GraphState) (r : EditorialResult)
    → IsTrimmed s.working_draft
    → build_revised_result s ≡ ok e
    → e.editorial_result ≡ some r
    → HasResult e r
unfolding build_revised_result result_of make_result
build_revised_result-HasResult s e r t h er = elim (Option-cases s.working_draft) [
  | inl n ↦ ground arith
  | inr (d, hd) ↦ ground (arith, t d)
]

Option-value : {A : Type 0} (o : Option A) → o ≢ none → (a : A) × (o ≡ some a)
Option-value none h = absurd (h refl)
Option-value (some a) h = (a, refl)

pass-Completed :
    (s e : GraphState)
    → build_pass_result s ≡ ok e
    → SameRun s e × ((r : EditorialResult) × HasResult e r)
pass-Completed s e h =
    let (same, has) = build_pass_result-stored s e h in
    let (r, er) = Option-value e.editorial_result has in
    (same, (r, build_pass_result-HasResult s e r h er))

revised-Completed :
    (s e : GraphState)
    → IsTrimmed s.working_draft
    → build_revised_result s ≡ ok e
    → SameRun s e × ((r : EditorialResult) × HasResult e r)
revised-Completed s e t h =
    let (same, has) = build_revised_result-stored s e h in
    let (r, er) = Option-value e.editorial_result has in
    (same, (r, build_revised_result-HasResult s e r t h er))

SameRun-trans : (s t e : GraphState) → SameRun s t → SameRun t e → SameRun s e
SameRun-trans s t e h k = (k.0 ∙ h.0, k.1 ∙ h.1)

route-Completed :
    (a : Agents) (o : Option CriticReport) (s e : GraphState)
    → route_critic_verdict a o s ≡ ok e
    → SameRun s e × ((r : EditorialResult) × HasResult e r)
unfolding route_critic_verdict
route-Completed a none s e h = cc
route-Completed a (some p) s e h = elim (Bool-cases (is_pass p.verdict)) [
  | inl y ↦ pass-Completed s e (rw y at h)
  | inr n ↦
      let (t, ht, hb) = >>=-eq-ok (editor_node a s) build_revised_result (rw n at h) in
      let (same, has) = revised-Completed t e (editor_node-IsTrimmed a s t ht) hb in
      (SameRun-trans s t e (editor_node-SameRun a s t ht) same, has)
]

-- A run of the editorial subgraph that succeeds keeps the task and its context and stores a result
-- that applies a revision exactly if the report asks for one, with the report and the working draft
-- of the state equal to those of the result.
pub run_editorial-Completed :
    (a : Agents) (s e : GraphState)
    → run_editorial a s ≡ ok e
    → SameRun s e × ((r : EditorialResult) × HasResult e r)
unfolding run_editorial
run_editorial-Completed a s e h =
    let (w, hw, h1) =
      >>=-eq-ok (writer_node a s)
        (λ w. critic_node a w >>= λ c. route_critic_verdict a c.critic_report c) h in
    let (c, hc, h2) =
      >>=-eq-ok (critic_node a w) (λ c. route_critic_verdict a c.critic_report c) h1 in
    let (same, has) = route-Completed a c.critic_report c e h2 in
    (
      SameRun-trans s w e (writer_node-SameRun a s w hw)
          (SameRun-trans w c e (critic_node-SameRun a w c hc) same),
      has,
    )
