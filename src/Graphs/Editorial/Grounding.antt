-- ===== src/Graphs/Editorial/Grounding.antt =====
-- What the critic node enforces on a transformation.
use editorial_team_v.Prelude.{
  is_some, ◌≢◌, refl, List, [], ◌∷◌, All, text_eq_refl, Bool-cases, any, ok, ◌>>=◌, Result-cases,
  >>=-eq-ok, Text, ◌≡◌, sym, ◌∙◌, subst, inl, inr, true, false, Option, none, some, arith,
}
use editorial_team_v.Domain.Editorial.{
  EditorialRunContext, EditorialOperation, new_task, active_revision, historical_transformation,
  CriticIssue, pass, CriticReport, make_report, EditorialResult, make_result,
}
use editorial_team_v.Graphs.State.{GraphState}
use editorial_team_v.Graphs.Editorial.{
  Agents, is_transformation, is_pass, is_ungrounded, is_unchanged_pass, required_text, reply_report,
  settle_report, unchanged_report, result_of, writer_node, critic_node, editor_node,
  build_pass_result, build_revised_result, route_critic_verdict, run_editorial,
}
use editorial_team_v.Graphs.Editorial.Outcome.{writer_node-SameRun, critic_node-SameRun}

-- What the critic node tests of a report.
abbrev IsSettled : EditorialRunContext → Text → CriticReport → Type 0
IsSettled c draft q =
    is_transformation c.operation ≡ true
    → (any is_ungrounded q.issues ≡ false) × (is_unchanged_pass c draft q ≡ false)

abbrev pub NamesEvidence : CriticIssue → Type 0
NamesEvidence i =
    (is_some i.violated_requirement ≡ true)
    × (is_some i.input_evidence ≡ true)
    × (is_some i.candidate_evidence ≡ true)

-- The demands on a report about a transformation: each issue has its evidence, and a PASS is not for
-- a text that is the input draft.
abbrev pub IsGrounded : EditorialRunContext → Text → CriticReport → Type 0
IsGrounded c draft q =
    c.operation ≢ new_task
    → All NamesEvidence q.issues × (q.verdict ≡ pass → c.task.working_draft ≢ some draft)

issues-NamesEvidence :
    (issues : List CriticIssue) → any is_ungrounded issues ≡ false → All NamesEvidence issues
issues-NamesEvidence [] h = tt
issues-NamesEvidence (i ∷ issues) h =
    ((ground arith, ground arith, ground arith), issues-NamesEvidence issues (ground arith))

is_transformation-of : (o : EditorialOperation) → o ≢ new_task → is_transformation o ≡ true
is_transformation-of new_task h = absurd (h refl)
is_transformation-of active_revision h = refl
is_transformation-of historical_transformation h = refl

IsSettled-IsGrounded :
    (c : EditorialRunContext) (draft : Text) (q : CriticReport)
    → IsSettled c draft q
    → IsGrounded c draft q
IsSettled-IsGrounded c draft q h o =
    let t = is_transformation-of c.operation o in
    let (issues, changed) = h t in
    (issues-NamesEvidence q.issues issues, λ v d. ground (arith, text_eq_refl draft))

unchanged_report-revise :
    (i : Text) (q : CriticReport) → unchanged_report i ≡ ok q → is_pass q.verdict ≡ false
unfolding unchanged_report make_report
unchanged_report-revise i q h = ground arith

settle_report-IsSettled :
    (c : EditorialRunContext) (draft : Text) (r q : CriticReport)
    → settle_report c draft r ≡ ok q
    → IsSettled c draft q
unfolding settle_report
settle_report-IsSettled c draft r q h t =
    ground (arith, unchanged_report-revise c.current_instruction q)

-- What the later nodes take from the critic node's state.
critic_node-IsSettled :
    (a : Agents) (s w : GraphState) (c : EditorialRunContext) (d : Text) (q : CriticReport)
    → critic_node a s ≡ ok w
    → w.editorial_run_context ≡ some c
    → required_text w.writer_output ≡ ok d
    → w.critic_report ≡ some q
    → IsSettled c d q
unfolding critic_node
critic_node-IsSettled a s w c d q h hc hd hq t = elim (Result-cases (reply_report (a.review c d))) [
  | inl (r, hr) ↦ ground (arith, settle_report-IsSettled c d r q)
  | inr (x, hx) ↦ ground arith
]

abbrev Reviewed : GraphState → EditorialResult → Type 0
Reviewed s r =
    (required_text s.writer_output ≡ ok r.writer_output) × (s.critic_report ≡ some r.critic_report)

build_pass_result-Reviewed :
    (s e : GraphState) (r : EditorialResult)
    → build_pass_result s ≡ ok e
    → e.editorial_result ≡ some r
    → Reviewed s r
unfolding build_pass_result result_of make_result
build_pass_result-Reviewed s e r h er = ground arith

build_revised_result-Reviewed :
    (s e : GraphState) (r : EditorialResult)
    → build_revised_result s ≡ ok e
    → e.editorial_result ≡ some r
    → Reviewed s r
unfolding build_revised_result result_of make_result
build_revised_result-Reviewed s e r h er = ground arith

editor_node-same :
    (a : Agents) (s e : GraphState)
    → editor_node a s ≡ ok e
    → (e.writer_output ≡ s.writer_output) × (e.critic_report ≡ s.critic_report)
unfolding editor_node
editor_node-same a s e h = ground arith

route-Reviewed :
    (a : Agents) (o : Option CriticReport) (s e : GraphState) (r : EditorialResult)
    → route_critic_verdict a o s ≡ ok e
    → e.editorial_result ≡ some r
    → Reviewed s r
unfolding route_critic_verdict
route-Reviewed a none s e r h er = cc
route-Reviewed a (some p) s e r h er = elim (Bool-cases (is_pass p.verdict)) [
  | inl y ↦ build_pass_result-Reviewed s e r (rw y at h) er
  | inr n ↦
      let (t, ht, hb) = >>=-eq-ok (editor_node a s) build_revised_result (rw n at h) in
      let (ow, oc) = editor_node-same a s t ht in
      let (rw', rc) = build_revised_result-Reviewed t e r hb er in
      (subst (λ o. required_text o ≡ ok r.writer_output) ow rw', sym oc ∙ rc)
]

-- When a run of the editorial subgraph on the context `c` succeeds with the result `r`, and the
-- operation of `c` is not a new task, every issue of the report has a violated requirement, an
-- input evidence and a candidate evidence, and a report whose verdict is PASS does not stand on a
-- Writer's output that is the working draft of the task.
pub run_editorial-IsGrounded :
    (a : Agents) (s e : GraphState) (c : EditorialRunContext) (r : EditorialResult)
    → s.editorial_run_context ≡ some c
    → run_editorial a s ≡ ok e
    → e.editorial_result ≡ some r
    → IsGrounded c r.writer_output r.critic_report
unfolding run_editorial
run_editorial-IsGrounded a s e c r hc h er =
    let (w, hw, h1) =
      >>=-eq-ok (writer_node a s)
        (λ w. critic_node a w >>= λ k. route_critic_verdict a k.critic_report k) h in
    let (k, hk, h2) =
      >>=-eq-ok (critic_node a w) (λ k. route_critic_verdict a k.critic_report k) h1 in
    let (ro, rc) = route-Reviewed a k.critic_report k e r h2 er in
    let same = critic_node-SameRun a w k hk in
    IsSettled-IsGrounded c r.writer_output r.critic_report (
      critic_node-IsSettled a w k c r.writer_output r.critic_report hk
        (same.0 ∙ (writer_node-SameRun a s w hw).0 ∙ hc) ro rc)
