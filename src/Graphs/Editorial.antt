-- ===== src/Graphs/Editorial.antt =====
-- graphs/editorial.py: one Writer-Critic-Editor attempt. The agents are parameters; a node takes
-- the state of the turn and gives the state with its updates, or the error that it raises. Tracing
-- is left out.
pub mod Outcome
pub mod Grounding
pub mod Progress
use mathlib.Core.Logic.{ite}
use editorial_team_v.Prelude.{
  if◌then◌else◌, is_some, is_none, any, Result, ok, err, ◌>>=◌, ◌>>◌, reject_if, or_raise, Text,
  text, text_eq, Bool, true, false, ◌&&◌, ◌||◌, not, Option, none, some, [], ◌∷◌,
}
use editorial_team_v.Contracts.{ValueError, require_non_blank}
use editorial_team_v.Domain.Editorial.{
  EditorialOperation, new_task, WritingTask, EditorialRunContext, run_id, CriticIssue, make_issue,
  major, CriticReport, CriticVerdict, pass, revise, make_report, EditorialResult, make_result,
}
use editorial_team_v.Graphs.State.{
  Reply, raised, other, value, GraphState, is_supported, WritingTask-discrete,
}

pub data EditorialError : Type 0 where
  unsupported_version inconsistent_context stale_output another_run : EditorialError
  writer_failed writer_invalid_output critic_failed critic_invalid_report : EditorialError
  ungrounded_issues editor_failed editor_invalid_output : EditorialError
  workflow_invalid_output workflow_invalid_result : EditorialError
  escaped : ValueError → EditorialError

abbrev pub Node : Type 0 → Type 0
Node A = Result EditorialError A

pub record Agents : Type 0 where
  pub write : EditorialRunContext → Reply Text
  pub review : EditorialRunContext → Text → Reply CriticReport
  pub edit : EditorialRunContext → Text → CriticReport → Reply Text

abbrev pub same_task : Option WritingTask → WritingTask → Bool
same_task none u = false
same_task (some t) u = ite (WritingTask-discrete t u) true false

-- `_context`
abbrev pub check_context :
    Option EditorialRunContext → Option WritingTask → Node EditorialRunContext
check_context none t = err inconsistent_context
check_context (some c) t = if same_task t c.task then ok c else err inconsistent_context

abbrev pub context_of : GraphState → Node EditorialRunContext
context_of s = check_context s.editorial_run_context s.writing_task

-- `_require_run_id`
abbrev pub require_run_id : Option Text → Text → Node (Unit {0})
require_run_id none expected = err another_run
require_run_id (some actual) expected = reject_if (not (text_eq actual expected)) another_run

-- `_text`, where `invalid` is the participant's error
abbrev pub text_of : EditorialError → Text → Node Text
text_of invalid t = or_raise invalid (require_non_blank t "output")

abbrev pub reply_text : EditorialError → EditorialError → Reply Text → Node Text
reply_text failed invalid raised = err failed
reply_text failed invalid other = err invalid
reply_text failed invalid (value t) = text_of invalid t

-- `_required_text`
abbrev pub required_text : Option Text → Node Text
required_text none = err workflow_invalid_output
required_text (some t) = text_of workflow_invalid_output t

-- `_report`
abbrev pub report_of : Option CriticReport → Node CriticReport
report_of none = err critic_invalid_report
report_of (some r) = ok r

abbrev pub reply_report : Reply CriticReport → Node CriticReport
reply_report raised = err critic_failed
reply_report other = err critic_invalid_report
reply_report (value r) = ok r

abbrev pub is_transformation : EditorialOperation → Bool
is_transformation new_task = false
is_transformation _ = true

abbrev pub is_pass : CriticVerdict → Bool
is_pass pass = true
is_pass revise = false

abbrev pub is_text : Option Text → Text → Bool
is_text none t = false
is_text (some s) t = text_eq s t

-- A `ValueError` that no handler of the node catches.
abbrev pub escape : {A : Type 0} → Result ValueError A → Node A
escape (ok a) = ok a
escape (err e) = err (escaped e)

-- The report that stands in for a PASS on an unchanged transformation.
unfoldable pub unchanged_report : Text → Node CriticReport
unchanged_report instruction = do
  issue ← escape (
      make_issue (record {
        severity = major;
        problem = text "The output is unchanged from the input working draft.";
        location = none;
        suggestion = some (text "Apply the explicit current instruction.");
        grounded_excerpt = none;
        violated_requirement = some instruction;
        input_evidence = some (text "Input and candidate hashes are identical.");
        candidate_evidence = some (text "Candidate is exactly unchanged.");
      }))
  escape (make_report revise (text "The requested transformation was not applied.") (issue ∷ []))

abbrev pub is_ungrounded : CriticIssue → Bool
is_ungrounded i =
    is_none i.violated_requirement || is_none i.input_evidence || is_none i.candidate_evidence

-- The transformation that came back unchanged with a PASS
abbrev pub is_unchanged_pass : EditorialRunContext → Text → CriticReport → Bool
is_unchanged_pass c draft r =
    is_transformation c.operation && is_text c.task.working_draft draft && is_pass r.verdict

-- What the critic node makes of the Critic's report.
unfoldable pub settle_report : EditorialRunContext → Text → CriticReport → Node CriticReport
settle_report c draft r = do
  settled ← if is_unchanged_pass c draft r then unchanged_report c.current_instruction else ok r
  reject_if (is_transformation c.operation && any is_ungrounded settled.issues) ungrounded_issues
  _ ← or_raise critic_invalid_report (make_report settled.verdict settled.summary settled.issues)
  ok settled

unfoldable pub result_of : Text → CriticReport → Text → Bool → Node EditorialResult
result_of writer_output report working_draft revised = or_raise workflow_invalid_result (
    make_result (record {
      writer_output = writer_output;
      critic_report = report;
      working_draft = working_draft;
      revision_applied = revised;
    }))

module _ (agents : Agents) where
  unfoldable pub writer_node : GraphState → Node GraphState
  writer_node s = do
    reject_if (not (is_supported s.state_version)) unsupported_version
    c ← context_of s
    reject_if (is_some s.writer_output || is_some s.critic_report || is_some s.editorial_result)
        stale_output
    output ← reply_text writer_failed writer_invalid_output (agents.write c)
    ok (record s { writer_output = some output; writer_run_id = some (run_id c) })

  unfoldable pub critic_node : GraphState → Node GraphState
  critic_node s = do
    c ← context_of s
    require_run_id s.writer_run_id (run_id c)
    draft ← required_text s.writer_output
    report ← reply_report (agents.review c draft)
    settled ← settle_report c draft report
    ok (record s { critic_report = some settled; critic_run_id = some (run_id c) })

  unfoldable pub editor_node : GraphState → Node GraphState
  editor_node s = do
    c ← context_of s
    require_run_id s.writer_run_id (run_id c)
    require_run_id s.critic_run_id (run_id c)
    draft ← required_text s.writer_output
    report ← report_of s.critic_report
    output ← reply_text editor_failed editor_invalid_output (agents.edit c draft report)
    ok (record s { working_draft = some output })

unfoldable pub build_pass_result : GraphState → Node GraphState
build_pass_result s = do
  c ← context_of s
  require_run_id s.writer_run_id (run_id c)
  require_run_id s.critic_run_id (run_id c)
  output ← required_text s.writer_output
  report ← report_of s.critic_report
  result ← result_of output report output false
  ok (record s { working_draft = some output; editorial_result = some result })

unfoldable pub build_revised_result : GraphState → Node GraphState
build_revised_result s = do
  c ← context_of s
  require_run_id s.writer_run_id (run_id c)
  require_run_id s.critic_run_id (run_id c)
  output ← required_text s.writer_output
  report ← report_of s.critic_report
  draft ← required_text s.working_draft
  result ← result_of output report draft true
  ok (record s { editorial_result = some result })

module _ (agents : Agents) where
  -- `_route_critic_verdict` and the edges that leave it
  unfoldable pub route_critic_verdict : Option CriticReport → GraphState → Node GraphState
  route_critic_verdict none s = err critic_invalid_report
  route_critic_verdict (some r) s =
      if is_pass r.verdict
      then build_pass_result s
      else (do e ← editor_node agents s; build_revised_result e)

  -- The subgraph from START to END.
  unfoldable pub run_editorial : GraphState → Node GraphState
  run_editorial s = do
    w ← writer_node agents s
    c ← critic_node agents w
    route_critic_verdict c.critic_report c
