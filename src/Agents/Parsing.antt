-- ===== src/Agents/Parsing.antt =====
-- agents/parsing.py: the parsers of a decision, a report and an assessment. Every `ValueError` of a
-- domain object becomes the same `AgentError`.
use editorial_team_v.Prelude.{
  leb, if◌then◌else◌, ok, err, ◌>>=◌, ◌>>◌, reject_if, or_raise, Text, text, text_eq, ℕ, ◌-◌, Bool,
  false, not, Option, none, some, List, [], ◌∷◌, contains,
}
use Prim.Native.Nat.{◌^◌}
use editorial_team_v.Contracts.{Checked}
use editorial_team_v.Domain.Routing.{
  CoordinatorRoute, chat, start_writing_task, revise_task, show_retrieved_draft,
  ClarificationReason, ambiguous, no_match, unsupported_version, tool_problem, TalkerContext,
  make_talker_context, Float, finite, CoordinatorDecision, make_decision,
}
use editorial_team_v.Domain.Editorial.{
  CriticVerdict, pass, revise, CriticIssueSeverity, minor, major, CriticIssue, make_issue,
  CriticReport, make_report,
}
use editorial_team_v.Operations.Models.{
  AdminDecision, silence, notify, AdminReasonCode, system_healthy, worker_stopped,
  repeated_failures, queue_pressure, AdminAssessment, make_assessment,
}
use editorial_team_v.Agents.Json.{
  Json, null, integer, float, string, array, object, Items, no_items, item, Members, bad_output,
  ungrounded_excerpt, overflow, Parsed, get, json_object, check_keys,
}

-- `Enum(value)`: the member that has the value.
unfoldable pub member_of : {A : Type 0} → List (Text × A) → Option Json → Parsed A
unfolding text_eq
member_of [] v = err bad_output
member_of (m ∷ rest) none = err bad_output
member_of (m ∷ rest) (some (string t)) =
    if text_eq t m.0 then ok m.1 else member_of rest (some (string t))
member_of (m ∷ rest) (some v) = err bad_output

abbrev pub routes : List (Text × CoordinatorRoute)
routes =
    (text "chat", chat)
    ∷ (text "start_writing_task", start_writing_task)
    ∷ (text "revise_task", revise_task)
    ∷ (text "show_retrieved_draft", show_retrieved_draft)
    ∷ []

abbrev pub reasons : List (Text × ClarificationReason)
reasons =
    (text "ambiguous_candidates", ambiguous)
    ∷ (text "no_match", no_match)
    ∷ (text "unsupported_relative_version", unsupported_version)
    ∷ (text "tool_problem", tool_problem)
    ∷ []

abbrev pub verdicts : List (Text × CriticVerdict)
verdicts = (text "pass", pass) ∷ (text "revise", revise) ∷ []

abbrev pub severities : List (Text × CriticIssueSeverity)
severities = (text "minor", minor) ∷ (text "major", major) ∷ []

abbrev pub admin_decisions : List (Text × AdminDecision)
admin_decisions = (text "silence", silence) ∷ (text "notify", notify) ∷ []

abbrev pub reason_codes : List (Text × AdminReasonCode)
reason_codes =
    (text "system_healthy", system_healthy)
    ∷ (text "worker_stopped", worker_stopped)
    ∷ (text "repeated_failures", repeated_failures)
    ∷ (text "queue_pressure", queue_pressure)
    ∷ []

-- A field that a domain object takes for a text, and one that may be `None`, absent or null.
unfoldable pub string_of : Option Json → Parsed Text
string_of (some (string t)) = ok t
string_of _ = err bad_output

unfoldable pub optional_text : Option Json → Parsed (Option Text)
optional_text none = ok none
optional_text (some null) = ok none
optional_text (some (string t)) = ok (some t)
optional_text (some _) = err bad_output

unfoldable pub texts_of : Items → Parsed (List Text)
texts_of no_items = ok []
texts_of (item (string t) rest) = do ts ← texts_of rest; ok (t ∷ ts)
texts_of (item _ rest) = err bad_output

-- A field that must hold a list.
unfoldable pub items_of : Option Json → Parsed Items
items_of (some (array items)) = ok items
items_of _ = err bad_output

-- An integer from which on `math.isfinite` raises an `OverflowError`.
unfoldable pub too_large : ℕ → Bool
too_large n = leb (2 ^ 1024 - 2 ^ 970) n

unfoldable pub confidence_of : Option Json → Parsed Float
confidence_of (some (integer negative n)) =
    if too_large n then err overflow else ok (finite negative n 0)
confidence_of (some (float x)) = ok x
confidence_of _ = err bad_output

-- `except (KeyError, TypeError, ValueError)`
abbrev pub or_bad_output : {A : Type 0} → Checked A → Parsed A
or_bad_output r = or_raise bad_output r

abbrev pub context_required : List Text
context_required = text "reason" ∷ text "candidate_summaries" ∷ text "recommended_question" ∷ []

unfoldable pub parse_context : Option Json → Parsed (Option TalkerContext)
unfolding check_keys get member_of items_of texts_of string_of make_talker_context
parse_context none = ok none
parse_context (some null) = ok none
parse_context (some (object members)) = do
  check_keys members context_required []
  summaries ← items_of (get (text "candidate_summaries") members)
  reason ← member_of reasons (get (text "reason") members)
  ts ← texts_of summaries
  question ← string_of (get (text "recommended_question") members)
  c ← or_bad_output (make_talker_context reason ts question)
  ok (some c)
parse_context (some _) = err bad_output

module _ (loads : Text → Option Json) where
  unfoldable pub parse_coordinator_decision : Text → Parsed CoordinatorDecision
  unfolding json_object check_keys get parse_context member_of confidence_of optional_text
      make_decision
  parse_coordinator_decision t = do
    value ← json_object loads t
    check_keys value (text "route" ∷ text "confidence" ∷ [])
        (text "task_input" ∷ text "revision_instructions" ∷ text "talker_context" ∷ [])
    context ← parse_context (get (text "talker_context") value)
    route ← member_of routes (get (text "route") value)
    confidence ← confidence_of (get (text "confidence") value)
    task_input ← optional_text (get (text "task_input") value)
    revision ← optional_text (get (text "revision_instructions") value)
    or_bad_output (
        make_decision (record {
          route = route;
          confidence = confidence;
          task_input = task_input;
          revision_instructions = revision;
          talker_context = context;
        }))

  unfoldable pub parse_admin_assessment : Text → Parsed AdminAssessment
  unfolding json_object check_keys get member_of make_assessment
  parse_admin_assessment t = do
    value ← json_object loads t
    check_keys value (text "decision" ∷ text "reason_code" ∷ []) []
    decision ← member_of admin_decisions (get (text "decision") value)
    reason ← member_of reason_codes (get (text "reason_code") value)
    or_bad_output (make_assessment decision reason)

abbrev pub issue_optional : List Text
issue_optional =
    text "location"
    ∷ text "suggestion"
    ∷ text "grounded_excerpt"
    ∷ text "violated_requirement"
    ∷ text "input_evidence"
    ∷ text "candidate_evidence"
    ∷ []

unfoldable pub issue_of : Members → Parsed CriticIssue
unfolding check_keys get member_of string_of optional_text make_issue
issue_of members = do
  check_keys members (text "severity" ∷ text "problem" ∷ []) issue_optional
  severity ← member_of severities (get (text "severity") members)
  problem ← string_of (get (text "problem") members)
  location ← optional_text (get (text "location") members)
  suggestion ← optional_text (get (text "suggestion") members)
  excerpt ← optional_text (get (text "grounded_excerpt") members)
  requirement ← optional_text (get (text "violated_requirement") members)
  input ← optional_text (get (text "input_evidence") members)
  candidate ← optional_text (get (text "candidate_evidence") members)
  or_bad_output (
      make_issue (record {
        severity = severity;
        problem = problem;
        location = location;
        suggestion = suggestion;
        grounded_excerpt = excerpt;
        violated_requirement = requirement;
        input_evidence = input;
        candidate_evidence = candidate;
      }))

-- `excerpt not in draft`, where there is one
abbrev pub not_in_draft : Text → Option Text → Bool
not_in_draft draft none = false
not_in_draft draft (some excerpt) = not (contains excerpt draft)

unfoldable pub parse_issue : Text → Json → Parsed CriticIssue
unfolding issue_of contains
parse_issue draft (object members) = do
  i ← issue_of members
  reject_if (not_in_draft draft i.grounded_excerpt) ungrounded_excerpt
  ok i
parse_issue draft _ = err bad_output

unfoldable pub parse_issues : Text → Items → Parsed (List CriticIssue)
unfolding parse_issue
parse_issues draft no_items = ok []
parse_issues draft (item v rest) = do
  i ← parse_issue draft v
  is ← parse_issues draft rest
  ok (i ∷ is)

abbrev pub report_required : List Text
report_required = text "verdict" ∷ text "summary" ∷ text "issues" ∷ []

unfoldable pub parse_critic_report : (Text → Option Json) → Text → Text → Parsed CriticReport
unfolding json_object check_keys get items_of parse_issues member_of string_of make_report
parse_critic_report loads t draft = do
  value ← json_object loads t
  check_keys value report_required []
  items ← items_of (get (text "issues") value)
  issues ← parse_issues draft items
  verdict ← member_of verdicts (get (text "verdict") value)
  summary ← string_of (get (text "summary") value)
  or_bad_output (make_report verdict summary issues)
