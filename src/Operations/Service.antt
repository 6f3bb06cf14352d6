-- ===== src/Operations/Service.antt =====
-- operations/service.py: one assessment, checked against the policy, and its persistence. The answer
-- of the AdminAgent and of the identifier generator are arguments; an error leaves the table as it
-- was. Tracing is left out.
pub mod Agreement
use editorial_team_v.Prelude.{
  if◌then◌else◌, Result, ok, err, ◌>>=◌, ◌>>◌, or_raise, Text, Bool, true, false, ◌&&◌, Option,
  none, some, List,
}
use editorial_team_v.Contracts.{ValueError, Datetime, validate_identifier}
use editorial_team_v.Graphs.State.{Reply, raised, other, value}
use editorial_team_v.Operations.Models.{
  AdminDecision, silence, notify, AdminReasonCode, system_healthy, worker_stopped,
  repeated_failures, queue_pressure, OperationalSnapshot, HeartbeatResult, make_heartbeat,
  AdminAssessment,
}
use editorial_team_v.Operations.Policy.{AdminPolicy, expected_admin_assessment}
use editorial_team_v.Operations.Store.{Row, save}

pub data ServiceFailure : Type 0 where
  policy_mismatch evaluation_failed : ServiceFailure
  invalid_correlation : ValueError → ServiceFailure

abbrev pub same_decision : AdminDecision → AdminDecision → Bool
same_decision silence silence = true
same_decision notify notify = true
same_decision _ _ = false

abbrev pub same_reason : AdminReasonCode → AdminReasonCode → Bool
same_reason system_healthy system_healthy = true
same_reason worker_stopped worker_stopped = true
same_reason repeated_failures repeated_failures = true
same_reason queue_pressure queue_pressure = true
same_reason _ _ = false

-- `assessment == expected` of two dataclasses
abbrev pub same_assessment : AdminAssessment → AdminAssessment → Bool
same_assessment a b = same_decision a.decision b.decision && same_reason a.reason_code b.reason_code

-- An exception that is no `HeartbeatEvaluationError` becomes `evaluation_failed`.
abbrev pub or_failed : {E A : Type 0} → Result E A → Result ServiceFailure A
or_failed r = or_raise evaluation_failed r

abbrev pub assessment_of : Reply AdminAssessment → Result ServiceFailure (Option AdminAssessment)
assessment_of raised = err evaluation_failed
assessment_of other = ok none
assessment_of (value a) = ok (some a)

-- A value of another type equals no assessment.
abbrev pub check_agreement :
    Option AdminAssessment → AdminAssessment → Result ServiceFailure AdminAssessment
check_agreement none expected = err policy_mismatch
check_agreement (some a) expected = if same_assessment a expected then ok a else err policy_mismatch

abbrev pub identifier_of : Reply Text → Result ServiceFailure Text
identifier_of (value i) = ok i
identifier_of _ = err evaluation_failed

unfoldable pub evaluate_and_store :
    (Datetime → Text)
    → Reply AdminAssessment
    → Reply Text
    → AdminPolicy
    → List Row
    → OperationalSnapshot
    → Text
    → Result ServiceFailure (HeartbeatResult × List Row)
evaluate_and_store stamp reply identifier policy rows snapshot correlation =
    elim (validate_identifier correlation "correlation_id") [
      | err e ↦ err (invalid_correlation e)
      | ok _ ↦ do
        answer ← assessment_of reply
        expected ← or_failed (expected_admin_assessment snapshot policy)
        assessment ← check_agreement answer expected
        i ← identifier_of identifier
        result ← or_failed (
            make_heartbeat (record {
              id = i;
              snapshot = snapshot;
              decision = assessment.decision;
              reason_code = assessment.reason_code;
              notification_sent = false;
            }))
        next ← or_failed (save stamp rows result)
        ok (result, next)
    ]
