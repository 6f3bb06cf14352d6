-- ===== src/Operations/Models.antt =====
-- operations/models.py: snapshots, assessments and heartbeat results.
use editorial_team_v.Prelude.{
  ltb, ◌==◌, ok, err, ◌>>=◌, ◌>>◌, reject_if, Text, ℕ, Bool, true, false, ◌&&◌, not, Option, none,
  some,
}
use editorial_team_v.Contracts.{rule, Checked, Datetime, require_utc_timestamp, validate_identifier}

pub data AdminDecision : Type 0 where
  silence notify : AdminDecision

pub data AdminReasonCode : Type 0 where
  system_healthy worker_stopped repeated_failures queue_pressure : AdminReasonCode

-- `reason_code in _ALERT_REASONS`
abbrev pub is_alert : AdminReasonCode → Bool
is_alert system_healthy = false
is_alert worker_stopped = true
is_alert repeated_failures = true
is_alert queue_pressure = true

unfoldable pub validate_admin_decision : AdminDecision → AdminReasonCode → Checked (Unit {0})
validate_admin_decision silence system_healthy = ok tt
validate_admin_decision silence _ = err (rule "SILENCE requires SYSTEM_HEALTHY")
validate_admin_decision notify reason =
    reject_if (not (is_alert reason)) (rule "NOTIFY requires an alert reason")

pub record OperationalSnapshot : Type 0 where
  pub observed_at : Datetime
  pub worker_running : Bool
  pub queue_depth : ℕ
  pub queue_capacity : ℕ
  pub completed_jobs : ℕ
  pub failed_jobs : ℕ
  pub last_success_at : Option Datetime

abbrev pub check_last_success : Option Datetime → Datetime → Checked (Unit {0})
check_last_success none observed = ok tt
check_last_success (some t) observed = do
  _ ← require_utc_timestamp t "last_success_at"
  reject_if (ltb observed.instant t.instant) (rule "last_success_at must not be after observed_at")

unfoldable pub make_snapshot : OperationalSnapshot → Checked OperationalSnapshot
make_snapshot s = do
  _ ← require_utc_timestamp s.observed_at "observed_at"
  reject_if (s.queue_capacity == 0) (rule "queue_capacity must be positive")
  reject_if (ltb s.queue_capacity s.queue_depth) (rule "queue_depth must not exceed queue_capacity")
  check_last_success s.last_success_at s.observed_at
  ok s

pub record HeartbeatResult : Type 0 where
  pub id : Text
  pub snapshot : OperationalSnapshot
  pub decision : AdminDecision
  pub reason_code : AdminReasonCode
  pub notification_sent : Bool

abbrev pub is_silence : AdminDecision → Bool
is_silence silence = true
is_silence notify = false

unfoldable pub make_heartbeat : HeartbeatResult → Checked HeartbeatResult
make_heartbeat r = do
  i ← validate_identifier r.id "id"
  validate_admin_decision r.decision r.reason_code
  reject_if (is_silence r.decision && r.notification_sent)
      (rule "SILENCE cannot be marked as notified")
  ok (record r { id = i })

pub record AdminAssessment : Type 0 where
  pub decision : AdminDecision
  pub reason_code : AdminReasonCode

unfoldable pub make_assessment : AdminDecision → AdminReasonCode → Checked AdminAssessment
unfolding validate_admin_decision
make_assessment decision reason = do
  validate_admin_decision decision reason
  ok (record { decision = decision; reason_code = reason })
