-- ===== src/Operations/Runner.antt =====
-- operations/runner.py: one heartbeat as a job of the shared queue. `attempts` records the calls of the
-- notifier; tracing is left out.
pub mod Delivery
use editorial_team_v.Prelude.{
  if◌then◌else◌, is_empty, Result, ok, err, or_raise, Text, Option, none, some, List, [], ◌∷◌,
}
use editorial_team_v.Contracts.{ValueError, Checked, Datetime, validate_identifier}
use editorial_team_v.Graphs.State.{Reply}
use editorial_team_v.Runtime.Queue.{QueueError}
use editorial_team_v.Runtime.Stats.{RuntimeQueueStats}
use editorial_team_v.Operations.Models.{
  is_silence, OperationalSnapshot, HeartbeatResult, AdminAssessment,
}
use editorial_team_v.Operations.Policy.{AdminPolicy}
use editorial_team_v.Operations.Collector.{Collector, collect}
use editorial_team_v.Operations.Store.{Row, mark_notification_sent}
use editorial_team_v.Operations.Service.{evaluate_and_store}

pub data NotifyReply : Type 0 where
  delivered not_delivered : NotifyReply

pub data RunnerError : Type 0 where
  notification_failed run_failed : RunnerError
  invalid_input : ValueError → RunnerError

-- The outside world of one run: the AdminAgent's answer, the identifier, the notifier's answer.
pub record World : Type 0 where
  pub assessment : Reply AdminAssessment
  pub identifier : Reply Text
  pub notifier : NotifyReply

pub record Run : Type 0 where
  pub outcome : Result RunnerError HeartbeatResult
  pub rows : List Row
  pub attempts : List HeartbeatResult

module _ (stamp : Datetime → Text) (unstamp : Text → Checked Datetime) (policy : AdminPolicy) where
  -- `notify`, and the mark of a result that was delivered
  unfoldable pub deliver : NotifyReply → List Row → HeartbeatResult → Run
  deliver not_delivered rows r = record {
    outcome = err notification_failed;
    rows = rows;
    attempts = r ∷ [];
  }
  deliver delivered rows r = record {
    outcome = or_raise run_failed (mark_notification_sent unstamp rows r.id).0;
    rows = (mark_notification_sent unstamp rows r.id).1;
    attempts = r ∷ [];
  }

  -- The branch on the stored result
  unfoldable pub after_evaluation : World → List Row → HeartbeatResult → Run
  unfolding deliver
  after_evaluation w rows r =
      if is_silence r.decision
      then record { outcome = ok r; rows = rows; attempts = [] }
      else deliver w.notifier rows r

  -- The job's operation
  unfoldable pub operation : World → List Row → OperationalSnapshot → Text → Run
  operation w rows snapshot correlation =
      elim (evaluate_and_store stamp w.assessment w.identifier policy rows snapshot correlation) [
        | err e ↦ record { outcome = err run_failed; rows = rows; attempts = [] }
        | ok (r, next) ↦ after_evaluation w next r
      ]

  -- What the queue gave back: a refusal of the job, or the outcome of its operation. Any failure
  -- reaches the caller as "Heartbeat run failed".
  abbrev pub submitted : Option QueueError → World → List Row → OperationalSnapshot → Text → Run
  submitted (some e) w rows s c = record { outcome = err run_failed; rows = rows; attempts = [] }
  submitted none w rows s c =
      let run = operation w rows s c in record run { outcome = or_raise run_failed run.outcome }

  -- `correlation_id or self._correlation_id_generator()`
  abbrev pub correlation_of : Option Text → Text → Text
  correlation_of none generated = generated
  correlation_of (some c) generated = if is_empty c then generated else c

  abbrev pub with_snapshot :
      Checked OperationalSnapshot → Option QueueError → World → List Row → Text → Run
  with_snapshot (err e) q w rows c = record {
    outcome = err (invalid_input e);
    rows = rows;
    attempts = [];
  }
  with_snapshot (ok s) q w rows c = submitted q w rows s c

  unfoldable pub run_once :
      Option Text
      → Text
      → Collector
      → Checked RuntimeQueueStats
      → Datetime
      → Option QueueError
      → World
      → List Row
      → Run × Collector
  run_once correlation generated collector stats now refusal w rows =
      elim (validate_identifier (correlation_of correlation generated) "correlation_id") [
        | err e ↦
            (record { outcome = err (invalid_input e); rows = rows; attempts = [] }, collector)
        | ok c ↦
            let (snapshot, next) = collect collector stats now in
            (with_snapshot snapshot refusal w rows c, next)
      ]
