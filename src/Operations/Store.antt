-- ===== src/Operations/Store.antt =====
-- operations/store.py: heartbeat results in one SQLite table. The table is a list of rows in order of
-- insertion; a statement that fails changes nothing. `stamp` is `isoformat` with the Z suffix and
-- `unstamp` is `parse_utc_timestamp`. Errors of the disk and the schema's creation are left out.
pub mod RoundTrip
pub mod Marking
pub mod Recent
use editorial_team_v.Prelude.{
  ltb, leb, ◌==◌, if◌then◌else◌, is_some, take, Result, ok, err, ◌>>=◌, ◌>>◌, reject_if, or_raise,
  Text, text, text_eq, ℕ, Bool, true, false, ◌&&◌, ◌||◌, not, Option, none, some, List, [], ◌∷◌,
  ◌++◌,
}
use editorial_team_v.Prelude.Sorting.{text_le, sort_by}
use editorial_team_v.Contracts.{
  ValueError, rule, Checked, Datetime, require_utc_timestamp, validate_identifier,
}
use editorial_team_v.Operations.Models.{
  AdminDecision, silence, notify, AdminReasonCode, system_healthy, worker_stopped,
  repeated_failures, queue_pressure, make_snapshot, HeartbeatResult, make_heartbeat,
}

pub record Row : Type 0 where
  pub result_id : Text
  pub observed_at : Text
  pub decision : Text
  pub reason_code : Text
  pub worker_running : ℕ
  pub queue_depth : ℕ
  pub queue_capacity : ℕ
  pub completed_jobs : ℕ
  pub failed_jobs : ℕ
  pub last_success_at : Option Text
  pub notification_sent : ℕ

pub data StoreError : Type 0 where
  duplicate_result not_found invalid_row silence_marked not_saved : StoreError
  refused : ValueError → StoreError

abbrev pub Stored : Type 0 → Type 0
Stored A = Result StoreError A

-- A `ValueError` that the method lets through
abbrev pub checked : {A : Type 0} → Checked A → Stored A
checked (ok a) = ok a
checked (err e) = err (refused e)

abbrev pub decision_value : AdminDecision → Text
decision_value silence = text "silence"
decision_value notify = text "notify"

abbrev pub reason_value : AdminReasonCode → Text
reason_value system_healthy = text "system_healthy"
reason_value worker_stopped = text "worker_stopped"
reason_value repeated_failures = text "repeated_failures"
reason_value queue_pressure = text "queue_pressure"

-- `AdminDecision(str(...))` and `AdminReasonCode(str(...))`
unfoldable pub parse_decision : Text → Checked AdminDecision
unfolding text_eq
parse_decision t =
    if text_eq t (decision_value silence)
    then ok silence
    else if text_eq t (decision_value notify)
    then ok notify
    else err (rule "not a valid AdminDecision")

unfoldable pub parse_reason : Text → Checked AdminReasonCode
unfolding text_eq
parse_reason t =
    if text_eq t (reason_value system_healthy)
    then ok system_healthy
    else if text_eq t (reason_value worker_stopped)
    then ok worker_stopped
    else if text_eq t (reason_value repeated_failures)
    then ok repeated_failures
    else if text_eq t (reason_value queue_pressure)
    then ok queue_pressure
    else err (rule "not a valid AdminReasonCode")

-- `int(flag)` and `bool(number)`
abbrev pub int_of : Bool → ℕ
int_of true = 1
int_of false = 0

abbrev pub bool_of : ℕ → Bool
bool_of n = not (n == 0)

abbrev pub has_id : Text → Row → Bool
has_id id r = text_eq r.result_id id

-- `SELECT ... WHERE result_id = ?` and `fetchone`
unfoldable pub find_row : Text → List Row → Option Row
find_row id [] = none
find_row id (r ∷ rows) = if has_id id r then some r else find_row id rows

-- The checks of the table that say more than the types of the columns.
unfoldable pub row_allowed : Row → Bool
row_allowed r =
    ltb 0 r.queue_capacity
    && leb r.queue_depth r.queue_capacity
    && leb r.worker_running 1
    && leb r.notification_sent 1
    && ((text_eq r.decision (decision_value silence)
          && text_eq r.reason_code (reason_value system_healthy))
        || (text_eq r.decision (decision_value notify)
            && (text_eq r.reason_code (reason_value worker_stopped)
                || text_eq r.reason_code (reason_value repeated_failures)
                || text_eq r.reason_code (reason_value queue_pressure))))
    && (text_eq r.decision (decision_value notify) || r.notification_sent == 0)

abbrev pub is_notify : Text → Bool
is_notify t = text_eq t (decision_value notify)

-- `UPDATE ... SET notification_sent = 1 WHERE result_id = ?`
unfoldable pub set_sent : Text → List Row → List Row
set_sent id [] = []
set_sent id (r ∷ rows) =
    (if has_id id r then record r { notification_sent = 1 } else r) ∷ set_sent id rows

unfoldable pub insert_row : List Row → Row → Stored (List Row)
insert_row rows r =
    if is_some (find_row r.result_id rows)
    then err duplicate_result
    else if row_allowed r
    then ok (rows ++ (r ∷ []))
    else err not_saved

abbrev pub check_markable : Option Row → Stored (Unit {0})
check_markable none = err not_found
check_markable (some r) = reject_if (not (is_notify r.decision)) silence_marked

module _ (stamp : Datetime → Text) where
  abbrev pub stamp_optional : Option Datetime → Checked (Option Text)
  stamp_optional none = ok none
  stamp_optional (some t) = do _ ← require_utc_timestamp t "timestamp"; ok (some (stamp t))

  -- The values of the INSERT statement
  unfoldable pub to_row : HeartbeatResult → Checked Row
  to_row r = do
    _ ← require_utc_timestamp r.snapshot.observed_at "timestamp"
    last ← stamp_optional r.snapshot.last_success_at
    ok (record {
      result_id = r.id;
      observed_at = stamp r.snapshot.observed_at;
      decision = decision_value r.decision;
      reason_code = reason_value r.reason_code;
      worker_running = int_of r.snapshot.worker_running;
      queue_depth = r.snapshot.queue_depth;
      queue_capacity = r.snapshot.queue_capacity;
      completed_jobs = r.snapshot.completed_jobs;
      failed_jobs = r.snapshot.failed_jobs;
      last_success_at = last;
      notification_sent = int_of r.notification_sent;
    })

  unfoldable pub save : List Row → HeartbeatResult → Stored (List Row)
  save rows result = do r ← checked (to_row result); insert_row rows r

-- `ORDER BY observed_at DESC, result_id DESC`
unfoldable pub newer_or_same : Row → Row → Bool
newer_or_same a b =
    if text_eq a.observed_at b.observed_at
    then text_le b.result_id a.result_id
    else text_le b.observed_at a.observed_at

abbrev pub max_recent_results : ℕ
max_recent_results = 1000

module _ (unstamp : Text → Checked Datetime) where
  abbrev pub unstamp_optional : Option Text → Checked (Option Datetime)
  unstamp_optional none = ok none
  unstamp_optional (some t) = do d ← unstamp t; ok (some d)

  unfoldable pub to_result : Row → Stored HeartbeatResult
  unfolding parse_decision parse_reason
  to_result r = or_raise invalid_row (do
    last ← unstamp_optional r.last_success_at
    observed ← unstamp r.observed_at
    snapshot ← make_snapshot (record {
      observed_at = observed;
      worker_running = bool_of r.worker_running;
      queue_depth = r.queue_depth;
      queue_capacity = r.queue_capacity;
      completed_jobs = r.completed_jobs;
      failed_jobs = r.failed_jobs;
      last_success_at = last;
    })
    decision ← parse_decision r.decision
    reason ← parse_reason r.reason_code
    make_heartbeat (record {
      id = r.result_id;
      snapshot = snapshot;
      decision = decision;
      reason_code = reason;
      notification_sent = bool_of r.notification_sent;
    }))

  abbrev pub result_of_row : Option Row → Stored HeartbeatResult
  result_of_row none = err not_found
  result_of_row (some r) = to_result r

  unfoldable pub get_result : List Row → Text → Stored HeartbeatResult
  get_result rows id = do
    i ← checked (validate_identifier id "result_id")
    result_of_row (find_row i rows)

  -- The transaction, and the result that is read back after it.
  unfoldable pub mark_notification_sent : List Row → Text → Stored HeartbeatResult × List Row
  mark_notification_sent rows id =
      elim (do
        i ← checked (validate_identifier id "result_id")
        check_markable (find_row i rows)
        ok i) [ err e ↦ (err e, rows) | ok i ↦ (get_result (set_sent i rows) i, set_sent i rows) ]

  unfoldable pub to_results : List Row → Stored (List HeartbeatResult)
  to_results [] = ok []
  to_results (r ∷ rows) = do result ← to_result r; results ← to_results rows; ok (result ∷ results)

  unfoldable pub list_recent : List Row → ℕ → Stored (List HeartbeatResult)
  list_recent rows limit = do
    reject_if (limit == 0 || ltb max_recent_results limit)
        (refused (rule "limit must be between 1 and 1000"))
    to_results (take limit (sort_by newer_or_same rows))
