-- ===== src/Operations/Store/RoundTrip.antt =====
-- A result that was saved is read back as it was.
use editorial_team_v.Prelude.{
  if◌then◌else◌, ok, err, is_ok, Result-cases, Text, text_eq, text_eq_complete, ◌≡◌, refl, ◌≢◌, inl,
  inr, Bool, true, false, Option, none, some, List, [], ◌∷◌, ◌++◌, arith,
}
use editorial_team_v.Contracts.{
  Checked, Datetime, require_utc_timestamp, validate_identifier, is_utc,
}
use editorial_team_v.Contracts.Identity.{validate_identifier_idem}
use editorial_team_v.Operations.Models.{
  AdminDecision, silence, notify, AdminReasonCode, system_healthy, worker_stopped,
  repeated_failures, queue_pressure, make_snapshot, HeartbeatResult, make_heartbeat,
  validate_admin_decision,
}
use editorial_team_v.Operations.Store.{
  Row, duplicate_result, decision_value, reason_value, parse_decision, parse_reason, int_of,
  bool_of, has_id, find_row, row_allowed, to_row, insert_row, save, to_result, get_result,
  unstamp_optional, stamp_optional,
}

-- What the dataclasses have checked of a result that exists.
pub record IsHeartbeat (r : HeartbeatResult) : Type 0 where
  pub result_checked : make_heartbeat r ≡ ok r
  pub snapshot_checked : make_snapshot r.snapshot ≡ ok r.snapshot

pub parse-decision_value : (d : AdminDecision) → parse_decision (decision_value d) ≡ ok d
unfolding parse_decision
parse-decision_value silence = refl
parse-decision_value notify = refl

pub parse-reason_value : (c : AdminReasonCode) → parse_reason (reason_value c) ≡ ok c
unfolding parse_reason
parse-reason_value system_healthy = refl
parse-reason_value worker_stopped = refl
parse-reason_value repeated_failures = refl
parse-reason_value queue_pressure = refl

bool_of-int_of : (b : Bool) → bool_of (int_of b) ≡ b
bool_of-int_of true = refl
bool_of-int_of false = refl

find_row-append :
    (id : Text) (rows : List Row) (r : Row)
    → find_row id rows ≡ none
    → find_row id (rows ++ (r ∷ [])) ≡ (if has_id id r then some r else none)
unfolding find_row
find_row-append id [] r h = refl
find_row-append id (q ∷ rows) r h = ground (arith, find_row-append id rows r)

pub id-checked :
    (r : HeartbeatResult) → IsHeartbeat r → validate_identifier r.id "result_id" ≡ ok r.id
unfolding make_heartbeat
id-checked r v = validate_identifier_idem r.id r.id "id" "result_id" (ground arith)

result_id-to_row :
    (stamp : Datetime → Text) (r : HeartbeatResult) (q : Row)
    → to_row stamp r ≡ ok q
    → q.result_id ≡ r.id
unfolding to_row
result_id-to_row stamp r q h = ground arith

row_allowed-to_row :
    (stamp : Datetime → Text) (r : HeartbeatResult) (q : Row)
    → IsHeartbeat r
    → to_row stamp r ≡ ok q
    → row_allowed q ≡ true
unfolding to_row row_allowed make_heartbeat make_snapshot validate_admin_decision text_eq
row_allowed-to_row stamp r q v h = ground arith

to_row-ok :
    (stamp : Datetime → Text) (r : HeartbeatResult) → IsHeartbeat r → is_ok (to_row stamp r) ≡ true
unfolding to_row make_snapshot require_utc_timestamp
to_row-ok stamp r v = ground arith

-- A valid heartbeat result is saved if its identifier is not in the table, and is refused as a
-- duplicate if it is.
pub save-accepts :
    (stamp : Datetime → Text) (rows : List Row) (r : HeartbeatResult)
    → IsHeartbeat r
    → (find_row r.id rows ≡ none → is_ok (save stamp rows r) ≡ true)
      × (find_row r.id rows ≢ none → save stamp rows r ≡ err duplicate_result)
unfolding save insert_row
save-accepts stamp rows r v = elim (Result-cases (to_row stamp r)) [
  | inl (q, hq) ↦
      let e = result_id-to_row stamp r q hq in
      (λ f. ground (arith, row_allowed-to_row stamp r q v hq), λ f. ground arith)
  | inr (x, hx) ↦
      (λ f. ground (arith, to_row-ok stamp r v), λ f. ground (arith, to_row-ok stamp r v))
]

module _ (stamp : Datetime → Text) (unstamp : Text → Checked Datetime)
    (unstamp-stamp : (t : Datetime) → is_utc t.zone ≡ true → unstamp (stamp t) ≡ ok t) where
  unstamp_optional-stamp :
      (o : Option Datetime) (t : Option Text)
      → stamp_optional stamp o ≡ ok t
      → unstamp_optional unstamp t ≡ ok o
  unfolding require_utc_timestamp
  unstamp_optional-stamp none t h = ground arith
  unstamp_optional-stamp (some d) t h = ground (arith, unstamp-stamp d)

  to_result-to_row :
      (r : HeartbeatResult) (q : Row)
      → IsHeartbeat r
      → to_row stamp r ≡ ok q
      → to_result unstamp q ≡ ok r
  unfolding to_row to_result require_utc_timestamp
  to_result-to_row r q v h = ground (
    arith,
    unstamp_optional-stamp r.snapshot.last_success_at q.last_success_at,
    unstamp-stamp r.snapshot.observed_at,
    parse-decision_value r.decision,
    parse-reason_value r.reason_code,
    bool_of-int_of r.notification_sent,
    bool_of-int_of r.snapshot.worker_running,
  )

  save-parts :
      (rows next : List Row) (r : HeartbeatResult)
      → save stamp rows r ≡ ok next
      → (q : Row) × (to_row stamp r ≡ ok q)
        × (find_row q.result_id rows ≡ none)
        × (next ≡ rows ++ (q ∷ []))
  unfolding save insert_row
  save-parts rows next r h = elim (Result-cases (to_row stamp r)) [
    | inl (q, hq) ↦ (q, hq, ground arith, ground arith)
    | inr (e, he) ↦ ground arith
  ]

  find_row-save :
      (rows next : List Row) (r : HeartbeatResult) (q : Row) (j : Text)
      → save stamp rows r ≡ ok next
      → to_row stamp r ≡ ok q
      → j ≡ r.id
      → find_row j next ≡ some q
  find_row-save rows next r q j h hq e =
      let (p, hp, fresh, shape) = save-parts rows next r h in
      ground (
        arith,
        find_row-append j rows p,
        result_id-to_row stamp r p hp,
        text_eq_complete p.result_id j,
      )

  -- A valid heartbeat result that was saved is got again by its identifier as it was, where a
  -- stored UTC time reads back as itself.
  pub get-save :
      (rows next : List Row) (r : HeartbeatResult)
      → IsHeartbeat r
      → save stamp rows r ≡ ok next
      → get_result unstamp next r.id ≡ ok r
  unfolding get_result
  get-save rows next r v h =
      let (q, hq, fresh, shape) = save-parts rows next r h in
      ground (
        arith,
        id-checked r v,
        find_row-save rows next r q r.id h hq refl,
        to_result-to_row r q v hq,
      )
