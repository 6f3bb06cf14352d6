-- ===== src/Operations/Runner/Delivery.antt =====
-- How often a heartbeat notifies, and what is stored when it does.
use editorial_team_v.Prelude.{
  if◌then◌else◌, ok, err, or_raise, is_ok, Text, ◌≡◌, refl, sym, ap, ◌∙◌, subst, true, false, List,
  [], ◌∷◌, arith,
}
use editorial_team_v.Contracts.{Checked, Datetime, is_utc}
use editorial_team_v.Operations.Models.{
  AdminDecision, silence, notify, is_silence, OperationalSnapshot, make_snapshot, HeartbeatResult,
}
use editorial_team_v.Operations.Policy.{AdminPolicy}
use editorial_team_v.Operations.Store.{Row, get_result}
use editorial_team_v.Operations.Store.RoundTrip.{get-save}
use editorial_team_v.Operations.Store.Marking.{mark-notify, get-mark}
use editorial_team_v.Operations.Service.{evaluate_and_store}
use editorial_team_v.Operations.Service.Agreement.{
  evaluate_and_store-InForce, evaluate_and_store-IsHeartbeat,
}
use editorial_team_v.Operations.Runner.{
  NotifyReply, delivered, not_delivered, run_failed, notification_failed, World, Run, deliver,
  after_evaluation, operation,
}

-- The ways in which the operation of a heartbeat can go, after the stored result `r`.
abbrev pub Delivered :
    (Text → Checked Datetime) → NotifyReply → AdminDecision → HeartbeatResult → Run → Type 0
Delivered unstamp n silence r run =
    (run.outcome ≡ ok r) × (run.attempts ≡ []) × (get_result unstamp run.rows r.id ≡ ok r)
Delivered unstamp delivered notify r run =
    (run.outcome ≡ ok (record r { notification_sent = true }))
    × (run.attempts ≡ r ∷ [])
    × (get_result unstamp run.rows r.id ≡ ok (record r { notification_sent = true }))
Delivered unstamp not_delivered notify r run =
    (run.outcome ≡ err notification_failed)
    × (run.attempts ≡ r ∷ [])
    × (get_result unstamp run.rows r.id ≡ ok r)

module _ (stamp : Datetime → Text) (unstamp : Text → Checked Datetime) (policy : AdminPolicy) where
  branch-Delivered :
      (n : NotifyReply) (d : AdminDecision) (rows : List Row) (r : HeartbeatResult)
      → r.decision ≡ d
      → get_result unstamp rows r.id ≡ ok r
      → Delivered unstamp n d r (
          if is_silence d
          then record { outcome = ok r; rows = rows; attempts = [] }
          else deliver stamp unstamp policy n rows r)
  unfolding deliver
  branch-Delivered n silence rows r e h = (refl, refl, h)
  branch-Delivered delivered notify rows r e h =
      let m = (mark-notify unstamp rows r.id r h e).0 in
      (ap (or_raise run_failed) m, refl, get-mark unstamp rows r.id r h e ∙ m)
  branch-Delivered not_delivered notify rows r e h = (refl, refl, h)

  operation-eq :
      (w : World) (rows next : List Row) (s : OperationalSnapshot) (c : Text) (r : HeartbeatResult)
      → evaluate_and_store stamp w.assessment w.identifier policy rows s c ≡ ok (r, next)
      → operation stamp unstamp policy w rows s c ≡ after_evaluation stamp unstamp policy w next r
  unfolding operation
  operation-eq w rows next s c r h = rw (h, operation)

  -- After an evaluation that stored the result `r` of an accepted snapshot, where a stored UTC time
  -- reads back as itself, a heartbeat that keeps silence ends with `r` and no notification, one
  -- whose notification is delivered makes that one notification and ends with `r` marked as sent,
  -- in its outcome and in the table, and one whose notification fails ends with the error of
  -- notification and leaves `r` unmarked.
  pub operation-Delivered :
      (unstamp-stamp : (t : Datetime) → is_utc t.zone ≡ true → unstamp (stamp t) ≡ ok t) (w : World)
      (rows next : List Row) (s : OperationalSnapshot) (c : Text) (r : HeartbeatResult)
      → make_snapshot s ≡ ok s
      → evaluate_and_store stamp w.assessment w.identifier policy rows s c ≡ ok (r, next)
      → Delivered unstamp w.notifier r.decision r (operation stamp unstamp policy w rows s c)
  unfolding after_evaluation
  operation-Delivered law w rows next s c r v h =
      let valid =
        evaluate_and_store-IsHeartbeat stamp policy rows next s c r w.assessment w.identifier v h in
      let (_, _, _, saved) =
        evaluate_and_store-InForce stamp policy rows next s c r w.assessment w.identifier h in
      subst (λ run. Delivered unstamp w.notifier r.decision r run)
        (sym (operation-eq w rows next s c r h))
        (branch-Delivered w.notifier r.decision next r refl
          (get-save stamp unstamp law rows next r valid saved))

  -- A heartbeat whose evaluation fails notifies nobody and leaves the table as it was.
  pub operation-failed :
      (w : World) (rows : List Row) (s : OperationalSnapshot) (c : Text)
      → is_ok (evaluate_and_store stamp w.assessment w.identifier policy rows s c) ≡ false
      → operation stamp unstamp policy w rows s c
        ≡ record { outcome = err run_failed; rows = rows; attempts = [] }
  unfolding operation
  operation-failed w rows s c h = ground arith
