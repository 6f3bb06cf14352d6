-- ===== src/Operations/Service/Agreement.antt =====
-- What an evaluation that succeeds has stored.
use editorial_team_v.Prelude.{
  ok, Result-cases, Text, ◌≡◌, subst, ◌↔◌, inl, inr, true, false, List, arith,
}
use editorial_team_v.Contracts.{Datetime}
use editorial_team_v.Contracts.Identity.{validate_identifier_idem}
use editorial_team_v.Graphs.State.{Reply, raised, other, value}
use editorial_team_v.Operations.Models.{
  silence, system_healthy, OperationalSnapshot, make_snapshot, HeartbeatResult, make_heartbeat,
  AdminAssessment,
}
use editorial_team_v.Operations.Policy.{
  AdminPolicy, expected_admin_assessment, InForce, expected-InForce,
}
use editorial_team_v.Operations.Store.{Row, save}
use editorial_team_v.Operations.Store.RoundTrip.{IsHeartbeat}
use editorial_team_v.Operations.Service.{same_assessment, evaluate_and_store}

make_heartbeat_idem :
    (q r : HeartbeatResult)
    → make_heartbeat q ≡ ok r
    → (make_heartbeat r ≡ ok r) × (r ≡ record q { id = r.id })
unfolding make_heartbeat
make_heartbeat_idem q r h = ground (arith, validate_identifier_idem q.id r.id "id" "id")

-- The facts about the stored result, read off the service's steps.
record IsStored (stamp : Datetime → Text) (policy : AdminPolicy) (rows next : List Row)
    (snapshot : OperationalSnapshot) (r : HeartbeatResult) : Type 0 where
  checked_again : make_heartbeat r ≡ ok r
  of_snapshot : r.snapshot ≡ snapshot
  unsent : r.notification_sent ≡ false
  required :
      expected_admin_assessment snapshot policy
      ≡ ok (record { decision = r.decision; reason_code = r.reason_code })
  saved : save stamp rows r ≡ ok next

same_assessment_sound : (a b : AdminAssessment) → same_assessment a b ≡ true → a ≡ b
same_assessment_sound a b h = ground arith

module _ (stamp : Datetime → Text) (policy : AdminPolicy) (rows next : List Row)
    (snapshot : OperationalSnapshot) (correlation : Text) (r : HeartbeatResult) where
  parts :
      (reply : Reply AdminAssessment) (identifier : Reply Text)
      → evaluate_and_store stamp reply identifier policy rows snapshot correlation ≡ ok (r, next)
      → IsStored stamp policy rows next snapshot r
  unfolding evaluate_and_store
  parts raised i h = absurd (ground arith)
  parts other i h = absurd (ground arith)
  parts (value a) raised h = absurd (ground arith)
  parts (value a) other h = absurd (ground arith)
  parts (value a) (value i) h =
      let q : HeartbeatResult = record {
        id = i;
        snapshot = snapshot;
        decision = a.decision;
        reason_code = a.reason_code;
        notification_sent = false;
      } in
      elim (Result-cases (expected_admin_assessment snapshot policy)) [
        | inl (e, he) ↦ elim (Result-cases (make_heartbeat q)) [
          | inl (t, ht) ↦ elim (Result-cases (save stamp rows t)) [
            | inl (n, hn) ↦
                let (again, shape) = make_heartbeat_idem q t ht in
                ground (arith, same_assessment_sound a e)
            | inr (x, hx) ↦ absurd (ground arith)
          ]
          | inr (x, hx) ↦ absurd (ground arith)
        ]
        | inr (x, hx) ↦ absurd (ground arith)
      ]

  -- An evaluation that succeeds with the result `r` stored exactly `r`, its reason is the one in
  -- force under the policy, it keeps silence exactly if the system is healthy, and it is not marked
  -- as notified.
  pub evaluate_and_store-InForce :
      (reply : Reply AdminAssessment) (identifier : Reply Text)
      → evaluate_and_store stamp reply identifier policy rows snapshot correlation ≡ ok (r, next)
      → InForce snapshot policy r.reason_code
        × (r.decision ≡ silence ↔ r.reason_code ≡ system_healthy)
        × (r.notification_sent ≡ false)
        × (save stamp rows r ≡ ok next)
  evaluate_and_store-InForce reply identifier h =
      let p = parts reply identifier h in
      let (a, ha, force, silent) = expected-InForce snapshot policy in
      let same : a ≡ record { decision = r.decision; reason_code = r.reason_code } =
        cc (ha, p.required) in
      (
        subst (λ x. InForce snapshot policy x.reason_code) same force,
        subst (λ (x : AdminAssessment). x.decision ≡ silence ↔ x.reason_code ≡ system_healthy) same
            silent,
        p.unsent,
        p.saved,
      )

  pub evaluate_and_store-IsHeartbeat :
      (reply : Reply AdminAssessment) (identifier : Reply Text)
      → make_snapshot snapshot ≡ ok snapshot
      → evaluate_and_store stamp reply identifier policy rows snapshot correlation ≡ ok (r, next)
      → IsHeartbeat r
  evaluate_and_store-IsHeartbeat reply identifier v h =
      let p = parts reply identifier h in
      record { result_checked = p.checked_again; snapshot_checked = rw p.of_snapshot v }
