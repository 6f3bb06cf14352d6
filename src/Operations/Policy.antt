-- ===== src/Operations/Policy.antt =====
-- operations/policy.py: the thresholds and the assessment that they require. The ratio is kept as
-- the decimal fraction that `Fraction(str(ratio))` reads.
use editorial_team_v.Prelude.{
  ltb, leb, ◌==◌, if◌then◌else◌, ok, ◌>>◌, reject_if, Result-cases, ℕ, ◌*◌, ◌≤◌, ◌<◌, ◌≡◌, ◌↔◌, inl,
  inr, true, false, ◌||◌, not, arith,
}
use editorial_team_v.Contracts.{rule, Checked}
use editorial_team_v.Operations.Models.{
  silence, notify, AdminReasonCode, system_healthy, worker_stopped, repeated_failures,
  queue_pressure, OperationalSnapshot, AdminAssessment, make_assessment,
}

pub record AdminPolicy : Type 0 where
  pub failure_threshold : ℕ
  pub ratio_numerator : ℕ
  pub ratio_denominator : ℕ

unfoldable pub make_policy : AdminPolicy → Checked AdminPolicy
make_policy p = do
  reject_if (p.failure_threshold == 0) (rule "failure_threshold must be a positive integer")
  reject_if (p.ratio_numerator == 0 || ltb p.ratio_denominator p.ratio_numerator)
      (rule "queue_pressure_ratio must be greater than 0 and at most 1")
  ok p

unfoldable pub expected_admin_assessment :
    OperationalSnapshot → AdminPolicy → Checked AdminAssessment
unfolding make_assessment
expected_admin_assessment s p =
    if not s.worker_running
    then make_assessment notify worker_stopped
    else if leb p.failure_threshold s.failed_jobs
    then make_assessment notify repeated_failures
    else if leb (s.queue_capacity * p.ratio_numerator) (s.queue_depth * p.ratio_denominator)
    then make_assessment notify queue_pressure
    else make_assessment silence system_healthy

mul-mono_left : (m n k : ℕ) → m ≤ n → m * k ≤ n * k
mul-mono_left m n k h = grind arith

-- The reason that is in force: the first of the three that holds.
abbrev pub InForce : OperationalSnapshot → AdminPolicy → AdminReasonCode → Type 0
InForce s p worker_stopped = s.worker_running ≡ false
InForce s p repeated_failures = (s.worker_running ≡ true) × (p.failure_threshold ≤ s.failed_jobs)
InForce s p queue_pressure =
    (s.worker_running ≡ true)
    × (s.failed_jobs < p.failure_threshold)
    × (s.queue_capacity * p.ratio_numerator ≤ s.queue_depth * p.ratio_denominator)
InForce s p system_healthy =
    (s.worker_running ≡ true)
    × (s.failed_jobs < p.failure_threshold)
    × (s.queue_depth * p.ratio_denominator < s.queue_capacity * p.ratio_numerator)

-- Every snapshot and policy have a required assessment, whose reason is the first in force of a
-- stopped worker, repeated failures and queue pressure, and which keeps silence exactly if its
-- reason is a healthy system.
pub expected-InForce :
    (s : OperationalSnapshot) (p : AdminPolicy)
    → (a : AdminAssessment) × (expected_admin_assessment s p ≡ ok a)
      × InForce s p a.reason_code
      × (a.decision ≡ silence ↔ a.reason_code ≡ system_healthy)
unfolding expected_admin_assessment
expected-InForce s p = elim (Result-cases (expected_admin_assessment s p)) [
  | inl (a, h) ↦ (a, h, ground arith, ground arith)
  | inr (e, h) ↦ ground arith
]

-- With the same worker state and capacity, a snapshot with at least as many waiting and failed jobs
-- as one that requires a notification requires one too.
pub expected_mono :
    (s t : OperationalSnapshot) (p : AdminPolicy) (a b : AdminAssessment)
    → s.worker_running ≡ t.worker_running
    → s.queue_capacity ≡ t.queue_capacity
    → s.queue_depth ≤ t.queue_depth
    → s.failed_jobs ≤ t.failed_jobs
    → expected_admin_assessment s p ≡ ok a
    → expected_admin_assessment t p ≡ ok b
    → a.decision ≡ notify
    → b.decision ≡ notify
unfolding expected_admin_assessment
expected_mono s t p a b hw hc hd hf ha hb n =
    ground (arith, mul-mono_left s.queue_depth t.queue_depth p.ratio_denominator hd)
