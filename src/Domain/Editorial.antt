-- ===== src/Domain/Editorial.antt =====
-- domain/editorial.py: writing briefs, critic reports, editorial results, writing tasks and run
-- contexts. A dataclass is a record, and `make_...` is its construction with `__post_init__`.
use editorial_team_v.Prelude.{
  ltb, if◌then◌else◌, is_some, is_none, any, is_empty, ok, err, ◌>>=◌, ◌>>◌, reject_if, Text,
  text_eq, strip, ℕ, suc, Bool, true, false, ◌&&◌, ◌||◌, not, Option, none, some, List, [], ◌∷◌,
}
use editorial_team_v.Contracts.{
  blank_item, rule, Checked, require_non_blank, require_optional, Datetime, require_utc_timestamp,
  validate_identifier,
}

pub data WritingTaskStatus : Type 0 where
  created drafted reviewed revised retrieved : WritingTaskStatus

pub data EditorialOperation : Type 0 where
  new_task active_revision historical_transformation : EditorialOperation

pub record WritingBrief : Type 0 where
  pub original_request : Text
  pub instructions : List Text

-- `enumerate(self.instructions)` from `index` on
unfoldable pub trim_instructions : ℕ → List Text → Checked (List Text)
trim_instructions index [] = ok []
trim_instructions index (i ∷ rest) =
    if is_empty (strip i)
    then err (blank_item "instructions" index)
    else do later ← trim_instructions (suc index) rest; ok (strip i ∷ later)

unfoldable pub make_brief : Text → List Text → Checked WritingBrief
make_brief request instructions = do
  r ← require_non_blank request "original_request"
  is ← trim_instructions 0 instructions
  ok (record { original_request = r; instructions = is })

pub data CriticVerdict : Type 0 where
  pass revise : CriticVerdict

pub data CriticIssueSeverity : Type 0 where
  minor major : CriticIssueSeverity

pub record CriticIssue : Type 0 where
  pub severity : CriticIssueSeverity
  pub problem : Text
  pub location : Option Text
  pub suggestion : Option Text
  pub grounded_excerpt : Option Text
  pub violated_requirement : Option Text
  pub input_evidence : Option Text
  pub candidate_evidence : Option Text

-- The argument holds the raw field values.
unfoldable pub make_issue : CriticIssue → Checked CriticIssue
make_issue i = do
  p ← require_non_blank i.problem "problem"
  l ← require_optional i.location "location"
  s ← require_optional i.suggestion "suggestion"
  g ← require_optional i.grounded_excerpt "grounded_excerpt"
  v ← require_optional i.violated_requirement "violated_requirement"
  e ← require_optional i.input_evidence "input_evidence"
  c ← require_optional i.candidate_evidence "candidate_evidence"
  ok (record {
    severity = i.severity;
    problem = p;
    location = l;
    suggestion = s;
    grounded_excerpt = g;
    violated_requirement = v;
    input_evidence = e;
    candidate_evidence = c;
  })

pub record CriticReport : Type 0 where
  pub verdict : CriticVerdict
  pub summary : Text
  pub issues : List CriticIssue

abbrev pub is_major : CriticIssue → Bool
is_major i = elim i.severity [ minor ↦ false | major ↦ true ]

abbrev pub check_verdict : CriticVerdict → List CriticIssue → Checked (Unit {0})
check_verdict pass issues =
    reject_if (any is_major issues) (rule "a passing critic report must not contain major issues")
check_verdict revise issues =
    reject_if (is_empty issues) (rule "a revise critic report must contain at least one issue")

unfoldable pub make_report : CriticVerdict → Text → List CriticIssue → Checked CriticReport
make_report verdict summary issues = do
  s ← require_non_blank summary "summary"
  check_verdict verdict issues
  ok (record { verdict = verdict; summary = s; issues = issues })

pub record EditorialResult : Type 0 where
  pub writer_output : Text
  pub critic_report : CriticReport
  pub working_draft : Text
  pub revision_applied : Bool

abbrev pub check_result : CriticVerdict → EditorialResult → Checked (Unit {0})
check_result pass r = do
  reject_if r.revision_applied (rule "a passing result must not apply a revision")
  reject_if (not (text_eq r.working_draft r.writer_output))
      (rule "a passing result must use writer_output as working_draft")
check_result revise r =
    reject_if (not r.revision_applied) (rule "a revise result must apply a revision")

-- `require_non_blank` is called for its refusal only: the texts are stored as they are.
unfoldable pub make_result : EditorialResult → Checked EditorialResult
make_result r = do
  _ ← require_non_blank r.writer_output "writer_output"
  _ ← require_non_blank r.working_draft "working_draft"
  check_result r.critic_report.verdict r
  ok r

pub record WritingTask : Type 0 where
  pub id : Text
  pub conversation_id : Text
  pub brief : WritingBrief
  pub status : WritingTaskStatus
  pub created_at : Datetime
  pub updated_at : Datetime
  pub working_draft : Option Text
  pub critic_report : Option CriticReport

-- `status in produced_text_statuses`
abbrev pub has_produced_text : WritingTaskStatus → Bool
has_produced_text created = false
has_produced_text drafted = true
has_produced_text reviewed = true
has_produced_text revised = true
has_produced_text retrieved = true

-- `status in reviewed_statuses`
abbrev pub is_reviewed_status : WritingTaskStatus → Bool
is_reviewed_status reviewed = true
is_reviewed_status revised = true
is_reviewed_status _ = false

abbrev pub check_draft : Option Text → Checked (Unit {0})
check_draft none = ok tt
check_draft (some d) = do _ ← require_non_blank d "working_draft"; ok tt

unfoldable pub make_task : WritingTask → Checked WritingTask
make_task t = do
  i ← validate_identifier t.id "id"
  c ← validate_identifier t.conversation_id "conversation_id"
  _ ← require_utc_timestamp t.created_at "created_at"
  _ ← require_utc_timestamp t.updated_at "updated_at"
  reject_if (ltb t.updated_at.instant t.created_at.instant)
      (rule "updated_at must not be earlier than created_at")
  check_draft t.working_draft
  reject_if (has_produced_text t.status && is_none t.working_draft)
      (rule "tasks require working_draft")
  reject_if (is_reviewed_status t.status && is_none t.critic_report)
      (rule "tasks require critic_report")
  ok (record t { id = i; conversation_id = c })

pub record EditorialRunContext : Type 0 where
  pub turn_id : Text
  pub operation : EditorialOperation
  pub task : WritingTask
  pub current_instruction : Text
  pub retrieved_artifact_id : Option Text

abbrev pub is_historical : EditorialOperation → Bool
is_historical historical_transformation = true
is_historical _ = false

abbrev pub check_artifact_id : Option Text → Checked (Option Text)
check_artifact_id none = ok none
check_artifact_id (some a) = do v ← validate_identifier a "retrieved_artifact_id"; ok (some v)

unfoldable pub make_context : EditorialRunContext → Checked EditorialRunContext
make_context c = do
  t ← validate_identifier c.turn_id "turn_id"
  i ← require_non_blank c.current_instruction "current_instruction"
  a ← check_artifact_id c.retrieved_artifact_id
  reject_if (is_historical c.operation && (is_none a || is_none c.task.working_draft))
      (rule "historical transformation requires a retrieved draft")
  reject_if (not (is_historical c.operation) && is_some a)
      (rule "only historical transformations may identify a retrieved artifact")
  ok (record c { turn_id = t; current_instruction = i; retrieved_artifact_id = a })

-- The `run_id` property: the fresh task's id.
abbrev pub run_id : EditorialRunContext → Text
run_id c = c.task.id
