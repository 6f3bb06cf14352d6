-- ===== src/Domain/Routing.antt =====
-- domain/routing.py: the Coordinator's decisions. A `float` is a sign and a fraction with a power of
-- two below the line, an infinity, or not a number.
use editorial_team_v.Prelude.{
  ltb, leb, ◌==◌, if◌then◌else◌, is_some, is_none, length, take, is_empty, ok, err, ◌>>=◌, ◌>>◌,
  reject_if, Text, strip, ℕ, Bool, false, ◌&&◌, ◌||◌, not, Option, List, [], ◌∷◌,
}
use Prim.Native.Nat.{◌^◌}
use editorial_team_v.Contracts.{blank, rule, Checked, require_non_blank, require_optional}

pub data CoordinatorRoute : Type 0 where
  chat start_writing_task revise_task show_retrieved_draft : CoordinatorRoute

pub data ClarificationReason : Type 0 where
  ambiguous no_match unsupported_version tool_problem : ClarificationReason

pub record TalkerContext : Type 0 where
  pub reason : ClarificationReason
  pub candidate_summaries : List Text
  pub recommended_question : Text

-- `require_non_blank(value, "candidate_summary")[:600]` of each summary
unfoldable pub cut_summaries : List Text → Checked (List Text)
cut_summaries [] = ok []
cut_summaries (s ∷ rest) =
    if is_empty (strip s)
    then err (blank "candidate_summary")
    else do later ← cut_summaries rest; ok (take 600 (strip s) ∷ later)

unfoldable pub make_talker_context : ClarificationReason → List Text → Text → Checked TalkerContext
unfolding cut_summaries require_non_blank
make_talker_context reason summaries question = do
  reject_if (ltb 5 (length summaries))
      (rule "candidate_summaries must contain at most five strings")
  ss ← cut_summaries summaries
  q ← require_non_blank question "recommended_question"
  ok (record { reason = reason; candidate_summaries = ss; recommended_question = take 600 q })

pub data Float : Type 0 where
  nan : Float
  infinity : Bool → Float
  finite : (negative : Bool) (numerator exponent : ℕ) → Float

-- `math.isfinite(x) and 0 <= x <= 1`
abbrev pub in_unit_interval : Float → Bool
in_unit_interval nan = false
in_unit_interval (infinity negative) = false
in_unit_interval (finite negative n e) = (not negative || n == 0) && leb n (2 ^ e)

pub record CoordinatorDecision : Type 0 where
  pub route : CoordinatorRoute
  pub confidence : Float
  pub task_input : Option Text
  pub revision_instructions : Option Text
  pub talker_context : Option TalkerContext

-- The payload rules of each route, in the order of the source's tests.
abbrev pub check_payload :
    CoordinatorRoute → Option Text → Option Text → Option TalkerContext → Checked (Unit {0})
check_payload start_writing_task task_input revision context = do
  reject_if (is_none task_input) (rule "start_writing_task requires task_input")
  reject_if (is_some revision) (rule "start_writing_task must not contain revision_instructions")
  reject_if (is_some context) (rule "start_writing_task must not contain talker_context")
check_payload revise_task task_input revision context = do
  reject_if (is_none revision) (rule "revise_task requires revision_instructions")
  reject_if (is_some task_input) (rule "revise_task must not contain task_input")
  reject_if (is_some context) (rule "revise_task must not contain talker_context")
check_payload show_retrieved_draft task_input revision context = do
  reject_if (is_some task_input || is_some revision)
      (rule "show_retrieved_draft must not contain writing payloads")
  reject_if (is_some context) (rule "show_retrieved_draft must not contain talker_context")
check_payload chat task_input revision context =
    reject_if (is_some task_input || is_some revision)
      (rule "chat must not contain writing payloads")

unfoldable pub make_decision : CoordinatorDecision → Checked CoordinatorDecision
make_decision d = do
  reject_if (not (in_unit_interval d.confidence)) (rule "confidence must be between 0 and 1")
  t ← require_optional d.task_input "task_input"
  r ← require_optional d.revision_instructions "revision_instructions"
  check_payload d.route t r d.talker_context
  ok (record d { task_input = t; revision_instructions = r })
