-- ===== src/Domain/Validity.antt =====
-- What the constructors of the other domain objects guarantee.
use editorial_team_v.Prelude.{
  Text, is_some, any, all, is_empty, All, ok, Text, text_eq_sound, ◌≡◌, ◌↔◌, true, false, List, [],
  ◌∷◌, arith,
}
use editorial_team_v.Contracts.Identity.{require_non_blank_idem, require_optional_idem}
use editorial_team_v.Domain.Editorial.{
  CriticReport, CriticVerdict, pass, revise, CriticIssue, is_major, make_report, EditorialResult,
  make_result, make_context, EditorialRunContext, is_historical,
}
use editorial_team_v.Domain.Routing.{
  CoordinatorDecision, make_decision, in_unit_interval, chat, start_writing_task, revise_task,
}
use editorial_team_v.Domain.Conversation.{
  Message, ConversationState, make_conversation, owns_task, owns_message,
}

abbrev pub PassIsClean : CriticVerdict → List CriticIssue → Type 0
PassIsClean pass issues = any is_major issues ≡ false
PassIsClean revise issues = is_empty issues ≡ false

-- A report that passes has no major issue, and one that asks for a revision has an issue.
pub make_report-PassIsClean :
    (v : CriticVerdict) (s : Text) (is : List CriticIssue) (r : CriticReport)
    → make_report v s is ≡ ok r
    → PassIsClean r.verdict r.issues
unfolding make_report
make_report-PassIsClean pass s is r h = ground arith
make_report-PassIsClean revise s is r h = ground arith

pub make_report_idem :
    (v : CriticVerdict) (s : Text) (is : List CriticIssue) (r : CriticReport)
    → make_report v s is ≡ ok r
    → make_report r.verdict r.summary r.issues ≡ ok r
unfolding make_report
make_report_idem pass s is r h =
    ground (arith, require_non_blank_idem s r.summary "summary" "summary")
make_report_idem revise s is r h =
    ground (arith, require_non_blank_idem s r.summary "summary" "summary")

-- A constructed result applies a revision exactly if the report asks for one, and otherwise its
-- working draft is the Writer's output.
pub record IsResult (r : EditorialResult) : Type 0 where
  pub revised_iff : r.revision_applied ≡ true ↔ r.critic_report.verdict ≡ revise
  pub unrevised_same : r.revision_applied ≡ false → r.working_draft ≡ r.writer_output

-- An editorial result that is constructed applies a revision exactly if its report asks for one,
-- and otherwise its working draft is the Writer's output.
pub make_result-IsResult : (q r : EditorialResult) → make_result q ≡ ok r → IsResult r
unfolding make_result
make_result-IsResult q r h = ground (arith, text_eq_sound r.working_draft r.writer_output)

-- The payloads that a decision carries are those of its route.
pub record IsDecision (d : CoordinatorDecision) : Type 0 where
  pub confidence_in_range : in_unit_interval d.confidence ≡ true
  pub input_iff_start : is_some d.task_input ≡ true ↔ d.route ≡ start_writing_task
  pub revision_iff_revise : is_some d.revision_instructions ≡ true ↔ d.route ≡ revise_task
  pub context_only_in_chat : is_some d.talker_context ≡ true → d.route ≡ chat

-- A decision that is constructed has a confidence from 0 to 1, a task input exactly if it starts a
-- task, revision instructions exactly if it revises one, and a context for the Talker only in a
-- chat.
pub make_decision-IsDecision : (q d : CoordinatorDecision) → make_decision q ≡ ok d → IsDecision d
unfolding make_decision
make_decision-IsDecision q d h = ground arith

pub make_decision_idem :
    (q d : CoordinatorDecision) → make_decision q ≡ ok d → make_decision d ≡ ok d
unfolding make_decision
make_decision_idem q d h = ground (
  arith,
  require_optional_idem q.task_input d.task_input "task_input" "task_input",
  require_optional_idem q.revision_instructions d.revision_instructions "revision_instructions"
      "revision_instructions",
)

-- A run context is historical exactly if it names an artifact, and then its task has a draft.
pub record IsContext (c : EditorialRunContext) : Type 0 where
  pub artifact_iff : is_some c.retrieved_artifact_id ≡ true ↔ is_historical c.operation ≡ true
  pub historical_draft : is_historical c.operation ≡ true → is_some c.task.working_draft ≡ true

pub make_context-IsContext :
    (q c : EditorialRunContext) → make_context q ≡ ok c → IsContext c × (c.task ≡ q.task)
unfolding make_context
make_context-IsContext q c h = ground arith

abbrev pub Owned : Text → Message → Type 0
Owned c m = m.conversation_id ≡ c

all-Owned : (c : Text) (ms : List Message) → all (owns_message c) ms ≡ true → All (Owned c) ms
all-Owned c [] h = tt
all-Owned c (m ∷ ms) h =
    (text_eq_sound m.conversation_id c (ground arith), all-Owned c ms (ground arith))

pub record IsConversation (s : ConversationState) : Type 0 where
  pub task_owned : owns_task s.conversation_id s.active_task ≡ true
  pub messages_owned : All (Owned s.conversation_id) s.recent_messages

pub make_conversation-IsConversation :
    (q s : ConversationState) → make_conversation q ≡ ok s → IsConversation s
unfolding make_conversation
make_conversation-IsConversation q s h = record {
  task_owned = ground arith;
  messages_owned = all-Owned s.conversation_id s.recent_messages (ground arith);
}
