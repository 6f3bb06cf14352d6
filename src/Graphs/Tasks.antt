-- ===== src/Graphs/Tasks.antt =====
-- graphs/conversation.py: the Talker, the preparation of a writing task and of a revision, and the
-- call of the editorial subgraph with what becomes of its task. Tracing is left out.
use editorial_team_v.Prelude.{
  ltb, if◌then◌else◌, is_some, is_none, Result, ok, err, reject_if, or_raise, Text, Bool, true,
  false, ◌&&◌, ◌||◌, not, Option, none, some, [], ◌∷◌, ◌++◌,
}
use editorial_team_v.Contracts.{require_non_blank, Checked, Datetime}
use editorial_team_v.Domain.Editorial.{
  WritingTaskStatus, created, reviewed, revised, retrieved, EditorialOperation, new_task,
  active_revision, historical_transformation, WritingBrief, make_brief, EditorialResult,
  WritingTask, make_task, EditorialRunContext, make_context, run_id,
}
use editorial_team_v.Domain.Conversation.{Message, make_conversation}
use editorial_team_v.Artifacts.Models.{RetrievedDraft}
use editorial_team_v.Graphs.State.{Reply, raised, other, value, GraphState}
use editorial_team_v.Graphs.Editorial.{EditorialError, same_task, is_text, run_editorial}
use editorial_team_v.Graphs.Coordinator.{tool_steps, starts_task, revises_task}
use editorial_team_v.Graphs.Turn.{
  GraphError, unsupported_version, talker_failed, talker_invalid, task_input_invalid,
  draft_not_retrieved, no_task_for_revision, instructions_invalid, revision_invalid,
  workflow_failed, workflow_invalid, unsupported_route, escaped, Services, Turn, pure, lift,
  raising, escape, turn_of, decision_of, identifier, timestamp, ◌>>=◌, ◌>>◌,
}

abbrev pub spoken : Reply Text → Result GraphError Text
spoken raised = err talker_failed
spoken other = err talker_invalid
spoken (value t) = or_raise talker_invalid (require_non_blank t "response")

-- The checked brief, task and context of a new task; `historical` is the retrieved draft.
abbrev pub new_brief : Option RetrievedDraft → Text → Text → Checked WritingBrief
new_brief none instruction input = make_brief input []
new_brief (some d) instruction input = make_brief d.user_request (instruction ∷ [])

abbrev pub draft_content : Option RetrievedDraft → Option Text
draft_content none = none
draft_content (some d) = some d.content

abbrev pub draft_artifact : Option RetrievedDraft → Option Text
draft_artifact none = none
draft_artifact (some d) = some d.artifact_id

abbrev pub new_operation : Option RetrievedDraft → EditorialOperation
new_operation none = new_task
new_operation (some _) = historical_transformation

abbrev pub new_instruction : Option RetrievedDraft → Message → Text → Text
new_instruction none m input = input
new_instruction (some _) m input = m.content

-- The refusal of a revision of `task`
abbrev pub is_open_status : WritingTaskStatus → Bool
is_open_status reviewed = true
is_open_status revised = true
is_open_status retrieved = true
is_open_status _ = false

abbrev pub is_retrieved_status : WritingTaskStatus → Bool
is_retrieved_status retrieved = true
is_retrieved_status _ = false

abbrev pub is_revisable : WritingTask → Bool
is_revisable t =
    is_open_status t.status
    && ((is_retrieved_status t.status || is_some t.critic_report) && is_some t.working_draft)

abbrev pub revisable_task : Option WritingTask → Result GraphError WritingTask
revisable_task none = err no_task_for_revision
revisable_task (some t) = if is_revisable t then ok t else err no_task_for_revision

abbrev pub required : {A : Type 0} → GraphError → Option A → Result GraphError A
required e none = err e
required e (some a) = ok a

-- What an error of the subgraph becomes: only an `EditorialGraphError` is caught.
abbrev pub workflow_error : EditorialError → GraphError
workflow_error EditorialError.unsupported_version = unsupported_version
workflow_error (EditorialError.escaped e) = escaped e
workflow_error _ = workflow_failed

abbrev pub take_result :
    GraphState → GraphState → Option EditorialResult → Result GraphError GraphState
take_result s output none = err workflow_invalid
take_result s output (some r) = ok (record s {
  writer_output = some r.writer_output;
  critic_report = some r.critic_report;
  working_draft = some r.working_draft;
  editorial_result = some r;
  writer_run_id = output.writer_run_id;
  critic_run_id = output.critic_run_id;
})

abbrev pub completed_status : EditorialResult → WritingTaskStatus
completed_status r = if r.revision_applied then revised else reviewed

-- The task, its context and its result, where they belong to one run.
abbrev pub run_of :
    Option WritingTask
    → Option EditorialRunContext
    → Option EditorialResult
    → Option Text
    → Option Text
    → Result GraphError (WritingTask × EditorialResult)
run_of (some t) (some c) (some r) writer critic =
    if same_task (some c.task) t && (is_text writer (run_id c) && is_text critic (run_id c))
    then ok (t, r)
    else err workflow_invalid
run_of _ _ _ writer critic = err workflow_invalid

-- The task that the conversation keeps, at a time after the run.
abbrev pub finished_task : WritingTask → EditorialResult → Datetime → WritingTask
finished_task t r now = record t {
  status = completed_status r;
  updated_at = now;
  working_draft = some r.working_draft;
  critic_report = some r.critic_report;
}

module _ (services : Services) where
  unfoldable pub talker : GraphState → Turn GraphState
  talker s = do
    (c, m) ← lift (turn_of s)
    d ← raising talker_failed (lift (decision_of s.decision))
    t ← lift (spoken (services.talker c m d.talker_context))
    pure (record s { talker_response = some t })

  unfoldable pub prepare_new_task : GraphState → Turn GraphState
  unfolding identifier timestamp
  prepare_new_task s = do
    d ← lift (decision_of s.decision)
    input ← lift (required task_input_invalid d.task_input)
    (c, m) ← lift (turn_of s)
    now ← timestamp services
    id ← identifier services
    lift (reject_if (ltb 0 (tool_steps s) && is_none s.retrieved_draft) draft_not_retrieved)
    let instruction = new_instruction s.retrieved_draft m input
    brief ← lift (escape (new_brief s.retrieved_draft instruction input))
    task ← lift (
        escape (
          make_task (record {
            id = id;
            conversation_id = c.conversation_id;
            brief = brief;
            status = created;
            created_at = now;
            updated_at = now;
            working_draft = draft_content s.retrieved_draft;
            critic_report = none;
          })))
    context ← lift (
        escape (
          make_context (record {
            turn_id = m.id;
            operation = new_operation s.retrieved_draft;
            task = task;
            current_instruction = instruction;
            retrieved_artifact_id = draft_artifact s.retrieved_draft;
          })))
    pure (record s { writing_task = some task; editorial_run_context = some context })

  unfoldable pub prepare_revision : GraphState → Turn GraphState
  unfolding identifier timestamp
  prepare_revision s = do
    (c, m) ← lift (turn_of s)
    task ← lift (revisable_task c.active_task)
    d ← lift (decision_of s.decision)
    instructions ← lift (required instructions_invalid d.revision_instructions)
    now ← timestamp services
    brief ← lift (
        or_raise revision_invalid
          (make_brief task.brief.original_request (task.brief.instructions ++ (instructions ∷ []))))
    id ← identifier services
    prepared ← lift (
        or_raise revision_invalid
          (make_task (record task { id = id; brief = brief; created_at = now; updated_at = now })))
    context ← lift (
        or_raise revision_invalid (
          make_context (record {
            turn_id = m.id;
            operation = active_revision;
            task = prepared;
            current_instruction = instructions;
            retrieved_artifact_id = none;
          })))
    pure (record s { writing_task = some prepared; editorial_run_context = some context })

  unfoldable pub editorial_subgraph : GraphState → Turn GraphState
  editorial_subgraph s fx = elim (run_editorial services.agents s) [
    | err e ↦ (err (workflow_error e), fx)
    | ok output ↦ (take_result s output output.editorial_result, fx)
  ]

  unfoldable pub finalize_task : GraphState → Turn GraphState
  unfolding timestamp
  finalize_task s = do
    (c, m) ← lift (turn_of s)
    d ← lift (decision_of s.decision)
    (task, result) ← lift (
        run_of s.writing_task s.editorial_run_context s.editorial_result s.writer_run_id
          s.critic_run_id)
    lift (reject_if (not (starts_task d.route || revises_task d.route)) unsupported_route)
    now ← timestamp services
    active ← lift (escape (make_task (finished_task task result now)))
    turn ← lift (escape (make_conversation (record c { active_task = some active })))
    pure (record s { turn_conversation = some turn })
