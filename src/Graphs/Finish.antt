-- ===== src/Graphs/Finish.antt =====
-- graphs/conversation.py: the end of a turn, with the artifacts of a writing run.
use editorial_team_v.Prelude.{
  ◌==◌, if◌then◌else◌, length, drop, Result, ok, err, or_raise, Text, ℕ, ◌-◌, Option, none, some,
  List, [], ◌∷◌, ◌++◌,
}
use editorial_team_v.Domain.Editorial.{
  retrieved, make_brief, EditorialResult, WritingTask, make_task, EditorialRunContext,
}
use editorial_team_v.Domain.Routing.{
  CoordinatorRoute, chat, start_writing_task, revise_task, show_retrieved_draft,
}
use editorial_team_v.Domain.Conversation.{Message, assistant, ConversationState, make_conversation}
use editorial_team_v.Artifacts.Models.{
  ArtifactProducer, writer, editor, EditorialArtifact, RetrievedDraft, content_sha256,
  artifact_id_for, make_artifact,
}
use editorial_team_v.Artifacts.Store.{save_run}
use editorial_team_v.Formatting.{
  format_talker_message, format_writer_message, format_critic_report, format_editor_message,
  format_retrieved_draft,
}
use editorial_team_v.Graphs.State.{GraphState}
use editorial_team_v.Graphs.Turn.{
  GraphError, workflow_invalid, draft_required, artifact_input_invalid, artifacts_not_saved,
  activation_failed, talker_invalid, Services, Turn, pure, lift, escape, turn_of, decision_of,
  identifier, timestamp, message, ◌>>=◌, ◌>>◌,
}
use editorial_team_v.Graphs.Tasks.{required}

-- `xs[-n:]`, which is the whole list for 0
unfoldable pub last_items : {A : Type 0} → ℕ → List A → List A
last_items n xs = if n == 0 then xs else drop (length xs - n) xs

-- The state after the turn: what the next turn reads is the conversation and its messages.
abbrev pub completed_state : ConversationState → List Message → GraphState → GraphState
completed_state c messages s = record s {
  conversation = some c;
  assistant_messages = some messages;
  input_text = none;
  turn_conversation = none;
  user_message = none;
  decision = none;
  talker_response = none;
  writing_task = none;
  editorial_run_context = none;
  writer_run_id = none;
  critic_run_id = none;
  writer_output = none;
  critic_report = none;
  working_draft = none;
  editorial_result = none;
  coordinator_messages = none;
  coordinator_tool_steps = none;
  coordinator_search_completed = none;
  retrieved_draft = none;
}

-- The message of each content, in order.
unfoldable pub assistant_messages_of : Services → Text → List Text → Turn (List Message)
unfolding message
assistant_messages_of services conversation [] = pure []
assistant_messages_of services conversation (t ∷ ts) = do
  m ← message services conversation assistant t
  ms ← assistant_messages_of services conversation ts
  pure (m ∷ ms)

abbrev pub run_contents : EditorialResult → List Text
run_contents r =
    format_writer_message r.writer_output
    ∷ format_critic_report r.critic_report
    ∷ format_editor_message r
    ∷ []

module _ (services : Services) where
  -- The active task that shows a retrieved draft.
  unfoldable pub activate_draft : ConversationState → RetrievedDraft → Turn ConversationState
  unfolding identifier timestamp
  activate_draft c d = do
    now ← timestamp services
    id ← identifier services
    brief ← lift (or_raise activation_failed (make_brief d.user_request []))
    task ← lift (
        or_raise activation_failed (
          make_task (record {
            id = id;
            conversation_id = c.conversation_id;
            brief = brief;
            status = retrieved;
            created_at = now;
            updated_at = now;
            working_draft = some d.content;
            critic_report = none;
          })))
    lift (escape (make_conversation (record c { active_task = some task })))

  -- The conversation and the contents of the assistant's messages, by the route of the turn.
  unfoldable pub turn_contents :
      CoordinatorRoute → GraphState → ConversationState → Turn (ConversationState × List Text)
  unfolding activate_draft format_talker_message format_retrieved_draft
  turn_contents chat s c = do
    t ← lift (required talker_invalid s.talker_response)
    pure (c, format_talker_message t ∷ [])
  turn_contents show_retrieved_draft s c = do
    d ← lift (required draft_required s.retrieved_draft)
    active ← activate_draft c d
    pure (active, format_retrieved_draft d.content ∷ [])
  turn_contents start_writing_task s c = do
    r ← lift (required workflow_invalid s.editorial_result)
    pure (c, run_contents r)
  turn_contents revise_task s c = do
    r ← lift (required workflow_invalid s.editorial_result)
    pure (c, run_contents r)

  unfoldable pub completed_turn_state : GraphState → Turn GraphState
  unfolding turn_contents assistant_messages_of last_items
  completed_turn_state s = do
    (c, m) ← lift (turn_of s)
    d ← lift (decision_of s.decision)
    (active, contents) ← turn_contents d.route s c
    messages ← assistant_messages_of services active.conversation_id contents
    done ← lift (
        escape (
          make_conversation (record active {
            recent_messages =
                last_items services.max_recent_messages (active.recent_messages ++ messages);
          })))
    pure (completed_state done messages s)

  unfoldable pub finalize_turn : GraphState → Turn GraphState
  unfolding completed_turn_state
  finalize_turn s = completed_turn_state s

  -- `_artifact`
  unfoldable pub artifact :
      WritingTask
      → ConversationState
      → Text
      → ArtifactProducer
      → Text
      → Result GraphError EditorialArtifact
  artifact t c request producer content = elim (artifact_id_for services.sha256 t.id producer) [
    | err _ ↦ err artifact_input_invalid
    | ok id ↦ elim (content_sha256 services.sha256 content) [
      | err _ ↦ err artifact_input_invalid
      | ok digest ↦ or_raise artifact_input_invalid (
          make_artifact services.sha256 (record {
            artifact_id = id;
            task_id = t.id;
            producer = producer;
            created_at = t.created_at;
            conversation_id = c.conversation_id;
            user_request = request;
            content = content;
            content_sha256 = digest;
          }))
    ]
  ]

  -- The Writer's artifact, and the Editor's after it where a revision was applied.
  unfoldable pub artifacts_of :
      EditorialResult
      → WritingTask
      → ConversationState
      → Text
      → Result GraphError (List EditorialArtifact)
  unfolding artifact
  artifacts_of r t c request = elim (artifact t c request writer r.writer_output) [
    | err e ↦ err e
    | ok a ↦
        if r.revision_applied
        then elim (artifact t c request editor r.working_draft) [
          | err e ↦ err e
          | ok b ↦ ok (a ∷ b ∷ [])
        ]
        else ok (a ∷ [])
  ]

  abbrev pub artifact_input :
      Option EditorialResult
      → Option WritingTask
      → Option EditorialRunContext
      → Result GraphError (EditorialResult × WritingTask × Text)
  artifact_input (some r) (some t) (some c) = ok (r, t, c.current_instruction)
  artifact_input _ _ _ = err artifact_input_invalid

  unfoldable pub save_artifacts : List EditorialArtifact → Turn (Unit {0})
  save_artifacts batch fx =
      elim (save_run services.stamp services.chunker_version services.chunk fx.tables batch) [
        | err _ ↦ (err artifacts_not_saved, fx)
        | ok t ↦ (ok tt, record fx { tables = t })
      ]

  unfoldable pub persist_editorial_artifacts : GraphState → Turn GraphState
  unfolding completed_turn_state artifacts_of save_artifacts
  persist_editorial_artifacts s = do
    done ← completed_turn_state s
    (c, m) ← lift (turn_of s)
    (r, t, request) ←
        lift (artifact_input s.editorial_result s.writing_task s.editorial_run_context)
    batch ← lift (artifacts_of r t c request)
    save_artifacts batch
    pure done
