-- ===== src/Graphs/Tools.antt =====
-- graphs/conversation.py and artifacts/tools.py: one round of the Coordinator's tools.
pub mod Retrieval
use editorial_team_v.Prelude.{
  leb, if◌then◌else◌, Result, ok, err, Text, text, text_eq, ℕ, ◌+◌, Bool, true, false, Option, none,
  some, List, [], ◌∷◌, ◌++◌,
}
use editorial_team_v.Artifacts.Models.{EditorialArtifact, RetrievedDraft}
use editorial_team_v.Artifacts.Store.{Tables, get_artifact_for_conversation}
use editorial_team_v.Graphs.State.{
  ToolCall, unknown_tool, search_required, invalid_tool_arguments, invalid_search_request,
  artifact_not_found, ToolOutput, failed, found, draft, loaded, ChatMessage, tool, GraphState,
}
use editorial_team_v.Graphs.Turn.{
  GraphError, tool_state_invalid, tool_limit, draft_invalid, SearchReply, bad_arguments,
  bad_request, results, Services, Turn, turn_of,
}
use editorial_team_v.Graphs.Coordinator.{tool_steps, pending_calls, scoped_tools}

abbrev pub is_true : Option Bool → Bool
is_true none = false
is_true (some b) = b

pub record ToolProgress : Type 0 where
  pub search_completed : Bool
  pub retrieved : Option RetrievedDraft

abbrev pub search_output : SearchReply → ToolOutput
search_output bad_arguments = failed invalid_tool_arguments
search_output bad_request = failed invalid_search_request
search_output (results ids) = found ids

abbrev pub draft_of : EditorialArtifact → RetrievedDraft
draft_of a = record {
  artifact_id = a.artifact_id;
  task_id = a.task_id;
  producer = a.producer;
  created_at = a.created_at;
  conversation_id = a.conversation_id;
  user_request = a.user_request;
  content = a.content;
}

abbrev pub draft_output : {E : Type 0} → Result E (Option EditorialArtifact) → ToolOutput
draft_output (err _) = failed artifact_not_found
draft_output (ok none) = failed artifact_not_found
draft_output (ok (some a)) = draft (draft_of a)

abbrev pub max_coordinator_tool_rounds : ℕ
max_coordinator_tool_rounds = 6

unfoldable pub finish_tools :
    GraphState → List ChatMessage → (List ChatMessage × ToolProgress) → GraphState
finish_tools s messages (outputs, p) = record s {
  coordinator_messages = some (messages ++ outputs);
  coordinator_tool_steps = some (tool_steps s + 1);
  coordinator_search_completed = some p.search_completed;
  retrieved_draft = p.retrieved;
}

abbrev pub messages_of : Option (List ChatMessage) → List ChatMessage
messages_of none = []
messages_of (some ms) = ms

abbrev pub progress_of : GraphState → ToolProgress
progress_of s = record {
  search_completed = is_true s.coordinator_search_completed;
  retrieved = s.retrieved_draft;
}

module _ (services : Services) (conversation : Text) (tables : Tables)
    (search : Text → Text → Tables → SearchReply) where
  -- `get_draft` of the tools, after the check of its arguments
  unfoldable pub get_draft : Option Text → ToolOutput
  get_draft none = failed invalid_tool_arguments
  get_draft (some id) =
      draft_output
        (get_artifact_for_conversation services.sha256 services.unstamp tables id conversation)

  unfoldable pub call_tool : Bool → ToolCall → ToolOutput
  unfolding get_draft
  call_tool completed c =
      if text_eq c.name (text "search_corpus")
      then search_output (search conversation c.args tables)
      else if text_eq c.name (text "get_draft")
      then (if completed then get_draft (services.draft_id c.args) else failed search_required)
      else failed unknown_tool

  -- `_retrieved_draft` reads the creation time back from its JSON form.
  unfoldable pub reread_draft : RetrievedDraft → Result GraphError RetrievedDraft
  reread_draft d = elim (services.unstamp (services.stamp d.created_at)) [
    | err _ ↦ err draft_invalid
    | ok t ↦ ok (record d { created_at = t; conversation_id = conversation })
  ]

  -- What an output does to the progress, and the output that the Coordinator is shown.
  unfoldable pub absorb : ToolOutput → ToolProgress → Result GraphError (ToolOutput × ToolProgress)
  unfolding reread_draft
  absorb (failed e) p = ok (failed e, p)
  absorb (found ids) p = ok (found ids, record p { search_completed = true })
  absorb (draft d) p = elim (reread_draft d) [
    | err e ↦ err e
    | ok r ↦ ok (loaded d.artifact_id d.task_id d.user_request, record p { retrieved = some r })
  ]
  absorb (loaded a t u) p = ok (loaded a t u, p)

  unfoldable pub run_calls :
      List ToolCall → ToolProgress → Result GraphError (List ChatMessage × ToolProgress)
  run_calls [] p = ok ([], p)
  run_calls (c ∷ cs) p = elim (absorb (call_tool p.search_completed c) p) [
    | err e ↦ err e
    | ok (output, q) ↦ elim (run_calls cs q) [
      | err e ↦ err e
      | ok (ms, r) ↦ ok (tool output c.id c.name ∷ ms, r)
    ]
  ]

module _ (services : Services) where
  unfoldable pub coordinator_tools : GraphState → Turn GraphState
  unfolding run_calls finish_tools
  coordinator_tools s fx = elim (turn_of s) [
    | err e ↦ (err e, fx)
    | ok (c, m) ↦ elim (pending_calls s.coordinator_messages) [
      | none ↦ (err tool_state_invalid, fx)
      | some cs ↦
          if leb max_coordinator_tool_rounds (tool_steps s)
          then (err tool_limit, fx)
          else elim (scoped_tools services.search c.conversation_id) [
            | err e ↦ (err e, fx)
            | ok search ↦
                elim (run_calls services c.conversation_id fx.tables search cs (progress_of s)) [
                  | err e ↦ (err e, fx)
                  | ok done ↦ (ok (finish_tools s (messages_of s.coordinator_messages) done), fx)
                ]
          ]
    ]
  ]
