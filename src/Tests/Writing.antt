-- ===== src/Tests/Writing.antt =====
-- One run of the editorial subgraph.
use editorial_team_v.Prelude.{
  is_ok, strip, Result, ok, err, Text, text, ℕ, Option, none, some, List, [], ◌∷◌, true, false, ◌≡◌,
  refl,
}
use editorial_team_v.Domain.Editorial.{
  WritingTask, drafted, created, active_revision, CriticReport, revise, major, EditorialRunContext,
  new_task, EditorialResult,
}
use editorial_team_v.Graphs.State.{GraphState, value}
use editorial_team_v.Graphs.Editorial.{Agents, run_editorial, settle_report}
use editorial_team_v.Graphs.Editorial.Progress.{IsPrepared, Answers, run_editorial-is_ok}
use editorial_team_v.Graphs.Editorial.Outcome.{SameRun, HasResult, run_editorial-Completed}
use editorial_team_v.Graphs.Editorial.Grounding.{IsGrounded, run_editorial-IsGrounded}
use editorial_team_v.Tests.Fixtures.{noon, agents, clean_report, first_turn}

abbrev task : WritingTask
task = record {
  id = text "t";
  conversation_id = text "c";
  brief = record { original_request = text "Write."; instructions = [] };
  status = created;
  created_at = noon;
  updated_at = noon;
  working_draft = none;
  critic_report = none;
}

abbrev run_context : EditorialRunContext
run_context = record {
  turn_id = text "m";
  operation = new_task;
  task = task;
  current_instruction = text "Write.";
  retrieved_artifact_id = none;
}

abbrev prepared_turn : GraphState
prepared_turn = record first_turn {
  writing_task = some task;
  editorial_run_context = some run_context;
}

abbrev written_turn : GraphState
unfolding run_editorial
written_turn = elim (run_editorial agents prepared_turn) [ ok t ↦ t | err e ↦ prepared_turn ]

abbrev written_result : EditorialResult
written_result = record {
  writer_output = text "A draft.";
  critic_report = clean_report;
  working_draft = text "A draft.";
  revision_applied = false;
}

run_editorial-Completed_example :
    SameRun prepared_turn written_turn × ((r : EditorialResult) × HasResult written_turn r)
unfolding run_editorial written_turn editorial_team_v.Graphs.Editorial.writer_node
    editorial_team_v.Graphs.State.WritingTask-discrete editorial_team_v.Contracts.require_non_blank
    editorial_team_v.Prelude.strip editorial_team_v.Graphs.Editorial.critic_node
    editorial_team_v.Prelude.text_eq editorial_team_v.Graphs.Editorial.settle_report
    editorial_team_v.Domain.Editorial.make_report
    editorial_team_v.Graphs.Editorial.route_critic_verdict
    editorial_team_v.Graphs.Editorial.build_pass_result editorial_team_v.Graphs.Editorial.result_of
    editorial_team_v.Domain.Editorial.make_result
run_editorial-Completed_example = run_editorial-Completed agents prepared_turn written_turn refl

-- A revision, with a Critic who asks for a change and says what is missing.
abbrev old_task : WritingTask
old_task = record task { status = drafted; working_draft = some (text "Old.") }

abbrev revision_context : EditorialRunContext
revision_context = record run_context { operation = active_revision; task = old_task }

abbrev demand : CriticReport
demand = record {
  verdict = revise;
  summary = text "Too short.";
  issues =
      record {
        severity = major;
        problem = text "Too short.";
        location = none;
        suggestion = none;
        grounded_excerpt = none;
        violated_requirement = some (text "Make it longer.");
        input_evidence = some (text "One word.");
        candidate_evidence = some (text "Two words.");
      }
      ∷ [];
}

abbrev demanding : Agents
demanding = record agents { review = λ c d. value demand }

abbrev revision_turn : GraphState
revision_turn = record first_turn {
  writing_task = some old_task;
  editorial_run_context = some revision_context;
}

abbrev revised_turn : GraphState
unfolding run_editorial
revised_turn = elim (run_editorial demanding revision_turn) [ ok t ↦ t | err e ↦ revision_turn ]

abbrev revised_result : EditorialResult
revised_result = record {
  writer_output = text "A draft.";
  critic_report = demand;
  working_draft = text "A better draft.";
  revision_applied = true;
}

run_editorial-IsGrounded_example : IsGrounded revision_context (text "A draft.") demand
unfolding run_editorial editorial_team_v.Graphs.Editorial.writer_node
    editorial_team_v.Graphs.State.WritingTask-discrete editorial_team_v.Contracts.require_non_blank
    strip editorial_team_v.Graphs.Editorial.critic_node editorial_team_v.Prelude.text_eq
    settle_report editorial_team_v.Domain.Editorial.make_report
    editorial_team_v.Graphs.Editorial.route_critic_verdict
    editorial_team_v.Graphs.Editorial.editor_node
    editorial_team_v.Graphs.Editorial.build_revised_result
    editorial_team_v.Graphs.Editorial.result_of editorial_team_v.Domain.Editorial.make_result
run_editorial-IsGrounded_example =
    run_editorial-IsGrounded demanding revision_turn revised_turn revision_context revised_result
      refl refl refl

prepared_turn-IsPrepared : IsPrepared prepared_turn run_context
prepared_turn-IsPrepared = record {
  supported = refl;
  has_context = refl;
  has_task = refl;
  no_output = refl;
  no_report = refl;
  no_result = refl;
}

agents-Answers :
    Answers agents run_context (text "A draft.") (text "A better draft.") clean_report clean_report
unfolding settle_report strip editorial_team_v.Domain.Editorial.make_report
    editorial_team_v.Contracts.require_non_blank
agents-Answers = record {
  writes = refl;
  written = refl;
  reviews = refl;
  settles = refl;
  edits = refl;
  edited = refl;
}

run_editorial-is_ok_example : is_ok (run_editorial agents prepared_turn) ≡ true
run_editorial-is_ok_example =
    run_editorial-is_ok agents prepared_turn run_context (text "A draft.") (text "A better draft.")
      clean_report clean_report prepared_turn-IsPrepared agents-Answers
