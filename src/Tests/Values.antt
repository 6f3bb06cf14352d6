-- ===== src/Tests/Values.antt =====
-- Domain values that the constructors accept.
use editorial_team_v.Prelude.{
  ◌↔◌, Result, ok, err, Text, text, ℕ, Option, none, some, List, [], ◌∷◌, true, false, ◌≡◌, refl,
}
use editorial_team_v.Contracts.{validate_identifier}
use editorial_team_v.Domain.Editorial.{WritingTask, reviewed, make_task, EditorialResult}
use editorial_team_v.Domain.Routing.{make_decision}
use editorial_team_v.Domain.Tasks.{IsTask, trimmed, make_task-IsTask}
use editorial_team_v.Domain.Validity.{IsDecision, make_decision-IsDecision}
use editorial_team_v.Tests.Fixtures.{noon, clean_report, chat_decision}

abbrev raw_task : WritingTask
raw_task = record {
  id = text " t1 ";
  conversation_id = text "c1";
  brief = record { original_request = text "Write."; instructions = [] };
  status = reviewed;
  created_at = noon;
  updated_at = noon;
  working_draft = some (text "A draft.");
  critic_report = some clean_report;
}

abbrev trimmed_task : WritingTask
trimmed_task = record raw_task { id = text "t1" }

make_task-IsTask_example :
    (make_task raw_task ≡ ok trimmed_task)
    ↔ ((trimmed_task ≡ trimmed raw_task) × IsTask trimmed_task)
make_task-IsTask_example = make_task-IsTask raw_task trimmed_task

task_accepted : make_task raw_task ≡ ok trimmed_task
unfolding make_task validate_identifier editorial_team_v.Prelude.strip
    editorial_team_v.Prelude.contains editorial_team_v.Contracts.require_utc_timestamp
task_accepted = refl

abbrev approved : EditorialResult
approved = record {
  writer_output = text "A draft.";
  critic_report = clean_report;
  working_draft = text "A draft.";
  revision_applied = false;
}

make_decision-IsDecision_example : IsDecision chat_decision
unfolding make_decision editorial_team_v.Contracts.require_optional
make_decision-IsDecision_example = make_decision-IsDecision chat_decision chat_decision refl
