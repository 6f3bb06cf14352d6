-- ===== src/Tests/Parsed.antt =====
-- A report and a decision, read from JSON.
use editorial_team_v.Prelude.{
  ok, err, Text, text, Option, none, some, List, [], ◌∷◌, refl, ◌≡◌, true, false, All, any,
  is_empty,
}
use editorial_team_v.Domain.Editorial.{CriticReport, pass, revise, is_major}
use editorial_team_v.Domain.Routing.{CoordinatorDecision}
use editorial_team_v.Agents.Json.{Json, string, array, object, no_items, item, no_members, field}
use editorial_team_v.Agents.Parsing.{parse_critic_report, parse_coordinator_decision}
use editorial_team_v.Agents.Strict.{IsGrounded, parse_critic_report-IsGrounded}
use editorial_team_v.Agents.Encoded.{decision_json, parse_coordinator_decision-json}
use editorial_team_v.Tests.Fixtures.{clean_report, chat_decision}

abbrev report_json : Json
report_json = object (
    field (text "verdict") (string (text "revise")) (
      field (text "summary") (string (text "Not yet.")) (
        field (text "issues")
          (array (
            item
              (object (
                field (text "severity") (string (text "major")) (
                  field (text "problem") (string (text "Vague."))
                    (field (text "grounded_excerpt") (string (text "some")) no_members))))
              no_items))
          no_members)))

abbrev loads_report : Text → Option Json
loads_report t = some report_json

abbrev report : CriticReport
unfolding parse_critic_report
report = elim (parse_critic_report loads_report (text "{}") (text "A text of some kind.")) [
  | ok r ↦ r
  | err e ↦ clean_report
]

parse_critic_report-IsGrounded_example :
    All (IsGrounded (text "A text of some kind.")) report.issues
    × (is_empty report.summary ≡ false)
    × (report.verdict ≡ pass → any is_major report.issues ≡ false)
    × (report.verdict ≡ revise → is_empty report.issues ≡ false)
unfolding parse_critic_report editorial_team_v.Contracts.require_non_blank
    editorial_team_v.Prelude.strip editorial_team_v.Contracts.require_optional
parse_critic_report-IsGrounded_example =
    parse_critic_report-IsGrounded loads_report (text "{}") (text "A text of some kind.") report
      refl

abbrev loads_decision : Text → Option Json
loads_decision t = some (object (decision_json chat_decision))

parse_coordinator_decision-json_example :
    parse_coordinator_decision loads_decision (text "{}") ≡ ok chat_decision
unfolding editorial_team_v.Domain.Routing.make_decision editorial_team_v.Contracts.require_optional
parse_coordinator_decision-json_example =
    parse_coordinator_decision-json loads_decision (text "{}") chat_decision refl tt refl
