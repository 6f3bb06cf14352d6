-- ===== src/Formatting.antt =====
-- conversation/formatting.py: the visible text of each agent's message.
use editorial_team_v.Prelude.{
  if◌then◌else◌, is_empty, Text, text, ℕ, suc, Option, none, some, List, [], ◌∷◌, ◌++◌,
}
use editorial_team_v.Prelude.Decimal.{decimal}
use editorial_team_v.Domain.Editorial.{
  CriticVerdict, pass, revise, CriticIssueSeverity, minor, major, CriticIssue, CriticReport,
  EditorialResult,
}

abbrev pub gap : Text
gap = 10 ∷ 10 ∷ []

-- `"\n\n".join(parts)`
unfoldable pub join_gap : List Text → Text
join_gap [] = []
join_gap (p ∷ []) = p
join_gap (p ∷ q ∷ rest) = p ++ (gap ++ join_gap (q ∷ rest))

unfoldable pub format_agent_message : Text → Text → Text
format_agent_message agent content = agent ++ (gap ++ content)

unfoldable pub format_talker_message : Text → Text
unfolding format_agent_message
format_talker_message = format_agent_message (text "💬 Talker")

unfoldable pub format_writer_message : Text → Text
unfolding format_agent_message
format_writer_message = format_agent_message (text "✍" ++ (65039 ∷ text " Writer"))

unfoldable pub format_retrieved_draft : Text → Text
unfolding format_agent_message
format_retrieved_draft = format_agent_message (text "📄 Retrieved draft")

-- `verdict.value.upper()` and `severity.value.upper()`
abbrev pub verdict_label : CriticVerdict → Text
verdict_label pass = text "PASS"
verdict_label revise = text "REVISE"

abbrev pub severity_label : CriticIssueSeverity → Text
severity_label minor = text "MINOR"
severity_label major = text "MAJOR"

abbrev pub optional_field : Text → Option Text → List Text
optional_field label none = []
optional_field label (some t) = (label ++ t) ∷ []

unfoldable pub issue_fields : ℕ → CriticIssue → List Text
unfolding decimal
issue_fields index i =
    (decimal index ++ (text ". Severity: " ++ severity_label i.severity))
    ∷ (optional_field (text "Location: ") i.location
        ++ ((text "Problem: " ++ i.problem)
            ∷ (optional_field (text "Suggestion: ") i.suggestion
                ++ (optional_field (text "Grounded excerpt: ") i.grounded_excerpt
                    ++ (optional_field (text "Violated requirement: ") i.violated_requirement
                        ++ (optional_field (text "Input evidence: ") i.input_evidence
                            ++ optional_field (text "Candidate evidence: ")
                                i.candidate_evidence))))))

-- `enumerate(report.issues, start=index)`
unfoldable pub issue_sections : ℕ → List CriticIssue → List Text
unfolding issue_fields join_gap
issue_sections index [] = []
issue_sections index (i ∷ rest) = join_gap (issue_fields index i) ∷ issue_sections (suc index) rest

-- The heading has its sign only where there are no issues.
unfoldable pub format_critic_report : CriticReport → Text
unfolding issue_sections join_gap format_agent_message
format_critic_report r =
    let verdict = text "Verdict: " ++ verdict_label r.verdict in
    let summary = text "Summary: " ++ r.summary in
    let issues = text "Issues:" ++ (gap ++ join_gap (issue_sections 1 r.issues)) in
    if is_empty r.issues
    then format_agent_message (text "🔍 Critic")
        (join_gap (verdict ∷ summary ∷ text "Issues: None" ∷ []))
    else format_agent_message (text "Critic") (join_gap (verdict ∷ summary ∷ issues ∷ []))

unfoldable pub format_editor_message : EditorialResult → Text
unfolding format_agent_message
format_editor_message r =
    format_agent_message (text "🛠" ++ (65039 ∷ text " Editor"))
      (if r.revision_applied then r.working_draft else text "Working draft approved, see above.")
