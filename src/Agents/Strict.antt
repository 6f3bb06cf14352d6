-- ===== src/Agents/Strict.antt =====
-- agents/parsing.py: a report that is read quotes the draft that it is about.
use editorial_team_v.Prelude.{
  Bool-cases, any, is_empty, All, Result, ok, err, reject_if, or_raise, >>=-eq-ok, >>-eq-ok,
  reject_if-eq-ok, Text, text, ◌≡◌, refl, sym, ap, ◌∙◌, subst, inl, inr, true, false, Option, some,
  List, [], ◌∷◌, ◌++◌, arith, starts_with, contains,
}
use editorial_team_v.Contracts.{Checked}
use editorial_team_v.Domain.Editorial.{
  CriticVerdict, pass, revise, CriticIssue, is_major, CriticReport, make_report,
}
use editorial_team_v.Agents.Json.{
  Json, null, boolean, integer, float, string, array, object, Items, no_items, item, bad_output,
  get, json_object, check_keys,
}
use editorial_team_v.Agents.Parsing.{
  member_of, verdicts, items_of, report_required, string_of, issue_of, not_in_draft, parse_issue,
  parse_issues, parse_critic_report,
}

-- A text that stands in another.
abbrev pub Occurs : Text → Text → Type 0
Occurs sub t = (front : Text) × (back : Text) × (t ≡ front ++ (sub ++ back))

starts_with-Occurs : (sub t : Text) → starts_with sub t ≡ true → (back : Text) × (t ≡ sub ++ back)
unfolding starts_with
starts_with-Occurs [] t h = (t, refl)
starts_with-Occurs (c ∷ sub) [] h = absurd (ground arith)
starts_with-Occurs (c ∷ sub) (d ∷ t) h =
    let (back, e) = starts_with-Occurs sub t (ground arith) in
    let f : d ≡ c = ground arith in (back, λ i. f i ∷ e i)

pub contains-Occurs : (sub t : Text) → contains sub t ≡ true → Occurs sub t
unfolding contains
contains-Occurs sub [] h = let (back, e) = starts_with-Occurs sub [] h in ([], back, e)
contains-Occurs sub (d ∷ t) h = elim (Bool-cases (starts_with sub (d ∷ t))) [
  | inl k ↦ let (back, e) = starts_with-Occurs sub (d ∷ t) k in ([], back, e)
  | inr k ↦
      let (front, back, e) = contains-Occurs sub t (ground arith) in
      (d ∷ front, back, ap (λ u. d ∷ u) e)
]

-- The excerpt of an issue, if it has one, stands in the draft.
abbrev pub IsGrounded : Text → CriticIssue → Type 0
IsGrounded draft i = (e : Text) → i.grounded_excerpt ≡ some e → Occurs e draft

parse_issue-IsGrounded :
    (draft : Text) (v : Json) (i : CriticIssue) → parse_issue draft v ≡ ok i → IsGrounded draft i
unfolding parse_issue
parse_issue-IsGrounded draft (object members) i h e g =
    let (j, ej, m) = >>=-eq-ok (issue_of members) _ h in
    let (r, n) = >>-eq-ok (reject_if (not_in_draft draft j.grounded_excerpt) _) _ m in
    let same : j ≡ i = ground arith in
    let held = reject_if-eq-ok (not_in_draft draft j.grounded_excerpt) _ r in
    let f : j.grounded_excerpt ≡ some e = ap (λ k. k.grounded_excerpt) same ∙ g in
    contains-Occurs e draft (ground (arith, ap (not_in_draft draft) f))
parse_issue-IsGrounded draft null i h e g = absurd (ground arith)
parse_issue-IsGrounded draft (boolean b) i h e g = absurd (ground arith)
parse_issue-IsGrounded draft (integer b n) i h e g = absurd (ground arith)
parse_issue-IsGrounded draft (float x) i h e g = absurd (ground arith)
parse_issue-IsGrounded draft (string t) i h e g = absurd (ground arith)
parse_issue-IsGrounded draft (array vs) i h e g = absurd (ground arith)

parse_issues-IsGrounded :
    (draft : Text) (vs : Items) (is : List CriticIssue)
    → parse_issues draft vs ≡ ok is
    → All (IsGrounded draft) is
unfolding parse_issues
parse_issues-IsGrounded draft no_items is h =
    let same : [] ≡ is = ground arith in subst (All (IsGrounded draft)) same tt
parse_issues-IsGrounded draft (item v vs) is h =
    let (i, ei, m) = >>=-eq-ok (parse_issue draft v) _ h in
    let (rest, er, n) = >>=-eq-ok (parse_issues draft vs) _ m in
    let same : i ∷ rest ≡ is = ground arith in
    subst (All (IsGrounded draft)) same
      (parse_issue-IsGrounded draft v i ei, parse_issues-IsGrounded draft vs rest er)

or_raise-eq-ok : {D E A : Type 0} (e : E) (r : Result D A) {a : A} → or_raise e r ≡ ok a → r ≡ ok a
or_raise-eq-ok e (ok v) h = ground arith
or_raise-eq-ok e (err d) h = absurd (ground arith)

make_report-holds :
    (v : CriticVerdict) (s : Text) (is : List CriticIssue) (r : CriticReport)
    → make_report v s is ≡ ok r
    → (r.issues ≡ is)
      × (is_empty r.summary ≡ false)
      × (r.verdict ≡ pass → any is_major is ≡ false)
      × (r.verdict ≡ revise → is_empty is ≡ false)
unfolding make_report editorial_team_v.Contracts.require_non_blank
make_report-holds pass s is r h = ground arith
make_report-holds revise s is r h = ground arith

-- A report that is parsed from the Critic's text has a summary, every excerpt that an issue of it
-- quotes stands in the draft, no issue is major if it passes, and it has an issue if it asks for a
-- revision.
pub parse_critic_report-IsGrounded :
    (loads : Text → Option Json) (t draft : Text) (r : CriticReport)
    → parse_critic_report loads t draft ≡ ok r
    → All (IsGrounded draft) r.issues
      × (is_empty r.summary ≡ false)
      × (r.verdict ≡ pass → any is_major r.issues ≡ false)
      × (r.verdict ≡ revise → is_empty r.issues ≡ false)
unfolding parse_critic_report
parse_critic_report-IsGrounded loads t draft r h =
    let (value, ev, h1) = >>=-eq-ok (json_object loads t) _ h in
    let (ek, h2) = >>-eq-ok (check_keys value report_required []) _ h1 in
    let (vs, ei, h3) = >>=-eq-ok (items_of (get (text "issues") value)) _ h2 in
    let (is, es, h4) = >>=-eq-ok (parse_issues draft vs) _ h3 in
    let (verdict, ed, h5) = >>=-eq-ok (member_of verdicts (get (text "verdict") value)) _ h4 in
    let (summary, eu, h6) = >>=-eq-ok (string_of (get (text "summary") value)) _ h5 in
    let (same, held, p, q) =
      make_report-holds verdict summary is r (or_raise-eq-ok bad_output _ h6) in
    subst
      (λ x.
        All (IsGrounded draft) x
        × (is_empty r.summary ≡ false)
        × (r.verdict ≡ pass → any is_major x ≡ false)
        × (r.verdict ≡ revise → is_empty x ≡ false))
      (sym same) (parse_issues-IsGrounded draft vs is es, held, p, q)
