-- ===== src/Graphs/Editorial/Progress.antt =====
-- graphs/editorial.py: a run of the subgraph with agents that answer comes to its end.
use editorial_team_v.Prelude.{
  is_empty, ok, is_ok, Text, text_eq_refl, strip, ◌≡◌, refl, ◌⊎◌, inl, inr, true, false, none, some,
  arith, strip_idem,
}
use mathlib.Core.Logic.{if_pos}
use editorial_team_v.Contracts.{require_non_blank}
use editorial_team_v.Domain.Editorial.{
  WritingTask, EditorialRunContext, run_id, CriticReport, CriticVerdict, pass, revise, make_result,
}
use editorial_team_v.Graphs.State.{GraphState, value, is_supported, WritingTask-discrete}
use editorial_team_v.Graphs.Editorial.{
  Agents, same_task, context_of, settle_report, result_of, writer_node, critic_node, editor_node,
  build_pass_result, build_revised_result, route_critic_verdict, run_editorial,
}

-- A state that `prepare_new_task` or `prepare_revision` leaves to the subgraph, for the context `c`.
pub record IsPrepared (s : GraphState) (c : EditorialRunContext) : Type 0 where
  pub supported : is_supported s.state_version ≡ true
  pub has_context : s.editorial_run_context ≡ some c
  pub has_task : s.writing_task ≡ some c.task
  pub no_output : s.writer_output ≡ none
  pub no_report : s.critic_report ≡ none
  pub no_result : s.editorial_result ≡ none

-- Agents that answer: the Writer with the text `t`, the Critic on it with a report that settles as `q`, and
-- the Editor on that with the text `e`.
pub record Answers (a : Agents) (c : EditorialRunContext) (t e : Text) (r q : CriticReport)
    : Type 0 where
  pub writes : a.write c ≡ value t
  pub written : is_empty (strip t) ≡ false
  pub reviews : a.review c (strip t) ≡ value r
  pub settles : settle_report c (strip t) r ≡ ok q
  pub edits : a.edit c (strip t) q ≡ value e
  pub edited : is_empty (strip e) ≡ false

verdict-cases : (v : CriticVerdict) → (v ≡ pass) ⊎ (v ≡ revise)
verdict-cases pass = inl refl
verdict-cases revise = inr refl

same_task_refl : (t : WritingTask) → same_task (some t) t ≡ true
same_task_refl t = if_pos (WritingTask-discrete t t) refl true false

context-ok :
    (s : GraphState) (c : EditorialRunContext)
    → s.editorial_run_context ≡ some c
    → s.writing_task ≡ some c.task
    → context_of s ≡ ok c
context-ok s c h k = ground (arith, same_task_refl c.task)

abbrev written_state : GraphState → EditorialRunContext → Text → GraphState
written_state s c t = record s { writer_output = some (strip t); writer_run_id = some (run_id c) }

abbrev reviewed_state : GraphState → EditorialRunContext → Text → CriticReport → GraphState
reviewed_state s c t q = record (written_state s c t) {
  critic_report = some q;
  critic_run_id = some (run_id c);
}

module _ (a : Agents) (s : GraphState) (c : EditorialRunContext) (t e : Text) (r q : CriticReport)
    (prepared : IsPrepared s c) (answers : Answers a c t e r q) where
  writer-ok : writer_node a s ≡ ok (written_state s c t)
  unfolding writer_node require_non_blank
  writer-ok = ground (arith, context-ok s c prepared.has_context prepared.has_task)

  critic-ok : critic_node a (written_state s c t) ≡ ok (reviewed_state s c t q)
  unfolding critic_node require_non_blank
  critic-ok = ground (
    arith,
    context-ok (written_state s c t) c prepared.has_context prepared.has_task,
    strip_idem t,
    text_eq_refl (run_id c),
  )

  abbrev edited_state : GraphState
  edited_state = record (reviewed_state s c t q) { working_draft = some (strip e) }

  editor-ok : editor_node a (reviewed_state s c t q) ≡ ok edited_state
  unfolding editor_node require_non_blank
  editor-ok = ground (
    arith,
    context-ok (reviewed_state s c t q) c prepared.has_context prepared.has_task,
    strip_idem t,
    text_eq_refl (run_id c),
  )

  pass-ok : q.verdict ≡ pass → is_ok (build_pass_result (reviewed_state s c t q)) ≡ true
  unfolding build_pass_result result_of make_result require_non_blank
  pass-ok h = ground (
    arith,
    context-ok (reviewed_state s c t q) c prepared.has_context prepared.has_task,
    strip_idem t,
    text_eq_refl (run_id c),
    text_eq_refl (strip t),
  )

  revised-ok : q.verdict ≡ revise → is_ok (build_revised_result edited_state) ≡ true
  unfolding build_revised_result result_of make_result require_non_blank
  revised-ok h = ground (
    arith,
    context-ok edited_state c prepared.has_context prepared.has_task,
    strip_idem t,
    strip_idem e,
    text_eq_refl (run_id c),
  )

  route-ok : is_ok (route_critic_verdict a (some q) (reviewed_state s c t q)) ≡ true
  unfolding route_critic_verdict
  route-ok = elim (verdict-cases q.verdict) [
    | inl h ↦ ground (arith, pass-ok h)
    | inr h ↦ ground (arith, revised-ok h, editor-ok)
  ]

  -- A run of the editorial subgraph on a prepared state succeeds, where the Writer answers with a
  -- text that is not blank, the Critic answers on that text with a report that the critic node
  -- accepts, and the Editor answers on the accepted report with a text that is not blank.
  pub run_editorial-is_ok : is_ok (run_editorial a s) ≡ true
  unfolding run_editorial
  run_editorial-is_ok = rw (writer-ok, critic-ok) route-ok
