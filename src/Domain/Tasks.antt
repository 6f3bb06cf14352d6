-- ===== src/Domain/Tasks.antt =====
-- What the constructor of a writing task demands.
use editorial_team_v.Prelude.{
  strip, ◌≢◌, ◌⊎◌, Option, Text, none, some, inl, inr, refl, ◌&&◌, Bool, is_none, is_some, is_empty,
  ok, Text, ◌≤◌, ◌≡◌, sym, ap, ◌∙◌, subst, ◌↔◌, true, false, arith,
}
use editorial_team_v.Contracts.{
  require_non_blank, require_utc_timestamp, validate_identifier, is_utc, matches_id,
}
use editorial_team_v.Contracts.Identity.{
  validate_identifier-of_strip, validate_identifier-eq_ok, validate_identifier_idem,
}
use editorial_team_v.Domain.Editorial.{
  WritingTask, WritingTaskStatus, created, drafted, reviewed, revised, retrieved, has_produced_text,
  is_reviewed_status, check_draft, make_task,
}

pub record IsTask (t : WritingTask) : Type 0 where
  pub id_matches : matches_id t.id ≡ true
  pub owner_matches : matches_id t.conversation_id ≡ true
  pub created_utc : is_utc t.created_at.zone ≡ true
  pub updated_utc : is_utc t.updated_at.zone ≡ true
  pub in_order : t.created_at.instant ≤ t.updated_at.instant
  pub draft_not_blank : (d : Text) → t.working_draft ≡ some d → is_empty (strip d) ≡ false
  pub draft_for_text : t.status ≢ created → t.working_draft ≢ none
  pub report_for_review : (t.status ≡ reviewed) ⊎ (t.status ≡ revised) → t.critic_report ≢ none

abbrev pub trimmed : WritingTask → WritingTask
trimmed r = record r { id = strip r.id; conversation_id = strip r.conversation_id }

-- A construction keeps every field but the two identifiers.
pub make_task-eq :
    (r t : WritingTask)
    → make_task r ≡ ok t
    → t ≡ record r { id = t.id; conversation_id = t.conversation_id }
unfolding make_task require_utc_timestamp
make_task-eq r t h = ground arith

make_task-ids :
    (r t : WritingTask)
    → make_task r ≡ ok t
    → (validate_identifier r.id "id" ≡ ok t.id)
      × (validate_identifier r.conversation_id "conversation_id" ≡ ok t.conversation_id)
unfolding make_task require_utc_timestamp
make_task-ids r t h = ground arith

produced-of : (s : WritingTaskStatus) → s ≢ created → has_produced_text s ≡ true
produced-of created h = absurd (h refl)
produced-of drafted h = refl
produced-of reviewed h = refl
produced-of revised h = refl
produced-of retrieved h = refl

produced-not : (s : WritingTaskStatus) → has_produced_text s ≡ true → s ≢ created
produced-not s h e = cc (h, ap has_produced_text e)

reviewed-of : (s : WritingTaskStatus) → (s ≡ reviewed) ⊎ (s ≡ revised) → is_reviewed_status s ≡ true
reviewed-of s (inl e) = ap is_reviewed_status e
reviewed-of s (inr e) = ap is_reviewed_status e

reviewed-only :
    (s : WritingTaskStatus) → is_reviewed_status s ≡ true → (s ≡ reviewed) ⊎ (s ≡ revised)
reviewed-only created h = absurd (cc h)
reviewed-only drafted h = absurd (cc h)
reviewed-only reviewed h = inl refl
reviewed-only revised h = inr refl
reviewed-only retrieved h = absurd (cc h)

make_task-checks :
    (r t : WritingTask)
    → make_task r ≡ ok t
    → (is_utc r.created_at.zone ≡ true)
      × (is_utc r.updated_at.zone ≡ true)
      × (r.created_at.instant ≤ r.updated_at.instant)
      × ((d : Text) → r.working_draft ≡ some d → is_empty (strip d) ≡ false)
      × (has_produced_text r.status ≡ true → is_some r.working_draft ≡ true)
      × (is_reviewed_status r.status ≡ true → is_some r.critic_report ≡ true)
unfolding make_task require_utc_timestamp require_non_blank
make_task-checks r t h = (
  ground arith,
  ground arith,
  ground arith,
  λ d e. ground arith,
  λ e. ground arith,
  λ e. ground arith,
)

make_task-trimmed : (r t : WritingTask) → make_task r ≡ ok t → t ≡ trimmed r
make_task-trimmed r t h =
    let (hi, hc) = make_task-ids r t h in
    let (i, _) = validate_identifier-eq_ok r.id t.id "id" hi in
    let (c, _) =
      validate_identifier-eq_ok r.conversation_id t.conversation_id "conversation_id" hc in
    make_task-eq r t h
    ∙ ap (λ x. record r { id = x; conversation_id = t.conversation_id }) i
    ∙ ap (λ x. record r { id = strip r.id; conversation_id = x }) c

make_task_sound : (r t : WritingTask) → make_task r ≡ ok t → (t ≡ trimmed r) × IsTask t
make_task_sound r t h =
    let (hi, hc) = make_task-ids r t h in
    let (i, mi) = validate_identifier-eq_ok r.id t.id "id" hi in
    let (c, mc) =
      validate_identifier-eq_ok r.conversation_id t.conversation_id "conversation_id" hc in
    let (u, v, o, b, d, q) = make_task-checks r t h in
    let same = make_task-trimmed r t h in
    let trimmed_is : IsTask (trimmed r) = record {
      id_matches = subst (λ x. matches_id x ≡ true) i mi;
      owner_matches = subst (λ x. matches_id x ≡ true) c mc;
      created_utc = u;
      updated_utc = v;
      in_order = o;
      draft_not_blank = b;
      draft_for_text = λ n e. cc (d (produced-of r.status n), e);
      report_for_review = λ n e. cc (q (reviewed-of r.status n), e);
    } in
    (same, subst IsTask (sym same) trimmed_is)

is_some-of : {A : Type 0} (o : Option A) → o ≢ none → is_some o ≡ true
is_some-of none h = absurd (h refl)
is_some-of (some a) h = refl

check_draft-accepts :
    (o : Option Text)
    → ((d : Text) → o ≡ some d → is_empty (strip d) ≡ false)
    → check_draft o ≡ ok tt
unfolding require_non_blank
check_draft-accepts none h = refl
check_draft-accepts (some d) h = ground (arith, h d refl)

-- A flag that the second test of a guard answers is not refused.
guard-passes : (b c : Bool) → (b ≡ true → c ≡ false) → (b && c) ≡ false
guard-passes true c h = h refl
guard-passes false c h = refl

make_task_complete : (r : WritingTask) → IsTask (trimmed r) → make_task r ≡ ok (trimmed r)
unfolding make_task require_utc_timestamp
make_task_complete r k =
    let i = validate_identifier-of_strip r.id "id" k.id_matches in
    let c = validate_identifier-of_strip r.conversation_id "conversation_id" k.owner_matches in
    let d = check_draft-accepts r.working_draft k.draft_not_blank in
    let p = guard-passes (has_produced_text r.status) (is_none r.working_draft) (λ e.
      ground (arith, is_some-of r.working_draft (k.draft_for_text (produced-not r.status e)))) in
    let q = guard-passes (is_reviewed_status r.status) (is_none r.critic_report) (λ e.
      ground
        (arith, is_some-of r.critic_report (k.report_for_review (reviewed-only r.status e)))) in
    let u = k.created_utc in
    let v = k.updated_utc in let o = k.in_order in ground (arith, i, c, d, p, q, u, v, o)

-- A writing task is constructed from fields, as `t`, exactly if `t` has these fields with the two
-- identifiers trimmed, the identifiers match their pattern, the times are in UTC and in order, a
-- draft that is there is not blank, a status other than CREATED has a draft, and the statuses
-- REVIEWED and REVISED have a report.
pub make_task-IsTask : (r t : WritingTask) → (make_task r ≡ ok t) ↔ ((t ≡ trimmed r) × IsTask t)
make_task-IsTask r t = (
  make_task_sound r t,
  λ k. subst (λ x. make_task r ≡ ok x) (sym k.0) (make_task_complete r (subst IsTask k.0 k.1)),
)

make_task_again :
    (r t : WritingTask) (i c : Text)
    → validate_identifier r.id "id" ≡ ok i
    → validate_identifier r.conversation_id "conversation_id" ≡ ok c
    → make_task r ≡ ok t
    → make_task (record r { id = i; conversation_id = c }) ≡ ok t
unfolding make_task
make_task_again r t i c hi hc h =
    rw
      (
        validate_identifier_idem r.id i "id" "id" hi,
        validate_identifier_idem r.conversation_id c "conversation_id" "conversation_id" hc,
      )
      (rw (hi, hc) at h)

-- Constructing a task again from the fields of a constructed task gives that task.
pub make_task_idem : (r t : WritingTask) → make_task r ≡ ok t → make_task t ≡ ok t
make_task_idem r t h =
    let (hi, hc) = make_task-ids r t h in
    subst (λ s. make_task s ≡ ok t) (sym (make_task-eq r t h))
      (make_task_again r t t.id t.conversation_id hi hc h)
