-- ===== src/Operations/Store/Marking.antt =====
-- What marking a result as delivered changes.
use editorial_team_v.Prelude.{
  Option-cases, ok, err, Result-cases, Text, text_eq, text_eq_sound, ◌≡◌, refl, sym, ap, ◌∙◌, ◌≢◌,
  inl, inr, true, false, Option, none, some, List, [], ◌∷◌, arith,
}
use editorial_team_v.Contracts.{Checked, Datetime, validate_identifier}
use editorial_team_v.Contracts.Identity.{validate_identifier_idem}
use editorial_team_v.Operations.Models.{silence, notify, HeartbeatResult, make_heartbeat}
use editorial_team_v.Operations.Store.{
  Row, silence_marked, decision_value, find_row, is_notify, set_sent, to_result, get_result,
  mark_notification_sent,
}

sent_row : Row → Row
sent_row r = record r { notification_sent = 1 }

sent_option : Option Row → Option Row
sent_option none = none
sent_option (some r) = some (sent_row r)

find_row-set_sent :
    (id : Text) (rows : List Row) → find_row id (set_sent id rows) ≡ sent_option (find_row id rows)
unfolding find_row set_sent sent_option sent_row
find_row-set_sent id [] = refl
find_row-set_sent id (r ∷ rows) = ground (arith, find_row-set_sent id rows)

pub set_sent_idem :
    (id : Text) (rows : List Row) → set_sent id (set_sent id rows) ≡ set_sent id rows
unfolding set_sent
set_sent_idem id [] = refl
set_sent_idem id (r ∷ rows) = ground (arith, set_sent_idem id rows)

-- Marking one id leaves what is found under any other.
pub find_row-set_sent_ne :
    (id j : Text) (rows : List Row) → j ≢ id → find_row j (set_sent id rows) ≡ find_row j rows
unfolding find_row set_sent
find_row-set_sent_ne id j [] h = refl
find_row-set_sent_ne id j (r ∷ rows) h = ground (
  arith,
  find_row-set_sent_ne id j rows,
  text_eq_sound r.result_id j,
  text_eq_sound r.result_id id,
)

not_notify : (t : Text) → t ≡ decision_value silence → is_notify t ≡ false
unfolding text_eq
not_notify t h = rw h

module _ (unstamp : Text → Checked Datetime) where
  decision-to_result :
      (q : Row) (r : HeartbeatResult)
      → to_result unstamp q ≡ ok r
      → (r.decision ≡ notify → is_notify q.decision ≡ true)
        × (r.decision ≡ silence → is_notify q.decision ≡ false)
  unfolding to_result make_heartbeat
  decision-to_result q r h =
      ground (arith, text_eq_sound q.decision (decision_value silence), not_notify q.decision)

  to_result-sent_row :
      (q : Row) (r : HeartbeatResult)
      → to_result unstamp q ≡ ok r
      → r.decision ≡ notify
      → to_result unstamp (sent_row q) ≡ ok (record r { notification_sent = true })
  unfolding to_result make_heartbeat sent_row
  to_result-sent_row q r h d = ground arith

  id_of_result :
      (q : Row) (r : HeartbeatResult)
      → to_result unstamp q ≡ ok r
      → validate_identifier q.result_id "id" ≡ ok r.id
  unfolding to_result make_heartbeat
  id_of_result q r h = ground arith

  mark-known :
      (rows : List Row) (id i : Text) (q : Row)
      → validate_identifier id "result_id" ≡ ok i
      → find_row i rows ≡ some q
      → is_notify q.decision ≡ true
      → mark_notification_sent unstamp rows id
        ≡ (get_result unstamp (set_sent i rows) i, set_sent i rows)
  unfolding mark_notification_sent
  mark-known rows id i q hi hq n = ground arith

  find_row-sent :
      (rows : List Row) (i : Text) (q : Row)
      → find_row i rows ≡ some q
      → find_row i (set_sent i rows) ≡ some (sent_row q)
  unfolding sent_option
  find_row-sent rows i q hq = rw (find_row-set_sent, hq)

  get-known :
      (rows : List Row) (id i : Text) (q : Row)
      → validate_identifier id "result_id" ≡ ok i
      → find_row i rows ≡ some q
      → get_result unstamp rows id ≡ to_result unstamp q
  unfolding get_result
  get-known rows id i q hi hq = ground arith

  mark_twice :
      (rows : List Row) (id i : Text) (q : Row)
      → validate_identifier id "result_id" ≡ ok i
      → find_row i rows ≡ some q
      → is_notify q.decision ≡ true
      → mark_notification_sent unstamp (mark_notification_sent unstamp rows id).1 id
        ≡ mark_notification_sent unstamp rows id
  unfolding sent_row
  mark_twice rows id i q hi hq n =
      let first = mark-known rows id i q hi hq n in
      let second =
        mark-known (set_sent i rows) id i (sent_row q) hi (find_row-sent rows i q hq) n in
      rw first (rw second (rw set_sent_idem))

  -- Marking a stored NOTIFY result as notified gives that result with its mark set, and marking it
  -- again changes neither the table nor the answer.
  pub mark-notify :
      (rows : List Row) (id : Text) (r : HeartbeatResult)
      → get_result unstamp rows id ≡ ok r
      → r.decision ≡ notify
      → ((mark_notification_sent unstamp rows id).0 ≡ ok (record r { notification_sent = true }))
        × (mark_notification_sent unstamp (mark_notification_sent unstamp rows id).1 id
            ≡ mark_notification_sent unstamp rows id)
  unfolding get_result
  mark-notify rows id r h d = elim (Result-cases (validate_identifier id "result_id")) [
    | inl (i, hi) ↦ elim (Option-cases (find_row i rows)) [
      | inl n ↦ absurd (cc (rw (hi, n) at h))
      | inr (q, hq) ↦
          let hr : to_result unstamp q ≡ ok r = rw (hi, hq) at h in
          let n = (decision-to_result q r hr).0 d in
          (
            ap (λ p. p.0) (mark-known rows id i q hi hq n)
                ∙ get-known (set_sent i rows) i i (sent_row q)
                    (validate_identifier_idem id i "result_id" "result_id" hi)
                    (find_row-sent rows i q hq)
                ∙ to_result-sent_row q r hr d,
            mark_twice rows id i q hi hq n,
          )
    ]
    | inr (x, hx) ↦ absurd (cc (rw hx at h))
  ]

  -- After a stored NOTIFY result was marked, `get` gives the marked result that the marking gave.
  pub get-mark :
      (rows : List Row) (id : Text) (r : HeartbeatResult)
      → get_result unstamp rows id ≡ ok r
      → r.decision ≡ notify
      → get_result unstamp (mark_notification_sent unstamp rows id).1 id
        ≡ (mark_notification_sent unstamp rows id).0
  unfolding get_result
  get-mark rows id r h d = elim (Result-cases (validate_identifier id "result_id")) [
    | inl (i, hi) ↦ elim (Option-cases (find_row i rows)) [
      | inl n ↦ absurd (cc (rw (hi, n) at h))
      | inr (q, hq) ↦
          let hr : to_result unstamp q ≡ ok r = rw (hi, hq) at h in
          let n = (decision-to_result q r hr).0 d in
          rw (mark-known rows id i q hi hq n) (
            get-known (set_sent i rows) id i (sent_row q) hi (find_row-sent rows i q hq)
            ∙ sym (
                get-known (set_sent i rows) i i (sent_row q)
                  (validate_identifier_idem id i "result_id" "result_id" hi)
                  (find_row-sent rows i q hq)))
    ]
    | inr (x, hx) ↦ absurd (cc (rw hx at h))
  ]

  -- Marking a SILENCE result is refused and changes nothing.
  pub mark-silence :
      (rows : List Row) (id : Text) (r : HeartbeatResult)
      → get_result unstamp rows id ≡ ok r
      → r.decision ≡ silence
      → mark_notification_sent unstamp rows id ≡ (err silence_marked, rows)
  unfolding get_result mark_notification_sent
  mark-silence rows id r h d = elim (Result-cases (validate_identifier id "result_id")) [
    | inl (i, hi) ↦ elim (Option-cases (find_row i rows)) [
      | inl n ↦ ground arith
      | inr (q, hq) ↦ ground (arith, decision-to_result q r)
    ]
    | inr (x, hx) ↦ ground arith
  ]
