-- ===== src/Telegram/Refusal.antt =====
-- interfaces/telegram.py and runtime/queue.py: which updates the handler of texts fails for.
use editorial_team_v.Prelude.{
  leb, leb→le, Result, ok, Bool-cases, Option-cases, length, take, all, All, err, Text, ℕ, zero,
  suc, ◌≤◌, ◌≡◌, refl, sym, ap, ◌∙◌, subst, ◌≢◌, ◌⊎◌, inl, inr, Bool, true, false, Option, none,
  some, List, [], ◌∷◌, arith,
}
use editorial_team_v.Prelude.Decimal.{decimal, decimal-digits}
use editorial_team_v.Runtime.Queue.{
  RuntimeQueue, Future, pending, fulfilled, job_failed, cancelled, Job, QueueError, at_capacity,
  not_started, closed_queue, invalid_correlation_id, worker_unavailable, submit_job,
  validate_submission, enqueue, is_safe_char, is_safe_identifier,
}
use editorial_team_v.Telegram.{Integer, nonneg, negative, encode_id}
use editorial_team_v.Telegram.Adapter.{
  Action, Adapter, Update, PendingTurn, Handling, HandlerError, ignored, turned_away, accepted,
  bot_raised, job_raised, job_cancelled, refused, send_message, and_then, perform, supported_chat,
  trace_for_update, busy_turn_error,
}
use editorial_team_v.Telegram.Handlers.{
  accept_text, submit_turn, after_submit, await_result, finish_text, handle_text,
}

digits-safe : (t : Text) → All (λ c. (48 ≤ c) × (c ≤ 57)) t → all is_safe_char t ≡ true
digits-safe [] h = refl
digits-safe (c ∷ t) h = ground (arith, digits-safe t h.1)

encode_id-safe : (i : Integer) → all is_safe_char (encode_id i) ≡ true
unfolding encode_id
encode_id-safe (nonneg n) = digits-safe (decimal n) (decimal-digits n)
encode_id-safe (negative n) = digits-safe (decimal n) (decimal-digits n)

take-safe : (n : ℕ) (t : Text) → all is_safe_char t ≡ true → all is_safe_char (take n t) ≡ true
take-safe zero t h = refl
take-safe (suc n) [] h = refl
take-safe (suc n) (c ∷ t) h = ground (arith, take-safe n t)

trace_for_update-safe :
    (uuid : Text) (i : Option Integer)
    → all is_safe_char uuid ≡ true
    → is_safe_identifier (trace_for_update uuid i) ≡ true
unfolding trace_for_update is_safe_identifier
trace_for_update-safe uuid none h = take-safe 12 uuid h
trace_for_update-safe uuid (some i) h = encode_id-safe i

-- Why the queue refuses an update.
abbrev pub IsRefusal : {V : Type 0} → RuntimeQueue V → QueueError → Type 0
IsRefusal q e =
    ((e ≡ closed_queue) × (q.closed ≡ true)) ⊎ ((e ≡ not_started) × (q.accepting ≡ false))

submit_job-IsRefusal :
    {V : Type 0} (q : RuntimeQueue V) (j : Job) (e : QueueError)
    → is_safe_identifier j.correlation_id ≡ true
    → (submit_job q j).1 ≡ some e
    → (submit_job q j).0 ≡ q × (((e ≡ at_capacity) × (q.capacity ≤ length q.items)) ⊎ IsRefusal q e)
unfolding submit_job validate_submission enqueue
submit_job-IsRefusal q j e safe h = elim (Bool-cases q.closed) [
  | inl c ↦ let same : closed_queue ≡ e = ground arith in (ground arith, inr (inl (sym same, c)))
  | inr c ↦ elim (Bool-cases q.accepting) [
    | inr a ↦ let same : not_started ≡ e = ground arith in (ground arith, inr (inr (sym same, a)))
    | inl a ↦ elim (Bool-cases (leb q.capacity (length q.items))) [
      | inl f ↦
          let same : at_capacity ≡ e = ground arith in
          (ground arith, inl (sym same, leb→le q.capacity (length q.items) f))
      | inr f ↦ ground arith
    ]
  ]
]

module _ {D V : Type 0} (q : RuntimeQueue V) (log : List (Action D)) where
  -- What may be said of the queue, the calls and the outcome, up to the await.
  Explains : ℕ → RuntimeQueue V → List (Action D) → Result HandlerError Handling → Type 0
  Explains job_id r done (ok ignored) = Unit {0}
  Explains job_id r done (ok turned_away) = Unit {0}
  Explains job_id r done (ok (accepted j turn)) = j.job_id ≡ job_id
  Explains job_id r done (err (refused e)) = IsRefusal q e × (r ≡ q) × (done ≡ log)
  Explains job_id r done (err bot_raised) = q.capacity ≤ length q.items
  Explains job_id r done (err job_raised) = ⊥
  Explains job_id r done (err job_cancelled) = ⊥

  refused-Explains :
      (job_id : ℕ) (r : RuntimeQueue V) (e : QueueError)
      → (r ≡ q) × (((e ≡ at_capacity) × (q.capacity ≤ length q.items)) ⊎ IsRefusal q e)
      → e ≢ at_capacity
      → Explains job_id r log (err (refused e))
  unfolding Explains
  refused-Explains job_id r e (kept, reason) other = elim reason [
    | inl full ↦ absurd (other full.0)
    | inr why ↦ (why, kept, refl)
  ]

  after_submit-Explains :
      (bot : List (Action D) → Action D → Bool) (o : Option QueueError) (j : Job)
      (turn : PendingTurn)
      → is_safe_identifier j.correlation_id ≡ true
      → (submit_job q j).1 ≡ o
      → Explains j.job_id
          (submit_job q j).0
          (after_submit bot o j turn log).0
          (after_submit bot o j turn log).1
  unfolding after_submit and_then perform Explains
  after_submit-Explains bot none j turn safe h = refl
  after_submit-Explains bot (some at_capacity) j turn safe h =
      let (kept, reason) = submit_job-IsRefusal q j at_capacity safe h in
      let full : q.capacity ≤ length q.items = ground arith in
      elim (Bool-cases (bot log (send_message turn.chat_id none busy_turn_error))) [
        | inl b ↦ rw b tt
        | inr b ↦ rw b full
      ]
  after_submit-Explains bot (some not_started) j turn safe h =
      refused-Explains j.job_id (submit_job q j).0 not_started
        (submit_job-IsRefusal q j not_started safe h) (ground arith)
  after_submit-Explains bot (some closed_queue) j turn safe h =
      refused-Explains j.job_id (submit_job q j).0 closed_queue
        (submit_job-IsRefusal q j closed_queue safe h) (ground arith)
  after_submit-Explains bot (some invalid_correlation_id) j turn safe h =
      refused-Explains j.job_id (submit_job q j).0 invalid_correlation_id
        (submit_job-IsRefusal q j invalid_correlation_id safe h) (ground arith)
  after_submit-Explains bot (some worker_unavailable) j turn safe h =
      refused-Explains j.job_id (submit_job q j).0 worker_unavailable
        (submit_job-IsRefusal q j worker_unavailable safe h) (ground arith)

  accept_text-Explains :
      (bot : List (Action D) → Action D → Bool) (adapter : Adapter D) (uuid : Text) (job_id : ℕ)
      (u : Update)
      → all is_safe_char uuid ≡ true
      → Explains job_id
          (accept_text bot adapter uuid job_id u q log).0
          (accept_text bot adapter uuid job_id u q log).1.0
          (accept_text bot adapter uuid job_id u q log).1.1
  unfolding accept_text submit_turn Explains
  accept_text-Explains bot adapter uuid job_id u safe = elim (Option-cases u.effective_chat) [
    | inl c ↦ rw (c, accept_text) tt
    | inr (chat, c) ↦ elim (Option-cases u.effective_message) [
      | inl m ↦ rw (c, m, accept_text) tt
      | inr (message, m) ↦ elim (Option-cases message.body) [
        | inl t ↦ rw (c, m, t, accept_text) tt
        | inr (body, t) ↦ elim (Bool-cases (supported_chat adapter (some chat))) [
          | inr b ↦ rw (c, m, t, b, accept_text) tt
          | inl b ↦
              rw (c, m, t, b, accept_text)
                (after_submit-Explains bot _ _ _ (trace_for_update-safe uuid u.update_id safe) refl)
        ]
      ]
    ]
  ]

  -- Why the handler raises, with the futures at the time at which it does.
  abbrev pub Raises : ℕ → (ℕ → Future V) → RuntimeQueue V → List (Action D) → HandlerError → Type 0
  Raises job_id futures r done (refused e) = IsRefusal q e × (r ≡ q) × (done ≡ log)
  Raises job_id futures r done bot_raised = q.capacity ≤ length q.items
  Raises job_id futures r done job_raised = futures job_id ≡ job_failed
  Raises job_id futures r done job_cancelled = futures job_id ≡ cancelled

  await_result-raises :
      (f : Future V) (e : HandlerError)
      → await_result f ≡ some (err e)
      → ((e ≡ job_raised) × (f ≡ job_failed)) ⊎ ((e ≡ job_cancelled) × (f ≡ cancelled))
  unfolding await_result
  await_result-raises pending e h = cc
  await_result-raises (fulfilled v) e h = ground arith
  await_result-raises job_failed e h = inl (ground arith, refl)
  await_result-raises cancelled e h = inr (ground arith, refl)

  finish_text-Raises :
      (job_id : ℕ) (futures : ℕ → Future V) (r : RuntimeQueue V) (done : List (Action D))
      (outcome : Result HandlerError Handling) (e : HandlerError)
      → Explains job_id r done outcome
      → finish_text futures outcome ≡ some (err e)
      → Raises job_id futures r done e
  unfolding finish_text Explains
  finish_text-Raises job_id futures r done (ok ignored) e k h = ground arith
  finish_text-Raises job_id futures r done (ok turned_away) e k h = ground arith
  finish_text-Raises job_id futures r done (ok (accepted j turn)) e k h =
      let here : futures j.job_id ≡ futures job_id = ap futures k in
      elim (await_result-raises (futures j.job_id) e h) [
        | inl (x, f) ↦ subst (Raises job_id futures r done) (sym x) (sym here ∙ f)
        | inr (x, f) ↦ subst (Raises job_id futures r done) (sym x) (sym here ∙ f)
      ]
  finish_text-Raises job_id futures r done (err (refused x)) e k h =
      let same : refused x ≡ e = ground arith in subst (Raises job_id futures r done) same k
  finish_text-Raises job_id futures r done (err bot_raised) e k h =
      let same : bot_raised ≡ e = ground arith in subst (Raises job_id futures r done) same k
  finish_text-Raises job_id futures r done (err job_raised) e k h = absurd k
  finish_text-Raises job_id futures r done (err job_cancelled) e k h = absurd k

-- Where the identifiers that `uuid4` gives have safe characters only, the handler of texts ends
-- with an exception for one of four reasons: the queue is closed or does not accept jobs yet, and
-- then neither the queue nor the calls of the bot have changed; the queue is full and the answer
-- that says so was not sent; the future of its own job is failed; or it is cancelled.
pub handle_text-Raises :
    {D V : Type 0} (bot : List (Action D) → Action D → Bool) (adapter : Adapter D) (uuid : Text)
    (job_id : ℕ) (u : Update) (q : RuntimeQueue V) (log : List (Action D)) (futures : ℕ → Future V)
    (e : HandlerError)
    → all is_safe_char uuid ≡ true
    → handle_text bot adapter uuid job_id u q log futures ≡ some (err e)
    → Raises q log job_id futures
        (accept_text bot adapter uuid job_id u q log).0
        (accept_text bot adapter uuid job_id u q log).1.0
        e
unfolding handle_text
handle_text-Raises bot adapter uuid job_id u q log futures e safe h =
    finish_text-Raises q log job_id futures (accept_text bot adapter uuid job_id u q log).0
      (accept_text bot adapter uuid job_id u q log).1.0
      (accept_text bot adapter uuid job_id u q log).1.1 e
      (accept_text-Explains q log bot adapter uuid job_id u safe) h
