-- ===== src/Telegram/Delivery.antt =====
-- interfaces/telegram.py: what a turn sends, when all of it is delivered.
use editorial_team_v.Prelude.{
  length, length-append, All, All-append, ok, Result-cases, Text, ℕ, zero, suc, ◌+◌, ◌≡◌, refl, sym,
  ap, ◌∙◌, subst, inl, inr, Bool, Option, List, [], ◌∷◌, ◌++◌, arith,
}
use editorial_team_v.Domain.Conversation.{Message}
use editorial_team_v.Telegram.{Integer, chunk_text, max_telegram_text_length}
use editorial_team_v.Telegram.Chunks.{concat, concat-append, Fits, chunk_text-Fits}
use editorial_team_v.Telegram.Adapter.{Action, Adapter, and_then}
use editorial_team_v.Telegram.Sending.{
  send_chunks, send_content, hand_off, send_from, send_messages,
}
use editorial_team_v.Telegram.Added.{
  sent, pauses, IsFor, and_then-eq_ok, Adds, Adds-none, Adds-trans, send_chunks-Adds,
  hand_off_pauses, hand_off-Adds,
}

abbrev pub contents : List Message → Text
contents [] = []
contents (m ∷ ms) = m.content ++ contents ms

module _ {D : Type 0} (chat : Integer) (thread : Option Integer)
    (bot : List (Action D) → Action D → Bool) where
  -- The chunks `ts` of the text `t` are added, and counted from `n` to `k`.
  Delivers : List (Action D) → List (Action D) → Text → ℕ → ℕ → ℕ → Type 0
  Delivers log done t p n k =
      (ts : List Text) × Adds chat thread log done ts p
      × (concat ts ≡ t)
      × All (Fits max_telegram_text_length) ts
      × (k ≡ n + length ts)

  send_content-Delivers :
      (t : Text) (n k : ℕ) (log : List (Action D))
      → (send_content bot chat thread t n log).1 ≡ ok k
      → Delivers log (send_content bot chat thread t n log).0 t 0 n k
  unfolding send_content Delivers
  send_content-Delivers t n k log h = elim (Result-cases (chunk_text t max_telegram_text_length)) [
    | inr (e, p) ↦ ground arith
    | inl (cs, p) ↦
        let (joined, fit) = chunk_text-Fits t max_telegram_text_length cs p in
        let same : send_content bot chat thread t n log ≡ send_chunks bot chat thread cs n log =
          ground arith in
        let (added, count) =
          send_chunks-Adds chat thread bot cs n k log (sym (ap (λ x. x.1) same) ∙ h) in
        (
          cs,
          subst (λ x. Adds chat thread log x cs 0) (sym (ap (λ x. x.0) same)) added,
          joined,
          fit,
          count,
        )
  ]

  rest_pauses : ℕ → List Message → ℕ
  rest_pauses zero [] = 0
  rest_pauses zero (m ∷ ms) = length ms
  rest_pauses (suc index) ms = length ms

  rest_pauses-cons :
      (index : ℕ) (m : Message) (ms : List Message)
      → rest_pauses index (m ∷ ms) ≡ hand_off_pauses index + rest_pauses (suc index) ms
  unfolding rest_pauses
  rest_pauses-cons zero m ms = omega arith
  rest_pauses-cons (suc index) m ms = omega arith

  Delivers-then :
      (log ready mid done : List (Action D)) (t u : Text) (p q n k l : ℕ)
      → Adds chat thread log ready [] p
      → Delivers ready mid t 0 n k
      → Delivers mid done u q k l
      → Delivers log done (t ++ u) (p + q) n l
  unfolding Delivers
  Delivers-then log ready mid done t u p q n k l a (ts, b, e, fit, count) (us, c, f, fits, total) =
      let zero_plus : 0 + q ≡ q = omega arith in
      (
        ts ++ us,
        Adds-trans chat thread log ready done [] (ts ++ us) p q a (
            subst (λ x. Adds chat thread ready done (ts ++ us) x) zero_plus
              (Adds-trans chat thread ready mid done ts us 0 q b c)),
        concat-append ts us ∙ cc,
        All-append (Fits max_telegram_text_length) ts us fit fits,
        ground (arith, length-append ts us),
      )

  Delivers-none : (log : List (Action D)) (n k : ℕ) → n ≡ k → Delivers log log [] 0 n k
  unfolding Delivers concat
  Delivers-none log n k h = ([], Adds-none chat thread log, refl, tt, ground arith)

  send_from-Delivers :
      (delay : D) (index : ℕ) (ms : List Message) (n k : ℕ) (log : List (Action D))
      → (send_from bot delay chat thread index ms n log).1 ≡ ok k
      → Delivers log
          (send_from bot delay chat thread index ms n log).0
          (contents ms)
          (rest_pauses index ms)
          n
          k
  unfolding send_from rest_pauses
  send_from-Delivers delay zero [] n k log h = Delivers-none log n k (ground arith)
  send_from-Delivers delay (suc index) [] n k log h = Delivers-none log n k (ground arith)
  send_from-Delivers delay index (m ∷ ms) n k log h =
      let start = hand_off bot delay chat thread index log in
      let content = λ (ready : List (Action D)). send_content bot chat thread m.content n ready in
      let further =
        λ (j : ℕ) (done : List (Action D)). send_from bot delay chat thread (suc index) ms j done in
      let (u, e, first) = and_then-eq_ok start (λ _ ready. and_then (content ready) further) k h in
      let after = sym (ap (λ x. x.1) first) ∙ h in
      let (j, f, second) = and_then-eq_ok (content start.0) further k after in
      let last = sym (ap (λ x. x.1) second) ∙ after in
      let mid = (content start.0).0 in
      let all = contents (m ∷ ms) in
      subst (λ x. Delivers log x all (rest_pauses index (m ∷ ms)) n k)
        (sym (ap (λ x. x.0) (first ∙ second)))
        (subst (λ p. Delivers log (further j mid).0 all p n k) (sym (rest_pauses-cons index m ms))
          (Delivers-then log start.0 mid (further j mid).0 m.content (contents ms)
            (hand_off_pauses index) (rest_pauses (suc index) ms) n j k
            (hand_off-Adds chat thread bot delay index log u e)
            (send_content-Delivers m.content n j start.0 f)
            (send_from-Delivers delay (suc index) ms j k mid last)))

-- Where messages, of which there is at least one, are sent without a failure, the texts that were
-- sent are, put together, the contents of the messages, each is at most 4096 characters long and
-- not blank, their number is the one returned, there was one pause fewer than messages, and every
-- call was for the chat and the topic given.
pub send_messages-Delivered :
    {D : Type 0} (bot : List (Action D) → Action D → Bool) (adapter : Adapter D) (chat : Integer)
    (thread : Option Integer) (m : Message) (ms : List Message) (k : ℕ)
    → (send_messages bot adapter chat thread (m ∷ ms) []).1 ≡ ok k
    → let log = (send_messages bot adapter chat thread (m ∷ ms) []).0 in
      (concat (sent log) ≡ contents (m ∷ ms))
      × All (Fits max_telegram_text_length) (sent log)
      × (k ≡ length (sent log))
      × (pauses log ≡ length ms)
      × All (IsFor chat thread) log
unfolding send_messages Delivers rest_pauses
send_messages-Delivered bot adapter chat thread m ms k h =
    let (ts, added, joined, fit, count) =
      send_from-Delivers chat thread bot adapter.handoff_delay 0 (m ∷ ms) 0 k [] h in
    (
      ap concat added.texts ∙ joined,
      subst (All (Fits max_telegram_text_length)) (sym added.texts) fit,
      ground (arith, added.texts, ap length added.texts),
      ground (arith, added.rests),
      added.scope tt,
    )
