-- ===== src/Telegram/Added.antt =====
-- interfaces/telegram.py: what the chunks of a message and the pause before it add to the calls.
use editorial_team_v.Prelude.{
  length, All, All-append, Result, ok, err, Text, ℕ, zero, suc, ◌+◌, ◌≡◌, refl, sym, ap, ◌∙◌, subst,
  Bool, Option, List, [], ◌∷◌, ◌++◌, append_assoc, append-nil, arith,
}
use editorial_team_v.Telegram.{Integer}
use editorial_team_v.Telegram.Adapter.{
  Action, send_message, send_typing, sleep, bot_failed, and_then, perform,
}
use editorial_team_v.Telegram.Sending.{send_chunks, hand_off}

abbrev pub hand_off_pauses : ℕ → ℕ
hand_off_pauses zero = 0
hand_off_pauses (suc index) = 1

module _ {D : Type 0} where
  -- The texts that are sent.
  abbrev pub sent : List (Action D) → List Text
  sent [] = []
  sent (send_message _ _ t ∷ log) = t ∷ sent log
  sent (send_typing _ _ ∷ log) = sent log
  sent (sleep _ ∷ log) = sent log

  abbrev pub pauses : List (Action D) → ℕ
  pauses [] = 0
  pauses (send_message _ _ _ ∷ log) = pauses log
  pauses (send_typing _ _ ∷ log) = pauses log
  pauses (sleep _ ∷ log) = suc (pauses log)

  -- A call that is for a chat and a topic of it.
  abbrev pub IsFor : Integer → Option Integer → Action D → Type 0
  IsFor chat thread (send_message c t _) = (c ≡ chat) × (t ≡ thread)
  IsFor chat thread (send_typing c t) = (c ≡ chat) × (t ≡ thread)
  IsFor chat thread (sleep _) = Unit {0}

  sent-append : (xs ys : List (Action D)) → sent (xs ++ ys) ≡ sent xs ++ sent ys
  sent-append [] ys = refl
  sent-append (send_message _ _ t ∷ xs) ys = ap (λ x. t ∷ x) (sent-append xs ys)
  sent-append (send_typing _ _ ∷ xs) ys = sent-append xs ys
  sent-append (sleep _ ∷ xs) ys = sent-append xs ys

  pauses-append : (xs ys : List (Action D)) → pauses (xs ++ ys) ≡ pauses xs + pauses ys
  pauses-append [] ys = omega arith
  pauses-append (send_message _ _ t ∷ xs) ys = pauses-append xs ys
  pauses-append (send_typing _ _ ∷ xs) ys = pauses-append xs ys
  pauses-append (sleep _ ∷ xs) ys = ground (arith, pauses-append xs ys)

  -- The parts of a chain that succeeds.
  pub and_then-eq_ok :
      {E A B : Type 0} (step : List (Action D) × Result E A)
      (next : A → List (Action D) → List (Action D) × Result E B) (b : B)
      → (and_then step next).1 ≡ ok b
      → (a : A) × (step.1 ≡ ok a) × (and_then step next ≡ next a step.0)
  unfolding and_then
  and_then-eq_ok (log, ok a) next b h = (a, refl, refl)
  and_then-eq_ok (log, err e) next b h = cc

  -- What an accepted piece of work adds to a log: texts, pauses and nothing for another chat.
  pub record Adds (chat : Integer) (thread : Option Integer) (log done : List (Action D))
      (ts : List Text) (p : ℕ) : Type 0 where
    pub texts : sent done ≡ sent log ++ ts
    pub rests : pauses done ≡ pauses log + p
    pub scope : All (IsFor chat thread) log → All (IsFor chat thread) done

module _ {D : Type 0} (chat : Integer) (thread : Option Integer) where
  pub Adds-none : (log : List (Action D)) → Adds chat thread log log [] 0
  Adds-none log = record {
    texts = sym (append-nil (sent log));
    rests = omega arith;
    scope = λ h. h;
  }

  pub Adds-trans :
      (log mid done : List (Action D)) (ts us : List Text) (p q : ℕ)
      → Adds chat thread log mid ts p
      → Adds chat thread mid done us q
      → Adds chat thread log done (ts ++ us) (p + q)
  Adds-trans log mid done ts us p q a b = record {
    texts = b.texts ∙ ap (λ x. x ++ us) a.texts ∙ append_assoc (sent log) ts us;
    rests = ground (arith, a.rests, b.rests);
    scope = λ h. b.scope (a.scope h);
  }

  module _ (bot : List (Action D) → Action D → Bool) where
    perform-Adds :
        {E : Type 0} (e : E) (a : Action D) (log : List (Action D))
        → IsFor chat thread a
        → Adds chat thread log (perform bot e a log).0 (sent (a ∷ [])) (pauses (a ∷ []))
    unfolding perform
    perform-Adds e a log h = record {
      texts = sent-append log (a ∷ []);
      rests = pauses-append log (a ∷ []);
      scope = λ k. All-append (IsFor chat thread) log (a ∷ []) k (h, tt);
    }

    pub send_chunks-Adds :
        (cs : List Text) (n k : ℕ) (log : List (Action D))
        → (send_chunks bot chat thread cs n log).1 ≡ ok k
        → Adds chat thread log (send_chunks bot chat thread cs n log).0 cs 0 × (k ≡ n + length cs)
    unfolding send_chunks
    send_chunks-Adds [] n k log h = (Adds-none log, ground arith)
    send_chunks-Adds (c ∷ cs) n k log h =
        let step = perform bot bot_failed (send_message chat thread c) log in
        let (u, e, same) =
          and_then-eq_ok step (λ _ done. send_chunks bot chat thread cs (n + 1) done) k h in
        let (added, count) = send_chunks-Adds cs (n + 1) k step.0 (sym (ap (λ x. x.1) same) ∙ h) in
        (
          subst (λ x. Adds chat thread log x (c ∷ cs) 0) (sym (ap (λ x. x.0) same))
              (Adds-trans log step.0 (send_chunks bot chat thread cs (n + 1) step.0).0 (c ∷ []) cs 0
                0 (perform-Adds bot_failed (send_message chat thread c) log (refl, refl)) added),
          ground arith,
        )

    pub hand_off-Adds :
        (delay : D) (index : ℕ) (log : List (Action D)) (u : Unit {0})
        → (hand_off bot delay chat thread index log).1 ≡ ok u
        → Adds chat thread log
            (hand_off bot delay chat thread index log).0
            []
            (hand_off_pauses index)
    unfolding hand_off
    hand_off-Adds delay zero log u h = Adds-none log
    hand_off-Adds delay (suc index) log u h =
        let step = perform bot bot_failed (send_typing chat thread) log in
        let (v, e, same) =
          and_then-eq_ok step (λ _ done. perform bot bot_failed (sleep delay) done) u h in
        subst (λ x. Adds chat thread log x [] 1) (sym (ap (λ x. x.0) same))
          (Adds-trans log step.0 (perform bot bot_failed (sleep delay) step.0).0 [] [] 0 1
            (perform-Adds bot_failed (send_typing chat thread) log (refl, refl))
            (perform-Adds bot_failed (sleep delay) step.0 tt))
