-- ===== src/Artifacts/Chunking/Order.antt =====
-- artifacts/chunking.py: the pieces of a paragraph that is too long ascend.
use editorial_team_v.Prelude.{
  length, All, All-append, Text, ℕ, ◌+◌, ◌≤◌, ◌<◌, ◌≡◌, sym, ap, ◌∙◌, subst, ◌⊎◌, inl, inr, List,
  [], ◌∷◌, ◌++◌, append_assoc, arith,
}
use editorial_team_v.Prelude.Scan.{Span, span, slice}
use editorial_team_v.Artifacts.Chunking.Patterns.{tokens}
use editorial_team_v.Artifacts.Chunking.Units.{
  Limits, last_of, previous_from, hard_slices, split_step, split_from,
}
use editorial_team_v.Artifacts.Chunking.Spans.{
  Ascending, Ascending-weaken, Ascending-append, not_blank-lt,
}
use editorial_team_v.Artifacts.Chunking.Hard.{hard_slices-Ascending}
use editorial_team_v.Artifacts.Chunking.Split.{step-Given}

-- Boundaries that grow weakly.
abbrev pub Between : ℕ → ℕ → List ℕ → Type 0
Between low high [] = Unit
Between low high (b ∷ bs) = (low ≤ b) × (b ≤ high) × Between b high bs

previous_from-le :
    (b before : ℕ) (done rest : List ℕ)
    → before ≤ b
    → All (λ d. d ≤ b) done
    → previous_from b before (done ++ (b ∷ rest)) ≤ b
unfolding previous_from
previous_from-le b before [] rest k h = ground arith
previous_from-le b before (d ∷ done) rest k h =
    ground (arith, previous_from-le b d done rest h.0 h.1)

All-le : (b c : ℕ) (done : List ℕ) → b ≤ c → All (λ d. d ≤ b) done → All (λ d. d ≤ c) done
All-le b c [] k h = tt
All-le b c (d ∷ done) k h = (omega arith, All-le b c done k h.1)

module _ (limits : Limits) (positive : 0 < limits.max_tokens) (local : Text) (base : ℕ)
    (boundaries : List ℕ) where
  abbrev final : ℕ
  final = last_of 0 boundaries

  abbrev step : ℕ → ℕ → ℕ × List Span
  step = split_step limits local base boundaries

  abbrev before : ℕ → ℕ
  before b = previous_from b final boundaries

  abbrev piece_to : ℕ → ℕ → Span
  piece_to piece b = span (base + piece) (base + b)

  -- What a pass leaves: pieces that end where the next one begins, or, at the last boundary, the piece
  -- that is next as well.
  abbrev Passed : ℕ → ℕ → ℕ × List Span → Type 0
  Passed piece b r =
      ((piece ≤ r.0) × (r.0 ≤ b) × Ascending (base + r.0) (base + piece) (base + piece) r.1)
      ⊎ ((b ≡ final)
          × (piece < b)
          × (tokens (slice local piece b) ≤ limits.max_tokens)
          × (r ≡ (piece, piece_to piece b ∷ [])))

  step-Passed :
      (piece b : ℕ) → piece ≤ b → b ≤ length local → before b ≤ b → Passed piece b (step piece b)
  step-Passed piece b k l p = elim (step-Given limits positive local base boundaries piece b) [
    | inl (_, m, e) ↦
        let slices = hard_slices-Ascending limits positive local base (before b) b p l in
        let weak =
          Ascending-weaken (base + b) (base + piece) (base + before b) (base + before b)
            (base + before b) (hard_slices limits local base (before b) b) (omega arith)
            (omega arith) slices in
        subst (Passed piece b) (sym e)
          (inl (k, omega arith, (omega arith, omega arith, omega arith, omega arith, weak)))
    | inr (inl (_, m, e)) ↦
        subst (Passed piece b) (sym e)
          (inl (omega arith, p, (omega arith, omega arith, omega arith, omega arith, tt)))
    | inr (inr (inl (_, e))) ↦
        subst (Passed piece b) (sym e)
          (inl (k, omega arith, hard_slices-Ascending limits positive local base piece b k l))
    | inr (inr (inr (inl (f, inked, size, e)))) ↦ inr (f, not_blank-lt local piece b inked, size, e)
    | inr (inr (inr (inr (_, e)))) ↦ subst (Passed piece b) (sym e) (inl (omega arith, k, tt))
  ]

  -- At the last boundary the pieces are copies of one.
  copies-Ascending :
      (piece : ℕ) (rest : List ℕ)
      → piece < final
      → tokens (slice local piece final) ≤ limits.max_tokens
      → Between final final rest
      → Ascending
          (base + final)
          (base + piece)
          (base + final)
          (split_from limits local base boundaries piece rest)
  unfolding split_from
  copies-Ascending piece [] k h g = tt
  copies-Ascending piece (b ∷ rest) k h g =
      let same : b ≡ final = omega arith in
      let later = copies-Ascending piece rest k h (subst (λ c. Between c final rest) same g.2) in
      elim (step-Given limits positive local base boundaries piece b) [
        | inl (n, _, e) ↦ absurd (n same)
        | inr (inl (n, _, e)) ↦ absurd (n same)
        | inr (inr (inl (big, e))) ↦
            absurd (omega (arith, ap (λ c. tokens (slice local piece c)) same))
        | inr (inr (inr (inl (f, inked, size, e)))) ↦
            subst
              (λ r.
                Ascending (base + final) (base + piece) (base + final)
                  (r.1 ++ split_from limits local base boundaries r.0 rest))
              (sym e)
              (
                omega arith,
                omega arith,
                omega arith,
                omega arith,
                subst
                    (λ c.
                      Ascending (base + final) (base + piece) (base + c)
                        (split_from limits local base boundaries piece rest))
                    (sym same) later,
              )
        | inr (inr (inr (inr (_, e)))) ↦
            subst
              (λ r.
                Ascending (base + final) (base + piece) (base + final)
                  (r.1 ++ split_from limits local base boundaries r.0 rest))
              (sym e) later
      ]

  before-le :
      (b : ℕ) (done rest : List ℕ)
      → boundaries ≡ 0 ∷ (done ++ (b ∷ rest))
      → 0 < b
      → All (λ d. d ≤ b) done
      → before b ≤ b
  unfolding previous_from
  before-le b done rest e z h =
      subst (λ bs. previous_from b final bs ≤ b) (sym e)
        (ground (arith, previous_from-le b 0 done rest (omega arith) h))

  -- A pass and what follows it, where what follows ascends from wherever it begins.
  pass-Ascending :
      (piece b : ℕ) (rest : List ℕ)
      → before b ≤ b
      → piece ≤ b
      → Between b final (b ∷ rest)
      → final ≤ length local
      → ((p : ℕ)
          → p ≤ b
          → Ascending
              (base + final)
              (base + p)
              (base + p)
              (split_from limits local base boundaries p rest))
      → Ascending
          (base + final)
          (base + piece)
          (base + piece)
          (split_from limits local base boundaries piece (b ∷ rest))
  unfolding split_from
  pass-Ascending piece b rest z k g l later = elim (step-Passed piece b k (omega arith) z) [
    | inl (m, n, a) ↦
        Ascending-append (base + final) (base + (step piece b).0) (base + piece) (base + piece)
          (step piece b).1 (split_from limits local base boundaries (step piece b).0 rest)
          (omega arith) (omega arith) (omega arith) a (later (step piece b).0 n)
    | inr (f, m, size, p) ↦
        subst
          (λ r.
            Ascending (base + final) (base + piece) (base + piece)
              (r.1 ++ split_from limits local base boundaries r.0 rest))
          (sym p)
          (
            omega arith,
            omega arith,
            omega arith,
            omega arith,
            subst
                (λ c.
                  Ascending (base + final) (base + piece) (base + c)
                    (split_from limits local base boundaries piece rest))
                (sym f)
                (copies-Ascending piece rest (omega arith)
                  (subst (λ c. tokens (slice local piece c) ≤ limits.max_tokens) f size)
                  (subst (λ c. Between c final rest) f g.2)),
          )
  ]

  pub split_from-Ascending :
      (piece b : ℕ) (done rest : List ℕ)
      → boundaries ≡ 0 ∷ (done ++ (b ∷ rest))
      → 0 < b
      → All (λ d. d ≤ b) done
      → piece ≤ b
      → Between b final (b ∷ rest)
      → final ≤ length local
      → Ascending
          (base + final)
          (base + piece)
          (base + piece)
          (split_from limits local base boundaries piece (b ∷ rest))
  split_from-Ascending piece b done [] e z h k g l =
      pass-Ascending piece b [] (before-le b done [] e z h) k g l (λ p m. unfold split_from in tt)
  split_from-Ascending piece b done (c ∷ rest) e z h k g l =
      pass-Ascending piece b (c ∷ rest) (before-le b done (c ∷ rest) e z h) k g l (λ p m.
        split_from-Ascending p c (done ++ (b ∷ [])) rest
          (e ∙ ap (λ bs. 0 ∷ bs) (sym (append_assoc done (b ∷ []) (c ∷ rest)))) (omega arith)
          (All-append (λ d. d ≤ c) done (b ∷ []) (All-le b c done g.2.0 h) (g.2.0, tt))
          (omega arith) (omega arith, g.2.1, g.2.2) l)
