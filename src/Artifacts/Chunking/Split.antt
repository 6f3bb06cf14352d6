-- ===== src/Artifacts/Chunking/Split.antt =====
-- artifacts/chunking.py: the pieces of a paragraph that is too long cover its ink.
use editorial_team_v.Prelude.{
  ltb, ltb→lt, Bool-cases, length, All, Text, ℕ, ◌+◌, ◌≤◌, ◌<◌, ◌≡◌, ap, ◌≢◌, ◌⊎◌, inl, inr, true,
  false, List, [], ◌∷◌, arith,
}
use editorial_team_v.Prelude.Scan.{Span, span, slice}
use editorial_team_v.Artifacts.Chunking.Patterns.{lacks_ink, tokens}
use editorial_team_v.Artifacts.Chunking.Units.{
  Limits, last_of, previous_from, hard_slices, split_step, split_from,
}
use editorial_team_v.Artifacts.Chunking.Spans.{ink, covers, covers-append, slice-not_blank}
use editorial_team_v.Artifacts.Chunking.Hard.{hard_slices-covers}

module _ (limits : Limits) (positive : 0 < limits.max_tokens) (local : Text) (base : ℕ)
    (boundaries : List ℕ) where
  abbrev pub final : ℕ
  final = last_of 0 boundaries

  abbrev step : ℕ → ℕ → ℕ × List Span
  step = split_step limits local base boundaries

  abbrev before : ℕ → ℕ
  before b = previous_from b final boundaries

  abbrev piece_to : ℕ → ℕ → Span
  piece_to piece b = span (base + piece) (base + b)

  -- What a pass can give.
  abbrev pub Given : ℕ → ℕ → ℕ × List Span → Type 0
  Given piece b r =
      ((b ≢ final)
        × (piece < before b)
        × (r ≡ (b, piece_to piece (before b) ∷ hard_slices limits local base (before b) b)))
      ⊎ (((b ≢ final) × (piece < before b) × (r ≡ (before b, piece_to piece (before b) ∷ [])))
          ⊎ (((limits.max_tokens < tokens (slice local piece b))
                × (r ≡ (b, hard_slices limits local base piece b)))
              ⊎ (((b ≡ final)
                    × (lacks_ink (slice local piece b) ≡ false)
                    × (tokens (slice local piece b) ≤ limits.max_tokens)
                    × (r ≡ (piece, piece_to piece b ∷ [])))
                  ⊎ ((b ≡ final → lacks_ink (slice local piece b) ≡ true) × (r ≡ (piece, []))))))

  pub step-Given : (piece b : ℕ) → Given piece b (step piece b)
  unfolding split_step
  step-Given piece b = ground arith

  -- A pass covers the ink up to where the next piece begins.
  step-covers :
      (piece b q : ℕ)
      → b ≤ length local
      → piece ≤ q
      → q < (step piece b).0
      → ink local q ≡ true
      → covers (step piece b).1 (base + q) ≡ true
  unfolding covers
  step-covers piece b q l k g h = elim (step-Given piece b) [
    | inl (_, _, e) ↦ rw e (
        ground
          (arith, ap (λ r. r.0) e, hard_slices-covers limits positive local base (before b) b q l))
    | inr (inl (_, _, e)) ↦ rw e (ground (arith, ap (λ r. r.0) e))
    | inr (inr (inl (_, e))) ↦ rw e (
        hard_slices-covers limits positive local base piece b q l k (omega (arith, ap (λ r. r.0) e))
          h)
    | inr (inr (inr (inl (_, _, _, e)))) ↦ absurd (omega (arith, ap (λ r. r.0) e))
    | inr (inr (inr (inr (_, e)))) ↦ absurd (omega (arith, ap (λ r. r.0) e))
  ]

  -- The last pass covers the ink up to the last boundary.
  last-covers :
      (piece b q : ℕ)
      → b ≡ final
      → b ≤ length local
      → piece ≤ q
      → q < b
      → ink local q ≡ true
      → covers (step piece b).1 (base + q) ≡ true
  unfolding covers
  last-covers piece b q f l k g h = elim (step-Given piece b) [
    | inl (_, _, e) ↦
        rw e (ground (arith, hard_slices-covers limits positive local base (before b) b q l))
    | inr (inl (n, _, e)) ↦ absurd (n f)
    | inr (inr (inl (_, e))) ↦
        rw e (hard_slices-covers limits positive local base piece b q l k g h)
    | inr (inr (inr (inl (_, _, _, e)))) ↦ rw e (ground arith)
    | inr (inr (inr (inr (n, e)))) ↦ absurd (cc (n f, slice-not_blank local piece b q k g h))
  ]

  pub split_from-covers :
      (piece b q : ℕ) (rest : List ℕ)
      → last_of b rest ≡ final
      → All (λ c. c ≤ length local) (b ∷ rest)
      → piece ≤ q
      → q < final
      → ink local q ≡ true
      → covers (split_from limits local base boundaries piece (b ∷ rest)) (base + q) ≡ true
  unfolding split_from
  split_from-covers piece b q [] e l k g h = ground (
    arith,
    covers-append (step piece b).1 [] (base + q),
    last-covers piece b q e l.0 k (omega arith) h,
  )
  split_from-covers piece b q (c ∷ rest) e l k g h =
      let later = split_from limits local base boundaries (step piece b).0 (c ∷ rest) in
      elim (Bool-cases (ltb q (step piece b).0)) [
        | inl f ↦ ground (
          arith,
          covers-append (step piece b).1 later (base + q),
          step-covers piece b q l.0 k (ltb→lt q (step piece b).0 f) h,
        )
        | inr f ↦ ground (
          arith,
          covers-append (step piece b).1 later (base + q),
          split_from-covers (step piece b).0 c q rest e l.1 (ground arith) g h,
        )
      ]
