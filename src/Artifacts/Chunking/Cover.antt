-- ===== src/Artifacts/Chunking/Cover.antt =====
-- artifacts/chunking.py: the units of a text ascend and cover its ink.
use editorial_team_v.Prelude.{
  ltb, leb, ltb→lt, Bool-cases, length, Text, ℕ, ◌+◌, ◌≤◌, ◌<◌, ◌≡◌, subst, inl, inr, true, false,
  List, [], ◌∷◌, arith,
}
use editorial_team_v.Prelude.Scan.{Span, slice, finditer}
use editorial_team_v.Artifacts.Chunking.Patterns.{lacks_ink, break_match, tokens}
use editorial_team_v.Artifacts.Chunking.Units.{
  Limits, paragraphs_from, paragraphs, split_oversized, expand, joins, group, units,
}
use editorial_team_v.Artifacts.Chunking.Spans.{
  ink, ink-length, covers, covers-append, Chain, Chain-weaken, Ascending, Ascending-weaken,
  Ascending-append, slice-not_blank, not_blank-lt,
}
use editorial_team_v.Artifacts.Chunking.Matches.{
  break_match-InText, break_match-OfSpace, matches_from-Chain, matches_from-OfSpace,
}
use editorial_team_v.Artifacts.Chunking.Oversized.{
  split_oversized-Ascending, split_oversized-covers,
}

paragraphs_from-Chain :
    (t : Text) (start : ℕ) (ms : List Span)
    → Chain (length t) start ms
    → Chain (length t) start (paragraphs_from t start ms)
unfolding paragraphs_from
paragraphs_from-Chain t start [] h = elim (Bool-cases (lacks_ink (slice t start (length t)))) [
  | inl e ↦ rw e tt
  | inr e ↦ rw e (omega arith, not_blank-lt t start (length t) e, omega arith, tt)
]
paragraphs_from-Chain t start (m ∷ ms) h = elim (Bool-cases (lacks_ink (slice t start m.start))) [
  | inl e ↦ rw e (
      Chain-weaken (length t) start m.stop (paragraphs_from t m.stop ms) (omega arith)
        (paragraphs_from-Chain t m.stop ms h.3))
  | inr e ↦ rw e (
    omega arith,
    not_blank-lt t start m.start e,
    omega arith,
    Chain-weaken (length t) m.start m.stop (paragraphs_from t m.stop ms) (omega arith)
        (paragraphs_from-Chain t m.stop ms h.3),
  )
]

paragraphs_from-covers :
    (t : Text) (start p : ℕ) (ms : List Span)
    → Chain (length t) start ms
    → start ≤ p
    → ink t p ≡ true
    → covers ms p ≡ false
    → covers (paragraphs_from t start ms) p ≡ true
unfolding paragraphs_from covers
paragraphs_from-covers t start p [] h k i n =
    ground (arith, ink-length t p i, slice-not_blank t start (length t) p k (ink-length t p i) i)
paragraphs_from-covers t start p (m ∷ ms) h k i n = elim (Bool-cases (ltb p m.start)) [
  | inl e ↦ ground (arith, slice-not_blank t start m.start p k (ltb→lt p m.start e) i)
  | inr e ↦ ground (arith, paragraphs_from-covers t m.stop p ms h.3 (ground arith) i (ground arith))
]

breaks-Chain : (t : Text) → Chain (length t) 0 (finditer break_match 0 t)
breaks-Chain t =
    Chain-weaken (length t) 0 (0 + 0) (finditer break_match 0 t) (omega arith)
      (matches_from-Chain break_match 0 0 0 (length t) t break_match-InText (omega arith))

paragraphs-Chain : (t : Text) → Chain (length t) 0 (paragraphs t)
unfolding paragraphs
paragraphs-Chain t = paragraphs_from-Chain t 0 (finditer break_match 0 t) (breaks-Chain t)

paragraphs-covers : (t : Text) (p : ℕ) → ink t p ≡ true → covers (paragraphs t) p ≡ true
unfolding paragraphs
paragraphs-covers t p h =
    let e : 0 + p ≡ p = omega arith in
    paragraphs_from-covers t 0 p (finditer break_match 0 t) (breaks-Chain t) (omega arith) h (
      subst (λ n. covers (finditer break_match 0 t) n ≡ false) e
        (matches_from-OfSpace break_match 0 0 0 p t break_match-InText break_match-OfSpace h))

module _ (limits : Limits) (positive : 0 < limits.max_tokens) (t : Text) where
  expand-Ascending :
      (a : ℕ) (ps : List Span)
      → a ≤ length t
      → Chain (length t) a ps
      → Ascending (length t) a a (expand limits t ps)
  unfolding expand
  expand-Ascending a [] k h = tt
  expand-Ascending a (p ∷ ps) k h =
      let later = expand-Ascending p.stop ps h.2 h.3 in
      elim (Bool-cases (leb (tokens (slice t p.start p.stop)) limits.max_tokens)) [
        | inl e ↦ rw e (
          h.0,
          omega arith,
          h.1,
          h.2,
          Ascending-weaken (length t) p.start p.stop p.stop p.stop (expand limits t ps)
              (omega arith) (omega arith) later,
        )
        | inr e ↦ rw e (
            Ascending-append (length t) p.stop a a (split_oversized limits t p) (expand limits t ps)
              (omega arith) (omega arith) h.2
              (Ascending-weaken p.stop a a p.start p.start (split_oversized limits t p) h.0 h.0
                (split_oversized-Ascending limits positive t p h.1 h.2))
              later)
      ]

  expand-covers :
      (a q : ℕ) (ps : List Span)
      → Chain (length t) a ps
      → ink t q ≡ true
      → covers ps q ≡ true
      → covers (expand limits t ps) q ≡ true
  unfolding expand covers
  expand-covers a q [] h i c = cc
  expand-covers a q (p ∷ ps) h i c = ground (
    arith,
    covers-append (split_oversized limits t p) (expand limits t ps) q,
    expand-covers p.stop q ps h.3 i,
    split_oversized-covers limits positive t p h.1 h.2 q,
  )

  group-Ascending :
      (high a b : ℕ) (us : List Span)
      → Ascending high a b us
      → Ascending high a b (group limits t us)
  unfolding group
  group-Ascending high a b [] h = tt
  group-Ascending high a b (u ∷ []) h = h
  group-Ascending high a b (u ∷ v ∷ us) h = elim (Bool-cases (joins limits t u v)) [
    | inl e ↦
        rw (e, group)
          (
            h.0,
            omega arith,
            omega arith,
            h.4.3,
            group-Ascending high u.start v.stop us
                (Ascending-weaken high u.start v.stop v.start v.stop us h.4.0 (omega arith) h.4.4),
          )
    | inr e ↦ rw (e, group) (h.0, h.1, h.2, h.3, group-Ascending high u.start u.stop (v ∷ us) h.4)
  ]

  group-covers :
      (high a b q : ℕ) (us : List Span)
      → Ascending high a b us
      → covers us q ≡ true
      → covers (group limits t us) q ≡ true
  unfolding group covers
  group-covers high a b q [] h c = cc
  group-covers high a b q (u ∷ []) h c = c
  group-covers high a b q (u ∷ v ∷ us) h c = elim (Bool-cases (joins limits t u v)) [
    | inl e ↦ rw (e, group) (ground (arith, group-covers high v.start v.stop q us h.4.4))
    | inr e ↦ rw (e, group) (ground (arith, group-covers high u.start u.stop q (v ∷ us) h.4))
  ]

  -- The units of a text lie in it, in order.
  pub units-Ascending : Ascending (length t) 0 0 (units limits t)
  unfolding units
  units-Ascending =
      group-Ascending (length t) 0 0 (expand limits t (paragraphs t))
        (expand-Ascending 0 (paragraphs t) (omega arith) (paragraphs-Chain t))

  -- Every character of ink is in a unit.
  pub units-covers : (q : ℕ) → ink t q ≡ true → covers (units limits t) q ≡ true
  unfolding units
  units-covers q h =
      group-covers (length t) 0 0 q (expand limits t (paragraphs t))
        (expand-Ascending 0 (paragraphs t) (omega arith) (paragraphs-Chain t))
        (expand-covers 0 q (paragraphs t) (paragraphs-Chain t) h (paragraphs-covers t q h))
