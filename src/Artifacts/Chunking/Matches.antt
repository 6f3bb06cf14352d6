-- ===== src/Artifacts/Chunking/Matches.antt =====
-- What `finditer` finds: matches that follow one another in the text.
use editorial_team_v.Prelude.{
  ltb, ◌==◌, Bool-cases, length, drop, length-drop, Text, is_space, ℕ, zero, suc, ◌+◌, ◌-◌, ◌≤◌,
  ◌<◌, ◌≡◌, refl, subst, ◌≢◌, inl, inr, Bool, true, false, ◌&&◌, not, [], ◌∷◌, arith,
}
use editorial_team_v.Prelude.Scan.{run_length, matches_from}
use editorial_team_v.Artifacts.Chunking.Patterns.{
  is_closer, token_match, sentence_match, breaks, break_match,
}
use editorial_team_v.Artifacts.Chunking.Spans.{ink, covers, Chain, Chain-weaken, uncovered-before}

-- A matcher takes only what there is.
abbrev pub InText : (ℕ → Text → ℕ) → Type 0
InText m = (before : ℕ) (s : Text) → m before s ≤ length s

run_length-le : (p : ℕ → Bool) (s : Text) → run_length p s ≤ length s
unfolding run_length
run_length-le p [] = omega arith
run_length-le p (c ∷ s) = ground (arith, run_length-le p s)

pub token_match-InText : InText token_match
unfolding token_match
token_match-InText before s = run_length-le (λ c. not (is_space c)) s

pub sentence_match-InText : InText sentence_match
unfolding sentence_match
sentence_match-InText before s = ground (
  arith,
  run_length-le is_closer s,
  run_length-le is_space (drop (run_length is_closer s) s),
  length-drop (run_length is_closer s) s,
)

breaks-le : (inside : Bool) (s : Text) → (breaks inside s).1 ≤ length s
unfolding breaks
breaks-le inside [] = omega arith
breaks-le inside (c ∷ s) = ground (arith, breaks-le true s)

pub break_match-InText : InText break_match
unfolding break_match
break_match-InText before s = ground (arith, breaks-le false s)

pub matches_from-Chain :
    (m : ℕ → Text → ℕ) (before position skip high : ℕ) (s : Text)
    → InText m
    → position + length s ≤ high
    → Chain high (position + skip) (matches_from m before position skip s)
unfolding matches_from
matches_from-Chain m before position skip high [] f h = tt
matches_from-Chain m before position (suc skip) high (c ∷ s) f h =
    let e : suc position + skip ≡ position + suc skip = omega arith in
    subst (λ k. Chain high k (matches_from m c (suc position) skip s)) e
      (matches_from-Chain m c (suc position) skip high s f (omega arith))
matches_from-Chain m before position zero high (c ∷ s) f h =
    elim (Bool-cases (m before (c ∷ s) == 0)) [
      | inl e ↦ rw e (
          Chain-weaken high (position + 0) (suc position + (m before (c ∷ s) - 1))
            (matches_from m c (suc position) (m before (c ∷ s) - 1) s) (omega arith)
            (matches_from-Chain m c (suc position) (m before (c ∷ s) - 1) high s f (omega arith)))
      | inr e ↦
          let z : m before (c ∷ s) ≢ 0 = ground arith in
          let k : suc position + (m before (c ∷ s) - 1) ≡ position + m before (c ∷ s) =
            omega arith in
          rw e (
            omega arith,
            omega arith,
            omega (arith, f before (c ∷ s)),
            subst (λ k. Chain high k (matches_from m c (suc position) (m before (c ∷ s) - 1) s)) k
                (matches_from-Chain m c (suc position) (m before (c ∷ s) - 1) high s f
                  (omega arith)),
          )
    ]

-- A matcher takes white space only.
abbrev pub OfSpace : (ℕ → Text → ℕ) → Type 0
OfSpace m = (before : ℕ) (s : Text) (q : ℕ) → q < m before s → ink s q ≡ false

breaks-OfSpace : (inside : Bool) (s : Text) (q : ℕ) → q < (breaks inside s).1 → ink s q ≡ false
unfolding breaks ink is_space
breaks-OfSpace inside [] q h = absurd (omega arith)
breaks-OfSpace inside (c ∷ s) zero h = ground arith
breaks-OfSpace inside (c ∷ s) (suc q) h = ground (arith, breaks-OfSpace true s q)

pub break_match-OfSpace : OfSpace break_match
unfolding break_match
break_match-OfSpace before s q h = ground (arith, breaks-OfSpace false s q)

-- No match of such a pattern covers ink.
pub matches_from-OfSpace :
    (m : ℕ → Text → ℕ) (before position skip q : ℕ) (s : Text)
    → InText m
    → OfSpace m
    → ink s q ≡ true
    → covers (matches_from m before position skip s) (position + q) ≡ false
unfolding matches_from covers ink
matches_from-OfSpace m before position skip q [] f g h = refl
matches_from-OfSpace m before position (suc skip) zero (c ∷ s) f g h =
    uncovered-before (suc position + length s) (suc position + skip) (position + 0)
      (matches_from m c (suc position) skip s)
      (matches_from-Chain m c (suc position) skip (suc position + length s) s f (omega arith))
      (omega arith)
matches_from-OfSpace m before position (suc skip) (suc q) (c ∷ s) f g h =
    ground (arith, matches_from-OfSpace m c (suc position) skip q s f g h)
matches_from-OfSpace m before position zero zero (c ∷ s) f g h = ground (
  arith,
  g before (c ∷ s) 0,
  uncovered-before (suc position + length s) (suc position + (m before (c ∷ s) - 1)) (position + 0)
      (matches_from m c (suc position) (m before (c ∷ s) - 1) s)
      (matches_from-Chain m c (suc position) (m before (c ∷ s) - 1) (suc position + length s) s f
        (omega arith))
      (omega arith),
)
matches_from-OfSpace m before position zero (suc q) (c ∷ s) f g h = ground (
  arith,
  g before (c ∷ s) (suc q),
  matches_from-OfSpace m c (suc position) (m before (c ∷ s) - 1) q s f g h,
)

-- Every character of ink is in a token.
pub matches_from-covers :
    (before position skip q : ℕ) (s : Text)
    → ink s q ≡ true
    → skip ≤ q
    → covers (matches_from token_match before position skip s) (position + q) ≡ true
unfolding matches_from covers ink token_match run_length
matches_from-covers before position skip q [] h k = cc
matches_from-covers before position (suc skip) zero (c ∷ s) h k = absurd (omega arith)
matches_from-covers before position (suc skip) (suc q) (c ∷ s) h k =
    ground (arith, matches_from-covers c (suc position) skip q s h (omega arith))
matches_from-covers before position zero zero (c ∷ s) h k = ground arith
matches_from-covers before position zero (suc q) (c ∷ s) h k =
    elim (Bool-cases (ltb q (run_length (λ d. not (is_space d)) s) && not (is_space c))) [
      | inl e ↦ ground arith
      | inr e ↦
          ground
            (arith, matches_from-covers c (suc position) (token_match before (c ∷ s) - 1) q s h)
    ]
