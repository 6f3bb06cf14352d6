-- ===== src/Artifacts/Chunking/Oversized.antt =====
-- artifacts/chunking.py: `_split_oversized` as a whole.
use editorial_team_v.Prelude.{
  ltb, leb, Bool-cases, length, All, Text, ℕ, ◌+◌, ◌-◌, ◌≤◌, ◌<◌, ◌≡◌, refl, sym, ap, ◌∙◌, subst,
  inl, inr, true, ◌&&◌, List, [], ◌∷◌, ◌++◌, map, arith,
}
use editorial_team_v.Prelude.Scan.{Span, slice, finditer}
use editorial_team_v.Artifacts.Chunking.Patterns.{lacks_ink, sentence_match}
use editorial_team_v.Artifacts.Chunking.Units.{
  Limits, last_of, split_from, keep_ink, split_oversized,
}
use editorial_team_v.Artifacts.Chunking.Spans.{
  ink, ink-slice, covers, Chain, Ascending, Ascending-weaken, length-slice, slice-not_blank,
}
use editorial_team_v.Artifacts.Chunking.Matches.{sentence_match-InText, matches_from-Chain}
use editorial_team_v.Artifacts.Chunking.Split.{split_from-covers}
use editorial_team_v.Artifacts.Chunking.Order.{Between, split_from-Ascending}

-- The boundaries of a text: they ascend, the first is not 0, and the last is the text's length.
stops-Between :
    (high a : ℕ) (ms : List Span)
    → a ≤ high
    → Chain high a ms
    → Between a high (map (λ m. m.stop) ms ++ (high ∷ []))
stops-Between high a [] k h = (k, omega arith, tt)
stops-Between high a (m ∷ ms) k h = (omega arith, h.2, stops-Between high m.stop ms h.2 h.3)

last_of-append : (a high : ℕ) (bs : List ℕ) → last_of a (bs ++ (high ∷ [])) ≡ high
last_of-append a high [] = refl
last_of-append a high (b ∷ bs) = last_of-append b high bs

pub keep_ink-Ascending :
    (t : Text) (high a b : ℕ) (us : List Span)
    → Ascending high a b us
    → Ascending high a b (keep_ink t us)
unfolding keep_ink
keep_ink-Ascending t high a b [] h = tt
keep_ink-Ascending t high a b (u ∷ us) h = elim (Bool-cases (lacks_ink (slice t u.start u.stop))) [
  | inl e ↦ rw e (
      Ascending-weaken high a b u.start u.stop (keep_ink t us) h.0 h.1
        (keep_ink-Ascending t high u.start u.stop us h.4))
  | inr e ↦ rw e (h.0, h.1, h.2, h.3, keep_ink-Ascending t high u.start u.stop us h.4)
]

pub keep_ink-covers :
    (t : Text) (p : ℕ) (us : List Span)
    → ink t p ≡ true
    → covers us p ≡ true
    → covers (keep_ink t us) p ≡ true
unfolding keep_ink covers
keep_ink-covers t p [] h k = cc
keep_ink-covers t p (u ∷ us) h k = elim (Bool-cases (leb u.start p && ltb p u.stop)) [
  | inl e ↦ ground (arith, slice-not_blank t u.start u.stop p (ground arith) (ground arith) h)
  | inr e ↦ ground (arith, keep_ink-covers t p us h)
]

All-of_Between : (low high : ℕ) (bs : List ℕ) → Between low high bs → All (λ b. b ≤ high) bs
All-of_Between low high [] h = tt
All-of_Between low high (b ∷ bs) h = (h.1, All-of_Between b high bs h.2)

abbrev Positive : ℕ → List ℕ → Type 0
Positive high bs =
    (b : ℕ) × (rest : List ℕ) × (bs ≡ b ∷ rest)
    × (0 < b)
    × Between b high (b ∷ rest)
    × (last_of b rest ≡ high)

-- The boundaries of a text after the first, which is 0.
boundaries-Positive :
    (high : ℕ) (ms : List Span)
    → 0 < high
    → Chain high 0 ms
    → Positive high (map (λ m. m.stop) ms ++ (high ∷ []))
boundaries-Positive high [] k h = (high, [], refl, k, (omega arith, omega arith, tt), refl)
boundaries-Positive high (m ∷ ms) k h = (
  m.stop,
  map (λ n. n.stop) ms ++ (high ∷ []),
  refl,
  omega arith,
  (omega arith, h.2, stops-Between high m.stop ms h.2 h.3),
  last_of-append m.stop high (map (λ n. n.stop) ms),
)

module _ (limits : Limits) (positive : 0 < limits.max_tokens) (t : Text) (p : Span)
    (proper : p.start < p.stop) (inside : p.stop ≤ length t) where
  abbrev local : Text
  local = slice t p.start p.stop

  abbrev ends : List ℕ
  ends = map (λ m. m.stop) (finditer sentence_match 0 local) ++ (length local ∷ [])

  local-length : length local ≡ p.stop - p.start
  local-length = length-slice t p.start p.stop inside

  ends-Positive : Positive (length local) ends
  ends-Positive =
      boundaries-Positive (length local) (finditer sentence_match 0 local)
        (omega (arith, local-length))
        (subst (λ a. Chain (length local) a (finditer sentence_match 0 local)) (omega arith)
          (matches_from-Chain sentence_match 0 0 0 (length local) local sentence_match-InText
            (omega arith)))

  pieces-Ascending :
      Ascending p.stop p.start p.start (split_from limits local p.start (0 ∷ ends) 0 ends)
  pieces-Ascending =
      let (b, rest, e, z, g, l) = ends-Positive in
      let high : p.start + last_of b rest ≡ p.stop = omega (arith, l, local-length) in
      let pieces = split_from limits local p.start (0 ∷ (b ∷ rest)) 0 (b ∷ rest) in
      rw e (
        Ascending-weaken p.stop p.start p.start (p.start + 0) (p.start + 0) pieces (omega arith)
          (omega arith)
          (subst (λ h. Ascending h (p.start + 0) (p.start + 0) pieces) high
            (split_from-Ascending limits positive local p.start (0 ∷ (b ∷ rest)) 0 b [] rest refl z
              tt (omega arith) (subst (λ h. Between b h (b ∷ rest)) (sym l) g) (omega (arith, l)))))

  pieces-covers :
      (q : ℕ)
      → q < length local
      → ink local q ≡ true
      → covers (split_from limits local p.start (0 ∷ ends) 0 ends) (p.start + q) ≡ true
  pieces-covers q k h =
      let (b, rest, e, z, g, l) = ends-Positive in
      rw e (
        split_from-covers limits positive local p.start (0 ∷ (b ∷ rest)) 0 b q rest refl
          (All-of_Between b (length local) (b ∷ rest) g) (omega arith) (omega (arith, l)) h)

  pub split_oversized-Ascending : Ascending p.stop p.start p.start (split_oversized limits t p)
  unfolding split_oversized
  split_oversized-Ascending =
      keep_ink-Ascending t p.stop p.start p.start
        (split_from limits local p.start (0 ∷ ends) 0 ends) pieces-Ascending

  pub split_oversized-covers :
      (q : ℕ)
      → p.start ≤ q
      → q < p.stop
      → ink t q ≡ true
      → covers (split_oversized limits t p) q ≡ true
  unfolding split_oversized
  split_oversized-covers q k l h =
      let e : p.start + (q - p.start) ≡ q = omega arith in
      keep_ink-covers t q (split_from limits local p.start (0 ∷ ends) 0 ends) h (
        subst (λ n. covers (split_from limits local p.start (0 ∷ ends) 0 ends) n ≡ true) e
          (pieces-covers (q - p.start) (omega (arith, local-length))
            (ink-slice t p.start p.stop (q - p.start) (omega arith) ∙ ap (ink t) e ∙ h)))
