-- ===== src/Artifacts/Chunking/Spans.antt =====
-- Spans of a text that ascend, the positions that they cover, and the ink in a slice.
use editorial_team_v.Prelude.{
  ltb, leb, ltb→lt, Bool-cases, length, take, drop, all, length-take, length-drop, Text, is_space,
  lstrip, rstrip, strip, ℕ, zero, suc, ◌+◌, ◌-◌, ◌≤◌, ◌<◌, ◌≡◌, refl, ap, ◌∙◌, inl, inr, Bool, true,
  false, ◌&&◌, ◌||◌, not, List, [], ◌∷◌, ◌++◌, arith, strip-blank,
}
use editorial_team_v.Prelude.Scan.{Span, slice}
use editorial_team_v.Artifacts.Chunking.Patterns.{lacks_ink}

-- Whether a character that is not white space stands at a position.
unfoldable pub ink : Text → ℕ → Bool
ink [] p = false
ink (c ∷ s) zero = not (is_space c)
ink (c ∷ s) (suc p) = ink s p

unfoldable pub covers : List Span → ℕ → Bool
covers [] p = false
covers (u ∷ us) p = (leb u.start p && ltb p u.stop) || covers us p

-- Spans that are not empty and end by `high`, whose beginnings and ends grow weakly, from `a` and
-- from `b` on.
abbrev pub Ascending : ℕ → ℕ → ℕ → List Span → Type 0
Ascending high a b [] = Unit
Ascending high a b (u ∷ us) =
    (a ≤ u.start)
    × (b ≤ u.stop)
    × (u.start < u.stop)
    × (u.stop ≤ high)
    × Ascending high u.start u.stop us

-- Spans as above of which none overlaps another.
abbrev pub Chain : ℕ → ℕ → List Span → Type 0
Chain high a [] = Unit
Chain high a (u ∷ us) = (a ≤ u.start) × (u.start < u.stop) × (u.stop ≤ high) × Chain high u.stop us

pub Chain-weaken : (high a b : ℕ) (us : List Span) → a ≤ b → Chain high b us → Chain high a us
Chain-weaken high a b [] l h = tt
Chain-weaken high a b (u ∷ us) l h = (omega arith, h.1, h.2, h.3)

pub Ascending-weaken :
    (high a b c d : ℕ) (us : List Span)
    → a ≤ c
    → b ≤ d
    → Ascending high c d us
    → Ascending high a b us
Ascending-weaken high a b c d [] k l h = tt
Ascending-weaken high a b c d (u ∷ us) k l h = (omega arith, omega arith, h.2, h.3, h.4)

pub Chain-Ascending :
    (high a b c : ℕ) (us : List Span) → a ≤ c → b ≤ c → Chain high c us → Ascending high a b us
Chain-Ascending high a b c [] k l h = tt
Chain-Ascending high a b c (u ∷ us) k l h = (
  omega arith,
  omega arith,
  h.1,
  h.2,
  Chain-Ascending high u.start u.stop u.stop us (omega arith) (omega arith) h.3,
)

pub Ascending-append :
    (high middle a b : ℕ) (us vs : List Span)
    → a ≤ middle
    → b ≤ middle
    → middle ≤ high
    → Ascending middle a b us
    → Ascending high middle middle vs
    → Ascending high a b (us ++ vs)
Ascending-append high middle a b [] vs k l m g h = Ascending-weaken high a b middle middle vs k l h
Ascending-append high middle a b (u ∷ us) vs k l m g h = (
  g.0,
  g.1,
  g.2,
  omega arith,
  Ascending-append high middle u.start u.stop us vs (omega arith) g.3 m g.4 h,
)

pub covers-append : (us vs : List Span) (p : ℕ) → covers (us ++ vs) p ≡ (covers us p || covers vs p)
unfolding covers
covers-append [] vs p = refl
covers-append (u ∷ us) vs p = ground (arith, covers-append us vs p)

pub covers-Chain :
    (high a p : ℕ) (us : List Span) → Chain high a us → covers us p ≡ true → (a ≤ p) × (p < high)
unfolding covers
covers-Chain high a p [] h k = cc
covers-Chain high a p (u ∷ us) h k = ground (arith, covers-Chain high u.stop p us h.3)

ink-drop : (t : Text) (a q : ℕ) → ink (drop a t) q ≡ ink t (a + q)
unfolding ink
ink-drop t zero q = ap (ink t) (omega arith)
ink-drop [] (suc a) q = refl
ink-drop (c ∷ t) (suc a) q =
    let e : suc (a + q) ≡ suc a + q = omega arith in ink-drop t a q ∙ ap (ink (c ∷ t)) e

ink-take : (t : Text) (n q : ℕ) → q < n → ink (take n t) q ≡ ink t q
unfolding ink
ink-take t zero q h = absurd (omega arith)
ink-take [] (suc n) q h = refl
ink-take (c ∷ t) (suc n) zero h = refl
ink-take (c ∷ t) (suc n) (suc q) h = ink-take t n q (omega arith)

-- The ink of a slice is the ink of the text.
pub ink-slice : (t : Text) (a b q : ℕ) → a + q < b → ink (slice t a b) q ≡ ink t (a + q)
ink-slice t a b q h = ink-take (drop a t) (b - a) q (omega arith) ∙ ink-drop t a q

ink-not_all : (t : Text) (p : ℕ) → ink t p ≡ true → all is_space t ≡ false
unfolding ink
ink-not_all [] p h = cc
ink-not_all (c ∷ t) zero h = ground arith
ink-not_all (c ∷ t) (suc p) h = ground (arith, ink-not_all t p h)

pub ink-not_blank : (t : Text) (p : ℕ) → ink t p ≡ true → lacks_ink t ≡ false
ink-not_blank t p h = strip-blank t ∙ ink-not_all t p h

-- A slice with ink in it is not blank.
pub slice-not_blank :
    (t : Text) (a b p : ℕ) → a ≤ p → p < b → ink t p ≡ true → lacks_ink (slice t a b) ≡ false
slice-not_blank t a b p k l h =
    let e : a + (p - a) ≡ p = omega arith in
    ink-not_blank (slice t a b) (p - a) (ink-slice t a b (p - a) (omega arith) ∙ ap (ink t) e ∙ h)

pub ink-length : (t : Text) (p : ℕ) → ink t p ≡ true → p < length t
unfolding ink
ink-length [] p h = cc
ink-length (c ∷ t) zero h = omega arith
ink-length (c ∷ t) (suc p) h = omega (arith, ink-length t p h)

pub length-slice : (t : Text) (a b : ℕ) → b ≤ length t → length (slice t a b) ≡ b - a
length-slice t a b h = omega (arith, length-take (b - a) (drop a t), length-drop a t)

-- A slice that is not blank is not empty.
pub not_blank-lt : (t : Text) (a b : ℕ) → lacks_ink (slice t a b) ≡ false → a < b
unfolding strip lstrip rstrip
not_blank-lt t a b h = elim (Bool-cases (ltb a b)) [
  | inl e ↦ ltb→lt a b e
  | inr e ↦
      let z : b - a ≡ 0 = ground arith in
      absurd (ground (arith, ap (λ n. lacks_ink (take n (drop a t))) z))
]

pub uncovered-before :
    (high a p : ℕ) (us : List Span) → Chain high a us → p < a → covers us p ≡ false
unfolding covers
uncovered-before high a p [] h k = refl
uncovered-before high a p (u ∷ us) h k =
    ground (arith, uncovered-before high u.stop p us h.3 (omega arith))
