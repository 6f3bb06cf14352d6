-- ===== src/Artifacts/Chunking/Packed.antt =====
-- artifacts/chunking.py: the chunks cover the ink of a text and lie in it.
use editorial_team_v.Prelude.{
  ltb, leb, ◌==◌, leb→le, Bool-cases, length, All, Text, ℕ, zero, suc, ◌+◌, ◌≤◌, ◌<◌, ◌≡◌, refl,
  ◌≢◌, inl, inr, true, ◌&&◌, List, [], ◌∷◌, arith,
}
use editorial_team_v.Prelude.Scan.{Span}
use editorial_team_v.Artifacts.Chunking.Patterns.{tokens}
use editorial_team_v.Artifacts.Chunking.Units.{Limits, units}
use editorial_team_v.Artifacts.Chunking.Pack.{
  unit_at, extend_end, overlap_from, next_start, pack_from, pack,
}
use editorial_team_v.Artifacts.Chunking.Chunks.{chunk_spans}
use editorial_team_v.Artifacts.Chunking.Spans.{ink, ink-length, covers, Ascending}
use editorial_team_v.Artifacts.Chunking.Cover.{units-Ascending, units-covers}

-- A position that is covered is covered by some unit.
covered_at :
    (us : List Span) (p : ℕ)
    → covers us p ≡ true
    → (i : ℕ) × (i < length us) × ((unit_at i us).start ≤ p) × (p < (unit_at i us).stop)
unfolding covers unit_at
covered_at [] p h = cc
covered_at (u ∷ us) p h = elim (Bool-cases (leb u.start p && ltb p u.stop)) [
  | inl e ↦ (0, omega arith, ground arith, ground arith)
  | inr e ↦ let (i, k, l, g) = covered_at us p (ground arith) in (suc i, omega arith, l, g)
]

-- The bounds of a unit, by its place.
unit_at-bounds :
    (high a b i : ℕ) (us : List Span)
    → Ascending high a b us
    → i < length us
    → (a ≤ (unit_at i us).start)
      × (b ≤ (unit_at i us).stop)
      × ((unit_at i us).start < (unit_at i us).stop)
      × ((unit_at i us).stop ≤ high)
unfolding unit_at
unit_at-bounds high a b i [] h k = absurd (omega arith)
unit_at-bounds high a b zero (u ∷ us) h k = (h.0, h.1, h.2, h.3)
unit_at-bounds high a b (suc i) (u ∷ us) h k =
    let r = unit_at-bounds high u.start u.stop i us h.4 (omega arith) in
    (omega arith, omega arith, r.2, r.3)

unit_at-order :
    (high a b i j : ℕ) (us : List Span)
    → Ascending high a b us
    → i ≤ j
    → j < length us
    → ((unit_at i us).start ≤ (unit_at j us).start) × ((unit_at i us).stop ≤ (unit_at j us).stop)
unfolding unit_at
unit_at-order high a b i j [] h k l = absurd (omega arith)
unit_at-order high a b zero zero (u ∷ us) h k l = (omega arith, omega arith)
unit_at-order high a b zero (suc j) (u ∷ us) h k l =
    let r = unit_at-bounds high u.start u.stop j us h.4 (omega arith) in (r.0, r.1)
unit_at-order high a b (suc i) zero (u ∷ us) h k l = absurd (omega arith)
unit_at-order high a b (suc i) (suc j) (u ∷ us) h k l =
    unit_at-order high u.start u.stop i j us h.4 (omega arith) (omega arith)

-- A span in a text of the given length.
abbrev pub Proper : ℕ → Span → Type 0
Proper high u = (u.start < u.stop) × (u.stop ≤ high)

module _ (limits : Limits) (t : Text) (us : List Span) where
  extend_end-bounds :
      (fuel first e : ℕ)
      → e < length us
      → (e ≤ extend_end limits t us fuel first e)
        × (extend_end limits t us fuel first e < length us)
  unfolding extend_end
  extend_end-bounds zero first e h = (omega arith, h)
  extend_end-bounds (suc fuel) first e h = elim (Bool-cases (leb (length us) (suc e))) [
    | inl k ↦ ground arith
    | inr k ↦ ground (arith, extend_end-bounds fuel first (suc e))
  ]

  overlap_from-le : (first e count o : ℕ) → (overlap_from limits t us first e count o).0 ≤ o
  unfolding overlap_from
  overlap_from-le first e count zero = omega arith
  overlap_from-le first e count (suc o) = ground (
    arith,
    overlap_from-le first e (editorial_team_v.Artifacts.Chunking.Pack.size_of limits t us o e) o,
  )

  next_start-bounds :
      (first e : ℕ)
      → first ≤ e
      → (first < next_start limits t us first e) × (next_start limits t us first e ≤ suc e)
  unfolding next_start
  next_start-bounds first e h = ground (arith, overlap_from-le first e 0 (suc e))

  module _ (high : ℕ) (ascending : Ascending high 0 0 us) where
    pack_from-covers :
        (fuel first i p : ℕ)
        → length us ≤ fuel + first
        → first ≤ i
        → i < length us
        → (unit_at i us).start ≤ p
        → p < (unit_at i us).stop
        → covers (pack_from limits t us fuel first) p ≡ true
    unfolding pack_from covers
    pack_from-covers zero first i p f k l g h = absurd (omega arith)
    pack_from-covers (suc fuel) first i p f k l g h =
        let e = extend_end limits t us (length us) first first in
        let b = extend_end-bounds (length us) first first (omega arith) in
        let n = next_start-bounds first e b.0 in
        let o = unit_at-order high 0 0 first i us ascending k l in
        elim (Bool-cases (leb i e)) [
          | inl w ↦ ground (arith, unit_at-order high 0 0 i e us ascending (leb→le i e w) b.1)
          | inr w ↦ ground (
            arith,
            pack_from-covers fuel (next_start limits t us first e) i p (omega arith) (ground arith)
                l g h,
          )
        ]

    pack_from-Proper : (fuel first : ℕ) → All (Proper high) (pack_from limits t us fuel first)
    unfolding pack_from
    pack_from-Proper zero first = tt
    pack_from-Proper (suc fuel) first = elim (Bool-cases (leb (length us) first)) [
      | inl k ↦ rw k tt
      | inr k ↦
          let e = extend_end limits t us (length us) first first in
          let b = extend_end-bounds (length us) first first (ground arith) in
          let o = unit_at-order high 0 0 first e us ascending b.0 b.1 in
          let u = unit_at-bounds high 0 0 first us ascending (ground arith) in
          let v = unit_at-bounds high 0 0 e us ascending b.1 in
          elim (Bool-cases (suc e == length us)) [
            | inl m ↦ rw (k, m) ((omega arith, omega arith), tt)
            | inr m ↦
                rw (k, m)
                  (
                    (omega arith, omega arith),
                    pack_from-Proper fuel (next_start limits t us first e),
                  )
          ]
    ]

not_empty-length : (t : Text) → t ≢ [] → 0 < length t
not_empty-length [] n = absurd (n refl)
not_empty-length (c ∷ t) n = omega arith

pub chunk_spans-covers :
    (limits : Limits) (t : Text) (p : ℕ)
    → 0 < limits.max_tokens
    → ink t p ≡ true
    → covers (chunk_spans limits t) p ≡ true
unfolding chunk_spans pack covers
chunk_spans-covers limits t p z h =
    let us = units limits t in
    let (i, k, l, g) = covered_at us p (units-covers limits z t p h) in
    ground (
      arith,
      ink-length t p h,
      pack_from-covers limits t us (length t) (units-Ascending limits z t) (length us) 0 i p
          (omega arith) (omega arith) k l g,
    )

pub chunk_spans-Proper :
    (limits : Limits) (t : Text)
    → 0 < limits.max_tokens
    → t ≢ []
    → All (Proper (length t)) (chunk_spans limits t)
unfolding chunk_spans pack
chunk_spans-Proper limits t z n = elim (Bool-cases (leb (tokens t) limits.max_tokens)) [
  | inl e ↦ rw e ((not_empty-length t n, omega arith), tt)
  | inr e ↦ rw e (
      pack_from-Proper limits t (units limits t) (length t) (units-Ascending limits z t)
        (length (units limits t)) 0)
]
