-- ===== src/Artifacts/Chunking/Hard.antt =====
-- artifacts/chunking.py: the hard slices of a piece that is too long.
use editorial_team_v.Prelude.{
  length, take, drop, take-append-drop, length-drop, Text, ℕ, zero, suc, ◌+◌, ◌-◌, ◌≤◌, ◌<◌, ◌≡◌,
  refl, sym, ap, ◌∙◌, subst, ◌⊎◌, inl, inr, true, ◌||◌, List, [], ◌∷◌, arith,
}
use editorial_team_v.Prelude.Scan.{Span, slice, finditer}
use editorial_team_v.Artifacts.Chunking.Patterns.{token_match}
use editorial_team_v.Artifacts.Chunking.Units.{Limits, last_stop, hard_batches, hard_slices}
use editorial_team_v.Artifacts.Chunking.Spans.{
  ink, ink-slice, covers, covers-append, covers-Chain, Chain, Chain-weaken, Ascending,
  Ascending-weaken, length-slice,
}
use editorial_team_v.Artifacts.Chunking.Matches.{
  token_match-InText, matches_from-Chain, matches_from-covers,
}

last_stop-bounds :
    (high a : ℕ) (ms : List Span)
    → a ≤ high
    → Chain high a ms
    → (a ≤ last_stop a ms) × (last_stop a ms ≤ high)
last_stop-bounds high a [] k h = (omega arith, k)
last_stop-bounds high a (m ∷ ms) k h =
    let (l, g) = last_stop-bounds high m.stop ms h.2 h.3 in (omega arith, g)

Chain-take : (high a k : ℕ) (ms : List Span) → Chain high a ms → Chain high a (take k ms)
Chain-take high a zero ms h = tt
Chain-take high a (suc k) [] h = tt
Chain-take high a (suc k) (m ∷ ms) h = (h.0, h.1, h.2, Chain-take high m.stop k ms h.3)

-- What is left of a chain begins where the last of those before it ends.
Chain-drop :
    (high a k : ℕ) (ms : List Span)
    → Chain high a ms
    → Chain high (last_stop a (take k ms)) (drop k ms)
Chain-drop high a zero ms h = h
Chain-drop high a (suc k) [] h = tt
Chain-drop high a (suc k) (m ∷ ms) h = Chain-drop high m.stop k ms h.3

last_stop-take :
    (high a k : ℕ) (m : Span) (ms : List Span)
    → 0 < k
    → Chain high a (m ∷ ms)
    → (a < last_stop a (take k (m ∷ ms))) × (last_stop a (take k (m ∷ ms)) ≤ high)
last_stop-take high a zero m ms z h = absurd (omega arith)
last_stop-take high a (suc k) m ms z h =
    let (l, g) = last_stop-bounds high m.stop (take k ms) h.2 (Chain-take high m.stop k ms h.3) in
    (omega arith, g)

covers-last_stop :
    (high a p : ℕ) (ms : List Span) → Chain high a ms → covers ms p ≡ true → p < last_stop a ms
unfolding covers
covers-last_stop high a p [] h k = cc
covers-last_stop high a p (m ∷ ms) h k =
    let (l, g) = last_stop-bounds high m.stop ms h.2 h.3 in
    ground (arith, covers-last_stop high m.stop p ms h.3)

covers-take-drop :
    (k p : ℕ) (ms : List Span) → covers ms p ≡ (covers (take k ms) p || covers (drop k ms) p)
covers-take-drop k p ms =
    ap (λ us. covers us p) (sym (take-append-drop k ms)) ∙ covers-append (take k ms) (drop k ms) p

left-cases : (ms : List Span) → (ms ≡ []) ⊎ ((n : Span) × (ns : List Span) × (ms ≡ n ∷ ns))
left-cases [] = inl refl
left-cases (n ∷ ns) = inr (n, ns, refl)

module _ (limits : Limits) (positive : 0 < limits.max_tokens) where
  hard_batches-covers :
      (fuel base start stop p : ℕ) (ms : List Span)
      → length ms ≤ fuel
      → Chain stop start ms
      → covers ms p ≡ true
      → covers (hard_batches limits fuel base start stop ms) (base + p) ≡ true
  unfolding hard_batches covers
  hard_batches-covers fuel base start stop p [] l h k = cc
  hard_batches-covers zero base start stop p (m ∷ ms) l h k = absurd (omega arith)
  hard_batches-covers (suc fuel) base start stop p (m ∷ ms) l h k =
      elim (left-cases (drop limits.max_tokens (m ∷ ms))) [
        | inl e ↦ rw (e, hard_batches) (ground (arith, covers-Chain stop start p (m ∷ ms) h k))
        | inr (n, ns, e) ↦
            let d : Chain stop (last_stop start (take limits.max_tokens (m ∷ ms))) (n ∷ ns) =
              subst (Chain stop (last_stop start (take limits.max_tokens (m ∷ ms)))) e
                (Chain-drop stop start limits.max_tokens (m ∷ ms) h) in
            let c : Chain stop start (take limits.max_tokens (m ∷ ms)) =
              Chain-take stop start limits.max_tokens (m ∷ ms) h in
            let s : length (n ∷ ns) ≤ fuel =
              omega (arith, length-drop limits.max_tokens (m ∷ ms), ap length e) in
            rw (e, hard_batches)
              (ground (
                arith,
                ap (λ us. covers us p) e,
                covers-take-drop limits.max_tokens p (m ∷ ms),
                covers-Chain stop start p (take limits.max_tokens (m ∷ ms)) c,
                covers-last_stop stop start p (take limits.max_tokens (m ∷ ms)) c,
                hard_batches-covers fuel base n.start stop p (n ∷ ns) s
                    (omega arith, d.1, d.2, d.3),
              ))
      ]

  hard_batches-Ascending :
      (fuel base start stop : ℕ) (ms : List Span)
      → length ms ≤ fuel
      → Chain stop start ms
      → Ascending
          (base + stop)
          (base + start)
          (base + start)
          (hard_batches limits fuel base start stop ms)
  unfolding hard_batches
  hard_batches-Ascending fuel base start stop [] l h = tt
  hard_batches-Ascending zero base start stop (m ∷ ms) l h = absurd (omega arith)
  hard_batches-Ascending (suc fuel) base start stop (m ∷ ms) l h =
      elim (left-cases (drop limits.max_tokens (m ∷ ms))) [
        | inl e ↦ rw (e, hard_batches) (omega arith, omega arith, omega arith, omega arith, tt)
        | inr (n, ns, e) ↦
            let d : Chain stop (last_stop start (take limits.max_tokens (m ∷ ms))) (n ∷ ns) =
              subst (Chain stop (last_stop start (take limits.max_tokens (m ∷ ms)))) e
                (Chain-drop stop start limits.max_tokens (m ∷ ms) h) in
            let (b, g) = last_stop-take stop start limits.max_tokens m ms positive h in
            let s : length (n ∷ ns) ≤ fuel =
              omega (arith, length-drop limits.max_tokens (m ∷ ms), ap length e) in
            let rest =
              hard_batches-Ascending fuel base n.start stop (n ∷ ns) s
                (omega arith, d.1, d.2, d.3) in
            rw (e, hard_batches)
              (
                omega arith,
                omega arith,
                omega arith,
                omega arith,
                Ascending-weaken (base + stop) (base + start)
                    (base + last_stop start (take limits.max_tokens (m ∷ ms))) (base + n.start)
                    (base + n.start) (hard_batches limits fuel base n.start stop (n ∷ ns))
                    (omega arith) (omega arith) rest,
              )
      ]

  tokens-Chain :
      (local : Text) (start stop : ℕ)
      → start ≤ stop
      → stop ≤ length local
      → Chain stop start (finditer token_match start (slice local start stop))
  tokens-Chain local start stop k l =
      Chain-weaken stop start (start + 0) (finditer token_match start (slice local start stop))
        (omega arith)
        (matches_from-Chain token_match 0 start 0 stop (slice local start stop) token_match-InText
          (omega (arith, length-slice local start stop l)))

  -- The slices cover the ink between `start` and `stop`.
  pub hard_slices-covers :
      (local : Text) (base start stop q : ℕ)
      → stop ≤ length local
      → start ≤ q
      → q < stop
      → ink local q ≡ true
      → covers (hard_slices limits local base start stop) (base + q) ≡ true
  unfolding hard_slices
  hard_slices-covers local base start stop q l k g h =
      let e : start + (q - start) ≡ q = omega arith in
      let ms = finditer token_match start (slice local start stop) in
      hard_batches-covers (length ms) base start stop q ms (omega arith)
        (tokens-Chain local start stop (omega arith) l)
        (subst (λ n. covers ms n ≡ true) e
          (matches_from-covers 0 start 0 (q - start) (slice local start stop)
            (ink-slice local start stop (q - start) (omega arith) ∙ ap (ink local) e ∙ h)
            (omega arith)))

  pub hard_slices-Ascending :
      (local : Text) (base start stop : ℕ)
      → start ≤ stop
      → stop ≤ length local
      → Ascending
          (base + stop)
          (base + start)
          (base + start)
          (hard_slices limits local base start stop)
  unfolding hard_slices
  hard_slices-Ascending local base start stop k l =
      let ms = finditer token_match start (slice local start stop) in
      hard_batches-Ascending (length ms) base start stop ms (omega arith)
        (tokens-Chain local start stop k l)
