-- ===== src/Artifacts/Chunking/Pack.antt =====
-- artifacts/chunking.py: units packed into chunks that overlap.
use editorial_team_v.Prelude.{
  ltb, leb, ◌==◌, if◌then◌else◌, length, Text, ℕ, zero, suc, ◌||◌, List, [], ◌∷◌,
}
use editorial_team_v.Prelude.Scan.{Span, span, slice}
use editorial_team_v.Artifacts.Chunking.Patterns.{tokens}
use editorial_team_v.Artifacts.Chunking.Units.{Limits}

-- `units[i]`: the loops of `_pack` keep every index in range.
unfoldable pub unit_at : ℕ → List Span → Span
unit_at i [] = span 0 0
unit_at zero (u ∷ us) = u
unit_at (suc i) (u ∷ us) = unit_at i us

module _ (limits : Limits) (t : Text) (us : List Span) where
  abbrev pub size_of : ℕ → ℕ → ℕ
  size_of i j = tokens (slice t (unit_at i us).start (unit_at j us).stop)

  -- The inner loop that moves `end_index`: `fuel` units follow it.
  unfoldable pub extend_end : ℕ → ℕ → ℕ → ℕ
  unfolding tokens unit_at
  extend_end zero first end_index = end_index
  extend_end (suc fuel) first end_index =
      let rest = extend_end fuel first (suc end_index) in
      if leb (length us) (suc end_index) || ltb limits.target_tokens (size_of first (suc end_index))
      then end_index
      else rest

  -- The inner loop that moves `overlap_start`, which is one less than the number here: that number
  -- and `overlap_count` at the end of it.
  unfoldable pub overlap_from : ℕ → ℕ → ℕ → ℕ → ℕ × ℕ
  unfolding tokens unit_at
  overlap_from first end_index count zero = (0, count)
  overlap_from first end_index count (suc o) =
      let n = size_of o end_index in
      let rest = overlap_from first end_index n o in
      if ltb o first || ltb limits.overlap_tokens n then (suc o, count) else rest

  unfoldable pub next_start : ℕ → ℕ → ℕ
  unfolding overlap_from
  next_start first end_index =
      let found = overlap_from first end_index 0 (suc end_index) in
      let next = if found.1 == 0 then suc end_index else found.0 in
      if leb next first then suc end_index else next

  -- The outer loop. `start_index` grows in each pass, so that the number of units is enough fuel.
  unfoldable pub pack_from : ℕ → ℕ → List Span
  unfolding extend_end next_start unit_at
  pack_from zero first = []
  pack_from (suc fuel) first =
      let end_index = extend_end (length us) first first in
      let chunk = span (unit_at first us).start (unit_at end_index us).stop in
      let rest = pack_from fuel (next_start first end_index) in
      if leb (length us) first
      then []
      else if suc end_index == length us
      then chunk ∷ []
      else chunk ∷ rest

  unfoldable pub pack : List Span
  unfolding pack_from
  pack = pack_from (length us) 0
