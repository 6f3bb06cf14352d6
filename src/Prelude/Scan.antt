-- ===== src/Prelude/Scan.antt =====
-- Python's `finditer` of a pattern that matches no empty text, and slices.
use Prim.Native.Nat.{ℕ, zero, suc, ◌+◌, ◌-◌}
use mathlib.Core.Bool.{Bool}
use mathlib.Core.List.{List, [], ◌∷◌}
use editorial_team_v.Prelude.Tests.{◌==◌, if◌then◌else◌}
use editorial_team_v.Prelude.Lists.{take, drop}
use editorial_team_v.Prelude.Texts.{Text}

-- A half-open interval of indices.
pub record Span : Type 0 where
  pub start : ℕ
  pub stop : ℕ

abbrev pub span : ℕ → ℕ → Span
span a b = record { start = a; stop = b }

-- `t[a:b]`
abbrev pub slice : Text → ℕ → ℕ → Text
slice t a b = take (b - a) (drop a t)

-- The length of the longest prefix that satisfies a test.
unfoldable pub run_length : (ℕ → Bool) → Text → ℕ
run_length p [] = 0
run_length p (c ∷ s) = if p c then suc (run_length p s) else 0

-- `matcher before rest` is the length of the match that begins at `rest`, where `before` is the
-- character in front of it, or 0 where there is no match; no pattern here looks behind for the
-- character 0, which stands for the beginning of the text. `skip` characters belong to the last
-- match.
unfoldable pub matches_from : (ℕ → Text → ℕ) → ℕ → ℕ → ℕ → Text → List Span
matches_from matcher before position skip [] = []
matches_from matcher before position (suc skip) (c ∷ s) =
    matches_from matcher c (suc position) skip s
matches_from matcher before position zero (c ∷ s) =
    let n = matcher before (c ∷ s) in
    let rest = matches_from matcher c (suc position) (n - 1) s in
    if n == 0 then rest else span position (position + n) ∷ rest

-- `pattern.finditer(t)`, with `position` added to every index
abbrev pub finditer : (ℕ → Text → ℕ) → ℕ → Text → List Span
finditer matcher position t = matches_from matcher 0 position 0 t
