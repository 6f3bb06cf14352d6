-- ===== src/Operations/Store/Recent.antt =====
-- Which results `list_recent` gives, and in which order.
use mathlib.Core.List.{Perm}
use editorial_team_v.Prelude.{
  take, Text, text_eq_sound, text_eq_complete, ℕ, ◌≤◌, ◌≡◌, ◌⊎◌, true, List, arith,
}
use editorial_team_v.Prelude.Sorting.{
  text_le, text_le_total, text_le_trans, text_le_antisymm, sort_by, IsOrdered, IsSorted-IsOrdered,
  sort_by-perm, sort_by-IsSorted,
}
use editorial_team_v.Contracts.{Checked, Datetime}
use editorial_team_v.Operations.Store.{
  Row, newer_or_same, max_recent_results, to_results, list_recent,
}

newer_or_same_total : (a b : Row) → (newer_or_same a b ≡ true) ⊎ (newer_or_same b a ≡ true)
unfolding newer_or_same
newer_or_same_total a b = ground (
  arith,
  text_le_total a.observed_at b.observed_at,
  text_le_total a.result_id b.result_id,
  text_eq_sound a.observed_at b.observed_at,
  text_eq_complete a.observed_at b.observed_at,
  text_eq_sound b.observed_at a.observed_at,
  text_eq_complete b.observed_at a.observed_at,
)

newer_or_same_trans :
    (a b c : Row) → newer_or_same a b ≡ true → newer_or_same b c ≡ true → newer_or_same a c ≡ true
unfolding newer_or_same
newer_or_same_trans a b c h k = ground (
  arith,
  text_le_trans c.result_id b.result_id a.result_id,
  text_le_trans c.observed_at b.observed_at a.observed_at,
  text_le_antisymm a.observed_at b.observed_at,
  text_eq_sound a.observed_at b.observed_at,
  text_eq_sound b.observed_at c.observed_at,
  text_eq_sound a.observed_at c.observed_at,
  text_eq_complete a.observed_at b.observed_at,
  text_eq_complete b.observed_at c.observed_at,
  text_eq_complete a.observed_at c.observed_at,
)

-- The later text of the observation time stands first, and of equal ones the greater identifier.
abbrev pub NotBefore : Row → Row → Type 0
NotBefore a b =
    (text_le b.observed_at a.observed_at ≡ true)
    × (a.observed_at ≡ b.observed_at → text_le b.result_id a.result_id ≡ true)

newer_or_same-NotBefore : (a b : Row) → newer_or_same a b ≡ true → NotBefore a b
unfolding newer_or_same
newer_or_same-NotBefore a b h = ground (
  arith,
  text_le_total a.observed_at b.observed_at,
  text_eq_sound a.observed_at b.observed_at,
  text_eq_complete a.observed_at b.observed_at,
)

-- For a limit from 1 to the most that is allowed, `list_recent` reads the first `limit` rows of an
-- arrangement of the table in which the greater stored text of the observation time stands first,
-- and of equal texts the greater identifier.
pub list_recent-IsOrdered :
    (unstamp : Text → Checked Datetime) (rows : List Row) (limit : ℕ)
    → 1 ≤ limit
    → limit ≤ max_recent_results
    → (sorted : List Row) × Perm sorted rows
      × IsOrdered NotBefore sorted
      × (list_recent unstamp rows limit ≡ to_results unstamp (take limit sorted))
unfolding list_recent
list_recent-IsOrdered unstamp rows limit lo hi = (
  sort_by newer_or_same rows,
  sort_by-perm newer_or_same rows,
  IsSorted-IsOrdered newer_or_same NotBefore newer_or_same-NotBefore (sort_by newer_or_same rows)
      (sort_by-IsSorted newer_or_same newer_or_same_total newer_or_same_trans rows),
  ground arith,
)
