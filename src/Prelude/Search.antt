-- ===== src/Prelude/Search.antt =====
-- Python's `sub in text` and `startswith` on texts.
use mathlib.Core.Bool.{Bool, true, false, ◌&&◌, ◌||◌}
use mathlib.Core.List.{[], ◌∷◌}
use editorial_team_v.Prelude.Tests.{◌==◌}
use editorial_team_v.Prelude.Texts.{Text}

unfoldable pub starts_with : Text → Text → Bool
starts_with [] s = true
starts_with (c ∷ sub) [] = false
starts_with (c ∷ sub) (d ∷ s) = c == d && starts_with sub s

-- `sub in s`
unfoldable pub contains : Text → Text → Bool
unfolding starts_with
contains sub [] = starts_with sub []
contains sub (d ∷ s) = starts_with sub (d ∷ s) || contains sub s
