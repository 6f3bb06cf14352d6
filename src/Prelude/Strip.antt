-- ===== src/Prelude/Strip.antt =====
-- Laws of `str.strip`.
use mathlib.Core.Path.{◌≡◌, refl, ap, ◌∙◌}
use mathlib.Core.Logic.{◌⊎◌, inl, inr}
use mathlib.Core.Bool.{Bool, false, ◌&&◌}
use mathlib.Core.List.{[], ◌∷◌, ◌++◌}
use editorial_team_v.Prelude.Lists.{all, is_empty}
use editorial_team_v.Prelude.Tests.{Bool-cases}
use Prim.Native.Nat.{ℕ}
use native.Mathlib.Omega.{arith}
use editorial_team_v.Prelude.Texts.{Text, is_space, lstrip, rstrip, keep_before, strip}

keep_before-of_ink : (c : ℕ) (t : Text) → is_space c ≡ false → keep_before c t ≡ c ∷ t
keep_before-of_ink c [] h = rw h
keep_before-of_ink c (d ∷ t) h = refl

rstrip-keep_before : (c : ℕ) (t : Text) → rstrip t ≡ t → rstrip (keep_before c t) ≡ keep_before c t
unfolding rstrip
rstrip-keep_before c [] h = elim (Bool-cases (is_space c)) [ inl e ↦ rw e | inr e ↦ rw e (rw e) ]
rstrip-keep_before c (d ∷ t) h = ap (keep_before c) h

rstrip_idem : (s : Text) → rstrip (rstrip s) ≡ rstrip s
unfolding rstrip
rstrip_idem [] = refl
rstrip_idem (c ∷ s) = rstrip-keep_before c (rstrip s) (rstrip_idem s)

-- What is left of a text when its leading white space is gone: nothing, or ink first.
lstrip-cases :
    (s : Text)
    → (lstrip s ≡ []) ⊎ ((c : ℕ) × (t : Text) × (lstrip s ≡ c ∷ t) × (is_space c ≡ false))
unfolding lstrip
lstrip-cases [] = inl refl
lstrip-cases (c ∷ s) = elim (Bool-cases (is_space c)) [
  | inl e ↦ rw e (lstrip-cases s)
  | inr e ↦ inr (c, s, rw e, e)
]

lstrip-of_ink : (c : ℕ) (t : Text) → is_space c ≡ false → lstrip (c ∷ t) ≡ c ∷ t
unfolding lstrip
lstrip-of_ink c t h = rw h

rstrip-of_ink : (c : ℕ) (t : Text) → is_space c ≡ false → rstrip (c ∷ t) ≡ c ∷ rstrip t
unfolding rstrip
rstrip-of_ink c t h = keep_before-of_ink c (rstrip t) h

pub strip_idem : (s : Text) → strip (strip s) ≡ strip s
unfolding strip
strip_idem s = elim (lstrip-cases s) [
  | inl e ↦ rw e
  | inr (c, t, e, ink) ↦
      rw (e, rstrip-of_ink c t ink)
        (rw (lstrip-of_ink c (rstrip t) ink)
          (rw (rstrip-of_ink c (rstrip t) ink) (ap (λ u. c ∷ u) (rstrip_idem t))))
]

-- A text is blank for `strip` if it is white space throughout.
keep_before-blank : (c : ℕ) (t : Text) → is_empty (keep_before c t) ≡ (is_space c && is_empty t)
keep_before-blank c [] = ground arith
keep_before-blank c (d ∷ t) = ground arith

rstrip-blank : (s : Text) → is_empty (rstrip s) ≡ all is_space s
unfolding rstrip
rstrip-blank [] = refl
rstrip-blank (c ∷ s) = keep_before-blank c (rstrip s) ∙ ap (λ b. is_space c && b) (rstrip-blank s)

lstrip-blank : (s : Text) → all is_space (lstrip s) ≡ all is_space s
unfolding lstrip
lstrip-blank [] = refl
lstrip-blank (c ∷ s) = elim (Bool-cases (is_space c)) [
  | inl e ↦ rw e (lstrip-blank s)
  | inr e ↦ rw e (rw e)
]

pub strip-blank : (s : Text) → is_empty (strip s) ≡ all is_space s
unfolding strip
strip-blank s = rstrip-blank (lstrip s) ∙ lstrip-blank s

pub all_append : (p : ℕ → Bool) (s t : Text) → all p (s ++ t) ≡ (all p s && all p t)
all_append p [] t = refl
all_append p (c ∷ s) t = ground (arith, all_append p s t)
