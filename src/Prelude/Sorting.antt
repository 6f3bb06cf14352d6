-- ===== src/Prelude/Sorting.antt =====
-- `sorted` with a key: a stable insertion sort by a Boolean order.
use mathlib.Core.Path.{◌≡◌, refl}
use mathlib.Core.Logic.{◌⊎◌, inl, inr}
use mathlib.Core.Bool.{Bool, true, false, ◌&&◌, ◌||◌}
use mathlib.Core.List.{List, [], ◌∷◌, Perm}
use mathlib.Core.List.Perm
use native.Mathlib.Omega.{arith}
use Prim.Native.Nat.{ℕ, zero, suc}
use editorial_team_v.Prelude.Tests.{if◌then◌else◌, Bool-cases, ltb, ◌==◌}
use editorial_team_v.Prelude.Lists.{length, any, take, All, All-take, keep, All-keep}
use editorial_team_v.Prelude.Texts.{Text}

-- `a <= b` of two texts, by code points
unfoldable pub text_le : Text → Text → Bool
text_le [] t = true
text_le (c ∷ s) [] = false
text_le (c ∷ s) (d ∷ t) = ltb c d || (c == d && text_le s t)

pub text_le_total : (s t : Text) → (text_le s t ≡ true) ⊎ (text_le t s ≡ true)
unfolding text_le
text_le_total [] t = inl refl
text_le_total (c ∷ s) [] = inr refl
text_le_total (c ∷ s) (d ∷ t) = ground (arith, text_le_total s t)

pub text_le_trans : (s t u : Text) → text_le s t ≡ true → text_le t u ≡ true → text_le s u ≡ true
unfolding text_le
text_le_trans [] t u h k = refl
text_le_trans (c ∷ s) [] u h k = cc
text_le_trans (c ∷ s) (d ∷ t) [] h k = cc
text_le_trans (c ∷ s) (d ∷ t) (e ∷ u) h k = ground (arith, text_le_trans s t u)

pub text_le_antisymm : (s t : Text) → text_le s t ≡ true → text_le t s ≡ true → s ≡ t
unfolding text_le
text_le_antisymm [] [] h k = refl
text_le_antisymm [] (d ∷ t) h k = cc
text_le_antisymm (c ∷ s) [] h k = cc
text_le_antisymm (c ∷ s) (d ∷ t) h k = ground (arith, text_le_antisymm s t)

module _ {A : Type 0} (le : A → A → Bool) where
  unfoldable pub insert_by : A → List A → List A
  insert_by x [] = x ∷ []
  insert_by x (y ∷ ys) = if le x y then x ∷ y ∷ ys else y ∷ insert_by x ys

  unfoldable pub sort_by : List A → List A
  unfolding insert_by
  sort_by [] = []
  sort_by (x ∷ xs) = insert_by x (sort_by xs)

  -- Every element comes before all that follow it.
  abbrev pub IsSorted : List A → Type 0
  IsSorted [] = Unit
  IsSorted (x ∷ xs) = All (λ y. le x y ≡ true) xs × IsSorted xs

  pub length-insert_by : (x : A) (xs : List A) → length (insert_by x xs) ≡ suc (length xs)
  unfolding insert_by
  length-insert_by x [] = refl
  length-insert_by x (y ∷ ys) = ground (arith, length-insert_by x ys)

  pub length-sort_by : (xs : List A) → length (sort_by xs) ≡ length xs
  unfolding sort_by
  length-sort_by [] = refl
  length-sort_by (x ∷ xs) = ground (arith, length-insert_by x (sort_by xs), length-sort_by xs)

  insert_by-perm : (x : A) (xs : List A) → Perm (insert_by x xs) (x ∷ xs)
  unfolding insert_by
  insert_by-perm x [] = Perm.refl (x ∷ [])
  insert_by-perm x (y ∷ ys) = elim (Bool-cases (le x y)) [
    | inl h ↦ rw h (Perm.refl (x ∷ y ∷ ys))
    | inr h ↦ rw h (Perm.trans (Perm.cons y (insert_by-perm x ys)) (Perm.swap x y ys))
  ]

  pub sort_by-perm : (xs : List A) → Perm (sort_by xs) xs
  unfolding sort_by
  sort_by-perm [] = Perm.refl []
  sort_by-perm (x ∷ xs) = Perm.trans (insert_by-perm x (sort_by xs)) (Perm.cons x (sort_by-perm xs))

  All-insert_by : (P : A → Type 0) (x : A) (xs : List A) → P x → All P xs → All P (insert_by x xs)
  unfolding insert_by
  All-insert_by P x [] hx h = (hx, h)
  All-insert_by P x (y ∷ ys) hx h = elim (Bool-cases (le x y)) [
    | inl e ↦ rw e (hx, h)
    | inr e ↦ rw e (h.0, All-insert_by P x ys hx h.1)
  ]

  pub All-sort_by : (P : A → Type 0) (xs : List A) → All P xs → All P (sort_by xs)
  unfolding sort_by
  All-sort_by P [] h = h
  All-sort_by P (x ∷ xs) h = All-insert_by P x (sort_by xs) h.0 (All-sort_by P xs h.1)

  pub IsSorted-take : (n : ℕ) (xs : List A) → IsSorted xs → IsSorted (take n xs)
  IsSorted-take zero xs h = tt
  IsSorted-take (suc n) [] h = tt
  IsSorted-take (suc n) (x ∷ xs) h =
      (All-take (λ y. le x y ≡ true) n xs h.0, IsSorted-take n xs h.1)

  pub any-insert_by :
      (p : A → Bool) (x : A) (xs : List A) → any p (insert_by x xs) ≡ (p x || any p xs)
  unfolding insert_by
  any-insert_by p x [] = refl
  any-insert_by p x (y ∷ ys) = ground (arith, any-insert_by p x ys)

  pub any-sort_by : (p : A → Bool) (xs : List A) → any p (sort_by xs) ≡ any p xs
  unfolding sort_by
  any-sort_by p [] = refl
  any-sort_by p (x ∷ xs) = ground (arith, any-insert_by p x (sort_by xs), any-sort_by p xs)

  module _ (le_total : (x y : A) → (le x y ≡ true) ⊎ (le y x ≡ true))
      (le_trans : (x y z : A) → le x y ≡ true → le y z ≡ true → le x z ≡ true) where
    All-le :
        (x y : A) (ys : List A)
        → le x y ≡ true
        → All (λ z. le y z ≡ true) ys
        → All (λ z. le x z ≡ true) ys
    All-le x y [] h a = tt
    All-le x y (z ∷ zs) h a = (le_trans x y z h a.0, All-le x y zs h a.1)

    insert_by-IsSorted : (x : A) (xs : List A) → IsSorted xs → IsSorted (insert_by x xs)
    unfolding insert_by
    insert_by-IsSorted x [] h = (tt, tt)
    insert_by-IsSorted x (y ∷ ys) h = elim (Bool-cases (le x y)) [
      | inl e ↦ rw e ((e, All-le x y ys e h.0), h)
      | inr e ↦ rw e (
        All-insert_by (λ z. le y z ≡ true) x ys (swapped x y e (le_total x y)) h.0,
        insert_by-IsSorted x ys h.1,
      )
    ]
      where
        swapped : (u v : A) → le u v ≡ false → (le u v ≡ true) ⊎ (le v u ≡ true) → le v u ≡ true
        swapped u v n (inl p) = cc
        swapped u v n (inr p) = p

    pub sort_by-IsSorted : (xs : List A) → IsSorted (sort_by xs)
    unfolding sort_by
    sort_by-IsSorted [] = tt
    sort_by-IsSorted (x ∷ xs) = insert_by-IsSorted x (sort_by xs) (sort_by-IsSorted xs)

    insert_by-front : (x : A) (ys : List A) → All (λ z. le x z ≡ true) ys → insert_by x ys ≡ x ∷ ys
    unfolding insert_by
    insert_by-front x [] h = refl
    insert_by-front x (y ∷ ys) h = rw h.0

    keep-insert_by :
        (p : A → Bool) (x : A) (ys : List A)
        → IsSorted ys
        → keep p (insert_by x ys) ≡ (if p x then insert_by x (keep p ys) else keep p ys)
    unfolding insert_by
    keep-insert_by p x [] h = ground arith
    keep-insert_by p x (y ∷ ys) h = elim (Bool-cases (le x y)) [
      | inl e ↦
          let front =
            insert_by-front x (keep p (y ∷ ys))
              (All-keep (λ z. le x z ≡ true) p (y ∷ ys) (e, All-le x y ys e h.0)) in
          ground arith
      | inr e ↦ ground (arith, keep-insert_by p x ys h.1)
    ]

    -- A selection of what is sorted is the selection, sorted.
    pub keep-sort_by : (p : A → Bool) (xs : List A) → keep p (sort_by xs) ≡ sort_by (keep p xs)
    unfolding sort_by
    keep-sort_by p [] = refl
    keep-sort_by p (x ∷ xs) =
        ground (arith, keep-insert_by p x (sort_by xs) (sort_by-IsSorted xs), keep-sort_by p xs)

-- In a list, each element stands in the relation to all that follow.
abbrev pub IsOrdered : {A : Type 0} → (A → A → Type 0) → List A → Type 0
IsOrdered R [] = Unit
IsOrdered R (x ∷ xs) = All (R x) xs × IsOrdered R xs

pub All-weaken :
    {A : Type 0} (P Q : A → Type 0) → ((x : A) → P x → Q x) → (xs : List A) → All P xs → All Q xs
All-weaken P Q f [] h = tt
All-weaken P Q f (x ∷ xs) h = (f x h.0, All-weaken P Q f xs h.1)

-- A list that is sorted by a test is ordered by what the test implies.
pub IsSorted-IsOrdered :
    {A : Type 0} (le : A → A → Bool) (R : A → A → Type 0)
    → ((x y : A) → le x y ≡ true → R x y)
    → (xs : List A) → IsSorted le xs
    → IsOrdered R xs
IsSorted-IsOrdered le R f [] h = tt
IsSorted-IsOrdered le R f (x ∷ xs) h =
    (All-weaken (λ y. le x y ≡ true) (R x) (f x) xs h.0, IsSorted-IsOrdered le R f xs h.1)
