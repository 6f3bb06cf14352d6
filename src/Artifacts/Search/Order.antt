-- ===== src/Artifacts/Search/Order.antt =====
-- Orders on pairs of a score and something else, and lists of texts without repetition.
use editorial_team_v.Prelude.{
  Bool-cases, take, any, Text, text_eq, ℕ, zero, suc, ◌≡◌, refl, ◌∙◌, ◌⊎◌, inl, inr, Bool, true,
  false, ◌||◌, List, [], ◌∷◌, map, arith,
}
use editorial_team_v.Prelude.Sorting.{insert_by, sort_by}
use editorial_team_v.Artifacts.Search.Types.{Floats, higher}

module _ {F : Type 0} (floats : Floats F) where
  pub higher_total :
      (x y : F) (p q : Bool)
      → (p ≡ true) ⊎ (q ≡ true)
      → (higher floats x y p ≡ true) ⊎ (higher floats y x q ≡ true)
  higher_total x y p q h = ground (arith, floats.at_most_total x y)

  -- The score decides, and what follows decides between equal scores.
  pub higher-decides :
      (x y : F) (p : Bool)
      → higher floats x y p ≡ true
      → (floats.at_most y x ≡ true) × (floats.at_most x y ≡ true → p ≡ true)
  higher-decides x y p h = ground (arith, floats.at_most_total x y)

  pub higher_trans :
      (x y z : F) (p q r : Bool)
      → (p ≡ true → q ≡ true → r ≡ true)
      → higher floats x y p ≡ true
      → higher floats y z q ≡ true
      → higher floats x z r ≡ true
  higher_trans x y z p q r f h k = ground (
    arith,
    f,
    floats.at_most_total x y,
    floats.at_most_total y z,
    floats.at_most_total x z,
    floats.at_most_trans x y z,
    floats.at_most_trans y z x,
    floats.at_most_trans z x y,
    floats.at_most_trans z y x,
    floats.at_most_trans y x z,
    floats.at_most_trans x z y,
  )

abbrev pub member : Text → List Text → Bool
member t = any (text_eq t)

abbrev pub Distinct : List Text → Type 0
Distinct [] = Unit
Distinct (t ∷ ts) = (member t ts ≡ false) × Distinct ts

pub text_eq_sym : (s t : Text) → text_eq s t ≡ text_eq t s
unfolding text_eq
text_eq_sym [] [] = refl
text_eq_sym [] (d ∷ t) = refl
text_eq_sym (c ∷ s) [] = refl
text_eq_sym (c ∷ s) (d ∷ t) = ground (arith, text_eq_sym s t)

-- Sorting by any order leaves the names of the elements distinct.
module _ {A : Type 0} (name : A → Text) (le : A → A → Bool) where
  member-insert_by :
      (t : Text) (x : A) (xs : List A)
      → member t (map name (insert_by le x xs)) ≡ (text_eq t (name x) || member t (map name xs))
  unfolding insert_by
  member-insert_by t x [] = refl
  member-insert_by t x (y ∷ ys) = ground (arith, member-insert_by t x ys)

  insert_by-Distinct :
      (x : A) (xs : List A)
      → member (name x) (map name xs) ≡ false
      → Distinct (map name xs)
      → Distinct (map name (insert_by le x xs))
  unfolding insert_by
  insert_by-Distinct x [] h d = (refl, tt)
  insert_by-Distinct x (y ∷ ys) h d = elim (Bool-cases (le x y)) [
    | inl e ↦ rw e (h, d)
    | inr e ↦ rw e (
      ground (arith, member-insert_by (name y) x ys, text_eq_sym (name x) (name y)),
      insert_by-Distinct x ys (ground arith) d.1,
    )
  ]

  pub member-sort_by :
      (t : Text) (xs : List A) → member t (map name (sort_by le xs)) ≡ member t (map name xs)
  unfolding sort_by
  member-sort_by t [] = refl
  member-sort_by t (x ∷ xs) =
      ground (arith, member-insert_by t x (sort_by le xs), member-sort_by t xs)

  pub sort_by-Distinct :
      (xs : List A) → Distinct (map name xs) → Distinct (map name (sort_by le xs))
  unfolding sort_by
  sort_by-Distinct [] d = tt
  sort_by-Distinct (x ∷ xs) d =
      insert_by-Distinct x (sort_by le xs) (member-sort_by (name x) xs ∙ d.0)
        (sort_by-Distinct xs d.1)

  member-take :
      (t : Text) (n : ℕ) (xs : List A)
      → member t (map name xs) ≡ false
      → member t (map name (take n xs)) ≡ false
  member-take t zero xs h = refl
  member-take t (suc n) [] h = refl
  member-take t (suc n) (x ∷ xs) h = ground (arith, member-take t n xs)

  pub take-Distinct :
      (n : ℕ) (xs : List A) → Distinct (map name xs) → Distinct (map name (take n xs))
  take-Distinct zero xs d = tt
  take-Distinct (suc n) [] d = tt
  take-Distinct (suc n) (x ∷ xs) d = (member-take (name x) n xs d.0, take-Distinct n xs d.1)
