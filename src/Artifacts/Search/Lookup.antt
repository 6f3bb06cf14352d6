-- ===== src/Artifacts/Search/Lookup.antt =====
-- artifacts/fusion.py: the identifiers of the two rankings and the lookup of a candidate by one.
use editorial_team_v.Prelude.{
  Bool-cases, Option-cases, is_some, All, Text, text_eq, text_eq_sound, ◌++◌, false, Option, ◌≡◌,
  refl, ap, subst, inl, inr, true, ◌||◌, none, some, List, [], ◌∷◌, map, arith,
}
use editorial_team_v.Artifacts.Search.Types.{Candidate, id_of}
use editorial_team_v.Artifacts.Search.Fusion.{find_last, ids_of, union}
use editorial_team_v.Artifacts.Search.Order.{member, Distinct, text_eq_sym}

member-eq : (s t : Text) (ts : List Text) → text_eq s t ≡ true → member s ts ≡ member t ts
member-eq s t ts h = ap (λ u. member u ts) (text_eq_sound s t h)

pub union-member :
    (t : Text) (xs ys : List Text) → member t (union xs ys) ≡ (member t xs || member t ys)
unfolding union
union-member t [] ys = refl
union-member t (x ∷ xs) ys = ground (arith, union-member t xs ys, member-eq t x ys)

pub union-Distinct : (xs ys : List Text) → Distinct xs → Distinct ys → Distinct (union xs ys)
unfolding union
union-Distinct [] ys d e = e
union-Distinct (x ∷ xs) ys d e = elim (Bool-cases (member x ys)) [
  | inl m ↦ rw m (union-Distinct xs ys d.1 e)
  | inr m ↦ rw m (ground (arith, union-member x xs ys), union-Distinct xs ys d.1 e)
]

module _ {F : Type 0} where
  abbrev pub names : List (Candidate F) → List Text
  names cs = map (λ c. id_of c.chunk) cs

  pub ids_of-member :
      (t : Text) (cs : List (Candidate F)) → member t (ids_of cs) ≡ member t (names cs)
  unfolding ids_of
  ids_of-member t [] = refl
  ids_of-member t (c ∷ cs) =
      ground (arith, ids_of-member t cs, member-eq t (id_of c.chunk) (ids_of cs))

  pub ids_of-Distinct : (cs : List (Candidate F)) → Distinct (ids_of cs)
  unfolding ids_of
  ids_of-Distinct [] = tt
  ids_of-Distinct (c ∷ cs) = elim (Bool-cases (member (id_of c.chunk) (ids_of cs))) [
    | inl m ↦ rw m (ids_of-Distinct cs)
    | inr m ↦ rw m (m, ids_of-Distinct cs)
  ]

  -- A lookup finds a candidate of the identifier, exactly if there is one.
  pub find_last-id :
      (t : Text) (cs : List (Candidate F)) (c : Candidate F)
      → find_last t cs ≡ some c
      → id_of c.chunk ≡ t
  unfolding find_last
  find_last-id t [] c h = cc
  find_last-id t (d ∷ cs) c h = elim (Option-cases (find_last t cs)) [
    | inl e ↦ ground (arith, text_eq_sound (id_of d.chunk) t)
    | inr (b, e) ↦ ground (arith, find_last-id t cs b e)
  ]

  pub find_last-member :
      (t : Text) (cs : List (Candidate F)) → is_some (find_last t cs) ≡ member t (names cs)
  unfolding find_last
  find_last-member t [] = refl
  find_last-member t (c ∷ cs) = elim (Option-cases (find_last t cs)) [
    | inl e ↦ ground (arith, find_last-member t cs, text_eq_sym t (id_of c.chunk))
    | inr (b, e) ↦ ground (arith, find_last-member t cs, text_eq_sym t (id_of c.chunk))
  ]

  -- The last candidate of an identifier, or none where it has none.
  abbrev pub IsLast : Text → List (Candidate F) → Option (Candidate F) → Type 0
  IsLast t cs none = member t (names cs) ≡ false
  IsLast t cs (some c) =
      (front : List (Candidate F)) × (back : List (Candidate F)) × (cs ≡ front ++ (c ∷ back))
      × (id_of c.chunk ≡ t)
      × (member t (names back) ≡ false)

  IsLast-cons :
      (t : Text) (d c : Candidate F) (cs : List (Candidate F))
      → IsLast t cs (some c)
      → IsLast t (d ∷ cs) (some c)
  IsLast-cons t d c cs (front, back, e, i, m) = (d ∷ front, back, ap (λ x. d ∷ x) e, i, m)

  pub find_last-IsLast : (t : Text) (cs : List (Candidate F)) → IsLast t cs (find_last t cs)
  unfolding find_last
  find_last-IsLast t [] = refl
  find_last-IsLast t (d ∷ cs) = elim (Option-cases (find_last t cs)) [
    | inr (c, e) ↦
        rw (e, find_last) (IsLast-cons t d c cs (subst (IsLast t cs) e (find_last-IsLast t cs)))
    | inl e ↦
        let none_later = subst (IsLast t cs) e (find_last-IsLast t cs) in
        elim (Bool-cases (text_eq (id_of d.chunk) t)) [
          | inl b ↦
              rw (e, b, find_last) ([], cs, refl, text_eq_sound (id_of d.chunk) t b, none_later)
          | inr b ↦ rw (e, b, find_last) (ground (arith, none_later, text_eq_sym t (id_of d.chunk)))
        ]
  ]

  pub find_last-All :
      (P : Candidate F → Type 0) (t : Text) (cs : List (Candidate F)) (c : Candidate F)
      → All P cs
      → find_last t cs ≡ some c
      → P c
  unfolding find_last
  find_last-All P t [] c a h = absurd (ground arith)
  find_last-All P t (d ∷ cs) c a h = elim (Option-cases (find_last t cs)) [
    | inl e ↦ let same : d ≡ c = ground arith in subst P same a.0
    | inr (b, e) ↦ let same : b ≡ c = ground arith in subst P same (find_last-All P t cs b a.1 e)
  ]
