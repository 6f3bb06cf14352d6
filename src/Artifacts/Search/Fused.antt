-- ===== src/Artifacts/Search/Fused.antt =====
-- artifacts/fusion.py: what a fused ranking is.
use mathlib.Core.Option
use editorial_team_v.Prelude.{
  Option-cases, take, All, ok, Text, text_eq_refl, ℕ, ◌+◌, ◌++◌, Option, ◌≡◌, refl, sym, ap, ◌∙◌,
  subst, ◌⊎◌, inl, inr, true, ◌||◌, none, some, List, [], ◌∷◌, map, arith,
}
use editorial_team_v.Prelude.Sorting.{
  text_le, text_le_total, text_le_trans, sort_by, IsOrdered, IsSorted-IsOrdered, All-weaken,
  All-sort_by, sort_by-IsSorted,
}
use editorial_team_v.Artifacts.Models.{SearchableArtifactChunk}
use editorial_team_v.Artifacts.Search.Types.{Floats, Candidate, FusedCandidate, id_of}
use editorial_team_v.Artifacts.Search.Fusion.{
  find_last, share, rank_of, score_of, ids_of, union, fused, fuse_each, by_fusion,
  reciprocal_rank_fusion,
}
use editorial_team_v.Artifacts.Search.Order.{
  higher_total, higher_trans, higher-decides, member, Distinct, member-sort_by, sort_by-Distinct,
}
use editorial_team_v.Artifacts.Search.Lookup.{
  names, IsLast, union-member, union-Distinct, ids_of-member, ids_of-Distinct, find_last-id,
  find_last-member, find_last-IsLast, find_last-All,
}

module _ {F : Type 0} (floats : Floats F) (rrf_k : ℕ) (dense lexical : List (Candidate F)) where
  abbrev pub fused_names : List (FusedCandidate F) → List Text
  fused_names fs = map (λ f. id_of f.chunk) fs

  abbrev IsFusedBy : FusedCandidate F → Type 0
  IsFusedBy f =
      f
      ≡ fused floats rrf_k f.chunk (find_last (id_of f.chunk) dense)
          (find_last (id_of f.chunk) lexical)

  abbrev pub ranks : Option ℕ → List ℕ
  ranks none = []
  ranks (some n) = n ∷ []

  -- `x` and the sum of the inverses of `rrf_k` and each rank.
  abbrev pub add_inverses : F → List ℕ → F
  add_inverses x [] = x
  add_inverses x (n ∷ ns) = add_inverses (floats.plus x (floats.inverse (rrf_k + n))) ns

  -- A candidate has the rank and the score of the last candidate of its identifier in each ranking,
  -- and the sum of the inverses for its score.
  abbrev pub IsFused : FusedCandidate F → Type 0
  IsFused f =
      (d : Option (Candidate F)) × (l : Option (Candidate F)) × IsLast (id_of f.chunk) dense d
      × IsLast (id_of f.chunk) lexical l
      × (f.dense_rank ≡ Option.map (λ c. c.rank) d)
      × (f.dense_score ≡ Option.map (λ c. c.score) d)
      × (f.bm25_rank ≡ Option.map (λ c. c.rank) l)
      × (f.bm25_score ≡ Option.map (λ c. c.score) l)
      × (f.rrf_score ≡ add_inverses floats.nought (ranks f.dense_rank ++ ranks f.bm25_rank))

  fused-sums :
      (d l : Option (Candidate F))
      → (rank_of floats rrf_k d ≡ Option.map (λ c. c.rank) d)
        × (score_of floats rrf_k d ≡ Option.map (λ c. c.score) d)
        × (share floats rrf_k l (share floats rrf_k d floats.nought)
            ≡ add_inverses floats.nought
                (ranks (rank_of floats rrf_k d) ++ ranks (rank_of floats rrf_k l)))
  fused-sums none none = (refl, refl, refl)
  fused-sums none (some c) = (refl, refl, refl)
  fused-sums (some c) none = (refl, refl, refl)
  fused-sums (some c) (some e) = (refl, refl, refl)

  IsFusedBy-IsFused : (f : FusedCandidate F) → IsFusedBy f → IsFused f
  IsFusedBy-IsFused f h =
      let d = find_last (id_of f.chunk) dense in
      let l = find_last (id_of f.chunk) lexical in
      let (dense_rank, dense_score, sum) = fused-sums d l in
      let (bm25_rank, bm25_score, _) = fused-sums l l in
      (
        d,
        l,
        find_last-IsLast (id_of f.chunk) dense,
        find_last-IsLast (id_of f.chunk) lexical,
        ap (λ x. x.dense_rank) h ∙ dense_rank,
        ap (λ x. x.dense_score) h ∙ dense_score,
        ap (λ x. x.bm25_rank) h ∙ bm25_rank,
        ap (λ x. x.bm25_score) h ∙ bm25_score,
        ap (λ x. x.rrf_score) h
            ∙ sum
            ∙ ap (λ x. add_inverses floats.nought (ranks x.dense_rank ++ ranks x.bm25_rank))
                (sym h),
      )

  abbrev Known : Text → Type 0
  Known id = (member id (names dense) || member id (names lexical)) ≡ true

  fuse_each-IsFusedBy :
      (ids : List Text)
      → All Known ids
      → All IsFusedBy (fuse_each floats rrf_k dense lexical ids)
        × (fused_names (fuse_each floats rrf_k dense lexical ids) ≡ ids)
  unfolding fuse_each
  fuse_each-IsFusedBy [] h = (tt, refl)
  fuse_each-IsFusedBy (id ∷ ids) h =
      let (each, same) = fuse_each-IsFusedBy ids h.1 in
      elim (Option-cases (find_last id dense)) [
        | inr (d, e) ↦
            let i = find_last-id id dense d e in
            let fd : some d ≡ find_last (id_of d.chunk) dense =
              sym (ap (λ u. find_last u dense) i ∙ e) in
            let fl : find_last id lexical ≡ find_last (id_of d.chunk) lexical =
              sym (ap (λ u. find_last u lexical) i) in
            rw (e, fuse_each)
              (((λ k. fused floats rrf_k d.chunk (fd k) (fl k)), each), λ k. i k ∷ same k)
        | inl e ↦ elim (Option-cases (find_last id lexical)) [
          | inr (l, g) ↦
              let i = find_last-id id lexical l g in
              let fd : none ≡ find_last (id_of l.chunk) dense =
                sym (ap (λ u. find_last u dense) i ∙ e) in
              let fl : some l ≡ find_last (id_of l.chunk) lexical =
                sym (ap (λ u. find_last u lexical) i ∙ g) in
              rw (e, g, fuse_each)
                (((λ k. fused floats rrf_k l.chunk (fd k) (fl k)), each), λ k. i k ∷ same k)
          | inl g ↦ absurd (ground (arith, find_last-member id dense, find_last-member id lexical))
        ]
      ]

  -- Every chunk of the fused ranking is one of the two rankings.
  pub fuse_each-All :
      (P : SearchableArtifactChunk → Type 0) (ids : List Text)
      → All (λ c. P c.chunk) dense
      → All (λ c. P c.chunk) lexical
      → All (λ f. P f.chunk) (fuse_each floats rrf_k dense lexical ids)
  unfolding fuse_each
  fuse_each-All P [] g h = tt
  fuse_each-All P (id ∷ ids) g h =
      let rest = fuse_each-All P ids g h in
      elim (Option-cases (find_last id dense)) [
        | inr (d, e) ↦ rw (e, fuse_each) (find_last-All (λ c. P c.chunk) id dense d g e, rest)
        | inl e ↦ elim (Option-cases (find_last id lexical)) [
          | inr (l, k) ↦
              rw (e, k, fuse_each) (find_last-All (λ c. P c.chunk) id lexical l h k, rest)
          | inl k ↦ rw (e, k, fuse_each) rest
        ]
      ]

  by_fusion_total :
      (x y : FusedCandidate F)
      → (by_fusion floats rrf_k x y ≡ true) ⊎ (by_fusion floats rrf_k y x ≡ true)
  unfolding by_fusion
  by_fusion_total x y =
      higher_total floats x.rrf_score y.rrf_score (text_le (id_of x.chunk) (id_of y.chunk))
        (text_le (id_of y.chunk) (id_of x.chunk)) (text_le_total (id_of x.chunk) (id_of y.chunk))

  by_fusion_trans :
      (x y z : FusedCandidate F)
      → by_fusion floats rrf_k x y ≡ true
      → by_fusion floats rrf_k y z ≡ true
      → by_fusion floats rrf_k x z ≡ true
  unfolding by_fusion
  by_fusion_trans x y z =
      higher_trans floats x.rrf_score y.rrf_score z.rrf_score
        (text_le (id_of x.chunk) (id_of y.chunk)) (text_le (id_of y.chunk) (id_of z.chunk))
        (text_le (id_of x.chunk) (id_of z.chunk))
        (text_le_trans (id_of x.chunk) (id_of y.chunk) (id_of z.chunk))

  abbrev all_ids : List Text
  all_ids = union (ids_of dense) (ids_of lexical)

  all_ids-member :
      (t : Text) → member t all_ids ≡ (member t (names dense) || member t (names lexical))
  all_ids-member t = ground (
    arith,
    union-member t (ids_of dense) (ids_of lexical),
    ids_of-member t dense,
    ids_of-member t lexical,
  )

  members-All :
      (ids full : List Text)
      → ((t : Text) → member t ids ≡ true → member t full ≡ true)
      → All (λ t. member t full ≡ true) ids
  members-All [] full f = tt
  members-All (t ∷ ids) full f =
      (f t (ground (arith, text_eq_refl t)), members-All ids full (λ s m. f s (ground arith)))

  all_ids-Known : (ids : List Text) → All (λ t. member t all_ids ≡ true) ids → All Known ids
  all_ids-Known [] h = tt
  all_ids-Known (t ∷ ids) h = (sym (all_ids-member t) ∙ h.0, all_ids-Known ids h.1)

  -- The higher score stands first, and of equal scores the smaller identifier.
  abbrev pub NotAfter : FusedCandidate F → FusedCandidate F → Type 0
  NotAfter x y =
      (floats.at_most y.rrf_score x.rrf_score ≡ true)
      × (floats.at_most x.rrf_score y.rrf_score ≡ true
          → text_le (id_of x.chunk) (id_of y.chunk) ≡ true)

  by_fusion-NotAfter : (x y : FusedCandidate F) → by_fusion floats rrf_k x y ≡ true → NotAfter x y
  unfolding by_fusion
  by_fusion-NotAfter x y =
      higher-decides floats x.rrf_score y.rrf_score (text_le (id_of x.chunk) (id_of y.chunk))

  -- A ranking without its cut: in order, of one candidate for each identifier of either ranking.
  abbrev pub IsFusion : List (FusedCandidate F) → Type 0
  IsFusion fs =
      IsOrdered NotAfter fs
      × All IsFused fs
      × Distinct (fused_names fs)
      × ((t : Text)
          → member t (fused_names fs) ≡ (member t (names dense) || member t (names lexical)))

  -- A fused ranking is the first `depth` of a ranking in which no candidate follows one of a lower
  -- score, or of the same score and a greater identifier, and which has exactly one candidate for
  -- each identifier of the dense or the lexical ranking, with the rank and the score of the last
  -- candidate of that identifier in each, and the sum of the inverses of `rrf_k` and each of these
  -- ranks for its score.
  pub reciprocal_rank_fusion-IsFusion :
      (depth : ℕ) (fs : List (FusedCandidate F))
      → reciprocal_rank_fusion floats rrf_k dense lexical depth ≡ ok fs
      → (full : List (FusedCandidate F)) × IsFusion full × (fs ≡ take depth full)
  unfolding reciprocal_rank_fusion
  reciprocal_rank_fusion-IsFusion depth fs h =
      let each = fuse_each floats rrf_k dense lexical all_ids in
      let (are, same) =
        fuse_each-IsFusedBy all_ids
          (all_ids-Known all_ids (members-All all_ids all_ids (λ t m. m))) in
      let full = sort_by (by_fusion floats rrf_k) each in
      (
        full,
        (
          IsSorted-IsOrdered (by_fusion floats rrf_k) NotAfter by_fusion-NotAfter full
              (sort_by-IsSorted (by_fusion floats rrf_k) by_fusion_total by_fusion_trans each),
          All-weaken IsFusedBy IsFused IsFusedBy-IsFused (sort_by (by_fusion floats rrf_k) each)
              (All-sort_by (by_fusion floats rrf_k) IsFusedBy each are),
          sort_by-Distinct (λ f. id_of f.chunk) (by_fusion floats rrf_k) each
              (subst Distinct (sym same) (
                union-Distinct (ids_of dense) (ids_of lexical) (ids_of-Distinct dense)
                  (ids_of-Distinct lexical))),
          λ t.
              member-sort_by (λ f. id_of f.chunk) (by_fusion floats rrf_k) t each
              ∙ ap (member t) same
              ∙ all_ids-member t,
        ),
        ground arith,
      )
