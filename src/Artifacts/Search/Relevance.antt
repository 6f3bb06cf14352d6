-- ===== src/Artifacts/Search/Relevance.antt =====
-- artifacts/retrieval.py: `_finalize` ranks by relevance first.
use mathlib.Core.List.{Perm}
use editorial_team_v.Prelude.{
  text_eq, ◌≤◌, sym, ◌∙◌, ap, none, some, if◌then◌else◌, Bool-cases, Option-cases, take, ok,
  Result-cases, Text, ◌≡◌, refl, subst, ◌⊎◌, inl, inr, Bool, true, false, Option, List, [], ◌∷◌,
  map, arith,
}
use editorial_team_v.Prelude.Sorting.{
  text_le_total, text_le_trans, text_le, sort_by, IsOrdered, IsSorted-IsOrdered, sort_by-perm,
  sort_by-IsSorted,
}
use editorial_team_v.Artifacts.Search.Types.{
  Floats, SearchRequest, FusedCandidate, SearchResult, id_of, higher,
}
use editorial_team_v.Artifacts.Search.Order.{higher_total, higher_trans, higher-decides}
use editorial_team_v.Artifacts.Search.Hybrid.{
  Depths, Scores, score_for, or_score, pair_scores, active, recency_order, by_relevance,
  results_from, ranked, finalize,
}

module _ {F : Type 0} (floats : Floats F) where
  recency_total :
      (prefer : Bool) (x y : FusedCandidate F)
      → (recency_order floats prefer x y ≡ true) ⊎ (recency_order floats prefer y x ≡ true)
  recency_total prefer x y = ground (arith, text_le_total (id_of x.chunk) (id_of y.chunk))

  recency_trans :
      (prefer : Bool) (x y z : FusedCandidate F)
      → recency_order floats prefer x y ≡ true
      → recency_order floats prefer y z ≡ true
      → recency_order floats prefer x z ≡ true
  recency_trans prefer x y z h k =
      ground (arith, text_le_trans (id_of x.chunk) (id_of y.chunk) (id_of z.chunk))

  module _ (prefer : Bool) (scores : Scores floats) where
    by_relevance_total :
        (x y : FusedCandidate F)
        → (by_relevance floats prefer scores x y ≡ true)
          ⊎ (by_relevance floats prefer scores y x ≡ true)
    unfolding by_relevance
    by_relevance_total x y =
        higher_total floats (active floats scores x) (active floats scores y)
          (higher floats x.rrf_score y.rrf_score (recency_order floats prefer x y))
          (higher floats y.rrf_score x.rrf_score (recency_order floats prefer y x))
          (higher_total floats x.rrf_score y.rrf_score (recency_order floats prefer x y)
            (recency_order floats prefer y x) (recency_total prefer x y))

    by_relevance_trans :
        (x y z : FusedCandidate F)
        → by_relevance floats prefer scores x y ≡ true
        → by_relevance floats prefer scores y z ≡ true
        → by_relevance floats prefer scores x z ≡ true
    unfolding by_relevance
    by_relevance_trans x y z =
        higher_trans floats (active floats scores x) (active floats scores y)
          (active floats scores z)
          (higher floats x.rrf_score y.rrf_score (recency_order floats prefer x y))
          (higher floats y.rrf_score z.rrf_score (recency_order floats prefer y z))
          (higher floats x.rrf_score z.rrf_score (recency_order floats prefer x z))
          (higher_trans floats x.rrf_score y.rrf_score z.rrf_score (recency_order floats prefer x y)
            (recency_order floats prefer y z) (recency_order floats prefer x z)
            (recency_trans prefer x y z))
    -- The score that the pairs give a candidate, the last one if there are several, or its fused one.

  abbrev pub last_score : F → Text → List (Text × F) → F
  last_score x id [] = x
  last_score x id (p ∷ rest) = last_score (if text_eq p.0 id then p.1 else x) id rest

  score_for-last_score :
      (x : F) (id : Text) (scores : Scores floats)
      → or_score floats x (score_for floats id scores) ≡ last_score x id scores
  unfolding score_for
  score_for-last_score x id [] = refl
  score_for-last_score x id (p ∷ rest) = elim (Option-cases (score_for floats id rest)) [
    | inr (y, e) ↦ ground (arith, score_for-last_score x id rest, score_for-last_score p.1 id rest)
    | inl e ↦ ground (arith, score_for-last_score x id rest, score_for-last_score p.1 id rest)
  ]

  abbrev pub final_score : Scores floats → FusedCandidate F → F
  final_score scores c = last_score c.rrf_score (id_of c.chunk) scores

  -- The recent one first, if that is preferred, and then the smaller identifier.
  abbrev pub NotOlder : Bool → FusedCandidate F → FusedCandidate F → Type 0
  NotOlder false x y = text_le (id_of x.chunk) (id_of y.chunk) ≡ true
  NotOlder true x y =
      (y.chunk.chunk.created_at.instant ≤ x.chunk.chunk.created_at.instant)
      × (y.chunk.chunk.created_at.instant ≡ x.chunk.chunk.created_at.instant
          → text_le (id_of x.chunk) (id_of y.chunk) ≡ true)

  -- The higher score stands first, then the higher fused score, then the order above.
  abbrev pub NotBelow : Bool → Scores floats → FusedCandidate F → FusedCandidate F → Type 0
  NotBelow prefer scores x y =
      (floats.at_most (final_score scores y) (final_score scores x) ≡ true)
      × (floats.at_most (final_score scores x) (final_score scores y) ≡ true
          → (floats.at_most y.rrf_score x.rrf_score ≡ true)
            × (floats.at_most x.rrf_score y.rrf_score ≡ true → NotOlder prefer x y))

  recency_order-NotOlder :
      (prefer : Bool) (x y : FusedCandidate F)
      → recency_order floats prefer x y ≡ true
      → NotOlder prefer x y
  recency_order-NotOlder false x y h = h
  recency_order-NotOlder true x y h = (ground arith, λ e. ground arith)

  by_relevance-NotBelow :
      (prefer : Bool) (scores : Scores floats) (x y : FusedCandidate F)
      → by_relevance floats prefer scores x y ≡ true
      → NotBelow prefer scores x y
  unfolding by_relevance
  by_relevance-NotBelow prefer scores x y h =
      let ex = score_for-last_score x.rrf_score (id_of x.chunk) scores in
      let ey = score_for-last_score y.rrf_score (id_of y.chunk) scores in
      let (score, rest) =
        higher-decides floats (active floats scores x) (active floats scores y) _ h in
      (
        subst (λ a. floats.at_most (final_score scores y) a ≡ true) ex
            (subst (λ a. floats.at_most a (active floats scores x) ≡ true) ey score),
        λ g.
            let same : floats.at_most (active floats scores x) (active floats scores y) ≡ true =
              subst (λ a. floats.at_most (active floats scores x) a ≡ true) (sym ey)
                (subst (λ a. floats.at_most a (final_score scores y) ≡ true) (sym ex) g) in
            let (fused, last) = higher-decides floats x.rrf_score y.rrf_score _ (rest same) in
            (fused, λ f. recency_order-NotOlder prefer x y (last f)),
      )

  abbrev pub candidates : Depths → SearchRequest → List (FusedCandidate F) → List (FusedCandidate F)
  candidates depths r fs = if r.rerank then take depths.rerank_depth fs else fs

  -- The results are the first of an arrangement of the candidates.
  abbrev pub Arranged :
      SearchRequest → List (FusedCandidate F) → Scores floats → List (SearchResult F) → Type 0
  Arranged r given scores xs =
      (cs : List (FusedCandidate F)) × Perm cs given
      × IsOrdered (NotBelow r.prefer_recent scores) cs
      × (xs ≡ results_from floats scores 1 (take r.top_k cs))

  ranked-Arranged :
      (r : SearchRequest) (given : List (FusedCandidate F)) (scores : Scores floats)
      → Arranged r given scores (ranked floats r given scores)
  unfolding ranked
  ranked-Arranged r given scores =
      let le = by_relevance floats r.prefer_recent scores in
      (
        sort_by le given,
        sort_by-perm le given,
        IsSorted-IsOrdered le (NotBelow r.prefer_recent scores)
            (by_relevance-NotBelow r.prefer_recent scores) (sort_by le given)
            (sort_by-IsSorted le (by_relevance_total r.prefer_recent scores)
              (by_relevance_trans r.prefer_recent scores) given),
        refl,
      )

  -- The identifiers of the candidates with the scores of a list, which has one for each.
  abbrev pub Pairs : List (FusedCandidate F) → List F → List (Text × F) → Type 0
  Pairs [] [] scores = scores ≡ []
  Pairs [] (y ∷ ys) scores = ⊥
  Pairs (c ∷ cs) [] scores = ⊥
  Pairs (c ∷ cs) (y ∷ ys) scores =
      (rest : List (Text × F)) × (floats.finite y ≡ true)
      × (scores ≡ (id_of c.chunk, y) ∷ rest)
      × Pairs cs ys rest

  pair_scores-Pairs :
      (cs : List (FusedCandidate F)) (xs : List (Option F)) (scores : Scores floats)
      → pair_scores floats cs xs ≡ ok scores
      → (ys : List F) × (xs ≡ map some ys) × Pairs cs ys scores
  unfolding pair_scores
  pair_scores-Pairs [] [] scores h = ([], refl, ground arith)
  pair_scores-Pairs [] (x ∷ xs) scores h = absurd (ground arith)
  pair_scores-Pairs (c ∷ cs) [] scores h = absurd (ground arith)
  pair_scores-Pairs (c ∷ cs) (none ∷ xs) scores h = absurd (ground arith)
  pair_scores-Pairs (c ∷ cs) (some x ∷ xs) scores h =
      elim (Result-cases (pair_scores floats cs xs)) [
        | inr (e, g) ↦ absurd (ground arith)
        | inl (rest, g) ↦
            let (ys, same, pairs) = pair_scores-Pairs cs xs rest g in
            (x ∷ ys, ap (λ t. some x ∷ t) same, (rest, ground arith, ground arith, pairs))
      ]

  -- Where the scores of a search come from: the reranker, asked for the query and the contents of
  -- the candidates, or nowhere.
  abbrev pub Given :
      (Text → List Text → Option (List (Option F)))
      → SearchRequest
      → List (FusedCandidate F)
      → Scores floats
      → Bool
      → Type 0
  Given reranker r cs scores false = scores ≡ []
  Given reranker r cs scores true =
      (ys : List F) × (reranker r.query (map (λ c. c.chunk.chunk.content) cs) ≡ some (map some ys))
      × Pairs cs ys scores

  -- The results of a search are the first `top_k` of an arrangement of the candidates, in the order
  -- of the score, the higher first, then of the fused score, then of the time where recent drafts
  -- are preferred, the later first, and then of the identifier; with reranking the scores are the
  -- finite ones that the reranker gave for the query and the candidates' contents, one for each,
  -- and without it the fused scores.
  pub finalize-Arranged :
      (reranker : Text → List Text → Option (List (Option F))) (depths : Depths) (r : SearchRequest)
      (fs : List (FusedCandidate F)) (xs : List (SearchResult F))
      → finalize floats reranker depths r fs ≡ ok xs
      → (scores : Scores floats) × Given reranker r (candidates depths r fs) scores r.rerank
        × Arranged r (candidates depths r fs) scores xs
  unfolding finalize
  finalize-Arranged reranker depths r fs xs h = elim (Bool-cases r.rerank) [
    | inr e ↦
        let same : ranked floats r fs [] ≡ xs = ground arith in
        ([], rw e refl, rw e (subst (Arranged r fs []) same (ranked-Arranged r fs [])))
    | inl e ↦
        let cs = take depths.rerank_depth fs in
        elim (Option-cases (reranker r.query (map (λ c. c.chunk.chunk.content) cs))) [
          | inl n ↦ absurd (ground arith)
          | inr (ys, n) ↦ elim (Result-cases (pair_scores floats cs ys)) [
            | inr (f, k) ↦ absurd (ground arith)
            | inl (scores, k) ↦
                let same : ranked floats r cs scores ≡ xs = ground arith in
                (
                  scores,
                  rw e (
                      let (vs, same, pairs) = pair_scores-Pairs cs ys scores k in
                      (vs, n ∙ ap some same, pairs)),
                  rw e (subst (Arranged r cs scores) same (ranked-Arranged r cs scores)),
                )
          ]
        ]
  ]
