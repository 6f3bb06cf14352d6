-- ===== src/Artifacts/Search/Hybrid.antt =====
-- artifacts/retrieval.py: `HybridRetriever`. The store's read of the corpus and the two rankings are
-- those of their own modules; the reranker is a model outside the repository.
use editorial_team_v.Prelude.{
  ltb, ◌==◌, if◌then◌else◌, length, take, Result, ok, err, ◌>>=◌, ◌>>◌, reject_if, or_raise, Text,
  text_eq, rstrip, ℕ, suc, ◌-◌, Bool, not, Option, none, some, List, [], ◌∷◌, ◌++◌, map,
}
use editorial_team_v.Prelude.Sorting.{text_le, sort_by}
use editorial_team_v.Contracts.{ValueError, rule, Checked, Datetime}
use editorial_team_v.Artifacts.Models.{SearchableArtifactChunk}
use editorial_team_v.Artifacts.Store.{ArtifactError, Kept}
use editorial_team_v.Artifacts.Search.Types.{
  Floats, SearchRequest, make_request, Candidate, FusedCandidate, SearchResult, id_of, higher,
}
use editorial_team_v.Artifacts.Search.Fusion.{reciprocal_rank_fusion}
use editorial_team_v.Artifacts.Search.Dense.{RetrievalError, retrieval_failed}

pub record Depths : Type 0 where
  pub dense_depth : ℕ
  pub bm25_depth : ℕ
  pub rrf_k : ℕ
  pub fused_depth : ℕ
  pub rerank_depth : ℕ

-- The checks of `HybridRetriever.__init__`
unfoldable pub make_depths : Depths → Checked Depths
make_depths d = do
  reject_if (d.dense_depth == 0) (rule "dense_depth must be a positive integer")
  reject_if (d.bm25_depth == 0) (rule "bm25_depth must be a positive integer")
  reject_if (d.rrf_k == 0) (rule "rrf_k must be a positive integer")
  reject_if (d.fused_depth == 0) (rule "fused_depth must be a positive integer")
  reject_if (d.rerank_depth == 0) (rule "rerank_depth must be a positive integer")
  reject_if (ltb d.fused_depth d.rerank_depth) (rule "rerank_depth must not exceed fused_depth")
  ok d

abbrev pub max_excerpt_characters : ℕ
max_excerpt_characters = 600

-- The beginning of a text that is too long, with an ellipsis.
unfoldable pub excerpt_of : Text → Text
unfolding rstrip
excerpt_of t =
    if ltb max_excerpt_characters (length t)
    then rstrip (take (max_excerpt_characters - 1) t) ++ (8230 ∷ [])
    else t

-- What a search can end with: a refused request, an error of the store, or one of retrieval.
pub data SearchError : Type 0 where
  bad_request : ValueError → SearchError
  store_failed : ArtifactError → SearchError
  not_retrieved : RetrievalError → SearchError

abbrev pub or_search : {E A : Type 0} → (E → SearchError) → Result E A → Result SearchError A
or_search f (ok a) = ok a
or_search f (err e) = err (f e)

module _ {F : Type 0} (floats : Floats F) where
  -- `rerank_scores`: the scores by identifier, of which the last counts.
  abbrev pub Scores : Type 0
  Scores = List (Text × F)

  unfoldable pub score_for : Text → Scores → Option F
  unfolding text_eq
  score_for id [] = none
  score_for id (s ∷ rest) = elim (score_for id rest) [
    | some x ↦ some x
    | none ↦ if text_eq s.0 id then some s.1 else none
  ]

  -- Scores that are NaN (`none`) or not finite are refused, and lists of different lengths.
  unfoldable pub pair_scores :
      List (FusedCandidate F) → List (Option F) → Result RetrievalError Scores
  pair_scores [] [] = ok []
  pair_scores [] (x ∷ xs) = err retrieval_failed
  pair_scores (c ∷ cs) [] = err retrieval_failed
  pair_scores (c ∷ cs) (none ∷ xs) = err retrieval_failed
  pair_scores (c ∷ cs) (some x ∷ xs) = do
    reject_if (not (floats.finite x)) retrieval_failed
    rest ← pair_scores cs xs
    ok ((id_of c.chunk, x) ∷ rest)

  abbrev pub or_score : F → Option F → F
  or_score x none = x
  or_score x (some y) = y

  -- `rerank_scores.get(chunk.chunk_id, item.rrf_score)`
  abbrev pub active : Scores → FusedCandidate F → F
  active scores c = or_score c.rrf_score (score_for (id_of c.chunk) scores)

  -- The order of the keys `recency`, which is 0 or the negative time, and `chunk_id`.
  abbrev pub recency_order : Bool → FusedCandidate F → FusedCandidate F → Bool
  recency_order prefer x y =
      let ids = text_le (id_of x.chunk) (id_of y.chunk) in
      let s = x.chunk.chunk.created_at.instant in
      let t = y.chunk.chunk.created_at.instant in
      if prefer then if s == t then ids else ltb t s else ids

  unfoldable pub by_relevance : Bool → Scores → FusedCandidate F → FusedCandidate F → Bool
  unfolding text_le score_for
  by_relevance prefer scores x y =
      higher floats (active scores x) (active scores y)
        (higher floats x.rrf_score y.rrf_score (recency_order prefer x y))

  -- `_result`
  unfoldable pub search_result : Scores → ℕ → FusedCandidate F → SearchResult F
  unfolding excerpt_of score_for
  search_result scores rank c = record {
    rank = rank;
    chunk_id = id_of c.chunk;
    artifact_id = c.chunk.chunk.artifact_id;
    task_id = c.chunk.task_id;
    excerpt = excerpt_of c.chunk.chunk.content;
    created_at = c.chunk.chunk.created_at;
    producer = c.chunk.chunk.producer;
    dense_rank = c.dense_rank;
    dense_score = c.dense_score;
    bm25_rank = c.bm25_rank;
    bm25_score = c.bm25_score;
    rrf_score = c.rrf_score;
    rerank_score = score_for (id_of c.chunk) scores;
    chunk_ordinal = c.chunk.chunk.ordinal;
  }

  unfoldable pub results_from : Scores → ℕ → List (FusedCandidate F) → List (SearchResult F)
  unfolding search_result
  results_from scores rank [] = []
  results_from scores rank (c ∷ cs) =
      search_result scores rank c ∷ results_from scores (suc rank) cs

  unfoldable pub ranked : SearchRequest → List (FusedCandidate F) → Scores → List (SearchResult F)
  unfolding by_relevance sort_by results_from
  ranked r candidates scores =
      results_from scores 1
        (take r.top_k (sort_by (by_relevance r.prefer_recent scores) candidates))

  -- What the retriever keeps of a search.
  pub record RetrievalStages : Type 0 where
    pub dense : List (Candidate F)
    pub bm25 : List (Candidate F)
    pub fused : List (FusedCandidate F)
    pub results : List (SearchResult F)

  -- `reranker query passages` is `Reranker.score`, where `none` is an exception.
  module _ (reranker : Text → List Text → Option (List (Option F))) (depths : Depths) where
    unfoldable pub finalize :
        SearchRequest → List (FusedCandidate F) → Result RetrievalError (List (SearchResult F))
    unfolding pair_scores ranked
    finalize r fused =
        let candidates = if r.rerank then take depths.rerank_depth fused else fused in
        if r.rerank
        then elim (reranker r.query (map (λ c. c.chunk.chunk.content) candidates)) [
          | none ↦ err retrieval_failed
          | some xs ↦ do scores ← pair_scores candidates xs; ok (ranked r candidates scores)
        ]
        else ok (ranked r candidates [])

    unfoldable pub stages_of :
        SearchRequest
        → List (Candidate F)
        → List (Candidate F)
        → Result RetrievalError RetrievalStages
    unfolding reciprocal_rank_fusion finalize
    stages_of r dense bm25 = do
      fused ←
          or_raise retrieval_failed
            (reciprocal_rank_fusion floats depths.rrf_k dense bm25 depths.fused_depth)
      results ← finalize r fused
      ok (record { dense = dense; bm25 = bm25; fused = fused; results = results })

    -- `corpus` is the store's `list_searchable_chunks`; `dense_rank` goes on from its cache `C`.
    module _ {C : Type 0}
        (corpus : Text → Option Datetime → Option Datetime → Kept (List SearchableArtifactChunk))
        (dense_rank : Text
          → List SearchableArtifactChunk
          → C
          → Result RetrievalError (List (Candidate F)) × C)
        (bm25_rank : Text → List SearchableArtifactChunk → List (Candidate F)) where
      unfoldable pub search_chunks :
          SearchRequest → List SearchableArtifactChunk → C → Result SearchError RetrievalStages × C
      unfolding stages_of
      search_chunks r [] cache =
          (ok (record { dense = []; bm25 = []; fused = []; results = [] }), cache)
      search_chunks r (s ∷ rest) cache =
          let (dense, next) = dense_rank r.query (s ∷ rest) cache in
          (
            or_search not_retrieved (dense >>= λ d. stages_of r d (bm25_rank r.query (s ∷ rest))),
            next,
          )

      unfoldable pub search_with_stages : SearchRequest → C → Result SearchError RetrievalStages × C
      unfolding search_chunks
      search_with_stages r cache = elim (corpus r.conversation_id r.created_from r.created_to) [
        | err e ↦ (err (store_failed e), cache)
        | ok chunks ↦ search_chunks r chunks cache
      ]

      -- `HybridRetriever.search`
      unfoldable pub search : SearchRequest → C → Result SearchError (List (SearchResult F)) × C
      unfolding make_request search_with_stages
      search q cache = elim (make_request q) [
        | err e ↦ (err (bad_request e), cache)
        | ok r ↦
            let (stages, next) = search_with_stages r cache in (stages >>= λ s. ok s.results, next)
      ]
