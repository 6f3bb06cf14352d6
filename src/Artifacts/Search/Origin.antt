-- ===== src/Artifacts/Search/Origin.antt =====
-- artifacts/retrieval.py and artifacts/lexical.py: every candidate is one of the chunks searched.
use editorial_team_v.Prelude.{
  take, All, ok, reject_if, Result-cases, >>=-eq-ok, >>-eq-ok, Text, ℕ, suc, ◌≡◌, subst, inl, inr,
  Bool, not, List, [], ◌∷◌, map, arith, All-take,
}
use editorial_team_v.Prelude.Sorting.{sort_by, All-sort_by}
use editorial_team_v.Artifacts.Models.{SearchableArtifactChunk}
use editorial_team_v.Artifacts.Search.Types.{
  Floats, Scored, Candidate, FusedCandidate, by_score, number_from,
}
use editorial_team_v.Artifacts.Search.Fusion.{
  union, ids_of, fuse_each, by_fusion, reciprocal_rank_fusion,
}
use editorial_team_v.Artifacts.Search.Fused.{fuse_each-All}
use editorial_team_v.Artifacts.Search.Dense.{
  Arrays, EmbeddingModel, Cache, cached, normalized, or_failed, missing, embed_missing, score_each,
  rank_cached, after_embedding, dense_rank,
}
use editorial_team_v.Artifacts.Search.Lexical.{Arithmetic, tokenize, score_documents, bm25_rank}

module _ {F : Type 0} (floats : Floats F) (P : SearchableArtifactChunk → Type 0) where
  number_from-All :
      (rank : ℕ) (ps : List (Scored floats))
      → All (λ p. P p.0) ps
      → All (λ c. P c.chunk) (number_from floats rank ps)
  unfolding number_from
  number_from-All rank [] h = tt
  number_from-All rank (p ∷ ps) h = (h.0, number_from-All (suc rank) ps h.1)

  best-All :
      (depth : ℕ) (ps : List (Scored floats))
      → All (λ p. P p.0) ps
      → All (λ c. P c.chunk) (number_from floats 1 (take depth (sort_by (by_score floats) ps)))
  best-All depth ps h = number_from-All 1 (take depth (sort_by (by_score floats) ps)) (
      All-take (λ p. P p.0) depth (sort_by (by_score floats) ps)
        (All-sort_by (by_score floats) (λ p. P p.0) ps h))

  module _ {R V : Type 0} (arrays : Arrays F R V) (model : EmbeddingModel R) where
    score_each-All :
        (cache : Cache floats arrays) (query : V) (chunks : List SearchableArtifactChunk)
        (ps : List (Scored floats))
        → All P chunks
        → score_each floats arrays model cache query chunks ≡ ok ps
        → All (λ p. P p.0) ps
    unfolding score_each
    score_each-All cache query [] ps g h =
        let e : [] ≡ ps = ground arith in subst (All (λ p. P p.0)) e tt
    score_each-All cache query (s ∷ chunks) ps g h =
        let (v, ev, m) = >>=-eq-ok (or_failed (cached floats arrays _ cache)) _ h in
        let (es, n) = >>-eq-ok (reject_if (not (arrays.same_shape v query)) _) _ m in
        let (later, el, k) = >>=-eq-ok (score_each floats arrays model cache query chunks) _ n in
        let e : (s, arrays.dot query v) ∷ later ≡ ps = ground arith in
        subst (All (λ p. P p.0)) e (g.0, score_each-All cache query chunks later g.1 el)

    rank_cached-All :
        (depth : ℕ) (query : Text) (chunks : List SearchableArtifactChunk)
        (cache : Cache floats arrays) (ds : List (Candidate F))
        → All P chunks
        → rank_cached floats arrays model depth query chunks cache ≡ ok ds
        → All (λ c. P c.chunk) ds
    unfolding rank_cached
    rank_cached-All depth query chunks cache ds g h =
        let (raw, er, m) = >>=-eq-ok (or_failed (model.embed_query query)) _ h in
        let (v, ev, n) = >>=-eq-ok (normalized floats arrays raw) _ m in
        let (ps, ep, k) = >>=-eq-ok (score_each floats arrays model cache v chunks) _ n in
        let e : number_from floats 1 (take depth (sort_by (by_score floats) ps)) ≡ ds =
          ground arith in
        subst (All (λ c. P c.chunk)) e (best-All depth ps (score_each-All cache v chunks ps g ep))

    pub dense_rank-All :
        (depth : ℕ) (query : Text) (chunks : List SearchableArtifactChunk)
        (cache : Cache floats arrays) (ds : List (Candidate F))
        → All P chunks
        → (dense_rank floats arrays model depth query chunks cache).0 ≡ ok ds
        → All (λ c. P c.chunk) ds
    unfolding dense_rank after_embedding
    dense_rank-All depth query [] cache ds g h =
        let e : [] ≡ ds = ground arith in subst (All (λ c. P c.chunk)) e tt
    dense_rank-All depth query (s ∷ rest) cache ds g h =
        let pair =
          embed_missing floats arrays model cache (missing floats arrays model cache (s ∷ rest)) in
        elim (Result-cases pair.0) [
          | inr (e, f) ↦ absurd (ground arith)
          | inl (u, f) ↦ rank_cached-All depth query (s ∷ rest) pair.1 ds g (ground arith)
        ]

  module _ (is_alnum : ℕ → Bool) (casefold : Text → Text) (arithmetic : Arithmetic F)
      (k1 b : F) where
    score_documents-All :
        (documents : List (List Text)) (terms : List Text) (chunks : List SearchableArtifactChunk)
        → All P chunks
        → All
            (λ p. P p.0)
            (score_documents is_alnum casefold floats arithmetic k1 b documents terms chunks)
    unfolding score_documents
    score_documents-All documents terms [] h = tt
    score_documents-All documents terms (s ∷ rest) h =
        (h.0, score_documents-All documents terms rest h.1)

    pub bm25_rank-All :
        (depth : ℕ) (query : Text) (chunks : List SearchableArtifactChunk)
        → All P chunks
        → All
            (λ c. P c.chunk)
            (bm25_rank is_alnum casefold floats arithmetic k1 b depth query chunks)
    unfolding bm25_rank
    bm25_rank-All depth query chunks h =
        let documents = map (λ s. tokenize is_alnum casefold s.chunk.content) chunks in
        best-All depth
          (score_documents is_alnum casefold floats arithmetic k1 b documents
            (tokenize is_alnum casefold query) chunks)
          (score_documents-All documents (tokenize is_alnum casefold query) chunks h)

  pub reciprocal_rank_fusion-All :
      (rrf_k depth : ℕ) (dense lexical : List (Candidate F)) (fs : List (FusedCandidate F))
      → All (λ c. P c.chunk) dense
      → All (λ c. P c.chunk) lexical
      → reciprocal_rank_fusion floats rrf_k dense lexical depth ≡ ok fs
      → All (λ f. P f.chunk) fs
  unfolding reciprocal_rank_fusion
  reciprocal_rank_fusion-All rrf_k depth dense lexical fs g k h =
      let each = fuse_each floats rrf_k dense lexical (union (ids_of dense) (ids_of lexical)) in
      let e : take depth (sort_by (by_fusion floats rrf_k) each) ≡ fs = ground arith in
      subst (All (λ f. P f.chunk)) e (
        All-take (λ f. P f.chunk) depth (sort_by (by_fusion floats rrf_k) each)
          (All-sort_by (by_fusion floats rrf_k) (λ f. P f.chunk) each
            (fuse_each-All floats rrf_k dense lexical P (union (ids_of dense) (ids_of lexical)) g
              k)))
