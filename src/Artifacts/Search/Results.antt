-- ===== src/Artifacts/Search/Results.antt =====
-- artifacts/retrieval.py: what a search gives.
use mathlib.Core.List.{Mem, mem-cons_self, mem-cons_of_mem}
use editorial_team_v.Prelude.{
  ltb, Bool-cases, Option-cases, length, take, length-append, length-take, All, Result, ok, err,
  ◌>>=◌, or_raise, Result-cases, >>=-eq-ok, Text, rstrip, keep_before, strip, ℕ, suc, ◌≤◌, ◌≡◌,
  refl, subst, inl, inr, Option, List, [], ◌∷◌, ◌++◌, map, arith, strip_idem, All-take,
}
use editorial_team_v.Prelude.Sorting.{sort_by, All-sort_by}
use editorial_team_v.Contracts.{validate_identifier}
use editorial_team_v.Contracts.Identity.{validate_identifier-eq_ok}
use editorial_team_v.Artifacts.Models.{SearchableArtifactChunk}
use editorial_team_v.Artifacts.Store.{Tables}
use editorial_team_v.Artifacts.Store.Corpus.{list_searchable_chunks-exact}
use editorial_team_v.Artifacts.Search.Types.{
  Floats, SearchRequest, make_request, Candidate, FusedCandidate, SearchResult, id_of,
}
use editorial_team_v.Artifacts.Search.Fusion.{reciprocal_rank_fusion}
use editorial_team_v.Artifacts.Search.Dense.{Cache}
use editorial_team_v.Artifacts.Search.Hybrid.{
  Depths, max_excerpt_characters, excerpt_of, SearchError, not_retrieved, or_search, Scores,
  pair_scores, by_relevance, search_result, results_from, ranked, RetrievalStages, finalize,
  stages_of, search_chunks, search_with_stages, search,
}
use editorial_team_v.Artifacts.Search.Retriever.{Outside, corpus, dense, lexical, search_corpus}
use editorial_team_v.Artifacts.Search.Origin.{
  dense_rank-All, bm25_rank-All, reciprocal_rank_fusion-All,
}

length-keep_before : (c : ℕ) (t : Text) → length (keep_before c t) ≤ suc (length t)
length-keep_before c [] = ground arith
length-keep_before c (d ∷ t) = omega arith

length-rstrip : (s : Text) → length (rstrip s) ≤ length s
unfolding rstrip
length-rstrip [] = omega arith
length-rstrip (c ∷ s) = omega (arith, length-rstrip s, length-keep_before c (rstrip s))

length-cut : (n : ℕ) (t : Text) → length (rstrip (take n t) ++ (8230 ∷ [])) ≤ suc n
length-cut n t = omega (
  arith,
  length-rstrip (take n t),
  length-take n t,
  length-append (rstrip (take n t)) (8230 ∷ []),
)

length-excerpt_of : (t : Text) → length (excerpt_of t) ≤ max_excerpt_characters
unfolding excerpt_of
length-excerpt_of t = elim (Bool-cases (ltb max_excerpt_characters (length t))) [
  | inl e ↦ rw e (length-cut 599 t)
  | inr e ↦ rw e (ground arith)
]

module _ {F : Type 0} where
  -- A result that shows a chunk with a property.
  abbrev pub Shows : (SearchableArtifactChunk → Type 0) → SearchResult F → Type 0
  Shows P x =
      (s : SearchableArtifactChunk) × P s
      × (x.chunk_id ≡ id_of s)
      × (x.artifact_id ≡ s.chunk.artifact_id)
      × (x.task_id ≡ s.task_id)
      × (x.excerpt ≡ excerpt_of s.chunk.content)
      × (length x.excerpt ≤ max_excerpt_characters)

  abbrev pub Numbered : ℕ → List (SearchResult F) → Type 0
  Numbered n [] = Unit
  Numbered n (x ∷ xs) = (x.rank ≡ n) × Numbered (suc n) xs

module _ {F : Type 0} (floats : Floats F) (P : SearchableArtifactChunk → Type 0) where
  abbrev pub AreResults : ℕ → List (SearchResult F) → Type 0
  AreResults top xs = Numbered 1 xs × (length xs ≤ top) × All (Shows P) xs

  results_from-Shows :
      (scores : Scores floats) (n : ℕ) (cs : List (FusedCandidate F))
      → All (λ c. P c.chunk) cs
      → Numbered n (results_from floats scores n cs)
        × (length (results_from floats scores n cs) ≡ length cs)
        × All (Shows P) (results_from floats scores n cs)
  unfolding results_from search_result
  results_from-Shows scores n [] h = (tt, refl, tt)
  results_from-Shows scores n (c ∷ cs) h =
      let (numbered, size, shows) = results_from-Shows scores (suc n) cs h.1 in
      (
        (refl, numbered),
        omega (arith, size),
        ((c.chunk, h.0, refl, refl, refl, refl, length-excerpt_of c.chunk.chunk.content), shows),
      )

  ranked-AreResults :
      (r : SearchRequest) (cs : List (FusedCandidate F)) (scores : Scores floats)
      → All (λ c. P c.chunk) cs
      → AreResults r.top_k (ranked floats r cs scores)
  unfolding ranked
  ranked-AreResults r cs scores h =
      let ordered = sort_by (by_relevance floats r.prefer_recent scores) cs in
      let (numbered, size, shows) = results_from-Shows scores 1 (take r.top_k ordered) (
        All-take (λ c. P c.chunk) r.top_k ordered
          (All-sort_by (by_relevance floats r.prefer_recent scores) (λ c. P c.chunk) cs h)) in
      (numbered, omega (arith, size, length-take r.top_k ordered), shows)

  module _ (reranker : Text → List Text → Option (List (Option F))) (depths : Depths) where
    finalize-AreResults :
        (r : SearchRequest) (fs : List (FusedCandidate F)) (xs : List (SearchResult F))
        → All (λ f. P f.chunk) fs
        → finalize floats reranker depths r fs ≡ ok xs
        → AreResults r.top_k xs
    unfolding finalize
    finalize-AreResults r fs xs g h = elim (Bool-cases r.rerank) [
      | inr e ↦
          let same : ranked floats r fs [] ≡ xs = ground arith in
          subst (AreResults r.top_k) same (ranked-AreResults r fs [] g)
      | inl e ↦
          let cs = take depths.rerank_depth fs in
          elim (Option-cases (reranker r.query (map (λ c. c.chunk.chunk.content) cs))) [
            | inl n ↦ absurd (ground arith)
            | inr (ys, n) ↦ elim (Result-cases (pair_scores floats cs ys)) [
              | inr (f, k) ↦ absurd (ground arith)
              | inl (scores, k) ↦
                  let same : ranked floats r cs scores ≡ xs = ground arith in
                  subst (AreResults r.top_k) same (
                    ranked-AreResults r cs scores
                      (All-take (λ c. P c.chunk) depths.rerank_depth fs g))
            ]
          ]
    ]

    stages_of-AreResults :
        (r : SearchRequest) (ds ls : List (Candidate F)) (s : RetrievalStages floats)
        → All (λ c. P c.chunk) ds
        → All (λ c. P c.chunk) ls
        → stages_of floats reranker depths r ds ls ≡ ok s
        → AreResults r.top_k s.results
    unfolding stages_of
    stages_of-AreResults r ds ls s g k h =
        let (fs, ef, m) =
          >>=-eq-ok
            (or_raise _ (reciprocal_rank_fusion floats depths.rrf_k ds ls depths.fused_depth)) _
            h in
        let (xs, ex, n) = >>=-eq-ok (finalize floats reranker depths r fs) _ m in
        let e : reciprocal_rank_fusion floats depths.rrf_k ds ls depths.fused_depth ≡ ok fs =
          ground arith in
        let same : xs ≡ s.results = ground arith in
        subst (AreResults r.top_k) same (
          finalize-AreResults r fs xs
            (reciprocal_rank_fusion-All floats P depths.rrf_k depths.fused_depth ds ls fs g k e) ex)

-- Every element of a list is in it.
All-Mem :
    {A : Type 0} (xs full : List A) → ((x : A) → Mem x xs → Mem x full) → All (λ x. Mem x full) xs
All-Mem [] full f = tt
All-Mem (x ∷ xs) full f = (f x mem-cons_self, All-Mem xs full (λ y m. f y (mem-cons_of_mem x m)))

All-both :
    {A : Type 0} (P Q : A → Type 0) (xs : List A) → All P xs → All Q xs → All (λ x. P x × Q x) xs
All-both P Q [] g h = tt
All-both P Q (x ∷ xs) g h = ((g.0, h.0), All-both P Q xs g.1 h.1)

make_request-scope :
    (q r : SearchRequest)
    → make_request q ≡ ok r
    → validate_identifier q.conversation_id "conversation_id" ≡ ok r.conversation_id
unfolding make_request
make_request-scope q r h = ground arith

or_search-eq-ok :
    {E A : Type 0} (f : E → SearchError) (r : Result E A) {a : A} → or_search f r ≡ ok a → r ≡ ok a
or_search-eq-ok f (ok v) h = ground arith
or_search-eq-ok f (err e) h = absurd (ground arith)

module _ {F R V : Type 0} (o : Outside F R V) (depths : Depths) (t : Tables) where
  -- A chunk of those that are read, in the conversation.
  abbrev pub Found : List SearchableArtifactChunk → Text → SearchableArtifactChunk → Type 0
  Found chunks c s = Mem s chunks × (s.chunk.conversation_id ≡ c)

  search_chunks-AreResults :
      (P : SearchableArtifactChunk → Type 0) (r : SearchRequest)
      (chunks : List SearchableArtifactChunk) (cache : Cache o.floats o.arrays)
      (s : RetrievalStages o.floats)
      → All P chunks
      → (search_chunks o.floats o.reranker depths
          (corpus o depths t)
          (dense o depths)
          (lexical o depths)
          r
          chunks
          cache).0
        ≡ ok s
      → AreResults o.floats P r.top_k s.results
  unfolding search_chunks
  search_chunks-AreResults P r [] cache s g h =
      let e : [] ≡ s.results = ground arith in
      subst (AreResults o.floats P r.top_k) e (tt, omega arith, tt)
  search_chunks-AreResults P r (k ∷ rest) cache s g h =
      let pair = dense o depths r.query (k ∷ rest) cache in
      let ls = lexical o depths r.query (k ∷ rest) in
      let (ds, f, m) = >>=-eq-ok pair.0 _ (or_search-eq-ok not_retrieved _ h) in
      stages_of-AreResults o.floats P o.reranker depths r ds ls s
        (dense_rank-All o.floats P o.arrays o.model depths.dense_depth r.query (k ∷ rest) cache ds g
          f)
        (bm25_rank-All o.floats P o.is_alnum o.casefold o.arithmetic o.k1 o.b depths.bm25_depth
          r.query (k ∷ rest) g)
        m

  -- A search that succeeds has an accepted request and read the corpus of its conversation; its
  -- results are numbered from 1, at most `top_k` of them, each shows the identifiers and the
  -- excerpt, of at most 600 characters, of a chunk of that corpus, and that chunk belongs to the
  -- trimmed conversation of the request.
  pub search_corpus-AreResults :
      (q : SearchRequest) (cache : Cache o.floats o.arrays) (xs : List (SearchResult F))
      → (search_corpus o depths t q cache).0 ≡ ok xs
      → (r : SearchRequest) × (chunks : List SearchableArtifactChunk) × (make_request q ≡ ok r)
        × (corpus o depths t r.conversation_id r.created_from r.created_to ≡ ok chunks)
        × AreResults o.floats (Found chunks (strip q.conversation_id)) r.top_k xs
  unfolding search_corpus search search_with_stages
  search_corpus-AreResults q cache xs h = elim (Result-cases (make_request q)) [
    | inr (e, f) ↦ absurd (ground arith)
    | inl (r, f) ↦
        elim (Result-cases (corpus o depths t r.conversation_id r.created_from r.created_to)) [
          | inr (e, k) ↦ absurd (ground arith)
          | inl (chunks, k) ↦
              let stages =
                search_chunks o.floats o.reranker depths (corpus o depths t) (dense o depths)
                  (lexical o depths) r chunks cache in
              let ran : (stages.0 >>= λ s. ok s.results) ≡ ok xs = ground arith in
              let (s, es, same) = >>=-eq-ok stages.0 (λ s. ok s.results) ran in
              let results : s.results ≡ xs = ground arith in
              let scope =
                validate_identifier-eq_ok q.conversation_id r.conversation_id "conversation_id"
                  (make_request-scope q r f) in
              let trimmed : strip r.conversation_id ≡ strip q.conversation_id =
                rw scope.0 (strip_idem q.conversation_id) in
              let exact =
                list_searchable_chunks-exact o.stamp o.sha256 o.unstamp t r.conversation_id
                  r.created_from r.created_to chunks k in
              let inside : All (λ s. s.chunk.conversation_id ≡ strip q.conversation_id) chunks =
                subst (λ c. All (λ s. s.chunk.conversation_id ≡ c) chunks) trimmed exact.5 in
              (
                r,
                chunks,
                f,
                k,
                subst (AreResults o.floats (Found chunks (strip q.conversation_id)) r.top_k) results
                    (search_chunks-AreResults (Found chunks (strip q.conversation_id)) r chunks
                      cache s
                      (All-both (λ s. Mem s chunks)
                        (λ s. s.chunk.conversation_id ≡ strip q.conversation_id) chunks
                        (All-Mem chunks chunks (λ x m. m)) inside)
                      es),
              )
        ]
  ]
