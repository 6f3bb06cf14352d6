-- ===== src/Artifacts/Search/Cached.antt =====
-- artifacts/retrieval.py: the cache of vectors does not show. A ranking that goes through a cache is
-- the ranking that embeds every chunk anew.
use editorial_team_v.Prelude.{
  ◌==◌, Bool-cases, Option-cases, is_some, is_none, length, take, All, ok, Text, text_eq_sound,
  text_eq_refl, ℕ, zero, suc, ◌≡◌, refl, sym, ap, ◌∙◌, subst, inl, inr, true, some, List, [], ◌∷◌,
  map, arith,
}
use editorial_team_v.Prelude.Sorting.{sort_by}
use editorial_team_v.Artifacts.Models.{SearchableArtifactChunk}
use editorial_team_v.Artifacts.Search.Types.{Floats, Scored, by_score, number_from}
use editorial_team_v.Artifacts.Search.Dense.{
  VectorKey, same_key, Arrays, EmbeddingModel, Cache, cached, normalized, fill_cache, key_of,
  missing, embed_missing, score_each, rank_cached, after_embedding, dense_rank,
}

same_key_sound : (j k : VectorKey) → same_key j k ≡ true → j ≡ k
same_key_sound j k h =
    let a : j.0 ≡ k.0 = text_eq_sound j.0 k.0 (ground arith) in
    let b : j.1 ≡ k.1 = text_eq_sound j.1 k.1 (ground arith) in
    let c : j.2 ≡ k.2 = text_eq_sound j.2 k.2 (ground arith) in λ i. (a i, b i, c i)

module _ {F R V : Type 0} (floats : Floats F) (arrays : Arrays F R V) (model : EmbeddingModel R)
    (raw : Text → R) (vector : Text → V) (content_of : VectorKey → Text)
    (embeds : (ts : List Text) → model.embed_documents ts ≡ some (map raw ts))
    (normal : (t : Text) → normalized floats arrays (raw t) ≡ ok (vector t)) where
  abbrev Vectors : Type 0
  Vectors = Cache floats arrays

  -- Every vector of the cache is that of the content that its key stands for.
  abbrev pub IsHonest : Cache floats arrays → Type 0
  IsHonest cache =
      (k : VectorKey) (v : V) → cached floats arrays k cache ≡ some v → v ≡ vector (content_of k)

  abbrev pub Known : SearchableArtifactChunk → Type 0
  Known s = s.chunk.content ≡ content_of (key_of floats arrays model s)

  abbrev Holds : Vectors → SearchableArtifactChunk → Type 0
  Holds cache s = is_some (cached floats arrays (key_of floats arrays model s) cache) ≡ true

  -- A cache that has at least the keys of another.
  abbrev Extends : Vectors → Vectors → Type 0
  Extends cache next =
      (k : VectorKey)
      → is_some (cached floats arrays k cache) ≡ true
      → is_some (cached floats arrays k next) ≡ true

  put-IsHonest :
      (k : VectorKey) (cache : Vectors)
      → IsHonest cache
      → IsHonest ((k, vector (content_of k)) ∷ cache)
  unfolding cached
  put-IsHonest k cache h j v e = elim (Bool-cases (same_key k j)) [
    | inl m ↦
        let same : vector (content_of k) ≡ v = ground arith in
        sym same ∙ ap (λ i. vector (content_of i)) (same_key_sound k j m)
    | inr m ↦ h j v (ground arith)
  ]

  put-Extends : (k : VectorKey) (v : V) (cache : Vectors) → Extends cache ((k, v) ∷ cache)
  unfolding cached
  put-Extends k v cache j h = elim (Bool-cases (same_key k j)) [
    | inl m ↦ rw m refl
    | inr m ↦ rw m h
  ]

  put-Holds :
      (s : SearchableArtifactChunk) (v : V) (cache : Vectors)
      → Holds ((key_of floats arrays model s, v) ∷ cache) s
  unfolding cached
  put-Holds s v cache = ground (
    arith,
    text_eq_refl s.chunk.chunk_id,
    text_eq_refl s.chunk.content_sha256,
    text_eq_refl model.model_id,
  )

  abbrev Filled : Vectors → List SearchableArtifactChunk → Vectors → Type 0
  Filled cache ms next = IsHonest next × Extends cache next × All (Holds next) ms

  fill_cache-Filled :
      (cache : Vectors) (ms : List SearchableArtifactChunk)
      → IsHonest cache
      → All Known ms
      → (next : Vectors) × (fill_cache floats arrays cache
            (map (key_of floats arrays model) ms)
            (map raw (map (λ s. s.chunk.content) ms))
          ≡ (ok tt, next))
        × Filled cache ms next
  unfolding fill_cache
  fill_cache-Filled cache [] h g = (cache, refl, (h, (λ k e. e), tt))
  fill_cache-Filled cache (s ∷ ms) h g =
      let k = key_of floats arrays model s in
      let v = vector s.chunk.content in
      let honest : IsHonest ((k, v) ∷ cache) =
        subst (λ t. IsHonest ((k, vector t) ∷ cache)) (sym g.0) (put-IsHonest k cache h) in
      let (next, e, f) = fill_cache-Filled ((k, v) ∷ cache) ms honest g.1 in
      (
        next,
        rw (normal s.chunk.content, fill_cache) e,
        (f.0, (λ j m. f.1 j (put-Extends k v cache j m)), (f.1 k (put-Holds s v cache), f.2)),
      )

  length-map : {A B : Type 0} (f : A → B) (xs : List A) → length (map f xs) ≡ length xs
  length-map f [] = refl
  length-map f (x ∷ xs) = omega (arith, length-map f xs)

  -- What is missing is embedded; then every chunk is there.
  embed_missing-Filled :
      (cache : Vectors) (ms : List SearchableArtifactChunk)
      → IsHonest cache
      → All Known ms
      → (next : Vectors) × (embed_missing floats arrays model cache ms ≡ (ok tt, next))
        × Filled cache ms next
  unfolding embed_missing
  embed_missing-Filled cache [] h g = (cache, refl, (h, (λ k e. e), tt))
  embed_missing-Filled cache (s ∷ ms) h g =
      let (next, e, f) = fill_cache-Filled cache (s ∷ ms) h g in
      let texts = map (λ s. s.chunk.content) (s ∷ ms) in
      let size : (length (map raw texts) == length (s ∷ ms)) ≡ true = ground (
        arith,
        length-map raw texts,
        length-map (λ (s : SearchableArtifactChunk). s.chunk.content) (s ∷ ms),
      ) in
      (next, rw (embeds texts, size, embed_missing) e, f)

  missing-Known :
      (cache : Vectors) (chunks : List SearchableArtifactChunk)
      → All Known chunks
      → All Known (missing floats arrays model cache chunks)
  unfolding missing
  missing-Known cache [] h = tt
  missing-Known cache (s ∷ rest) h =
      elim (Bool-cases (is_none (cached floats arrays (key_of floats arrays model s) cache))) [
        | inl e ↦ rw (e, missing) (h.0, missing-Known cache rest h.1)
        | inr e ↦ rw (e, missing) (missing-Known cache rest h.1)
      ]

  missing-Holds :
      (cache next : Vectors) (chunks : List SearchableArtifactChunk)
      → Extends cache next
      → All (Holds next) (missing floats arrays model cache chunks)
      → All (Holds next) chunks
  unfolding missing
  missing-Holds cache next [] e h = tt
  missing-Holds cache next (s ∷ rest) e h =
      let k = key_of floats arrays model s in
      elim (Option-cases (cached floats arrays k cache)) [
        | inl n ↦
            let both = rw (n, missing) at h in (both.0, missing-Holds cache next rest e both.1)
        | inr (v, n) ↦
            let later = rw (n, missing) at h in
            (e k (ap is_some n), missing-Holds cache next rest e later)
      ]

  module _ (query : V) (same : (t : Text) → arrays.same_shape (vector t) query ≡ true) where
    -- The scores of chunks whose vectors are computed anew.
    abbrev pub fresh : List SearchableArtifactChunk → List (Scored floats)
    fresh chunks = map (λ s. (s, arrays.dot query (vector s.chunk.content))) chunks

    score_each-fresh :
        (cache : Vectors) (chunks : List SearchableArtifactChunk)
        → IsHonest cache
        → All Known chunks
        → All (Holds cache) chunks
        → score_each floats arrays model cache query chunks ≡ ok (fresh chunks)
    unfolding score_each
    score_each-fresh cache [] h g a = refl
    score_each-fresh cache (s ∷ rest) h g a =
        let k = key_of floats arrays model s in
        elim (Option-cases (cached floats arrays k cache)) [
          | inl n ↦ absurd (cc (ap is_some n, a.0))
          | inr (v, n) ↦
              let e : v ≡ vector s.chunk.content = h k v n ∙ ap vector (sym g.0) in
              rw (n ∙ ap some e, same s.chunk.content, score_each-fresh cache rest h g.1 a.1)
        ]

    rank_cached-fresh :
        (depth : ℕ) (asked : Text) (raw_query : R) (cache : Vectors)
        (chunks : List SearchableArtifactChunk)
        → model.embed_query asked ≡ some raw_query
        → normalized floats arrays raw_query ≡ ok query
        → score_each floats arrays model cache query chunks ≡ ok (fresh chunks)
        → rank_cached floats arrays model depth asked chunks cache
          ≡ ok (number_from floats 1 (take depth (sort_by (by_score floats) (fresh chunks))))
    unfolding rank_cached
    rank_cached-fresh depth asked raw_query cache chunks e n scored = rw (e, n, scored)

    -- Where the embedding model embeds a list text by text, every vector can be normalized and has
    -- the shape of the query's, the contents of the chunks are determined by their keys, and the
    -- cache holds the vectors of its keys' contents, a dense ranking through the cache is the
    -- ranking of the scores that are computed anew for every chunk, and it leaves such a cache
    -- again.
    pub dense_rank-fresh :
        (depth : ℕ) (asked : Text) (raw_query : R) (chunks : List SearchableArtifactChunk)
        (cache : Cache floats arrays)
        → model.embed_query asked ≡ some raw_query
        → normalized floats arrays raw_query ≡ ok query
        → IsHonest cache
        → All Known chunks
        → (next : Cache floats arrays) × IsHonest next
          × (dense_rank floats arrays model depth asked chunks cache ≡ (
            ok (number_from floats 1 (take depth (sort_by (by_score floats) (fresh chunks)))),
            next,
          ))
    unfolding dense_rank after_embedding sort_by number_from
    dense_rank-fresh zero asked raw_query [] cache e n h g = (cache, h, refl)
    dense_rank-fresh (suc depth) asked raw_query [] cache e n h g = (cache, h, refl)
    dense_rank-fresh depth asked raw_query (s ∷ rest) cache e n h g =
        let ms = missing floats arrays model cache (s ∷ rest) in
        let (next, f, filled) =
          embed_missing-Filled cache ms h (missing-Known cache (s ∷ rest) g) in
        let scored =
          score_each-fresh next (s ∷ rest) filled.0 g
            (missing-Holds cache next (s ∷ rest) filled.1 filled.2) in
        let ranked = rank_cached-fresh depth asked raw_query next (s ∷ rest) e n scored in
        (
          next,
          filled.0,
          ap (after_embedding floats arrays model depth asked (s ∷ rest)) f
              ∙ (λ i. (ranked i, next)),
        )
