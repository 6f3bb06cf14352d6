-- ===== src/Artifacts/Search/Dense.antt =====
-- artifacts/retrieval.py: `DenseRetriever`, its cache passed on explicitly. An exception of the
-- embedding model, which `search_with_stages` turns into a `RetrievalError`, is one here.
use editorial_team_v.Prelude.{
  ◌==◌, if◌then◌else◌, is_none, length, take, Result, ok, err, ◌>>=◌, ◌>>◌, reject_if, Text,
  text_eq, ℕ, Bool, ◌&&◌, ◌||◌, not, Option, none, some, List, [], ◌∷◌, map,
}
use editorial_team_v.Prelude.Sorting.{sort_by}
use editorial_team_v.Artifacts.Models.{SearchableArtifactChunk}
use editorial_team_v.Artifacts.Search.Types.{
  Floats, Candidate, Scored, same_score, by_score, number_from,
}

pub data RetrievalError : Type 0 where
  retrieval_failed : RetrievalError

-- Identifier of the chunk, digest of its content, identifier of the model.
abbrev pub VectorKey : Type 0
VectorKey = Text × Text × Text

abbrev pub same_key : VectorKey → VectorKey → Bool
same_key j k = text_eq j.0 k.0 && (text_eq j.1 k.1 && text_eq j.2 k.2)

-- What the retriever uses of NumPy: raw vectors `R` become arrays `V`.
pub record Arrays (F R V : Type 0) : Type 0 where
  pub as_array : R → Option V
  pub ndim : V → ℕ
  pub size : V → ℕ
  pub all_finite : V → Bool
  pub norm : V → F
  pub over : V → F → V
  pub same_shape : V → V → Bool
  pub dot : V → V → F

-- The embedding model: `none` is an exception.
pub record EmbeddingModel (R : Type 0) : Type 0 where
  pub model_id : Text
  pub embed_documents : List Text → Option (List R)
  pub embed_query : Text → Option R

abbrev pub or_failed : {A : Type 0} → Option A → Result RetrievalError A
or_failed none = err retrieval_failed
or_failed (some a) = ok a

module _ {F R V : Type 0} (floats : Floats F) (arrays : Arrays F R V) where
  abbrev pub Cache : Type 0
  Cache = List (VectorKey × V)

  unfoldable pub cached : VectorKey → Cache → Option V
  unfolding text_eq
  cached k [] = none
  cached k (e ∷ rest) = if same_key e.0 k then some e.1 else cached k rest

  unfoldable pub normalized : R → Result RetrievalError V
  normalized raw = do
    value ← or_failed (arrays.as_array raw)
    reject_if
        (not (arrays.ndim value == 1) || arrays.size value == 0 || not (arrays.all_finite value))
        retrieval_failed
    reject_if (same_score floats (arrays.norm value) floats.nought) retrieval_failed
    ok (arrays.over value (arrays.norm value))

  -- The loop over the missing chunks: what was put into the cache stays when a later vector is
  -- refused. Lists of different lengths are refused before.
  unfoldable pub fill_cache :
      Cache → List VectorKey → List R → Result RetrievalError (Unit {0}) × Cache
  unfolding normalized
  fill_cache cache [] raws = (ok tt, cache)
  fill_cache cache (k ∷ keys) [] = (ok tt, cache)
  fill_cache cache (k ∷ keys) (raw ∷ raws) = elim (normalized raw) [
    | err e ↦ (err e, cache)
    | ok v ↦ fill_cache ((k, v) ∷ cache) keys raws
  ]

  module _ (model : EmbeddingModel R) where
    abbrev pub key_of : SearchableArtifactChunk → VectorKey
    key_of s = (s.chunk.chunk_id, s.chunk.content_sha256, model.model_id)

    unfoldable pub missing : Cache → List SearchableArtifactChunk → List SearchableArtifactChunk
    unfolding cached
    missing cache [] = []
    missing cache (s ∷ rest) =
        let later = missing cache rest in
        if is_none (cached (key_of s) cache) then s ∷ later else later

    unfoldable pub embed_missing :
        Cache → List SearchableArtifactChunk → Result RetrievalError (Unit {0}) × Cache
    unfolding fill_cache
    embed_missing cache [] = (ok tt, cache)
    embed_missing cache (s ∷ rest) =
        elim (model.embed_documents (map (λ s. s.chunk.content) (s ∷ rest))) [
          | none ↦ (err retrieval_failed, cache)
          | some raws ↦
              if length raws == length (s ∷ rest)
              then fill_cache cache (map key_of (s ∷ rest)) raws
              else (err retrieval_failed, cache)
        ]

    unfoldable pub score_each :
        Cache → V → List SearchableArtifactChunk → Result RetrievalError (List (Scored floats))
    unfolding cached
    score_each cache query [] = ok []
    score_each cache query (s ∷ rest) = do
      vector ← or_failed (cached (key_of s) cache)
      reject_if (not (arrays.same_shape vector query)) retrieval_failed
      later ← score_each cache query rest
      ok ((s, arrays.dot query vector) ∷ later)

    unfoldable pub rank_cached :
        ℕ → Text → List SearchableArtifactChunk → Cache → Result RetrievalError (List (Candidate F))
    unfolding normalized score_each sort_by by_score number_from
    rank_cached depth query chunks cache = do
      raw ← or_failed (model.embed_query query)
      vector ← normalized raw
      scored ← score_each cache vector chunks
      ok (number_from floats 1 (take depth (sort_by (by_score floats) scored)))

    unfoldable pub after_embedding :
        ℕ
        → Text
        → List SearchableArtifactChunk
        → Result RetrievalError (Unit {0}) × Cache
        → Result RetrievalError (List (Candidate F)) × Cache
    unfolding rank_cached
    after_embedding depth query chunks (err e, next) = (err e, next)
    after_embedding depth query chunks (ok _, next) = (rank_cached depth query chunks next, next)

    -- `DenseRetriever.rank`
    unfoldable pub dense_rank :
        ℕ
        → Text
        → List SearchableArtifactChunk
        → Cache
        → Result RetrievalError (List (Candidate F)) × Cache
    unfolding embed_missing missing after_embedding
    dense_rank depth query [] cache = (ok [], cache)
    dense_rank depth query (s ∷ rest) cache =
        after_embedding depth query (s ∷ rest) (embed_missing cache (missing cache (s ∷ rest)))
