-- ===== src/Artifacts/Search/Retriever.antt =====
-- artifacts/retrieval.py: the retriever as it is put together, over the stored tables.
use editorial_team_v.Prelude.{Result, Text, ℕ, Bool, Option, List}
use editorial_team_v.Contracts.{Checked, Datetime}
use editorial_team_v.Artifacts.Models.{SearchableArtifactChunk}
use editorial_team_v.Artifacts.Store.{Tables, Kept}
use editorial_team_v.Artifacts.Store.Reads.{list_searchable_chunks}
use editorial_team_v.Artifacts.Search.Types.{Floats, SearchRequest, Candidate, SearchResult}
use editorial_team_v.Artifacts.Search.Dense.{
  RetrievalError, Arrays, EmbeddingModel, Cache, dense_rank,
}
use editorial_team_v.Artifacts.Search.Lexical.{Arithmetic, bm25_rank}
use editorial_team_v.Artifacts.Search.Hybrid.{Depths, SearchError, search}

-- What the retriever is given: the models, NumPy, floats, Python's tables of characters, the
-- parameters of BM25, and the functions that the store uses.
pub record Outside (F R V : Type 0) : Type 0 where
  pub floats : Floats F
  pub arithmetic : Arithmetic F
  pub arrays : Arrays F R V
  pub model : EmbeddingModel R
  pub reranker : Text → List Text → Option (List (Option F))
  pub is_alnum : ℕ → Bool
  pub casefold : Text → Text
  pub k1 : F
  pub b : F
  pub stamp : Datetime → Text
  pub sha256 : Text → Text
  pub unstamp : Text → Checked Datetime

module _ {F R V : Type 0} (o : Outside F R V) (depths : Depths) where
  abbrev pub corpus :
      Tables → Text → Option Datetime → Option Datetime → Kept (List SearchableArtifactChunk)
  corpus t = list_searchable_chunks o.stamp o.sha256 o.unstamp t

  abbrev pub dense :
      Text
      → List SearchableArtifactChunk
      → Cache o.floats o.arrays
      → Result RetrievalError (List (Candidate F)) × Cache o.floats o.arrays
  dense query chunks cache =
      dense_rank o.floats o.arrays o.model depths.dense_depth query chunks cache

  abbrev pub lexical : Text → List SearchableArtifactChunk → List (Candidate F)
  lexical query chunks =
      bm25_rank o.is_alnum o.casefold o.floats o.arithmetic o.k1 o.b depths.bm25_depth query chunks

  unfoldable pub search_corpus :
      Tables
      → SearchRequest
      → Cache o.floats o.arrays
      → Result SearchError (List (SearchResult F)) × Cache o.floats o.arrays
  unfolding search dense_rank bm25_rank list_searchable_chunks
  search_corpus t request cache =
      search o.floats o.reranker depths (corpus t) dense lexical request cache
