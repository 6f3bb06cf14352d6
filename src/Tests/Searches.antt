-- ===== src/Tests/Searches.antt =====
-- A corpus of two chunks, read, listed and searched.
use editorial_team_v.Prelude.{
  ltb, leb, if◌then◌else◌, ok, err, Text, text, ℕ, ◌+◌, ◌/◌, none, some, List, [], ◌∷◌, map, refl,
  ◌≡◌, ◌≤◌, ◌⊎◌, true, false, Bool, strip, take, any, ◌||◌, keep, Result, arith,
}
use editorial_team_v.Prelude.Sorting.{IsOrdered}
use editorial_team_v.Contracts.{Datetime, Checked}
use editorial_team_v.Artifacts.Models.{EditorialArtifact, SearchableArtifactChunk}
use editorial_team_v.Artifacts.Store.{ArtifactRow, ChunkRow, Tables, artifact_from_row}
use editorial_team_v.Artifacts.Store.Reads.{window, each, list_searchable_chunks, list_artifacts}
use editorial_team_v.Artifacts.Store.Listing.{NotAfter, in_conversation, list_artifacts-scoped}
use editorial_team_v.Artifacts.Search.Types.{
  Floats, SearchRequest, make_request, Candidate, FusedCandidate, SearchResult,
}
use editorial_team_v.Artifacts.Search.Fusion.{reciprocal_rank_fusion}
use editorial_team_v.Artifacts.Search.Fused.{IsFusion, reciprocal_rank_fusion-IsFusion}
use editorial_team_v.Artifacts.Search.Hybrid.{Depths, Scores, finalize}
use editorial_team_v.Artifacts.Search.Retriever.{Outside, corpus, search_corpus}
use editorial_team_v.Artifacts.Search.Results.{AreResults, Found, search_corpus-AreResults}
use editorial_team_v.Artifacts.Search.Relevance.{Given, Arranged, candidates, finalize-Arranged}
use editorial_team_v.Tests.Fixtures.{noon}

abbrev pub digest : Text → Text
digest t = text "d"

abbrev pub stamp : Datetime → Text
stamp t = text "1"

abbrev pub unstamp : Text → Checked Datetime
unstamp t = ok noon

abbrev pub draft_row : ArtifactRow
draft_row = record {
  artifact_id = text "artifact-v1-d";
  task_id = text "t";
  producer = text "writer";
  created_at = text "1";
  conversation_id = text "c";
  user_request = text "Write.";
  content = text "One two. Three.";
  content_sha256 = text "d";
  chunker_version = text "v1";
}

abbrev chunk_row : Text → ℕ → Text → ChunkRow
chunk_row id ordinal content = record {
  chunk_id = id;
  artifact_id = text "artifact-v1-d";
  ordinal = ordinal;
  content = content;
  character_start = 0;
  character_end = 5;
  created_at = text "1";
  producer = text "writer";
  conversation_id = text "c";
  chunker_version = text "v1";
  content_sha256 = text "d";
}

abbrev stored : Tables
stored = record {
  artifacts = draft_row ∷ [];
  chunks = chunk_row (text "k2") 1 (text "Three.") ∷ chunk_row (text "k1") 0 (text "One two.") ∷ [];
}

abbrev pub eligible : List SearchableArtifactChunk
unfolding list_searchable_chunks
eligible = elim (list_searchable_chunks stamp digest unstamp stored (text " c") (some noon) none) [
  | ok ss ↦ ss
  | err e ↦ []
]

list_artifacts-scoped_example :
    (rows : List ArtifactRow) × IsOrdered NotAfter rows
    × (list_artifacts stamp digest unstamp stored none none (some noon)
        ≡ each stamp digest unstamp (artifact_from_row digest unstamp) rows)
    × (list_artifacts stamp digest unstamp stored (some (text "c")) none (some noon)
        ≡ each stamp digest unstamp
            (artifact_from_row digest unstamp)
            (keep (in_conversation (text "c")) rows))
unfolding editorial_team_v.Contracts.validate_identifier strip editorial_team_v.Prelude.contains
    window
list_artifacts-scoped_example =
    list_artifacts-scoped stamp digest unstamp stored (text "c") (text "c") none (some noon)
      (none, some (text "1")) refl refl

pub leb_total : (x y : ℕ) → (leb x y ≡ true) ⊎ (leb y x ≡ true)
leb_total x y = ground arith

pub leb_trans : (x y z : ℕ) → leb x y ≡ true → leb y z ≡ true → leb x z ≡ true
leb_trans x y z h k = ground arith

-- Scores in millionths.
abbrev pub millionths : Floats ℕ
millionths = record {
  nought = 0;
  plus = λ x y. x + y;
  inverse = λ n. 1000000 / n;
  at_most = leb;
  finite = λ x. true;
  at_most_total = leb_total;
  at_most_trans = leb_trans;
}

abbrev pub outside : Outside ℕ ℕ ℕ
outside = record {
  floats = millionths;
  arithmetic = record {
    of_nat = λ n. n;
    half = 1;
    minus = λ x y. x;
    times = λ x y. x + y;
    divide = λ x y. x;
    log = λ x. x;
  };
  arrays = record {
    as_array = λ r. some r;
    ndim = λ v. 1;
    size = λ v. 1;
    all_finite = λ v. true;
    norm = λ v. 1;
    over = λ v n. v;
    same_shape = λ v w. true;
    dot = λ v w. v + w;
  };
  model = record {
    model_id = text "m";
    embed_documents = λ ts. some (map (λ t. 1) ts);
    embed_query = λ t. some 1;
  };
  reranker = λ q ts. some (map (λ t. some 3) ts);
  is_alnum = λ c. leb 65 c;
  casefold = λ t. t;
  k1 = 1;
  b = 1;
  stamp = stamp;
  sha256 = digest;
  unstamp = unstamp;
}

abbrev depths : Depths
depths = record { dense_depth = 2; bm25_depth = 2; rrf_k = 60; fused_depth = 2; rerank_depth = 1 }

abbrev request : SearchRequest
request = record {
  query = text "two";
  conversation_id = text "c";
  created_from = none;
  created_to = none;
  prefer_recent = true;
  top_k = 5;
  rerank = false;
}

abbrev found : List (SearchResult ℕ)
unfolding search_corpus
found = elim (search_corpus outside depths stored request []).0 [ ok xs ↦ xs | err e ↦ [] ]

search_corpus-AreResults_example :
    (r : SearchRequest) × (chunks : List SearchableArtifactChunk) × (make_request request ≡ ok r)
    × (corpus outside depths stored r.conversation_id r.created_from r.created_to ≡ ok chunks)
    × AreResults millionths (Found outside depths stored chunks (text "c")) r.top_k found
unfolding search_corpus strip editorial_team_v.Prelude.contains
    editorial_team_v.Artifacts.Models.content_sha256
search_corpus-AreResults_example =
    search_corpus-AreResults outside depths stored request [] found refl

abbrev dense_ranking : List (Candidate ℕ)
dense_ranking = elim eligible [
  | [] ↦ []
  | s ∷ rest ↦ record { chunk = s; rank = 1; score = 9 } ∷ []
]

abbrev fused_ranking : List (FusedCandidate ℕ)
unfolding reciprocal_rank_fusion
fused_ranking = elim (reciprocal_rank_fusion millionths 60 dense_ranking dense_ranking 2) [
  | ok fs ↦ fs
  | err e ↦ []
]

reciprocal_rank_fusion-IsFusion_example :
    (full : List (FusedCandidate ℕ)) × IsFusion millionths 60 dense_ranking dense_ranking full
    × (fused_ranking ≡ take 2 full)
unfolding reciprocal_rank_fusion
reciprocal_rank_fusion-IsFusion_example =
    reciprocal_rank_fusion-IsFusion millionths 60 dense_ranking dense_ranking 2 fused_ranking refl

abbrev reranked : SearchRequest
reranked = record request { rerank = true }

abbrev final_ranking : List (SearchResult ℕ)
unfolding finalize
final_ranking = elim (finalize millionths outside.reranker depths reranked fused_ranking) [
  | ok xs ↦ xs
  | err e ↦ []
]

finalize-Arranged_example :
    (scores : Scores millionths) × Given millionths outside.reranker reranked
      (candidates millionths depths reranked fused_ranking)
      scores
      true
    × Arranged millionths reranked
        (candidates millionths depths reranked fused_ranking)
        scores
        final_ranking
unfolding finalize fused_ranking eligible strip editorial_team_v.Prelude.contains
    editorial_team_v.Artifacts.Models.content_sha256
finalize-Arranged_example =
    finalize-Arranged millionths outside.reranker depths reranked fused_ranking final_ranking refl
