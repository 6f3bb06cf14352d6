-- ===== src/Tests/Vectors.antt =====
-- A ranking through a cache that holds one of two vectors.
use editorial_team_v.Prelude.{
  List, if◌then◌else◌, ok, Text, text, text_eq, ℕ, some, [], ◌∷◌, take, refl, ◌≡◌, arith,
}
use editorial_team_v.Prelude.Sorting.{sort_by}
use editorial_team_v.Artifacts.Search.Types.{by_score, number_from}
use editorial_team_v.Artifacts.Search.Dense.{VectorKey, cached, normalized, Cache, dense_rank}
use editorial_team_v.Artifacts.Search.Cached.{IsHonest, fresh, dense_rank-fresh}
use editorial_team_v.Tests.Searches.{outside}
use editorial_team_v.Tests.Fixtures.{noon}
use editorial_team_v.Artifacts.Models.{writer, SearchableArtifactChunk}

abbrev chunk_of : Text → ℕ → Text → SearchableArtifactChunk
chunk_of id ordinal content = record {
  chunk = record {
    chunk_id = id;
    artifact_id = text "artifact-v1-d";
    ordinal = ordinal;
    content = content;
    character_start = 0;
    character_end = 5;
    created_at = noon;
    producer = writer;
    conversation_id = text "c";
    chunker_version = text "v1";
    content_sha256 = text "d";
  };
  task_id = text "t";
  user_request = text "Write.";
}

abbrev chunks : List SearchableArtifactChunk
chunks = chunk_of (text "k1") 0 (text "One two.") ∷ chunk_of (text "k2") 1 (text "Three.") ∷ []

abbrev content_of : VectorKey → Text
content_of k = if text_eq k.0 (text "k1") then text "One two." else text "Three."

normal_one : (t : Text) → normalized outside.floats outside.arrays 1 ≡ ok 1
unfolding normalized
normal_one t = refl

abbrev half_cached : Cache outside.floats outside.arrays
half_cached = ((text "k1", text "d", text "m"), 1) ∷ []

half_cached-IsHonest :
    (k : VectorKey) (v : ℕ) → cached outside.floats outside.arrays k half_cached ≡ some v → v ≡ 1
unfolding cached
half_cached-IsHonest k v e = ground arith

dense_rank-fresh_example :
    (next : Cache outside.floats outside.arrays) × IsHonest outside.floats outside.arrays
      outside.model
      (λ t. 1)
      (λ t. 1)
      content_of
      (λ ts. refl)
      normal_one
      next
    × (dense_rank outside.floats outside.arrays outside.model 2 (text "two") chunks half_cached ≡ (
      ok (
          number_from outside.floats 1 (
            take 2 (
              sort_by (by_score outside.floats) (
                fresh outside.floats outside.arrays outside.model
                  (λ t. 1)
                  (λ t. 1)
                  content_of
                  (λ ts. refl)
                  normal_one
                  1
                  (λ t. refl)
                  chunks)))),
      next,
    ))
unfolding text_eq
dense_rank-fresh_example =
    dense_rank-fresh outside.floats outside.arrays outside.model (λ t. 1) (λ t. 1) content_of
      (λ ts. refl) normal_one 1 (λ t. refl) 2 (text "two") 1 chunks half_cached refl (normal_one [])
      half_cached-IsHonest (refl, (refl, tt))
