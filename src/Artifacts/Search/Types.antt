-- ===== src/Artifacts/Search/Types.antt =====
-- artifacts/retrieval_types.py, and the candidates of artifacts/lexical.py and artifacts/fusion.py.
-- A score is a value of any type `F`, which stands for the floats other than NaN.
use editorial_team_v.Prelude.{
  ltb, leb, if◌then◌else◌, ok, ◌>>=◌, ◌>>◌, reject_if, Text, ℕ, suc, String, ◌≡◌, ◌⊎◌, Bool, true,
  false, ◌&&◌, not, Option, none, some, List, [], ◌∷◌,
}
use editorial_team_v.Prelude.Sorting.{text_le}
use editorial_team_v.Contracts.{
  rule, Checked, Datetime, require_non_blank, require_utc_timestamp, validate_identifier,
}
use editorial_team_v.Artifacts.Models.{ArtifactProducer, SearchableArtifactChunk}

-- The arithmetic of scores: `inverse n` is `1 / n`, and `finite` is `isfinite`.
pub record Floats (F : Type 0) : Type 0 where
  pub nought : F
  pub plus : F → F → F
  pub inverse : ℕ → F
  pub at_most : F → F → Bool
  pub finite : F → Bool
  pub at_most_total : (x y : F) → (at_most x y ≡ true) ⊎ (at_most y x ≡ true)
  pub at_most_trans : (x y z : F) → at_most x y ≡ true → at_most y z ≡ true → at_most x z ≡ true

pub record SearchRequest : Type 0 where
  pub query : Text
  pub conversation_id : Text
  pub created_from : Option Datetime
  pub created_to : Option Datetime
  pub prefer_recent : Bool
  pub top_k : ℕ
  pub rerank : Bool

unfoldable pub check_time : Option Datetime → String → Checked (Unit {0})
check_time none field = ok tt
check_time (some d) field = do _ ← require_utc_timestamp d field; ok tt

abbrev pub later_than : Option Datetime → Option Datetime → Bool
later_than none to = false
later_than (some from) none = false
later_than (some from) (some to) = ltb to.instant from.instant

unfoldable pub make_request : SearchRequest → Checked SearchRequest
unfolding check_time
make_request r = do
  q ← require_non_blank r.query "query"
  c ← validate_identifier r.conversation_id "conversation_id"
  check_time r.created_from "created_from"
  check_time r.created_to "created_to"
  reject_if (later_than r.created_from r.created_to)
      (rule "created_from must not be later than created_to")
  reject_if (not (leb 1 r.top_k && leb r.top_k 10)) (rule "top_k must be between 1 and 10")
  ok (record r { query = q; conversation_id = c })

-- `DenseCandidate`, and `LexicalCandidate` of artifacts/lexical.py
pub record Candidate (F : Type 0) : Type 0 where
  pub chunk : SearchableArtifactChunk
  pub rank : ℕ
  pub score : F

pub record FusedCandidate (F : Type 0) : Type 0 where
  pub chunk : SearchableArtifactChunk
  pub dense_rank : Option ℕ
  pub dense_score : Option F
  pub bm25_rank : Option ℕ
  pub bm25_score : Option F
  pub rrf_score : F

pub record SearchResult (F : Type 0) : Type 0 where
  pub rank : ℕ
  pub chunk_id : Text
  pub artifact_id : Text
  pub task_id : Text
  pub excerpt : Text
  pub created_at : Datetime
  pub producer : ArtifactProducer
  pub dense_rank : Option ℕ
  pub dense_score : Option F
  pub bm25_rank : Option ℕ
  pub bm25_score : Option F
  pub rrf_score : F
  pub rerank_score : Option F
  pub chunk_ordinal : ℕ

abbrev pub id_of : SearchableArtifactChunk → Text
id_of s = s.chunk.chunk_id

module _ {F : Type 0} (floats : Floats F) where
  -- `x == y`
  abbrev pub same_score : F → F → Bool
  same_score x y = floats.at_most x y && floats.at_most y x

  -- The order of the key `(-score, rest)`
  abbrev pub higher : F → F → Bool → Bool
  higher x y rest = if same_score x y then rest else floats.at_most y x

  abbrev pub Scored : Type 0
  Scored = SearchableArtifactChunk × F

  -- `key=lambda value: (-value[1], value[0].chunk.chunk_id)`
  unfoldable pub by_score : Scored → Scored → Bool
  unfolding text_le
  by_score p q = higher p.1 q.1 (text_le (id_of p.0) (id_of q.0))

  -- Candidates with their ranks, from `rank` on.
  unfoldable pub number_from : ℕ → List Scored → List (Candidate F)
  number_from rank [] = []
  number_from rank (p ∷ rest) =
      record { chunk = p.0; rank = rank; score = p.1 } ∷ number_from (suc rank) rest
