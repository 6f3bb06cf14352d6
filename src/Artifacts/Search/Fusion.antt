-- ===== src/Artifacts/Search/Fusion.antt =====
-- artifacts/fusion.py: reciprocal rank fusion of a dense and a lexical ranking.
use editorial_team_v.Prelude.{
  ◌==◌, if◌then◌else◌, take, any, ok, ◌>>◌, reject_if, Text, text_eq, ℕ, ◌+◌, Bool, Option, none,
  some, List, [], ◌∷◌,
}
use editorial_team_v.Prelude.Sorting.{text_le, sort_by}
use editorial_team_v.Contracts.{rule, Checked}
use editorial_team_v.Artifacts.Models.{SearchableArtifactChunk}
use editorial_team_v.Artifacts.Search.Types.{Floats, Candidate, FusedCandidate, id_of, higher}

module _ {F : Type 0} where
  abbrev pub is_candidate : Text → Candidate F → Bool
  is_candidate id c = text_eq (id_of c.chunk) id

  -- `{item.chunk.chunk.chunk_id: item for item in items}.get(id)`: the last one counts.
  unfoldable pub find_last : Text → List (Candidate F) → Option (Candidate F)
  unfolding text_eq
  find_last id [] = none
  find_last id (c ∷ rest) = elim (find_last id rest) [
    | some d ↦ some d
    | none ↦ if is_candidate id c then some c else none
  ]

  -- The identifiers of a ranking, each once.
  unfoldable pub ids_of : List (Candidate F) → List Text
  unfolding text_eq
  ids_of [] = []
  ids_of (c ∷ rest) =
      let later = ids_of rest in
      if any (text_eq (id_of c.chunk)) later then later else id_of c.chunk ∷ later

-- `xs | ys`
unfoldable pub union : List Text → List Text → List Text
unfolding text_eq
union [] ys = ys
union (x ∷ xs) ys = let rest = union xs ys in if any (text_eq x) ys then rest else x ∷ rest

module _ {F : Type 0} (floats : Floats F) (rrf_k : ℕ) where
  abbrev pub share : Option (Candidate F) → F → F
  share none score = score
  share (some c) score = floats.plus score (floats.inverse (rrf_k + c.rank))

  abbrev pub rank_of : Option (Candidate F) → Option ℕ
  rank_of none = none
  rank_of (some c) = some c.rank

  abbrev pub score_of : Option (Candidate F) → Option F
  score_of none = none
  score_of (some c) = some c.score

  abbrev pub fused :
      SearchableArtifactChunk → Option (Candidate F) → Option (Candidate F) → FusedCandidate F
  fused chunk d l = record {
    chunk = chunk;
    dense_rank = rank_of d;
    dense_score = score_of d;
    bm25_rank = rank_of l;
    bm25_score = score_of l;
    rrf_score = share l (share d floats.nought);
  }

  -- A set's order is not determined, and no identifier is in neither ranking.
  unfoldable pub fuse_each :
      List (Candidate F) → List (Candidate F) → List Text → List (FusedCandidate F)
  unfolding find_last
  fuse_each dense lexical [] = []
  fuse_each dense lexical (id ∷ ids) =
      let rest = fuse_each dense lexical ids in
      elim (find_last id dense) [
        | some d ↦ fused d.chunk (some d) (find_last id lexical) ∷ rest
        | none ↦ elim (find_last id lexical) [
          | some l ↦ fused l.chunk none (some l) ∷ rest
          | none ↦ rest
        ]
      ]

  -- `key=lambda item: (-item.rrf_score, item.chunk.chunk.chunk_id)`
  unfoldable pub by_fusion : FusedCandidate F → FusedCandidate F → Bool
  unfolding text_le
  by_fusion x y = higher floats x.rrf_score y.rrf_score (text_le (id_of x.chunk) (id_of y.chunk))

  unfoldable pub reciprocal_rank_fusion :
      List (Candidate F) → List (Candidate F) → ℕ → Checked (List (FusedCandidate F))
  unfolding union ids_of fuse_each sort_by by_fusion
  reciprocal_rank_fusion dense lexical depth = do
    reject_if (rrf_k == 0) (rule "rrf_k must be a positive integer")
    reject_if (depth == 0) (rule "depth must be a positive integer")
    ok (
        take depth
          (sort_by by_fusion (fuse_each dense lexical (union (ids_of dense) (ids_of lexical)))))
