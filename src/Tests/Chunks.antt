-- ===== src/Tests/Chunks.antt =====
-- An article that is longer than a chunk may be, cut into chunks.
use editorial_team_v.Prelude.{ok, err, text, Text, ℕ, List, [], ◌∷◌, map, refl, ◌≡◌, true}
use editorial_team_v.Artifacts.Models.{writer, EditorialArtifact, ArtifactChunk}
use editorial_team_v.Artifacts.Chunking.Units.{Limits}
use editorial_team_v.Artifacts.Chunking.Chunks.{chunk}
use editorial_team_v.Artifacts.Chunking.Spans.{ink, covers}
use editorial_team_v.Artifacts.Chunking.Cut.{AreChunks, span_of, chunk-AreChunks}
use editorial_team_v.Artifacts.Store.{ChunkRow}
use editorial_team_v.Artifacts.Store.Reads.{each, chunk_from_row}
use editorial_team_v.Artifacts.Store.Chunked.{chunk_rows, chunk_rows-read}
use editorial_team_v.Tests.Fixtures.{noon}
use editorial_team_v.Tests.Searches.{stamp, unstamp}

abbrev small : Limits
small = record { target_tokens = 3; max_tokens = 4; overlap_tokens = 1; version = text "v1" }

abbrev article : EditorialArtifact
article = record {
  artifact_id = text "artifact-v1-d";
  task_id = text "t";
  producer = writer;
  created_at = noon;
  conversation_id = text "c";
  user_request = text "Write.";
  content = text "# A\n\nB c d e f. \n\nG h.";
  content_sha256 = text "d";
}

abbrev digest : Text → Text
digest t = text "d"

abbrev cut : List ArtifactChunk
unfolding chunk
cut = elim (chunk digest small article) [ ok ks ↦ ks | err e ↦ [] ]

chunk-AreChunks_example :
    AreChunks article 0 cut
    × ((p : ℕ) → ink article.content p ≡ true → covers (map span_of cut) p ≡ true)
unfolding editorial_team_v.Artifacts.Chunking.Units.make_limits
    editorial_team_v.Contracts.validate_identifier editorial_team_v.Prelude.strip
    editorial_team_v.Prelude.contains chunk editorial_team_v.Prelude.Scan.matches_from
    editorial_team_v.Prelude.Scan.run_length editorial_team_v.Contracts.require_utc_timestamp
    editorial_team_v.Prelude.text_eq
chunk-AreChunks_example = chunk-AreChunks digest small small article cut refl (λ e. cc) refl

abbrev rows : List ChunkRow
unfolding chunk_rows
rows = elim (chunk_rows stamp digest small article) [ ok ks ↦ ks | err e ↦ [] ]

chunk_rows-read_example :
    (ks : List ArtifactChunk) × (chunk digest small article ≡ ok ks)
    × (each stamp digest unstamp (chunk_from_row stamp digest unstamp) rows ≡ ok ks)
unfolding chunk_rows editorial_team_v.Prelude.Scan.matches_from
    editorial_team_v.Prelude.Scan.run_length editorial_team_v.Contracts.require_non_blank
    editorial_team_v.Contracts.validate_identifier editorial_team_v.Prelude.contains
    editorial_team_v.Contracts.require_utc_timestamp editorial_team_v.Prelude.text_eq
chunk_rows-read_example = chunk_rows-read stamp digest unstamp small article rows refl refl
