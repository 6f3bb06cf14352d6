-- ===== src/Artifacts/Chunking/Chunks.antt =====
-- artifacts/chunking.py: the chunks of an artifact. `sha256` is the hexadecimal digest of the UTF-8
-- bytes of a text.
use editorial_team_v.Prelude.{
  leb, ◌==◌, if◌then◌else◌, length, ok, ◌>>=◌, Text, text, rstrip, strip, ℕ, suc, true, false, List,
  [], ◌∷◌, ◌++◌, starts_with,
}
use editorial_team_v.Prelude.Decimal.{decimal}
use editorial_team_v.Prelude.Scan.{Span, span, slice}
use editorial_team_v.Contracts.{Checked}
use editorial_team_v.Artifacts.Models.{EditorialArtifact, ArtifactChunk, make_chunk, content_sha256}
use editorial_team_v.Artifacts.Chunking.Patterns.{tokens}
use editorial_team_v.Artifacts.Chunking.Units.{Limits, units}
use editorial_team_v.Artifacts.Chunking.Pack.{pack}

-- The spans of the chunks of a text.
unfoldable pub chunk_spans : Limits → Text → List Span
unfolding tokens units pack
chunk_spans limits t =
    if leb (tokens t) limits.max_tokens
    then span 0 (length t) ∷ []
    else pack limits t (units limits t)

-- `value.replace("\r\n", "\n").replace("\r", "\n")`
unfoldable pub unify_breaks : Text → Text
unfolding starts_with
unify_breaks [] = []
unify_breaks (c ∷ s) =
    let rest = unify_breaks s in
    if c == 13 then if starts_with (10 ∷ []) s then rest else 10 ∷ rest else c ∷ rest

-- `"\n".join(line.rstrip() for line in s.split("\n"))`, where `line` is the line read so far.
unfoldable pub rstrip_lines : Text → Text → Text
unfolding rstrip
rstrip_lines line [] = rstrip line
rstrip_lines line (c ∷ s) = elim (c == 10) [
  | true ↦ rstrip line ++ (10 ∷ rstrip_lines [] s)
  | false ↦ rstrip_lines (line ++ (c ∷ [])) s
]

abbrev pub normalized : Text → Text
normalized value = strip (rstrip_lines [] (unify_breaks value))

module _ (sha256 : Text → Text) (limits : Limits) where
  unfoldable pub chunk_from_span : EditorialArtifact → ℕ → Span → Checked ArtifactChunk
  unfolding content_sha256 make_chunk decimal unify_breaks rstrip_lines strip
  chunk_from_span a ordinal p = do
    let value = slice a.content p.start p.stop
    digest ← content_sha256 sha256 value
    let identity =
        text "chunk:v1:"
        ++ (a.artifact_id
            ++ (text ":"
                ++ (limits.version
                    ++ (text ":" ++ (decimal ordinal ++ (text ":" ++ sha256 (normalized value)))))))
    make_chunk sha256 (record {
      chunk_id = text "chunk-v1-" ++ sha256 identity;
      artifact_id = a.artifact_id;
      ordinal = ordinal;
      content = value;
      character_start = p.start;
      character_end = p.stop;
      created_at = a.created_at;
      producer = a.producer;
      conversation_id = a.conversation_id;
      chunker_version = limits.version;
      content_sha256 = digest;
    })

  unfoldable pub chunks_from : EditorialArtifact → ℕ → List Span → Checked (List ArtifactChunk)
  unfolding chunk_from_span
  chunks_from a ordinal [] = ok []
  chunks_from a ordinal (p ∷ rest) = do
    k ← chunk_from_span a ordinal p
    ks ← chunks_from a (suc ordinal) rest
    ok (k ∷ ks)

  unfoldable pub chunk : EditorialArtifact → Checked (List ArtifactChunk)
  unfolding chunks_from chunk_spans
  chunk a = chunks_from a 0 (chunk_spans limits a.content)
