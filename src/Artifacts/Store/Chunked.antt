-- ===== src/Artifacts/Store/Chunked.antt =====
-- artifacts/store.py: the chunks of an artifact as rows, and read back.
use editorial_team_v.Prelude.{
  ok, ◌>>=◌, >>=-eq-ok, Text, text_eq, ℕ, suc, ◌≡◌, refl, sym, subst, List, [], ◌∷◌, map, arith,
}
use editorial_team_v.Contracts.{Checked, Datetime}
use editorial_team_v.Contracts.Identity.{validate_identifier_idem, require_non_blank_idem}
use editorial_team_v.Artifacts.Models.{
  ArtifactProducer, writer, editor, producer_value, EditorialArtifact, ArtifactChunk, make_chunk,
  content_sha256,
}
use editorial_team_v.Artifacts.Chunking.Units.{Limits}
use editorial_team_v.Artifacts.Chunking.Chunks.{chunk_spans, chunk_from_span, chunks_from, chunk}
use editorial_team_v.Artifacts.Chunking.Cut.{make_chunk-fields}
use editorial_team_v.Prelude.Scan.{Span, slice}
use editorial_team_v.Artifacts.Store.{ChunkRow, parse_producer}
use editorial_team_v.Artifacts.Store.Reads.{chunk_from_row, each}

-- `_chunk_values`
abbrev pub chunk_values : (Datetime → Text) → ArtifactChunk → ChunkRow
chunk_values stamp k = record {
  chunk_id = k.chunk_id;
  artifact_id = k.artifact_id;
  ordinal = k.ordinal;
  content = k.content;
  character_start = k.character_start;
  character_end = k.character_end;
  created_at = stamp k.created_at;
  producer = producer_value k.producer;
  conversation_id = k.conversation_id;
  chunker_version = k.chunker_version;
  content_sha256 = k.content_sha256;
}

-- What the store is given for a chunker: the rows of an artifact's chunks.
unfoldable pub chunk_rows :
    (Datetime → Text) → (Text → Text) → Limits → EditorialArtifact → Checked (List ChunkRow)
unfolding chunk
chunk_rows stamp sha256 limits a = do ks ← chunk sha256 limits a; ok (map (chunk_values stamp) ks)

producer-read : (p : ArtifactProducer) → parse_producer (producer_value p) ≡ ok p
unfolding parse_producer text_eq
producer-read writer = refl
producer-read editor = refl

-- A chunk that was constructed is constructed again from its own fields.
make_chunk_idem :
    (sha256 : Text → Text) (q k : ArtifactChunk)
    → make_chunk sha256 q ≡ ok k
    → make_chunk sha256 k ≡ ok k
unfolding make_chunk
make_chunk_idem sha256 q k h = ground (
  arith,
  validate_identifier_idem q.chunk_id k.chunk_id "chunk_id" "chunk_id",
  validate_identifier_idem q.artifact_id k.artifact_id "artifact_id" "artifact_id",
  validate_identifier_idem q.conversation_id k.conversation_id "conversation_id" "conversation_id",
  validate_identifier_idem q.chunker_version k.chunker_version "chunker_version" "chunker_version",
  require_non_blank_idem q.content k.content "content" "content",
)

module _ (stamp : Datetime → Text) (sha256 : Text → Text) (unstamp : Text → Checked Datetime) where
  row-read :
      (q k : ArtifactChunk)
      → make_chunk sha256 q ≡ ok k
      → unstamp (stamp k.created_at) ≡ ok k.created_at
      → chunk_from_row stamp sha256 unstamp (chunk_values stamp k) ≡ ok k
  unfolding chunk_from_row
  row-read q k h u = rw (u, producer-read k.producer, make_chunk_idem sha256 q k h)

  rows-read :
      (limits : Limits) (a : EditorialArtifact) (n : ℕ) (ps : List Span) (ks : List ArtifactChunk)
      → unstamp (stamp a.created_at) ≡ ok a.created_at
      → chunks_from sha256 limits a n ps ≡ ok ks
      → each stamp sha256 unstamp
          (chunk_from_row stamp sha256 unstamp)
          (map (chunk_values stamp) ks)
        ≡ ok ks
  unfolding chunks_from chunk_from_span each
  rows-read limits a n [] ks u h =
      let same : [] ≡ ks = ground arith in
      subst
        (λ x.
          each stamp sha256 unstamp (chunk_from_row stamp sha256 unstamp)
            (map (chunk_values stamp) x)
          ≡ ok x)
        same refl
  rows-read limits a n (p ∷ ps) ks u h =
      let (k, e, m) = >>=-eq-ok (chunk_from_span sha256 limits a n p) _ h in
      let (rest, f, r) = >>=-eq-ok (chunks_from sha256 limits a (suc n) ps) _ m in
      let (d, _, made) = >>=-eq-ok (content_sha256 sha256 (slice a.content p.start p.stop)) _ e in
      let time = (make_chunk-fields sha256 _ k made).4 in
      let back : unstamp (stamp k.created_at) ≡ ok k.created_at =
        subst (λ t. unstamp (stamp t) ≡ ok t) (sym time) u in
      let same : k ∷ rest ≡ ks = ground arith in
      subst
        (λ x.
          each stamp sha256 unstamp (chunk_from_row stamp sha256 unstamp)
            (map (chunk_values stamp) x)
          ≡ ok x)
        same (rw (row-read _ k made back, rows-read limits a (suc n) ps rest u f))

  -- The rows that the chunks of an artifact are stored as are read back as those chunks, where the
  -- artifact's stored time reads back as itself.
  pub chunk_rows-read :
      (limits : Limits) (a : EditorialArtifact) (rows : List ChunkRow)
      → unstamp (stamp a.created_at) ≡ ok a.created_at
      → chunk_rows stamp sha256 limits a ≡ ok rows
      → (ks : List ArtifactChunk) × (chunk sha256 limits a ≡ ok ks)
        × (each stamp sha256 unstamp (chunk_from_row stamp sha256 unstamp) rows ≡ ok ks)
  unfolding chunk_rows chunk
  chunk_rows-read limits a rows u h =
      let (ks, e, m) = >>=-eq-ok (chunk sha256 limits a) _ h in
      let same : map (chunk_values stamp) ks ≡ rows = ground arith in
      (
        ks,
        e,
        subst (λ x. each stamp sha256 unstamp (chunk_from_row stamp sha256 unstamp) x ≡ ok ks) same
            (rows-read limits a 0 (chunk_spans limits a.content) ks u e),
      )
