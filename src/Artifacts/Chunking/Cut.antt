-- ===== src/Artifacts/Chunking/Cut.antt =====
-- artifacts/chunking.py: what the chunks of an artifact are.
use editorial_team_v.Prelude.{
  length, is_empty, All, ok, >>=-eq-ok, Text, strip, ℕ, suc, ◌≤◌, ◌<◌, ◌≡◌, refl, sym, ap, ◌∙◌,
  subst, ◌≢◌, true, false, List, [], ◌∷◌, map, arith,
}
use editorial_team_v.Prelude.Scan.{Span, span, slice}
use editorial_team_v.Contracts.{require_non_blank}
use editorial_team_v.Artifacts.Models.{EditorialArtifact, ArtifactChunk, make_chunk, content_sha256}
use editorial_team_v.Artifacts.Chunking.Units.{Limits, make_limits}
use editorial_team_v.Artifacts.Chunking.Chunks.{chunk_spans, chunk_from_span, chunks_from, chunk}
use editorial_team_v.Artifacts.Chunking.Spans.{ink, covers}
use editorial_team_v.Artifacts.Chunking.Packed.{Proper, chunk_spans-covers, chunk_spans-Proper}

-- A chunk of an artifact at a place in the sequence: its text is what its indices cut out, trimmed.
abbrev pub IsChunk : EditorialArtifact → ℕ → ArtifactChunk → Type 0
IsChunk a n k =
    (k.ordinal ≡ n)
    × (k.character_start < k.character_end)
    × (k.character_end ≤ length a.content)
    × (k.content ≡ strip (slice a.content k.character_start k.character_end))
    × (is_empty k.content ≡ false)
    × (k.created_at ≡ a.created_at)
    × (k.producer ≡ a.producer)

abbrev pub AreChunks : EditorialArtifact → ℕ → List ArtifactChunk → Type 0
AreChunks a n [] = Unit
AreChunks a n (k ∷ ks) = IsChunk a n k × AreChunks a (suc n) ks

abbrev pub span_of : ArtifactChunk → Span
span_of k = span k.character_start k.character_end

require_non_blank-eq_ok :
    (v w : Text) → require_non_blank v "content" ≡ ok w → (w ≡ strip v) × (is_empty w ≡ false)
unfolding require_non_blank
require_non_blank-eq_ok v w h = ground arith

module _ (sha256 : Text → Text) where
  pub make_chunk-fields :
      (q k : ArtifactChunk)
      → make_chunk sha256 q ≡ ok k
      → (require_non_blank q.content "content" ≡ ok k.content)
        × (k.ordinal ≡ q.ordinal)
        × (k.character_start ≡ q.character_start)
        × (k.character_end ≡ q.character_end)
        × (k.created_at ≡ q.created_at)
        × (k.producer ≡ q.producer)
  unfolding make_chunk
  make_chunk-fields q k h = ground arith

  chunk_from_span-IsChunk :
      (limits : Limits) (a : EditorialArtifact) (n : ℕ) (p : Span) (k : ArtifactChunk)
      → Proper (length a.content) p
      → chunk_from_span sha256 limits a n p ≡ ok k
      → IsChunk a n k × (span_of k ≡ p)
  unfolding chunk_from_span
  chunk_from_span-IsChunk limits a n p k g h =
      let value = slice a.content p.start p.stop in
      let (d, _, m) = >>=-eq-ok (content_sha256 sha256 value) _ h in
      let f = make_chunk-fields _ k m in
      let (c, e) = require_non_blank-eq_ok value k.content f.0 in
      let same : span_of k ≡ p = λ i. span (f.2 i) (f.3 i) in
      (
        (
          f.1,
          omega (arith, f.2, f.3),
          omega (arith, f.3),
          c ∙ ap (λ u. strip (slice a.content u.start u.stop)) (sym same),
          e,
          f.4,
          f.5,
        ),
        same,
      )

  chunks_from-AreChunks :
      (limits : Limits) (a : EditorialArtifact) (n : ℕ) (ps : List Span) (ks : List ArtifactChunk)
      → All (Proper (length a.content)) ps
      → chunks_from sha256 limits a n ps ≡ ok ks
      → AreChunks a n ks × (map span_of ks ≡ ps)
  unfolding chunks_from
  chunks_from-AreChunks limits a n [] ks g h =
      let e : [] ≡ ks = ground arith in
      subst (λ x. AreChunks a n x × (map span_of x ≡ [])) e (tt, refl)
  chunks_from-AreChunks limits a n (p ∷ ps) ks g h =
      let (k, e, m) = >>=-eq-ok (chunk_from_span sha256 limits a n p) _ h in
      let (rest, f, r) = >>=-eq-ok (chunks_from sha256 limits a (suc n) ps) _ m in
      let (first, s) = chunk_from_span-IsChunk limits a n p k g.0 e in
      let (others, ss) = chunks_from-AreChunks limits a (suc n) ps rest g.1 f in
      let same : k ∷ rest ≡ ks = ground arith in
      subst (λ x. AreChunks a n x × (map span_of x ≡ p ∷ ps)) same ((first, others), cc (s, ss))

  make_limits-positive : (l limits : Limits) → make_limits l ≡ ok limits → 0 < limits.max_tokens
  unfolding make_limits
  make_limits-positive l limits h = ground arith

  -- Under accepted limits, the chunks of an artifact whose content is not empty are numbered from
  -- 0, each is a span of the content that is not empty and holds the trimmed text of that span,
  -- which is not blank, with the artifact's time and producer, and every character of the content
  -- that is not white space is in the span of a chunk.
  pub chunk-AreChunks :
      (l limits : Limits) (a : EditorialArtifact) (ks : List ArtifactChunk)
      → make_limits l ≡ ok limits
      → a.content ≢ []
      → chunk sha256 limits a ≡ ok ks
      → AreChunks a 0 ks × ((p : ℕ) → ink a.content p ≡ true → covers (map span_of ks) p ≡ true)
  unfolding chunk
  chunk-AreChunks l limits a ks c n h =
      let z = make_limits-positive l limits c in
      let (are, spans) =
        chunks_from-AreChunks limits a 0 (chunk_spans limits a.content) ks
          (chunk_spans-Proper limits a.content z n) h in
      (are, λ p i. ap (λ us. covers us p) spans ∙ chunk_spans-covers limits a.content p z i)
