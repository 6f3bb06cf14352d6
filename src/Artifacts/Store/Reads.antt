-- ===== src/Artifacts/Store/Reads.antt =====
-- artifacts/store.py: the reads of artifacts and of chunks. `stamp` is the text that
-- `timestamp_to_json` makes of a UTC time, and `unstamp` is `parse_utc_timestamp`. The columns
-- `artifact_id` and `chunk_id` are primary keys.
use editorial_team_v.Prelude.{
  ltb, leb, ◌==◌, if◌then◌else◌, ok, err, ◌>>=◌, ◌>>◌, reject_if, or_raise, Text, text_eq, Bool,
  true, false, ◌&&◌, Option, none, some, List, [], ◌∷◌,
}
use editorial_team_v.Prelude.Sorting.{text_le, sort_by}
use editorial_team_v.Contracts.{rule, Checked, Datetime, require_utc_timestamp, validate_identifier}
use editorial_team_v.Artifacts.Models.{
  EditorialArtifact, ArtifactChunk, make_chunk, SearchableArtifactChunk, make_searchable_chunk,
}
use editorial_team_v.Artifacts.Store.{
  ArtifactRow, ChunkRow, Tables, artifact_not_found, invalid_artifact, refused, Kept, find_artifact,
  chunks_of, by_ordinal, parse_producer, artifact_from_row,
}

-- A `ValueError` of the arguments.
abbrev pub from_checked : {A : Type 0} → Checked A → Kept A
from_checked (ok v) = ok v
from_checked (err e) = err (refused e)

-- The first differing key decides.
abbrev pub then_by : Text → Text → Bool → Bool
then_by s t rest = if text_eq s t then rest else text_le s t

-- `ORDER BY created_at, artifact_id`
unfoldable pub by_creation : ArtifactRow → ArtifactRow → Bool
unfolding text_le text_eq
by_creation a b = then_by a.created_at b.created_at (text_le a.artifact_id b.artifact_id)

-- `ORDER BY c.created_at, c.artifact_id, c.ordinal, c.chunk_id`
unfoldable pub by_corpus : ChunkRow → ChunkRow → Bool
unfolding text_le text_eq
by_corpus a b = then_by a.created_at b.created_at (
    then_by a.artifact_id b.artifact_id
      (if a.ordinal == b.ordinal then text_le a.chunk_id b.chunk_id else leb a.ordinal b.ordinal))

-- `created_at >= ?` and `created_at <= ?`, each where its bound is given
unfoldable pub in_window : Option Text → Option Text → Text → Bool
unfolding text_le
in_window lower upper t =
    elim lower [ none ↦ true | some l ↦ text_le l t ]
    && elim upper [ none ↦ true | some u ↦ text_le t u ]

unfoldable pub select_artifacts :
    Option Text → Option Text → Option Text → List ArtifactRow → List ArtifactRow
unfolding in_window text_eq
select_artifacts conversation lower upper [] = []
select_artifacts conversation lower upper (r ∷ rows) =
    let rest = select_artifacts conversation lower upper rows in
    if elim conversation [ none ↦ true | some c ↦ text_eq r.conversation_id c ]
      && in_window lower upper r.created_at
    then r ∷ rest
    else rest

-- The join: the chunks that the query selects, each with its artifact.
unfoldable pub select_chunks :
    Text
    → Option Text
    → Option Text
    → List ArtifactRow
    → List ChunkRow
    → List (ChunkRow × ArtifactRow)
unfolding in_window text_eq find_artifact
select_chunks conversation lower upper artifacts [] = []
select_chunks conversation lower upper artifacts (k ∷ rows) =
    let rest = select_chunks conversation lower upper artifacts rows in
    elim (find_artifact k.artifact_id artifacts) [
      | none ↦ rest
      | some a ↦
          if text_eq k.conversation_id conversation && in_window lower upper k.created_at
          then (k, a) ∷ rest
          else rest
    ]

module _ (stamp : Datetime → Text) where
  unfoldable pub timestamp_to_json : Datetime → Checked Text
  unfolding require_utc_timestamp
  timestamp_to_json d = do _ ← require_utc_timestamp d "timestamp"; ok (stamp d)

  unfoldable pub bound_to_json : Option Datetime → Checked (Option Text)
  unfolding timestamp_to_json
  bound_to_json none = ok none
  bound_to_json (some d) = do t ← timestamp_to_json d; ok (some t)

  abbrev pub inverted : Option Datetime → Option Datetime → Bool
  inverted none upper = false
  inverted (some l) none = false
  inverted (some l) (some u) = ltb u.instant l.instant

  -- The bounds of a query, as texts.
  unfoldable pub window : Option Datetime → Option Datetime → Checked (Option Text × Option Text)
  unfolding bound_to_json
  window lower upper = do
    l ← bound_to_json lower
    u ← bound_to_json upper
    reject_if (inverted lower upper) (rule "created_from must not be later than created_to")
    ok (l, u)

  module _ (sha256 : Text → Text) (unstamp : Text → Checked Datetime) where
    unfoldable pub get_artifact : Tables → Text → Kept EditorialArtifact
    unfolding validate_identifier find_artifact artifact_from_row
    get_artifact t id = do
      i ← from_checked (validate_identifier id "artifact_id")
      elim (find_artifact i t.artifacts) [
        | none ↦ err artifact_not_found
        | some r ↦ artifact_from_row sha256 unstamp r
      ]

    unfoldable pub chunk_from_row : ChunkRow → Kept ArtifactChunk
    unfolding parse_producer make_chunk
    chunk_from_row k = or_raise invalid_artifact (do
      at ← unstamp k.created_at
      p ← parse_producer k.producer
      make_chunk sha256 (record {
        chunk_id = k.chunk_id;
        artifact_id = k.artifact_id;
        ordinal = k.ordinal;
        content = k.content;
        character_start = k.character_start;
        character_end = k.character_end;
        created_at = at;
        producer = p;
        conversation_id = k.conversation_id;
        chunker_version = k.chunker_version;
        content_sha256 = k.content_sha256;
      }))

    unfoldable pub each : {R A : Type 0} → (R → Kept A) → List R → Kept (List A)
    each f [] = ok []
    each f (r ∷ rows) = do a ← f r; rest ← each f rows; ok (a ∷ rest)

    unfoldable pub get_chunks : Tables → Text → Kept (List ArtifactChunk)
    unfolding validate_identifier chunks_of sort_by each chunk_from_row
    get_chunks t id = do
      i ← from_checked (validate_identifier id "artifact_id")
      each chunk_from_row (sort_by by_ordinal (chunks_of i t.chunks))

    -- A selected chunk with the columns of its artifact.
    unfoldable pub searchable_from_row : ChunkRow × ArtifactRow → Kept SearchableArtifactChunk
    unfolding chunk_from_row make_searchable_chunk
    searchable_from_row (k, a) = do
      c ← chunk_from_row k
      from_checked (
          make_searchable_chunk
            (record { chunk = c; task_id = a.task_id; user_request = a.user_request }))

    unfoldable pub list_searchable_chunks :
        Tables → Text → Option Datetime → Option Datetime → Kept (List SearchableArtifactChunk)
    unfolding validate_identifier window select_chunks sort_by by_corpus each searchable_from_row
    list_searchable_chunks t conversation lower upper = do
      c ← from_checked (validate_identifier conversation "conversation_id")
      w ← from_checked (window lower upper)
      each searchable_from_row
          (sort_by (λ p q. by_corpus p.0 q.0) (select_chunks c w.0 w.1 t.artifacts t.chunks))

    unfoldable pub optional_scope : Option Text → Kept (Option Text)
    unfolding validate_identifier
    optional_scope none = ok none
    optional_scope (some c) = do
      v ← from_checked (validate_identifier c "conversation_id")
      ok (some v)

    unfoldable pub list_artifacts :
        Tables → Option Text → Option Datetime → Option Datetime → Kept (List EditorialArtifact)
    unfolding optional_scope window select_artifacts sort_by by_creation each artifact_from_row
    list_artifacts t conversation lower upper = do
      c ← optional_scope conversation
      w ← from_checked (window lower upper)
      each (artifact_from_row sha256 unstamp)
          (sort_by by_creation (select_artifacts c w.0 w.1 t.artifacts))
