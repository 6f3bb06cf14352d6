-- ===== src/Artifacts/Models.antt =====
-- artifacts/models.py and `RetrievedDraft` of artifacts/retrieval_types.py. SHA-256 of the UTF-8
-- bytes, in hexadecimal, is the parameter `sha256`.
use editorial_team_v.Prelude.{ℕ, leb, ok, ◌>>=◌, ◌>>◌, reject_if, Text, text, text_eq, not, ◌++◌}
use editorial_team_v.Contracts.{
  rule, Checked, require_non_blank, Datetime, require_utc_timestamp, validate_identifier,
}

pub data ArtifactProducer : Type 0 where
  writer editor : ArtifactProducer

abbrev pub producer_value : ArtifactProducer → Text
producer_value writer = text "writer"
producer_value editor = text "editor"

pub record EditorialArtifact : Type 0 where
  pub artifact_id : Text
  pub task_id : Text
  pub producer : ArtifactProducer
  pub created_at : Datetime
  pub conversation_id : Text
  pub user_request : Text
  pub content : Text
  pub content_sha256 : Text

pub record ArtifactChunk : Type 0 where
  pub chunk_id : Text
  pub artifact_id : Text
  pub ordinal : ℕ
  pub content : Text
  pub character_start : ℕ
  pub character_end : ℕ
  pub created_at : Datetime
  pub producer : ArtifactProducer
  pub conversation_id : Text
  pub chunker_version : Text
  pub content_sha256 : Text

pub record SearchableArtifactChunk : Type 0 where
  pub chunk : ArtifactChunk
  pub task_id : Text
  pub user_request : Text

unfoldable pub make_searchable_chunk : SearchableArtifactChunk → Checked SearchableArtifactChunk
make_searchable_chunk s = do
  t ← validate_identifier s.task_id "task_id"
  u ← require_non_blank s.user_request "user_request"
  ok (record s { task_id = t; user_request = u })

pub record RetrievedDraft : Type 0 where
  pub artifact_id : Text
  pub task_id : Text
  pub producer : ArtifactProducer
  pub created_at : Datetime
  pub conversation_id : Text
  pub user_request : Text
  pub content : Text

module _ (sha256 : Text → Text) where
  unfoldable pub content_sha256 : Text → Checked Text
  content_sha256 content = do c ← require_non_blank content "content"; ok (sha256 c)

  unfoldable pub artifact_id_for : Text → ArtifactProducer → Checked Text
  artifact_id_for task_id producer = do
    t ← validate_identifier task_id "task_id"
    ok (
        text "artifact-v1-"
        ++ sha256 (text "artifact:v1:" ++ t ++ text ":" ++ producer_value producer))

  unfoldable pub make_artifact : EditorialArtifact → Checked EditorialArtifact
  make_artifact a = do
    i ← validate_identifier a.artifact_id "artifact_id"
    t ← validate_identifier a.task_id "task_id"
    e ← artifact_id_for t a.producer
    reject_if (not (text_eq i e)) (rule "artifact_id must match task_id and producer")
    _ ← require_utc_timestamp a.created_at "created_at"
    c ← validate_identifier a.conversation_id "conversation_id"
    u ← require_non_blank a.user_request "user_request"
    v ← require_non_blank a.content "content"
    d ← content_sha256 v
    reject_if (not (text_eq a.content_sha256 d)) (rule "content_sha256 must match content")
    ok (record a {
      artifact_id = i;
      task_id = t;
      conversation_id = c;
      user_request = u;
      content = v;
    })

  -- The check of `ordinal` and of `character_start` is the type ℕ.
  unfoldable pub make_chunk : ArtifactChunk → Checked ArtifactChunk
  make_chunk k = do
    i ← validate_identifier k.chunk_id "chunk_id"
    a ← validate_identifier k.artifact_id "artifact_id"
    v ← require_non_blank k.content "content"
    reject_if (leb k.character_end k.character_start)
        (rule "character_end must be greater than character_start")
    _ ← require_utc_timestamp k.created_at "created_at"
    c ← validate_identifier k.conversation_id "conversation_id"
    n ← validate_identifier k.chunker_version "chunker_version"
    d ← content_sha256 v
    reject_if (not (text_eq k.content_sha256 d)) (rule "content_sha256 must match content")
    ok (record k {
      chunk_id = i;
      artifact_id = a;
      content = v;
      conversation_id = c;
      chunker_version = n;
    })
