-- ===== src/Artifacts/Store.antt =====
-- artifacts/store.py: artifacts and their chunks in two SQLite tables. A table is a list of rows in
-- order of insertion. A transaction gives the tables after it, or the error that rolled it back.
-- `stamp` is `timestamp_to_json`; `chunk` is the chunker, and `version` its version.
use editorial_team_v.Prelude.{
  leb, ◌==◌, if◌then◌else◌, is_some, any, Result, ok, err, ◌>>=◌, ◌>>◌, reject_if, or_raise, Text,
  text_eq, ℕ, Bool, true, false, ◌&&◌, ◌||◌, not, Option, none, some, List, [], ◌∷◌, ◌++◌,
}
pub mod Immutable
pub mod Scope
pub mod Reads
pub mod Keys
pub mod Corpus
pub mod Listing
pub mod Chunked
use mathlib.Core.Logic.{ite}
use native.Mathlib.Decide.{ℕ_discrete}
use editorial_team_v.Prelude.Sorting.{sort_by}
use editorial_team_v.Contracts.{ValueError, rule, Checked, Datetime, validate_identifier}
use editorial_team_v.Artifacts.Models.{
  ArtifactProducer, writer, editor, producer_value, EditorialArtifact, make_artifact,
}

pub record ArtifactRow : Type 0 where
  pub artifact_id : Text
  pub task_id : Text
  pub producer : Text
  pub created_at : Text
  pub conversation_id : Text
  pub user_request : Text
  pub content : Text
  pub content_sha256 : Text
  pub chunker_version : Text

pub record ChunkRow : Type 0 where
  pub chunk_id : Text
  pub artifact_id : Text
  pub ordinal : ℕ
  pub content : Text
  pub character_start : ℕ
  pub character_end : ℕ
  pub created_at : Text
  pub producer : Text
  pub conversation_id : Text
  pub chunker_version : Text
  pub content_sha256 : Text

pub record Tables : Type 0 where
  pub artifacts : List ArtifactRow
  pub chunks : List ChunkRow

pub data ArtifactError : Type 0 where
  replay_conflict not_saved artifact_not_found invalid_artifact : ArtifactError
  refused : ValueError → ArtifactError

abbrev pub Kept : Type 0 → Type 0
Kept A = Result ArtifactError A

pub ArtifactRow-discrete : Discrete ArtifactRow
ArtifactRow-discrete = hlevel ℕ_discrete

pub ChunkRows-discrete : Discrete (List ChunkRow)
ChunkRows-discrete = hlevel ℕ_discrete

abbrev pub same_instant : Datetime → Datetime → Bool
same_instant a b = a.instant == b.instant

-- `_validate_run`: one or two artifacts of one task and one provenance, Writer first.
unfoldable pub validate_run : List EditorialArtifact → Checked (Unit {0})
validate_run [] = err (rule "artifacts must be a non-empty tuple of EditorialArtifact values")
validate_run (a ∷ []) = elim a.producer [
  | writer ↦ ok tt
  | editor ↦ err (rule "artifacts must contain Writer and optional Editor output in order")
]
validate_run (a ∷ b ∷ []) = do
  reject_if (not (text_eq a.task_id b.task_id)) (rule "artifacts must share one task_id")
  reject_if
      (not (
        same_instant a.created_at b.created_at
        && text_eq a.conversation_id b.conversation_id
        && text_eq a.user_request b.user_request))
      (rule "artifacts in one run must share factual provenance")
  elim a.producer [
    | writer ↦ elim b.producer [
      | writer ↦ err (rule "artifacts must contain Writer and optional Editor output in order")
      | editor ↦ ok tt
    ]
    | editor ↦ err (rule "artifacts must contain Writer and optional Editor output in order")
  ]
validate_run (a ∷ b ∷ c ∷ rest) = err (rule "an editorial run must contain one or two artifacts")

abbrev pub of_run : Text → Text → ArtifactRow → Bool
of_run task producer r = text_eq r.task_id task && text_eq r.producer producer

-- `SELECT ... WHERE task_id = ? AND producer = ?`
unfoldable pub find_run : Text → Text → List ArtifactRow → Option ArtifactRow
find_run task producer [] = none
find_run task producer (r ∷ rows) =
    if of_run task producer r then some r else find_run task producer rows

-- `SELECT ... WHERE artifact_id = ?`
unfoldable pub find_artifact : Text → List ArtifactRow → Option ArtifactRow
find_artifact id [] = none
find_artifact id (r ∷ rows) = if text_eq r.artifact_id id then some r else find_artifact id rows

unfoldable pub chunks_of : Text → List ChunkRow → List ChunkRow
chunks_of id [] = []
chunks_of id (c ∷ rows) =
    let rest = chunks_of id rows in if text_eq c.artifact_id id then c ∷ rest else rest

abbrev pub by_ordinal : ChunkRow → ChunkRow → Bool
by_ordinal a b = leb a.ordinal b.ordinal

-- The key constraints that an INSERT of a chunk can break
abbrev pub clashes : ChunkRow → ChunkRow → Bool
clashes c d =
    text_eq c.chunk_id d.chunk_id || (text_eq c.artifact_id d.artifact_id && c.ordinal == d.ordinal)

unfoldable pub insert_chunks : List ChunkRow → List ChunkRow → Kept (List ChunkRow)
insert_chunks rows [] = ok rows
insert_chunks rows (c ∷ rest) =
    let next = insert_chunks (rows ++ (c ∷ [])) rest in
    if any (clashes c) rows then err not_saved else next

-- Whether a run of the task has the producer's output
abbrev pub has_producer : Text → List ArtifactRow → ArtifactProducer → Bool
has_producer task rows p = is_some (find_run task (producer_value p) rows)

abbrev pub is_producer : ArtifactProducer → EditorialArtifact → Bool
is_producer writer a = elim a.producer [ writer ↦ true | editor ↦ false ]
is_producer editor a = elim a.producer [ writer ↦ false | editor ↦ true ]

abbrev pub same_bool : Bool → Bool → Bool
same_bool true b = b
same_bool false b = not b

-- `stored_producers and stored_producers != incoming_producers`
unfoldable pub producers_conflict : Text → List ArtifactRow → List EditorialArtifact → Bool
producers_conflict task rows artifacts =
    (has_producer task rows writer || has_producer task rows editor)
    && not (
        same_bool (has_producer task rows writer) (any (is_producer writer) artifacts)
        && same_bool (has_producer task rows editor) (any (is_producer editor) artifacts))

module _ (stamp : Datetime → Text) (version : Text)
    (chunk : EditorialArtifact → Checked (List ChunkRow)) where
  abbrev pub artifact_values : EditorialArtifact → ArtifactRow
  artifact_values a = record {
    artifact_id = a.artifact_id;
    task_id = a.task_id;
    producer = producer_value a.producer;
    created_at = stamp a.created_at;
    conversation_id = a.conversation_id;
    user_request = a.user_request;
    content = a.content;
    content_sha256 = a.content_sha256;
    chunker_version = version;
  }

  -- A run that is stored already is compared with what would be stored.
  unfoldable pub verify : ArtifactRow → List ChunkRow → ArtifactRow → Tables → Kept Tables
  verify found chunks expected t =
      ite (ArtifactRow-discrete found expected)
        (ite
          (ChunkRows-discrete (sort_by by_ordinal (chunks_of expected.artifact_id t.chunks)) chunks)
          (ok t) (err replay_conflict))
        (err replay_conflict)

  unfoldable pub insert_new : ArtifactRow → List ChunkRow → Tables → Kept Tables
  insert_new expected chunks t =
      if is_some (find_artifact expected.artifact_id t.artifacts) then err not_saved else do
        cs ← insert_chunks t.chunks chunks
        ok (record { artifacts = t.artifacts ++ (expected ∷ []); chunks = cs })

  unfoldable pub insert_or_verify : Tables → EditorialArtifact → List ChunkRow → Kept Tables
  insert_or_verify t a chunks = elim (find_run a.task_id (producer_value a.producer) t.artifacts) [
    | some found ↦ verify found chunks (artifact_values a) t
    | none ↦ insert_new (artifact_values a) chunks t
  ]

  unfoldable pub derive : List EditorialArtifact → Kept (List (EditorialArtifact × List ChunkRow))
  derive [] = ok []
  derive (a ∷ rest) = elim (chunk a) [
    | err e ↦ err (refused e)
    | ok cs ↦ do later ← derive rest; ok ((a, cs) ∷ later)
  ]

  unfoldable pub insert_all : Tables → List (EditorialArtifact × List ChunkRow) → Kept Tables
  insert_all t [] = ok t
  insert_all t ((a, cs) ∷ rest) = do next ← insert_or_verify t a cs; insert_all next rest

  abbrev pub task_of : List EditorialArtifact → Text
  task_of [] = []
  task_of (a ∷ rest) = a.task_id

  unfoldable pub save_run : Tables → List EditorialArtifact → Kept Tables
  save_run t artifacts = elim (validate_run artifacts) [
    | err e ↦ err (refused e)
    | ok _ ↦ do
      derived ← derive artifacts
      reject_if (producers_conflict (task_of artifacts) t.artifacts artifacts) replay_conflict
      insert_all t derived
  ]

-- `SELECT ... WHERE artifact_id = ? AND conversation_id = ?`
unfoldable pub find_scoped : Text → Text → List ArtifactRow → Option ArtifactRow
find_scoped id conversation [] = none
find_scoped id conversation (r ∷ rows) =
    if text_eq r.artifact_id id && text_eq r.conversation_id conversation
    then some r
    else find_scoped id conversation rows

unfoldable pub parse_producer : Text → Checked ArtifactProducer
parse_producer t =
    if text_eq t (producer_value writer)
    then ok writer
    else if text_eq t (producer_value editor)
    then ok editor
    else err (rule "not a valid ArtifactProducer")

module _ (sha256 : Text → Text) (unstamp : Text → Checked Datetime) where
  unfoldable pub artifact_from_row : ArtifactRow → Kept EditorialArtifact
  unfolding parse_producer
  artifact_from_row r = or_raise invalid_artifact (do
    p ← parse_producer r.producer
    t ← unstamp r.created_at
    make_artifact sha256 (record {
      artifact_id = r.artifact_id;
      task_id = r.task_id;
      producer = p;
      created_at = t;
      conversation_id = r.conversation_id;
      user_request = r.user_request;
      content = r.content;
      content_sha256 = r.content_sha256;
    }))

  abbrev pub from_optional : Option ArtifactRow → Kept (Option EditorialArtifact)
  from_optional none = ok none
  from_optional (some r) = do a ← artifact_from_row r; ok (some a)

  unfoldable pub get_artifact_for_conversation :
      Tables → Text → Text → Kept (Option EditorialArtifact)
  get_artifact_for_conversation t id conversation = elim (validate_identifier id "artifact_id") [
    | err e ↦ err (refused e)
    | ok i ↦ elim (validate_identifier conversation "conversation_id") [
      | err e ↦ err (refused e)
      | ok c ↦ from_optional (find_scoped i c t.artifacts)
    ]
  ]
