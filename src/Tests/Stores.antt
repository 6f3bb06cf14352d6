-- ===== src/Tests/Stores.antt =====
-- A run that is saved, and read again.
use editorial_team_v.Prelude.{
  Result, ok, err, Text, text, ℕ, Option, none, some, List, [], ◌∷◌, true, false, strip, ◌≡◌, refl,
}
use editorial_team_v.Contracts.{Datetime, Checked}
use editorial_team_v.Artifacts.Models.{writer, EditorialArtifact}
use editorial_team_v.Artifacts.Store.{ChunkRow, Tables, save_run, get_artifact_for_conversation}
use editorial_team_v.Artifacts.Store.Immutable.{IsSaved, save_run-IsSaved}
use editorial_team_v.Artifacts.Store.Scope.{get_artifact-scoped}
use editorial_team_v.Tests.Fixtures.{noon}

abbrev digest : Text → Text
digest t = text "d"

abbrev stamp : Datetime → Text
stamp t = text "1"

abbrev unstamp : Text → Checked Datetime
unstamp t = ok noon

abbrev no_chunks : EditorialArtifact → Checked (List ChunkRow)
no_chunks a = ok []

abbrev written : EditorialArtifact
written = record {
  artifact_id = text "artifact-v1-d";
  task_id = text "t";
  producer = writer;
  created_at = noon;
  conversation_id = text "c";
  user_request = text "Write.";
  content = text "A draft.";
  content_sha256 = text "d";
}

abbrev no_tables : Tables
no_tables = record { artifacts = []; chunks = [] }

abbrev saved : Tables
unfolding save_run
saved = elim (save_run stamp (text "v1") no_chunks no_tables (written ∷ [])) [
  | ok t ↦ t
  | err e ↦ no_tables
]

save_run-IsSaved_example : IsSaved stamp (text "v1") no_chunks no_tables saved (written ∷ [])
unfolding save_run saved editorial_team_v.Artifacts.Store.validate_run
    editorial_team_v.Artifacts.Store.derive editorial_team_v.Artifacts.Store.producers_conflict
    editorial_team_v.Artifacts.Store.find_run editorial_team_v.Artifacts.Store.insert_all
    editorial_team_v.Artifacts.Store.insert_or_verify editorial_team_v.Artifacts.Store.insert_new
    editorial_team_v.Artifacts.Store.find_artifact editorial_team_v.Artifacts.Store.insert_chunks
save_run-IsSaved_example =
    save_run-IsSaved stamp (text "v1") no_chunks no_tables saved (written ∷ []) refl

get_artifact-scoped_example :
    (written.conversation_id ≡ strip (text " c"))
    × (written.artifact_id ≡ strip (text "artifact-v1-d"))
unfolding saved editorial_team_v.Artifacts.Models.make_artifact
    editorial_team_v.Artifacts.Models.artifact_id_for
    editorial_team_v.Artifacts.Models.content_sha256
    editorial_team_v.Contracts.require_utc_timestamp editorial_team_v.Contracts.require_non_blank
    editorial_team_v.Artifacts.Store.artifact_from_row get_artifact_for_conversation
    editorial_team_v.Contracts.validate_identifier strip editorial_team_v.Prelude.contains
    editorial_team_v.Artifacts.Store.find_scoped editorial_team_v.Artifacts.Store.validate_run
    editorial_team_v.Artifacts.Store.derive editorial_team_v.Artifacts.Store.producers_conflict
    editorial_team_v.Artifacts.Store.find_run editorial_team_v.Artifacts.Store.insert_all
    editorial_team_v.Artifacts.Store.insert_or_verify editorial_team_v.Artifacts.Store.insert_new
    editorial_team_v.Artifacts.Store.find_artifact editorial_team_v.Artifacts.Store.insert_chunks
    editorial_team_v.Prelude.text_eq
get_artifact-scoped_example =
    get_artifact-scoped digest unstamp saved (text "artifact-v1-d") (text " c") written refl
