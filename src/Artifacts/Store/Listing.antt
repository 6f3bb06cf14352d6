-- ===== src/Artifacts/Store/Listing.antt =====
-- artifacts/store.py: the list of a conversation's artifacts is the list of all, filtered.
use editorial_team_v.Prelude.{
  ok, Text, text_eq, ◌≡◌, refl, sym, ap, ◌∙◌, ◌⊎◌, Bool, true, Option, none, some, List, [], ◌∷◌,
  arith, keep,
}
use editorial_team_v.Prelude.Sorting.{
  text_le, text_le_total, text_le_trans, sort_by, IsOrdered, IsSorted-IsOrdered, sort_by-IsSorted,
  keep-sort_by,
}
use editorial_team_v.Contracts.{Checked, Datetime, validate_identifier}
use editorial_team_v.Artifacts.Store.{ArtifactRow, Tables, artifact_from_row}
use editorial_team_v.Artifacts.Store.Reads.{
  by_creation, select_artifacts, window, optional_scope, each, list_artifacts,
}
use editorial_team_v.Artifacts.Store.Keys.{then_by_total, then_by_trans, then_by-decides}

by_creation_total : (a b : ArtifactRow) → (by_creation a b ≡ true) ⊎ (by_creation b a ≡ true)
unfolding by_creation
by_creation_total a b =
    then_by_total a.created_at b.created_at (text_le a.artifact_id b.artifact_id)
      (text_le b.artifact_id a.artifact_id) (text_le_total a.artifact_id b.artifact_id)

by_creation_trans :
    (a b c : ArtifactRow) → by_creation a b ≡ true → by_creation b c ≡ true → by_creation a c ≡ true
unfolding by_creation
by_creation_trans a b c =
    then_by_trans a.created_at b.created_at c.created_at (text_le a.artifact_id b.artifact_id)
      (text_le b.artifact_id c.artifact_id) (text_le a.artifact_id c.artifact_id)
      (text_le_trans a.artifact_id b.artifact_id c.artifact_id)

-- The earlier text of the time stands first, and of equal ones the smaller identifier.
abbrev pub NotAfter : ArtifactRow → ArtifactRow → Type 0
NotAfter a b =
    (text_le a.created_at b.created_at ≡ true)
    × (a.created_at ≡ b.created_at → text_le a.artifact_id b.artifact_id ≡ true)

by_creation-NotAfter : (a b : ArtifactRow) → by_creation a b ≡ true → NotAfter a b
unfolding by_creation
by_creation-NotAfter a b =
    then_by-decides a.created_at b.created_at (text_le a.artifact_id b.artifact_id)

abbrev pub in_conversation : Text → ArtifactRow → Bool
in_conversation c r = text_eq r.conversation_id c

select_artifacts-scoped :
    (c : Text) (lower upper : Option Text) (rows : List ArtifactRow)
    → select_artifacts (some c) lower upper rows
      ≡ keep (in_conversation c) (select_artifacts none lower upper rows)
unfolding select_artifacts
select_artifacts-scoped c lower upper [] = refl
select_artifacts-scoped c lower upper (r ∷ rows) =
    ground (arith, select_artifacts-scoped c lower upper rows)

module _ (stamp : Datetime → Text) (sha256 : Text → Text) (unstamp : Text → Checked Datetime) where
  -- With an accepted conversation and accepted bounds, the list of a conversation's artifacts reads
  -- those of the rows of the list of all artifacts that belong to the conversation, in the same
  -- order, which is that of the stored text of the time, the smaller first, and then of the
  -- identifier.
  pub list_artifacts-scoped :
      (t : Tables) (id c : Text) (lower upper : Option Datetime) (w : Option Text × Option Text)
      → validate_identifier id "conversation_id" ≡ ok c
      → window stamp lower upper ≡ ok w
      → (rows : List ArtifactRow) × IsOrdered NotAfter rows
        × (list_artifacts stamp sha256 unstamp t none lower upper
            ≡ each stamp sha256 unstamp (artifact_from_row sha256 unstamp) rows)
        × (list_artifacts stamp sha256 unstamp t (some id) lower upper
            ≡ each stamp sha256 unstamp
                (artifact_from_row sha256 unstamp)
                (keep (in_conversation c) rows))
  unfolding list_artifacts optional_scope
  list_artifacts-scoped t id c lower upper w h k =
      let chosen = select_artifacts none w.0 w.1 t.artifacts in
      let e =
        ap (sort_by by_creation) (select_artifacts-scoped c w.0 w.1 t.artifacts)
        ∙ sym (
            keep-sort_by by_creation by_creation_total by_creation_trans (in_conversation c)
              chosen) in
      (
        sort_by by_creation chosen,
        IsSorted-IsOrdered by_creation NotAfter by_creation-NotAfter (sort_by by_creation chosen)
            (sort_by-IsSorted by_creation by_creation_total by_creation_trans chosen),
        ground arith,
        ground (arith, ap (each stamp sha256 unstamp (artifact_from_row sha256 unstamp)) e),
      )
