-- ===== src/Artifacts/Store/Scope.antt =====
-- A draft is loaded only inside its own conversation.
use mathlib.Core.List.{Mem, mem-cons_self, mem-cons_of_mem}
use editorial_team_v.Prelude.{
  Bool-cases, ◌&&◌, ◌∙◌, text_eq, subst, Option-cases, ok, Result-cases, Text, text_eq_sound, strip,
  ◌≡◌, inl, inr, some, List, [], ◌∷◌, arith,
}
use editorial_team_v.Contracts.{Checked, Datetime, validate_identifier, require_non_blank}
use editorial_team_v.Contracts.Identity.{validate_identifier-eq_ok, validate_identifier_idem}
use editorial_team_v.Artifacts.Models.{EditorialArtifact, make_artifact}
use editorial_team_v.Artifacts.Store.{
  ArtifactRow, Tables, find_scoped, artifact_from_row, get_artifact_for_conversation,
}

-- A stored artifact of a conversation, under an identifier and with a content.
abbrev pub IsStored : Tables → Text → Text → Text → Type 0
IsStored t conversation id content =
    (row : ArtifactRow) × Mem row t.artifacts
    × (row.conversation_id ≡ strip conversation)
    × (row.artifact_id ≡ id)
    × (strip row.content ≡ content)

find_scoped-matches :
    (id c : Text) (rows : List ArtifactRow) (r : ArtifactRow)
    → find_scoped id c rows ≡ some r
    → (r.artifact_id ≡ id) × (r.conversation_id ≡ c)
unfolding find_scoped
find_scoped-matches id c [] r h = cc
find_scoped-matches id c (q ∷ rows) r h = ground (
  arith,
  find_scoped-matches id c rows r,
  text_eq_sound q.artifact_id id,
  text_eq_sound q.conversation_id c,
)

find_scoped-Mem :
    (id c : Text) (rows : List ArtifactRow) (r : ArtifactRow)
    → find_scoped id c rows ≡ some r
    → Mem r rows
unfolding find_scoped
find_scoped-Mem id c [] r h = cc
find_scoped-Mem id c (q ∷ rows) r h =
    elim (Bool-cases (text_eq q.artifact_id id && text_eq q.conversation_id c)) [
      | inl b ↦ let same : q ≡ r = ground arith in subst (λ x. Mem x (q ∷ rows)) same mem-cons_self
      | inr b ↦ mem-cons_of_mem q (find_scoped-Mem id c rows r (ground arith))
    ]

make_artifact-ids :
    (sha256 : Text → Text) (q a : EditorialArtifact)
    → make_artifact sha256 q ≡ ok a
    → (validate_identifier q.artifact_id "artifact_id" ≡ ok a.artifact_id)
      × (validate_identifier q.conversation_id "conversation_id" ≡ ok a.conversation_id)
unfolding make_artifact
make_artifact-ids sha256 q a h = ground arith

module _ (sha256 : Text → Text) (unstamp : Text → Checked Datetime) where
  from_row-ids :
      (r : ArtifactRow) (a : EditorialArtifact)
      → artifact_from_row sha256 unstamp r ≡ ok a
      → (validate_identifier r.artifact_id "artifact_id" ≡ ok a.artifact_id)
        × (validate_identifier r.conversation_id "conversation_id" ≡ ok a.conversation_id)
  unfolding artifact_from_row make_artifact
  from_row-ids r a h = ground arith

  -- An artifact that `get_artifact_for_conversation` gives belongs to the conversation that was
  -- asked for and has the identifier that was asked for, both trimmed.
  pub get_artifact-scoped :
      (t : Tables) (id c : Text) (a : EditorialArtifact)
      → get_artifact_for_conversation sha256 unstamp t id c ≡ ok (some a)
      → (a.conversation_id ≡ strip c) × (a.artifact_id ≡ strip id)
  unfolding get_artifact_for_conversation
  get_artifact-scoped t id c a h = elim (Result-cases (validate_identifier id "artifact_id")) [
    | inl (i, hi) ↦ elim (Result-cases (validate_identifier c "conversation_id")) [
      | inl (d, hd) ↦ elim (Option-cases (find_scoped i d t.artifacts)) [
        | inl n ↦ absurd (ground arith)
        | inr (r, hr) ↦
            let (ri, rc) = find_scoped-matches i d t.artifacts r hr in
            let (ai, ac) = from_row-ids r a (ground arith) in
            let vi = validate_identifier_idem id i "artifact_id" "artifact_id" hi in
            let vc = validate_identifier_idem c d "conversation_id" "conversation_id" hd in
            let (ei, _) = validate_identifier-eq_ok id i "artifact_id" hi in
            let (ed, _) = validate_identifier-eq_ok c d "conversation_id" hd in
            (cc (ri, rc, ai, ac, vi, vc, ei, ed), cc (ri, rc, ai, ac, vi, vc, ei, ed))
      ]
      | inr (e, he) ↦ absurd (ground arith)
    ]
    | inr (e, he) ↦ absurd (ground arith)
  ]

  from_row-content :
      (r : ArtifactRow) (a : EditorialArtifact)
      → artifact_from_row sha256 unstamp r ≡ ok a
      → strip r.content ≡ a.content
  unfolding artifact_from_row make_artifact require_non_blank
  from_row-content r a h = ground arith

  pub get_artifact-IsStored :
      (t : Tables) (id c : Text) (a : EditorialArtifact)
      → get_artifact_for_conversation sha256 unstamp t id c ≡ ok (some a)
      → IsStored t c a.artifact_id a.content
  unfolding get_artifact_for_conversation
  get_artifact-IsStored t id c a h = elim (Result-cases (validate_identifier id "artifact_id")) [
    | inl (i, hi) ↦ elim (Result-cases (validate_identifier c "conversation_id")) [
      | inl (d, hd) ↦ elim (Option-cases (find_scoped i d t.artifacts)) [
        | inl n ↦ absurd (ground arith)
        | inr (r, hr) ↦
            let (ri, rc) = find_scoped-matches i d t.artifacts r hr in
            let read : artifact_from_row sha256 unstamp r ≡ ok a = ground arith in
            let (ai, ac) = from_row-ids r a read in
            let vi = validate_identifier_idem id i "artifact_id" "artifact_id" hi in
            let (ed, _) = validate_identifier-eq_ok c d "conversation_id" hd in
            (
              r,
              find_scoped-Mem i d t.artifacts r hr,
              rc ∙ ed,
              cc (ri, ai, vi),
              from_row-content r a read,
            )
      ]
      | inr (e, he) ↦ absurd (ground arith)
    ]
    | inr (e, he) ↦ absurd (ground arith)
  ]
