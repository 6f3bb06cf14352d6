-- ===== src/Artifacts/Store/Keys.antt =====
-- artifacts/store.py: the order of the rows and the window of a query, and what they say.
use mathlib.Core.List.{Mem}
use editorial_team_v.Prelude.{
  leb, ◌==◌, if◌then◌else◌, Text, text_eq_sound, text_eq_complete, ◌≡◌, refl, ◌≤◌, ◌↔◌, none, ◌⊎◌,
  Bool, true, Option, some, List, arith,
}
use editorial_team_v.Prelude.Sorting.{text_le, text_le_total, text_le_trans, text_le_antisymm}
use editorial_team_v.Artifacts.Store.{ArtifactRow, ChunkRow, find_artifact}
use editorial_team_v.Artifacts.Store.Reads.{then_by, by_corpus, in_window}

pub then_by_total :
    (s t : Text) (p q : Bool)
    → (p ≡ true) ⊎ (q ≡ true)
    → (then_by s t p ≡ true) ⊎ (then_by t s q ≡ true)
then_by_total s t p q h = ground (
  arith,
  text_le_total s t,
  text_eq_sound s t,
  text_eq_complete s t,
  text_eq_sound t s,
  text_eq_complete t s,
)

-- The key decides, and what follows decides between equal keys.
pub then_by-decides :
    (s t : Text) (p : Bool) → then_by s t p ≡ true → (text_le s t ≡ true) × (s ≡ t → p ≡ true)
then_by-decides s t p h = ground (arith, text_le_total s t, text_eq_sound s t, text_eq_complete s t)

pub then_by_trans :
    (s t u : Text) (p q r : Bool)
    → (p ≡ true → q ≡ true → r ≡ true)
    → then_by s t p ≡ true
    → then_by t u q ≡ true
    → then_by s u r ≡ true
then_by_trans s t u p q r f h k = ground (
  arith,
  f,
  text_le_trans s t u,
  text_le_antisymm s t,
  text_eq_sound s t,
  text_eq_sound t u,
  text_eq_sound s u,
  text_eq_complete s t,
  text_eq_complete t u,
  text_eq_complete s u,
)

by_number : ChunkRow → ChunkRow → Bool
by_number a b =
    if a.ordinal == b.ordinal then text_le a.chunk_id b.chunk_id else leb a.ordinal b.ordinal

by_number_total : (a b : ChunkRow) → (by_number a b ≡ true) ⊎ (by_number b a ≡ true)
unfolding by_number
by_number_total a b = ground (arith, text_le_total a.chunk_id b.chunk_id)

by_number_trans :
    (a b c : ChunkRow) → by_number a b ≡ true → by_number b c ≡ true → by_number a c ≡ true
unfolding by_number
by_number_trans a b c h k = ground (arith, text_le_trans a.chunk_id b.chunk_id c.chunk_id)

pub by_corpus_total : (a b : ChunkRow) → (by_corpus a b ≡ true) ⊎ (by_corpus b a ≡ true)
unfolding by_corpus by_number
by_corpus_total a b =
    then_by_total a.created_at b.created_at (then_by a.artifact_id b.artifact_id (by_number a b))
      (then_by b.artifact_id a.artifact_id (by_number b a))
      (then_by_total a.artifact_id b.artifact_id (by_number a b) (by_number b a)
        (by_number_total a b))

pub by_corpus_trans :
    (a b c : ChunkRow) → by_corpus a b ≡ true → by_corpus b c ≡ true → by_corpus a c ≡ true
unfolding by_corpus by_number
by_corpus_trans a b c =
    then_by_trans a.created_at b.created_at c.created_at
      (then_by a.artifact_id b.artifact_id (by_number a b))
      (then_by b.artifact_id c.artifact_id (by_number b c))
      (then_by a.artifact_id c.artifact_id (by_number a c))
      (then_by_trans a.artifact_id b.artifact_id c.artifact_id (by_number a b) (by_number b c)
        (by_number a c) (by_number_trans a b c))

abbrev pub Joined : Type 0
Joined = ChunkRow × ArtifactRow

abbrev pub corpus_order : Joined → Joined → Bool
corpus_order p q = by_corpus p.0 q.0

-- A stored chunk with its artifact, in the conversation and between the bounds.
abbrev pub Selected :
    Text → Option Text → Option Text → List ArtifactRow → List ChunkRow → Joined → Type 0
Selected c lower upper artifacts chunks p =
    Mem p.0 chunks
    × (find_artifact p.0.artifact_id artifacts ≡ some p.1)
    × (p.0.conversation_id ≡ c)
    × (in_window lower upper p.0.created_at ≡ true)

-- A time's text is between those of the bounds that are given, both included.
abbrev pub IsWithin : Option Text → Option Text → Text → Type 0
IsWithin lower upper t =
    ((l : Text) → lower ≡ some l → text_le l t ≡ true)
    × ((u : Text) → upper ≡ some u → text_le t u ≡ true)

pub in_window-IsWithin :
    (lower upper : Option Text) (t : Text)
    → (in_window lower upper t ≡ true) ↔ IsWithin lower upper t
unfolding in_window
in_window-IsWithin none none t = (λ h. (λ l e. cc, λ u e. cc), λ h. refl)
in_window-IsWithin (some a) none t =
    (λ h. (λ l e. ground arith, λ u e. cc), λ k. ground (arith, k.0 a refl))
in_window-IsWithin none (some b) t = (λ h. (λ l e. cc, λ u e. ground arith), λ k. k.1 b refl)
in_window-IsWithin (some a) (some b) t =
    (λ h. (λ l e. ground arith, λ u e. ground arith), λ k. ground (arith, k.0 a refl, k.1 b refl))

-- The keys of the order, each where those before it are equal.
abbrev pub NotAfter : Joined → Joined → Type 0
NotAfter p q =
    (text_le p.0.created_at q.0.created_at ≡ true)
    × (p.0.created_at ≡ q.0.created_at
        → (text_le p.0.artifact_id q.0.artifact_id ≡ true)
          × (p.0.artifact_id ≡ q.0.artifact_id
              → (p.0.ordinal ≤ q.0.ordinal)
                × (p.0.ordinal ≡ q.0.ordinal → text_le p.0.chunk_id q.0.chunk_id ≡ true)))

pub corpus_order-NotAfter : (p q : Joined) → corpus_order p q ≡ true → NotAfter p q
unfolding by_corpus
corpus_order-NotAfter p q h =
    let (time, rest) = then_by-decides p.0.created_at q.0.created_at _ h in
    (
      time,
      λ e.
          let (artifact, numbers) = then_by-decides p.0.artifact_id q.0.artifact_id _ (rest e) in
          (artifact, λ f. let n = numbers f in (ground arith, λ g. ground arith)),
    )

-- A stored chunk with its artifact, in the conversation and between the bounds.
abbrev pub IsEligible :
    Text → Option Text → Option Text → List ArtifactRow → List ChunkRow → Joined → Type 0
IsEligible c lower upper artifacts chunks p =
    Mem p.0 chunks
    × (find_artifact p.0.artifact_id artifacts ≡ some p.1)
    × (p.0.conversation_id ≡ c)
    × IsWithin lower upper p.0.created_at

pub Selected-IsEligible :
    (c : Text) (lower upper : Option Text) (artifacts : List ArtifactRow) (chunks : List ChunkRow)
    (p : Joined)
    → Selected c lower upper artifacts chunks p ↔ IsEligible c lower upper artifacts chunks p
Selected-IsEligible c lower upper artifacts chunks p =
    let (to, from) = in_window-IsWithin lower upper p.0.created_at in
    (λ h. (h.0, h.1, h.2, to h.3), λ h. (h.0, h.1, h.2, from h.3))
