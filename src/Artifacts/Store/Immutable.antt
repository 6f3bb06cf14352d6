-- ===== src/Artifacts/Store/Immutable.antt =====
-- What a saved run leaves in the tables, and that nothing stored is changed.
use editorial_team_v.Prelude.{
  Option-cases, All, ok, Result-cases, >>=-eq-ok, Text, text_eq_refl, ◌≡◌, sym, ap, ◌∙◌, subst, inl,
  inr, none, some, List, [], ◌∷◌, ◌++◌, append_assoc, append-nil, arith,
}
use editorial_team_v.Contracts.{Checked, Datetime}
use editorial_team_v.Artifacts.Models.{EditorialArtifact, producer_value}
use editorial_team_v.Artifacts.Store.{
  ArtifactRow, ChunkRow, Tables, find_run, insert_chunks, artifact_values, verify, insert_new,
  insert_or_verify, derive, insert_all, save_run,
}

-- The table `next` is the table `rows` with rows added behind it.
pub record Extends {A : Type 0} (rows next : List A) : Type 0 where
  pub added : List A
  pub shape : next ≡ rows ++ added

Extends-refl : {A : Type 0} (xs : List A) → Extends xs xs
Extends-refl xs = record { added = []; shape = sym (append-nil xs) }

Extends-trans : {A : Type 0} (xs ys zs : List A) → Extends xs ys → Extends ys zs → Extends xs zs
Extends-trans xs ys zs h k = record {
  added = h.added ++ k.added;
  shape = k.shape ∙ ap (λ t. t ++ k.added) h.shape ∙ append_assoc xs h.added k.added;
}

find_run-append :
    (task producer : Text) (rows added : List ArtifactRow) (r : ArtifactRow)
    → find_run task producer rows ≡ some r
    → find_run task producer (rows ++ added) ≡ some r
unfolding find_run
find_run-append task producer [] added r h = cc
find_run-append task producer (q ∷ rows) added r h =
    ground (arith, find_run-append task producer rows added r)

find_run-Extends :
    (task producer : Text) (rows next : List ArtifactRow) (r : ArtifactRow)
    → Extends rows next
    → find_run task producer rows ≡ some r
    → find_run task producer next ≡ some r
find_run-Extends task producer rows next r e h =
    rw e.shape (find_run-append task producer rows e.added r h)

find_run-new :
    (rows : List ArtifactRow) (r : ArtifactRow)
    → find_run r.task_id r.producer rows ≡ none
    → find_run r.task_id r.producer (rows ++ (r ∷ [])) ≡ some r
unfolding find_run
find_run-new [] r h = ground (arith, text_eq_refl r.task_id, text_eq_refl r.producer)
find_run-new (q ∷ rows) r h = ground (arith, find_run-new rows r)

insert_chunks-Extends :
    (rows new next : List ChunkRow) → insert_chunks rows new ≡ ok next → next ≡ rows ++ new
unfolding insert_chunks
insert_chunks-Extends rows [] next h = ground (arith, append-nil rows)
insert_chunks-Extends rows (c ∷ new) next h =
    ground
      (arith, insert_chunks-Extends (rows ++ (c ∷ [])) new next, append_assoc rows (c ∷ []) new)

module _ (stamp : Datetime → Text) (version : Text)
    (chunk : EditorialArtifact → Checked (List ChunkRow)) where
  -- What one step of the transaction does.
  record IsKept (t next : Tables) (a : EditorialArtifact) : Type 0 where
    artifacts_extended : Extends t.artifacts next.artifacts
    chunks_extended : Extends t.chunks next.chunks
    present :
        find_run a.task_id (producer_value a.producer) next.artifacts
        ≡ some (artifact_values stamp version chunk a)

  verify-eq :
      (found expected : ArtifactRow) (cs : List ChunkRow) (t next : Tables)
      → verify stamp version chunk found cs expected t ≡ ok next
      → (next ≡ t) × (found ≡ expected)
  unfolding verify
  verify-eq found expected cs t next h = ground arith

  insert_new-parts :
      (expected : ArtifactRow) (cs : List ChunkRow) (t next : Tables)
      → insert_new stamp version chunk expected cs t ≡ ok next
      → (next.artifacts ≡ t.artifacts ++ (expected ∷ [])) × (next.chunks ≡ t.chunks ++ cs)
  unfolding insert_new
  insert_new-parts expected cs t next h =
      ground (arith, insert_chunks-Extends t.chunks cs next.chunks)

  verified :
      (t next : Tables) (a : EditorialArtifact) (found : ArtifactRow)
      → find_run a.task_id (producer_value a.producer) t.artifacts ≡ some found
      → (next ≡ t) × (found ≡ artifact_values stamp version chunk a)
      → IsKept t next a
  verified t next a found hf (same, eq) = record {
    artifacts_extended = rw same (Extends-refl t.artifacts);
    chunks_extended = rw same (Extends-refl t.chunks);
    present = rw same (hf ∙ ap some eq);
  }

  inserted :
      (t next : Tables) (a : EditorialArtifact) (cs : List ChunkRow)
      → find_run a.task_id (producer_value a.producer) t.artifacts ≡ none
      → (next.artifacts ≡ t.artifacts ++ (artifact_values stamp version chunk a ∷ []))
        × (next.chunks ≡ t.chunks ++ cs)
      → IsKept t next a
  inserted t next a cs hf (ha, hc) = record {
    artifacts_extended = record { added = artifact_values stamp version chunk a ∷ []; shape = ha };
    chunks_extended = record { added = cs; shape = hc };
    present = rw ha (find_run-new t.artifacts (artifact_values stamp version chunk a) hf);
  }

  insert_or_verify-IsKept :
      (t next : Tables) (a : EditorialArtifact) (cs : List ChunkRow)
      → insert_or_verify stamp version chunk t a cs ≡ ok next
      → IsKept t next a
  unfolding insert_or_verify
  insert_or_verify-IsKept t next a cs h =
      elim (Option-cases (find_run a.task_id (producer_value a.producer) t.artifacts)) [
        | inl e ↦ inserted t next a cs e (
            insert_new-parts (artifact_values stamp version chunk a) cs t next
              (rw (e, insert_or_verify) at h))
        | inr (found, e) ↦ verified t next a found e (
            verify-eq found (artifact_values stamp version chunk a) cs t next
              (rw (e, insert_or_verify) at h))
      ]

  abbrev pub Present : Tables → EditorialArtifact → Type 0
  Present t a =
      find_run a.task_id (producer_value a.producer) t.artifacts
      ≡ some (artifact_values stamp version chunk a)

  pub record IsSaved (t next : Tables) (run : List EditorialArtifact) : Type 0 where
    pub artifacts_extended : Extends t.artifacts next.artifacts
    pub chunks_extended : Extends t.chunks next.chunks
    pub present : All (Present next) run

  firsts : List (EditorialArtifact × List ChunkRow) → List EditorialArtifact
  firsts [] = []
  firsts ((a, cs) ∷ rest) = a ∷ firsts rest

  derive-firsts :
      (run : List EditorialArtifact) (derived : List (EditorialArtifact × List ChunkRow))
      → derive stamp version chunk run ≡ ok derived
      → firsts derived ≡ run
  unfolding derive firsts
  derive-firsts [] derived h = ground arith
  derive-firsts (a ∷ run) derived h = elim (Result-cases (derive stamp version chunk run)) [
    | inl (d, hd) ↦ ground (arith, derive-firsts run d hd)
    | inr (e, he) ↦ ground arith
  ]

  kept-IsSaved :
      (t mid next : Tables) (a : EditorialArtifact) (run : List EditorialArtifact)
      → IsKept t mid a
      → IsSaved mid next run
      → IsSaved t next (a ∷ run)
  kept-IsSaved t mid next a run k s = record {
    artifacts_extended =
        Extends-trans t.artifacts mid.artifacts next.artifacts k.artifacts_extended
          s.artifacts_extended;
    chunks_extended =
        Extends-trans t.chunks mid.chunks next.chunks k.chunks_extended s.chunks_extended;
    present = (
      find_run-Extends a.task_id (producer_value a.producer) mid.artifacts next.artifacts
          (artifact_values stamp version chunk a) s.artifacts_extended k.present,
      s.present,
    );
  }

  insert_all-IsSaved :
      (t next : Tables) (derived : List (EditorialArtifact × List ChunkRow))
      → insert_all stamp version chunk t derived ≡ ok next
      → IsSaved t next (firsts derived)
  unfolding insert_all firsts
  insert_all-IsSaved t next [] h = record {
    artifacts_extended = ground (arith, Extends-refl t.artifacts);
    chunks_extended = ground (arith, Extends-refl t.chunks);
    present = tt;
  }
  insert_all-IsSaved t next ((a, cs) ∷ rest) h =
      let (mid, hm, hr) =
        >>=-eq-ok (insert_or_verify stamp version chunk t a cs)
          (λ n. insert_all stamp version chunk n rest) h in
      kept-IsSaved t mid next a (firsts rest) (insert_or_verify-IsKept t mid a cs hm)
        (insert_all-IsSaved mid next rest hr)

  save_run-inserts :
      (t next : Tables) (run : List EditorialArtifact)
      → save_run stamp version chunk t run ≡ ok next
      → (d : List (EditorialArtifact × List ChunkRow)) × (derive stamp version chunk run ≡ ok d)
        × (insert_all stamp version chunk t d ≡ ok next)
  unfolding save_run
  save_run-inserts t next run h = elim (Result-cases (derive stamp version chunk run)) [
    | inl (d, hd) ↦ (d, hd, ground arith)
    | inr (e, he) ↦ absurd (ground arith)
  ]

  -- When a run of artifacts is saved, every row of artifacts and of chunks that the tables held is
  -- still there in its place, rows are only added at the end, and each artifact of the run is found
  -- by its task and producer with exactly its own values.
  pub save_run-IsSaved :
      (t next : Tables) (run : List EditorialArtifact)
      → save_run stamp version chunk t run ≡ ok next
      → IsSaved t next run
  save_run-IsSaved t next run h =
      let (d, hd, hi) = save_run-inserts t next run h in
      subst (IsSaved t next) (derive-firsts run d hd) (insert_all-IsSaved t next d hi)
