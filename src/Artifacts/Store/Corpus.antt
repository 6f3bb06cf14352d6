-- ===== src/Artifacts/Store/Corpus.antt =====
-- artifacts/store.py: the corpus of a search is exactly what its conversation and its window hold, in
-- order, and a list in a conversation's scope is the whole list, filtered.
use mathlib.Core.List.{
  Mem, Mem-prop, not-mem-nil, mem-cons_self, mem-cons_of_mem, eq-or-mem_of_mem-cons,
}
use mathlib.Core.List.Perm
use mathlib.Core.Logic.Or
use editorial_team_v.Prelude.{
  Bool-cases, Option-cases, All, Result, ok, >>=-eq-ok, Text, text_eq, text_eq_sound,
  text_eq_complete, strip, ◌≡◌, sym, ap, ◌∙◌, subst, inl, inr, true, ◌&&◌, Option, some, List, [],
  ◌∷◌, arith,
}
use editorial_team_v.Prelude.Sorting.{
  sort_by, IsOrdered, IsSorted-IsOrdered, All-weaken, sort_by-perm, All-sort_by, sort_by-IsSorted,
}
use editorial_team_v.Contracts.{Checked, Datetime, validate_identifier}
use editorial_team_v.Contracts.Identity.{validate_identifier-eq_ok, validate_identifier_idem}
use editorial_team_v.Artifacts.Models.{
  ArtifactChunk, SearchableArtifactChunk, make_chunk, make_searchable_chunk,
}
use editorial_team_v.Artifacts.Store.{ArtifactRow, ChunkRow, Tables, Kept, find_artifact}
use editorial_team_v.Artifacts.Store.Reads.{
  in_window, select_chunks, window, chunk_from_row, each, searchable_from_row,
  list_searchable_chunks, from_checked,
}
use editorial_team_v.Artifacts.Store.Keys.{
  by_corpus_total, by_corpus_trans, Joined, corpus_order, Selected, NotAfter, corpus_order-NotAfter,
  IsEligible, Selected-IsEligible,
}

module _ (c : Text) (lower upper : Option Text) (artifacts : List ArtifactRow) where
  select_chunks-Selected :
      (full rows : List ChunkRow)
      → ((k : ChunkRow) → Mem k rows → Mem k full)
      → All (Selected c lower upper artifacts full) (select_chunks c lower upper artifacts rows)
  unfolding select_chunks
  select_chunks-Selected full [] f = tt
  select_chunks-Selected full (k ∷ rows) f =
      let rest = select_chunks-Selected full rows (λ j m. f j (mem-cons_of_mem k m)) in
      elim (Option-cases (find_artifact k.artifact_id artifacts)) [
        | inl e ↦ rw (e, select_chunks) rest
        | inr (a, e) ↦
            elim (Bool-cases (text_eq k.conversation_id c && in_window lower upper k.created_at)) [
              | inl g ↦
                  rw (e, g, select_chunks)
                    (
                      (
                        f k mem-cons_self,
                        e,
                        text_eq_sound k.conversation_id c (ground arith),
                        ground arith,
                      ),
                      rest,
                    )
              | inr g ↦ rw (e, g, select_chunks) rest
            ]
      ]

  -- A row takes none away, and one that is selected is there.
  select_chunks-cons :
      (k : ChunkRow) (rows : List ChunkRow) (p : Joined)
      → Mem p (select_chunks c lower upper artifacts rows)
      → Mem p (select_chunks c lower upper artifacts (k ∷ rows))
  unfolding select_chunks
  select_chunks-cons k rows p m = elim (Option-cases (find_artifact k.artifact_id artifacts)) [
    | inl e ↦ rw (e, select_chunks) m
    | inr (a, e) ↦
        elim (Bool-cases (text_eq k.conversation_id c && in_window lower upper k.created_at)) [
          | inl g ↦ rw (e, g, select_chunks) (mem-cons_of_mem (k, a) m)
          | inr g ↦ rw (e, g, select_chunks) m
        ]
  ]

  select_chunks-head :
      (k : ChunkRow) (rows : List ChunkRow) (a : ArtifactRow)
      → find_artifact k.artifact_id artifacts ≡ some a
      → k.conversation_id ≡ c
      → in_window lower upper k.created_at ≡ true
      → Mem (k, a) (select_chunks c lower upper artifacts (k ∷ rows))
  unfolding select_chunks
  select_chunks-head k rows a e f g =
      let g : (text_eq k.conversation_id c && in_window lower upper k.created_at) ≡ true =
        ground (arith, text_eq_complete k.conversation_id c f) in
      rw (e, g, select_chunks) mem-cons_self

  select_chunks-complete :
      (rows : List ChunkRow) (k : ChunkRow) (a : ArtifactRow)
      → Selected c lower upper artifacts rows (k, a)
      → Mem (k, a) (select_chunks c lower upper artifacts rows)
  unfolding select_chunks
  select_chunks-complete [] k a h = absurd (not-mem-nil h.0)
  select_chunks-complete (j ∷ rows) k a h =
      Or.elim Mem-prop (eq-or-mem_of_mem-cons h.0)
        (λ e.
          subst (λ i. Mem (k, a) (select_chunks c lower upper artifacts (i ∷ rows))) e
            (select_chunks-head k rows a h.1 h.2 h.3))
        (λ m. select_chunks-cons j rows (k, a) (select_chunks-complete rows k a (m, h.1, h.2, h.3)))

-- Rows that are in order, selected, and all that are.
abbrev pub IsCorpus : Tables → Text → Option Text → Option Text → List Joined → Type 0
IsCorpus t c lower upper rows =
    IsOrdered NotAfter rows
    × All (IsEligible c lower upper t.artifacts t.chunks) rows
    × ((k : ChunkRow) (a : ArtifactRow)
        → IsEligible c lower upper t.artifacts t.chunks (k, a)
        → Mem (k, a) rows)

the_value : {D A : Type 0} {v w : A} → ◌≡◌ {A = Result D A} (ok v) (ok w) → v ≡ w
the_value h = cc

module _ (stamp : Datetime → Text) (sha256 : Text → Text) (unstamp : Text → Checked Datetime) where
  each-All :
      {R A : Type 0} (f : R → Kept A) (P : R → Type 0) (Q : A → Type 0) (rows : List R)
      (vs : List A)
      → ((r : R) (v : A) → P r → f r ≡ ok v → Q v)
      → All P rows
      → each stamp sha256 unstamp f rows ≡ ok vs
      → All Q vs
  unfolding each
  each-All f P Q [] vs g h e = subst (All Q) (the_value e) tt
  each-All f P Q (r ∷ rows) vs g h e =
      let (v, ev, m) = >>=-eq-ok (f r) _ e in
      let (rest, er, n) = >>=-eq-ok (each stamp sha256 unstamp f rows) _ m in
      subst (All Q) (the_value n) (g r v h.0 ev, each-All f P Q rows rest g h.1 er)

  chunk_from_row-scope :
      (k : ChunkRow) (v : ArtifactChunk)
      → chunk_from_row stamp sha256 unstamp k ≡ ok v
      → validate_identifier k.conversation_id "conversation_id" ≡ ok v.conversation_id
  unfolding chunk_from_row make_chunk
  chunk_from_row-scope k v h = ground arith

  searchable-scope :
      (p : Joined) (s : SearchableArtifactChunk)
      → searchable_from_row stamp sha256 unstamp p ≡ ok s
      → validate_identifier p.0.conversation_id "conversation_id" ≡ ok s.chunk.conversation_id
  unfolding searchable_from_row make_searchable_chunk
  searchable-scope (k, a) s h =
      let (v, e, m) = >>=-eq-ok (chunk_from_row stamp sha256 unstamp k) _ h in
      let same : v ≡ s.chunk = ground arith in
      chunk_from_row-scope k v e ∙ ap (λ x. ok x.conversation_id) same

  pub list_searchable_chunks-exact :
      (t : Tables) (id : Text) (lower upper : Option Datetime) (ss : List SearchableArtifactChunk)
      → list_searchable_chunks stamp sha256 unstamp t id lower upper ≡ ok ss
      → (w : Option Text × Option Text) × (rows : List Joined) × (window stamp lower upper ≡ ok w)
        × IsCorpus t (strip id) w.0 w.1 rows
        × (each stamp sha256 unstamp (searchable_from_row stamp sha256 unstamp) rows ≡ ok ss)
        × All (λ s. s.chunk.conversation_id ≡ strip id) ss
  unfolding list_searchable_chunks
  list_searchable_chunks-exact t id lower upper ss h =
      let (c, ec, m) = >>=-eq-ok (from_checked (validate_identifier id "conversation_id")) _ h in
      let (w, ew, n) = >>=-eq-ok (from_checked (window stamp lower upper)) _ m in
      let vc : validate_identifier id "conversation_id" ≡ ok c = ground arith in
      let vw : window stamp lower upper ≡ ok w = ground arith in
      let chosen = select_chunks c w.0 w.1 t.artifacts t.chunks in
      let rows = sort_by corpus_order chosen in
      let valid = validate_identifier-eq_ok id c "conversation_id" vc in
      let again = validate_identifier_idem id c "conversation_id" "conversation_id" vc in
      let all =
        All-sort_by corpus_order (Selected c w.0 w.1 t.artifacts t.chunks) chosen
          (select_chunks-Selected c w.0 w.1 t.artifacts t.chunks t.chunks (λ k mem. mem)) in
      subst
        (λ d.
          (w : Option Text × Option Text) × (rows : List Joined) × (window stamp lower upper ≡ ok w)
          × IsCorpus t d w.0 w.1 rows
          × (each stamp sha256 unstamp (searchable_from_row stamp sha256 unstamp) rows ≡ ok ss)
          × All (λ s. s.chunk.conversation_id ≡ d) ss)
        valid.0
        (
          w,
          rows,
          vw,
          (
            IsSorted-IsOrdered corpus_order NotAfter corpus_order-NotAfter rows (
                sort_by-IsSorted corpus_order (λ p q. by_corpus_total p.0 q.0)
                  (λ p q r. by_corpus_trans p.0 q.0 r.0) chosen),
            All-weaken (Selected c w.0 w.1 t.artifacts t.chunks)
                (IsEligible c w.0 w.1 t.artifacts t.chunks)
                (λ p. (Selected-IsEligible c w.0 w.1 t.artifacts t.chunks p).0) rows all,
            λ k a h. (Perm.mem_iff (sort_by-perm corpus_order chosen)).1 (
                select_chunks-complete c w.0 w.1 t.artifacts t.chunks k a
                  ((Selected-IsEligible c w.0 w.1 t.artifacts t.chunks (k, a)).1 h)),
          ),
          n,
          each-All (searchable_from_row stamp sha256 unstamp)
              (Selected c w.0 w.1 t.artifacts t.chunks) (λ s. s.chunk.conversation_id ≡ c) rows ss
              (λ p s q e. the_value (
                sym (searchable-scope p s e)
                ∙ ap (λ x. validate_identifier x "conversation_id") q.2
                ∙ again))
              all n,
        )
