-- ===== src/Artifacts/Search/Lexical.antt =====
-- artifacts/lexical.py: BM25 over the words of the chunks. What Unicode says of a character, whether
-- it is a letter or a digit and its case folding, comes from Python's tables.
use editorial_team_v.Prelude.{
  ◌==◌, if◌then◌else◌, length, take, Text, text_eq, ℕ, zero, suc, ◌+◌, ◌-◌, Bool, false, ◌&&◌, ◌||◌,
  List, [], ◌∷◌, map,
}
use editorial_team_v.Prelude.Sorting.{sort_by}
use editorial_team_v.Artifacts.Models.{SearchableArtifactChunk}
use editorial_team_v.Artifacts.Search.Types.{Floats, Candidate, Scored, by_score, number_from}

-- Arithmetic of floats, as the formula uses it.
pub record Arithmetic (F : Type 0) : Type 0 where
  pub of_nat : ℕ → F
  pub half : F
  pub minus : F → F → F
  pub times : F → F → F
  pub divide : F → F → F
  pub log : F → F

abbrev pub joiner : ℕ → Bool
joiner c = c == 39 || c == 8217 || c == 45

module _ (is_alnum : ℕ → Bool) (casefold : Text → Text) where
  -- The length of the word at the head of a text, `[^\W_]+(?:['’-][^\W_]+)*`; `inside` says that a
  -- letter was read, so that a joiner before another letter belongs to the word.
  unfoldable pub word_length : Bool → Text → ℕ
  word_length inside [] = 0
  word_length inside (c ∷ s) =
      let rest = word_length (is_alnum c) s in
      let joins = inside && joiner c && elim s [ [] ↦ false | d ∷ t ↦ is_alnum d ] in
      if is_alnum c || joins then suc rest else 0

  -- The words of a text: `skip` characters belong to the last one.
  unfoldable pub words_from : ℕ → Text → List Text
  unfolding word_length
  words_from skip [] = []
  words_from (suc skip) (c ∷ s) = words_from skip s
  words_from zero (c ∷ s) =
      let n = word_length false (c ∷ s) in
      let rest = words_from (n - 1) s in if n == 0 then rest else casefold (take n (c ∷ s)) ∷ rest

  unfoldable pub tokenize : Text → List Text
  unfolding words_from
  tokenize t = words_from 0 t

  -- `Counter(document)[term]`
  unfoldable pub count : Text → List Text → ℕ
  unfolding text_eq
  count term [] = 0
  count term (w ∷ ws) = let rest = count term ws in if text_eq w term then suc rest else rest

  -- The number of documents with a term.
  unfoldable pub containing : Text → List (List Text) → ℕ
  unfolding count
  containing term [] = 0
  containing term (d ∷ ds) =
      let rest = containing term ds in if count term d == 0 then rest else suc rest

  unfoldable pub total_length : List (List Text) → ℕ
  total_length [] = 0
  total_length (d ∷ ds) = length d + total_length ds

  module _ {F : Type 0} (floats : Floats F) (arithmetic : Arithmetic F) (k1 b : F) where
    abbrev one : F
    one = arithmetic.of_nat 1

    -- `math.log(1 + (n - matching + 0.5) / (matching + 0.5))`
    abbrev inverse_frequency : ℕ → ℕ → F
    inverse_frequency n matching = arithmetic.log (
        floats.plus one (
          arithmetic.divide (floats.plus (arithmetic.of_nat (n - matching)) arithmetic.half)
            (floats.plus (arithmetic.of_nat matching) arithmetic.half)))

    -- The quotient of a document's length and the average length, which is 0 only if all are.
    abbrev length_ratio : List (List Text) → List Text → F
    length_ratio documents d =
        if total_length documents == 0
        then floats.nought
        else arithmetic.divide (arithmetic.of_nat (length d)) (
            arithmetic.divide (arithmetic.of_nat (total_length documents))
              (arithmetic.of_nat (length documents)))

    abbrev denominator : ℕ → F → F
    denominator frequency ratio =
        floats.plus (arithmetic.of_nat frequency)
          (arithmetic.times k1 (floats.plus (arithmetic.minus one b) (arithmetic.times b ratio)))

    unfoldable pub document_score : List (List Text) → List Text → F → List Text → F
    unfolding count containing total_length
    document_score documents d score [] = score
    document_score documents d score (term ∷ terms) =
        let frequency = count term d in
        let gain =
          arithmetic.divide
            (arithmetic.times (inverse_frequency (length documents) (containing term documents))
              (arithmetic.times (arithmetic.of_nat frequency) (floats.plus k1 one)))
            (denominator frequency (length_ratio documents d)) in
        document_score documents d (if frequency == 0 then score else floats.plus score gain) terms

    unfoldable pub score_documents :
        List (List Text) → List Text → List SearchableArtifactChunk → List (Scored floats)
    unfolding document_score tokenize
    score_documents documents terms [] = []
    score_documents documents terms (s ∷ rest) =
        (s, document_score documents (tokenize s.chunk.content) floats.nought terms)
        ∷ score_documents documents terms rest

    -- `BM25Retriever.rank`
    unfoldable pub bm25_rank : ℕ → Text → List SearchableArtifactChunk → List (Candidate F)
    unfolding score_documents tokenize sort_by by_score number_from
    bm25_rank depth query chunks =
        let documents = map (λ s. tokenize s.chunk.content) chunks in
        number_from floats 1 (
          take depth
            (sort_by (by_score floats) (score_documents documents (tokenize query) chunks)))
