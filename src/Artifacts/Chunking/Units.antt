-- ===== src/Artifacts/Chunking/Units.antt =====
-- artifacts/chunking.py: the units of a text, which are paragraphs, pieces of those that are too
-- long, and headings with what follows them. Indices count code points.
use editorial_team_v.Prelude.{
  ltb, leb, ◌==◌, if◌then◌else◌, length, take, drop, ok, ◌>>=◌, ◌>>◌, reject_if, Text, strip, ℕ,
  zero, suc, ◌+◌, Bool, true, false, ◌&&◌, ◌||◌, not, List, [], ◌∷◌, ◌++◌, map,
}
use editorial_team_v.Prelude.Scan.{Span, span, slice, finditer}
use editorial_team_v.Contracts.{rule, Checked, validate_identifier}
use editorial_team_v.Artifacts.Chunking.Patterns.{
  lacks_ink, token_match, sentence_match, break_match, is_heading, tokens,
}

pub record Limits : Type 0 where
  pub target_tokens : ℕ
  pub max_tokens : ℕ
  pub overlap_tokens : ℕ
  pub version : Text

-- `ParagraphChunker.__init__`
unfoldable pub make_limits : Limits → Checked Limits
make_limits l = do
  reject_if
      (l.target_tokens == 0
        || ltb l.max_tokens l.target_tokens
        || leb l.target_tokens l.overlap_tokens)
      (rule "chunk token limits are inconsistent")
  v ← validate_identifier l.version "version"
  ok (record l { version = v })

-- The loop of `_paragraphs` over the separators that are left.
unfoldable pub paragraphs_from : Text → ℕ → List Span → List Span
paragraphs_from t start [] =
    if lacks_ink (slice t start (length t)) then [] else span start (length t) ∷ []
paragraphs_from t start (m ∷ rest) =
    let later = paragraphs_from t m.stop rest in
    if lacks_ink (slice t start m.start) then later else span start m.start ∷ later

unfoldable pub paragraphs : Text → List Span
unfolding paragraphs_from break_match
paragraphs t = paragraphs_from t 0 (finditer break_match 0 t)

-- `boundaries[boundaries.index(boundary) - 1]`
unfoldable pub previous_from : ℕ → ℕ → List ℕ → ℕ
previous_from boundary before [] = before
previous_from boundary before (b ∷ rest) =
    if b == boundary then before else previous_from boundary b rest

abbrev pub last_of : ℕ → List ℕ → ℕ
last_of before [] = before
last_of before (b ∷ rest) = last_of b rest

-- The end of the last of a batch of matches.
abbrev pub last_stop : ℕ → List Span → ℕ
last_stop stop [] = stop
last_stop stop (m ∷ rest) = last_stop m.stop rest

-- The spans of text that are not blank.
unfoldable pub keep_ink : Text → List Span → List Span
keep_ink t [] = []
keep_ink t (p ∷ rest) =
    let kept = keep_ink t rest in if lacks_ink (slice t p.start p.stop) then kept else p ∷ kept

module _ (limits : Limits) where
  -- The loop of `_hard_slices`, whose `offset` stands before the matches `ms` that are left. A batch
  -- takes at least one match, so that their number is enough fuel.
  unfoldable pub hard_batches : ℕ → ℕ → ℕ → ℕ → List Span → List Span
  hard_batches fuel base start stop [] = []
  hard_batches zero base start stop (m ∷ ms) = []
  hard_batches (suc fuel) base start stop (m ∷ ms) = elim (drop limits.max_tokens (m ∷ ms)) [
    | [] ↦ span (base + start) (base + stop) ∷ []
    | n ∷ ns ↦
        span (base + start) (base + last_stop start (take limits.max_tokens (m ∷ ms)))
        ∷ hard_batches fuel base n.start stop (n ∷ ns)
  ]

  unfoldable pub hard_slices : Text → ℕ → ℕ → ℕ → List Span
  unfolding hard_batches token_match
  hard_slices local base start stop =
      let matches = finditer token_match start (slice local start stop) in
      hard_batches (length matches) base start stop matches

  -- One pass of the loop of `_split_oversized`: the next `piece_start`, and the pieces of the pass.
  unfoldable pub split_step : Text → ℕ → List ℕ → ℕ → ℕ → ℕ × List Span
  unfolding tokens hard_slices previous_from
  split_step local base boundaries piece boundary =
      let final = last_of 0 boundaries in
      let previous = previous_from boundary final boundaries in
      let cut = not (boundary == final) && ltb piece previous in
      let from = if cut then previous else piece in
      let front = if cut then span (base + piece) (base + previous) ∷ [] else [] in
      if ltb limits.max_tokens (tokens (slice local piece boundary))
      then if ltb limits.max_tokens (tokens (slice local from boundary))
        then (boundary, front ++ hard_slices local base from boundary)
        else (from, front)
      else if boundary == final && not (lacks_ink (slice local piece boundary))
      then (piece, span (base + piece) (base + boundary) ∷ [])
      else (piece, [])

  unfoldable pub split_from : Text → ℕ → List ℕ → ℕ → List ℕ → List Span
  unfolding split_step
  split_from local base boundaries piece [] = []
  split_from local base boundaries piece (b ∷ rest) =
      let pass = split_step local base boundaries piece b in
      pass.1 ++ split_from local base boundaries pass.0 rest

  unfoldable pub split_oversized : Text → Span → List Span
  unfolding split_from keep_ink sentence_match
  split_oversized t p =
      let local = slice t p.start p.stop in
      let ends = map (λ m. m.stop) (finditer sentence_match 0 local) in
      let boundaries = ends ++ (length local ∷ []) in
      keep_ink t (split_from local p.start (0 ∷ boundaries) 0 boundaries)

  unfoldable pub expand : Text → List Span → List Span
  unfolding tokens split_oversized
  expand t [] = []
  expand t (p ∷ rest) =
      let later = expand t rest in
      if leb (tokens (slice t p.start p.stop)) limits.max_tokens
      then p ∷ later
      else split_oversized t p ++ later

  -- A heading is joined with what follows it, where both fit.
  unfoldable pub joins : Text → Span → Span → Bool
  unfolding is_heading tokens
  joins t u v =
      is_heading (strip (slice t u.start u.stop))
      && leb (tokens (slice t u.start v.stop)) limits.max_tokens

  unfoldable pub group : Text → List Span → List Span
  unfolding joins
  group t [] = []
  group t (u ∷ []) = u ∷ []
  group t (u ∷ v ∷ rest) = elim (joins t u v) [
    | true ↦ span u.start v.stop ∷ group t rest
    | false ↦ u ∷ group t (v ∷ rest)
  ]

  unfoldable pub units : Text → List Span
  unfolding paragraphs expand group
  units t = group t (expand t (paragraphs t))
