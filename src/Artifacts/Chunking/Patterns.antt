-- ===== src/Artifacts/Chunking/Patterns.antt =====
-- artifacts/chunking.py: the regular expressions, and the number of tokens of a text.
use editorial_team_v.Prelude.{
  ltb, leb, ◌==◌, if◌then◌else◌, length, drop, is_empty, Text, is_space, strip, ℕ, suc, ◌+◌, Bool,
  true, false, ◌&&◌, ◌||◌, not, [], ◌∷◌, starts_with,
}
use editorial_team_v.Prelude.Scan.{run_length, finditer}

abbrev pub lacks_ink : Text → Bool
lacks_ink t = is_empty (strip t)

-- `\S+`
unfoldable pub token_match : ℕ → Text → ℕ
token_match before s = run_length (λ c. not (is_space c)) s

abbrev pub is_closer : ℕ → Bool
is_closer c = c == 34 || c == 39 || c == 41 || c == 93

abbrev is_sentence_mark : ℕ → Bool
is_sentence_mark c = c == 46 || c == 33 || c == 63

-- `(?<=[.!?])(?:["')\]]*)\s+`
unfoldable pub sentence_match : ℕ → Text → ℕ
sentence_match before s =
    let closers = run_length is_closer s in
    let blanks = run_length is_space (drop closers s) in
    if is_sentence_mark before && not (blanks == 0) then closers + blanks else 0

-- The number of line breaks `\r?\n[ \t]*` that follow one another, and their length; `inside` says
-- that a break was read, so that blanks belong to it.
unfoldable pub breaks : Bool → Text → ℕ × ℕ
unfolding starts_with
breaks inside [] = (0, 0)
breaks inside (c ∷ s) =
    let rest = breaks true s in
    if c == 10
    then (suc rest.0, suc rest.1)
    else if (c == 13 && starts_with (10 ∷ []) s) || (inside && (c == 32 || c == 9))
    then (rest.0, suc rest.1)
    else (0, 0)

-- `(?:\r?\n[ \t]*){2,}`
unfoldable pub break_match : ℕ → Text → ℕ
unfolding breaks
break_match before s = let b = breaks false s in if ltb b.0 2 then 0 else b.1

-- `^ {0,3}#{1,6}(?:\s+|$)`
unfoldable pub is_heading : Text → Bool
is_heading t =
    let margin = run_length (λ c. c == 32) t in
    let marks = run_length (λ c. c == 35) (drop margin t) in
    leb margin 3
    && (leb 1 marks && leb marks 6)
    && elim (drop (margin + marks) t) [ [] ↦ true | c ∷ s ↦ is_space c ]

unfoldable pub tokens : Text → ℕ
unfolding token_match
tokens t = length (finditer token_match 0 t)
