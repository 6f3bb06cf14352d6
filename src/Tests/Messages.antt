-- ===== src/Tests/Messages.antt =====
-- A reply that needs two messages.
use editorial_team_v.Prelude.{All, Result, ok, err, Text, text, List, [], ◌∷◌, ◌≡◌, ◌≢◌, refl}
use editorial_team_v.Telegram.{out_of_fuel, chunk_text}
use editorial_team_v.Telegram.Chunks.{concat, Fits, chunk_text-ends, chunk_text-Fits}

abbrev pieces : List Text
pieces = text "ab\n" ∷ text "cdef" ∷ []

chunk_text-Fits_example : (concat pieces ≡ text "ab\ncdef") × All (Fits 5) pieces
unfolding chunk_text editorial_team_v.Prelude.strip
chunk_text-Fits_example = chunk_text-Fits (text "ab\ncdef") 5 pieces refl

chunk_text-ends_example : chunk_text (text "ab\ncdef") 5 ≢ err out_of_fuel
chunk_text-ends_example = chunk_text-ends (text "ab\ncdef") 5
