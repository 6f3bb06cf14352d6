-- ===== src/Contracts/Identity.antt =====
-- What the checks of contracts/common.py and contracts/identity.py accept.
use editorial_team_v.Prelude.{
  if◌then◌else◌, length, all, is_empty, All, ok, err, Text, text, is_space, strip, ℕ, ◌≤◌, String,
  ◌≡◌, refl, ◌≢◌, true, false, Option, none, some, [], ◌∷◌, arith, strip_idem, contains,
}
use editorial_team_v.Contracts.{
  ValueError, require_non_blank, require_optional, Datetime, require_utc_timestamp, is_utc,
  is_id_char, matches_id, validate_identifier,
}

-- Trimming is stable: a value that was accepted is accepted again, and is not changed.
pub require_non_blank_idem :
    (s v : Text) (f g : String) → require_non_blank s f ≡ ok v → require_non_blank v g ≡ ok v
unfolding require_non_blank
require_non_blank_idem s v f g h = ground (arith, strip_idem s)

pub require_optional_idem :
    (s v : Option Text) (f g : String) → require_optional s f ≡ ok v → require_optional v g ≡ ok v
unfolding require_optional
require_optional_idem none v f g h = ground arith
require_optional_idem (some s) v f g h = ground (arith, strip_idem s)

pub require_utc_timestamp-eq :
    (d e : Datetime) (f : String)
    → require_utc_timestamp d f ≡ ok e
    → (d ≡ e) × (is_utc d.zone ≡ true)
unfolding require_utc_timestamp
require_utc_timestamp-eq d e f h = ground arith

no_dots : (s : Text) → all is_id_char s ≡ true → contains (text "..") s ≡ false
unfolding contains
no_dots [] h = refl
no_dots (c ∷ s) h = ground (arith, no_dots s)

matches_id-no_dots : (s : Text) → matches_id s ≡ true → contains (text "..") s ≡ false
unfolding matches_id
matches_id-no_dots [] h = cc
matches_id-no_dots (c ∷ s) h = no_dots (c ∷ s) (ground arith)

matches_id-nil : (s : Text) → matches_id s ≡ true → is_empty s ≡ false
unfolding matches_id
matches_id-nil [] h = cc
matches_id-nil (c ∷ s) h = refl

-- An identifier is accepted exactly when its trimmed text matches the pattern: the test for ".."
-- never decides.
pub validate_identifier-accepts :
    (s : Text) (f : String)
    → validate_identifier s f ≡ (
        if is_empty (strip s)
        then err (ValueError.blank f)
        else if matches_id (strip s)
        then ok (strip s)
        else err (ValueError.bad_identifier f))
unfolding validate_identifier
validate_identifier-accepts s f = ground (arith, matches_id-no_dots (strip s))

pub validate_identifier-eq_ok :
    (s v : Text) (f : String)
    → validate_identifier s f ≡ ok v
    → (v ≡ strip s) × (matches_id v ≡ true)
unfolding validate_identifier
validate_identifier-eq_ok s v f h = ground arith

abbrev pub IsOpaque : Text → Type 0
IsOpaque v =
    (1 ≤ length v)
    × (length v ≤ 128)
    × All (λ c. (c ≢ b'/') × (c ≢ b'\\') × (c ≢ b'.') × (is_space c ≡ false)) v

id_char-IsSafe :
    (c : ℕ) → is_id_char c ≡ true → (c ≢ b'/') × (c ≢ b'\\') × (c ≢ b'.') × (is_space c ≡ false)
unfolding is_space
id_char-IsSafe c h = ground arith

id_chars-All :
    (s : Text)
    → all is_id_char s ≡ true
    → All (λ c. (c ≢ b'/') × (c ≢ b'\\') × (c ≢ b'.') × (is_space c ≡ false)) s
id_chars-All [] h = tt
id_chars-All (c ∷ s) h = (id_char-IsSafe c (ground arith), id_chars-All s (ground arith))

matches_id-IsOpaque : (s : Text) → matches_id s ≡ true → IsOpaque s
unfolding matches_id
matches_id-IsOpaque [] h = cc
matches_id-IsOpaque (c ∷ s) h = (omega arith, ground arith, id_chars-All (c ∷ s) (ground arith))

-- An identifier that is accepted has from 1 to 128 characters, and none of them is a slash, a
-- backslash, a dot or white space.
pub validate_identifier-IsOpaque :
    (s v : Text) (f : String) → validate_identifier s f ≡ ok v → IsOpaque v
validate_identifier-IsOpaque s v f h = matches_id-IsOpaque v (validate_identifier-eq_ok s v f h).1

pub validate_identifier-of_strip :
    (s : Text) (f : String) → matches_id (strip s) ≡ true → validate_identifier s f ≡ ok (strip s)
validate_identifier-of_strip s f h =
    rw validate_identifier-accepts (rw (matches_id-nil (strip s) h, h) refl)

pub validate_identifier-of_match :
    (v : Text) (f : String) → strip v ≡ v → matches_id v ≡ true → validate_identifier v f ≡ ok v
validate_identifier-of_match v f trim h =
    rw validate_identifier-accepts (rw trim (rw (matches_id-nil v h, h)))

-- An accepted identifier is accepted again, unchanged.
pub validate_identifier_idem :
    (s v : Text) (f g : String) → validate_identifier s f ≡ ok v → validate_identifier v g ≡ ok v
validate_identifier_idem s v f g h =
    let (e, m) = validate_identifier-eq_ok s v f h in
    validate_identifier-of_match v g (rw e (strip_idem s)) m
