-- ===== src/Contracts.antt =====
-- contracts/common.py and contracts/identity.py: the checks that every domain object makes of its
-- fields. A `ValueError` is a constructor that carries the field's name, or `rule` with the message.
pub mod Identity
use editorial_team_v.Prelude.{
  leb, ◌==◌, if◌then◌else◌, length, all, is_empty, Result, ok, err, ◌>>=◌, ◌>>◌, reject_if, Text,
  text, strip, ℕ, String, Bool, false, ◌&&◌, ◌||◌, not, Option, none, some, [], ◌∷◌, contains,
}

pub data ValueError : Type 0 where
  blank : String → ValueError
  blank_item : String → ℕ → ValueError
  not_aware : String → ValueError
  not_utc : String → ValueError
  bad_identifier : String → ValueError
  rule : String → ValueError

abbrev pub Checked : Type 0 → Type 0
Checked A = Result ValueError A

-- The trimmed value, or a refusal of an empty text.
unfoldable pub require_non_blank : Text → String → Checked Text
require_non_blank value field =
    if is_empty (strip value) then err (blank field) else ok (strip value)

-- `require_non_blank` of a field that may be `None`.
unfoldable pub require_optional : Option Text → String → Checked (Option Text)
unfolding require_non_blank
require_optional none field = ok none
require_optional (some value) field = do v ← require_non_blank value field; ok (some v)

-- What `tzinfo` and `utcoffset()` say of a `datetime`: none, an offset of `None`, or an offset in
-- microseconds with its sign.
pub data Zone : Type 0 where
  naive : Zone
  no_offset : Zone
  east west : ℕ → Zone

-- `instant` is the time in microseconds since 0001-01-01T00:00:00, in the value's own zone.
pub record Datetime : Type 0 where
  pub instant : ℕ
  pub zone : Zone

unfoldable pub check_zone : Zone → String → Checked (Unit {0})
check_zone naive field = err (not_aware field)
check_zone no_offset field = err (not_aware field)
check_zone (east offset) field = reject_if (not (offset == 0)) (not_utc field)
check_zone (west offset) field = reject_if (not (offset == 0)) (not_utc field)

unfoldable pub require_utc_timestamp : Datetime → String → Checked Datetime
unfolding check_zone
require_utc_timestamp value field = do check_zone value.zone field; ok value

abbrev pub is_utc : Zone → Bool
is_utc naive = false
is_utc no_offset = false
is_utc (east offset) = offset == 0
is_utc (west offset) = offset == 0

-- `^[A-Za-z0-9][A-Za-z0-9_-]{0,127}$`
abbrev pub is_alnum : ℕ → Bool
is_alnum c = (leb 65 c && leb c 90) || (leb 97 c && leb c 122) || (leb 48 c && leb c 57)

abbrev pub is_id_char : ℕ → Bool
is_id_char c = is_alnum c || c == 95 || c == 45

unfoldable pub matches_id : Text → Bool
matches_id [] = false
matches_id (c ∷ s) = is_alnum c && (all is_id_char s && leb (length s) 127)

unfoldable pub validate_identifier : Text → String → Checked Text
unfolding require_non_blank matches_id
validate_identifier value field = do
  v ← require_non_blank value field
  if not (matches_id v) || contains (text "..") v then err (bad_identifier field) else ok v
