-- ===== src/Telegram.antt =====
-- interfaces/telegram.py: the identifier of a chat's conversation, and the cut of a reply into messages
-- that Telegram takes. `rfind` looks at the text before the limit, as `rfind(sub, 0, limit)` does.
pub mod Chunks
pub mod Adapter
pub mod Sending
pub mod Handlers
pub mod Added
pub mod Allowed
pub mod Delivery
pub mod Session
pub mod Scope
pub mod Refusal
pub mod Lifecycle
use editorial_team_v.Prelude.{
  ltb, leb, ◌==◌, if◌then◌else◌, length, take, drop, is_empty, Result, ok, err, Text, text, strip,
  ℕ, zero, suc, ◌+◌, Bool, Option, none, some, List, [], ◌∷◌, ◌++◌, starts_with,
}
use editorial_team_v.Prelude.Decimal.{decimal}

-- A Python `int`: its sign and its absolute value.
pub data Integer : Type 0 where
  nonneg negative : ℕ → Integer

unfoldable pub encode_id : Integer → Text
unfolding decimal
encode_id (nonneg n) = decimal n
encode_id (negative n) = text "n" ++ decimal n

unfoldable pub conversation_id_for_chat : Integer → Option Integer → Text
unfolding encode_id
conversation_id_for_chat chat none = text "telegram-chat-" ++ encode_id chat
conversation_id_for_chat chat (some thread) =
    (text "telegram-chat-" ++ encode_id chat) ++ (text "-thread-" ++ encode_id thread)

pub data ChunkError : Type 0 where
  blank_text bad_limit unsplittable out_of_fuel : ChunkError

abbrev pub max_telegram_text_length : ℕ
max_telegram_text_length = 4096

-- The last index at which `sub` stands in a text.
unfoldable pub rfind : Text → Text → Option ℕ
unfolding starts_with
rfind sub [] = none
rfind sub (c ∷ s) = elim (rfind sub s) [
  | some i ↦ some (suc i)
  | none ↦ if starts_with sub (c ∷ s) then some 0 else none
]

unfoldable pub preferred_split : Text → ℕ → ℕ
unfolding rfind
preferred_split t limit = elim (rfind (10 ∷ 10 ∷ []) (take limit t)) [
  | some paragraph ↦ paragraph + 2
  | none ↦ elim (rfind (10 ∷ []) (take limit t)) [ some line ↦ line + 1 | none ↦ limit ]
]

abbrev pub is_blank : Text → Bool
is_blank t = is_empty (strip t)

-- Where the loop cuts: the limit, where the preferred piece is blank.
unfoldable pub split_at : Text → ℕ → ℕ
unfolding preferred_split
split_at t limit =
    if is_blank (take (preferred_split t limit) t) then limit else preferred_split t limit

-- `chunks[-1] += remaining`, where it fits
unfoldable pub extend_last : ℕ → List Text → Text → Result ChunkError (List Text)
extend_last limit [] remaining = err unsplittable
extend_last limit (c ∷ []) remaining =
    if ltb limit (length c + length remaining) then err unsplittable else ok ((c ++ remaining) ∷ [])
extend_last limit (c ∷ d ∷ cs) remaining = elim (extend_last limit (d ∷ cs) remaining) [
  | err e ↦ err e
  | ok ds ↦ ok (c ∷ ds)
]

unfoldable pub finish_chunks : ℕ → List Text → Text → Result ChunkError (List Text)
unfolding extend_last
finish_chunks limit chunks remaining =
    if is_blank remaining
    then extend_last limit chunks remaining
    else ok (chunks ++ (remaining ∷ []))

-- The loop: `chunks` are those that are done.
unfoldable pub split_remaining : ℕ → ℕ → List Text → Text → Result ChunkError (List Text)
unfolding finish_chunks split_at
split_remaining zero limit chunks remaining = err out_of_fuel
split_remaining (suc fuel) limit chunks remaining =
    let cut = split_at remaining limit in
    let chunk = take cut remaining in
    let rest = split_remaining fuel limit (chunks ++ (chunk ∷ [])) (drop cut remaining) in
    if leb (length remaining) limit
    then finish_chunks limit chunks remaining
    else if is_blank chunk
    then err unsplittable
    else rest

-- Each pass takes a character at least, so the text's length and one more is enough fuel.
unfoldable pub chunk_text : Text → ℕ → Result ChunkError (List Text)
unfolding split_remaining
chunk_text t limit =
    if is_blank t
    then err blank_text
    else if limit == 0
    then err bad_limit
    else split_remaining (suc (length t)) limit [] t
