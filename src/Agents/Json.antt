-- ===== src/Agents/Json.antt =====
-- Values of `json.loads`, and agents/parsing.py: `execute_text`, `_json_object` and `_check_keys`.
use editorial_team_v.Prelude.{
  if◌then◌else◌, any, all, is_empty, Result, ok, err, ◌>>◌, reject_if, Text, text_eq, strip, ℕ,
  Bool, ◌&&◌, ◌||◌, not, Option, none, some, List, [], ◌∷◌, ◌++◌,
}
use editorial_team_v.Domain.Routing.{Float}

-- The members of an object are those of a `dict`: no key stands twice.
mutual
  pub data Json : Type 0 where
    null : Json
    boolean : Bool → Json
    integer : Bool → ℕ → Json
    float : Float → Json
    string : Text → Json
    array : Items → Json
    object : Members → Json

  pub data Items : Type 0 where
    no_items : Items
    item : Json → Items → Items

  pub data Members : Type 0 where
    no_members : Members
    field : Text → Json → Members → Members

-- An `AgentError`, with what its message says, or an `OverflowError` that leaves the parser.
pub data ParseError : Type 0 where
  model_call_failed bad_response bad_json unexpected_fields bad_output ungrounded_excerpt :
      ParseError
  overflow : ParseError

abbrev pub Parsed : Type 0 → Type 0
Parsed A = Result ParseError A

-- `value.get(key)`
unfoldable pub get : Text → Members → Option Json
unfolding text_eq
get key no_members = none
get key (field name v rest) = if text_eq name key then some v else get key rest

abbrev pub keys : Members → List Text
keys no_members = []
keys (field name v rest) = name ∷ keys rest

-- What the model's client gives: `none` is an exception.
pub record ModelResponse : Type 0 where
  pub reply : Text
  pub calls_tools : Bool

unfoldable pub execute_text : Option ModelResponse → Parsed Text
unfolding strip
execute_text none = err model_call_failed
execute_text (some r) = do
  reject_if (r.calls_tools || is_empty (strip r.reply)) bad_response
  ok r.reply

-- `loads` is `json.loads`, and `none` one of its `JSONDecodeError`s.
unfoldable pub json_object : (Text → Option Json) → Text → Parsed Members
json_object loads t = elim (loads t) [ some (object members) ↦ ok members | _ ↦ err bad_json ]

-- `required <= keys and keys <= required | optional`
unfoldable pub check_keys : Members → List Text → List Text → Parsed (Unit {0})
unfolding text_eq
check_keys members required optional =
    reject_if
      (not (
        all (λ k. any (text_eq k) (keys members)) required
        && all (λ k. any (text_eq k) (required ++ optional)) (keys members)))
      unexpected_fields
