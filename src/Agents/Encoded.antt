-- ===== src/Agents/Encoded.antt =====
-- agents/parsing.py: a decision that is written as an object is read back as itself.
use editorial_team_v.Prelude.{ok, Text, text, text_eq, ◌≡◌, refl, Option, none, some, List, [], ◌∷◌}
use editorial_team_v.Domain.Routing.{
  CoordinatorRoute, chat, start_writing_task, revise_task, show_retrieved_draft,
  ClarificationReason, ambiguous, no_match, unsupported_version, tool_problem, TalkerContext,
  make_talker_context, CoordinatorDecision, make_decision,
}
use editorial_team_v.Agents.Json.{
  Json, null, float, string, array, object, Items, no_items, item, Members, no_members, field, get,
  json_object, check_keys,
}
use editorial_team_v.Agents.Parsing.{
  member_of, routes, reasons, string_of, optional_text, texts_of, items_of, confidence_of,
  parse_context, parse_coordinator_decision,
}

-- The object that a decision is written as.
abbrev route_text : CoordinatorRoute → Text
route_text chat = text "chat"
route_text start_writing_task = text "start_writing_task"
route_text revise_task = text "revise_task"
route_text show_retrieved_draft = text "show_retrieved_draft"

abbrev reason_text : ClarificationReason → Text
reason_text ambiguous = text "ambiguous_candidates"
reason_text no_match = text "no_match"
reason_text unsupported_version = text "unsupported_relative_version"
reason_text tool_problem = text "tool_problem"

abbrev optional_json : Option Text → Json
optional_json none = null
optional_json (some t) = string t

abbrev items_json : List Text → Items
items_json [] = no_items
items_json (t ∷ ts) = item (string t) (items_json ts)

abbrev context_members : TalkerContext → Members
context_members c = field (text "reason") (string (reason_text c.reason)) (
    field (text "candidate_summaries") (array (items_json c.candidate_summaries))
      (field (text "recommended_question") (string c.recommended_question) no_members))

abbrev context_json : Option TalkerContext → Json
context_json none = null
context_json (some c) = object (context_members c)

abbrev pub decision_json : CoordinatorDecision → Members
decision_json d = field (text "route") (string (route_text d.route)) (
    field (text "confidence") (float d.confidence) (
      field (text "task_input") (optional_json d.task_input) (
        field (text "revision_instructions") (optional_json d.revision_instructions)
          (field (text "talker_context") (context_json d.talker_context) no_members))))

route-read : (r : CoordinatorRoute) → member_of routes (some (string (route_text r))) ≡ ok r
unfolding member_of text_eq
route-read chat = refl
route-read start_writing_task = refl
route-read revise_task = refl
route-read show_retrieved_draft = refl

reason-read : (r : ClarificationReason) → member_of reasons (some (string (reason_text r))) ≡ ok r
unfolding member_of text_eq
reason-read ambiguous = refl
reason-read no_match = refl
reason-read unsupported_version = refl
reason-read tool_problem = refl

optional-read : (o : Option Text) → optional_text (some (optional_json o)) ≡ ok o
unfolding optional_text
optional-read none = refl
optional-read (some t) = refl

texts-read : (ts : List Text) → texts_of (items_json ts) ≡ ok ts
unfolding texts_of
texts-read [] = refl
texts-read (t ∷ ts) = rw (texts-read ts)

-- A context that its own constructor keeps as it is.
abbrev pub IsKept : Option TalkerContext → Type 0
IsKept none = Unit
IsKept (some c) = make_talker_context c.reason c.candidate_summaries c.recommended_question ≡ ok c

context-read : (c : Option TalkerContext) → IsKept c → parse_context (some (context_json c)) ≡ ok c
unfolding parse_context check_keys get text_eq items_of string_of
context-read none k = refl
context-read (some c) k = rw (reason-read c.reason, texts-read c.candidate_summaries, k)

object-read :
    (loads : Text → Option Json) (t : Text) (m : Members)
    → loads t ≡ some (object m)
    → json_object loads t ≡ ok m
unfolding json_object
object-read loads t m l = rw (l, json_object)

-- A text that `json.loads` reads as the object of a decision is parsed to that decision, where the
-- decision and its context are such as their own constructors keep.
pub parse_coordinator_decision-json :
    (loads : Text → Option Json) (t : Text) (d : CoordinatorDecision)
    → loads t ≡ some (object (decision_json d))
    → IsKept d.talker_context
    → make_decision d ≡ ok d
    → parse_coordinator_decision loads t ≡ ok d
unfolding parse_coordinator_decision check_keys get text_eq confidence_of
parse_coordinator_decision-json loads t d l k m = rw (
  object-read loads t (decision_json d) l,
  context-read d.talker_context k,
  route-read d.route,
  optional-read d.task_input,
  optional-read d.revision_instructions,
  m,
)
