-- ===== src/Policy/Values.antt =====
-- The policies of a deployment as they stand in parsed JSON, `validateWritePolicy` of
-- src/services/write-policy.ts on them, and the policy that the rest of the code reads in one.
use brain_mcp_server.Prelude.{
  ℕ, Bool, true, false, not, ◌&&◌, ◌||◌, Option, none, some, List, [], ◌∷◌, Text, text_eq, codes,
  all, if◌then◌else◌, ◌==◌, nat_eq, leb,
}
use brain_mcp_server.Policy.{
  Runtime, BrainWritePolicy, Mode, observe, enforce, Intake, retired, brain_scoped, legacy,
}
use brain_mcp_server.Policy.Patterns.{is_route, is_markdown_path, has_parent_segment}

-- A field of parsed JSON. A number comes with the natural number that it is, if it is one, and a number,
-- an array and an object with the text that they are converted to. Of an array, an element that is no
-- text is `none`.
pub data JsonValue : Type 0 where
  missing null : JsonValue
  boolean : Bool → JsonValue
  number : Option ℕ → Text → JsonValue
  string : Text → JsonValue
  array : List (Option Text) → Text → JsonValue
  object : Text → JsonValue

pub record PolicyFields : Type 0 where
  pub version : JsonValue
  pub mode : JsonValue
  pub intake : JsonValue
  pub capture_route : JsonValue
  pub task_paths : JsonValue
  pub review_base_url : JsonValue
  pub max_receipt_chars : JsonValue

-- Null, a text, a number, a Boolean and an array have no field `version`.
pub data PolicyValue : Type 0 where
  not_an_object : PolicyValue
  with_fields : PolicyFields → PolicyValue

-- `String(value)`
abbrev to_text : JsonValue → Text
to_text missing = codes "undefined"
to_text null = codes "null"
to_text (boolean true) = codes "true"
to_text (boolean false) = codes "false"
to_text (number n text) = text
to_text (string text) = text
to_text (array elements text) = text
to_text (object text) = text

abbrev is_truthy_json : JsonValue → Bool
is_truthy_json missing = false
is_truthy_json null = false
is_truthy_json (boolean b) = b
is_truthy_json (number n text) = not (text == codes "0")
is_truthy_json (string text) = not (text == [])
is_truthy_json (array elements text) = true
is_truthy_json (object text) = true

abbrev is_string : Text → JsonValue → Bool
is_string text (string s) = s == text
is_string text _ = false

abbrev pub is_one : JsonValue → Bool
is_one (number (some n) text) = n == 1
is_one _ = false

-- An element that is no text does not end in `.md` once it is converted, or has no `split`: it is refused
-- in either case.
abbrev is_task_path : Option Text → Bool
is_task_path none = false
is_task_path (some p) = is_markdown_path p && not (has_parent_segment p)

abbrev are_task_paths : JsonValue → Bool
are_task_paths (array paths text) = all is_task_path paths
are_task_paths value = not (is_truthy_json value)

-- `new URL` throws where `rt.url` is `none`.
abbrev is_review_base : Runtime → JsonValue → Bool
is_review_base rt value = not (is_truthy_json value) || elim (rt.url (to_text value)) [
  | none ↦ false
  | some u ↦
      u.is_https && not u.has_username && not u.has_password && not u.has_search && not u.has_hash
]

abbrev is_receipt_bound : JsonValue → Bool
is_receipt_bound missing = true
is_receipt_bound (number (some n) text) = leb 500 n && leb n 10000
is_receipt_bound _ = false

-- `validateWritePolicy` throws exactly where this is false.
unfoldable pub is_valid_policy : Runtime → PolicyValue → Bool
unfolding is_route is_markdown_path has_parent_segment
is_valid_policy rt not_an_object = false
is_valid_policy rt (with_fields p) =
    is_one p.version
    && (is_string (codes "observe") p.mode || is_string (codes "enforce") p.mode)
    && (is_string (codes "retired") p.intake
        || is_string (codes "brain_scoped") p.intake
        || is_string (codes "legacy") p.intake)
    && is_route (to_text p.capture_route)
    && are_task_paths p.task_paths
    && is_review_base rt p.review_base_url
    && is_receipt_bound p.max_receipt_chars

abbrev mode_of : JsonValue → Mode
mode_of value = if is_string (codes "enforce") value then enforce else observe

abbrev intake_of : JsonValue → Intake
intake_of value =
    if is_string (codes "retired") value
    then retired
    else if is_string (codes "brain_scoped") value
    then brain_scoped
    else legacy

abbrev texts_of : List (Option Text) → List Text
texts_of [] = []
texts_of (none ∷ elements) = texts_of elements
texts_of (some text ∷ elements) = text ∷ texts_of elements

abbrev paths_of : JsonValue → Option (List Text)
paths_of (array elements text) = some (texts_of elements)
paths_of _ = none

abbrev link_of : JsonValue → Option Text
link_of value = if is_truthy_json value then some (to_text value) else none

abbrev bound_of : JsonValue → Option ℕ
bound_of (number n text) = n
bound_of _ = none

-- The policy that the code reads in fields that are valid. A route is converted to a text wherever it is
-- used. A link that is valid but no text is converted here, where the code would fail when it writes an entry
-- of the log with it.
abbrev pub typed_fields : PolicyFields → BrainWritePolicy
typed_fields p = record {
  version = 1;
  mode = mode_of p.mode;
  intake = intake_of p.intake;
  capture_route = to_text p.capture_route;
  task_paths = paths_of p.task_paths;
  review_base_url = link_of p.review_base_url;
  max_receipt_chars = bound_of p.max_receipt_chars;
}

abbrev pub typed_policy : Option PolicyValue → Option BrainWritePolicy
typed_policy none = none
typed_policy (some not_an_object) = none
typed_policy (some (with_fields p)) = some (typed_fields p)
