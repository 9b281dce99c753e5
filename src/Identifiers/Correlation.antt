-- ===== src/Identifiers/Correlation.antt =====
-- packages/identifiers/correlation.go and serialization.go. A JSON text is what the decoder reads of
-- it: an object's members in order, up to the closing brace or to the place that is no JSON.
use oshe_platform.Prelude.{
  ℕ, String, Bool, true, false, not, ◌||◌, Option, none, some, List, [], ◌∷◌, Result, ok, err,
  if◌then◌else◌,
}
use oshe_platform.Prelude.Map.{string_eq, ◌==◌}
use oshe_platform.Prelude.Strings.{trim_space}
use oshe_platform.Identifiers.{IdError, parse_with_prefix, generate}

-- The errors of the parser stand in the message of the two errors that wrap them.
pub data ContextError : Type 0 where
  invalid_correlation_id invalid_causation_id : ContextError
  generation : IdError → ContextError
  nil_context empty_version unsupported_version : ContextError
  extra_fields duplicate_fields malformed_envelope_json : ContextError

abbrev pub prefix_correlation : String
prefix_correlation = "corr"

abbrev pub prefix_causation : String
prefix_causation = "caus"

unfoldable pub parse_correlation_id : String → Result ContextError String
parse_correlation_id raw = elim (parse_with_prefix raw prefix_correlation) [
  | err _ ↦ err invalid_correlation_id
  | ok id ↦ ok id
]

unfoldable pub parse_causation_id : String → Result ContextError String
parse_causation_id raw = elim (parse_with_prefix raw prefix_causation) [
  | err _ ↦ err invalid_causation_id
  | ok id ↦ ok id
]

pub record CorrelationContext : Type 0 where
  pub correlation_id : String
  pub causation_id : String

unfoldable pub new_correlation_context : String → String → Result ContextError CorrelationContext
new_correlation_context correlation causation = elim (parse_correlation_id correlation) [
  | err x ↦ err x
  | ok corr ↦ elim (parse_causation_id causation) [
    | err x ↦ err x
    | ok caus ↦ ok (record { correlation_id = corr; causation_id = caus })
  ]
]

abbrev generated : Result IdError String → Result ContextError String
generated (ok id) = ok id
generated (err x) = err (generation x)

-- The bytes of the two calls of `rand.Read` are arguments.
unfoldable pub start_correlation_context :
    Option (List ℕ) → Option (List ℕ) → Result ContextError CorrelationContext
start_correlation_context a b = elim (generated (generate prefix_correlation a)) [
  | err x ↦ err x
  | ok corr ↦ elim (generated (generate prefix_causation b)) [
    | err x ↦ err x
    | ok caus ↦ ok (record { correlation_id = corr; causation_id = caus })
  ]
]

unfoldable pub derive_child :
    CorrelationContext → Option (List ℕ) → Result ContextError CorrelationContext
derive_child c b = elim (generated (generate prefix_causation b)) [
  | err x ↦ err x
  | ok caus ↦ ok (record { correlation_id = c.correlation_id; causation_id = caus })
]

pub record CorrelationEnvelope : Type 0 where
  pub version : String
  pub correlation_id : String
  pub causation_id : String

-- A value: a text, `null`, a value of another type, or a place that is no JSON.
pub data Value : Type 0 where
  text : String → Value
  null_value other_value broken_value : Value

abbrev is_broken : Value → Bool
is_broken broken_value = true
is_broken _ = false

-- The rest of an object: its closing brace and the text's end, a place that is no JSON, or a member.
pub data Members : Type 0 where
  closed broken trailing : Members
  member : String → Value → Members → Members

pub data Document : Type 0 where
  blank no_object : Document
  object : Members → Document

abbrev pub current_correlation_envelope_version : String
current_correlation_envelope_version = "v1"

-- json.Marshal of an envelope: the fields under their names, in order.
abbrev pub marshal : CorrelationEnvelope → Document
marshal e = object (
    member "version" (text e.version) (
      member "correlation_id" (text e.correlation_id)
        (member "causation_id" (text e.causation_id) closed)))

unfoldable pub encode_correlation_context : Option CorrelationContext → Result ContextError Document
encode_correlation_context none = err nil_context
encode_correlation_context (some ctx) = elim (parse_correlation_id ctx.correlation_id) [
  | err x ↦ err x
  | ok corr ↦ elim (parse_causation_id ctx.causation_id) [
    | err x ↦ err x
    | ok caus ↦ ok (
        marshal (record {
          version = current_correlation_envelope_version;
          correlation_id = corr;
          causation_id = caus;
        }))
  ]
]

abbrev pub is_allowed_field : String → Bool
is_allowed_field key = key == "version" || key == "correlation_id" || key == "causation_id"

unfoldable pub seen : List String → String → Bool
seen [] key = false
seen (k ∷ ks) key = if k == key then true else seen ks key

-- The loop over the members, and the keys seen so far. It ends at the closing brace, before what
-- trails it.
unfoldable pub check_members : List String → Members → Option ContextError
unfolding seen
check_members keys closed = none
check_members keys trailing = none
check_members keys broken = some malformed_envelope_json
check_members keys (member key v rest) =
    let after = check_members (key ∷ keys) rest in
    if not (is_allowed_field key)
    then some extra_fields
    else if seen keys key
    then some duplicate_fields
    else if is_broken v
    then some malformed_envelope_json
    else after

unfoldable pub check_envelope_syntax_and_keys : Document → Option ContextError
unfolding check_members
check_envelope_syntax_and_keys blank = some malformed_envelope_json
check_envelope_syntax_and_keys no_object = some malformed_envelope_json
check_envelope_syntax_and_keys (object ms) = check_members [] ms

abbrev set_field : CorrelationEnvelope → String → String → CorrelationEnvelope
set_field e key v =
    if key == "version"
    then record e { version = v }
    else if key == "correlation_id"
    then record e { correlation_id = v }
    else record e { causation_id = v }

-- json.Unmarshal into the envelope, for members with the three names: `none` is an error. `null`
-- leaves a field as it is.
unfoldable pub unmarshal : CorrelationEnvelope → Members → Option CorrelationEnvelope
unmarshal e closed = some e
unmarshal e trailing = none
unmarshal e broken = none
unmarshal e (member key (text v) rest) = unmarshal (set_field e key v) rest
unmarshal e (member key null_value rest) = unmarshal e rest
unmarshal e (member key other_value rest) = none
unmarshal e (member key broken_value rest) = none

abbrev no_envelope : CorrelationEnvelope
no_envelope = record { version = ""; correlation_id = ""; causation_id = "" }

abbrev members : Document → Members
members blank = broken
members no_object = broken
members (object ms) = ms

unfoldable pub check_version : String → Option ContextError
check_version version =
    let v = trim_space version in
    if v == ""
    then some empty_version
    else if not (v == current_correlation_envelope_version)
    then some unsupported_version
    else none

unfoldable pub decode_correlation_envelope : Document → Result ContextError CorrelationContext
unfolding new_correlation_context
decode_correlation_envelope payload = elim (check_envelope_syntax_and_keys payload) [
  | some x ↦ err x
  | none ↦ elim (unmarshal no_envelope (members payload)) [
    | none ↦ err malformed_envelope_json
    | some env ↦ elim (check_version env.version) [
      | some x ↦ err x
      | none ↦ new_correlation_context env.correlation_id env.causation_id
    ]
  ]
]
