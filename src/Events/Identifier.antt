-- ===== src/Events/Identifier.antt =====
-- The validators of modules/events-outbox-jobs/event_outbox.go.
pub mod Format
use Prim.Native.Char.{Char, code}
use Prim.Native.String.{[], ◌∷◌, ◌++◌, len}
use oshe_platform.Prelude.{
  ℕ, zero, suc, ◌+◌, ◌≤◌, String, ◌≡◌, refl, ap, Bool, true, false, not, ◌&&◌, ◌||◌, Option, none,
  some, ◌⊎◌, inl, inr, arith, leb, eqb, if◌then◌else◌, Bool-cases, Option-cases, eq_iff,
}
use oshe_platform.Prelude.Map.{string_eq, ◌==◌}
use oshe_platform.Prelude.Strings.{trim_space, all_chars}

pub data OutboxError : Type 0 where
  empty_id malformed_id prefix_mismatch blank_field invalid_digest : OutboxError
  unsupported_envelope_version incompatible_schema_version : OutboxError
  duplicate_event_id cross_tenant_association tx_closed : OutboxError

abbrev pub prefix_event : String
prefix_event = "evt"

abbrev pub prefix_tenant : String
prefix_tenant = "ten"

abbrev pub prefix_correlation : String
prefix_correlation = "corr"

abbrev pub prefix_causation : String
prefix_causation = "caus"

abbrev pub current_envelope_version : String
current_envelope_version = "1.0.0"

abbrev pub current_schema_version : String
current_schema_version = "1.0.0"

-- The texts before and after the first underscore: what `strings.IndexByte` and the two slices
-- give. `none` is an index of -1.
unfoldable pub cut : String → Option (String × String)
cut [] = none
cut (c ∷ s) =
    if eqb (code c) b'_'
    then some ([], s)
    else elim (cut s) [ none ↦ none | some (a, b) ↦ some (c ∷ a, b) ]

unfoldable pub is_payload_char : ℕ → Bool
is_payload_char c = leb b'a' c && leb c b'z' || leb b'0' c && leb c b'9' || eqb c b'_' || eqb c b'-'

unfoldable pub is_hex_char : ℕ → Bool
is_hex_char c = leb b'0' c && leb c b'9' || leb b'a' c && leb c b'f'

-- The rest of the check of an identifier that has an underscore; an index of 0 or of the last byte
-- is an empty side.
unfoldable pub check_parts : String → String → String → Option OutboxError
unfolding is_payload_char all_chars
check_parts expected prefix payload =
    if prefix == "" || payload == ""
    then some malformed_id
    else if not (prefix == expected)
    then some prefix_mismatch
    else if all_chars is_payload_char payload
    then none
    else some malformed_id

unfoldable pub validate_prefixed_id : String → String → Option OutboxError
unfolding cut check_parts
validate_prefixed_id raw expected =
    let trimmed = trim_space raw in
    if trimmed == "" then some empty_id else elim (cut trimmed) [
      | none ↦ some malformed_id
      | some (prefix, payload) ↦ check_parts expected prefix payload
    ]

unfoldable pub validate_payload_digest : String → Option OutboxError
unfolding is_hex_char all_chars
validate_payload_digest digest =
    let trimmed = trim_space digest in
    if not (eqb (len trimmed) 64)
    then some invalid_digest
    else if all_chars is_hex_char trimmed
    then none
    else some invalid_digest

unfoldable pub validate_compatibility : String → String → Option OutboxError
validate_compatibility envelope_version schema_version =
    if not (trim_space envelope_version == current_envelope_version)
    then some unsupported_envelope_version
    else if not (trim_space schema_version == current_schema_version)
    then some incompatible_schema_version
    else none
