-- ===== src/Identifiers/Tests.antt =====
-- Identifiers, contexts, the ledger and the references at concrete inputs.
use oshe_platform.Prelude.{ℕ, String, ◌≡◌, refl, ◌↔◌, some, List, [], ◌∷◌, ok}
use oshe_platform.Prelude.Map.{string_eq, lookup, insert}
use oshe_platform.Prelude.Strings.{trim_space, all_chars}
use oshe_platform.Events.Identifier.{cut}
use oshe_platform.Identifiers.{
  parse, parse_with_prefix, prefix, suffix, generate, hex_encode, char_in, validate_prefix,
  is_prefix_char, parse_parts, split, prepend, is_payload_digit, is_hex_digit, is_upper_hex,
}
use oshe_platform.Identifiers.Parsed.{IsIdentifier, parse_iff}
use oshe_platform.Identifiers.Generated.{parse-generate}
use oshe_platform.Identifiers.Correlation.{
  CorrelationContext, new_correlation_context, parse_correlation_id, parse_causation_id, Document,
  encode_correlation_context, decode_correlation_envelope,
}
use oshe_platform.Identifiers.RoundTrip.{decode-encode}
use oshe_platform.Identifiers.Ledger.{
  LedgerCall, check_or_record, Promises, IdempotencyStatus, run as run_ledger,
  new_idempotency_ledger, check_or_record_refines, status_replay, status_conflict,
}
use oshe_platform.Identifiers.References.{
  OpaqueReference, new_external_reference_registry, register, lookup_public, resolve_internal,
  check_register, check_external,
}
use oshe_platform.Identifiers.References.Linked.{Registration, run}
use oshe_platform.Identifiers.References.Resolved.{resolve-register}

parse_iff_example :
    (parse " corr_0a1b " ≡ ok "corr_0a1b")
    ↔ (("corr_0a1b" ≡ trim_space " corr_0a1b ") × IsIdentifier (trim_space " corr_0a1b "))
parse_iff_example = parse_iff " corr_0a1b " "corr_0a1b"

parsed_test : parse " corr_0a1b " ≡ ok "corr_0a1b"
unfolding parse parse_parts split prepend trim_space validate_prefix all_chars is_prefix_char
    is_payload_digit is_hex_digit is_upper_hex
parsed_test = refl

abbrev entropy : List ℕ
entropy = 0 ∷ 17 ∷ 255 ∷ 3 ∷ 4 ∷ 5 ∷ 6 ∷ 7 ∷ 8 ∷ 9 ∷ 10 ∷ 11 ∷ 12 ∷ 13 ∷ 14 ∷ 160 ∷ []

abbrev generated_text : String
generated_text = "corr_0011ff030405060708090a0b0c0d0ea0"

parse-generate_example :
    (parse generated_text ≡ ok generated_text)
    × (parse_with_prefix generated_text "corr" ≡ ok generated_text)
    × (prefix generated_text ≡ "corr")
    × (suffix generated_text ≡ hex_encode entropy)
unfolding generate hex_encode char_in validate_prefix trim_space all_chars is_prefix_char
parse-generate_example = parse-generate "corr" entropy generated_text refl refl refl

-- A stand-in for the hash, which keeps the payload's hexadecimal digits.
abbrev hash : List ℕ → String
hash bs = hex_encode bs

abbrev call : String → List ℕ → ℕ → LedgerCall hash
call key payload now = record { key = key; payload = payload; now = now }

abbrev context : CorrelationContext
context = record { correlation_id = "corr_0a1b"; causation_id = "caus_22" }

decode-encode_example :
    (payload : Document) × (encode_correlation_context (some context) ≡ ok payload)
    × (decode_correlation_envelope payload ≡ ok context)
unfolding new_correlation_context parse_correlation_id parse_causation_id parse_with_prefix prefix
    cut parse parse_parts split prepend trim_space validate_prefix all_chars is_prefix_char
    is_payload_digit is_hex_digit is_upper_hex
decode-encode_example = decode-encode " corr_0a1b" "caus_22 " context refl

abbrev history : List (LedgerCall hash)
history = call " k1" (1 ∷ 2 ∷ []) 5 ∷ call "k2" [] 6 ∷ call "k1" (7 ∷ []) 8 ∷ []

check_or_record_refines_example :
    Promises hash history
      (call "k1 " (7 ∷ []) 9)
      (check_or_record hash (run_ledger hash new_idempotency_ledger history) "k1 " (7 ∷ []) 9).1
check_or_record_refines_example = check_or_record_refines hash history (call "k1 " (7 ∷ []) 9)

abbrev status_of : List ℕ → IdempotencyStatus
status_of payload =
    (check_or_record hash (run_ledger hash new_idempotency_ledger history) "k1 " payload 9).1.status

-- The first call with the key decides: its payload is a replay, and another one a conflict.
replay_test : status_of (1 ∷ 2 ∷ []) ≡ status_replay
unfolding run_ledger check_or_record trim_space hex_encode char_in lookup insert
replay_test = refl

conflict_test : status_of (7 ∷ []) ≡ status_conflict
unfolding run_ledger check_or_record trim_space hex_encode char_in lookup insert
conflict_test = refl

abbrev acme_sap : Registration
acme_sap = record {
  tenant = "acme ";
  system = "sap";
  external = "41-a";
  internal = "emp_1";
  entropy = some entropy;
}

abbrev acme_hr : Registration
acme_hr = record {
  tenant = "acme";
  system = "hr";
  external = "41-a";
  internal = "emp_2";
  entropy = some (1 ∷ entropy);
}

-- The same registration again, with the bytes that a second call gives.
abbrev acme_again : Registration
acme_again = record acme_hr { entropy = some (2 ∷ entropy) }

abbrev sap_reference : OpaqueReference
sap_reference = record {
  tenant_id = "acme";
  system = "sap";
  external_id = "41-a";
  lookup_token = "ref_0011ff030405060708090a0b0c0d0ea0";
}

resolve-register_example :
    (lookup_public
        (run (run new_external_reference_registry (acme_hr ∷ [])) (acme_sap ∷ acme_again ∷ []))
        "acme "
        "sap"
        "41-a"
      ≡ ok sap_reference)
    × (resolve_internal
          (run (run new_external_reference_registry (acme_hr ∷ [])) (acme_sap ∷ acme_again ∷ []))
          "acme "
          "ref_0011ff030405060708090a0b0c0d0ea0"
        ≡ ok "emp_1")
unfolding run register check_register check_external trim_space hex_encode char_in lookup insert
resolve-register_example =
    resolve-register (acme_hr ∷ []) acme_sap (acme_again ∷ []) sap_reference (refl, tt)
      (refl, (refl, tt)) refl refl
