-- ===== src/Records/Registry/Tests.antt =====
-- Calls of the object registry at concrete inputs.
use oshe_platform.Prelude.{String, ◌≡◌, refl, some, List, [], ◌∷◌, ok, arith}
use oshe_platform.Prelude.Map.{lookup, insert, lookup-empty, string_eq}
use oshe_platform.Prelude.Strings.{trim_space}
use oshe_platform.Records.{draft, accepted, validate_digest}
use oshe_platform.Records.Registry.{
  OriginalRecord, DerivedRecord, ObjectKey, object_key_eq, IntegrityLinkage, IntegrityRegistry,
  new_integrity_registry, new_original_record, new_derived_record,
}
use oshe_platform.Records.Registry.Operations.{
  check_tenant, check_original, register_original, check_names, accept_verdict, move_original,
  accept_original, check_derived, register_derived, check_parent, verify_integrity_linkage,
}
use oshe_platform.Prelude.Strings.{all_chars}
use oshe_platform.Events.Identifier.{is_hex_char}
use oshe_platform.Records.Registry.Run.{Call, add_original, add_derived, accept_at, archive_at, run}
use oshe_platform.Records.Registry.Linked.{IsSoundRegistry, run-IsSoundRegistry}
use oshe_platform.Records.Registry.Immutable.{states, AreInOrder, run_keeps_original}
use oshe_platform.Records.Registry.Verified.{IsVerified, verify_integrity_linkage-IsVerified}

abbrev digest : String
digest = "0123456789abcdef0123456789abcdef0123456789abcdef0123456789abcdef"

abbrev photo : OriginalRecord
photo = record {
  object_id = "photo-1";
  tenant_id = "acme";
  media_type = "image/png";
  size_bytes = 2048;
  sha256_digest = digest;
  state = draft;
  created_at = 5;
}

abbrev thumbnail : DerivedRecord
thumbnail = record {
  object_id = "thumb-1";
  tenant_id = "acme";
  parent_id = "photo-1";
  derived_kind = "THUMBNAIL";
  media_type = "image/png";
  size_bytes = 64;
  sha256_digest = digest;
  state = draft;
  created_at = 9;
}

abbrev calls : List Call
calls =
    add_original "acme" photo 5 ∷ accept_at "acme" "photo-1" ∷ add_derived " acme" thumbnail 9 ∷ []

abbrev filled : IntegrityRegistry
filled = run new_integrity_registry calls

abbrev accepted_photo : OriginalRecord
accepted_photo = record photo { state = accepted }

abbrev photo_key : ObjectKey
photo_key = record { tenant_id = "acme"; object_id = "photo-1" }

filled_holds : lookup photo_key filled.originals ≡ some accepted_photo
unfolding run register_original register_derived accept_original move_original check_tenant
    check_names check_original check_derived accept_verdict new_original_record new_derived_record
    validate_digest all_chars is_hex_char lookup insert trim_space
filled_holds = refl

abbrev linkage : IntegrityLinkage
linkage = record { derived = thumbnail; original = accepted_photo }

filled_verifies : verify_integrity_linkage filled "thumb-1" "acme" digest ≡ ok linkage
unfolding run register_original register_derived accept_original move_original check_tenant
    check_names check_original check_derived accept_verdict new_original_record new_derived_record
    validate_digest all_chars is_hex_char lookup insert trim_space verify_integrity_linkage
    check_parent
filled_verifies = refl

new_integrity_registry-IsSoundRegistry : IsSoundRegistry new_integrity_registry
new_integrity_registry-IsSoundRegistry = record {
  originals_filed = λ k rec e. absurd (ground (arith, lookup-empty {V = OriginalRecord} k));
  derived_filed = λ k rec e. absurd (ground (arith, lookup-empty {V = DerivedRecord} k));
}

run-IsSoundRegistry_example : IsSoundRegistry filled
run-IsSoundRegistry_example =
    run-IsSoundRegistry new_integrity_registry calls new_integrity_registry-IsSoundRegistry

abbrev more_calls : List Call
more_calls = add_original "acme" photo 20 ∷ archive_at "acme" "photo-1" ∷ []

run_keeps_original_example :
    AreInOrder accepted_photo.state (states photo_key filled more_calls)
    × ((rec' : OriginalRecord) × ((lookup photo_key (run filled more_calls).originals ≡ some rec')
          × (record accepted_photo { state = rec'.state } ≡ rec')))
run_keeps_original_example =
    run_keeps_original filled more_calls photo_key accepted_photo filled_holds

verify_integrity_linkage-IsVerified_example : IsVerified filled "thumb-1" "acme" digest linkage
verify_integrity_linkage-IsVerified_example =
    verify_integrity_linkage-IsVerified filled "thumb-1" "acme" digest linkage filled_verifies
