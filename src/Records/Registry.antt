-- ===== src/Records/Registry.antt =====
-- The registry of original and derived objects, modules/records-audit/immutable_objects.go.
pub mod Operations
pub mod Run
pub mod Steps
pub mod Linked
pub mod Verified
pub mod Immutable
mod Tests
use oshe_platform.Prelude.{
  ℕ, String, ◌≡◌, ◌↔◌, Bool, true, false, not, ◌&&◌, ◌||◌, Option, none, some, Result, ok, err,
  int_le, eqb, arith, eq_iff, if◌then◌else◌,
}
use oshe_platform.Prelude.Map.{Map, Eq, lookup, insert, empty, string_eq, ◌==◌}
use oshe_platform.Prelude.Strings.{trim_space}
use oshe_platform.Records.{RecordState, draft, accepted, archived, validate_digest}

pub data ObjectError : Type 0 where
  blank_object_id blank_tenant_id blank_parent_id invalid_digest invalid_size_bytes : ObjectError
  blank_media_type invalid_derived_kind unknown_parent parent_not_accepted : ObjectError
  cross_tenant_linkage original_overwrite_denied original_as_derived_denied : ObjectError
  digest_mismatch invalid_lifecycle_transition record_archived duplicate_object_id : ObjectError

pub record OriginalRecord : Type 0 where
  pub object_id : String
  pub tenant_id : String
  pub media_type : String
  pub size_bytes : ℕ
  pub sha256_digest : String
  pub state : RecordState
  pub created_at : ℕ

pub record DerivedRecord : Type 0 where
  pub object_id : String
  pub tenant_id : String
  pub parent_id : String
  pub derived_kind : String
  pub media_type : String
  pub size_bytes : ℕ
  pub sha256_digest : String
  pub state : RecordState
  pub created_at : ℕ

pub record ObjectKey : Type 0 where
  pub tenant_id : String
  pub object_id : String

abbrev pub object_key_beq : ObjectKey → ObjectKey → Bool
object_key_beq a b = a.tenant_id == b.tenant_id && a.object_id == b.object_id

pub object_key_beq_iff : (a b : ObjectKey) → (object_key_beq a b ≡ true) ↔ (a ≡ b)
object_key_beq_iff a b =
    ground (arith, eq_iff a.tenant_id b.tenant_id, eq_iff a.object_id b.object_id)

instance abbrev pub object_key_eq : Eq ObjectKey
object_key_eq = record { beq = object_key_beq; beq_iff = object_key_beq_iff }

pub record IntegrityLinkage : Type 0 where
  pub derived : DerivedRecord
  pub original : OriginalRecord

pub record IntegrityRegistry : Type 0 where
  pub originals : Map ObjectKey OriginalRecord
  pub derived : Map ObjectKey DerivedRecord

abbrev pub new_integrity_registry : IntegrityRegistry
new_integrity_registry = record { originals = empty; derived = empty }

abbrev pub key_at : String → String → ObjectKey
key_at tenant object = record { tenant_id = trim_space tenant; object_id = trim_space object }

-- `ValidateDigest`, which has one error.
abbrev pub bad_digest : String → Bool
bad_digest digest = elim (validate_digest digest) [ none ↦ false | some _ ↦ true ]

-- The arguments come as a record, whose state is not read.
unfoldable pub new_original_record : OriginalRecord → ℕ → Result ObjectError OriginalRecord
new_original_record arg now =
    if trim_space arg.object_id == ""
    then err blank_object_id
    else if trim_space arg.tenant_id == ""
    then err blank_tenant_id
    else if trim_space arg.media_type == ""
    then err blank_media_type
    else if int_le arg.size_bytes 0
    then err invalid_size_bytes
    else if bad_digest arg.sha256_digest
    then err invalid_digest
    else ok (record {
      object_id = trim_space arg.object_id;
      tenant_id = trim_space arg.tenant_id;
      media_type = trim_space arg.media_type;
      size_bytes = arg.size_bytes;
      sha256_digest = arg.sha256_digest;
      state = draft;
      created_at = if eqb arg.created_at 0 then now else arg.created_at;
    })

abbrev pub is_derived_kind : String → Bool
is_derived_kind kind =
    kind == "ANNOTATION" || kind == "REDACTION" || kind == "THUMBNAIL" || kind == "TRANSFORMATION"

unfoldable pub new_derived_record : DerivedRecord → ℕ → Result ObjectError DerivedRecord
new_derived_record arg now =
    if trim_space arg.object_id == ""
    then err blank_object_id
    else if trim_space arg.tenant_id == ""
    then err blank_tenant_id
    else if trim_space arg.parent_id == ""
    then err blank_parent_id
    else if not (is_derived_kind arg.derived_kind)
    then err invalid_derived_kind
    else if trim_space arg.media_type == ""
    then err blank_media_type
    else if int_le arg.size_bytes 0
    then err invalid_size_bytes
    else if bad_digest arg.sha256_digest
    then err invalid_digest
    else ok (record {
      object_id = trim_space arg.object_id;
      tenant_id = trim_space arg.tenant_id;
      parent_id = trim_space arg.parent_id;
      derived_kind = arg.derived_kind;
      media_type = trim_space arg.media_type;
      size_bytes = arg.size_bytes;
      sha256_digest = arg.sha256_digest;
      state = draft;
      created_at = if eqb arg.created_at 0 then now else arg.created_at;
    })
