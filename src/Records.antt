-- ===== src/Records.antt =====
-- Records and their audit journal, modules/records-audit/record_audit.go, with the states and the
-- digest check of modules/records-audit/immutable_objects.go.
pub mod Checks
pub mod Store
pub mod Run
pub mod Sound
pub mod Refused
pub mod Readers
pub mod History
pub mod Registry
mod Tests
use Prim.Native.Char.{code}
use Prim.Native.String.{[], ◌∷◌, ◌++◌, len}
use oshe_platform.Prelude.{
  ℕ, ◌+◌, String, Bool, true, false, not, ◌&&◌, ◌||◌, Option, none, some, List, [], ◌∷◌, eqb,
  if◌then◌else◌,
}
use oshe_platform.Prelude.Map.{Map, lookup, insert, empty, string_eq, ◌==◌}
use oshe_platform.Prelude.Strings.{trim_space}
use oshe_platform.Prelude.Strings.{all_chars}
use oshe_platform.Events.Identifier.{is_hex_char}

-- `RecordLifecycleState`; any other text is no target that the methods accept.
pub data RecordState : Type 0 where
  draft accepted archived : RecordState

abbrev pub state_eqb : RecordState → RecordState → Bool
state_eqb draft draft = true
state_eqb accepted accepted = true
state_eqb archived archived = true
state_eqb _ _ = false

pub data RecordError : Type 0 where
  blank_tenant_id blank_id blank_record_type blank_version blank_actor : RecordError
  invalid_digest invalid_correlation_id invalid_causation_id : RecordError
  duplicate_record duplicate_version record_not_found : RecordError
  record_archived invalid_lifecycle_transition : RecordError

pub data AuditEventType : Type 0 where
  record_declared record_versioned state_changed access_denied : AuditEventType

-- `none` is the empty state.
pub record AuditEntry : Type 0 where
  pub sequence_number : ℕ
  pub event_type : AuditEventType
  pub tenant_id : String
  pub record_id : String
  pub actor_id : String
  pub correlation_id : String
  pub causation_id : String
  pub prior_state : Option RecordState
  pub current_state : Option RecordState
  pub version : String
  pub details : String
  pub timestamp : ℕ

pub record RecordSnapshot : Type 0 where
  pub record_id : String
  pub tenant_id : String
  pub version : String
  pub payload_digest : String
  pub declared_by : String
  pub declared_at : ℕ
  pub state : RecordState

pub record DeclaredRecord : Type 0 where
  pub record_id : String
  pub tenant_id : String
  pub record_type : String
  pub current_version : String
  pub state : RecordState
  pub created_at : ℕ
  pub updated_at : ℕ

pub record RecordStore : Type 0 where
  pub records : Map String DeclaredRecord
  pub snapshots : Map String (List RecordSnapshot)
  pub audit_log : List AuditEntry
  pub seq_counter : ℕ

abbrev pub new_record_store : RecordStore
new_record_store = record { records = empty; snapshots = empty; audit_log = []; seq_counter = 0 }

unfoldable pub make_record_key : String → String → String
make_record_key tenant_id record_id = trim_space tenant_id ++ ":" ++ trim_space record_id

unfoldable pub has_prefix : String → String → Bool
has_prefix _ [] = true
has_prefix [] (_ ∷ _) = false
has_prefix (c ∷ s) (d ∷ p) = if eqb (code c) (code d) then has_prefix s p else false

unfoldable pub validate_tracking_ids : String → String → Option RecordError
validate_tracking_ids correlation_id causation_id =
    let corr = trim_space correlation_id in
    let caus = trim_space causation_id in
    if corr == "" || not (has_prefix corr "corr_")
    then some invalid_correlation_id
    else if caus == "" || not (has_prefix caus "caus_")
    then some invalid_causation_id
    else none

-- The digest as it is given, white space included.
unfoldable pub validate_digest : String → Option RecordError
validate_digest digest =
    if not (eqb (len digest) 64)
    then some invalid_digest
    else if all_chars is_hex_char digest
    then none
    else some invalid_digest
