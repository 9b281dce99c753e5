-- ===== src/Records/Checks.antt =====
-- What the methods of modules/records-audit/record_audit.go share: the checks of their arguments,
-- the journal entry and the snapshot.
use oshe_platform.Prelude.{
  ℕ, ◌+◌, String, Option, none, some, List, [], ◌∷◌, push, wrap, if◌then◌else◌,
}
use oshe_platform.Prelude.Map.{string_eq, ◌==◌}
use oshe_platform.Prelude.Strings.{trim_space}
use oshe_platform.Records.{
  RecordState, RecordError, blank_tenant_id, blank_id, blank_record_type, blank_version,
  blank_actor, AuditEventType, RecordSnapshot, RecordStore, validate_tracking_ids, validate_digest,
}

-- What every method takes: the names of the tenant, the record and the actor, and two tracking
-- identifiers.
pub record Caller : Type 0 where
  pub tenant_id : String
  pub record_id : String
  pub actor_id : String
  pub corr_id : String
  pub caus_id : String

-- The first of the checks that fails.
abbrev pub first_error : List (Option RecordError) → Option RecordError
first_error [] = none
first_error (some x ∷ _) = some x
first_error (none ∷ l) = first_error l

abbrev blank : String → RecordError → Option RecordError
blank s x = if trim_space s == "" then some x else none

unfoldable pub check_declare : Caller → String → String → String → Option RecordError
check_declare c record_type version digest = first_error (
    blank c.tenant_id blank_tenant_id
    ∷ blank c.record_id blank_id
    ∷ blank record_type blank_record_type
    ∷ blank version blank_version
    ∷ blank c.actor_id blank_actor
    ∷ validate_digest digest
    ∷ validate_tracking_ids c.corr_id c.caus_id
    ∷ [])

unfoldable pub check_version : Caller → String → String → Option RecordError
check_version c version digest = first_error (
    blank c.tenant_id blank_tenant_id
    ∷ blank c.record_id blank_id
    ∷ blank version blank_version
    ∷ blank c.actor_id blank_actor
    ∷ validate_digest digest
    ∷ validate_tracking_ids c.corr_id c.caus_id
    ∷ [])

unfoldable pub check_caller : Caller → Option RecordError
check_caller c = first_error (
    blank c.tenant_id blank_tenant_id
    ∷ blank c.record_id blank_id
    ∷ blank c.actor_id blank_actor
    ∷ validate_tracking_ids c.corr_id c.caus_id
    ∷ [])

-- `s.seqCounter++` and the append of the entry with that number.
unfoldable pub journal :
    RecordStore
    → Caller
    → AuditEventType
    → Option RecordState
    → Option RecordState
    → String
    → String
    → ℕ
    → RecordStore
journal s c event prior current version details now = record s {
  seq_counter = wrap (s.seq_counter + 1);
  audit_log = push s.audit_log (record {
    sequence_number = wrap (s.seq_counter + 1);
    event_type = event;
    tenant_id = trim_space c.tenant_id;
    record_id = trim_space c.record_id;
    actor_id = trim_space c.actor_id;
    correlation_id = trim_space c.corr_id;
    causation_id = trim_space c.caus_id;
    prior_state = prior;
    current_state = current;
    version = version;
    details = details;
    timestamp = now;
  });
}

unfoldable pub snapshot_of : Caller → String → String → RecordState → ℕ → RecordSnapshot
snapshot_of c version digest state now = record {
  record_id = trim_space c.record_id;
  tenant_id = trim_space c.tenant_id;
  version = trim_space version;
  payload_digest = trim_space digest;
  declared_by = trim_space c.actor_id;
  declared_at = now;
  state = state;
}
