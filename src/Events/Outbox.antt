-- ===== src/Events/Outbox.antt =====
-- The transactional outbox of modules/events-outbox-jobs/event_outbox.go. A transaction points to
-- its outbox, so its operations take the outbox as it stands at the call and return what they
-- change.
pub mod Atomic
pub mod Order
pub mod Unique
pub mod Sound
pub mod Run
pub mod Tenant
mod Tests
use oshe_platform.Prelude.{
  ℕ, ◌+◌, String, Bool, true, false, not, ◌&&◌, ◌||◌, Option, none, some, List, [], ◌∷◌, Result, ok,
  err, wrap, int_lt, eqb, keep, push, if◌then◌else◌,
}
use oshe_platform.Prelude.Map.{Map, lookup, insert, empty, string_eq, ◌==◌}
use oshe_platform.Prelude.Strings.{trim_space}
use oshe_platform.Events.Identifier.{
  OutboxError, blank_field, duplicate_event_id, cross_tenant_association, tx_closed, prefix_event,
  prefix_tenant, prefix_correlation, prefix_causation, current_envelope_version,
  validate_prefixed_id, validate_payload_digest, validate_compatibility,
}

pub record EventEnvelope : Type 0 where
  pub event_id : String
  pub tenant_id : String
  pub producer : String
  pub event_type : String
  pub envelope_version : String
  pub schema_version : String
  pub correlation_id : String
  pub causation_id : String
  pub payload_digest : String
  pub sequence_number : ℕ
  pub timestamp : ℕ

pub record EventInput : Type 0 where
  pub event_id : String
  pub tenant_id : String
  pub producer : String
  pub event_type : String
  pub envelope_version : String
  pub schema_version : String
  pub correlation_id : String
  pub causation_id : String
  pub payload_digest : String
  pub timestamp : ℕ

pub record Outbox : Type 0 where
  pub committed : List EventEnvelope
  pub event_ids : Map String Bool
  pub seq_counter : ℕ

abbrev pub new_outbox : Outbox
new_outbox = record { committed = []; event_ids = empty; seq_counter = 0 }

pub record OutboxTx : Type 0 where
  pub tenant_id : String
  pub staged : List EventEnvelope
  pub staged_ids : Map String Bool
  pub closed : Bool

-- `m[k]` of a map to Booleans: a key that is not there reads as false.
unfoldable pub flag : String → Map String Bool → Bool
flag k m = elim (lookup k m) [ none ↦ false | some b ↦ b ]

unfoldable pub begin_tx : String → Result OutboxError OutboxTx
begin_tx tenant_id = elim (validate_prefixed_id tenant_id prefix_tenant) [
  | some x ↦ err x
  | none ↦
      ok (record {
        tenant_id = trim_space tenant_id;
        staged = [];
        staged_ids = empty;
        closed = false;
      })
]

-- A defaulted envelope version.
unfoldable pub envelope_version_of : EventInput → String
envelope_version_of input =
    if trim_space input.envelope_version == ""
    then current_envelope_version
    else trim_space input.envelope_version

-- The checks on the identifiers, the versions and the digest, in the code's order.
unfoldable pub check_tracking : EventInput → Option OutboxError
check_tracking input =
    elim (validate_compatibility (envelope_version_of input) input.schema_version) [
      | some x ↦ some x
      | none ↦ elim (validate_prefixed_id input.correlation_id prefix_correlation) [
        | some x ↦ some x
        | none ↦ elim (validate_prefixed_id input.causation_id prefix_causation) [
          | some x ↦ some x
          | none ↦ validate_payload_digest input.payload_digest
        ]
      ]
    ]

-- All the checks of `Stage`.
unfoldable pub check_stage : Outbox → OutboxTx → EventInput → Option OutboxError
check_stage o tx input =
    if tx.closed
    then some tx_closed
    else if not (input.tenant_id == "") && not (trim_space input.tenant_id == tx.tenant_id)
    then some cross_tenant_association
    else elim (validate_prefixed_id input.event_id prefix_event) [
      | some x ↦ some x
      | none ↦
          if flag (trim_space input.event_id) tx.staged_ids
          then some duplicate_event_id
          else if flag (trim_space input.event_id) o.event_ids
          then some duplicate_event_id
          else if trim_space input.producer == ""
          then some blank_field
          else if trim_space input.event_type == ""
          then some blank_field
          else check_tracking input
    ]

unfoldable pub envelope_of : OutboxTx → EventInput → ℕ → EventEnvelope
envelope_of tx input now = record {
  event_id = trim_space input.event_id;
  tenant_id = tx.tenant_id;
  producer = trim_space input.producer;
  event_type = trim_space input.event_type;
  envelope_version = envelope_version_of input;
  schema_version = trim_space input.schema_version;
  correlation_id = trim_space input.correlation_id;
  causation_id = trim_space input.causation_id;
  payload_digest = trim_space input.payload_digest;
  sequence_number = 0;
  timestamp = if eqb input.timestamp 0 then now else input.timestamp;
}

unfoldable pub stage : Outbox → OutboxTx → EventInput → ℕ → OutboxTx × Option OutboxError
stage o tx input now = elim (check_stage o tx input) [
  | some x ↦ (tx, some x)
  | none ↦ (
    record tx {
      staged = push tx.staged (envelope_of tx input now);
      staged_ids = insert (trim_space input.event_id) true tx.staged_ids;
    },
    none,
  )
]

-- The loop that looks for a staged identifier among the committed ones.
unfoldable pub any_committed : Map String Bool → List EventEnvelope → Bool
any_committed ids [] = false
any_committed ids (x ∷ xs) = if flag x.event_id ids then true else any_committed ids xs

unfoldable pub publish_one : Outbox → EventEnvelope → Outbox
publish_one o x = record {
  committed = push o.committed (record x { sequence_number = wrap (o.seq_counter + 1) });
  event_ids = insert x.event_id true o.event_ids;
  seq_counter = wrap (o.seq_counter + 1);
}

-- The loop that publishes.
unfoldable pub publish : Outbox → List EventEnvelope → Outbox
publish o [] = o
publish o (x ∷ xs) = publish (publish_one o x) xs

abbrev pub close_tx : OutboxTx → OutboxTx
close_tx tx = record tx { staged = []; staged_ids = empty; closed = true }

unfoldable pub commit : Outbox → OutboxTx → Outbox × OutboxTx × Option OutboxError
commit o tx =
    if tx.closed
    then (o, tx, some tx_closed)
    else if any_committed o.event_ids tx.staged
    then (o, tx, some duplicate_event_id)
    else (publish o tx.staged, close_tx tx, none)

unfoldable pub rollback_tx : OutboxTx → OutboxTx × Option OutboxError
rollback_tx tx = if tx.closed then (tx, some tx_closed) else (close_tx tx, none)

-- `sort.Slice` by sequence number.
unfoldable pub insert_by_sequence : EventEnvelope → List EventEnvelope → List EventEnvelope
insert_by_sequence x [] = x ∷ []
insert_by_sequence x (y ∷ ys) =
    if int_lt y.sequence_number x.sequence_number then y ∷ insert_by_sequence x ys else x ∷ y ∷ ys

unfoldable pub sort_by_sequence : List EventEnvelope → List EventEnvelope
unfolding insert_by_sequence
sort_by_sequence [] = []
sort_by_sequence (x ∷ xs) = insert_by_sequence x (sort_by_sequence xs)

unfoldable pub committed_events : Outbox → List EventEnvelope
committed_events o = sort_by_sequence o.committed

unfoldable pub committed_events_for_tenant :
    Outbox → String → Result OutboxError (List EventEnvelope)
committed_events_for_tenant o tenant_id = elim (validate_prefixed_id tenant_id prefix_tenant) [
  | some x ↦ err x
  | none ↦ ok (sort_by_sequence (keep (λ x. x.tenant_id == tenant_id) o.committed))
]
