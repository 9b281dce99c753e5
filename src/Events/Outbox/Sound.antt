-- ===== src/Events/Outbox/Sound.antt =====
-- What holds of every event that a transaction of modules/events-outbox-jobs/event_outbox.go
-- stages.
use mathlib.Core.Path.{subst}
use oshe_platform.Prelude.{
  ℕ, String, ◌≡◌, refl, false, none, [], ok, All, All-append, arith, Option-cases, eq_iff, inl, inr,
}
use oshe_platform.Prelude.Map.{empty, string_eq, ◌==◌}
use oshe_platform.Prelude.Strings.{trim_space, trim_space-trim_space}
use oshe_platform.Events.Identifier.{
  prefix_event, prefix_tenant, prefix_correlation, prefix_causation, current_envelope_version,
  current_schema_version, validate_prefixed_id, validate_payload_digest, validate_compatibility,
}
use oshe_platform.Events.Outbox.{
  EventEnvelope, EventInput, Outbox, OutboxTx, flag, begin_tx, envelope_version_of, check_tracking,
  check_stage, envelope_of, stage, close_tx,
}
use oshe_platform.Events.Outbox.Unique.{IsUnique, IsUnique-push, IsUnique-empty}

-- The identifiers have their formats, the required fields are there, the versions are the current
-- ones and the digest is 64 lowercase hexadecimal digits.
pub record IsSound (x : EventEnvelope) : Type 0 where
  pub event_id : validate_prefixed_id x.event_id prefix_event ≡ none
  pub tenant_id : validate_prefixed_id x.tenant_id prefix_tenant ≡ none
  pub producer : (x.producer == "") ≡ false
  pub event_type : (x.event_type == "") ≡ false
  pub envelope_version : x.envelope_version ≡ current_envelope_version
  pub schema_version : x.schema_version ≡ current_schema_version
  pub correlation_id : validate_prefixed_id x.correlation_id prefix_correlation ≡ none
  pub causation_id : validate_prefixed_id x.causation_id prefix_causation ≡ none
  pub payload_digest : validate_payload_digest x.payload_digest ≡ none

-- A transaction holds sound events of its own tenant, no two with one identifier.
pub record IsSoundTx (tx : OutboxTx) : Type 0 where
  pub tenant : validate_prefixed_id tx.tenant_id prefix_tenant ≡ none
  pub events : All (λ (x : EventEnvelope). IsSound x × (x.tenant_id ≡ tx.tenant_id)) tx.staged
  pub unique : IsUnique tx.staged tx.staged_ids

validate_trimmed :
    (s p : String) → validate_prefixed_id s p ≡ none → validate_prefixed_id (trim_space s) p ≡ none
unfolding validate_prefixed_id
validate_trimmed s p h = rw trim_space-trim_space h

digest_trimmed :
    (s : String) → validate_payload_digest s ≡ none → validate_payload_digest (trim_space s) ≡ none
unfolding validate_payload_digest
digest_trimmed s h = rw trim_space-trim_space h

versions_current :
    (input : EventInput)
    → validate_compatibility (envelope_version_of input) input.schema_version ≡ none
    → (envelope_version_of input ≡ current_envelope_version)
      × (trim_space input.schema_version ≡ current_schema_version)
unfolding validate_compatibility envelope_version_of
versions_current input h = (
  ground (
    arith,
    trim_space-trim_space input.envelope_version,
    eq_iff (trim_space input.envelope_version) current_envelope_version,
  ),
  ground (arith, eq_iff (trim_space input.schema_version) current_schema_version),
)

module _ (o : Outbox) (tx : OutboxTx) (input : EventInput) (h : check_stage o tx input ≡ none) where
  tracking : check_tracking input ≡ none
  unfolding check_stage
  tracking = ground arith

  unseen : flag (trim_space input.event_id) tx.staged_ids ≡ false
  unfolding check_stage
  unseen = ground arith

  envelope-IsSound :
      (now : ℕ)
      → validate_prefixed_id tx.tenant_id prefix_tenant ≡ none
      → IsSound (envelope_of tx input now)
  unfolding envelope_of
  envelope-IsSound now t =
      let versions = versions_current input (unfold check_tracking in ground (arith, tracking)) in
      record {
        event_id =
            validate_trimmed input.event_id prefix_event (unfold check_stage in ground arith);
        tenant_id = t;
        producer = unfold check_stage in ground arith;
        event_type = unfold check_stage in ground arith;
        envelope_version = versions.0;
        schema_version = versions.1;
        correlation_id =
            validate_trimmed input.correlation_id prefix_correlation
              (unfold check_tracking in ground (arith, tracking));
        causation_id =
            validate_trimmed input.causation_id prefix_causation
              (unfold check_tracking in ground (arith, tracking));
        payload_digest =
            digest_trimmed input.payload_digest (unfold check_tracking in ground (arith, tracking));
      }

pub begin-IsSoundTx :
    (tenant_id : String) (tx : OutboxTx) → begin_tx tenant_id ≡ ok tx → IsSoundTx tx
unfolding begin_tx
begin-IsSoundTx tenant_id tx h =
    elim (Option-cases (validate_prefixed_id tenant_id prefix_tenant)) [
      | inr (x, f) ↦ absurd (ground arith)
      | inl n ↦
          let t : OutboxTx = record {
            tenant_id = trim_space tenant_id;
            staged = [];
            staged_ids = empty;
            closed = false;
          } in
          let e : t ≡ tx = ground arith in
          subst IsSoundTx e (record {
            tenant = validate_trimmed tenant_id prefix_tenant n;
            events = tt;
            unique = IsUnique-empty;
          })
    ]

pub close-IsSoundTx : (tx : OutboxTx) → IsSoundTx tx → IsSoundTx (close_tx tx)
close-IsSoundTx tx t = record { tenant = t.tenant; events = tt; unique = IsUnique-empty }

pub stage-IsSoundTx :
    (o : Outbox) (tx : OutboxTx) (input : EventInput) (now : ℕ)
    → IsSoundTx tx
    → IsSoundTx (stage o tx input now).0
unfolding stage
stage-IsSoundTx o tx input now t = elim (Option-cases (check_stage o tx input)) [
  | inr (x, f) ↦ rw (f, stage) t
  | inl h ↦
      rw (h, stage)
        (record {
          tenant = t.tenant;
          events =
              All-append _ tx.staged _ t.events
                ((envelope-IsSound o tx input h now t.tenant, unfold envelope_of in refl), tt);
          unique =
              unfold envelope_of in
              IsUnique-push tx.staged tx.staged_ids (envelope_of tx input now) t.unique
                (unseen o tx input h);
        })
]
