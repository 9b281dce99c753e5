-- ===== src/Events/Outbox/Tests.antt =====
-- Transactions of the outbox at concrete inputs.
use oshe_platform.Prelude.{
  ◌<◌, ◌^◌, String, ◌≡◌, refl, false, none, some, [], ◌∷◌, ok, keep, length, All, arith, ◌↔◌,
}
use oshe_platform.Prelude.Map.{lookup, empty, string_eq, ◌==◌}
use oshe_platform.Prelude.Strings.{trim_space}
use oshe_platform.Events.Identifier.{
  tx_closed, prefix_event, prefix_tenant, validate_prefixed_id, validate_payload_digest,
  validate_compatibility,
}
use oshe_platform.Events.Outbox.{
  EventEnvelope, EventInput, Outbox, new_outbox, OutboxTx, flag, begin_tx, envelope_version_of,
  check_tracking, check_stage, envelope_of, stage, any_committed, publish_one, publish, close_tx,
  commit, rollback_tx, committed_events, committed_events_for_tenant,
}
use oshe_platform.Events.Outbox.Order.{readers_keep_order}
use oshe_platform.Events.Outbox.Atomic.{Commits, commit_atomic, closed_refuses}
use oshe_platform.Events.Outbox.Sound.{IsSoundTx}
use oshe_platform.Events.Identifier.Format.{IsPrefixedId, validate_prefixed_id_iff}
use oshe_platform.Events.Outbox.Run.{
  Reach, start, opens, moves, stages, commits, IsSoundOutbox, Reach-IsSoundOutbox,
}
use oshe_platform.Events.Outbox.Tenant.{IsTrimmed, untrimmed_tenant_reads_nothing}

validate_prefixed_id_iff_example :
    (validate_prefixed_id " evt_a-1 " prefix_event ≡ none) ↔ IsPrefixedId " evt_a-1 " prefix_event
unfolding validate_prefixed_id
validate_prefixed_id_iff_example = validate_prefixed_id_iff " evt_a-1 " prefix_event refl refl

abbrev digest_text : String
digest_text = "0123456789abcdef0123456789abcdef0123456789abcdef0123456789abcdef"

abbrev event : String → EventInput
event id = record {
  event_id = id;
  tenant_id = "";
  producer = "inspection";
  event_type = "closed";
  envelope_version = "";
  schema_version = "1.0.0";
  correlation_id = "corr_1";
  causation_id = "caus_1";
  payload_digest = digest_text;
  timestamp = 5;
}

abbrev first_tx : OutboxTx
first_tx = record { tenant_id = "ten_a"; staged = []; staged_ids = empty; closed = false }

abbrev staged_tx : OutboxTx
staged_tx = (stage new_outbox first_tx (event "evt_1") 9).0

begins : begin_tx " ten_a" ≡ ok first_tx
unfolding begin_tx validate_prefixed_id trim_space
begins = refl

stages_one : length staged_tx.staged ≡ 1
unfolding stage check_stage check_tracking validate_prefixed_id validate_payload_digest
    validate_compatibility envelope_version_of trim_space flag lookup
stages_one = refl

abbrev full_outbox : Outbox
full_outbox = (commit new_outbox staged_tx).0

reached : Reach full_outbox ((commit new_outbox staged_tx).1 ∷ [])
reached =
    moves [] [] staged_tx
      (moves [] [] first_tx (opens " ten_a" first_tx start begins) (stages (event "evt_1") 9))
      commits

Reach-IsSoundOutbox_example :
    IsSoundOutbox full_outbox × All IsSoundTx ((commit new_outbox staged_tx).1 ∷ [])
Reach-IsSoundOutbox_example = Reach-IsSoundOutbox reached

commit_atomic_example : Commits new_outbox staged_tx (commit new_outbox staged_tx)
commit_atomic_example = commit_atomic new_outbox staged_tx

closed_refuses_test :
    (stage new_outbox (close_tx first_tx) (event "evt_1") 9 ≡ (close_tx first_tx, some tx_closed))
    × (commit new_outbox (close_tx first_tx) ≡ (new_outbox, close_tx first_tx, some tx_closed))
    × (rollback_tx (close_tx first_tx) ≡ (close_tx first_tx, some tx_closed))
closed_refuses_test = closed_refuses new_outbox (close_tx first_tx) (event "evt_1") 9 refl

tenant_valid : validate_prefixed_id "ten_a" prefix_tenant ≡ none
unfolding validate_prefixed_id trim_space
tenant_valid = refl

few : length full_outbox.committed < 2 ^ 63
unfolding commit publish publish_one any_committed stage check_stage check_tracking
    validate_prefixed_id validate_payload_digest validate_compatibility envelope_version_of
    trim_space flag lookup
few = omega arith

readers_keep_order_example :
    (committed_events full_outbox ≡ full_outbox.committed)
    × (committed_events_for_tenant full_outbox "ten_a"
        ≡ ok (keep (λ (x : EventEnvelope). x.tenant_id == "ten_a") full_outbox.committed))
readers_keep_order_example =
    readers_keep_order full_outbox "ten_a" (Reach-IsSoundOutbox reached).0.numbered few tenant_valid

all-IsTrimmed : All IsTrimmed full_outbox.committed
unfolding commit publish publish_one any_committed stage check_stage check_tracking
    validate_prefixed_id validate_payload_digest validate_compatibility envelope_version_of
    envelope_of trim_space flag lookup
all-IsTrimmed = (refl, tt)

untrimmed_tenant_reads_nothing_test : committed_events_for_tenant full_outbox " ten_a" ≡ ok []
unfolding validate_prefixed_id trim_space
untrimmed_tenant_reads_nothing_test =
    untrimmed_tenant_reads_nothing full_outbox " ten_a" all-IsTrimmed refl refl
