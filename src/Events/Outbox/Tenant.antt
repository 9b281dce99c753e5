-- ===== src/Events/Outbox/Tenant.antt =====
-- What a tenant reads of the outbox of modules/events-outbox-jobs/event_outbox.go.
use oshe_platform.Prelude.{
  String, ◌≡◌, refl, false, none, List, [], ◌∷◌, ok, keep, All, arith, eq_iff,
}
use oshe_platform.Prelude.Map.{string_eq, ◌==◌}
use oshe_platform.Prelude.Strings.{trim_space}
use oshe_platform.Events.Identifier.{prefix_tenant, validate_prefixed_id}
use oshe_platform.Events.Outbox.{
  EventEnvelope, Outbox, sort_by_sequence, committed_events_for_tenant,
}

abbrev pub IsTrimmed : EventEnvelope → Type 0
IsTrimmed x = trim_space x.tenant_id ≡ x.tenant_id

keep_none :
    (t : String) (xs : List EventEnvelope)
    → All IsTrimmed xs
    → (trim_space t == t) ≡ false
    → keep (λ (x : EventEnvelope). x.tenant_id == t) xs ≡ []
keep_none t [] h n = refl
keep_none t (x ∷ xs) h n =
    ground (arith, keep_none t xs h.1 n, eq_iff x.tenant_id t, eq_iff (trim_space t) t, h.0)

-- The reader checks the trimmed tenant identifier and filters by the text as it was given: an
-- accepted identifier with white space around it reads no events at all, with no error, whatever
-- the tenant has committed (the tenant of a committed event is always trimmed).
pub untrimmed_tenant_reads_nothing :
    (o : Outbox) (tenant_id : String)
    → All IsTrimmed o.committed
    → validate_prefixed_id tenant_id prefix_tenant ≡ none
    → (trim_space tenant_id == tenant_id) ≡ false
    → committed_events_for_tenant o tenant_id ≡ ok []
unfolding committed_events_for_tenant sort_by_sequence
untrimmed_tenant_reads_nothing o tenant_id h v n =
    rw (v, committed_events_for_tenant) (rw (keep_none tenant_id o.committed h n) refl)
