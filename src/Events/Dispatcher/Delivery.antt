-- ===== src/Events/Dispatcher/Delivery.antt =====
-- Delivery at most once, and only within the tenant, in
-- modules/events-outbox-jobs/event_dispatcher.go.
use oshe_platform.Prelude.{
  ℕ, String, ◌≡◌, ◌≢◌, ap, ◌∙◌, true, false, Option, none, some, List, arith, Bool-cases,
  Option-cases, eq_iff, ◌⊎◌, inl, inr,
}
use oshe_platform.Prelude.Map.{Map, lookup, insert, lookup-insert, string_eq, ◌==◌}
use oshe_platform.Prelude.Strings.{trim_space}
use oshe_platform.Events.Outbox.{EventEnvelope}
use oshe_platform.Events.Dispatcher.{
  delivered, DispatchError, blank_consumer_id, blank_event_id, already_delivered,
  cross_tenant_dispatch, consumer_not_registered, DeliveryRecord, Dispatcher, record_key, refusal,
  is_quarantined, is_foreign, dispatch,
}
use oshe_platform.Events.Dispatcher.Run.{
  Writes, kept, first, again, replayed, Call, perform_all, perform_all_induction,
}

module _ (key : String) (rec : DeliveryRecord) where
  abbrev HasDelivered : Map String DeliveryRecord → Type 0
  HasDelivered m = (lookup key m ≡ some rec) × (rec.status ≡ delivered)

  put_elsewhere :
      (k : String) (r : DeliveryRecord) (m : Map String DeliveryRecord)
      → HasDelivered m
      → ((lookup k m ≡ none)
          ⊎ ((old : DeliveryRecord) × (lookup k m ≡ some old) × (old.status ≢ delivered)))
      → HasDelivered (insert k r m)
  put_elsewhere k r m h (inl n) = (rw lookup-insert (ground (arith, eq_iff k key, h.0)), h.1)
  put_elsewhere k r m h (inr (old, f, p)) = elim (Bool-cases (k == key)) [
    | inl e ↦ absurd (p (ap (λ (x : DeliveryRecord). x.status) (one_record e) ∙ h.1))
    | inr e ↦ (rw lookup-insert (rw e h.0), h.1)
  ]
    where
      one_record : (k == key) ≡ true → old ≡ rec
      one_record e = ground (arith, eq_iff k key, h.0)

  Writes-HasDelivered :
      (limit : ℕ) (m m' : Map String DeliveryRecord)
      → Writes limit m m'
      → HasDelivered m
      → HasDelivered m'
  Writes-HasDelivered limit m m' kept h = h
  Writes-HasDelivered limit m m' (first k e c t now answer n) h = put_elsewhere k _ m h (inl n)
  Writes-HasDelivered limit m m' (again k r now answer f n) h =
      put_elsewhere k _ m h (inr (r, f, λ d. not_final r d n))
    where
      not_final : (r : DeliveryRecord) → r.status ≡ delivered → refusal r.status ≡ none → ⊥
      not_final r d n = unfold refusal in cc (ap refusal d, n)
  Writes-HasDelivered limit m m' (replayed k r now answer f q) h =
      put_elsewhere k _ m h (inr (r, f, λ d. cc (ap is_quarantined d, q)))

  -- A delivered record is final: no later registrations, dispatches and replays change it.
  pub delivered_final :
      {Handler : Type 0} (d : Dispatcher Handler) (os : List (Call Handler))
      → lookup key d.records ≡ some rec
      → rec.status ≡ delivered
      → lookup key (perform_all d os).records ≡ some rec
  delivered_final d os f s =
      (perform_all_induction HasDelivered d os (Writes-HasDelivered d.max_attempts) (f, s)).0

module _ {Handler : Type 0} where
  -- Of an event that its record holds as delivered, `Dispatch` to a registered consumer that is not
  -- bound to another tenant says so: nothing changes, and that is so whatever the handlers would
  -- answer, for none is called.
  pub dispatch_once :
      (call : Handler → EventEnvelope → Option String) (d : Dispatcher Handler) (c : String)
      (env : EventEnvelope) (now : ℕ) (h : Handler) (rec : DeliveryRecord)
      → (trim_space c == "") ≡ false
      → (trim_space env.event_id == "") ≡ false
      → lookup (trim_space c) d.handlers ≡ some h
      → is_foreign d (trim_space c) env ≡ false
      → lookup (record_key (trim_space c) (trim_space env.event_id)) d.records ≡ some rec
      → rec.status ≡ delivered
      → dispatch call d c env now ≡ (d, (some rec, some already_delivered))
  unfolding dispatch refusal
  dispatch_once call d c env now h rec a b f t r s =
      let final : refusal rec.status ≡ some already_delivered = ap refusal s in
      rw (a, b, f, t, r, final)

  -- An event that a consumer bound to another tenant is offered changes nothing, and no handler is
  -- called: the answer is an error whatever the handlers would say.
  pub dispatch_foreign :
      (call : Handler → EventEnvelope → Option String) (d : Dispatcher Handler) (c tenant : String)
      (env : EventEnvelope) (now : ℕ)
      → lookup (trim_space c) d.consumer_tenants ≡ some tenant
      → tenant ≢ env.tenant_id
      → (x : DispatchError) × (dispatch call d c env now ≡ (d, (none, some x)))
  unfolding dispatch
  dispatch_foreign call d c tenant env now b n =
      let foreign : is_foreign d (trim_space c) env ≡ true =
        unfold is_foreign in ground (arith, eq_iff tenant env.tenant_id) in
      elim (Bool-cases (trim_space c == "")) [
        | inl a ↦ (blank_consumer_id, rw a)
        | inr a ↦ elim (Bool-cases (trim_space env.event_id == "")) [
          | inl e ↦ (blank_event_id, rw (a, e))
          | inr e ↦ elim (Option-cases (lookup (trim_space c) d.handlers)) [
            | inl f ↦ (consumer_not_registered, rw (a, e, f))
            | inr (h, f) ↦ (cross_tenant_dispatch, rw (a, e, f, foreign))
          ]
        ]
      ]
