-- ===== src/Events/Outbox/Order.antt =====
-- The numbers of the committed events of modules/events-outbox-jobs/event_outbox.go, and the order
-- in which the readers return them.
use oshe_platform.Prelude.{
  ℕ, ◌+◌, ◌≤◌, ◌<◌, ◌^◌, String, ◌≡◌, refl, ap, Bool, false, none, List, [], ◌∷◌, ok, wrap, int_lt,
  keep, push, length, length-append, All, All-keep, arith, Bool-cases, inl, inr,
}
use oshe_platform.Prelude.Map.{string_eq, ◌==◌}
use oshe_platform.Events.Identifier.{prefix_tenant, validate_prefixed_id}
use oshe_platform.Events.Outbox.{
  EventEnvelope, Outbox, publish_one, publish, insert_by_sequence, sort_by_sequence,
  committed_events, committed_events_for_tenant,
}

-- The events carry the numbers from `n` on.
abbrev pub Numbered : ℕ → List EventEnvelope → Type 0
Numbered n [] = Unit
Numbered n (x ∷ xs) = (x.sequence_number ≡ wrap n) × Numbered (n + 1) xs

Numbered-push :
    (n : ℕ) (xs : List EventEnvelope) (x : EventEnvelope)
    → Numbered n xs
    → x.sequence_number ≡ wrap (n + length xs)
    → Numbered n (push xs x)
Numbered-push n [] x h e = (omega arith, tt)
Numbered-push n (y ∷ xs) x h e = (h.0, Numbered-push (n + 1) xs x h.1 (omega arith))

pub record IsNumbered (o : Outbox) : Type 0 where
  pub numbers : Numbered 1 o.committed
  pub counter : o.seq_counter ≡ wrap (length o.committed)

pub IsNumbered-publish :
    (o : Outbox) (xs : List EventEnvelope) → IsNumbered o → IsNumbered (publish o xs)
unfolding publish publish_one
IsNumbered-publish o [] h = h
IsNumbered-publish o (x ∷ xs) h = IsNumbered-publish (publish_one o x) xs (record {
  numbers = Numbered-push 1 o.committed _ h.numbers (omega (arith, h.counter));
  counter = omega (
    arith,
    h.counter,
    length-append o.committed (record x { sequence_number = wrap (o.seq_counter + 1) } ∷ []),
  );
})

-- No later event has a smaller number.
abbrev pub Ascending : List EventEnvelope → Type 0
Ascending [] = Unit
Ascending (x ∷ xs) =
    All (λ (y : EventEnvelope). int_lt y.sequence_number x.sequence_number ≡ false) xs
    × Ascending xs

later :
    (n m : ℕ) (x : EventEnvelope) (xs : List EventEnvelope)
    → x.sequence_number ≡ wrap n
    → n < m
    → Numbered m xs
    → m + length xs ≤ 2 ^ 63
    → All (λ (y : EventEnvelope). int_lt y.sequence_number x.sequence_number ≡ false) xs
later n m x [] e l h b = tt
later n m x (y ∷ xs) e l h b =
    (ground arith, later n (m + 1) x xs e (omega arith) h.1 (omega arith))

Ascending-Numbered :
    (n : ℕ) (xs : List EventEnvelope) → Numbered n xs → n + length xs ≤ 2 ^ 63 → Ascending xs
Ascending-Numbered n [] h b = tt
Ascending-Numbered n (x ∷ xs) h b = (
  later n (n + 1) x xs h.0 (omega arith) h.1 (omega arith),
  Ascending-Numbered (n + 1) xs h.1 (omega arith),
)

Ascending-keep :
    (p : EventEnvelope → Bool) (xs : List EventEnvelope) → Ascending xs → Ascending (keep p xs)
Ascending-keep p [] h = tt
Ascending-keep p (x ∷ xs) h = elim (Bool-cases (p x)) [
  | inl e ↦ rw e (All-keep _ _ p xs (λ y _ q. q) h.0, Ascending-keep p xs h.1)
  | inr e ↦ rw e (Ascending-keep p xs h.1)
]

insert-Ascending :
    (x : EventEnvelope) (xs : List EventEnvelope)
    → All (λ (y : EventEnvelope). int_lt y.sequence_number x.sequence_number ≡ false) xs
    → insert_by_sequence x xs ≡ x ∷ xs
unfolding insert_by_sequence
insert-Ascending x [] h = refl
insert-Ascending x (y ∷ xs) h = rw h.0

sort-Ascending : (xs : List EventEnvelope) → Ascending xs → sort_by_sequence xs ≡ xs
unfolding sort_by_sequence
sort-Ascending [] h = refl
sort-Ascending (x ∷ xs) h = rw (sort-Ascending xs h.1) (insert-Ascending x xs h.0)

-- While fewer than 2^63 events are committed, the numbers do not wrap and sorting by them keeps the
-- order of commitment: the readers return the committed events, and a tenant's, as they were
-- committed.
pub readers_keep_order :
    (o : Outbox) (tenant_id : String)
    → IsNumbered o
    → length o.committed < 2 ^ 63
    → validate_prefixed_id tenant_id prefix_tenant ≡ none
    → (committed_events o ≡ o.committed)
      × (committed_events_for_tenant o tenant_id
          ≡ ok (keep (λ (x : EventEnvelope). x.tenant_id == tenant_id) o.committed))
unfolding committed_events committed_events_for_tenant
readers_keep_order o tenant_id h b v =
    let up = Ascending-Numbered 1 o.committed h.numbers (omega arith) in
    (
      sort-Ascending o.committed up,
      rw (v, committed_events_for_tenant)
          (ap ok
            (sort-Ascending _ (Ascending-keep (λ x. x.tenant_id == tenant_id) o.committed up))),
    )
