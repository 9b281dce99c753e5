-- ===== src/Events/Outbox/Unique.antt =====
-- No event identifier is committed twice in modules/events-outbox-jobs/event_outbox.go.
use oshe_platform.Prelude.{
  ℕ, suc, ◌+◌, ◌≤◌, String, ◌≡◌, refl, Bool, true, false, List, [], ◌∷◌, wrap, push, if◌then◌else◌,
  arith, Bool-cases, eq_iff, ◌⊎◌, inl, inr,
}
use oshe_platform.Prelude.Map.{
  Map, insert, empty, lookup-insert, lookup-empty, beq_refl, string_eq, ◌==◌,
}
use oshe_platform.Events.Outbox.{
  EventEnvelope, Outbox, OutboxTx, flag, any_committed, publish_one, publish, commit,
}

-- How often an identifier stands among events.
abbrev pub times : String → List EventEnvelope → ℕ
times k [] = 0
times k (x ∷ xs) = let r = times k xs in if x.event_id == k then suc r else r

abbrev pub bit : Bool → ℕ
bit true = 1
bit false = 0

pub times-push :
    (k : String) (xs : List EventEnvelope) (x : EventEnvelope)
    → times k (push xs x) ≡ times k xs + (if x.event_id == k then 1 else 0)
times-push k [] x = ground arith
times-push k (y ∷ xs) x = ground (arith, times-push k xs x)

pub flag-insert :
    (k j : String) (m : Map String Bool)
    → flag j (insert k true m) ≡ (if k == j then true else flag j m)
unfolding flag
flag-insert k j m = ground (arith, lookup-insert k j true m)

-- Each identifier stands as often as its flag says: once or not at all.
pub record IsUnique (xs : List EventEnvelope) (ids : Map String Bool) : Type 0 where
  pub at : (k : String) → times k xs ≡ bit (flag k ids)

pub IsUnique-empty : IsUnique [] empty
unfolding flag
IsUnique-empty = record { at = λ k. ground (arith, lookup-empty {K = String} {V = Bool} k) }

pub IsUnique-push :
    (xs : List EventEnvelope) (ids : Map String Bool) (x : EventEnvelope)
    → IsUnique xs ids
    → flag x.event_id ids ≡ false
    → IsUnique (push xs x) (insert x.event_id true ids)
IsUnique-push xs ids x h f = record {
  at = λ k.
      ground (arith, times-push k xs x, flag-insert x.event_id k ids, h.at k, eq_iff x.event_id k);
}

-- The events still to be published are not committed and differ from one another.
pub record HasRoom (ids : Map String Bool) (xs : List EventEnvelope) : Type 0 where
  pub room : (k : String) → bit (flag k ids) + times k xs ≤ 1

IsUnique-publish :
    (o : Outbox) (xs : List EventEnvelope)
    → IsUnique o.committed o.event_ids
    → HasRoom o.event_ids xs
    → IsUnique (publish o xs).committed (publish o xs).event_ids
unfolding publish publish_one
IsUnique-publish o [] h r = h
IsUnique-publish o (x ∷ xs) h r =
    IsUnique-publish (publish_one o x) xs
      (IsUnique-push o.committed o.event_ids
        (record x { sequence_number = wrap (o.seq_counter + 1) }) h
        (ground (arith, r.room x.event_id, beq_refl x.event_id)))
      (record { room = λ k. ground (arith, flag-insert x.event_id k o.event_ids, r.room k) })

any_committed-flag :
    (k : String) (ids : Map String Bool) (xs : List EventEnvelope)
    → any_committed ids xs ≡ false
    → (times k xs ≡ 0) ⊎ (flag k ids ≡ false)
unfolding any_committed
any_committed-flag k ids [] h = inl refl
any_committed-flag k ids (x ∷ xs) h =
    ground (arith, any_committed-flag k ids xs, eq_iff x.event_id k)

HasRoom-of_check :
    (ids staged_ids : Map String Bool) (xs : List EventEnvelope)
    → IsUnique xs staged_ids
    → any_committed ids xs ≡ false
    → HasRoom ids xs
HasRoom-of_check ids staged_ids xs h c = record {
  room = λ k. ground (arith, h.at k, any_committed-flag k ids xs c);
}

pub commit-IsUnique :
    (o : Outbox) (tx : OutboxTx)
    → IsUnique o.committed o.event_ids
    → IsUnique tx.staged tx.staged_ids
    → IsUnique (commit o tx).0.committed (commit o tx).0.event_ids
unfolding commit
commit-IsUnique o tx h t = elim (Bool-cases tx.closed) [
  | inl c ↦ rw c h
  | inr c ↦ elim (Bool-cases (any_committed o.event_ids tx.staged)) [
    | inl d ↦ rw (c, d) h
    | inr d ↦
        rw (c, d)
          (IsUnique-publish o tx.staged h
            (HasRoom-of_check o.event_ids tx.staged_ids tx.staged t d))
  ]
]
