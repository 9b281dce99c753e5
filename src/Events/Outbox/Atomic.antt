-- ===== src/Events/Outbox/Atomic.antt =====
-- Commit and the closing of transactions in modules/events-outbox-jobs/event_outbox.go.
use mathlib.Core.Path.{subst}
use mathlib.Core.List.{append-nil, append_assoc}
use oshe_platform.Prelude.{
  ℕ, ◌+◌, String, ◌≡◌, refl, sym, ◌∙◌, Bool, true, false, ◌||◌, Option, none, some, List, [], ◌∷◌,
  ◌++◌, length, wrap, arith, Bool-cases, eq_iff, ◌⊎◌, inl, inr,
}
use oshe_platform.Prelude.Map.{Map, empty, beq_refl, string_eq, ◌==◌}
use oshe_platform.Events.Identifier.{OutboxError, duplicate_event_id, tx_closed}
use oshe_platform.Events.Outbox.{
  EventEnvelope, EventInput, Outbox, OutboxTx, flag, check_stage, stage, any_committed, publish_one,
  publish, close_tx, commit, rollback_tx,
}
use oshe_platform.Events.Outbox.Unique.{flag-insert}

-- Events with the numbers that follow a counter.
abbrev pub number : ℕ → List EventEnvelope → List EventEnvelope
number c [] = []
number c (x ∷ xs) = (record x { sequence_number = wrap (c + 1) }) ∷ number (wrap (c + 1)) xs

committed-publish :
    (o : Outbox) (xs : List EventEnvelope)
    → (publish o xs).committed ≡ o.committed ++ number o.seq_counter xs
unfolding publish publish_one
committed-publish o [] = sym (append-nil _)
committed-publish o (x ∷ xs) =
    committed-publish (publish_one o x) xs
    ∙ append_assoc o.committed (record x { sequence_number = wrap (o.seq_counter + 1) } ∷ []) _

-- The branches of a commit.
pub commit_cases :
    (o : Outbox) (tx : OutboxTx)
    → ((tx.closed ≡ false)
        × (any_committed o.event_ids tx.staged ≡ false)
        × ((commit o tx).2 ≡ none)
        × ((commit o tx).0.committed ≡ o.committed ++ number o.seq_counter tx.staged)
        × ((commit o tx).1 ≡ close_tx tx))
      ⊎ (((tx.closed ≡ true) ⊎ (any_committed o.event_ids tx.staged ≡ true))
          × ((x : OutboxError) × (commit o tx ≡ (o, tx, some x))))
unfolding commit
commit_cases o tx = elim (Bool-cases tx.closed) [
  | inl c ↦ inr (inl c, (tx_closed, rw c))
  | inr c ↦ elim (Bool-cases (any_committed o.event_ids tx.staged)) [
    | inl d ↦ inr (inr d, (duplicate_event_id, rw (c, d)))
    | inr d ↦ inl (c, d, rw (c, d), rw (c, d) (committed-publish o tx.staged), rw (c, d))
  ]
]

-- Whether an identifier stands among events.
abbrev pub has_id : String → List EventEnvelope → Bool
has_id k [] = false
has_id k (x ∷ xs) = x.event_id == k || has_id k xs

event_ids-publish :
    (o : Outbox) (xs : List EventEnvelope) (k : String)
    → flag k (publish o xs).event_ids ≡ (flag k o.event_ids || has_id k xs)
unfolding publish publish_one
event_ids-publish o [] k = ground arith
event_ids-publish o (x ∷ xs) k =
    ground (arith, event_ids-publish (publish_one o x) xs k, flag-insert x.event_id k o.event_ids)

seq_counter-publish :
    (o : Outbox) (xs : List EventEnvelope)
    → wrap (publish o xs).seq_counter ≡ wrap (o.seq_counter + length xs)
unfolding publish publish_one
seq_counter-publish o [] = omega arith
seq_counter-publish o (x ∷ xs) = omega (arith, seq_counter-publish (publish_one o x) xs)

any_committed-false :
    (k : String) (ids : Map String Bool) (xs : List EventEnvelope)
    → any_committed ids xs ≡ false
    → has_id k xs ≡ true
    → flag k ids ≡ false
unfolding any_committed
any_committed-false k ids [] h g = cc
any_committed-false k ids (x ∷ xs) h g =
    ground (arith, any_committed-false k ids xs, eq_iff x.event_id k)

any_committed-true :
    (ids : Map String Bool) (xs : List EventEnvelope)
    → any_committed ids xs ≡ true
    → (k : String) × (has_id k xs ≡ true) × (flag k ids ≡ true)
unfolding any_committed
any_committed-true ids [] h = cc
any_committed-true ids (x ∷ xs) h = elim (Bool-cases (flag x.event_id ids)) [
  | inl f ↦ (x.event_id, rw beq_refl refl, f)
  | inr f ↦ let (k, g, e) = any_committed-true ids xs (ground arith) in (k, ground arith, e)
]

-- A transaction that refuses every operation, on its outbox in any state, and is not changed by it.
pub record IsFinal (tx : OutboxTx) : Type 0 where
  pub stages :
      (o : Outbox) (input : EventInput) (now : ℕ) → stage o tx input now ≡ (tx, some tx_closed)
  pub commits : (o : Outbox) → commit o tx ≡ (o, tx, some tx_closed)
  pub rolls_back : rollback_tx tx ≡ (tx, some tx_closed)

-- A closed transaction refuses every operation, and neither it nor the outbox changes.
pub closed_refuses :
    (o : Outbox) (tx : OutboxTx) (input : EventInput) (now : ℕ)
    → tx.closed ≡ true
    → (stage o tx input now ≡ (tx, some tx_closed))
      × (commit o tx ≡ (o, tx, some tx_closed))
      × (rollback_tx tx ≡ (tx, some tx_closed))
unfolding stage check_stage commit rollback_tx
closed_refuses o tx input now c = (ground arith, ground arith, ground arith)

close_tx-IsFinal : (tx : OutboxTx) → IsFinal (close_tx tx)
close_tx-IsFinal tx = record {
  stages = λ o input now. (closed_refuses o (close_tx tx) input now refl).0;
  commits = λ o. unfold commit in refl;
  rolls_back = unfold rollback_tx in refl;
}

-- An outbox that has published events: they follow the committed ones in their order, with the
-- numbers that follow the counter, and their identifiers and their number are added to the set and
-- to the counter.
pub record HasPublished (xs : List EventEnvelope) (o o' : Outbox) : Type 0 where
  pub appended : o'.committed ≡ o.committed ++ number o.seq_counter xs
  pub known : (k : String) → flag k o'.event_ids ≡ (flag k o.event_ids || has_id k xs)
  pub counted : wrap o'.seq_counter ≡ wrap (o.seq_counter + length xs)

-- What a commit may come to.
pub data Commits (o : Outbox) (tx : OutboxTx)
    : Outbox × OutboxTx × Option OutboxError → Type 0 where
  publishes :
      (o' : Outbox) (tx' : OutboxTx)
      → tx.closed ≡ false
      → ((k : String) → has_id k tx.staged ≡ true → flag k o.event_ids ≡ false)
      → HasPublished tx.staged o o'
      → IsFinal tx'
      → tx'.tenant_id ≡ tx.tenant_id
      → tx'.staged ≡ []
      → tx'.staged_ids ≡ empty
      → Commits o tx (o', tx', none)
  refuses_closed : tx.closed ≡ true → Commits o tx (o, tx, some tx_closed)
  refuses_duplicate :
      (k : String)
      → tx.closed ≡ false
      → has_id k tx.staged ≡ true
      → flag k o.event_ids ≡ true
      → Commits o tx (o, tx, some duplicate_event_id)

-- A commit of an open transaction of which no staged identifier is in the outbox's set appends all
-- the staged events, in their order and with the numbers that follow the outbox's counter, adds
-- exactly their identifiers to the set and their number to the counter, modulo 2^64, and leaves a
-- transaction of the same tenant with nothing staged, which from then on refuses every staging,
-- commit and rollback unchanged. If the transaction is closed, or if it is open and one of its
-- identifiers is in the set, the commit returns the error for that and changes neither.
pub commit_atomic : (o : Outbox) (tx : OutboxTx) → Commits o tx (commit o tx)
unfolding commit
commit_atomic o tx = elim (Bool-cases tx.closed) [
  | inl c ↦
      let e : commit o tx ≡ (o, tx, some tx_closed) = rw c in
      subst (Commits o tx) (sym e) (refuses_closed c)
  | inr c ↦ elim (Bool-cases (any_committed o.event_ids tx.staged)) [
    | inl d ↦
        let (k, g, f) = any_committed-true o.event_ids tx.staged d in
        let e : commit o tx ≡ (o, tx, some duplicate_event_id) = rw (c, d) in
        subst (Commits o tx) (sym e) (refuses_duplicate k c g f)
    | inr d ↦
        let e : commit o tx ≡ (publish o tx.staged, close_tx tx, none) = rw (c, d) in
        subst (Commits o tx) (sym e) (
          publishes (publish o tx.staged) (close_tx tx) c
            (λ k g. any_committed-false k o.event_ids tx.staged d g)
            (record {
              appended = committed-publish o tx.staged;
              known = event_ids-publish o tx.staged;
              counted = seq_counter-publish o tx.staged;
            })
            (close_tx-IsFinal tx) refl refl refl)
  ]
]
