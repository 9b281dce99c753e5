-- ===== src/Events/Outbox/Run.antt =====
-- Any interleaving of any number of transactions on one outbox of
-- modules/events-outbox-jobs/event_outbox.go. The locks make each operation one step.
use oshe_platform.Prelude.{
  ℕ, ◌+◌, String, ◌≡◌, refl, none, some, List, [], ◌∷◌, ◌++◌, ok, wrap, All, All-append, arith,
  Bool-cases, inl, inr,
}
use oshe_platform.Prelude.Map.{string_eq}
use oshe_platform.Events.Identifier.{tx_closed}
use oshe_platform.Events.Outbox.{
  EventEnvelope, EventInput, Outbox, new_outbox, OutboxTx, begin_tx, stage, close_tx, commit,
  rollback_tx,
}
use oshe_platform.Events.Outbox.Unique.{IsUnique, IsUnique-empty, commit-IsUnique}
use oshe_platform.Events.Outbox.Order.{IsNumbered, IsNumbered-publish}
use oshe_platform.Events.Outbox.Atomic.{number, commit_cases}
use oshe_platform.Events.Outbox.Sound.{
  IsSound, IsSoundTx, begin-IsSoundTx, stage-IsSoundTx, close-IsSoundTx,
}
use oshe_platform.Prelude.{All_parts}

-- One operation on a transaction, whether it succeeds or returns an error.
pub data TxStep (o : Outbox) (tx : OutboxTx) : Outbox → OutboxTx → Type 0 where
  stages : (input : EventInput) (now : ℕ) → TxStep o tx o (stage o tx input now).0
  commits : TxStep o tx (commit o tx).0 (commit o tx).1
  rolls_back : TxStep o tx o (rollback_tx tx).0

-- What an outbox and its transactions reach from an empty outbox, whichever moves next.
pub data Reach : Outbox → List OutboxTx → Type 0 where
  start : Reach new_outbox []
  opens :
      {o : Outbox} {txs : List OutboxTx} (tenant_id : String) (tx : OutboxTx)
      → Reach o txs
      → begin_tx tenant_id ≡ ok tx
      → Reach o (tx ∷ txs)
  moves :
      {o o' : Outbox} {tx' : OutboxTx} (before after : List OutboxTx) (tx : OutboxTx)
      → Reach o (before ++ tx ∷ after)
      → TxStep o tx o' tx'
      → Reach o' (before ++ tx' ∷ after)

-- The committed events are sound, numbered from 1 in their order, no two with one identifier, and
-- the outbox's set of identifiers and its counter agree with them.
pub record IsSoundOutbox (o : Outbox) : Type 0 where
  pub unique : IsUnique o.committed o.event_ids
  pub numbered : IsNumbered o
  pub events : All IsSound o.committed

renumbered : (x : EventEnvelope) (n : ℕ) → IsSound x → IsSound (record x { sequence_number = n })
renumbered x n h = record {
  event_id = h.event_id;
  tenant_id = h.tenant_id;
  producer = h.producer;
  event_type = h.event_type;
  envelope_version = h.envelope_version;
  schema_version = h.schema_version;
  correlation_id = h.correlation_id;
  causation_id = h.causation_id;
  payload_digest = h.payload_digest;
}

number-IsSound :
    (n : ℕ) (t : String) (xs : List EventEnvelope)
    → All (λ (x : EventEnvelope). IsSound x × (x.tenant_id ≡ t)) xs
    → All IsSound (number n xs)
number-IsSound n t [] h = tt
number-IsSound n t (x ∷ xs) h =
    (renumbered x (wrap (n + 1)) h.0.0, number-IsSound (wrap (n + 1)) t xs h.1)

commit-IsSoundOutbox :
    (o : Outbox) (tx : OutboxTx)
    → IsSoundOutbox o
    → IsSoundTx tx
    → IsSoundOutbox (commit o tx).0 × IsSoundTx (commit o tx).1
commit-IsSoundOutbox o tx h t = elim (commit_cases o tx) [
  | inr (_, (x, e)) ↦ rw e (h, t)
  | inl (open_tx, fresh, _, grown, shut) ↦ (
    record {
      unique = commit-IsUnique o tx h.unique t.unique;
      numbered = unfold commit in rw (open_tx, fresh) (IsNumbered-publish o tx.staged h.numbered);
      events = rw grown (
          All-append IsSound o.committed _ h.events
            (number-IsSound o.seq_counter tx.tenant_id tx.staged t.events));
    },
    rw shut (close-IsSoundTx tx t),
  )
]

rollback-IsSoundTx : (tx : OutboxTx) → IsSoundTx tx → IsSoundTx (rollback_tx tx).0
rollback-IsSoundTx tx t = elim (Bool-cases tx.closed) [
  | inl c ↦
      let e : rollback_tx tx ≡ (tx, some tx_closed) = unfold rollback_tx in ground arith in rw e t
  | inr c ↦
      let e : rollback_tx tx ≡ (close_tx tx, none) = unfold rollback_tx in ground arith in
      rw e (close-IsSoundTx tx t)
]

step-IsSound :
    {o : Outbox} {tx : OutboxTx} {o' : Outbox} {tx' : OutboxTx}
    → TxStep o tx o' tx'
    → IsSoundOutbox o
    → IsSoundTx tx
    → IsSoundOutbox o' × IsSoundTx tx'
step-IsSound {o} {tx} (stages input now) h t = (h, stage-IsSoundTx o tx input now t)
step-IsSound {o} {tx} commits h t = commit-IsSoundOutbox o tx h t
step-IsSound {o} {tx} rolls_back h t = (h, rollback-IsSoundTx tx t)

-- Whatever transactions are opened on a new outbox, and however their stagings, commits and
-- rollbacks, failing ones included, interleave: the committed events are sound, numbered from 1 in
-- the order of commitment, no two with one identifier, in agreement with the outbox's set and
-- counter, and every transaction holds sound events of its own tenant under distinct identifiers.
pub Reach-IsSoundOutbox :
    {o : Outbox} {txs : List OutboxTx} → Reach o txs → IsSoundOutbox o × All IsSoundTx txs
Reach-IsSoundOutbox start = (
  record {
    unique = IsUnique-empty;
    numbered = record { numbers = tt; counter = refl };
    events = tt;
  },
  tt,
)
Reach-IsSoundOutbox (opens tenant_id tx r e) =
    let (h, ts) = Reach-IsSoundOutbox r in (h, (begin-IsSoundTx tenant_id tx e, ts))
Reach-IsSoundOutbox (moves {o} {o'} {tx'} before after tx r st) =
    let (h, ts) = Reach-IsSoundOutbox r in
    let (a, t, b) = All_parts IsSoundTx before tx after ts in
    let (h', t') = step-IsSound st h t in (h', All-append IsSoundTx before (tx' ∷ after) a (t', b))
