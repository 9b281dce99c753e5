-- ===== src/Identifiers/Ledger.antt =====
-- The ledger of packages/identifiers/idempotency.go, against what its callers rely on: the first
-- call with a key decides the answer of every later one.
use mathlib.Core.Path.{subst}
use mathlib.Core.List.{append-nil, append_assoc}
use oshe_platform.Prelude.{
  ℕ, String, ◌≡◌, refl, sym, ap, ◌∙◌, true, false, Option, none, some, List, [], ◌∷◌, ◌++◌, ◌≢◌,
  if◌then◌else◌, arith, Bool-cases, Option-cases, eq_iff, inl, inr,
}
use oshe_platform.Prelude.Map.{
  Map, lookup, insert, empty, lookup-insert, lookup-empty, lookup-insert_other, string_eq, ◌==◌,
}
use oshe_platform.Prelude.Strings.{trim_space}

pub data LedgerError : Type 0 where
  empty_idempotency_key : LedgerError
  idempotency_conflict : LedgerError

pub data IdempotencyStatus : Type 0 where
  no_status status_first_use status_replay status_conflict : IdempotencyStatus

pub record IdempotencyRecord : Type 0 where
  pub key : String
  pub payload_hash : String
  pub registered_at : ℕ

pub record IdempotencyLedger : Type 0 where
  pub records : Map String IdempotencyRecord

abbrev pub new_idempotency_ledger : IdempotencyLedger
new_idempotency_ledger = record { records = empty }

-- What CheckOrRecord returns.
pub record Answer : Type 0 where
  pub status : IdempotencyStatus
  pub found : Option IdempotencyRecord
  pub error : Option LedgerError

abbrev answer : IdempotencyStatus → IdempotencyRecord → Option LedgerError → Answer
answer status rec error = record { status = status; found = some rec; error = error }

abbrev refused : Answer
refused = record { status = no_status; found = none; error = some empty_idempotency_key }

-- The branch of a known key.
abbrev replay_or_conflict : IdempotencyRecord → String → Answer
replay_or_conflict existing hash =
    if existing.payload_hash == hash
    then answer status_replay existing none
    else answer status_conflict existing (some idempotency_conflict)

abbrev new_record : String → String → ℕ → IdempotencyRecord
new_record key hash now = record { key = key; payload_hash = hash; registered_at = now }

-- `hash_payload` is the hexadecimal SHA-256 of the payload.
module _ (hash_payload : List ℕ → String) where
  unfoldable pub check_or_record :
      IdempotencyLedger → String → List ℕ → ℕ → IdempotencyLedger × Answer
  check_or_record l key payload now =
      let k = trim_space key in
      let hash = hash_payload payload in
      if k == "" then (l, refused) else elim (lookup k l.records) [
        | some existing ↦ (l, replay_or_conflict existing hash)
        | none ↦ (
          record { records = insert k (new_record k hash now) l.records },
          answer status_first_use (new_record k hash now) none,
        )
      ]

  unfoldable pub get : IdempotencyLedger → String → Option IdempotencyRecord
  get l key = let k = trim_space key in if k == "" then none else lookup k l.records

  -- A call: the key, the payload and the clock's reading.
  pub record LedgerCall : Type 0 where
    pub key : String
    pub payload : List ℕ
    pub now : ℕ

  abbrev pub call : IdempotencyLedger → LedgerCall → IdempotencyLedger
  call l c = (check_or_record l c.key c.payload c.now).0

  unfoldable pub run : IdempotencyLedger → List LedgerCall → IdempotencyLedger
  run l [] = l
  run l (c ∷ cs) = run (call l c) cs

  -- The record of the first call, from the oldest, with the key.
  unfoldable pub first_use : String → List LedgerCall → Option IdempotencyRecord
  first_use k [] = none
  first_use k (c ∷ cs) =
      let rest = first_use k cs in
      if trim_space c.key == k
      then some (record { key = k; payload_hash = hash_payload c.payload; registered_at = c.now })
      else rest

  -- The answers that a history of calls promises to the next call, without the ledger.
  pub data Promises (history : List LedgerCall) (c : LedgerCall) : Answer → Type 0 where
    refuses :
        trim_space c.key ≡ ""
        → Promises history c
            (record { status = no_status; found = none; error = some empty_idempotency_key })
    records :
        trim_space c.key ≢ ""
        → first_use (trim_space c.key) history ≡ none
        → Promises history c (record {
          status = status_first_use;
          found = some (record {
            key = trim_space c.key;
            payload_hash = hash_payload c.payload;
            registered_at = c.now;
          });
          error = none;
        })
    replays :
        (first : IdempotencyRecord)
        → trim_space c.key ≢ ""
        → first_use (trim_space c.key) history ≡ some first
        → hash_payload c.payload ≡ first.payload_hash
        → Promises history c (record { status = status_replay; found = some first; error = none })
    conflicts :
        (first : IdempotencyRecord)
        → trim_space c.key ≢ ""
        → first_use (trim_space c.key) history ≡ some first
        → hash_payload c.payload ≢ first.payload_hash
        → Promises history c (record {
          status = status_conflict;
          found = some first;
          error = some idempotency_conflict;
        })

  -- The record of a key after calls: the one that the ledger had, else that of the first use.
  abbrev or_first : Option IdempotencyRecord → String → List LedgerCall → Option IdempotencyRecord
  or_first (some rec) k cs = some rec
  or_first none k cs = first_use k cs

  or_first_known :
      (o : Option IdempotencyRecord) (k : String) (c : LedgerCall) {rec : IdempotencyRecord}
      → o ≡ some rec
      → o ≡ or_first o k (c ∷ [])
  or_first_known (some r) k c h = refl
  or_first_known none k c h = absurd (cc h)

  or_first_other :
      (o : Option IdempotencyRecord) (k : String) (c : LedgerCall)
      → (trim_space c.key == k) ≡ false
      → o ≡ or_first o k (c ∷ [])
  unfolding first_use
  or_first_other (some r) k c h = refl
  or_first_other none k c h = rw (first_use, h) refl

  blank_other : (a k : String) → (a == "") ≡ true → (k == "") ≡ false → (a == k) ≡ false
  blank_other a k h g = ground (arith, eq_iff a "", eq_iff a k, eq_iff k "", h, g)

  lookup-new :
      (l : IdempotencyLedger) (c : LedgerCall) (k : String)
      → lookup (trim_space c.key) l.records ≡ none
      → (trim_space c.key == k) ≡ true
      → lookup k (
          insert
            (trim_space c.key)
            (new_record (trim_space c.key) (hash_payload c.payload) c.now)
            l.records)
        ≡ or_first (lookup k l.records) k (c ∷ [])
  unfolding first_use
  lookup-new l c k f g =
      let same : trim_space c.key ≡ k = (eq_iff (trim_space c.key) k).0 g in
      lookup-insert (trim_space c.key) k
        (new_record (trim_space c.key) (hash_payload c.payload) c.now) l.records
      ∙ rw g (
          rw (ap (λ j. lookup j l.records) (sym same) ∙ f)
            (rw (first_use, g) (ap (λ j. some (new_record j (hash_payload c.payload) c.now)) same)))

  lookup-call :
      (l : IdempotencyLedger) (c : LedgerCall) (k : String)
      → (k == "") ≡ false
      → lookup k (call l c).records ≡ or_first (lookup k l.records) k (c ∷ [])
  unfolding check_or_record first_use
  lookup-call l c k given = elim (Bool-cases (trim_space c.key == "")) [
    | inl e ↦
        rw (call, check_or_record, e)
          (or_first_other (lookup k l.records) k c (blank_other (trim_space c.key) k e given))
    | inr e ↦ elim (Option-cases (lookup (trim_space c.key) l.records)) [
      | inr (rec, f) ↦
          rw (call, check_or_record, e, f)
            (elim (Bool-cases (trim_space c.key == k)) [
              | inr g ↦ or_first_other (lookup k l.records) k c g
              | inl g ↦
                  or_first_known (lookup k l.records) k c
                    (ap (λ j. lookup j l.records) (sym ((eq_iff (trim_space c.key) k).0 g)) ∙ f)
            ])
      | inl f ↦
          rw (call, check_or_record, e, f)
            (elim (Bool-cases (trim_space c.key == k)) [
              | inr g ↦
                  lookup-insert_other (trim_space c.key) k
                    (new_record (trim_space c.key) (hash_payload c.payload) c.now) l.records g
                  ∙ or_first_other (lookup k l.records) k c g
              | inl g ↦ lookup-new l c k f g
            ])
    ]
  ]

  -- The calls so far decide every record of the ledger.
  Implements : IdempotencyLedger → List LedgerCall → Type 0
  Implements l history = (k : String) → (k == "") ≡ false → lookup k l.records ≡ first_use k history

  first_use-append :
      (k : String) (h : List LedgerCall) (c : LedgerCall)
      → first_use k (h ++ c ∷ []) ≡ or_first (first_use k h) k (c ∷ [])
  unfolding first_use
  first_use-append k [] c = refl
  first_use-append k (d ∷ h) c = elim (Bool-cases (trim_space d.key == k)) [
    | inl e ↦ rw (first_use, e) refl
    | inr e ↦ rw (first_use, e) (first_use-append k h c)
  ]

  call-Implements :
      (l : IdempotencyLedger) (h : List LedgerCall) (c : LedgerCall)
      → Implements l h
      → Implements (call l c) (h ++ c ∷ [])
  unfolding Implements
  call-Implements l h c i k given =
      lookup-call l c k given
      ∙ ap (λ o. or_first o k (c ∷ [])) (i k given)
      ∙ sym (first_use-append k h c)

  run-Implements :
      (l : IdempotencyLedger) (h cs : List LedgerCall)
      → Implements l h
      → Implements (run l cs) (h ++ cs)
  unfolding run
  run-Implements l h [] i = subst (Implements l) (sym (append-nil h)) i
  run-Implements l h (c ∷ cs) i =
      subst (Implements (run (call l c) cs)) (append_assoc h (c ∷ []) cs)
        (run-Implements (call l c) (h ++ c ∷ []) cs (call-Implements l h c i))

  new-Implements : Implements new_idempotency_ledger []
  unfolding Implements first_use
  new-Implements k given = lookup-empty k

  ne_of_beq : (s t : String) → (s == t) ≡ false → s ≢ t
  ne_of_beq s t h e = ground (arith, eq_iff s t)

  -- The answer to a key that has been used.
  answer-used :
      (history : List LedgerCall) (c : LedgerCall) (first : IdempotencyRecord)
      → trim_space c.key ≢ ""
      → first_use (trim_space c.key) history ≡ some first
      → Promises history c (replay_or_conflict first (hash_payload c.payload))
  answer-used history c first given f =
      elim (Bool-cases (first.payload_hash == hash_payload c.payload)) [
        | inl e ↦
            rw e (
              replays first given f
                (sym ((eq_iff first.payload_hash (hash_payload c.payload)).0 e)))
        | inr e ↦ rw e (
            conflicts first given f
              (λ p. ne_of_beq first.payload_hash (hash_payload c.payload) e (sym p)))
      ]

  answer-Promises :
      (l : IdempotencyLedger) (h : List LedgerCall) (c : LedgerCall)
      → Implements l h
      → Promises h c (check_or_record l c.key c.payload c.now).1
  unfolding Implements check_or_record
  answer-Promises l h c i = elim (Bool-cases (trim_space c.key == "")) [
    | inl e ↦ rw (check_or_record, e) (refuses ((eq_iff (trim_space c.key) "").0 e))
    | inr e ↦
        let given = ne_of_beq (trim_space c.key) "" e in
        elim (Option-cases (first_use (trim_space c.key) h)) [
          | inl f ↦ rw (check_or_record, e, i (trim_space c.key) e ∙ f) (records given f)
          | inr (first, f) ↦
              rw (check_or_record, e, i (trim_space c.key) e ∙ f) (answer-used h c first given f)
        ]
  ]

  -- After any calls on a new ledger, CheckOrRecord answers as the history of those calls promises:
  -- a blank key is refused with an error; a key that no call of the history has used is a first use,
  -- answered with the new record of the trimmed key, the payload's hash and the time; and a key that
  -- one has used is a replay, answered with the record of the first such call and no error, if the
  -- payload has the hash of that record, and a conflict, with that record and an error, if not.
  pub check_or_record_refines :
      (history : List LedgerCall) (c : LedgerCall)
      → Promises history c
          (check_or_record (run new_idempotency_ledger history) c.key c.payload c.now).1
  check_or_record_refines history c =
      answer-Promises (run new_idempotency_ledger history) history c
        (run-Implements new_idempotency_ledger [] history new-Implements)
