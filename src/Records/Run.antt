-- ===== src/Records/Run.antt =====
-- The calls on the store of modules/records-audit/record_audit.go, and the writes they come to. The
-- lock makes a method one step.
use oshe_platform.Prelude.{
  ℕ, ◌+◌, String, ◌≡◌, refl, true, false, Option, none, some, List, [], ◌∷◌, push, wrap, Result, ok,
  err, Bool-cases, Option-cases, inl, inr,
}
use oshe_platform.Prelude.Map.{lookup, insert, string_eq}
use oshe_platform.Prelude.Strings.{trim_space}
use oshe_platform.Records.{
  RecordState, accepted, archived, state_eqb, RecordError, AuditEntry, RecordSnapshot,
  DeclaredRecord, RecordStore, make_record_key,
}
use oshe_platform.Records.Store.{
  declare_record, has_version, snapshots_at, create_new_version, permits, transition_record_state,
  record_access_denied,
}
use oshe_platform.Records.Checks.{
  Caller, check_declare, check_version, check_caller, journal, snapshot_of,
}

pub data Call : Type 0 where
  declare : Caller → String → String → String → ℕ → Call
  new_version : Caller → String → String → ℕ → Call
  transition_to : Caller → RecordState → ℕ → Call
  deny : Caller → String → ℕ → Call

abbrev pub error_of {ℓ} : {A : Type ℓ} → Result RecordError A → Option RecordError
error_of (ok _) = none
error_of (err x) = some x

abbrev pub exec : RecordStore → Call → RecordStore × Option RecordError
exec s (declare c t v d now) = let r = declare_record s c t v d now in (r.0, error_of r.1)
exec s (new_version c v d now) = let r = create_new_version s c v d now in (r.0, error_of r.1)
exec s (transition_to c target now) = transition_record_state s c target now
exec s (deny c reason now) = record_access_denied s c reason now

unfoldable pub run : RecordStore → List Call → RecordStore
run s [] = s
run s (c ∷ cs) = run (exec s c).0 cs

-- The journal with one more entry, the counter raised.
abbrev pub logged : RecordStore → AuditEntry → RecordStore
logged s e = record s { seq_counter = wrap (s.seq_counter + 1); audit_log = push s.audit_log e }

abbrev pub own_key : DeclaredRecord → String
own_key r = make_record_key r.tenant_id r.record_id

-- What a call writes.
pub data Step (s : RecordStore) : RecordStore → Type 0 where
  unchanged : Step s s
  declares :
      (k : String) (rec : DeclaredRecord) (snap : RecordSnapshot) (e : AuditEntry)
      → e.sequence_number ≡ wrap (s.seq_counter + 1)
      → lookup k s.records ≡ none
      → own_key rec ≡ k
      → rec.state ≡ accepted
      → snap.version ≡ rec.current_version
      → Step s (record (logged s e) {
        records = insert k rec s.records;
        snapshots = insert k (snap ∷ []) s.snapshots;
      })
  versions :
      (k : String) (rec : DeclaredRecord) (snap : RecordSnapshot) (now : ℕ) (e : AuditEntry)
      → e.sequence_number ≡ wrap (s.seq_counter + 1)
      → lookup k s.records ≡ some rec
      → state_eqb rec.state archived ≡ false
      → has_version snap.version (snapshots_at s.snapshots k) ≡ false
      → Step s (record (logged s e) {
        records =
            insert k (record rec { current_version = snap.version; updated_at = now }) s.records;
        snapshots = insert k (push (snapshots_at s.snapshots k) snap) s.snapshots;
      })
  transitions :
      (k : String) (rec : DeclaredRecord) (target : RecordState) (now : ℕ) (e : AuditEntry)
      → e.sequence_number ≡ wrap (s.seq_counter + 1)
      → lookup k s.records ≡ some rec
      → permits rec.state target ≡ true
      → Step s (record (logged s e) {
        records = insert k (record rec { state = target; updated_at = now }) s.records;
      })
  denies : (e : AuditEntry) → e.sequence_number ≡ wrap (s.seq_counter + 1) → Step s (logged s e)

declare_record-Step :
    (s : RecordStore) (c : Caller) (t v d : String) (now : ℕ)
    → Step s (declare_record s c t v d now).0
unfolding declare_record journal snapshot_of
declare_record-Step s c t v d now = elim (Option-cases (check_declare c t v d)) [
  | inr h ↦ rw (declare_record, h.1) unchanged
  | inl h ↦
      elim (Option-cases
        (lookup (make_record_key (trim_space c.tenant_id) (trim_space c.record_id)) s.records)) [
          | inr f ↦ rw (declare_record, h, f.1) unchanged
          | inl f ↦ rw (declare_record, h, f) (declares _ _ _ _ refl f refl refl refl)
        ]
]

create_new_version-Step :
    (s : RecordStore) (c : Caller) (v d : String) (now : ℕ)
    → Step s (create_new_version s c v d now).0
unfolding create_new_version journal snapshot_of
create_new_version-Step s c v d now = elim (Option-cases (check_version c v d)) [
  | inr h ↦ rw (create_new_version, h.1) unchanged
  | inl h ↦
      let k = make_record_key (trim_space c.tenant_id) (trim_space c.record_id) in
      elim (Option-cases (lookup k s.records)) [
        | inl f ↦ rw (create_new_version, h, f) unchanged
        | inr f ↦ elim (Bool-cases (state_eqb f.0.state archived)) [
          | inl a ↦ rw (create_new_version, h, f.1, a) unchanged
          | inr a ↦ elim (Bool-cases (has_version (trim_space v) (snapshots_at s.snapshots k))) [
            | inl n ↦ rw (create_new_version, h, f.1, a, n) unchanged
            | inr n ↦ rw (create_new_version, h, f.1, a, n) (versions _ f.0 _ now _ refl f.1 a n)
          ]
        ]
      ]
]

transition_record_state-Step :
    (s : RecordStore) (c : Caller) (target : RecordState) (now : ℕ)
    → Step s (transition_record_state s c target now).0
unfolding transition_record_state journal
transition_record_state-Step s c target now = elim (Option-cases (check_caller c)) [
  | inr h ↦ rw (transition_record_state, h.1) unchanged
  | inl h ↦
      elim (Option-cases
        (lookup (make_record_key (trim_space c.tenant_id) (trim_space c.record_id)) s.records)) [
          | inl f ↦ rw (transition_record_state, h, f) unchanged
          | inr f ↦ elim (Bool-cases (state_eqb f.0.state target)) [
            | inl a ↦ rw (transition_record_state, h, f.1, a) unchanged
            | inr a ↦ elim (Bool-cases (state_eqb f.0.state archived)) [
              | inl b ↦ rw (transition_record_state, h, f.1, a, b) unchanged
              | inr b ↦ elim (Bool-cases (permits f.0.state target)) [
                | inl p ↦
                    rw (transition_record_state, h, f.1, a, b, p)
                      (transitions _ f.0 target now _ refl f.1 p)
                | inr p ↦ rw (transition_record_state, h, f.1, a, b, p) unchanged
              ]
            ]
          ]
        ]
]

record_access_denied-Step :
    (s : RecordStore) (c : Caller) (reason : String) (now : ℕ)
    → Step s (record_access_denied s c reason now).0
unfolding record_access_denied journal
record_access_denied-Step s c reason now = elim (Option-cases (check_caller c)) [
  | inr h ↦ rw (record_access_denied, h.1) unchanged
  | inl h ↦ rw (record_access_denied, h) (denies _ refl)
]

pub exec-Step : (s : RecordStore) (c : Call) → Step s (exec s c).0
exec-Step s (declare c t v d now) = declare_record-Step s c t v d now
exec-Step s (new_version c v d now) = create_new_version-Step s c v d now
exec-Step s (transition_to c target now) = transition_record_state-Step s c target now
exec-Step s (deny c reason now) = record_access_denied-Step s c reason now
