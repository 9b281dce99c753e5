-- ===== src/Records/Refused.antt =====
-- Calls on the store of modules/records-audit/record_audit.go that return an error.
use oshe_platform.Prelude.{ℕ, String, ◌≡◌, some, arith, Bool-cases, Option-cases, inl, inr}
use oshe_platform.Prelude.Map.{lookup, string_eq}
use oshe_platform.Prelude.Strings.{trim_space}
use oshe_platform.Records.{
  RecordState, archived, state_eqb, RecordError, RecordStore, make_record_key,
}
use oshe_platform.Records.Store.{
  declare_record, has_version, snapshots_at, create_new_version, permits, transition_record_state,
  record_access_denied,
}
use oshe_platform.Records.Checks.{Caller, check_declare, check_version, check_caller}
use oshe_platform.Records.Run.{Call, declare, new_version, transition_to, deny, exec, error_of}

declare_record_refused :
    (s : RecordStore) (c : Caller) (t v d : String) (now : ℕ) (x : RecordError)
    → error_of (declare_record s c t v d now).1 ≡ some x
    → (declare_record s c t v d now).0 ≡ s
unfolding declare_record
declare_record_refused s c t v d now x e = elim (Option-cases (check_declare c t v d)) [
  | inr h ↦ rw (declare_record, h.1)
  | inl h ↦
      elim (Option-cases
        (lookup (make_record_key (trim_space c.tenant_id) (trim_space c.record_id)) s.records)) [
          | inr f ↦ rw (declare_record, h, f.1)
          | inl f ↦ absurd (ground (arith, rw (declare_record, h, f) at e))
        ]
]

create_new_version_refused :
    (s : RecordStore) (c : Caller) (v d : String) (now : ℕ) (x : RecordError)
    → error_of (create_new_version s c v d now).1 ≡ some x
    → (create_new_version s c v d now).0 ≡ s
unfolding create_new_version
create_new_version_refused s c v d now x e = elim (Option-cases (check_version c v d)) [
  | inr h ↦ rw (create_new_version, h.1)
  | inl h ↦
      let k = make_record_key (trim_space c.tenant_id) (trim_space c.record_id) in
      elim (Option-cases (lookup k s.records)) [
        | inl f ↦ rw (create_new_version, h, f)
        | inr f ↦ elim (Bool-cases (state_eqb f.0.state archived)) [
          | inl a ↦ rw (create_new_version, h, f.1, a)
          | inr a ↦ elim (Bool-cases (has_version (trim_space v) (snapshots_at s.snapshots k))) [
            | inl n ↦ rw (create_new_version, h, f.1, a, n)
            | inr n ↦ absurd (ground (arith, rw (create_new_version, h, f.1, a, n) at e))
          ]
        ]
      ]
]

transition_record_state_refused :
    (s : RecordStore) (c : Caller) (target : RecordState) (now : ℕ) (x : RecordError)
    → (transition_record_state s c target now).1 ≡ some x
    → (transition_record_state s c target now).0 ≡ s
unfolding transition_record_state
transition_record_state_refused s c target now x e = elim (Option-cases (check_caller c)) [
  | inr h ↦ rw (transition_record_state, h.1)
  | inl h ↦
      elim (Option-cases
        (lookup (make_record_key (trim_space c.tenant_id) (trim_space c.record_id)) s.records)) [
          | inl f ↦ rw (transition_record_state, h, f)
          | inr f ↦ elim (Bool-cases (state_eqb f.0.state target)) [
            | inl a ↦ rw (transition_record_state, h, f.1, a)
            | inr a ↦ elim (Bool-cases (state_eqb f.0.state archived)) [
              | inl b ↦ rw (transition_record_state, h, f.1, a, b)
              | inr b ↦ elim (Bool-cases (permits f.0.state target)) [
                | inl p ↦
                    absurd (ground (arith, rw (transition_record_state, h, f.1, a, b, p) at e))
                | inr p ↦ rw (transition_record_state, h, f.1, a, b, p)
              ]
            ]
          ]
        ]
]

record_access_denied_refused :
    (s : RecordStore) (c : Caller) (reason : String) (now : ℕ) (x : RecordError)
    → (record_access_denied s c reason now).1 ≡ some x
    → (record_access_denied s c reason now).0 ≡ s
unfolding record_access_denied
record_access_denied_refused s c reason now x e = elim (Option-cases (check_caller c)) [
  | inr h ↦ rw (record_access_denied, h.1)
  | inl h ↦ absurd (ground (arith, rw (record_access_denied, h) at e))
]

-- A call that returns an error leaves the records, the versions and the journal as they were.
pub call_refused :
    (s : RecordStore) (c : Call) (x : RecordError) → (exec s c).1 ≡ some x → (exec s c).0 ≡ s
call_refused s (declare c t v d now) x e = declare_record_refused s c t v d now x e
call_refused s (new_version c v d now) x e = create_new_version_refused s c v d now x e
call_refused s (transition_to c target now) x e = transition_record_state_refused s c target now x e
call_refused s (deny c reason now) x e = record_access_denied_refused s c reason now x e
