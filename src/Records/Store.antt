-- ===== src/Records/Store.antt =====
-- The operations of the store of modules/records-audit/record_audit.go.
use Prim.Native.String.{◌++◌}
use oshe_platform.Prelude.{
  ℕ, String, Bool, true, false, not, ◌&&◌, Option, none, some, List, [], ◌∷◌, push, keep, Result,
  ok, err, if◌then◌else◌,
}
use oshe_platform.Prelude.Map.{Map, lookup, insert, string_eq, ◌==◌}
use oshe_platform.Prelude.Strings.{trim_space}
use oshe_platform.Records.{
  RecordState, draft, accepted, archived, state_eqb, RecordError, blank_tenant_id, blank_id,
  duplicate_record, duplicate_version, record_not_found, record_archived,
  invalid_lifecycle_transition, record_declared, record_versioned, state_changed, access_denied,
  AuditEntry, RecordSnapshot, DeclaredRecord, RecordStore, make_record_key,
}
use oshe_platform.Records.Checks.{
  Caller, check_declare, check_version, check_caller, journal, snapshot_of,
}

unfoldable pub declare_record :
    RecordStore
    → Caller
    → String
    → String
    → String
    → ℕ
    → RecordStore × Result RecordError DeclaredRecord
unfolding journal
declare_record s c record_type version digest now =
    elim (check_declare c record_type version digest) [
      | some x ↦ (s, err x)
      | none ↦
          let key = make_record_key (trim_space c.tenant_id) (trim_space c.record_id) in
          elim (lookup key s.records) [
            | some _ ↦ (s, err duplicate_record)
            | none ↦
                let rec : DeclaredRecord = record {
                  record_id = trim_space c.record_id;
                  tenant_id = trim_space c.tenant_id;
                  record_type = trim_space record_type;
                  current_version = trim_space version;
                  state = accepted;
                  created_at = now;
                  updated_at = now;
                } in
                let details =
                  "Declared record type "
                  ++ trim_space record_type
                  ++ " version "
                  ++ trim_space version in
                (
                  record (journal s c record_declared none (some accepted) (trim_space version)
                      details now) {
                        records = insert key rec s.records;
                        snapshots =
                            insert key (snapshot_of c version digest accepted now ∷ []) s.snapshots;
                      },
                  ok rec,
                )
          ]
    ]

abbrev pub has_version : String → List RecordSnapshot → Bool
has_version version [] = false
has_version version (snap ∷ l) = if snap.version == version then true else has_version version l

-- A missing key reads as the nil slice.
unfoldable pub snapshots_at : Map String (List RecordSnapshot) → String → List RecordSnapshot
snapshots_at m key = elim (lookup key m) [ none ↦ [] | some l ↦ l ]

unfoldable pub create_new_version :
    RecordStore → Caller → String → String → ℕ → RecordStore × Result RecordError RecordSnapshot
unfolding journal
create_new_version s c version digest now = elim (check_version c version digest) [
  | some x ↦ (s, err x)
  | none ↦
      let key = make_record_key (trim_space c.tenant_id) (trim_space c.record_id) in
      elim (lookup key s.records) [
        | none ↦ (s, err record_not_found)
        | some rec ↦
            if state_eqb rec.state archived
            then (s, err record_archived)
            else if has_version (trim_space version) (snapshots_at s.snapshots key)
            then (s, err duplicate_version)
            else let snap = snapshot_of c version digest rec.state now in
              (
                record (journal s c record_versioned (some rec.state) (some rec.state)
                    (trim_space version) ("Created version snapshot " ++ trim_space version) now) {
                      records =
                          insert key
                            (record rec { current_version = trim_space version; updated_at = now })
                            s.records;
                      snapshots = insert key (push (snapshots_at s.snapshots key) snap) s.snapshots;
                    },
                ok snap,
              )
      ]
]

-- The `switch` on the prior state.
abbrev pub permits : RecordState → RecordState → Bool
permits draft accepted = true
permits draft archived = true
permits accepted archived = true
permits _ _ = false

abbrev pub state_text : RecordState → String
state_text draft = "DRAFT"
state_text accepted = "ACCEPTED"
state_text archived = "ARCHIVED"

unfoldable pub transition_record_state :
    RecordStore → Caller → RecordState → ℕ → RecordStore × Option RecordError
unfolding journal
transition_record_state s c target now = elim (check_caller c) [
  | some x ↦ (s, some x)
  | none ↦
      let key = make_record_key (trim_space c.tenant_id) (trim_space c.record_id) in
      elim (lookup key s.records) [
        | none ↦ (s, some record_not_found)
        | some rec ↦
            if state_eqb rec.state target
            then (s, none)
            else if state_eqb rec.state archived
            then (s, some record_archived)
            else if not (permits rec.state target)
            then (s, some invalid_lifecycle_transition)
            else let details =
                "Transitioned state from " ++ state_text rec.state ++ " to " ++ state_text target in
              (
                record (journal s c state_changed (some rec.state) (some target) rec.current_version
                    details now) {
                      records =
                          insert key (record rec { state = target; updated_at = now }) s.records;
                    },
                none,
              )
      ]
]

unfoldable pub record_access_denied :
    RecordStore → Caller → String → ℕ → RecordStore × Option RecordError
unfolding journal
record_access_denied s c reason now = elim (check_caller c) [
  | some x ↦ (s, some x)
  | none ↦ (journal s c access_denied none none "" (trim_space reason) now, none)
]

-- The start of every reader: the names, and the record.
unfoldable pub get_record : RecordStore → String → String → Result RecordError DeclaredRecord
get_record s caller_tenant_id record_id =
    if trim_space caller_tenant_id == ""
    then err blank_tenant_id
    else if trim_space record_id == ""
    then err blank_id
    else elim (lookup (make_record_key (trim_space caller_tenant_id) (trim_space record_id))
        s.records) [ none ↦ err record_not_found | some rec ↦ ok rec ]

unfoldable pub get_snapshots :
    RecordStore → String → String → Result RecordError (List RecordSnapshot)
get_snapshots s caller_tenant_id record_id = elim (get_record s caller_tenant_id record_id) [
  | err x ↦ err x
  | ok _ ↦ ok (
      snapshots_at s.snapshots
        (make_record_key (trim_space caller_tenant_id) (trim_space record_id)))
]

unfoldable pub get_audit_trail :
    RecordStore → String → String → Result RecordError (List AuditEntry)
get_audit_trail s caller_tenant_id record_id = elim (get_record s caller_tenant_id record_id) [
  | err x ↦ err x
  | ok _ ↦ ok (
      keep
        (λ (entry : AuditEntry).
          entry.tenant_id == trim_space caller_tenant_id && entry.record_id == trim_space record_id)
        s.audit_log)
]
