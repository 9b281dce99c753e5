-- ===== src/Records/Registry/Operations.antt =====
-- The operations of the registry of modules/records-audit/immutable_objects.go.
use oshe_platform.Prelude.{String, not, ◌&&◌, Option, none, some, Result, ok, err, if◌then◌else◌}
use oshe_platform.Prelude.Map.{lookup, insert, string_eq, ◌==◌}
use oshe_platform.Prelude.Strings.{trim_space}
use oshe_platform.Records.{RecordState, draft, accepted, archived, state_eqb}
use oshe_platform.Records.Registry.{
  ObjectError, blank_object_id, blank_tenant_id, invalid_digest, unknown_parent,
  parent_not_accepted, cross_tenant_linkage, original_overwrite_denied, original_as_derived_denied,
  digest_mismatch, invalid_lifecycle_transition, record_archived, duplicate_object_id,
  OriginalRecord, DerivedRecord, ObjectKey, object_key_eq, IntegrityLinkage, IntegrityRegistry,
  key_at, bad_digest,
}

-- The tenant that the caller is trusted to have, and the one that a record names, if any.
unfoldable pub check_tenant : String → String → String → Option ObjectError
check_tenant trusted rec_tenant object =
    if trim_space trusted == ""
    then some blank_tenant_id
    else if not (trim_space rec_tenant == "") && not (trim_space rec_tenant == trim_space trusted)
    then some cross_tenant_linkage
    else if trim_space object == ""
    then some blank_object_id
    else none

unfoldable pub check_original : IntegrityRegistry → ObjectKey → Option ObjectError
check_original reg k = elim (lookup k reg.originals) [
  | some existing ↦
      if state_eqb existing.state accepted
      then some original_overwrite_denied
      else some duplicate_object_id
  | none ↦ elim (lookup k reg.derived) [ some _ ↦ some duplicate_object_id | none ↦ none ]
]

unfoldable pub register_original :
    IntegrityRegistry → String → OriginalRecord → IntegrityRegistry × Option ObjectError
register_original reg trusted rec = elim (check_tenant trusted rec.tenant_id rec.object_id) [
  | some x ↦ (reg, some x)
  | none ↦ elim (check_original reg (key_at trusted rec.object_id)) [
    | some x ↦ (reg, some x)
    | none ↦
        (record reg { originals = insert (key_at trusted rec.object_id) rec reg.originals }, none)
  ]
]

-- The two identifiers of a method on one object.
unfoldable pub check_names : String → String → Option ObjectError
check_names tenant object =
    if trim_space tenant == ""
    then some blank_tenant_id
    else if trim_space object == ""
    then some blank_object_id
    else none

-- The guards of an acceptance: an error, nothing to do, or the change.
unfoldable pub accept_verdict : RecordState → Option (Option ObjectError)
accept_verdict accepted = some none
accept_verdict archived = some (some record_archived)
accept_verdict draft = none

unfoldable pub archive_verdict : RecordState → Option (Option ObjectError)
archive_verdict archived = some none
archive_verdict draft = some (some invalid_lifecycle_transition)
archive_verdict accepted = none

unfoldable pub move_original :
    (RecordState → Option (Option ObjectError))
    → RecordState
    → IntegrityRegistry
    → String
    → String
    → IntegrityRegistry × Option ObjectError
move_original verdict target reg tenant object = elim (check_names tenant object) [
  | some x ↦ (reg, some x)
  | none ↦ elim (lookup (key_at tenant object) reg.originals) [
    | none ↦ (reg, some unknown_parent)
    | some rec ↦ elim (verdict rec.state) [
      | some outcome ↦ (reg, outcome)
      | none ↦ (
        record reg {
          originals = insert (key_at tenant object) (record rec { state = target }) reg.originals;
        },
        none,
      )
    ]
  ]
]

unfoldable pub accept_original :
    IntegrityRegistry → String → String → IntegrityRegistry × Option ObjectError
accept_original reg tenant object = move_original accept_verdict accepted reg tenant object

unfoldable pub archive_original :
    IntegrityRegistry → String → String → IntegrityRegistry × Option ObjectError
archive_original reg tenant object = move_original archive_verdict archived reg tenant object

unfoldable pub check_derived : IntegrityRegistry → String → DerivedRecord → Option ObjectError
check_derived reg trusted rec =
    let k = key_at trusted rec.object_id in
    elim (lookup k reg.originals) [
      | some _ ↦ some original_as_derived_denied
      | none ↦ elim (lookup k reg.derived) [
        | some _ ↦ some duplicate_object_id
        | none ↦ elim (lookup (key_at trusted rec.parent_id) reg.originals) [
          | none ↦ some unknown_parent
          | some parent ↦
              if not (state_eqb parent.state accepted)
              then some parent_not_accepted
              else if not (parent.tenant_id == rec.tenant_id)
              then some cross_tenant_linkage
              else none
        ]
      ]
    ]

unfoldable pub register_derived :
    IntegrityRegistry → String → DerivedRecord → IntegrityRegistry × Option ObjectError
register_derived reg trusted rec = elim (check_tenant trusted rec.tenant_id rec.object_id) [
  | some x ↦ (reg, some x)
  | none ↦ elim (check_derived reg trusted rec) [
    | some x ↦ (reg, some x)
    | none ↦ (record reg { derived = insert (key_at trusted rec.object_id) rec reg.derived }, none)
  ]
]

unfoldable pub accept_derived :
    IntegrityRegistry → String → String → IntegrityRegistry × Option ObjectError
accept_derived reg tenant object = elim (check_names tenant object) [
  | some x ↦ (reg, some x)
  | none ↦ elim (lookup (key_at tenant object) reg.derived) [
    | none ↦ (reg, some unknown_parent)
    | some rec ↦ elim (accept_verdict rec.state) [
      | some outcome ↦ (reg, outcome)
      | none ↦ (
        record reg {
          derived = insert (key_at tenant object) (record rec { state = accepted }) reg.derived;
        },
        none,
      )
    ]
  ]
]

-- The parent's key is that of the derived record, as it is stored.
unfoldable pub check_parent :
    IntegrityRegistry → DerivedRecord → Result ObjectError IntegrityLinkage
check_parent reg derived =
    elim (lookup (record { tenant_id = derived.tenant_id; object_id = derived.parent_id })
      reg.originals) [
        | none ↦ err unknown_parent
        | some parent ↦
            if not (parent.tenant_id == derived.tenant_id)
            then err cross_tenant_linkage
            else if not (state_eqb parent.state accepted)
            then err parent_not_accepted
            else ok (record { derived = derived; original = parent })
      ]

unfoldable pub verify_integrity_linkage :
    IntegrityRegistry → String → String → String → Result ObjectError IntegrityLinkage
verify_integrity_linkage reg derived_id caller expected = elim (check_names caller derived_id) [
  | some x ↦ err x
  | none ↦ elim (lookup (key_at caller derived_id) reg.derived) [
    | none ↦ err unknown_parent
    | some derived ↦
        if not (derived.tenant_id == trim_space caller)
        then err cross_tenant_linkage
        else if bad_digest expected
        then err invalid_digest
        else if not (derived.sha256_digest == expected)
        then err digest_mismatch
        else check_parent reg derived
  ]
]
