-- ===== src/Records/Registry/Run.antt =====
-- The calls on the registry of modules/records-audit/immutable_objects.go, and the writes they come
-- to. A record that a caller registers was made by its constructor, since its fields are private.
use oshe_platform.Prelude.{
  ℕ, String, ◌≡◌, Option, none, some, List, [], ◌∷◌, Result, ok, err, arith, Option-cases, inl, inr,
}
use oshe_platform.Prelude.Map.{lookup, insert, string_eq}
use oshe_platform.Records.{RecordState, draft, accepted, archived}
use oshe_platform.Records.Registry.{
  ObjectError, OriginalRecord, DerivedRecord, ObjectKey, object_key_eq, IntegrityRegistry, key_at,
  new_original_record, new_derived_record,
}
use oshe_platform.Records.Registry.Operations.{
  register_original, check_names, accept_verdict, archive_verdict, move_original, accept_original,
  archive_original, register_derived, accept_derived,
}

pub data Call : Type 0 where
  add_original : String → OriginalRecord → ℕ → Call
  add_derived : String → DerivedRecord → ℕ → Call
  accept_at : String → String → Call
  archive_at : String → String → Call
  accept_derived_at : String → String → Call

-- The constructor's result, which a caller registers when it is a record.
abbrev pub register_built :
    IntegrityRegistry
    → String
    → Result ObjectError OriginalRecord
    → IntegrityRegistry × Option ObjectError
register_built reg trusted (err x) = (reg, some x)
register_built reg trusted (ok rec) = register_original reg trusted rec

abbrev pub register_built_derived :
    IntegrityRegistry
    → String
    → Result ObjectError DerivedRecord
    → IntegrityRegistry × Option ObjectError
register_built_derived reg trusted (err x) = (reg, some x)
register_built_derived reg trusted (ok rec) = register_derived reg trusted rec

abbrev pub exec : IntegrityRegistry → Call → IntegrityRegistry × Option ObjectError
exec reg (add_original trusted arg now) = register_built reg trusted (new_original_record arg now)
exec reg (add_derived trusted arg now) =
    register_built_derived reg trusted (new_derived_record arg now)
exec reg (accept_at tenant object) = accept_original reg tenant object
exec reg (archive_at tenant object) = archive_original reg tenant object
exec reg (accept_derived_at tenant object) = accept_derived reg tenant object

unfoldable pub run : IntegrityRegistry → List Call → IntegrityRegistry
run reg [] = reg
run reg (c ∷ cs) = run (exec reg c).0 cs

abbrev pub original_key : OriginalRecord → ObjectKey
original_key r = record { tenant_id = r.tenant_id; object_id = r.object_id }

abbrev pub derived_key : DerivedRecord → ObjectKey
derived_key r = record { tenant_id = r.tenant_id; object_id = r.object_id }

abbrev pub parent_key : DerivedRecord → ObjectKey
parent_key r = record { tenant_id = r.tenant_id; object_id = r.parent_id }

-- DRAFT becomes ACCEPTED, and ACCEPTED becomes ARCHIVED.
pub data Advances : RecordState → RecordState → Type 0 where
  accepts : Advances draft accepted
  archives : Advances accepted archived

-- What a call writes.
pub data Step (reg : IntegrityRegistry) : IntegrityRegistry → Type 0 where
  unchanged : Step reg reg
  adds_original :
      (rec : OriginalRecord)
      → lookup (original_key rec) reg.originals ≡ none
      → lookup (original_key rec) reg.derived ≡ none
      → Step reg (record reg { originals = insert (original_key rec) rec reg.originals })
  adds_derived :
      (rec : DerivedRecord) (parent : OriginalRecord)
      → lookup (derived_key rec) reg.originals ≡ none
      → lookup (derived_key rec) reg.derived ≡ none
      → lookup (parent_key rec) reg.originals ≡ some parent
      → parent.state ≡ accepted
      → Step reg (record reg { derived = insert (derived_key rec) rec reg.derived })
  moves_original :
      (k : ObjectKey) (rec : OriginalRecord) (target : RecordState)
      → lookup k reg.originals ≡ some rec
      → Advances rec.state target
      → Step reg (record reg { originals = insert k (record rec { state = target }) reg.originals })
  accepts_derived :
      (k : ObjectKey) (rec : DerivedRecord)
      → lookup k reg.derived ≡ some rec
      → Step reg (record reg { derived = insert k (record rec { state = accepted }) reg.derived })

pub accept_verdict-Advances : (s : RecordState) → accept_verdict s ≡ none → Advances s accepted
unfolding accept_verdict
accept_verdict-Advances draft h = accepts
accept_verdict-Advances accepted h = absurd (ground arith)
accept_verdict-Advances archived h = absurd (ground arith)

pub archive_verdict-Advances : (s : RecordState) → archive_verdict s ≡ none → Advances s archived
unfolding archive_verdict
archive_verdict-Advances accepted h = archives
archive_verdict-Advances draft h = absurd (ground arith)
archive_verdict-Advances archived h = absurd (ground arith)

pub move_original-Step :
    (verdict : RecordState → Option (Option ObjectError)) (target : RecordState)
    → ((s : RecordState) → verdict s ≡ none → Advances s target)
    → (reg : IntegrityRegistry) (tenant object : String)
    → Step reg (move_original verdict target reg tenant object).0
unfolding move_original
move_original-Step verdict target v reg tenant object =
    elim (Option-cases (check_names tenant object)) [
      | inr e ↦ rw (move_original, e.1) unchanged
      | inl e ↦ elim (Option-cases (lookup (key_at tenant object) reg.originals)) [
        | inl f ↦ rw (move_original, e, f) unchanged
        | inr f ↦ elim (Option-cases (verdict f.0.state)) [
          | inr o ↦ rw (move_original, e, f.1, o.1) unchanged
          | inl o ↦ rw (move_original, e, f.1, o) (moves_original _ f.0 target f.1 (v f.0.state o))
        ]
      ]
    ]

pub accept_derived-Step :
    (reg : IntegrityRegistry) (tenant object : String)
    → Step reg (accept_derived reg tenant object).0
unfolding accept_derived
accept_derived-Step reg tenant object = elim (Option-cases (check_names tenant object)) [
  | inr e ↦ rw (accept_derived, e.1) unchanged
  | inl e ↦ elim (Option-cases (lookup (key_at tenant object) reg.derived)) [
    | inl f ↦ rw (accept_derived, e, f) unchanged
    | inr f ↦ elim (Option-cases (accept_verdict f.0.state)) [
      | inr o ↦ rw (accept_derived, e, f.1, o.1) unchanged
      | inl o ↦ rw (accept_derived, e, f.1, o) (accepts_derived _ f.0 f.1)
    ]
  ]
]
