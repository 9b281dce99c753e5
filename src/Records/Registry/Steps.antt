-- ===== src/Records/Registry/Steps.antt =====
-- Each call on the registry of modules/records-audit/immutable_objects.go is a step.
use mathlib.Core.Path.{subst}
use oshe_platform.Prelude.{
  ℕ, String, ◌≡◌, refl, ap, ◌∙◌, Bool, true, false, not, none, some, Result, ok, err, int_le,
  if◌then◌else◌, arith, Option-cases, eq_iff, inl, inr,
}
use oshe_platform.Prelude.Map.{lookup, insert, string_eq, ◌==◌}
use oshe_platform.Prelude.Strings.{trim_space, trim_space-trim_space}
use oshe_platform.Records.{RecordState, draft, accepted, archived, state_eqb}
use oshe_platform.Records.Registry.{
  ObjectError, OriginalRecord, DerivedRecord, ObjectKey, object_key_eq, IntegrityRegistry, key_at,
  bad_digest, new_original_record, is_derived_kind, new_derived_record,
}
use oshe_platform.Records.Registry.Operations.{
  check_tenant, check_original, register_original, accept_verdict, archive_verdict, accept_original,
  archive_original, check_derived, register_derived,
}
use oshe_platform.Records.Registry.Run.{
  Call, add_original, add_derived, accept_at, archive_at, accept_derived_at, register_built,
  register_built_derived, exec, original_key, derived_key, parent_key, Step, unchanged,
  adds_original, adds_derived, accept_verdict-Advances, archive_verdict-Advances,
  move_original-Step, accept_derived-Step,
}

-- A record that names its tenant is registered under that tenant.
check_tenant-none :
    (trusted own object : String)
    → check_tenant trusted own object ≡ none
    → trim_space own ≡ own
    → (own == "") ≡ false
    → trim_space trusted ≡ own
unfolding check_tenant
check_tenant-none trusted own object h t n =
    ground (arith, eq_iff (trim_space own) (trim_space trusted))

-- What the constructors give is trimmed, and names its tenant.
pub record IsTrimmedOriginal (rec : OriginalRecord) : Type 0 where
  pub tenant : trim_space rec.tenant_id ≡ rec.tenant_id
  pub object : trim_space rec.object_id ≡ rec.object_id
  pub tenanted : (rec.tenant_id == "") ≡ false

pub record IsTrimmedDerived (rec : DerivedRecord) : Type 0 where
  pub tenant : trim_space rec.tenant_id ≡ rec.tenant_id
  pub object : trim_space rec.object_id ≡ rec.object_id
  pub parent : trim_space rec.parent_id ≡ rec.parent_id
  pub tenanted : (rec.tenant_id == "") ≡ false

-- The value of a result, where it is one, has the property.
abbrev pub OkHas {ℓ} : {A : Type ℓ} → (A → Type 0) → Result ObjectError A → Type 0
OkHas P (ok a) = P a
OkHas P (err _) = Unit

pub OkHas-if {ℓ} :
    {A : Type ℓ} (P : A → Type 0) (b : Bool) (x : ObjectError) (r : Result ObjectError A)
    → (b ≡ false → OkHas P r)
    → OkHas P (if b then err x else r)
OkHas-if P true x r h = tt
OkHas-if P false x r h = h refl

new_original_record-OkHas :
    (arg : OriginalRecord) (now : ℕ) → OkHas IsTrimmedOriginal (new_original_record arg now)
unfolding new_original_record
new_original_record-OkHas arg now =
    OkHas-if IsTrimmedOriginal (trim_space arg.object_id == "") _ _ (λ _.
      OkHas-if IsTrimmedOriginal (trim_space arg.tenant_id == "") _ _ (λ n.
        OkHas-if IsTrimmedOriginal (trim_space arg.media_type == "") _ _ (λ _.
          OkHas-if IsTrimmedOriginal (int_le arg.size_bytes 0) _ _ (λ _.
            OkHas-if IsTrimmedOriginal (bad_digest arg.sha256_digest) _ _ (λ _. record {
              tenant = trim_space-trim_space arg.tenant_id;
              object = trim_space-trim_space arg.object_id;
              tenanted = n;
            })))))

new_derived_record-OkHas :
    (arg : DerivedRecord) (now : ℕ) → OkHas IsTrimmedDerived (new_derived_record arg now)
unfolding new_derived_record
new_derived_record-OkHas arg now =
    OkHas-if IsTrimmedDerived (trim_space arg.object_id == "") _ _ (λ _.
      OkHas-if IsTrimmedDerived (trim_space arg.tenant_id == "") _ _ (λ n.
        OkHas-if IsTrimmedDerived (trim_space arg.parent_id == "") _ _ (λ _.
          OkHas-if IsTrimmedDerived (not (is_derived_kind arg.derived_kind)) _ _ (λ _.
            OkHas-if IsTrimmedDerived (trim_space arg.media_type == "") _ _ (λ _.
              OkHas-if IsTrimmedDerived (int_le arg.size_bytes 0) _ _ (λ _.
                OkHas-if IsTrimmedDerived (bad_digest arg.sha256_digest) _ _ (λ _. record {
                  tenant = trim_space-trim_space arg.tenant_id;
                  object = trim_space-trim_space arg.object_id;
                  parent = trim_space-trim_space arg.parent_id;
                  tenanted = n;
                })))))))

check_original-none :
    (reg : IntegrityRegistry) (k : ObjectKey)
    → check_original reg k ≡ none
    → (lookup k reg.originals ≡ none) × (lookup k reg.derived ≡ none)
unfolding check_original
check_original-none reg k h = (ground arith, ground arith)

key_own :
    (trusted tenant object : String)
    → trim_space trusted ≡ tenant
    → trim_space object ≡ object
    → record { tenant_id = tenant; object_id = object } ≡ key_at trusted object
key_own trusted tenant object h k = rw h (rw k refl)

register_original-Step :
    (reg : IntegrityRegistry) (trusted : String) (rec : OriginalRecord)
    → IsTrimmedOriginal rec
    → Step reg (register_original reg trusted rec).0
unfolding register_original
register_original-Step reg trusted rec t =
    let k = key_at trusted rec.object_id in
    elim (Option-cases (check_tenant trusted rec.tenant_id rec.object_id)) [
      | inr e ↦ rw (register_original, e.1) unchanged
      | inl e ↦
          let own : original_key rec ≡ k =
            key_own trusted rec.tenant_id rec.object_id
              (check_tenant-none trusted rec.tenant_id rec.object_id e t.tenant t.tenanted)
              t.object in
          elim (Option-cases (check_original reg k)) [
            | inr c ↦ rw (register_original, e, c.1) unchanged
            | inl c ↦
                let free = check_original-none reg k c in
                rw (register_original, e, c)
                  (subst
                    (λ (i : ObjectKey).
                      Step reg (record reg { originals = insert i rec reg.originals }))
                    own
                    (adds_original rec (ap (λ (i : ObjectKey). lookup i reg.originals) own ∙ free.0)
                      (ap (λ (i : ObjectKey). lookup i reg.derived) own ∙ free.1)))
          ]
    ]

pub accepted_state : (s : RecordState) → state_eqb s accepted ≡ true → s ≡ accepted
accepted_state accepted h = refl
accepted_state draft h = absurd (ground arith)
accepted_state archived h = absurd (ground arith)

-- What the registration of a derived record has found.
check_derived-none :
    (reg : IntegrityRegistry) (trusted : String) (rec : DerivedRecord)
    → check_derived reg trusted rec ≡ none
    → (lookup (key_at trusted rec.object_id) reg.originals ≡ none)
      × (lookup (key_at trusted rec.object_id) reg.derived ≡ none)
      × ((parent : OriginalRecord) × ((lookup (key_at trusted rec.parent_id) reg.originals
              ≡ some parent)
            × (parent.state ≡ accepted)))
unfolding check_derived
check_derived-none reg trusted rec h =
    elim (Option-cases (lookup (key_at trusted rec.parent_id) reg.originals)) [
      | inl f ↦ absurd (ground arith)
      | inr f ↦
          (ground arith, ground arith, (f.0, (f.1, accepted_state f.0.state (ground (arith, f.1)))))
    ]

register_derived-Step :
    (reg : IntegrityRegistry) (trusted : String) (rec : DerivedRecord)
    → IsTrimmedDerived rec
    → Step reg (register_derived reg trusted rec).0
unfolding register_derived
register_derived-Step reg trusted rec t =
    let k = key_at trusted rec.object_id in
    elim (Option-cases (check_tenant trusted rec.tenant_id rec.object_id)) [
      | inr e ↦ rw (register_derived, e.1) unchanged
      | inl e ↦
          let same = check_tenant-none trusted rec.tenant_id rec.object_id e t.tenant t.tenanted in
          let own : derived_key rec ≡ k =
            key_own trusted rec.tenant_id rec.object_id same t.object in
          let up : parent_key rec ≡ key_at trusted rec.parent_id =
            key_own trusted rec.tenant_id rec.parent_id same t.parent in
          elim (Option-cases (check_derived reg trusted rec)) [
            | inr c ↦ rw (register_derived, e, c.1) unchanged
            | inl c ↦
                let (free, fresh, (parent, (there, ready))) =
                  check_derived-none reg trusted rec c in
                rw (register_derived, e, c)
                  (subst
                    (λ (i : ObjectKey).
                      Step reg (record reg { derived = insert i rec reg.derived }))
                    own
                    (adds_derived rec parent
                      (ap (λ (i : ObjectKey). lookup i reg.originals) own ∙ free)
                      (ap (λ (i : ObjectKey). lookup i reg.derived) own ∙ fresh)
                      (ap (λ (i : ObjectKey). lookup i reg.originals) up ∙ there) ready))
          ]
    ]

add_original-Step :
    (reg : IntegrityRegistry) (trusted : String) (r : Result ObjectError OriginalRecord)
    → OkHas IsTrimmedOriginal r
    → Step reg (register_built reg trusted r).0
add_original-Step reg trusted (ok rec) h = register_original-Step reg trusted rec h
add_original-Step reg trusted (err x) h = unchanged

add_derived-Step :
    (reg : IntegrityRegistry) (trusted : String) (r : Result ObjectError DerivedRecord)
    → OkHas IsTrimmedDerived r
    → Step reg (register_built_derived reg trusted r).0
add_derived-Step reg trusted (ok rec) h = register_derived-Step reg trusted rec h
add_derived-Step reg trusted (err x) h = unchanged

pub exec-Step : (reg : IntegrityRegistry) (c : Call) → Step reg (exec reg c).0
unfolding accept_original archive_original
exec-Step reg (add_original trusted arg now) =
    add_original-Step reg trusted (new_original_record arg now) (new_original_record-OkHas arg now)
exec-Step reg (add_derived trusted arg now) =
    add_derived-Step reg trusted (new_derived_record arg now) (new_derived_record-OkHas arg now)
exec-Step reg (accept_at tenant object) =
    move_original-Step accept_verdict accepted accept_verdict-Advances reg tenant object
exec-Step reg (archive_at tenant object) =
    move_original-Step archive_verdict archived archive_verdict-Advances reg tenant object
exec-Step reg (accept_derived_at tenant object) = accept_derived-Step reg tenant object
