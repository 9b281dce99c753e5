-- ===== src/Records/History.antt =====
-- The store of modules/records-audit/record_audit.go only grows: nothing in the journal or among
-- the versions of a record is replaced.
use mathlib.Core.Path.{subst}
use oshe_platform.Prelude.{
  String, ◌≡◌, refl, sym, ap, ◌∙◌, false, some, List, [], ◌∷◌, ◌++◌, push, arith, Bool-cases,
  eq_iff, inl, inr,
}
use oshe_platform.Prelude.Map.{Map, lookup, insert, lookup-insert, beq_refl, string_eq, ◌==◌}
use oshe_platform.Records.{
  RecordState, draft, accepted, archived, state_eqb, RecordSnapshot, DeclaredRecord, RecordStore,
}
use oshe_platform.Records.Store.{snapshots_at, permits}
use oshe_platform.Records.Run.{
  Call, exec, run, Step, unchanged, declares, versions, transitions, denies, exec-Step,
}
use oshe_platform.Records.Sound.{snapshots_at-insert}
use mathlib.Core.List.{append-nil, append_assoc}

abbrev pub Extends {ℓ} : {A : Type ℓ} → List A → List A → Type ℓ
Extends {A = A} xs ys = (l : List A) × (ys ≡ xs ++ l)

Extends-refl {ℓ} : {A : Type ℓ} (xs : List A) → Extends xs xs
Extends-refl xs = ([], sym (append-nil xs))

Extends-trans {ℓ} : {A : Type ℓ} (xs ys zs : List A) → Extends xs ys → Extends ys zs → Extends xs zs
Extends-trans xs ys zs h k = (h.0 ++ k.0, k.1 ∙ rw h.1 (append_assoc xs h.0 k.0))

-- What a record and its versions may become.
pub record IsLaterRecord (rec : DeclaredRecord) (l : List RecordSnapshot) (rec' : DeclaredRecord)
    (l' : List RecordSnapshot) : Type 0 where
  pub same_record : rec'.record_id ≡ rec.record_id
  pub same_tenant : rec'.tenant_id ≡ rec.tenant_id
  pub same_type : rec'.record_type ≡ rec.record_type
  pub kept_versions : Extends l l'
  pub sealed : rec.state ≡ archived → (rec' ≡ rec) × (l' ≡ l)

pub record IsLater (s s' : RecordStore) : Type 0 where
  pub kept_log : Extends s.audit_log s'.audit_log
  pub kept_records :
      (k : String) (rec : DeclaredRecord)
      → lookup k s.records ≡ some rec
      → (rec' : DeclaredRecord) × ((lookup k s'.records ≡ some rec')
          × IsLaterRecord rec (snapshots_at s.snapshots k) rec' (snapshots_at s'.snapshots k))

IsLaterRecord-refl : (rec : DeclaredRecord) (l : List RecordSnapshot) → IsLaterRecord rec l rec l
IsLaterRecord-refl rec l = record {
  same_record = refl;
  same_tenant = refl;
  same_type = refl;
  kept_versions = Extends-refl l;
  sealed = λ _. (refl, refl);
}

IsLater-refl : (s : RecordStore) → IsLater s s
IsLater-refl s = record {
  kept_log = Extends-refl s.audit_log;
  kept_records = λ k rec h. (rec, (h, IsLaterRecord-refl rec (snapshots_at s.snapshots k)));
}

IsLaterRecord-trans :
    (r r' r'' : DeclaredRecord) (l l' l'' : List RecordSnapshot)
    → IsLaterRecord r l r' l'
    → IsLaterRecord r' l' r'' l''
    → IsLaterRecord r l r'' l''
IsLaterRecord-trans r r' r'' l l' l'' h k = record {
  same_record = k.same_record ∙ h.same_record;
  same_tenant = k.same_tenant ∙ h.same_tenant;
  same_type = k.same_type ∙ h.same_type;
  kept_versions = Extends-trans l l' l'' h.kept_versions k.kept_versions;
  sealed = λ a.
      let first = h.sealed a in
      let second = k.sealed (ap (λ (x : DeclaredRecord). x.state) first.0 ∙ a) in
      (second.0 ∙ first.0, second.1 ∙ first.1);
}

IsLater-trans : (s s' s'' : RecordStore) → IsLater s s' → IsLater s' s'' → IsLater s s''
IsLater-trans s s' s'' h k = record {
  kept_log = Extends-trans s.audit_log s'.audit_log s''.audit_log h.kept_log k.kept_log;
  kept_records = λ i rec e.
      let mid = h.kept_records i rec e in
      let last = k.kept_records i mid.0 mid.1.0 in
      (
        last.0,
        (
          last.1.0,
          IsLaterRecord-trans rec mid.0 last.0 (snapshots_at s.snapshots i)
              (snapshots_at s'.snapshots i) (snapshots_at s''.snapshots i) mid.1.1 last.1.1,
        ),
      );
}

permits_sealed : (s t : RecordState) → s ≡ archived → permits s t ≡ false
permits_sealed s draft h = rw h refl
permits_sealed s accepted h = rw h refl
permits_sealed s archived h = rw h refl

-- A write at one key that leaves there a later record and later versions.
module _ (s : RecordStore) (k : String) (rec rec' : DeclaredRecord)
    (m : Map String (List RecordSnapshot)) where
  abbrev Follows : String → DeclaredRecord → Type 0
  Follows j r =
      (x : DeclaredRecord) × ((lookup j (insert k rec' s.records) ≡ some x)
        × IsLaterRecord r (snapshots_at s.snapshots j) x (snapshots_at m j))

  same-Follows :
      IsLaterRecord rec (snapshots_at s.snapshots k) rec' (snapshots_at m k) → Follows k rec
  same-Follows g = (rec', (lookup-insert k k rec' s.records ∙ rw beq_refl refl, g))

  written_later :
      lookup k s.records ≡ some rec
      → IsLaterRecord rec (snapshots_at s.snapshots k) rec' (snapshots_at m k)
      → ((j : String) → (k == j) ≡ false → snapshots_at m j ≡ snapshots_at s.snapshots j)
      → (j : String) (r : DeclaredRecord) → lookup j s.records ≡ some r
      → Follows j r
  written_later f g o j r h = elim (Bool-cases (k == j)) [
    | inl c ↦
        let same = (eq_iff k j).0 c in
        let found : rec ≡ r = ground (arith, f, ap (λ (i : String). lookup i s.records) same, h) in
        subst (λ (i : String). Follows i r) same (subst (Follows k) found (same-Follows g))
    | inr c ↦ (
      r,
      (
        lookup-insert k j rec' s.records ∙ rw c h,
        subst (IsLaterRecord r (snapshots_at s.snapshots j) r) (sym (o j c))
            (IsLaterRecord-refl r (snapshots_at s.snapshots j)),
      ),
    )
  ]

others_same :
    (m : Map String (List RecordSnapshot)) (k : String) (l : List RecordSnapshot) (j : String)
    → (k == j) ≡ false
    → snapshots_at (insert k l m) j ≡ snapshots_at m j
others_same m k l j c = snapshots_at-insert m k j l ∙ rw c refl

Step-IsLater : (s s' : RecordStore) → Step s s' → IsLater s s'
Step-IsLater s _ unchanged = IsLater-refl s
Step-IsLater s _ (declares k rec snap e q f o a v) = record {
  kept_log = (e ∷ [], refl);
  kept_records = λ j r h. elim (Bool-cases (k == j)) [
    | inl c ↦ absurd (ground (arith, ap (λ (i : String). lookup i s.records) ((eq_iff k j).0 c)))
    | inr c ↦ (
      r,
      (
        lookup-insert k j rec s.records ∙ rw c h,
        subst (IsLaterRecord r (snapshots_at s.snapshots j) r)
            (sym (others_same s.snapshots k (snap ∷ []) j c))
            (IsLaterRecord-refl r (snapshots_at s.snapshots j)),
      ),
    )
  ];
}
Step-IsLater s _ (versions k rec snap now e q f a n) = record {
  kept_log = (e ∷ [], refl);
  kept_records =
      written_later s k rec _ _ f
        (record {
          same_record = refl;
          same_tenant = refl;
          same_type = refl;
          kept_versions = (
            snap ∷ [],
            snapshots_at-insert s.snapshots k k (push (snapshots_at s.snapshots k) snap)
                ∙ rw beq_refl refl,
          );
          sealed = λ z. absurd (ground (arith, ap (λ (t : RecordState). state_eqb t archived) z));
        })
        (others_same s.snapshots k (push (snapshots_at s.snapshots k) snap));
}
Step-IsLater s _ (transitions k rec target now e q f p) = record {
  kept_log = (e ∷ [], refl);
  kept_records =
      written_later s k rec _ s.snapshots f
        (record {
          same_record = refl;
          same_tenant = refl;
          same_type = refl;
          kept_versions = Extends-refl (snapshots_at s.snapshots k);
          sealed = λ z. absurd (ground (arith, permits_sealed rec.state target z));
        })
        (λ _ _. refl);
}
Step-IsLater s _ (denies e q) = record {
  kept_log = (e ∷ [], refl);
  kept_records = λ j r h. (r, (h, IsLaterRecord-refl r (snapshots_at s.snapshots j)));
}

-- After any calls the journal and the versions of a record have what they had before them, in the
-- same order and first; a record stays, with its tenant, its identifier and its type; and an
-- ARCHIVED record and its versions stay as they are.
pub run-IsLater : (s : RecordStore) (cs : List Call) → IsLater s (run s cs)
unfolding run
run-IsLater s [] = IsLater-refl s
run-IsLater s (c ∷ cs) =
    IsLater-trans s (exec s c).0 (run (exec s c).0 cs) (Step-IsLater s (exec s c).0 (exec-Step s c))
      (run-IsLater (exec s c).0 cs)
