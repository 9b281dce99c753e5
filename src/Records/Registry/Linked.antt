-- ===== src/Records/Registry/Linked.antt =====
-- Derived objects of modules/records-audit/immutable_objects.go stay linked to an original.
use mathlib.Core.Path.{subst}
use oshe_platform.Prelude.{
  ◌≡◌, ◌≢◌, refl, sym, ap, ◌∙◌, none, some, List, [], ◌∷◌, arith, Bool-cases, Option-cases, ◌⊎◌,
  inl, inr,
}
use oshe_platform.Prelude.Map.{lookup, insert, lookup-insert, lookup-insert_cases, string_eq, ◌==◌}
use oshe_platform.Records.{RecordState, draft}
use oshe_platform.Records.Registry.{
  OriginalRecord, DerivedRecord, ObjectKey, object_key_eq, object_key_beq_iff, IntegrityRegistry,
}
use oshe_platform.Records.Registry.Run.{
  Call, exec, run, original_key, derived_key, parent_key, Advances, accepts, archives, Step,
  unchanged, adds_original, adds_derived, moves_original, accepts_derived,
}
use oshe_platform.Records.Registry.Steps.{exec-Step}

-- The original that a derived record names is there, and was accepted.
abbrev pub HasParent : IntegrityRegistry → DerivedRecord → Type 0
HasParent reg rec =
    (parent : OriginalRecord) × ((lookup (parent_key rec) reg.originals ≡ some parent)
      × (parent.state ≢ draft))

pub record IsSoundRegistry (reg : IntegrityRegistry) : Type 0 where
  pub originals_filed :
      (k : ObjectKey) (rec : OriginalRecord)
      → lookup k reg.originals ≡ some rec
      → original_key rec ≡ k
  pub derived_filed :
      (k : ObjectKey) (rec : DerivedRecord)
      → lookup k reg.derived ≡ some rec
      → (derived_key rec ≡ k) × (lookup k reg.originals ≡ none) × HasParent reg rec

Advances-draft : (s t : RecordState) → Advances s t → t ≢ draft
Advances-draft _ _ accepts h = ground arith
Advances-draft _ _ archives h = ground arith

-- A write of an original that is not a draft where one was, or anything where nothing was, keeps
-- the parents.
insert-HasParent :
    (reg : IntegrityRegistry) (k : ObjectKey) (rec : OriginalRecord) (d : DerivedRecord)
    → (lookup k reg.originals ≡ none) ⊎ (rec.state ≢ draft)
    → HasParent reg d
    → HasParent (record reg { originals = insert k rec reg.originals }) d
insert-HasParent reg k rec d w (parent, (f, n)) = elim (Bool-cases (k == parent_key d)) [
  | inr c ↦ (parent, (lookup-insert k (parent_key d) rec reg.originals ∙ rw c f, n))
  | inl c ↦ elim w [
    | inl none_there ↦ absurd (
        ground (
          arith,
          f,
          ap (λ (i : ObjectKey). lookup i reg.originals)
              ((object_key_beq_iff k (parent_key d)).0 c),
        ))
    | inr m ↦ (rec, (lookup-insert k (parent_key d) rec reg.originals ∙ rw c refl, m))
  ]
]

insert_original-IsSoundRegistry :
    (reg : IntegrityRegistry) (k : ObjectKey) (rec : OriginalRecord)
    → original_key rec ≡ k
    → lookup k reg.derived ≡ none
    → (lookup k reg.originals ≡ none) ⊎ (rec.state ≢ draft)
    → IsSoundRegistry reg
    → IsSoundRegistry (record reg { originals = insert k rec reg.originals })
insert_original-IsSoundRegistry reg k rec o n w h = record {
  originals_filed = λ j found e. elim (lookup-insert_cases k j rec reg.originals e) [
    | inl c ↦ ap original_key (sym c.1) ∙ o ∙ c.0
    | inr c ↦ h.originals_filed j found c.1
  ];
  derived_filed = λ j d e.
      let (own, free, parent) = h.derived_filed j d e in
      let apart : lookup j (insert k rec reg.originals) ≡ none = elim (Bool-cases (k == j)) [
        | inl c ↦ absurd (
            ground (
              arith,
              e,
              n,
              ap (λ (i : ObjectKey). lookup i reg.derived) ((object_key_beq_iff k j).0 c),
            ))
        | inr c ↦ lookup-insert k j rec reg.originals ∙ rw c free
      ] in
      (own, apart, insert-HasParent reg k rec d w parent);
}

insert_derived-IsSoundRegistry :
    (reg : IntegrityRegistry) (k : ObjectKey) (rec : DerivedRecord)
    → derived_key rec ≡ k
    → lookup k reg.originals ≡ none
    → HasParent reg rec
    → IsSoundRegistry reg
    → IsSoundRegistry (record reg { derived = insert k rec reg.derived })
insert_derived-IsSoundRegistry reg k rec o n p h = record {
  originals_filed = h.originals_filed;
  derived_filed = λ j d e. elim (lookup-insert_cases k j rec reg.derived e) [
    | inl c ↦ (
      ap derived_key (sym c.1) ∙ o ∙ c.0,
      ap (λ (i : ObjectKey). lookup i reg.originals) (sym c.0) ∙ n,
      subst (HasParent reg) c.1 p,
    )
    | inr c ↦ h.derived_filed j d c.1
  ];
}

-- What is an original is not a derived object.
original_not_derived :
    (reg : IntegrityRegistry) (k : ObjectKey) (rec : OriginalRecord)
    → IsSoundRegistry reg
    → lookup k reg.originals ≡ some rec
    → lookup k reg.derived ≡ none
original_not_derived reg k rec h f = elim (Option-cases (lookup k reg.derived)) [
  | inl n ↦ n
  | inr d ↦ absurd (ground (arith, f, (h.derived_filed k d.0 d.1).1))
]

Step-IsSoundRegistry :
    (reg reg' : IntegrityRegistry) → Step reg reg' → IsSoundRegistry reg → IsSoundRegistry reg'
Step-IsSoundRegistry reg _ unchanged h = h
Step-IsSoundRegistry reg _ (adds_original rec a b) h =
    insert_original-IsSoundRegistry reg (original_key rec) rec refl b (inl a) h
Step-IsSoundRegistry reg _ (adds_derived rec parent a b c e) h =
    insert_derived-IsSoundRegistry reg (derived_key rec) rec refl a
      (parent, (c, λ z. ground (arith, e, z))) h
Step-IsSoundRegistry reg _ (moves_original k rec target f v) h =
    insert_original-IsSoundRegistry reg k _ (h.originals_filed k rec f)
      (original_not_derived reg k rec h f) (inr (Advances-draft rec.state target v)) h
Step-IsSoundRegistry reg _ (accepts_derived k rec f) h =
    let (own, free, parent) = h.derived_filed k rec f in
    insert_derived-IsSoundRegistry reg k _ own free parent h

-- After any calls from a sound registry each object stands under its own tenant and identifier, no
-- identifier of a tenant is both an original and a derived object, and the original that a derived
-- object names is there, of the same tenant, and ACCEPTED or ARCHIVED.
pub run-IsSoundRegistry :
    (reg : IntegrityRegistry) (cs : List Call) → IsSoundRegistry reg → IsSoundRegistry (run reg cs)
unfolding run
run-IsSoundRegistry reg [] h = h
run-IsSoundRegistry reg (c ∷ cs) h =
    run-IsSoundRegistry (exec reg c).0 cs
      (Step-IsSoundRegistry reg (exec reg c).0 (exec-Step reg c) h)
