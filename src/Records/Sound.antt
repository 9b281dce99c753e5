-- ===== src/Records/Sound.antt =====
-- What the store of modules/records-audit/record_audit.go keeps: a numbered journal, and versions
-- that are never written twice.
use mathlib.Core.Path.{subst}
use oshe_platform.Prelude.{
  ℕ, ◌+◌, String, ◌≡◌, ◌≢◌, refl, sym, ap, ◌∙◌, true, false, some, List, [], ◌∷◌, push, length,
  length-append, wrap, if◌then◌else◌, arith, Bool-cases, eq_iff, inl, inr,
}
use oshe_platform.Prelude.Map.{
  Map, lookup, insert, lookup-insert, lookup-insert_cases, beq_refl, string_eq, ◌==◌,
}
use oshe_platform.Records.{
  RecordState, draft, accepted, archived, AuditEntry, RecordSnapshot, DeclaredRecord, RecordStore,
}
use oshe_platform.Records.Store.{has_version, snapshots_at, permits}
use oshe_platform.Records.Run.{
  Call, exec, run, logged, own_key, Step, unchanged, declares, versions, transitions, denies,
  exec-Step,
}

-- The entries carry consecutive numbers from `n`.
abbrev pub Numbered : ℕ → List AuditEntry → Type 0
Numbered n [] = Unit
Numbered n (e ∷ es) = (e.sequence_number ≡ wrap n) × Numbered (n + 1) es

Numbered-push :
    (n : ℕ) (es : List AuditEntry) (e : AuditEntry)
    → Numbered n es
    → e.sequence_number ≡ wrap (n + length es)
    → Numbered n (push es e)
Numbered-push n [] e h q = (omega arith, tt)
Numbered-push n (x ∷ xs) e h q = (h.0, Numbered-push (n + 1) xs e h.1 (omega arith))

abbrev pub IsDistinct : List RecordSnapshot → Type 0
IsDistinct [] = Unit
IsDistinct (s ∷ l) = (has_version s.version l ≡ false) × IsDistinct l

abbrev pub EndsAt : String → List RecordSnapshot → Type 0
EndsAt v [] = ⊥
EndsAt v (s ∷ []) = s.version ≡ v
EndsAt v (s ∷ t ∷ l) = EndsAt v (t ∷ l)

EndsAt-push : (s : RecordSnapshot) (l : List RecordSnapshot) → EndsAt s.version (push l s)
EndsAt-push s [] = refl
EndsAt-push s (t ∷ []) = refl
EndsAt-push s (t ∷ u ∷ l) = EndsAt-push s (u ∷ l)

has_version-push :
    (v : String) (l : List RecordSnapshot) (s : RecordSnapshot)
    → has_version v l ≡ false
    → (s.version == v) ≡ false
    → has_version v (push l s) ≡ false
has_version-push v [] s h k = rw k
has_version-push v (t ∷ l) s h k = ground (arith, has_version-push v l s)

IsDistinct-push :
    (l : List RecordSnapshot) (s : RecordSnapshot)
    → IsDistinct l
    → has_version s.version l ≡ false
    → IsDistinct (push l s)
IsDistinct-push [] s h k = (refl, tt)
IsDistinct-push (t ∷ l) s h k = (
  has_version-push t.version l s h.0
      (ground (arith, eq_iff s.version t.version, eq_iff t.version s.version)),
  IsDistinct-push l s h.1 (ground arith),
)

pub snapshots_at-insert :
    (m : Map String (List RecordSnapshot)) (k j : String) (l : List RecordSnapshot)
    → snapshots_at (insert k l m) j ≡ (if k == j then l else snapshots_at m j)
unfolding snapshots_at
snapshots_at-insert m k j l = elim (Bool-cases (k == j)) [
  | inl e ↦ rw (snapshots_at, lookup-insert, e)
  | inr e ↦ rw (snapshots_at, lookup-insert, e)
]

-- A record stands under its own key, was never a draft, and its versions are distinct and end with
-- its current one.
pub record IsKept (k : String) (rec : DeclaredRecord) (l : List RecordSnapshot) : Type 0 where
  pub filed : own_key rec ≡ k
  pub declared : rec.state ≢ draft
  pub distinct : IsDistinct l
  pub current : EndsAt rec.current_version l

pub record IsSoundStore (s : RecordStore) : Type 0 where
  pub counted : s.seq_counter ≡ wrap (length s.audit_log)
  pub numbered : Numbered 1 s.audit_log
  pub kept :
      (k : String) (rec : DeclaredRecord)
      → lookup k s.records ≡ some rec
      → IsKept k rec (snapshots_at s.snapshots k)

logged-IsSoundStore :
    (s : RecordStore) (e : AuditEntry) (r : Map String DeclaredRecord)
    (m : Map String (List RecordSnapshot))
    → IsSoundStore s
    → e.sequence_number ≡ wrap (s.seq_counter + 1)
    → ((k : String) (rec : DeclaredRecord)
        → lookup k r ≡ some rec
        → IsKept k rec (snapshots_at m k))
    → IsSoundStore (record (logged s e) { records = r; snapshots = m })
logged-IsSoundStore s e r m h q k = record {
  counted = rw length-append (omega arith);
  numbered = Numbered-push 1 s.audit_log e h.numbered (omega arith);
  kept = k;
}

insert-IsKept :
    (s : RecordStore) (k : String) (rec : DeclaredRecord) (l : List RecordSnapshot)
    → IsSoundStore s
    → IsKept k rec l
    → (j : String) (found : DeclaredRecord) → lookup j (insert k rec s.records) ≡ some found
    → IsKept j found (snapshots_at (insert k l s.snapshots) j)
insert-IsKept s k rec l h n j found e = elim (lookup-insert_cases k j rec s.records e) [
  | inl c ↦
      let here = snapshots_at-insert s.snapshots k k l ∙ rw beq_refl refl in
      let at_k = subst (IsKept k rec) (sym here) n in
      subst (λ (r : DeclaredRecord). IsKept j r (snapshots_at (insert k l s.snapshots) j)) c.1
        (subst (λ (i : String). IsKept i rec (snapshots_at (insert k l s.snapshots) i)) c.0 at_k)
  | inr c ↦ rw (snapshots_at-insert, c.0) (h.kept j found c.1)
]

update-IsKept :
    (s : RecordStore) (k : String) (rec : DeclaredRecord)
    → IsSoundStore s
    → IsKept k rec (snapshots_at s.snapshots k)
    → (j : String) (found : DeclaredRecord) → lookup j (insert k rec s.records) ≡ some found
    → IsKept j found (snapshots_at s.snapshots j)
update-IsKept s k rec h n j found e = elim (lookup-insert_cases k j rec s.records e) [
  | inl c ↦
      subst (λ (r : DeclaredRecord). IsKept j r (snapshots_at s.snapshots j)) c.1
        (subst (λ (i : String). IsKept i rec (snapshots_at s.snapshots i)) c.0 n)
  | inr c ↦ h.kept j found c.1
]

permits_draft : (s : RecordState) → permits s draft ≡ false
permits_draft draft = refl
permits_draft accepted = refl
permits_draft archived = refl

permits_no_draft : (s t : RecordState) → permits s t ≡ true → t ≢ draft
permits_no_draft s t h e = ground (arith, permits_draft s, ap (permits s) e)

Step-IsSoundStore : (s s' : RecordStore) → Step s s' → IsSoundStore s → IsSoundStore s'
Step-IsSoundStore s _ unchanged h = h
Step-IsSoundStore s _ (declares k rec snap e q f o a v) h = logged-IsSoundStore s e _ _ h q (
    insert-IsKept s k rec (snap ∷ []) h (record {
      filed = o;
      declared = λ d. absurd (ground arith);
      distinct = (refl, tt);
      current = v;
    }))
Step-IsSoundStore s _ (versions k rec snap now e q f a n) h =
    let old = h.kept k rec f in
    logged-IsSoundStore s e _ _ h q (
      insert-IsKept s k _ (push (snapshots_at s.snapshots k) snap) h (record {
        filed = old.filed;
        declared = old.declared;
        distinct = IsDistinct-push (snapshots_at s.snapshots k) snap old.distinct n;
        current = EndsAt-push snap (snapshots_at s.snapshots k);
      }))
Step-IsSoundStore s _ (transitions k rec target now e q f p) h =
    let old = h.kept k rec f in
    logged-IsSoundStore s e _ _ h q (
      update-IsKept s k _ h (record {
        filed = old.filed;
        declared = permits_no_draft rec.state target p;
        distinct = old.distinct;
        current = old.current;
      }))
Step-IsSoundStore s _ (denies e q) h = logged-IsSoundStore s e _ _ h q h.kept

-- Any calls from a sound store lead to a sound store: the journal is numbered from 1 without a gap,
-- in 64-bit numbers, each record stands under its own key, is ACCEPTED or ARCHIVED, and its
-- versions are distinct and end with its current one.
pub run-IsSoundStore : (s : RecordStore) (cs : List Call) → IsSoundStore s → IsSoundStore (run s cs)
unfolding run
run-IsSoundStore s [] h = h
run-IsSoundStore s (c ∷ cs) h =
    run-IsSoundStore (exec s c).0 cs (Step-IsSoundStore s (exec s c).0 (exec-Step s c) h)
