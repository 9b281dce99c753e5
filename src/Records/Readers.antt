-- ===== src/Records/Readers.antt =====
-- What a tenant reads from the store of modules/records-audit/record_audit.go.
use mathlib.Core.Path.{subst}
use Prim.Native.String.{[], ◌∷◌, ◌++◌}
use text.Mathlib.TextLemmas.{append_assoc, append-eq-nil_iff, cons≢nil}
use oshe_platform.Prelude.{
  String, ◌≡◌, refl, sym, ap, ◌∙◌, true, false, ◌&&◌, Option, none, some, List, [], ◌∷◌, All,
  All-keep, Result, ok, err, Result-cases, arith, Bool-cases, eq_iff, inl, inr,
}
use oshe_platform.Prelude.Map.{lookup, string_eq, ◌==◌}
use oshe_platform.Prelude.Strings.{trim_space}
use oshe_platform.Records.{
  RecordError, record_not_found, AuditEntry, DeclaredRecord, RecordStore, make_record_key,
}
use oshe_platform.Records.Store.{get_record, get_audit_trail}

abbrev IsEntry : AuditEntry → Type 0
IsEntry _ = Unit

all-IsEntry : (l : List AuditEntry) → All IsEntry l
all-IsEntry [] = tt
all-IsEntry (_ ∷ l) = (tt, all-IsEntry l)

abbrev IsOwn : String → String → AuditEntry → Type 0
IsOwn caller record_id e = (e.tenant_id ≡ trim_space caller) × (e.record_id ≡ trim_space record_id)

test-IsOwn :
    (caller record_id : String) (e : AuditEntry)
    → (e.tenant_id == trim_space caller && e.record_id == trim_space record_id) ≡ true
    → IsOwn caller record_id e
test-IsOwn caller record_id e t = (
  ground (arith, eq_iff e.tenant_id (trim_space caller)),
  ground (arith, eq_iff e.record_id (trim_space record_id)),
)

-- An audit trail that is read has only entries of the caller's tenant and of the record it names.
pub get_audit_trail-IsOwn :
    (s : RecordStore) (caller record_id : String) (l : List AuditEntry)
    → get_audit_trail s caller record_id ≡ ok l
    → All (IsOwn caller record_id) l
unfolding get_audit_trail
get_audit_trail-IsOwn s caller record_id l h = elim (Result-cases (get_record s caller record_id)) [
  | inr f ↦ absurd (ground (arith, rw (get_audit_trail, f.1) at h))
  | inl f ↦
      let kept =
        All-keep IsEntry (IsOwn caller record_id)
          (λ (e : AuditEntry).
            e.tenant_id == trim_space caller && e.record_id == trim_space record_id)
          s.audit_log (λ e t _. test-IsOwn caller record_id e t) (all-IsEntry s.audit_log) in
      subst (All (IsOwn caller record_id)) (ground (arith, rw (get_audit_trail, f.1) at h)) kept
]

join_shift : (a b c : String) → (a ++ ":" ++ b) ++ ":" ++ c ≡ a ++ ":" ++ (b ++ ":" ++ c)
join_shift a b c =
    append_assoc a (":" ++ b) (":" ++ c)
    ∙ ap (λ (v : String). a ++ v) (append_assoc ":" b (":" ++ c))

join_not_empty : (a b : String) → (a ++ ":" ++ b == "") ≡ false
join_not_empty a b = elim (Bool-cases (a ++ ":" ++ b == "")) [
  | inl e ↦
      let tail = (append-eq-nil_iff.0 ((eq_iff (a ++ ":" ++ b) "").0 e)).1 in
      absurd (cons≢nil (append-eq-nil_iff.0 tail).0)
  | inr e ↦ e
]

abbrev found : Option DeclaredRecord → Result RecordError DeclaredRecord
found none = err record_not_found
found (some rec) = ok rec

get_record-found :
    (s : RecordStore) (t r : String)
    → trim_space t ≡ t
    → trim_space r ≡ r
    → (t == "") ≡ false
    → (r == "") ≡ false
    → get_record s t r ≡ found (lookup (t ++ ":" ++ r) s.records)
unfolding get_record make_record_key
get_record-found s t r a b c d = rw (get_record, make_record_key, a, b, c, d, a, b) refl

-- A tenant `t` that reads the record `x:y` is given the record `y` of the tenant `t:x`, for names
-- without white space around them.
pub get_record_crosses_tenants :
    (s : RecordStore) (t x y : String)
    → trim_space t ≡ t
    → trim_space y ≡ y
    → trim_space (t ++ ":" ++ x) ≡ t ++ ":" ++ x
    → trim_space (x ++ ":" ++ y) ≡ x ++ ":" ++ y
    → (t == "") ≡ false
    → (y == "") ≡ false
    → get_record s t (x ++ ":" ++ y) ≡ get_record s (t ++ ":" ++ x) y
get_record_crosses_tenants s t x y a b c d e f =
    get_record-found s t (x ++ ":" ++ y) a d e (join_not_empty x y)
    ∙ ap (λ (k : String). found (lookup k s.records)) (sym (join_shift t x y))
    ∙ sym (get_record-found s (t ++ ":" ++ x) y c b (join_not_empty t x) f)
