-- ===== src/Events/Identifier/Format.antt =====
-- Which identifiers ValidatePrefixedID of modules/events-outbox-jobs/event_outbox.go accepts.
use Prim.Native.Char.{Char, code}
use Prim.Native.String.{[], ◌∷◌, ◌++◌}
use text.Mathlib.TextEquality.{Char-path}
use text.Mathlib.TextLemmas.{nil-append, cons-append}
use oshe_platform.Prelude.{
  ℕ, String, ◌≡◌, refl, sym, ap, ◌∙◌, Bool, true, false, not, none, some, ◌↔◌, inl, inr, arith, eqb,
  Bool-cases, Option-cases, eq_iff,
}
use oshe_platform.Prelude.Map.{beq_refl, string_eq, ◌==◌}
use oshe_platform.Prelude.Strings.{trim_space}
use oshe_platform.Prelude.Strings.{all_chars}
use oshe_platform.Events.Identifier.{cut, is_payload_char, check_parts, validate_prefixed_id}

pub underscore-append : (s : String) → "_" ++ s ≡ "_" ∷ s
underscore-append s = cons-append "_" [] s ∙ ap (λ (t : String). "_" ∷ t) (nil-append s)

pub underscore_of_code : (c : Char) (s : String) → eqb (code c) b'_' ≡ true → c ∷ s ≡ "_" ++ s
underscore_of_code c s h =
    let e : c ≡ "_" = Char-path c "_" (ground arith) in
    ap (λ (d : Char). d ∷ s) e ∙ sym (underscore-append s)

pub cut-append : (s a b : String) → cut s ≡ some (a, b) → s ≡ a ++ "_" ++ b
unfolding cut
cut-append [] a b h = cc
cut-append (c ∷ s) a b h = elim (Bool-cases (eqb (code c) b'_')) [
  | inl e ↦
      let pa : a ≡ [] = ground arith in
      let pb : b ≡ s = ground arith in rw (pa, pb) (rw nil-append (underscore_of_code c s e))
  | inr e ↦ elim (Option-cases (cut s)) [
    | inl n ↦ cc (rw (e, n) at h)
    | inr ((p, q), f) ↦
        let pa : a ≡ c ∷ p = ground arith in
        let pb : b ≡ q = ground arith in
        rw (pa, pb) (rw cons-append (ap (λ (t : String). c ∷ t) (cut-append s p q f)))
  ]
]

abbrev pub no_underscore : ℕ → Bool
no_underscore c = not (eqb c b'_')

pub cut_of_append :
    (a b : String) → all_chars no_underscore a ≡ true → cut (a ++ "_" ++ b) ≡ some (a, b)
unfolding cut all_chars
cut_of_append [] b h = rw nil-append (rw underscore-append refl)
cut_of_append (c ∷ a) b h = elim (Bool-cases (eqb (code c) b'_')) [
  | inl e ↦ absurd (ground arith)
  | inr e ↦ rw cons-append (rw e (rw (cut_of_append a b (ground arith)) refl))
]

-- The identifier is the prefix, an underscore and a payload that is not empty and has only
-- lowercase ASCII letters, digits, underscores and dashes.
pub record IsPrefixedId (raw prefix : String) : Type 0 where
  pub payload : String
  pub shape : trim_space raw ≡ prefix ++ "_" ++ payload
  pub given : (payload == "") ≡ false
  pub lawful : all_chars is_payload_char payload ≡ true

check_parts-none :
    (expected prefix payload : String)
    → check_parts expected prefix payload ≡ none
    → (prefix ≡ expected) × ((payload == "") ≡ false) × (all_chars is_payload_char payload ≡ true)
check_parts-none expected prefix payload h = (
  unfold check_parts in ground (arith, eq_iff prefix expected),
  unfold check_parts in ground arith,
  unfold check_parts in ground arith,
)

IsPrefixedId-of_none :
    (raw prefix : String) → validate_prefixed_id raw prefix ≡ none → IsPrefixedId raw prefix
unfolding validate_prefixed_id
IsPrefixedId-of_none raw prefix h = elim (Bool-cases (trim_space raw == "")) [
  | inl e ↦ absurd (ground arith)
  | inr e ↦ elim (Option-cases (cut (trim_space raw))) [
    | inl n ↦ absurd (ground arith)
    | inr ((a, b), f) ↦
        let (pa, given, lawful) = check_parts-none prefix a b (rw (e, f) at h) in
        record {
          payload = b;
          shape = cut-append (trim_space raw) a b f ∙ ap (λ (p : String). p ++ "_" ++ b) pa;
          given = given;
          lawful = lawful;
        }
  ]
]

check_parts_of_lawful :
    (prefix payload : String)
    → (prefix == "") ≡ false
    → (payload == "") ≡ false
    → all_chars is_payload_char payload ≡ true
    → check_parts prefix prefix payload ≡ none
unfolding check_parts
check_parts_of_lawful prefix payload p q l = rw (p, q, beq_refl prefix, l)

not_empty : (s : String) {a b : String} → cut s ≡ some (a, b) → (s == "") ≡ true → ⊥
unfolding cut
not_empty s f e = cc (ap cut ((eq_iff s "").0 e), f)

none_of_IsPrefixedId :
    (raw prefix : String)
    → (prefix == "") ≡ false
    → all_chars no_underscore prefix ≡ true
    → IsPrefixedId raw prefix
    → validate_prefixed_id raw prefix ≡ none
unfolding validate_prefixed_id
none_of_IsPrefixedId raw prefix p u h =
    let found : cut (trim_space raw) ≡ some (prefix, h.payload) =
      rw h.shape (cut_of_append prefix h.payload u) in
    elim (Bool-cases (trim_space raw == "")) [
      | inl e ↦ absurd (not_empty (trim_space raw) found e)
      | inr e ↦ rw (e, found) (check_parts_of_lawful prefix h.payload p h.given h.lawful)
    ]

-- For a prefix that is not empty and holds no underscore, as are the module's four, the validator
-- accepts exactly the texts that trim to the prefix, an underscore and a payload that is not empty
-- and has only lowercase ASCII letters, digits, underscores and dashes. So the payload may hold the
-- underscores and dashes that the comment on the code, lowercase alphanumeric, leaves out.
pub validate_prefixed_id_iff :
    (raw prefix : String)
    → (prefix == "") ≡ false
    → all_chars no_underscore prefix ≡ true
    → (validate_prefixed_id raw prefix ≡ none) ↔ IsPrefixedId raw prefix
validate_prefixed_id_iff raw prefix p u =
    (IsPrefixedId-of_none raw prefix, none_of_IsPrefixedId raw prefix p u)
