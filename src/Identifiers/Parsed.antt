-- ===== src/Identifiers/Parsed.antt =====
-- Which texts Parse of packages/identifiers/identifiers.go accepts.
use Prim.Native.Char.{Char, code}
use Prim.Native.String.{[], ◌∷◌, ◌++◌, len}
use text.Mathlib.TextLemmas.{nil-append, cons-append}
use oshe_platform.Prelude.{
  ℕ, ◌%◌, ◌≤◌, ◌<◌, String, ◌≡◌, refl, sym, ap, ◌∙◌, true, ◌↔◌, none, List, [], ◌∷◌, ok, eqb, arith,
  Bool-cases, Option-cases, eq_iff, inl, inr,
}
use oshe_platform.Prelude.Map.{string_eq, ◌==◌}
use oshe_platform.Prelude.Strings.{all_chars, trim_space, all_chars_weaken}
use oshe_platform.Events.Identifier.Format.{no_underscore, underscore-append, underscore_of_code}
use oshe_platform.Identifiers.{
  split, is_prefix_char, is_payload_digit, is_hex_digit, is_upper_hex, prepend, validate_prefix,
  parse_parts, parse,
}
use oshe_platform.Identifiers.Texts.{split_joined}

-- The identifier is a prefix, an underscore and a payload: the prefix has, once trimmed, 2 to 16
-- characters, all lowercase ASCII letters or digits, and the payload has an even number of bytes,
-- is not empty and has only hexadecimal digits that are not upper-case.
pub record IsIdentifier (id : String) : Type 0 where
  pub before : String
  pub payload : String
  pub shape : id ≡ before ++ "_" ++ payload
  pub plain : all_chars no_underscore before ≡ true
  pub at_least : 2 ≤ len (trim_space before)
  pub at_most : len (trim_space before) ≤ 16
  pub lawful : all_chars is_prefix_char (trim_space before) ≡ true
  pub given : 0 < len payload
  pub even : len payload % 2 ≡ 0
  pub digits : all_chars is_payload_digit payload ≡ true

prepend_parts :
    (c : Char) (l : List String) (b : String) (r : List String)
    → prepend c l ≡ b ∷ r
    → (a : String) × (b ≡ c ∷ a) × (l ≡ a ∷ r)
unfolding prepend
prepend_parts c [] b r h = absurd (cc h)
prepend_parts c (x ∷ xs) b r h = (x, cc h, cc h)

prepend_not_empty : (c : Char) (l : List String) → (l ≡ [] → ⊥) → prepend c l ≡ [] → ⊥
unfolding prepend
prepend_not_empty c [] f h = f refl
prepend_not_empty c (x ∷ xs) f h = cc h

split_not_empty : (s : String) → split b'_' s ≡ [] → ⊥
unfolding split
split_not_empty [] h = cc h
split_not_empty (c ∷ s) h = elim (Bool-cases (eqb (code c) b'_')) [
  | inl e ↦ cc (rw e at h)
  | inr e ↦ prepend_not_empty c (split b'_' s) (split_not_empty s) (rw e at h)
]

split_one : (s b : String) → split b'_' s ≡ b ∷ [] → (s ≡ b) × (all_chars no_underscore s ≡ true)
unfolding split prepend all_chars
split_one [] b h = (cc, refl)
split_one (c ∷ s) b h = elim (Bool-cases (eqb (code c) b'_')) [
  | inl e ↦ absurd (split_not_empty s (ground (arith, rw e at h)))
  | inr e ↦
      let (a, first, rest) = prepend_parts c (split b'_' s) b [] (rw e at h) in
      let (same, none_left) = split_one s a rest in
      (ap (λ (t : String). c ∷ t) same ∙ sym first, rw e none_left)
]

split_two :
    (s a b : String)
    → split b'_' s ≡ a ∷ b ∷ []
    → (s ≡ a ++ "_" ++ b) × (all_chars no_underscore a ≡ true)
unfolding split prepend all_chars
split_two [] a b h = absurd (cc h)
split_two (c ∷ s) a b h = elim (Bool-cases (eqb (code c) b'_')) [
  | inl e ↦
      let first : a ≡ "" = cc (rw e at h) in
      let rest : split b'_' s ≡ b ∷ [] = cc (rw e at h) in
      (
        rw first (
            rw nil-append
              (underscore_of_code c s e ∙ ap (λ (t : String). "_" ++ t) (split_one s b rest).0)),
        rw first refl,
      )
  | inr e ↦
      let (front, first, rest) = prepend_parts c (split b'_' s) a (b ∷ []) (rw e at h) in
      let (same, plain) = split_two s front b rest in
      (rw first (rw cons-append (ap (λ (t : String). c ∷ t) same)), rw first (rw e plain))
]

unfoldable pub IsPrefix : String → Type 0
IsPrefix p =
    (2 ≤ len (trim_space p))
    × (len (trim_space p) ≤ 16)
    × (all_chars is_prefix_char (trim_space p) ≡ true)

pub validate_prefix-none : (p : String) → validate_prefix p ≡ none → IsPrefix p
unfolding IsPrefix validate_prefix
validate_prefix-none p h = elim (Bool-cases (trim_space p == "")) [
  | inl e ↦ absurd (ground (arith, rw e at h))
  | inr e ↦ (ground (arith, rw e at h), ground (arith, rw e at h), ground (arith, rw e at h))
]

pub none_of_IsPrefix : (p : String) → IsPrefix p → validate_prefix p ≡ none
unfolding IsPrefix validate_prefix
none_of_IsPrefix p (low, high, lawful) = elim (Bool-cases (trim_space p == "")) [
  | inl e ↦ absurd (ground (arith, low, ap len ((eq_iff (trim_space p) "").0 e)))
  | inr e ↦ rw e (ground (arith, low, high, lawful))
]

parse_parts-ok :
    (t id : String) (l : List String)
    → parse_parts t l ≡ ok id
    → split b'_' t ≡ l
    → (id ≡ t) × IsIdentifier t
unfolding parse_parts IsPrefix
parse_parts-ok t id [] h k = absurd (cc h)
parse_parts-ok t id (a ∷ []) h k = absurd (cc h)
parse_parts-ok t id (a ∷ b ∷ c ∷ l) h k = absurd (cc h)
parse_parts-ok t id (a ∷ b ∷ []) h k = elim (Option-cases (validate_prefix a)) [
  | inr e ↦ absurd (ground (arith, rw (parse_parts, e.1) at h))
  | inl e ↦
      let g = rw (parse_parts, e) at h in
      let (low, high, lawful) = validate_prefix-none a e in
      let (shape, plain) = split_two t a b k in
      (
        ground (arith, g),
        record {
          before = a;
          payload = b;
          shape = shape;
          plain = plain;
          at_least = low;
          at_most = high;
          lawful = lawful;
          given = ground (arith, g);
          even = ground (arith, g);
          digits = ground (arith, g);
        },
      )
]

parse-ok :
    (raw id : String) → parse raw ≡ ok id → (id ≡ trim_space raw) × IsIdentifier (trim_space raw)
unfolding parse
parse-ok raw id h = elim (Bool-cases (trim_space raw == "")) [
  | inl e ↦ absurd (ground (arith, rw e at h))
  | inr e ↦ parse_parts-ok (trim_space raw) id (split b'_' (trim_space raw)) (rw e at h) refl
]

pub payload_plain : (c : ℕ) → is_payload_digit c ≡ true → no_underscore c ≡ true
unfolding is_payload_digit is_hex_digit is_upper_hex
payload_plain c h = ground (arith, h)

parse_parts_of_IsIdentifier :
    (t : String) (d : IsIdentifier t) → parse_parts t (d.before ∷ d.payload ∷ []) ≡ ok t
unfolding parse_parts IsPrefix
parse_parts_of_IsIdentifier t d =
    rw (parse_parts, none_of_IsPrefix d.before (d.at_least, d.at_most, d.lawful))
      (ground (arith, d.given, d.even, d.digits))

joined_not_empty : (a b : String) → a ++ "_" ++ b ≡ "" → ⊥
joined_not_empty [] b h = cc (sym (underscore-append b) ∙ sym (nil-append ("_" ++ b)) ∙ h)
joined_not_empty (c ∷ a) b h = cc (sym (cons-append c a ("_" ++ b)) ∙ h)

pub parse_of_IsIdentifier :
    (raw : String) → IsIdentifier (trim_space raw) → parse raw ≡ ok (trim_space raw)
unfolding parse
parse_of_IsIdentifier raw d = elim (Bool-cases (trim_space raw == "")) [
  | inl e ↦
      absurd (joined_not_empty d.before d.payload (sym d.shape ∙ (eq_iff (trim_space raw) "").0 e))
  | inr e ↦ rw e (
      ap (λ t. parse_parts (trim_space raw) (split b'_' t)) d.shape
      ∙ ap (parse_parts (trim_space raw)) (
          split_joined d.before d.payload d.plain
            (all_chars_weaken is_payload_digit no_underscore payload_plain d.payload d.digits))
      ∙ parse_parts_of_IsIdentifier (trim_space raw) d)
]

-- Parse accepts exactly the texts that trim to an identifier, and returns what they trim to.
pub parse_iff :
    (raw id : String)
    → (parse raw ≡ ok id) ↔ ((id ≡ trim_space raw) × IsIdentifier (trim_space raw))
parse_iff raw id = (parse-ok raw id, λ (same, d). parse_of_IsIdentifier raw d ∙ ap ok (sym same))
