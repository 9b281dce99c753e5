-- ===== src/Identifiers/Generated.antt =====
-- What Parse of packages/identifiers/identifiers.go makes of the identifiers that Generate makes.
use Prim.Native.String.{◌++◌}
use mathlib.Core.Path.{subst}
use oshe_platform.Prelude.{
  ℕ, String, ◌≡◌, refl, sym, ap, ◌∙◌, true, none, some, List, length, ok, arith, Option-cases, inl,
  inr,
}
use oshe_platform.Prelude.Map.{string_eq, beq_refl}
use oshe_platform.Prelude.Strings.{
  all_chars, trim_space, is_visible, visible_of_ascii, trim_space_visible, all_chars-append,
  all_chars_weaken,
}
use oshe_platform.Events.Identifier.Format.{no_underscore, cut_of_append}
use oshe_platform.Identifiers.{
  prefix, suffix, is_prefix_char, is_payload_digit, is_hex_digit, is_upper_hex, validate_prefix,
  parse, parse_with_prefix, hex_encode, generate,
}
use oshe_platform.Identifiers.Texts.{len-hex_encode, hex_encode_lawful}
use oshe_platform.Identifiers.Parsed.{
  IsIdentifier, IsPrefix, validate_prefix-none, parse_of_IsIdentifier,
}

prefix_char_plain : (c : ℕ) → is_prefix_char c ≡ true → no_underscore c ≡ true
unfolding is_prefix_char
prefix_char_plain c h = ground (arith, h)

prefix_char_visible : (c : ℕ) → is_prefix_char c ≡ true → is_visible c ≡ true
unfolding is_prefix_char
prefix_char_visible c h = visible_of_ascii c (ground (arith, h))

pub payload_digit_visible : (c : ℕ) → is_payload_digit c ≡ true → is_visible c ≡ true
unfolding is_payload_digit is_hex_digit is_upper_hex is_visible
payload_digit_visible c h = ground (arith, h)

joined_visible :
    (p b : String)
    → all_chars is_prefix_char p ≡ true
    → all_chars is_payload_digit b ≡ true
    → trim_space (p ++ "_" ++ b) ≡ p ++ "_" ++ b
unfolding all_chars is_visible
joined_visible p b h k =
    let left = all_chars_weaken is_prefix_char is_visible prefix_char_visible p h in
    let right = all_chars_weaken is_payload_digit is_visible payload_digit_visible b k in
    trim_space_visible (p ++ "_" ++ b) (
      all_chars-append is_visible p ("_" ++ b)
      ∙ rw (left, all_chars-append is_visible "_" b, right) refl)

generated_IsIdentifier :
    (p : String) (raw : List ℕ)
    → trim_space p ≡ p
    → length raw ≡ 16
    → validate_prefix p ≡ none
    → IsIdentifier (p ++ "_" ++ hex_encode raw)
unfolding IsPrefix
generated_IsIdentifier p raw trimmed n v =
    let (low, high, lawful) = validate_prefix-none p v in
    record {
      before = p;
      payload = hex_encode raw;
      shape = refl;
      plain =
          all_chars_weaken is_prefix_char no_underscore prefix_char_plain p (rw trimmed at lawful);
      at_least = low;
      at_most = high;
      lawful = lawful;
      given = omega (arith, len-hex_encode raw, n);
      even = omega (arith, len-hex_encode raw, n);
      digits = hex_encode_lawful raw;
    }

generate-ok :
    (p : String) (raw : List ℕ) (id : String)
    → generate p (some raw) ≡ ok id
    → (validate_prefix p ≡ none) × (id ≡ p ++ "_" ++ hex_encode raw)
unfolding generate
generate-ok p raw id h = elim (Option-cases (validate_prefix p)) [
  | inr e ↦ absurd (ground (arith, rw (generate, e.1) at h))
  | inl e ↦ (e, ground (arith, rw (generate, e) at h))
]

parts_of_joined :
    (p b : String)
    → all_chars no_underscore p ≡ true
    → (prefix (p ++ "_" ++ b) ≡ p) × (suffix (p ++ "_" ++ b) ≡ b)
unfolding prefix suffix
parts_of_joined p b h =
    (rw (prefix, cut_of_append p b h) refl, rw (suffix, cut_of_append p b h) refl)

pub parse_with_prefix_ok :
    (raw p id : String)
    → validate_prefix p ≡ none
    → parse raw ≡ ok id
    → prefix id ≡ p
    → parse_with_prefix raw p ≡ ok id
unfolding parse_with_prefix
parse_with_prefix_ok raw p id v h same = rw (parse_with_prefix, v, h) (rw (same, beq_refl p) refl)

parse_joined :
    (p : String) (raw : List ℕ)
    → trim_space p ≡ p
    → length raw ≡ 16
    → validate_prefix p ≡ none
    → (parse (p ++ "_" ++ hex_encode raw) ≡ ok (p ++ "_" ++ hex_encode raw))
      × (parse_with_prefix (p ++ "_" ++ hex_encode raw) p ≡ ok (p ++ "_" ++ hex_encode raw))
      × (prefix (p ++ "_" ++ hex_encode raw) ≡ p)
      × (suffix (p ++ "_" ++ hex_encode raw) ≡ hex_encode raw)
unfolding IsPrefix
parse_joined p raw trimmed n v =
    let t = p ++ "_" ++ hex_encode raw in
    let d = generated_IsIdentifier p raw trimmed n v in
    let (first, last) = parts_of_joined p (hex_encode raw) (
      all_chars_weaken is_prefix_char no_underscore prefix_char_plain p
        (rw trimmed at (validate_prefix-none p v).2)) in
    let (low, high, lawful) = validate_prefix-none p v in
    let clean = joined_visible p (hex_encode raw) (rw trimmed at lawful) (hex_encode_lawful raw) in
    let accepted : parse t ≡ ok t =
      parse_of_IsIdentifier t (subst IsIdentifier (sym clean) d) ∙ ap ok clean in
    (accepted, parse_with_prefix_ok t p t v accepted first, first, last)

-- An identifier that Generate makes for a prefix without surrounding white space is accepted as it
-- is by Parse, and by ParseWithPrefix for that prefix, and its Prefix and Suffix are the prefix and
-- the hexadecimal digits of the 16 random bytes.
pub parse-generate :
    (p : String) (raw : List ℕ) (id : String)
    → trim_space p ≡ p
    → length raw ≡ 16
    → generate p (some raw) ≡ ok id
    → (parse id ≡ ok id)
      × (parse_with_prefix id p ≡ ok id)
      × (prefix id ≡ p)
      × (suffix id ≡ hex_encode raw)
parse-generate p raw id trimmed n h =
    let (v, same) = generate-ok p raw id h in
    subst
      (λ (t : String).
        (parse t ≡ ok t)
        × (parse_with_prefix t p ≡ ok t)
        × (prefix t ≡ p)
        × (suffix t ≡ hex_encode raw))
      (sym same) (parse_joined p raw trimmed n v)
