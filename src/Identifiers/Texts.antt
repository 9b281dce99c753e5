-- ===== src/Identifiers/Texts.antt =====
-- The texts that packages/identifiers/identifiers.go splits, joins and encodes.
use Prim.Native.Char.{Char, code, len_utf8, len_utf8_def, width}
use Prim.Native.Nat.{compare}
use Prim.Native.String.{[], ◌∷◌, ◌++◌, len}
use Prim.Native.String.len
use text.Mathlib.TextLemmas.{nil-append, cons-append}
use oshe_platform.Prelude.{
  ℕ, zero, suc, ◌*◌, ◌/◌, ◌%◌, String, ◌≡◌, refl, ap, ◌∙◌, Bool, true, List, [], ◌∷◌, length, eqb,
  ltb, arith, Bool-cases, inl, inr,
}
use oshe_platform.Prelude.Strings.{all_chars}
use oshe_platform.Events.Identifier.Format.{no_underscore, underscore-append}
use oshe_platform.Identifiers.{
  split, is_payload_digit, is_hex_digit, is_upper_hex, char_in, hex_digit, hex_encode, prepend,
}

split_plain : (s : String) → all_chars no_underscore s ≡ true → split b'_' s ≡ s ∷ []
unfolding split all_chars
split_plain [] h = refl
split_plain (c ∷ s) h = elim (Bool-cases (eqb (code c) b'_')) [
  | inl e ↦ absurd (ground (arith, rw e at h))
  | inr e ↦ rw e (ap (prepend c) (split_plain s (rw e at h)))
]

-- Two texts without an underscore come back from their join.
pub split_joined :
    (a b : String)
    → all_chars no_underscore a ≡ true
    → all_chars no_underscore b ≡ true
    → split b'_' (a ++ "_" ++ b) ≡ a ∷ b ∷ []
unfolding split all_chars
split_joined [] b h k = rw nil-append (rw underscore-append (ap (λ l. "" ∷ l) (split_plain b k)))
split_joined (c ∷ a) b h k = elim (Bool-cases (eqb (code c) b'_')) [
  | inl e ↦ absurd (ground (arith, rw e at h))
  | inr e ↦ rw cons-append (rw e (ap (prepend c) (split_joined a b (rw e at h) k)))
]

-- What holds of the characters of a table and of its default holds of a character in it.
char_in_step :
    (p : ℕ → Bool) (c d : Char) (s : String) (n : ℕ)
    → p (code d) ≡ true
    → ((m : ℕ) → p (code (char_in c s m)) ≡ true)
    → p (code (char_in c (d ∷ s) n)) ≡ true
unfolding char_in
char_in_step p c d s zero e f = e
char_in_step p c d s (suc m) e f = f m

char_in_lawful :
    (p : ℕ → Bool) (c : Char) (s : String) (n : ℕ)
    → p (code c) ≡ true
    → all_chars p s ≡ true
    → p (code (char_in c s n)) ≡ true
unfolding char_in all_chars
char_in_lawful p c [] n h k = h
char_in_lawful p c (d ∷ s) n h k = elim (Bool-cases (p (code d))) [
  | inr e ↦ absurd (ground (arith, rw e at k))
  | inl e ↦ char_in_step p c d s n e (λ m. char_in_lawful p c s m h (rw e at k))
]

pub is_ascii : ℕ → Bool
is_ascii c = ltb c 128

width_of_ascii :
    (n : ℕ) → is_ascii n ≡ true → width (compare n 128) (compare n 2048) (compare n 65536) ≡ 1
unfolding is_ascii
width_of_ascii n h = ground (arith, h)

pub len_utf8_ascii : (c : Char) → is_ascii (code c) ≡ true → len_utf8 c ≡ 1
unfolding is_ascii
len_utf8_ascii c h = len_utf8_def c ∙ width_of_ascii (code c) h

len_hex_digit : (n : ℕ) → len_utf8 (hex_digit n) ≡ 1
unfolding is_ascii all_chars
len_hex_digit n =
    len_utf8_ascii (hex_digit n) (char_in_lawful is_ascii "0" "0123456789abcdef" n refl refl)

hex_digit_lawful : (n : ℕ) → is_payload_digit (code (hex_digit n)) ≡ true
unfolding is_payload_digit is_hex_digit is_upper_hex all_chars
hex_digit_lawful n = char_in_lawful is_payload_digit "0" "0123456789abcdef" n refl refl

pub len-hex_encode : (bs : List ℕ) → len (hex_encode bs) ≡ 2 * length bs
unfolding hex_encode
len-hex_encode [] = refl
len-hex_encode (b ∷ bs) =
    len.cons (hex_digit (b / 16)) (hex_digit (b % 16) ∷ hex_encode bs)
    ∙ omega (
      arith,
      len.cons (hex_digit (b % 16)) (hex_encode bs),
      len_hex_digit (b / 16),
      len_hex_digit (b % 16),
      len-hex_encode bs,
    )

pub hex_encode_lawful : (bs : List ℕ) → all_chars is_payload_digit (hex_encode bs) ≡ true
unfolding hex_encode all_chars
hex_encode_lawful [] = refl
hex_encode_lawful (b ∷ bs) =
    rw (hex_digit_lawful (b / 16)) (rw (hex_digit_lawful (b % 16)) (hex_encode_lawful bs))
