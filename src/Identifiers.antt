-- ===== src/Identifiers.antt =====
-- Identifiers and correlation contexts: packages/identifiers/identifiers.go and correlation.go.
pub mod Texts
pub mod Parsed
pub mod Generated
pub mod Correlation
pub mod RoundTrip
pub mod Ledger
pub mod References
mod Tests
use Prim.Native.Char.{Char, code}
use Prim.Native.String.{[], ◌∷◌, ◌++◌, len}
use oshe_platform.Prelude.{
  ℕ, zero, suc, ◌+◌, ◌/◌, ◌%◌, String, Bool, true, false, not, ◌&&◌, ◌||◌, Option, none, some, List,
  [], ◌∷◌, Result, ok, err, if◌then◌else◌, leb, eqb, ltb,
}
use oshe_platform.Prelude.Map.{string_eq, ◌==◌}
use oshe_platform.Prelude.Strings.{trim_space, all_chars}
use oshe_platform.Events.Identifier.{cut}

-- The errors that the code wraps are those that `errors.Is` finds first.
pub data IdError : Type 0 where
  empty_prefix invalid_prefix empty_id malformed_id prefix_mismatch no_entropy : IdError

-- `strings.Split(s, sep)`, for a separator of one character.
unfoldable pub prepend : Char → List String → List String
prepend c [] = []
prepend c (x ∷ xs) = (c ∷ x) ∷ xs

unfoldable pub split : ℕ → String → List String
unfolding prepend
split sep [] = "" ∷ []
split sep (c ∷ s) = let rest = split sep s in if eqb (code c) sep then "" ∷ rest else prepend c rest

-- `strings.SplitN(s, "_", 2)` has two parts where `cut` has a result.
unfoldable pub prefix : String → String
prefix id = elim (cut id) [ none ↦ "" | some (a, b) ↦ a ]

unfoldable pub suffix : String → String
suffix id = elim (cut id) [ none ↦ "" | some (a, b) ↦ b ]

unfoldable pub is_prefix_char : ℕ → Bool
is_prefix_char c = leb b'a' c && leb c b'z' || leb b'0' c && leb c b'9'

unfoldable pub validate_prefix : String → Option IdError
unfolding all_chars is_prefix_char
validate_prefix p =
    let trimmed = trim_space p in
    if trimmed == ""
    then some empty_prefix
    else if ltb (len trimmed) 2 || ltb 16 (len trimmed)
    then some invalid_prefix
    else if all_chars is_prefix_char trimmed
    then none
    else some invalid_prefix

-- The range table `unicode.Hex_Digit`: the ASCII digits and those of full width.
unfoldable pub is_hex_digit : ℕ → Bool
is_hex_digit c =
    leb b'0' c && leb c b'9'
    || leb b'A' c && leb c b'F'
    || leb b'a' c && leb c b'f'
    || leb 0xff10 c && leb c 0xff19
    || leb 0xff21 c && leb c 0xff26
    || leb 0xff41 c && leb c 0xff46

-- `unicode.IsUpper` of a hexadecimal digit.
unfoldable pub is_upper_hex : ℕ → Bool
is_upper_hex c = leb b'A' c && leb c b'F' || leb 0xff21 c && leb c 0xff26

unfoldable pub is_payload_digit : ℕ → Bool
unfolding is_hex_digit is_upper_hex
is_payload_digit c = not (not (is_hex_digit c) || is_upper_hex c)

unfoldable pub parse_parts : String → List String → Result IdError String
unfolding all_chars is_payload_digit
parse_parts trimmed (p ∷ payload ∷ []) = elim (validate_prefix p) [
  | some _ ↦ err malformed_id
  | none ↦
      if eqb (len payload) 0 || not (eqb (len payload % 2) 0)
      then err malformed_id
      else if all_chars is_payload_digit payload
      then ok trimmed
      else err malformed_id
]
parse_parts trimmed _ = err malformed_id

unfoldable pub parse : String → Result IdError String
unfolding parse_parts split
parse raw =
    let trimmed = trim_space raw in
    if trimmed == "" then err empty_id else parse_parts trimmed (split b'_' trimmed)

unfoldable pub parse_with_prefix : String → String → Result IdError String
unfolding parse prefix
parse_with_prefix raw expected = elim (validate_prefix expected) [
  | some x ↦ err x
  | none ↦ elim (parse raw) [
    | err x ↦ err x
    | ok id ↦ if prefix id == expected then ok id else err prefix_mismatch
  ]
]

-- The character at a position of the table, and `c` past its end, where no byte reaches.
unfoldable pub char_in : Char → String → ℕ → Char
char_in c [] n = c
char_in c (d ∷ s) zero = d
char_in c (d ∷ s) (suc n) = char_in c s n

-- A digit of `hex.EncodeToString`.
abbrev pub hex_digit : ℕ → Char
hex_digit n = char_in "0" "0123456789abcdef" n

unfoldable pub hex_encode : List ℕ → String
unfolding char_in
hex_encode [] = []
hex_encode (b ∷ bs) = hex_digit (b / 16) ∷ hex_digit (b % 16) ∷ hex_encode bs

-- The 16 bytes that `rand.Read` gives are an argument; `none` is its error.
unfoldable pub generate : String → Option (List ℕ) → Result IdError String
unfolding validate_prefix hex_encode
generate p entropy = elim (validate_prefix p) [
  | some x ↦ err x
  | none ↦ elim entropy [ none ↦ err no_entropy | some raw ↦ ok (p ++ "_" ++ hex_encode raw) ]
]
