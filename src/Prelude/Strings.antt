-- ===== src/Prelude/Strings.antt =====
-- What the Go code uses of `strings` and `fmt`. A Go string is the text that its bytes encode in
-- UTF-8, so `len` counts bytes and the loops over bytes that compare with ASCII see characters.
use Prim.Native.Nat.{ℕ, zero, suc, ◌+◌, ◌-◌, ◌/◌, ◌%◌, ◌^◌, ◌<◌}
use Prim.Native.Nat.add
use Prim.Native.Char.{Char, code}
use Prim.Native.String.{String, [], ◌∷◌, ◌++◌}
use mathlib.Core.Path.{◌≡◌, refl, ap, ◌∙◌}
use mathlib.Core.Logic.{inl, inr}
use mathlib.Core.Bool.{Bool, true, false, not, ◌&&◌, ◌||◌}
use text.Mathlib.TextLemmas.{nil-append, cons-append}
use native.Mathlib.Nat.{pow-suc}
use native.Mathlib.Omega.{arith}
use oshe_platform.Prelude.Tests.{ltb, leb, eqb, if◌then◌else◌, Bool-cases}

-- unicode.IsSpace
pub is_space : ℕ → Bool
is_space c =
    leb 9 c && leb c 13
    || eqb c 32
    || eqb c 0x85
    || eqb c 0xa0
    || eqb c 0x1680
    || leb 0x2000 c && leb c 0x200a
    || eqb c 0x2028
    || eqb c 0x2029
    || eqb c 0x202f
    || eqb c 0x205f
    || eqb c 0x3000

abbrev pub is_empty : String → Bool
is_empty [] = true
is_empty (_ ∷ _) = false

trim_left : String → String
trim_left [] = []
trim_left (c ∷ s) = if is_space (code c) then trim_left s else c ∷ s

abbrev push_left : Char → String → String
push_left c [] = if is_space (code c) then [] else c ∷ []
push_left c (d ∷ s) = c ∷ d ∷ s

trim_right : String → String
trim_right [] = []
trim_right (c ∷ s) = push_left c (trim_right s)

-- strings.TrimSpace
unfoldable pub trim_space : String → String
unfolding trim_left trim_right is_space
trim_space s = trim_right (trim_left s)

trim_right-push_left :
    (c : Char) (s : String) → trim_right s ≡ s → trim_right (push_left c s) ≡ push_left c s
unfolding trim_right
trim_right-push_left c [] h = elim (Bool-cases (is_space (code c))) [
  | inl e ↦ rw e
  | inr e ↦ rw e (rw e)
]
trim_right-push_left c (d ∷ s) h = ap (push_left c) h

trim_right-trim_right : (s : String) → trim_right (trim_right s) ≡ trim_right s
unfolding trim_right
trim_right-trim_right [] = refl
trim_right-trim_right (c ∷ s) = trim_right-push_left c (trim_right s) (trim_right-trim_right s)

trim_left-push_left :
    (c : Char) (s : String) → is_space (code c) ≡ false → trim_left (push_left c s) ≡ push_left c s
unfolding trim_left
trim_left-push_left c [] h = rw h (rw h)
trim_left-push_left c (d ∷ s) h = rw h

trim_left-trim_right :
    (s : String) → trim_left (trim_right (trim_left s)) ≡ trim_right (trim_left s)
unfolding trim_left trim_right
trim_left-trim_right [] = refl
trim_left-trim_right (c ∷ s) = elim (Bool-cases (is_space (code c))) [
  | inl e ↦ rw e (trim_left-trim_right s)
  | inr e ↦ rw e (trim_left-push_left c (trim_right s) e)
]

-- Trimming twice is trimming once.
pub trim_space-trim_space : (s : String) → trim_space (trim_space s) ≡ trim_space s
unfolding trim_space
trim_space-trim_space s =
    ap trim_right (trim_left-trim_right s) ∙ trim_right-trim_right (trim_left s)

digit : ℕ → String
digit n =
    if eqb n 0
    then "0"
    else if eqb n 1
    then "1"
    else if eqb n 2
    then "2"
    else if eqb n 3
    then "3"
    else if eqb n 4
    then "4"
    else if eqb n 5
    then "5"
    else if eqb n 6
    then "6"
    else if eqb n 7
    then "7"
    else if eqb n 8
    then "8"
    else "9"

-- The decimal digits of a number before those in `out`.
digits : ℕ → ℕ → String → String
digits zero n out = out
digits (suc f) n out =
    let rest = digits f (n / 10) (digit (n % 10) ++ out) in
    if ltb n 10 then digit n ++ out else rest

-- `%d` of a non-negative 64-bit integer: 20 digits suffice, and no fuel is left out.
unfoldable pub decimal : ℕ → String
unfolding digits digit
decimal n = digits 20 n ""

-- `%d` of the integer that a 64-bit pattern stands for.
unfoldable pub print_int : ℕ → String
unfolding decimal
print_int n = if ltb n (2 ^ 63) then decimal n else "-" ++ decimal (2 ^ 64 - n)

pow_step : (f n : ℕ) → n < 10 ^ suc (suc f) → n / 10 < 10 ^ suc f
pow_step f n h = omega (arith, pow-suc 10 (suc f))

-- With a round for each digit, more fuel gives the same text.
digits_fuel :
    (f k n : ℕ) (out : String) → n < 10 ^ suc f → digits (suc (f + k)) n out ≡ digits (suc f) n out
unfolding digits
digits_fuel zero k n out h = elim (Bool-cases (ltb n 10)) [
  | inl e ↦ rw e
  | inr e ↦ absurd (ground arith)
]
digits_fuel (suc f) k n out h =
    let ih = digits_fuel f k (n / 10) (digit (n % 10) ++ out) (pow_step f n h) in
    rw (add.suc f k) (rw ih)

-- A loop over the bytes that returns at the first one that fails the test.
unfoldable pub all_chars : (ℕ → Bool) → String → Bool
all_chars p [] = true
all_chars p (c ∷ s) = if p (code c) then all_chars p s else false

pub all_chars-append :
    (p : ℕ → Bool) (s t : String) → all_chars p (s ++ t) ≡ (all_chars p s && all_chars p t)
unfolding all_chars
all_chars-append p [] t = ap (all_chars p) (nil-append t)
all_chars-append p (c ∷ s) t = elim (Bool-cases (p (code c))) [
  | inl e ↦ rw cons-append (rw e (all_chars-append p s t))
  | inr e ↦ rw cons-append (rw e refl)
]

pub all_chars_weaken :
    (p q : ℕ → Bool)
    → ((c : ℕ) → p c ≡ true → q c ≡ true)
    → (s : String) → all_chars p s ≡ true
    → all_chars q s ≡ true
unfolding all_chars
all_chars_weaken p q f [] h = refl
all_chars_weaken p q f (c ∷ s) h = elim (Bool-cases (p (code c))) [
  | inl e ↦ rw (f (code c) e) (all_chars_weaken p q f s (rw e at h))
  | inr e ↦ absurd (ground (arith, rw e at h))
]

unfoldable pub is_visible : ℕ → Bool
unfolding is_space
is_visible c = not (is_space c)

pub visible_of_ascii : (c : ℕ) → (ltb 32 c && ltb c 128) ≡ true → is_visible c ≡ true
unfolding is_visible is_space
visible_of_ascii c h = ground arith

push_left_visible : (c : Char) (s : String) → is_space (code c) ≡ false → push_left c s ≡ c ∷ s
push_left_visible c [] e = rw e refl
push_left_visible c (d ∷ s) e = refl

trim_left_visible : (s : String) → all_chars is_visible s ≡ true → trim_left s ≡ s
unfolding all_chars trim_left is_visible
trim_left_visible [] h = refl
trim_left_visible (c ∷ s) h = elim (Bool-cases (is_space (code c))) [
  | inl e ↦ absurd (ground (arith, rw e at h))
  | inr e ↦ rw e refl
]

trim_right_visible : (s : String) → all_chars is_visible s ≡ true → trim_right s ≡ s
unfolding all_chars trim_right is_visible
trim_right_visible [] h = refl
trim_right_visible (c ∷ s) h = elim (Bool-cases (is_space (code c))) [
  | inl e ↦ absurd (ground (arith, rw e at h))
  | inr e ↦ ap (push_left c) (trim_right_visible s (rw e at h)) ∙ push_left_visible c s e
]

-- A text without white space is trimmed already.
pub trim_space_visible : (s : String) → all_chars is_visible s ≡ true → trim_space s ≡ s
unfolding trim_space
trim_space_visible s h = ap trim_right (trim_left_visible s h) ∙ trim_right_visible s h
