-- ===== src/Prelude/Map.antt =====
-- Go maps as association lists, over any key type with a Boolean equality. `insert` is
-- `m[k] = v` and `lookup` is `v, ok := m[k]`.
use mathlib.Core.Path.{◌≡◌, refl, ◌∙◌}
use mathlib.Core.Logic.{◌↔◌, ◌⊎◌, inl, inr}
use mathlib.Core.Bool.{Bool, true, false, not}
use mathlib.Core.List.{List, [], ◌∷◌}
use mathlib.Core.Option.{Option, none, some}
use Prim.Native.Nat.{ℕ}
use Prim.Native.String.{String}
use text.Mathlib.Text.{◌==◌ as text_eq}
use text.Mathlib.TextEquality.{eq_iff}
use native.Mathlib.Omega.{arith}
use oshe_platform.Prelude.Tests.{eqb, if◌then◌else◌, Bool-cases}

pub record Eq {ℓ} (K : Type ℓ) : Type ℓ where
  pub beq : K → K → Bool
  pub beq_iff : (a b : K) → (beq a b ≡ true) ↔ (a ≡ b)

instance abbrev pub string_eq : Eq String
string_eq = record { beq = text_eq; beq_iff = eq_iff }

pub eqb_iff : (a b : ℕ) → (eqb a b ≡ true) ↔ (a ≡ b)
eqb_iff a b = ground arith

instance abbrev pub nat_eq : Eq ℕ
nat_eq = record { beq = eqb; beq_iff = eqb_iff }

infix 50 ◌==◌
abbrev pub ◌==◌ {ℓ} : {K : Type ℓ} ⦃e : Eq K⦄ → K → K → Bool
◌==◌ ⦃e⦄ = e.beq

pub record Map {ℓ κ} (K : Type ℓ) (V : Type κ) : Type (ℓ ⊔ κ) where
  pub entries : List (K × V)

module _ {ℓ κ} {K : Type ℓ} {V : Type κ} ⦃e : Eq K⦄ where
  find_entry : K → List (K × V) → Option V
  find_entry k [] = none
  find_entry k ((j, v) ∷ l) = if j == k then some v else find_entry k l

  put_entry : K → V → List (K × V) → List (K × V)
  put_entry k v [] = (k, v) ∷ []
  put_entry k v ((j, w) ∷ l) = if j == k then (k, v) ∷ l else (j, w) ∷ put_entry k v l

  unfoldable pub lookup : K → Map K V → Option V
  unfolding find_entry
  lookup k m = find_entry k m.entries

  unfoldable pub insert : K → V → Map K V → Map K V
  unfolding put_entry
  insert k v m = record { entries = put_entry k v m.entries }

  find_entry-put_entry :
      (k j : K) (v : V) (l : List (K × V))
      → find_entry j (put_entry k v l) ≡ (if k == j then some v else find_entry j l)
  unfolding find_entry put_entry
  find_entry-put_entry k j v [] = refl
  find_entry-put_entry k j v ((i, w) ∷ l) =
      ground (arith, e.beq_iff k j, e.beq_iff i k, e.beq_iff i j, find_entry-put_entry k j v l)

  pub lookup-insert :
      (k j : K) (v : V) (m : Map K V)
      → lookup j (insert k v m) ≡ (if k == j then some v else lookup j m)
  unfolding lookup insert
  lookup-insert k j v m = find_entry-put_entry k j v m.entries

-- Where a value that is found after a write comes from.
pub lookup-insert_cases {ℓ κ} :
    {K : Type ℓ} {V : Type κ} ⦃e : Eq K⦄ (k j : K) (v : V) {w : V} (m : Map K V)
    → lookup j (insert k v m) ≡ some w
    → ((k ≡ j) × (v ≡ w)) ⊎ (((k == j) ≡ false) × (lookup j m ≡ some w))
lookup-insert_cases ⦃e⦄ k j v m h =
    let found = rw lookup-insert at h in
    elim (Bool-cases (k == j)) [
      | inl same ↦ inl ((e.beq_iff k j).0 same, cc (rw same at found))
      | inr apart ↦ inr (apart, rw apart at found)
    ]

pub beq_refl {ℓ} : {K : Type ℓ} ⦃e : Eq K⦄ (k : K) → (k == k) ≡ true
beq_refl ⦃e⦄ k = (e.beq_iff k k).1 refl

module _ {ℓ κ} {K : Type ℓ} {V : Type κ} ⦃e : Eq K⦄ where
  pub lookup-insert_same : (k : K) (v : V) (m : Map K V) → lookup k (insert k v m) ≡ some v
  lookup-insert_same k v m = lookup-insert k k v m ∙ rw (beq_refl k) refl

  pub lookup-insert_other :
      (k j : K) (v : V) (m : Map K V) → (k == j) ≡ false → lookup j (insert k v m) ≡ lookup j m
  lookup-insert_other k j v m apart = lookup-insert k j v m ∙ rw apart refl

abbrev pub empty {ℓ κ} : {K : Type ℓ} {V : Type κ} → Map K V
empty = record { entries = [] }

pub lookup-empty {ℓ κ} :
    {K : Type ℓ} {V : Type κ} ⦃e : Eq K⦄ (k : K) → lookup k (empty {K = K} {V = V}) ≡ none
unfolding lookup
lookup-empty k = refl

-- What is left where a test for different texts fails.
pub same_text : (a b : String) → not (a == b) ≡ false → a ≡ b
same_text a b h = ground (arith, eq_iff a b)
