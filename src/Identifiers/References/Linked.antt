-- ===== src/Identifiers/References/Linked.antt =====
-- The two indexes of packages/identifiers/external_reference.go agree.
use text.Mathlib.TextLemmas.{cons-append, cons-ne-nil}
use Prim.Native.String.{◌++◌}
use oshe_platform.Prelude.{
  ℕ, String, ◌≡◌, refl, sym, ◌∙◌, false, Option, none, some, List, [], ◌∷◌, Result, ok, err,
  if◌then◌else◌, arith, Bool-cases, Option-cases, eq_iff, inl, inr,
}
use oshe_platform.Prelude.Map.{lookup, insert, string_eq, ◌==◌, lookup-insert_same}
use oshe_platform.Prelude.Strings.{
  trim_space, all_chars, all_chars-append, all_chars_weaken, is_visible, trim_space_visible,
}
use oshe_platform.Identifiers.{hex_encode}
use oshe_platform.Identifiers.Texts.{hex_encode_lawful}
use oshe_platform.Identifiers.Generated.{payload_digit_visible}
use oshe_platform.Identifiers.References.{
  ReferenceError, OpaqueReference, ReferenceEntry, ExternalReferenceRegistry, make_token_key,
  generate_lookup_token, public_reference, check_register, new_entry, key_of, register,
  reference_conflict, no_token_entropy,
}

-- The entry is found under its token, which ResolveInternal reads as it is.
pub record Found (r : ExternalReferenceRegistry) (e : ReferenceEntry) : Type 0 where
  pub by_token : lookup (make_token_key e.tenant_id e.lookup_token) r.by_lookup_token ≡ some e
  pub clean : trim_space e.lookup_token ≡ e.lookup_token
  pub given : (e.lookup_token == "") ≡ false

unfoldable pub IsLinked : ExternalReferenceRegistry → Type 0
IsLinked r = (k : String) (e : ReferenceEntry) → lookup k r.by_ext_key ≡ some e → Found r e

-- What a registration does.
pub data Step (r : ExternalReferenceRegistry) : ExternalReferenceRegistry → Type 0 where
  unchanged : Step r r
  adds :
      (key token : String) (e : ReferenceEntry)
      → lookup key r.by_ext_key ≡ none
      → token ≡ make_token_key e.tenant_id e.lookup_token
      → lookup token r.by_lookup_token ≡ none
      → trim_space e.lookup_token ≡ e.lookup_token
      → (e.lookup_token == "") ≡ false
      → Step r (record {
        by_ext_key = insert key e r.by_ext_key;
        by_lookup_token = insert token e r.by_lookup_token;
      })

-- A registration: the arguments, and the bytes that the generator gives.
pub record Registration : Type 0 where
  pub tenant : String
  pub system : String
  pub external : String
  pub internal : String
  pub entropy : Option (List ℕ)

abbrev pub apply : ExternalReferenceRegistry → Registration → ExternalReferenceRegistry
apply r c = (register r c.tenant c.system c.external c.internal c.entropy).0

unfoldable pub run : ExternalReferenceRegistry → List Registration → ExternalReferenceRegistry
run r [] = r
run r (c ∷ cs) = run (apply r c) cs

-- The generator gives no token that the tenant has already.
abbrev pub FreshToken : ExternalReferenceRegistry → String → Option String → Type 0
FreshToken r tenant none = Unit
FreshToken r tenant (some token) =
    lookup (make_token_key (trim_space tenant) token) r.by_lookup_token ≡ none

abbrev pub FreshTokens : ExternalReferenceRegistry → List Registration → Type 0
FreshTokens r [] = Unit
FreshTokens r (c ∷ cs) =
    FreshToken r c.tenant (generate_lookup_token c.entropy) × FreshTokens (apply r c) cs

token_clean : (raw : List ℕ) → trim_space ("ref_" ++ hex_encode raw) ≡ "ref_" ++ hex_encode raw
unfolding all_chars is_visible
token_clean raw = trim_space_visible ("ref_" ++ hex_encode raw) (
    all_chars-append is_visible "ref_" (hex_encode raw)
    ∙ all_chars_weaken _ is_visible payload_digit_visible (hex_encode raw) (hex_encode_lawful raw))

-- A registration that succeeds leaves an entry under its key, the entry that the reference shows.
pub record Registered (r : ExternalReferenceRegistry) (key internal : String)
    (ref : OpaqueReference) : Type 0 where
  pub entry : ReferenceEntry
  pub found : lookup key r.by_ext_key ≡ some entry
  pub bound : entry.internal_id ≡ internal
  pub shown : public_reference entry ≡ ref

-- What holds of a registration's result.
unfoldable pub Registers :
    ExternalReferenceRegistry
    → String
    → String
    → ExternalReferenceRegistry × Result ReferenceError OpaqueReference
    → Type 0
Registers r key internal (r', result) =
    Step r r' × ((ref : OpaqueReference) → result ≡ ok ref → Registered r' key internal ref)

known_Registers :
    (r : ExternalReferenceRegistry) (key internal : String) (e : ReferenceEntry)
    → lookup key r.by_ext_key ≡ some e
    → Registers r key internal
        (r, (if e.internal_id == internal then ok (public_reference e) else err reference_conflict))
unfolding Registers
known_Registers r key internal e h = (
  unchanged,
  λ ref shown. elim (Bool-cases (e.internal_id == internal)) [
    | inr f ↦ absurd (ground (arith, rw f at shown))
    | inl f ↦ record {
      entry = e;
      found = h;
      bound = (eq_iff e.internal_id internal).0 f;
      shown = ground (arith, rw f at shown);
    }
  ],
)

token_given : (raw : List ℕ) → ("ref_" ++ hex_encode raw == "") ≡ false
token_given raw = elim (Bool-cases ("ref_" ++ hex_encode raw == "")) [
  | inr e ↦ e
  | inl e ↦ absurd (
      cons-ne-nil "r" ("ef_" ++ hex_encode raw)
        (sym (cons-append "r" "ef_" (hex_encode raw)) ∙ (eq_iff ("ref_" ++ hex_encode raw) "").0 e))
]

new_Registers :
    (r : ExternalReferenceRegistry) (tenant system external internal : String)
    (entropy : Option (List ℕ))
    → FreshToken r tenant (generate_lookup_token entropy)
    → lookup (key_of tenant system external) r.by_ext_key ≡ none
    → Registers r (key_of tenant system external) internal (elim (generate_lookup_token entropy) [
      | none ↦ (r, err no_token_entropy)
      | some token ↦
          let entry = new_entry tenant system external internal token in
          (
            record {
              by_ext_key = insert (key_of tenant system external) entry r.by_ext_key;
              by_lookup_token =
                  insert (make_token_key (trim_space tenant) token) entry r.by_lookup_token;
            },
            ok (public_reference entry),
          )
    ])
unfolding Registers
new_Registers r tenant system external internal none fresh f = (unchanged, λ ref h. absurd (cc h))
new_Registers r tenant system external internal (some raw) fresh f =
    let token = "ref_" ++ hex_encode raw in
    let e = new_entry tenant system external internal token in
    (
      adds (key_of tenant system external) (make_token_key (trim_space tenant) token) e f refl fresh
          (token_clean raw) (token_given raw),
      λ ref h. record {
        entry = e;
        found = lookup-insert_same (key_of tenant system external) e r.by_ext_key;
        bound = refl;
        shown = cc h;
      },
    )

pub register-Registers :
    (r : ExternalReferenceRegistry) (tenant system external internal : String)
    (entropy : Option (List ℕ))
    → FreshToken r tenant (generate_lookup_token entropy)
    → Registers r
        (key_of tenant system external)
        internal
        (register r tenant system external internal entropy)
unfolding register Registers
register-Registers r tenant system external internal entropy fresh =
    elim (Option-cases (check_register tenant system external internal)) [
      | inr e ↦ rw (register, e.1) (unchanged, λ ref h. absurd (cc h))
      | inl e ↦ elim (Option-cases (lookup (key_of tenant system external) r.by_ext_key)) [
        | inr (x, f) ↦
            rw (register, e, f) (known_Registers r (key_of tenant system external) internal x f)
        | inl f ↦
            rw (register, e, f) (new_Registers r tenant system external internal entropy fresh f)
      ]
    ]
