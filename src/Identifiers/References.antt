-- ===== src/Identifiers/References.antt =====
-- The registry of packages/identifiers/external_reference.go.
pub mod Linked
pub mod Kept
pub mod Resolved
use Prim.Native.String.{◌++◌}
use oshe_platform.Prelude.{
  ℕ, String, Bool, true, false, not, ◌&&◌, ◌||◌, Option, none, some, List, [], ◌∷◌, Result, ok, err,
  if◌then◌else◌,
}
use oshe_platform.Prelude.Map.{Map, lookup, insert, empty, string_eq, ◌==◌}
use oshe_platform.Prelude.Strings.{trim_space}
use oshe_platform.Identifiers.{hex_encode}

pub data ReferenceError : Type 0 where
  empty_tenant_id empty_system empty_external_id empty_id : ReferenceError
  empty_lookup_token reference_not_found tenant_mismatch : ReferenceError
  reference_conflict no_token_entropy : ReferenceError

pub record OpaqueReference : Type 0 where
  pub tenant_id : String
  pub system : String
  pub external_id : String
  pub lookup_token : String

pub record ReferenceEntry : Type 0 where
  pub tenant_id : String
  pub system : String
  pub external_id : String
  pub internal_id : String
  pub lookup_token : String

pub record ExternalReferenceRegistry : Type 0 where
  pub by_ext_key : Map String ReferenceEntry
  pub by_lookup_token : Map String ReferenceEntry

abbrev pub new_external_reference_registry : ExternalReferenceRegistry
new_external_reference_registry = record { by_ext_key = empty; by_lookup_token = empty }

abbrev pub make_ext_key : String → String → String → String
make_ext_key tenant system external = tenant ++ "\0" ++ system ++ "\0" ++ external

abbrev pub make_token_key : String → String → String
make_token_key tenant token = tenant ++ "\0" ++ token

-- The 16 bytes that `rand.Read` gives are an argument; `none` is its error.
abbrev pub generate_lookup_token : Option (List ℕ) → Option String
generate_lookup_token none = none
generate_lookup_token (some raw) = some ("ref_" ++ hex_encode raw)

abbrev pub public_reference : ReferenceEntry → OpaqueReference
public_reference e = record {
  tenant_id = e.tenant_id;
  system = e.system;
  external_id = e.external_id;
  lookup_token = e.lookup_token;
}

unfoldable pub check_external : String → String → String → Option ReferenceError
check_external tenant system external =
    if trim_space tenant == ""
    then some empty_tenant_id
    else if trim_space system == ""
    then some empty_system
    else if trim_space external == ""
    then some empty_external_id
    else none

unfoldable pub check_register : String → String → String → String → Option ReferenceError
unfolding check_external
check_register tenant system external internal = elim (check_external tenant system external) [
  | some x ↦ some x
  | none ↦ if trim_space internal == "" then some empty_id else none
]

abbrev pub new_entry : String → String → String → String → String → ReferenceEntry
new_entry tenant system external internal token = record {
  tenant_id = trim_space tenant;
  system = trim_space system;
  external_id = trim_space external;
  internal_id = internal;
  lookup_token = token;
}

abbrev pub key_of : String → String → String → String
key_of tenant system external =
    make_ext_key (trim_space tenant) (trim_space system) (trim_space external)

unfoldable pub register :
    ExternalReferenceRegistry
    → String
    → String
    → String
    → String
    → Option (List ℕ)
    → ExternalReferenceRegistry × Result ReferenceError OpaqueReference
unfolding check_register
register r tenant system external internal entropy =
    elim (check_register tenant system external internal) [
      | some x ↦ (r, err x)
      | none ↦ elim (lookup (key_of tenant system external) r.by_ext_key) [
        | some existing ↦ (
          r,
          (if existing.internal_id == internal
              then ok (public_reference existing)
              else err reference_conflict),
        )
        | none ↦ elim (generate_lookup_token entropy) [
          | none ↦ (r, err no_token_entropy)
          | some token ↦
              let entry = new_entry tenant system external internal token in
              (
                record {
                  by_ext_key = insert (key_of tenant system external) entry r.by_ext_key;
                  by_lookup_token =
                      insert (make_token_key (trim_space tenant) token) entry r.by_lookup_token;
                },
                ok (public_reference entry),
              )
        ]
      ]
    ]

unfoldable pub lookup_public :
    ExternalReferenceRegistry → String → String → String → Result ReferenceError OpaqueReference
unfolding check_external
lookup_public r tenant system external = elim (check_external tenant system external) [
  | some x ↦ err x
  | none ↦ elim (lookup (key_of tenant system external) r.by_ext_key) [
    | none ↦ err reference_not_found
    | some entry ↦
        if entry.tenant_id == trim_space tenant
        then ok (public_reference entry)
        else err tenant_mismatch
  ]
]

unfoldable pub resolve_internal :
    ExternalReferenceRegistry → String → String → Result ReferenceError String
resolve_internal r tenant token =
    if trim_space tenant == ""
    then err empty_tenant_id
    else if trim_space token == ""
    then err empty_lookup_token
    else elim (lookup (make_token_key (trim_space tenant) (trim_space token)) r.by_lookup_token) [
      | none ↦ err reference_not_found
      | some entry ↦
          if entry.tenant_id == trim_space tenant then ok entry.internal_id else err tenant_mismatch
    ]
