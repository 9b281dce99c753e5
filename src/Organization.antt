-- ===== src/Organization.antt =====
-- The tenant context of modules/organization-tenancy/tenant_context.go, and the checks of
-- organization_hierarchy.go on identifiers, time zones and locales.
pub mod Hierarchy
pub mod Places
pub mod Scopes
pub mod Chain
pub mod Resolved
pub mod Archived
mod Tests
use Prim.Native.Char.{Char, code}
use Prim.Native.String.{len}
use oshe_platform.Prelude.{
  ℕ, String, Bool, true, false, not, ◌&&◌, ◌||◌, ◌<◌, Option, none, some, List, [], ◌∷◌, length,
  ltb, leb, Result, ok, err, if◌then◌else◌,
}
use oshe_platform.Prelude.Map.{string_eq, ◌==◌}
use oshe_platform.Prelude.Strings.{trim_space, all_chars}
use oshe_platform.Events.Identifier.{cut, is_payload_char}
use oshe_platform.Identifiers.{split}

-- The errors of the package.
pub data OrgError : Type 0 where
  missing_claims unauthenticated empty_tenant_id tenant_override_forbidden : OrgError
  tenant_mismatch invalid_target_tenant : OrgError
  blank_id blank_tenant_id blank_name parent_archived parent_mismatch : OrgError
  blank_sponsor_id invalid_time_window invalid_time_zone invalid_locale : OrgError
  project_site_mismatch malformed_identifier prefix_mismatch invalid_characters : OrgError

pub record TrustedClaims : Type 0 where
  pub subject : String
  pub tenant_id : String
  pub company_id : String
  pub site_id : String
  pub is_authenticated : Bool

pub record ClientOverrideInput : Type 0 where
  pub tenant_id : String

pub record TenantContext : Type 0 where
  pub tenant_id : String
  pub company_id : String
  pub site_id : String
  pub subject : String

abbrev overrides : Option ClientOverrideInput → Bool
overrides none = false
overrides (some o) = not (trim_space o.tenant_id == "")

unfoldable pub derive_tenant_context :
    Option TrustedClaims → Option ClientOverrideInput → Result OrgError TenantContext
derive_tenant_context claims client_override =
    if overrides client_override then err tenant_override_forbidden else elim claims [
      | none ↦ err missing_claims
      | some c ↦
          if not c.is_authenticated
          then err unauthenticated
          else if trim_space c.tenant_id == ""
          then err empty_tenant_id
          else ok (record {
            tenant_id = trim_space c.tenant_id;
            company_id = trim_space c.company_id;
            site_id = trim_space c.site_id;
            subject = trim_space c.subject;
          })
    ]

unfoldable pub authorize_tenant_scope : TenantContext → String → Option OrgError
authorize_tenant_scope c target =
    if trim_space target == ""
    then some invalid_target_tenant
    else if c.tenant_id == ""
    then some empty_tenant_id
    else if not (c.tenant_id == trim_space target)
    then some tenant_mismatch
    else none

unfoldable pub is_in_scope : TenantContext → String → Bool
is_in_scope c target = elim (authorize_tenant_scope c target) [ none ↦ true | some _ ↦ false ]

abbrev pub prefix_tenant : String
prefix_tenant = "ten"

abbrev pub prefix_company : String
prefix_company = "cmp"

abbrev pub prefix_business_unit : String
prefix_business_unit = "bnu"

abbrev pub prefix_project : String
prefix_project = "prj"

abbrev pub prefix_site : String
prefix_site = "ste"

abbrev pub prefix_area : String
prefix_area = "ara"

abbrev pub prefix_party : String
prefix_party = "prt"

unfoldable pub is_known_prefix : String → Bool
is_known_prefix p =
    p == prefix_tenant
    || p == prefix_company
    || p == prefix_business_unit
    || p == prefix_project
    || p == prefix_site
    || p == prefix_area
    || p == prefix_party
    || p == "usr"
    || p == "corr"
    || p == "caus"
    || p == "idem"
    || p == "ext"

-- The check of an identifier with an underscore.
unfoldable pub check_token : String → String → String → Option OrgError
unfolding all_chars is_payload_char is_known_prefix
check_token expected prefix token =
    if prefix == "" || token == ""
    then some malformed_identifier
    else if is_known_prefix prefix && not (prefix == expected)
    then some prefix_mismatch
    else if all_chars is_payload_char token
    then none
    else some invalid_characters

unfoldable pub validate_id : OrgError → String → String → Option OrgError
unfolding cut check_token
validate_id blank id expected =
    let trimmed = trim_space id in
    if trimmed == "" then some blank else elim (cut trimmed) [
      | none ↦ none
      | some (prefix, token) ↦ check_token expected prefix token
    ]

abbrev pub validate_entity_id : String → String → Option OrgError
validate_entity_id id expected = validate_id blank_id id expected

abbrev pub validate_tenant_id : String → Option OrgError
validate_tenant_id tenant = validate_id blank_tenant_id tenant prefix_tenant

unfoldable pub is_locale_char : ℕ → Bool
is_locale_char c = leb b'a' c && leb c b'z' || leb b'A' c && leb c b'Z' || leb b'0' c && leb c b'9'

unfoldable pub are_locale_parts : List String → Bool
unfolding all_chars is_locale_char
are_locale_parts [] = true
are_locale_parts (p ∷ ps) =
    let rest = are_locale_parts ps in
    if p == "" then false else if all_chars is_locale_char p then rest else false

unfoldable pub validate_locale : String → Option OrgError
unfolding split are_locale_parts
validate_locale loc =
    let trimmed = trim_space loc in
    let parts = split b'-' trimmed in
    if trimmed == ""
    then none
    else if ltb 3 (length parts)
    then some invalid_locale
    else if are_locale_parts parts
    then none
    else some invalid_locale

-- `load_location` says which names the time zone database has.
unfoldable pub validate_time_zone : (String → Bool) → String → Option OrgError
validate_time_zone load_location tz =
    let trimmed = trim_space tz in
    if trimmed == "" then none else if load_location trimmed then none else some invalid_time_zone
