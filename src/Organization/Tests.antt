-- ===== src/Organization/Tests.antt =====
-- The hierarchy at concrete inputs.
use oshe_platform.Prelude.{String, ◌≡◌, refl, Bool, true, ◌↔◌, none, some, ok}
use oshe_platform.Prelude.Map.{string_eq, ◌==◌}
use oshe_platform.Prelude.Strings.{trim_space, all_chars}
use oshe_platform.Events.Identifier.{cut, is_payload_char}
use oshe_platform.Identifiers.{split, prepend}
use oshe_platform.Organization.{
  TrustedClaims, TenantContext, derive_tenant_context, is_known_prefix, check_token, validate_id,
  is_locale_char, are_locale_parts, validate_locale, validate_time_zone,
}
use oshe_platform.Organization.Hierarchy.{
  Company, BusinessUnit, Project, Site, Area, time_zone_of, locale_of, check_child, check_company,
  new_company, check_business_unit, new_business_unit, check_unit_project,
  new_project_under_business_unit, new_project, archive_company, archive_business_unit,
  archive_project, archive_site,
}
use oshe_platform.Organization.Places.{
  check_place, check_site, new_site_with_locale, check_area, new_area_with_locale,
  new_sponsored_party,
}
use oshe_platform.Organization.Scopes.{
  resolve_company, resolve_business_unit, resolve_area, validate_scope,
}
use oshe_platform.Organization.Chain.{Chain, IsBuilt, area_scope}
use oshe_platform.Organization.Resolved.{resolve_area_chain, validate_scope_iff}
use oshe_platform.Organization.Archived.{IsRefused, archived_refuses}

abbrev zones : String → Bool
zones tz = tz == "Asia/Bangkok"

abbrev acme : Company
acme = record { tenant_id = "ten_acme0001"; company_id = "cmp_a"; name = "Acme"; state = "ACTIVE" }

abbrev north : BusinessUnit
north = record {
  tenant_id = "ten_acme0001";
  company_id = "cmp_a";
  business_unit_id = "north";
  name = "North";
  state = "ACTIVE";
}

abbrev plant : Project
plant = record {
  tenant_id = "ten_acme0001";
  company_id = "cmp_a";
  business_unit_id = "north";
  project_id = "prj_7";
  name = "Plant";
  state = "ACTIVE";
}

abbrev yard : Site
yard = record {
  tenant_id = "ten_acme0001";
  company_id = "cmp_a";
  business_unit_id = "north";
  project_id = "prj_7";
  site_id = "yard";
  name = "Yard";
  time_zone = "Asia/Bangkok";
  locale = "en-GB";
  state = "ACTIVE";
}

abbrev gate : Area
gate = record {
  tenant_id = "ten_acme0001";
  company_id = "cmp_a";
  business_unit_id = "north";
  project_id = "prj_7";
  site_id = "yard";
  area_id = "gate";
  name = "Gate";
  time_zone = "Asia/Bangkok";
  locale = "en-GB";
  state = "ACTIVE";
}

abbrev chain : Chain
chain = record {
  tenant = " ten_acme0001";
  company = record { id = "cmp_a"; name = "Acme" };
  unit = record { id = "north"; name = "North" };
  project = record { id = "prj_7 "; name = "Plant" };
  site = record { id = "yard"; name = "Yard" };
  site_zone = "Asia/Bangkok";
  site_locale = "en-GB";
  area = record { id = "gate"; name = "Gate" };
  area_zone = "";
  area_locale = " ";
  its_company = acme;
  its_unit = north;
  its_project = plant;
  its_site = yard;
  its_area = gate;
}

chain-IsBuilt : IsBuilt zones chain
unfolding new_company check_company new_business_unit check_business_unit
    new_project_under_business_unit check_unit_project new_site_with_locale check_site
    new_area_with_locale check_area check_child check_place validate_id cut check_token
    is_known_prefix is_payload_char all_chars validate_time_zone validate_locale are_locale_parts
    is_locale_char split prepend time_zone_of locale_of trim_space
chain-IsBuilt = record {
  company_built = refl;
  unit_built = refl;
  project_built = refl;
  site_built = refl;
  area_built = refl;
}

resolve_area_chain_example : resolve_area gate ≡ area_scope chain
resolve_area_chain_example = resolve_area_chain zones chain chain-IsBuilt

abbrev claims : TrustedClaims
claims = record {
  subject = "usr_kim";
  tenant_id = "ten_acme0001 ";
  company_id = "";
  site_id = "";
  is_authenticated = true;
}

abbrev context : TenantContext
context = record { tenant_id = "ten_acme0001"; company_id = ""; site_id = ""; subject = "usr_kim" }

derived_test : derive_tenant_context (some claims) none ≡ ok context
unfolding derive_tenant_context trim_space
derived_test = refl

validate_scope_iff_example :
    (validate_scope context (resolve_area gate) ≡ none)
    ↔ (trim_space "ten_acme0001 " ≡ trim_space " ten_acme0001")
validate_scope_iff_example =
    validate_scope_iff zones chain claims none context chain-IsBuilt derived_test

archived_refuses_example :
    IsRefused (new_business_unit (archive_company acme) "cmp_b" "B")
    × IsRefused (new_project (archive_company acme) "cmp_b" "B")
    × IsRefused (new_project_under_business_unit (archive_business_unit north) "cmp_b" "B")
    × IsRefused (new_site_with_locale zones (archive_project plant) "cmp_b" "B" "" "")
    × IsRefused (new_area_with_locale zones (archive_site yard) "cmp_b" "B" "" "")
    × IsRefused (new_sponsored_party (archive_site yard) "cmp_b" "Co" "usr_kim" 3 9)
archived_refuses_example =
    archived_refuses zones acme north plant yard "cmp_b" "B" "" "" "Co" "usr_kim" 3 9

-- A company whose identifier holds a slash has the path of a business unit.
same_path_test :
    (resolve_company (record acme { company_id = "a/north" })).canonical_path
    ≡ (resolve_business_unit (record north { company_id = "a" })).canonical_path
unfolding resolve_company resolve_business_unit
same_path_test = refl

slash_accepted_test :
    new_company "ten_acme0001" "a/north" "Acme" ≡ ok (record acme { company_id = "a/north" })
unfolding new_company check_company validate_id cut check_token is_known_prefix is_payload_char
    all_chars trim_space
slash_accepted_test = refl
