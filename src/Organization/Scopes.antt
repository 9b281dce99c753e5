-- ===== src/Organization/Scopes.antt =====
-- The resolved scopes of modules/organization-tenancy/organization_hierarchy.go.
use Prim.Native.String.{◌++◌}
use oshe_platform.Prelude.{String, Option, if◌then◌else◌, not}
use oshe_platform.Prelude.Map.{string_eq, ◌==◌}
use oshe_platform.Organization.{OrgError, TenantContext, authorize_tenant_scope}
use oshe_platform.Organization.Hierarchy.{
  Company, BusinessUnit, Project, Site, Area, SponsoredParty, time_zone_of, locale_of,
}

abbrev pub default_non_authority_scope_notice : String
default_non_authority_scope_notice =
    "DERIVED_OUTPUT_NON_AUTHORITY: Resolved hierarchy scopes are descriptive projections only and never grant lateral, upward, or implicit operational authority."

pub record ResolvedScope : Type 0 where
  pub tenant_id : String
  pub company_id : String
  pub business_unit_id : String
  pub project_id : String
  pub site_id : String
  pub area_id : String
  pub time_zone : String
  pub locale : String
  pub canonical_path : String
  pub non_authority_notice : String

-- The path through a business unit, where there is one.
abbrev pub below_unit : String → String → String → String
below_unit top unit rest =
    if not (unit == "") then top ++ "/" ++ unit ++ "/" ++ rest else top ++ "/" ++ rest

unfoldable pub resolve_company : Company → ResolvedScope
resolve_company c = record {
  tenant_id = c.tenant_id;
  company_id = c.company_id;
  business_unit_id = "";
  project_id = "";
  site_id = "";
  area_id = "";
  time_zone = "";
  locale = "";
  canonical_path = c.tenant_id ++ "/" ++ c.company_id;
  non_authority_notice = default_non_authority_scope_notice;
}

unfoldable pub resolve_business_unit : BusinessUnit → ResolvedScope
resolve_business_unit b = record {
  tenant_id = b.tenant_id;
  company_id = b.company_id;
  business_unit_id = b.business_unit_id;
  project_id = "";
  site_id = "";
  area_id = "";
  time_zone = "";
  locale = "";
  canonical_path = b.tenant_id ++ "/" ++ b.company_id ++ "/" ++ b.business_unit_id;
  non_authority_notice = default_non_authority_scope_notice;
}

unfoldable pub resolve_project : Project → ResolvedScope
resolve_project p = record {
  tenant_id = p.tenant_id;
  company_id = p.company_id;
  business_unit_id = p.business_unit_id;
  project_id = p.project_id;
  site_id = "";
  area_id = "";
  time_zone = "";
  locale = "";
  canonical_path = below_unit (p.tenant_id ++ "/" ++ p.company_id) p.business_unit_id p.project_id;
  non_authority_notice = default_non_authority_scope_notice;
}

unfoldable pub resolve_site : Site → ResolvedScope
unfolding time_zone_of locale_of
resolve_site s = record {
  tenant_id = s.tenant_id;
  company_id = s.company_id;
  business_unit_id = s.business_unit_id;
  project_id = s.project_id;
  site_id = s.site_id;
  area_id = "";
  time_zone = time_zone_of s;
  locale = locale_of s;
  canonical_path =
      below_unit (s.tenant_id ++ "/" ++ s.company_id) s.business_unit_id
        (s.project_id ++ "/" ++ s.site_id);
  non_authority_notice = default_non_authority_scope_notice;
}

unfoldable pub resolve_area : Area → ResolvedScope
resolve_area a = record {
  tenant_id = a.tenant_id;
  company_id = a.company_id;
  business_unit_id = a.business_unit_id;
  project_id = a.project_id;
  site_id = a.site_id;
  area_id = a.area_id;
  time_zone = a.time_zone;
  locale = a.locale;
  canonical_path =
      below_unit (a.tenant_id ++ "/" ++ a.company_id) a.business_unit_id
        (a.project_id ++ "/" ++ a.site_id ++ "/" ++ a.area_id);
  non_authority_notice = default_non_authority_scope_notice;
}

unfoldable pub resolve_party : SponsoredParty → ResolvedScope
resolve_party p = record {
  tenant_id = p.tenant_id;
  company_id = "";
  business_unit_id = "";
  project_id = p.project_id;
  site_id = p.site_id;
  area_id = "";
  time_zone = "";
  locale = "";
  canonical_path = p.tenant_id ++ "/" ++ p.project_id ++ "/" ++ p.site_id ++ "/" ++ p.party_id;
  non_authority_notice = default_non_authority_scope_notice;
}

-- `rs.ValidateScope(ctx)`; those of the entities pass their own tenant likewise.
abbrev pub validate_scope : TenantContext → ResolvedScope → Option OrgError
validate_scope ctx rs = authorize_tenant_scope ctx rs.tenant_id
