-- ===== src/Organization/Resolved.antt =====
-- The scope of an area of modules/organization-tenancy/organization_hierarchy.go, and who may see it.
use Prim.Native.String.{◌++◌}
use oshe_platform.Prelude.{
  String, ◌≡◌, refl, sym, ap, ◌∙◌, Bool, false, ◌↔◌, Option, none, some, ok, err, arith, Bool-cases,
  eq_iff, inl, inr,
}
use oshe_platform.Prelude.Map.{string_eq, ◌==◌}
use oshe_platform.Prelude.Strings.{trim_space, trim_space-trim_space}
use oshe_platform.Organization.{
  OrgError, TrustedClaims, ClientOverrideInput, TenantContext, derive_tenant_context,
  authorize_tenant_scope, validate_id,
}
use oshe_platform.Organization.Hierarchy.{
  default_time_zone, default_locale, Company, BusinessUnit, Project, Site, time_zone_of, locale_of,
  check_child, check_business_unit, new_business_unit, chosen,
}
use oshe_platform.Organization.Scopes.{
  ResolvedScope, resolve_area, validate_scope, default_non_authority_scope_notice,
}
use oshe_platform.Organization.Chain.{
  company_of, unit_of, project_of, site_of, area_of, Chain, IsBuilt, area_of_chain, area_scope,
  chosen_given,
}

checked :
    {A : Type 0} (o : Option OrgError) (a : A) {b : A}
    → (elim o [ some x ↦ err x | none ↦ ok a ]) ≡ ok b
    → o ≡ none
checked none a h = refl
checked (some x) a h = absurd (cc h)

unit_checked :
    (co : Company) (u n : String) → check_business_unit co u n ≡ none → (trim_space u == "") ≡ false
unfolding check_business_unit check_child validate_id
unit_checked co u n h = elim (Bool-cases (trim_space u == "")) [
  | inr e ↦ e
  | inl e ↦ absurd (ground (arith, rw (check_business_unit, check_child, validate_id, e) at h))
]

unit_given :
    (co : Company) (u n : String) (bu : BusinessUnit)
    → new_business_unit co u n ≡ ok bu
    → (trim_space u == "") ≡ false
unfolding new_business_unit
unit_given co u n bu h =
    unit_checked co u n (checked (check_business_unit co u n) (unit_of co u n) h)

zone_kept :
    (p : Project) (s n tz loc : String)
    → time_zone_of (site_of p s n tz loc) ≡ chosen tz default_time_zone
unfolding time_zone_of
zone_kept p s n tz loc = rw (chosen_given tz default_time_zone refl) refl

locale_kept :
    (p : Project) (s n tz loc : String)
    → locale_of (site_of p s n tz loc) ≡ chosen loc default_locale
unfolding locale_of
locale_kept p s n tz loc = rw (chosen_given loc default_locale refl) refl

-- The scope of an area that is made of given ones, field by field but for the inherited ones.
resolve_area_of :
    (si : Site) (a n atz al : String) (tz loc : String)
    → (si.business_unit_id == "") ≡ false
    → time_zone_of si ≡ tz
    → locale_of si ≡ loc
    → resolve_area (area_of si a n atz al) ≡ record {
      tenant_id = si.tenant_id;
      company_id = si.company_id;
      business_unit_id = si.business_unit_id;
      project_id = si.project_id;
      site_id = si.site_id;
      area_id = trim_space a;
      time_zone = chosen atz tz;
      locale = chosen al loc;
      canonical_path =
          (si.tenant_id ++ "/" ++ si.company_id)
          ++ "/"
          ++ si.business_unit_id
          ++ "/"
          ++ si.project_id
          ++ "/"
          ++ si.site_id
          ++ "/"
          ++ trim_space a;
      non_authority_notice = default_non_authority_scope_notice;
    }
unfolding resolve_area area_of
resolve_area_of si a n atz al tz loc h e g = rw (h, e, g) refl

-- An area whose company, business unit, project and site were made by the constructors, each under
-- the one before, resolves to the trimmed identifiers that they were given, in order, in its fields
-- and in its path; its time zone and its locale are the last ones given on the way, else the
-- defaults.
pub resolve_area_chain :
    (load_location : String → Bool) (k : Chain)
    → IsBuilt load_location k
    → resolve_area k.its_area ≡ area_scope k
resolve_area_chain load k b =
    let co = company_of k.tenant k.company.id k.company.name in
    let pr = project_of (unit_of co k.unit.id k.unit.name) k.project.id k.project.name in
    let si = site_of pr k.site.id k.site.name k.site_zone k.site_locale in
    sym (ap resolve_area (area_of_chain load k b))
    ∙ resolve_area_of si k.area.id k.area.name k.area_zone k.area_locale
        (chosen k.site_zone default_time_zone) (chosen k.site_locale default_locale)
        (unit_given k.its_company k.unit.id k.unit.name k.its_unit b.unit_built)
        (zone_kept pr k.site.id k.site.name k.site_zone k.site_locale)
        (locale_kept pr k.site.id k.site.name k.site_zone k.site_locale)

derived :
    (claims : TrustedClaims) (o : Option ClientOverrideInput) (ctx : TenantContext)
    → derive_tenant_context (some claims) o ≡ ok ctx
    → (ctx.tenant_id ≡ trim_space claims.tenant_id) × ((trim_space claims.tenant_id == "") ≡ false)
unfolding derive_tenant_context
derived claims o ctx h = (ground (arith, h), ground (arith, h))

authorize_iff :
    (ctx : TenantContext) (t own : String)
    → ctx.tenant_id ≡ own
    → (own == "") ≡ false
    → (authorize_tenant_scope ctx t ≡ none) ↔ (own ≡ trim_space t)
unfolding authorize_tenant_scope
authorize_iff ctx t own e given = (
  λ h. ground (arith, h, e, given, eq_iff ctx.tenant_id (trim_space t)),
  λ h. ground (
    arith,
    h,
    e,
    given,
    eq_iff ctx.tenant_id (trim_space t),
    eq_iff (trim_space t) "",
    eq_iff own "",
  ),
)

-- A context that was derived from claims is let into the scope of such an area exactly when the
-- claims' tenant is the one that the area's company was made for, but for white space.
pub validate_scope_iff :
    (load_location : String → Bool) (k : Chain) (claims : TrustedClaims)
    (o : Option ClientOverrideInput) (ctx : TenantContext)
    → IsBuilt load_location k
    → derive_tenant_context (some claims) o ≡ ok ctx
    → (validate_scope ctx (resolve_area k.its_area) ≡ none)
      ↔ (trim_space claims.tenant_id ≡ trim_space k.tenant)
validate_scope_iff load k claims o ctx b d =
    let (e, given) = derived claims o ctx d in
    let own : (resolve_area k.its_area).tenant_id ≡ trim_space k.tenant =
      ap (λ (r : ResolvedScope). r.tenant_id) (resolve_area_chain load k b) in
    let (there, back) =
      authorize_iff ctx (resolve_area k.its_area).tenant_id (trim_space claims.tenant_id) e given in
    let same : trim_space (resolve_area k.its_area).tenant_id ≡ trim_space k.tenant =
      ap trim_space own ∙ trim_space-trim_space k.tenant in
    (λ h. there h ∙ same, λ h. back (h ∙ sym same))
