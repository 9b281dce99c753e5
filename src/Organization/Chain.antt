-- ===== src/Organization/Chain.antt =====
-- What the constructors of modules/organization-tenancy/organization_hierarchy.go make of their
-- arguments, one under the other, and who may see the result.
use Prim.Native.String.{◌++◌}
use oshe_platform.Prelude.{
  String, ◌≡◌, ap, ◌∙◌, Bool, false, Option, none, some, ok, err, ok-inj, arith,
}
use oshe_platform.Prelude.Map.{string_eq, ◌==◌}
use oshe_platform.Prelude.Strings.{trim_space}
use oshe_platform.Organization.{OrgError}
use oshe_platform.Organization.Hierarchy.{
  state_active, default_time_zone, default_locale, Company, BusinessUnit, Project, Site, Area,
  time_zone_of, locale_of, check_company, new_company, check_business_unit, new_business_unit,
  check_unit_project, new_project_under_business_unit, chosen,
}
use oshe_platform.Organization.Places.{
  check_site, new_site_with_locale, check_area, new_area_with_locale,
}
use oshe_platform.Organization.Scopes.{ResolvedScope, default_non_authority_scope_notice}

-- The value of a constructor that succeeds, from its checks and its fields.
pub made :
    {A : Type 0} (o : Option OrgError) {a b : A}
    → (elim o [ some x ↦ err x | none ↦ ok a ]) ≡ ok b
    → a ≡ b
made none h = ok-inj h
made (some x) h = absurd (cc h)

-- The entities that the constructors return when they return one.
abbrev pub company_of : String → String → String → Company
company_of t c n = record {
  tenant_id = trim_space t;
  company_id = trim_space c;
  name = trim_space n;
  state = state_active;
}

abbrev pub unit_of : Company → String → String → BusinessUnit
unit_of c u n = record {
  tenant_id = c.tenant_id;
  company_id = c.company_id;
  business_unit_id = trim_space u;
  name = trim_space n;
  state = state_active;
}

abbrev pub project_of : BusinessUnit → String → String → Project
project_of b p n = record {
  tenant_id = b.tenant_id;
  company_id = b.company_id;
  business_unit_id = b.business_unit_id;
  project_id = trim_space p;
  name = trim_space n;
  state = state_active;
}

abbrev pub site_of : Project → String → String → String → String → Site
site_of p s n tz loc = record {
  tenant_id = p.tenant_id;
  company_id = p.company_id;
  business_unit_id = p.business_unit_id;
  project_id = p.project_id;
  site_id = trim_space s;
  name = trim_space n;
  time_zone = chosen tz default_time_zone;
  locale = chosen loc default_locale;
  state = state_active;
}

unfoldable pub area_of : Site → String → String → String → String → Area
area_of s a n tz loc = record {
  tenant_id = s.tenant_id;
  company_id = s.company_id;
  business_unit_id = s.business_unit_id;
  project_id = s.project_id;
  site_id = s.site_id;
  area_id = trim_space a;
  name = trim_space n;
  time_zone = chosen tz (time_zone_of s);
  locale = chosen loc (locale_of s);
  state = state_active;
}

-- Where an entity is and what it is called.
pub record Named : Type 0 where
  pub id : String
  pub name : String

-- The arguments that name an area and what it lies in, and the entities that are made of them.
pub record Chain : Type 0 where
  pub tenant : String
  pub company : Named
  pub unit : Named
  pub project : Named
  pub site : Named
  pub site_zone : String
  pub site_locale : String
  pub area : Named
  pub area_zone : String
  pub area_locale : String
  pub its_company : Company
  pub its_unit : BusinessUnit
  pub its_project : Project
  pub its_site : Site
  pub its_area : Area

-- Each constructor succeeds on the arguments and the entity above.
pub record IsBuilt (load_location : String → Bool) (k : Chain) : Type 0 where
  pub company_built : new_company k.tenant k.company.id k.company.name ≡ ok k.its_company
  pub unit_built : new_business_unit k.its_company k.unit.id k.unit.name ≡ ok k.its_unit
  pub project_built :
      new_project_under_business_unit k.its_unit k.project.id k.project.name ≡ ok k.its_project
  pub site_built :
      new_site_with_locale load_location k.its_project k.site.id k.site.name k.site_zone
        k.site_locale
      ≡ ok k.its_site
  pub area_built :
      new_area_with_locale load_location k.its_site k.area.id k.area.name k.area_zone k.area_locale
      ≡ ok k.its_area

company_made : (t c n : String) (co : Company) → new_company t c n ≡ ok co → company_of t c n ≡ co
unfolding new_company
company_made t c n co h = made (check_company t c n) h

unit_made :
    (co : Company) (u n : String) (bu : BusinessUnit)
    → new_business_unit co u n ≡ ok bu
    → unit_of co u n ≡ bu
unfolding new_business_unit
unit_made co u n bu h = made (check_business_unit co u n) h

project_made :
    (b : BusinessUnit) (p n : String) (pr : Project)
    → new_project_under_business_unit b p n ≡ ok pr
    → project_of b p n ≡ pr
unfolding new_project_under_business_unit
project_made b p n pr h = made (check_unit_project b p n) h

site_made :
    (load : String → Bool) (p : Project) (s n tz loc : String) (si : Site)
    → new_site_with_locale load p s n tz loc ≡ ok si
    → site_of p s n tz loc ≡ si
unfolding new_site_with_locale
site_made load p s n tz loc si h = made (check_site load p s n tz loc) h

area_made :
    (load : String → Bool) (s : Site) (a n tz loc : String) (ar : Area)
    → new_area_with_locale load s a n tz loc ≡ ok ar
    → area_of s a n tz loc ≡ ar
unfolding new_area_with_locale area_of
area_made load s a n tz loc ar h = made (check_area load s a n tz loc) h

pub area_of_chain :
    (load : String → Bool) (k : Chain)
    → IsBuilt load k
    → area_of
        (site_of
          (project_of
            (unit_of (company_of k.tenant k.company.id k.company.name) k.unit.id k.unit.name)
            k.project.id
            k.project.name)
          k.site.id
          k.site.name
          k.site_zone
          k.site_locale)
        k.area.id
        k.area.name
        k.area_zone
        k.area_locale
      ≡ k.its_area
area_of_chain load k b =
    let co = company_made k.tenant k.company.id k.company.name k.its_company b.company_built in
    let bu =
      ap (λ (x : Company). unit_of x k.unit.id k.unit.name) co
      ∙ unit_made k.its_company k.unit.id k.unit.name k.its_unit b.unit_built in
    let pr =
      ap (λ (x : BusinessUnit). project_of x k.project.id k.project.name) bu
      ∙ project_made k.its_unit k.project.id k.project.name k.its_project b.project_built in
    let si =
      ap (λ (x : Project). site_of x k.site.id k.site.name k.site_zone k.site_locale) pr
      ∙ site_made load k.its_project k.site.id k.site.name k.site_zone k.site_locale k.its_site
          b.site_built in
    ap (λ (x : Site). area_of x k.area.id k.area.name k.area_zone k.area_locale) si
    ∙ area_made load k.its_site k.area.id k.area.name k.area_zone k.area_locale k.its_area
        b.area_built

-- The scope of an area, from the arguments that its chain of constructors was given.
abbrev pub area_scope : Chain → ResolvedScope
area_scope k = record {
  tenant_id = trim_space k.tenant;
  company_id = trim_space k.company.id;
  business_unit_id = trim_space k.unit.id;
  project_id = trim_space k.project.id;
  site_id = trim_space k.site.id;
  area_id = trim_space k.area.id;
  time_zone = chosen k.area_zone (chosen k.site_zone default_time_zone);
  locale = chosen k.area_locale (chosen k.site_locale default_locale);
  canonical_path =
      (trim_space k.tenant ++ "/" ++ trim_space k.company.id)
      ++ "/"
      ++ trim_space k.unit.id
      ++ "/"
      ++ trim_space k.project.id
      ++ "/"
      ++ trim_space k.site.id
      ++ "/"
      ++ trim_space k.area.id;
  non_authority_notice = default_non_authority_scope_notice;
}

pub chosen_given :
    (given inherited : String) → (inherited == "") ≡ false → (chosen given inherited == "") ≡ false
chosen_given given inherited h = ground (arith, h)
