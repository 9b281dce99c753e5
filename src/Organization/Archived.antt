-- ===== src/Organization/Archived.antt =====
-- What the constructors of modules/organization-tenancy/organization_hierarchy.go do under an
-- archived parent, and when a sponsored party is valid.
use oshe_platform.Prelude.{
  ℕ, String, ◌≡◌, refl, Bool, true, false, ◌||◌, ◌⊎◌, Option, none, some, Result, ok, err,
  if◌then◌else◌, inl, inr,
}
use oshe_platform.Prelude.Map.{string_eq, ◌==◌}
use oshe_platform.Organization.{OrgError, parent_archived, parent_mismatch}
use oshe_platform.Organization.Hierarchy.{
  Company, BusinessUnit, Project, Site, archive_company, archive_business_unit, archive_project,
  archive_site, check_child, new_business_unit, check_business_unit,
  new_project_under_business_unit, check_unit_project, new_project, check_company_project,
}
use oshe_platform.Organization.Places.{
  check_site, new_site_with_locale, check_area, new_area_with_locale, check_party,
  new_sponsored_party,
}

-- The constructor refuses: the parent is archived, or it has no identifiers.
pub IsRefused : {A : Type 0} → Result OrgError A → Type 0
IsRefused r = (r ≡ err parent_archived) ⊎ (r ≡ err parent_mismatch)

IsRefusal : Option OrgError → Type 0
IsRefusal o = (o ≡ some parent_archived) ⊎ (o ≡ some parent_mismatch)

refused :
    {A : Type 0} (o : Option OrgError) (a : A)
    → IsRefusal o
    → IsRefused (elim o [ some x ↦ err x | none ↦ ok a ])
unfolding IsRefusal IsRefused
refused (some x) a (inl h) = inl (cc h)
refused (some x) a (inr h) = inr (cc h)
refused none a (inl h) = absurd (cc h)
refused none a (inr h) = absurd (cc h)

-- A test on the parent's identifiers, then its state.
refuses :
    (b : Bool) (o : Option OrgError)
    → o ≡ some parent_archived
    → IsRefusal (if b then some parent_mismatch else o)
unfolding IsRefusal
refuses true o h = inr refl
refuses false o h = inl h

-- Under an archived company, business unit, project or site no constructor makes anything: it
-- refuses, whatever its other arguments are.
pub archived_refuses :
    (load_location : String → Bool) (c : Company) (b : BusinessUnit) (p : Project) (s : Site)
    (id name tz loc company sponsor : String) (valid_from valid_to : ℕ)
    → IsRefused (new_business_unit (archive_company c) id name)
      × IsRefused (new_project (archive_company c) id name)
      × IsRefused (new_project_under_business_unit (archive_business_unit b) id name)
      × IsRefused (new_site_with_locale load_location (archive_project p) id name tz loc)
      × IsRefused (new_area_with_locale load_location (archive_site s) id name tz loc)
      × IsRefused (new_sponsored_party (archive_site s) id company sponsor valid_from valid_to)
unfolding new_business_unit check_business_unit new_project check_company_project
    new_project_under_business_unit check_unit_project new_site_with_locale check_site
    new_area_with_locale check_area new_sponsored_party check_party check_child
archived_refuses load c b p s id name tz loc company sponsor valid_from valid_to = (
  refused (check_business_unit (archive_company c) id name) _
      (refuses (c.tenant_id == "" || c.company_id == "") _ refl),
  refused (check_company_project (archive_company c) id name) _
      (refuses (c.tenant_id == "" || c.company_id == "") _ refl),
  refused (check_unit_project (archive_business_unit b) id name) _
      (refuses (b.tenant_id == "" || b.company_id == "" || b.business_unit_id == "") _ refl),
  refused (check_site load (archive_project p) id name tz loc) _
      (refuses (p.tenant_id == "" || p.company_id == "" || p.project_id == "") _ refl),
  refused (check_area load (archive_site s) id name tz loc) _ (
      refuses (s.tenant_id == "" || s.company_id == "" || s.project_id == "" || s.site_id == "") _
        refl),
  refused (check_party (archive_site s) id company sponsor valid_from valid_to) _
      (refuses (s.tenant_id == "" || s.site_id == "" || s.project_id == "") _ refl),
)
