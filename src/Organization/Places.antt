-- ===== src/Organization/Places.antt =====
-- The sites, areas and sponsored parties of modules/organization-tenancy/organization_hierarchy.go.
use oshe_platform.Prelude.{
  ℕ, String, Bool, false, not, ◌&&◌, ◌||◌, Option, none, some, ltb, eqb, Result, ok, err,
  if◌then◌else◌,
}
use oshe_platform.Prelude.Map.{string_eq, ◌==◌}
use oshe_platform.Prelude.Strings.{trim_space}
use oshe_platform.Organization.{
  OrgError, blank_id, blank_name, parent_archived, parent_mismatch, blank_sponsor_id,
  invalid_time_window, project_site_mismatch, prefix_site, prefix_area, prefix_party,
  validate_entity_id, validate_locale, validate_time_zone,
}
use oshe_platform.Organization.Hierarchy.{
  state_active, default_time_zone, default_locale, Project, Site, Area, SponsoredParty,
  time_zone_of, locale_of, check_child, chosen,
}

module _ (load_location : String → Bool) where
  -- The two checks that a caller's time zone and locale pass, where they are not blank.
  unfoldable pub check_place : String → String → Option OrgError
  check_place tz loc = elim (validate_time_zone load_location (trim_space tz)) [
    | some x ↦ some x
    | none ↦ validate_locale (trim_space loc)
  ]

  unfoldable pub check_site : Project → String → String → String → String → Option OrgError
  unfolding check_child check_place
  check_site p site name tz loc =
      if p.tenant_id == "" || p.company_id == "" || p.project_id == ""
      then some parent_mismatch
      else elim (check_child p.state site prefix_site name) [
        | some x ↦ some x
        | none ↦ check_place tz loc
      ]

  unfoldable pub new_site_with_locale :
      Project → String → String → String → String → Result OrgError Site
  unfolding check_site
  new_site_with_locale p site name tz loc = elim (check_site p site name tz loc) [
    | some x ↦ err x
    | none ↦ ok (record {
      tenant_id = p.tenant_id;
      company_id = p.company_id;
      business_unit_id = p.business_unit_id;
      project_id = p.project_id;
      site_id = trim_space site;
      name = trim_space name;
      time_zone = chosen tz default_time_zone;
      locale = chosen loc default_locale;
      state = state_active;
    })
  ]

  abbrev pub new_site : Project → String → String → Result OrgError Site
  new_site p site name = new_site_with_locale p site name default_time_zone default_locale

  unfoldable pub check_area : Site → String → String → String → String → Option OrgError
  unfolding check_child check_place
  check_area s area name tz loc =
      if s.tenant_id == "" || s.company_id == "" || s.project_id == "" || s.site_id == ""
      then some parent_mismatch
      else elim (check_child s.state area prefix_area name) [
        | some x ↦ some x
        | none ↦ check_place tz loc
      ]

  unfoldable pub new_area_with_locale :
      Site → String → String → String → String → Result OrgError Area
  unfolding check_area time_zone_of locale_of
  new_area_with_locale s area name tz loc = elim (check_area s area name tz loc) [
    | some x ↦ err x
    | none ↦ ok (record {
      tenant_id = s.tenant_id;
      company_id = s.company_id;
      business_unit_id = s.business_unit_id;
      project_id = s.project_id;
      site_id = s.site_id;
      area_id = trim_space area;
      name = trim_space name;
      time_zone = chosen tz (time_zone_of s);
      locale = chosen loc (locale_of s);
      state = state_active;
    })
  ]

  abbrev pub new_area : Site → String → String → Result OrgError Area
  new_area s area name = new_area_with_locale s area name "" ""

unfoldable pub check_party : Site → String → String → String → ℕ → ℕ → Option OrgError
check_party s party company sponsor valid_from valid_to =
    if s.tenant_id == "" || s.site_id == "" || s.project_id == ""
    then some parent_mismatch
    else if not (s.state == state_active)
    then some parent_archived
    else if trim_space party == ""
    then some blank_id
    else if trim_space company == ""
    then some blank_name
    else if trim_space sponsor == ""
    then some blank_sponsor_id
    else if ltb valid_to valid_from || eqb valid_to valid_from
    then some invalid_time_window
    else validate_entity_id (trim_space party) prefix_party

unfoldable pub new_sponsored_party :
    Site → String → String → String → ℕ → ℕ → Result OrgError SponsoredParty
unfolding check_party
new_sponsored_party s party company sponsor valid_from valid_to =
    elim (check_party s party company sponsor valid_from valid_to) [
      | some x ↦ err x
      | none ↦ ok (record {
        tenant_id = s.tenant_id;
        party_id = trim_space party;
        company_name = trim_space company;
        sponsor_id = trim_space sponsor;
        project_id = s.project_id;
        site_id = s.site_id;
        valid_from = valid_from;
        valid_to = valid_to;
        state = state_active;
      })
    ]

unfoldable pub is_valid_at : SponsoredParty → ℕ → Bool
is_valid_at p t =
    if not (p.state == state_active)
    then false
    else not (ltb t p.valid_from) && not (ltb p.valid_to t)

abbrev pub validate_parent_project : Site → String → Option OrgError
validate_parent_project s expected =
    if not (s.project_id == trim_space expected) then some project_site_mismatch else none

abbrev pub validate_parent_site : Area → String → Option OrgError
validate_parent_site a expected =
    if not (a.site_id == trim_space expected) then some parent_mismatch else none
