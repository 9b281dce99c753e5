-- ===== src/Organization/Hierarchy.antt =====
-- The entities of modules/organization-tenancy/organization_hierarchy.go and their constructors.
use oshe_platform.Prelude.{ℕ, String, not, ◌||◌, Option, none, some, Result, ok, err, if◌then◌else◌}
use oshe_platform.Prelude.Map.{string_eq, ◌==◌}
use oshe_platform.Prelude.Strings.{trim_space}
use oshe_platform.Organization.{
  OrgError, blank_name, parent_archived, parent_mismatch, prefix_company, prefix_business_unit,
  prefix_project, validate_entity_id, validate_tenant_id,
}

-- The code's named string type is a text, of which it names these.
abbrev pub LifecycleState : Type 0
LifecycleState = String

abbrev pub state_active : LifecycleState
state_active = "ACTIVE"

abbrev pub state_archived : LifecycleState
state_archived = "ARCHIVED"

abbrev pub default_time_zone : String
default_time_zone = "Asia/Bangkok"

abbrev pub default_locale : String
default_locale = "th-TH"

pub record Company : Type 0 where
  pub tenant_id : String
  pub company_id : String
  pub name : String
  pub state : LifecycleState

pub record BusinessUnit : Type 0 where
  pub tenant_id : String
  pub company_id : String
  pub business_unit_id : String
  pub name : String
  pub state : LifecycleState

pub record Project : Type 0 where
  pub tenant_id : String
  pub company_id : String
  pub business_unit_id : String
  pub project_id : String
  pub name : String
  pub state : LifecycleState

pub record Site : Type 0 where
  pub tenant_id : String
  pub company_id : String
  pub business_unit_id : String
  pub project_id : String
  pub site_id : String
  pub name : String
  pub time_zone : String
  pub locale : String
  pub state : LifecycleState

pub record Area : Type 0 where
  pub tenant_id : String
  pub company_id : String
  pub business_unit_id : String
  pub project_id : String
  pub site_id : String
  pub area_id : String
  pub name : String
  pub time_zone : String
  pub locale : String
  pub state : LifecycleState

pub record SponsoredParty : Type 0 where
  pub tenant_id : String
  pub party_id : String
  pub company_name : String
  pub sponsor_id : String
  pub project_id : String
  pub site_id : String
  pub valid_from : ℕ
  pub valid_to : ℕ
  pub state : LifecycleState

-- The `Archive` methods.
abbrev pub archive_company : Company → Company
archive_company c = record c { state = state_archived }

abbrev pub archive_business_unit : BusinessUnit → BusinessUnit
archive_business_unit b = record b { state = state_archived }

abbrev pub archive_project : Project → Project
archive_project p = record p { state = state_archived }

abbrev pub archive_site : Site → Site
archive_site s = record s { state = state_archived }

abbrev pub archive_area : Area → Area
archive_area a = record a { state = state_archived }

abbrev pub archive_party : SponsoredParty → SponsoredParty
archive_party p = record p { state = state_archived }

-- `s.TimeZone()` and `s.Locale()`, where an empty field reads as the default.
unfoldable pub time_zone_of : Site → String
time_zone_of s = if s.time_zone == "" then default_time_zone else s.time_zone

unfoldable pub locale_of : Site → String
locale_of s = if s.locale == "" then default_locale else s.locale

-- The checks of the constructors after those of the parent's fields: the parent's state, the
-- identifier and the name.
unfoldable pub check_child : LifecycleState → String → String → String → Option OrgError
check_child parent_state id expected name =
    if not (parent_state == state_active)
    then some parent_archived
    else elim (validate_entity_id id expected) [
      | some x ↦ some x
      | none ↦ if trim_space name == "" then some blank_name else none
    ]

unfoldable pub check_company : String → String → String → Option OrgError
check_company tenant company name = elim (validate_tenant_id tenant) [
  | some x ↦ some x
  | none ↦ elim (validate_entity_id company prefix_company) [
    | some x ↦ some x
    | none ↦ if trim_space name == "" then some blank_name else none
  ]
]

unfoldable pub new_company : String → String → String → Result OrgError Company
unfolding check_company
new_company tenant company name = elim (check_company tenant company name) [
  | some x ↦ err x
  | none ↦ ok (record {
    tenant_id = trim_space tenant;
    company_id = trim_space company;
    name = trim_space name;
    state = state_active;
  })
]

unfoldable pub check_business_unit : Company → String → String → Option OrgError
unfolding check_child
check_business_unit c unit name =
    if c.tenant_id == "" || c.company_id == ""
    then some parent_mismatch
    else check_child c.state unit prefix_business_unit name

unfoldable pub new_business_unit : Company → String → String → Result OrgError BusinessUnit
unfolding check_business_unit
new_business_unit c unit name = elim (check_business_unit c unit name) [
  | some x ↦ err x
  | none ↦ ok (record {
    tenant_id = c.tenant_id;
    company_id = c.company_id;
    business_unit_id = trim_space unit;
    name = trim_space name;
    state = state_active;
  })
]

unfoldable pub check_unit_project : BusinessUnit → String → String → Option OrgError
unfolding check_child
check_unit_project b project name =
    if b.tenant_id == "" || b.company_id == "" || b.business_unit_id == ""
    then some parent_mismatch
    else check_child b.state project prefix_project name

unfoldable pub new_project_under_business_unit :
    BusinessUnit → String → String → Result OrgError Project
unfolding check_unit_project
new_project_under_business_unit b project name = elim (check_unit_project b project name) [
  | some x ↦ err x
  | none ↦ ok (record {
    tenant_id = b.tenant_id;
    company_id = b.company_id;
    business_unit_id = b.business_unit_id;
    project_id = trim_space project;
    name = trim_space name;
    state = state_active;
  })
]

unfoldable pub check_company_project : Company → String → String → Option OrgError
unfolding check_child
check_company_project c project name =
    if c.tenant_id == "" || c.company_id == ""
    then some parent_mismatch
    else check_child c.state project prefix_project name

unfoldable pub new_project : Company → String → String → Result OrgError Project
unfolding check_company_project
new_project c project name = elim (check_company_project c project name) [
  | some x ↦ err x
  | none ↦ ok (record {
    tenant_id = c.tenant_id;
    company_id = c.company_id;
    business_unit_id = "";
    project_id = trim_space project;
    name = trim_space name;
    state = state_active;
  })
]

-- The time zone of a child: what the caller gives, else what is inherited.
abbrev pub chosen : String → String → String
chosen given inherited = if trim_space given == "" then inherited else trim_space given
