-- ===== src/Finding/Manager.antt =====
-- The manager of modules/workflow-action/finding_lifecycle.go.
use Prim.Native.String.{◌++◌}
use oshe_platform.Prelude.{
  ℕ, String, Bool, true, not, ◌&&◌, ◌||◌, Option, none, some, [], ◌∷◌, eqb, Result, ok, err,
  if◌then◌else◌,
}
use oshe_platform.Prelude.Map.{Map, lookup, insert, empty, string_eq, ◌==◌}
use oshe_platform.Prelude.Strings.{trim_space}
use oshe_platform.Finding.{
  FindingSeverity, finding_state_open, FindingError, blank_tenant_id, blank_finding_id,
  duplicate_finding_id, finding_not_found, missing_source_context, rule_not_found,
  incompatible_rule_version, missing_immediate_control, autonomous_classification_prohibited,
  invalid_recurrence_link, invalid_severity, FindingRule, FindingRuleCatalog, get_rule,
  current_rule_matrix_version, FindingRecord, FindingCreationRequest, severity_rank, is_autonomous,
  bool_text,
}

-- The catalog is the one that the manager was given; a rule that is registered in it later is
-- another manager.
pub record FindingManager : Type 0 where
  pub findings : Map String (Map String FindingRecord)
  pub catalog : FindingRuleCatalog

abbrev pub new_finding_manager : FindingRuleCatalog → FindingManager
new_finding_manager c = record { findings = empty; catalog = c }

-- The lookup in a tenant's map, where there is one.
abbrev pub in_tenant : Option (Map String FindingRecord) → String → Option FindingRecord
in_tenant none finding = none
in_tenant (some of_tenant) finding = lookup finding of_tenant

-- The two lookups of a finding.
unfoldable pub find : Map String (Map String FindingRecord) → String → String → Option FindingRecord
find m tenant finding = in_tenant (lookup tenant m) finding

abbrev pub or_made : Option (Map String FindingRecord) → Map String FindingRecord
or_made none = empty
or_made (some of_tenant) = of_tenant

-- `m.findings[tenant]`, where a missing map is made first.
unfoldable pub tenant_map :
    Map String (Map String FindingRecord) → String → Map String FindingRecord
tenant_map m tenant = or_made (lookup tenant m)

-- `m.findings[tenant][finding] = rec`, or the change of the record that stands there.
unfoldable pub store :
    Map String (Map String FindingRecord)
    → String
    → String
    → FindingRecord
    → Map String (Map String FindingRecord)
unfolding tenant_map
store m tenant finding rec = insert tenant (insert finding rec (tenant_map m tenant)) m

-- The tenant's map alone, which a refused creation can leave behind.
unfoldable pub ensure_tenant :
    Map String (Map String FindingRecord) → String → Map String (Map String FindingRecord)
ensure_tenant m tenant = elim (lookup tenant m) [ none ↦ insert tenant empty m | some _ ↦ m ]

unfoldable pub chosen_severity : FindingCreationRequest → FindingRule → FindingSeverity
chosen_severity req rule =
    if req.severity_input == "" then rule.default_severity_input else req.severity_input

abbrev pub chosen_critical : FindingCreationRequest → FindingRule → Bool
chosen_critical req rule = if rule.mandatory_critical then true else req.critical_flag

-- The checks of the request against the rule.
unfoldable pub check_rule : FindingCreationRequest → FindingRule → Option FindingError
unfolding chosen_severity
check_rule req rule =
    let severity = chosen_severity req rule in
    if not (req.rule_version == rule.rule_version)
      || not (req.rule_version == current_rule_matrix_version)
    then some incompatible_rule_version
    else if is_autonomous (trim_space req.actor) (trim_space req.actor_role)
        && (req.severity_input == "" && not rule.mandatory_critical)
    then some autonomous_classification_prohibited
    else if eqb (severity_rank severity) 0
    then some invalid_severity
    else if (chosen_critical req rule || severity == "CRITICAL" || rule.requires_immediate_control)
        && trim_space req.immediate_control == ""
    then some missing_immediate_control
    else none

unfoldable pub check_request : FindingCreationRequest → Option FindingError
check_request req =
    if trim_space req.tenant_id == ""
    then some blank_tenant_id
    else if trim_space req.finding_id == ""
    then some blank_finding_id
    else if trim_space req.execution_id == ""
        || trim_space req.question_id == ""
        || trim_space req.response_id == ""
    then some missing_source_context
    else if trim_space req.rule_id == ""
    then some rule_not_found
    else none

unfoldable pub new_finding : FindingCreationRequest → FindingRule → ℕ → FindingRecord
unfolding chosen_severity
new_finding req rule now =
    let severity = chosen_severity req rule in
    record {
      finding_id = trim_space req.finding_id;
      tenant_id = trim_space req.tenant_id;
      execution_id = req.execution_id;
      question_id = req.question_id;
      response_id = req.response_id;
      recurrence_id = trim_space req.recurrence_id;
      rule_id = rule.rule_id;
      rule_version = rule.rule_version;
      title = req.title;
      description = req.description;
      severity = severity;
      critical_flag = chosen_critical req rule;
      immediate_control = trim_space req.immediate_control;
      state = finding_state_open;
      evidence_ids = req.evidence_ids;
      created_at = now;
      created_by = req.actor;
      closed_at = none;
      closed_by = "";
      closure_rationale = "";
      history =
          record {
            sequence = 1;
            timestamp = now;
            actor = req.actor;
            actor_role = req.actor_role;
            action = "CREATED";
            from_state = "";
            to_state = finding_state_open;
            details =
                "Finding created under rule "
                ++ rule.rule_id
                ++ " v"
                ++ rule.rule_version
                ++ " with severity "
                ++ severity
                ++ " (critical="
                ++ bool_text (chosen_critical req rule)
                ++ ")";
          }
          ∷ [];
    }

-- The checks under the lock: the identifier is new, and the finding that recurs is known.
unfoldable pub check_stored :
    Map String (Map String FindingRecord) → FindingCreationRequest → Option FindingError
unfolding find
check_stored m req = elim (find m (trim_space req.tenant_id) (trim_space req.finding_id)) [
  | some _ ↦ some duplicate_finding_id
  | none ↦
      if trim_space req.recurrence_id == ""
      then none
      else elim (find m (trim_space req.tenant_id) (trim_space req.recurrence_id)) [
        | none ↦ some invalid_recurrence_link
        | some _ ↦ none
      ]
]

unfoldable pub create_with_rule :
    FindingManager
    → FindingCreationRequest
    → FindingRule
    → ℕ
    → FindingManager × Result FindingError FindingRecord
unfolding check_rule check_stored store new_finding
create_with_rule m req rule now = elim (check_rule req rule) [
  | some x ↦ (m, err x)
  | none ↦ elim (check_stored m.findings req) [
    | some x ↦ (record m { findings = ensure_tenant m.findings (trim_space req.tenant_id) }, err x)
    | none ↦ (
      record m {
        findings =
            store m.findings (trim_space req.tenant_id) (trim_space req.finding_id)
              (new_finding req rule now);
      },
      ok (new_finding req rule now),
    )
  ]
]

unfoldable pub create_finding :
    FindingManager → FindingCreationRequest → ℕ → FindingManager × Result FindingError FindingRecord
unfolding check_request create_with_rule get_rule
create_finding m req now = elim (check_request req) [
  | some x ↦ (m, err x)
  | none ↦ elim (get_rule m.catalog (trim_space req.rule_id)) [
    | none ↦ (m, err rule_not_found)
    | some rule ↦ create_with_rule m req rule now
  ]
]

unfoldable pub get_finding : FindingManager → String → String → Result FindingError FindingRecord
unfolding find
get_finding m tenant finding = elim (find m.findings tenant finding) [
  | none ↦ err finding_not_found
  | some rec ↦ ok rec
]
