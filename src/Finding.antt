-- ===== src/Finding.antt =====
-- The rules, roles and records of modules/workflow-action/finding_lifecycle.go.
pub mod Manager
pub mod Changes
pub mod Run
pub mod Sound
pub mod Kept
pub mod Lifecycle
pub mod Closed
mod Tests
use Prim.Native.Char.{Char, code}
use Prim.Native.String.{[], ◌∷◌, ◌++◌}
use oshe_platform.Prelude.{
  ℕ, ◌-◌, String, Bool, true, false, not, ◌&&◌, ◌||◌, Option, none, some, List, [], ◌∷◌,
  if◌then◌else◌, leb, eqb,
}
use oshe_platform.Prelude.Map.{Map, lookup, insert, empty, string_eq, ◌==◌}
use oshe_platform.Prelude.Strings.{trim_space}
use oshe_platform.Identifiers.{char_in}

-- The code's two named string types are texts, of which it names these.
abbrev pub FindingState : Type 0
FindingState = String

abbrev pub FindingSeverity : Type 0
FindingSeverity = String

abbrev pub finding_state_open : FindingState
finding_state_open = "OPEN"

abbrev pub finding_state_under_review : FindingState
finding_state_under_review = "UNDER_REVIEW"

abbrev pub finding_state_remediated : FindingState
finding_state_remediated = "REMEDIATED"

abbrev pub finding_state_closed : FindingState
finding_state_closed = "CLOSED"

pub data FindingError : Type 0 where
  blank_tenant_id blank_finding_id duplicate_finding_id finding_not_found : FindingError
  missing_source_context rule_not_found incompatible_rule_version : FindingError
  missing_immediate_control autonomous_classification_prohibited : FindingError
  unauthorized_severity_downgrade unauthorized_critical_downgrade : FindingError
  missing_classification_rationale autonomous_closure_prohibited : FindingError
  unauthorized_closure invalid_finding_state_transition finding_already_closed : FindingError
  invalid_recurrence_link invalid_severity mandatory_critical_rule blank_closure_rationale :
      FindingError

pub record FindingRule : Type 0 where
  pub rule_id : String
  pub rule_version : String
  pub question_pattern : String
  pub trigger_condition : String
  pub default_severity_input : FindingSeverity
  pub mandatory_critical : Bool
  pub requires_immediate_control : Bool
  pub requires_evidence : Bool

pub record FindingRuleCatalog : Type 0 where
  pub rules : Map String FindingRule

unfoldable pub register_rule : FindingRuleCatalog → FindingRule → FindingRuleCatalog
register_rule c rule = record { rules = insert rule.rule_id rule c.rules }

unfoldable pub get_rule : FindingRuleCatalog → String → Option FindingRule
get_rule c rule_id = lookup rule_id c.rules

abbrev pub current_rule_matrix_version : String
current_rule_matrix_version = "1.0.0"

abbrev fire_exit_blocked : FindingRule
fire_exit_blocked = record {
  rule_id = "RULE-FND-FIRE-EXIT-BLOCKED";
  rule_version = current_rule_matrix_version;
  question_pattern = "qst_fire_exit_*";
  trigger_condition = "RESPONSE_CONCERNING_OR_FAILED";
  default_severity_input = "CRITICAL";
  mandatory_critical = true;
  requires_immediate_control = true;
  requires_evidence = true;
}

abbrev extinguisher_defect : FindingRule
extinguisher_defect = record {
  rule_id = "RULE-FND-EXTINGUISHER-DEFECT";
  rule_version = current_rule_matrix_version;
  question_pattern = "qst_extinguisher_*";
  trigger_condition = "RESPONSE_FAILED";
  default_severity_input = "HIGH";
  mandatory_critical = false;
  requires_immediate_control = true;
  requires_evidence = true;
}

abbrev ppe_noncompliance : FindingRule
ppe_noncompliance = record {
  rule_id = "RULE-FND-PPE-NONCOMPLIANCE";
  rule_version = current_rule_matrix_version;
  question_pattern = "qst_ppe_*";
  trigger_condition = "RESPONSE_FAILED";
  default_severity_input = "MEDIUM";
  mandatory_critical = false;
  requires_immediate_control = false;
  requires_evidence = false;
}

unfoldable pub new_finding_rule_catalog : FindingRuleCatalog
unfolding register_rule
new_finding_rule_catalog =
    register_rule
      (register_rule (register_rule (record { rules = empty }) fire_exit_blocked)
        extinguisher_defect)
      ppe_noncompliance

pub record FindingAuditEntry : Type 0 where
  pub sequence : ℕ
  pub timestamp : ℕ
  pub actor : String
  pub actor_role : String
  pub action : String
  pub from_state : FindingState
  pub to_state : FindingState
  pub details : String

pub record FindingRecord : Type 0 where
  pub finding_id : String
  pub tenant_id : String
  pub execution_id : String
  pub question_id : String
  pub response_id : String
  pub recurrence_id : String
  pub rule_id : String
  pub rule_version : String
  pub title : String
  pub description : String
  pub severity : FindingSeverity
  pub critical_flag : Bool
  pub immediate_control : String
  pub state : FindingState
  pub evidence_ids : List String
  pub created_at : ℕ
  pub created_by : String
  pub closed_at : Option ℕ
  pub closed_by : String
  pub closure_rationale : String
  pub history : List FindingAuditEntry

pub record FindingCreationRequest : Type 0 where
  pub tenant_id : String
  pub finding_id : String
  pub execution_id : String
  pub question_id : String
  pub response_id : String
  pub recurrence_id : String
  pub rule_id : String
  pub rule_version : String
  pub title : String
  pub description : String
  pub severity_input : FindingSeverity
  pub critical_flag : Bool
  pub immediate_control : String
  pub actor : String
  pub actor_role : String
  pub evidence_ids : List String

-- Who calls, and why.
pub record Caller : Type 0 where
  pub actor : String
  pub actor_role : String
  pub rationale : String

-- 0 is no severity.
unfoldable pub severity_rank : FindingSeverity → ℕ
severity_rank s =
    if s == "LOW"
    then 1
    else if s == "MEDIUM"
    then 2
    else if s == "HIGH"
    then 3
    else if s == "CRITICAL"
    then 4
    else 0

-- strings.ToUpper, as far as a comparison with an ASCII text sees it: the letters whose upper case
-- is ASCII are a to z, the dotless i and the long s. The others stay as they are, outside ASCII.
upper_char : Char → Char
upper_char c =
    if leb b'a' (code c) && leb (code c) b'z'
    then char_in c "ABCDEFGHIJKLMNOPQRSTUVWXYZ" (code c - b'a')
    else if eqb (code c) 0x131
    then "I"
    else if eqb (code c) 0x17f
    then "S"
    else c

unfoldable pub to_upper : String → String
unfolding upper_char char_in
to_upper [] = []
to_upper (c ∷ s) = upper_char c ∷ to_upper s

starts_with : String → String → Bool
starts_with [] s = true
starts_with (c ∷ p) [] = false
starts_with (c ∷ p) (d ∷ s) = let rest = starts_with p s in eqb (code c) (code d) && rest

-- strings.Contains, with the text that is sought last.
unfoldable pub contains : String → String → Bool
unfolding starts_with
contains [] p = starts_with p []
contains (c ∷ s) p = let rest = contains s p in starts_with p (c ∷ s) || rest

unfoldable pub is_supervisor_role : String → Bool
unfolding to_upper
is_supervisor_role role =
    let norm = to_upper (trim_space role) in
    norm == "SAFETY_SUPERVISOR"
    || norm == "SUPERVISOR"
    || norm == "SAFETY_LEAD"
    || norm == "QUALITY_LEAD"
    || norm == "TENANT_ADMIN"
    || norm == "OWNER"

unfoldable pub is_human_closure_authorized : String → Bool
unfolding to_upper
is_human_closure_authorized role =
    let norm = to_upper (trim_space role) in
    norm == "SAFETY_SUPERVISOR"
    || norm == "SUPERVISOR"
    || norm == "SAFETY_LEAD"
    || norm == "QUALITY_LEAD"
    || norm == "OWNER"

unfoldable pub is_autonomous : String → String → Bool
unfolding to_upper contains
is_autonomous actor role =
    contains (to_upper actor) "AI_AGENT" || contains (to_upper role) "AI_CORE"

abbrev pub bool_text : Bool → String
bool_text true = "true"
bool_text false = "false"
