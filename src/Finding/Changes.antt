-- ===== src/Finding/Changes.antt =====
-- The changes of a stored finding in modules/workflow-action/finding_lifecycle.go.
use Prim.Native.String.{◌++◌}
use oshe_platform.Prelude.{
  ℕ, ◌+◌, String, Bool, false, not, ◌&&◌, ◌||◌, Option, none, some, length, push, wrap, ltb, eqb,
  Result, ok, err, if◌then◌else◌,
}
use oshe_platform.Prelude.Map.{string_eq, ◌==◌}
use oshe_platform.Prelude.Strings.{trim_space}
use oshe_platform.Finding.{
  FindingState, FindingSeverity, finding_state_open, finding_state_under_review,
  finding_state_remediated, finding_state_closed, FindingError, finding_not_found,
  autonomous_classification_prohibited, unauthorized_severity_downgrade,
  unauthorized_critical_downgrade, missing_classification_rationale, autonomous_closure_prohibited,
  unauthorized_closure, invalid_finding_state_transition, finding_already_closed, invalid_severity,
  mandatory_critical_rule, blank_closure_rationale, FindingRuleCatalog, get_rule, FindingRecord,
  Caller, severity_rank, is_supervisor_role, is_human_closure_authorized, is_autonomous, bool_text,
}
use oshe_platform.Finding.Manager.{FindingManager, find, store}

-- The lookups, the check for a closed finding and the write that the three changes share.
unfoldable pub on_finding :
    FindingManager
    → String
    → String
    → (FindingRecord → Result FindingError FindingRecord)
    → FindingManager × Option FindingError
unfolding find store
on_finding m tenant finding change =
    elim (find m.findings (trim_space tenant) (trim_space finding)) [
      | none ↦ (m, some finding_not_found)
      | some rec ↦
          if rec.state == finding_state_closed
          then (m, some finding_already_closed)
          else elim (change rec) [
            | err x ↦ (m, some x)
            | ok new ↦ (
              record m { findings = store m.findings (trim_space tenant) (trim_space finding) new },
              none,
            )
          ]
    ]

-- `rec.History = append(rec.History, audit)`, with the number that the entry has.
unfoldable pub record_entry :
    FindingRecord → Caller → String → FindingState → FindingState → String → ℕ → FindingRecord
record_entry rec who action from_state to_state details now = record rec {
  history = push rec.history (record {
    sequence = wrap (length rec.history + 1);
    timestamp = now;
    actor = who.actor;
    actor_role = who.actor_role;
    action = action;
    from_state = from_state;
    to_state = to_state;
    details = details;
  });
}

unfoldable pub check_severity : FindingRecord → FindingSeverity → Caller → Option FindingError
check_severity rec new who =
    if eqb (severity_rank new) 0
    then some invalid_severity
    else if ltb (severity_rank new) (severity_rank rec.severity)
        && not (is_supervisor_role who.actor_role)
    then some unauthorized_severity_downgrade
    else if ltb (severity_rank new) (severity_rank rec.severity) && trim_space who.rationale == ""
    then some missing_classification_rationale
    else if is_autonomous who.actor who.actor_role
    then some autonomous_classification_prohibited
    else none

unfoldable pub change_severity :
    FindingSeverity → Caller → ℕ → FindingRecord → Result FindingError FindingRecord
unfolding record_entry
change_severity new who now rec = elim (check_severity rec new who) [
  | some x ↦ err x
  | none ↦
      let details =
        "Severity transitioned from "
        ++ rec.severity
        ++ " to "
        ++ new
        ++ ". Rationale: "
        ++ trim_space who.rationale in
      ok (record (record_entry rec who "SEVERITY_UPDATED" "" "" details now) { severity = new })
]

unfoldable pub update_severity :
    FindingManager
    → String
    → String
    → FindingSeverity
    → Caller
    → ℕ
    → FindingManager × Option FindingError
unfolding on_finding
update_severity m tenant finding new who now =
    on_finding m tenant finding (change_severity new who now)

unfoldable pub is_mandatory : FindingRuleCatalog → String → Bool
unfolding get_rule
is_mandatory c rule_id = elim (get_rule c rule_id) [
  | none ↦ false
  | some rule ↦ rule.mandatory_critical
]

unfoldable pub check_critical :
    FindingRuleCatalog → FindingRecord → Bool → Caller → Option FindingError
check_critical c rec critical who =
    if is_mandatory c rec.rule_id && not critical
    then some mandatory_critical_rule
    else if (rec.critical_flag && not critical) && not (is_supervisor_role who.actor_role)
    then some unauthorized_critical_downgrade
    else if (rec.critical_flag && not critical) && trim_space who.rationale == ""
    then some missing_classification_rationale
    else if is_autonomous who.actor who.actor_role
    then some autonomous_classification_prohibited
    else none

unfoldable pub change_critical_flag :
    FindingRuleCatalog → Bool → Caller → ℕ → FindingRecord → Result FindingError FindingRecord
unfolding record_entry
change_critical_flag c critical who now rec = elim (check_critical c rec critical who) [
  | some x ↦ err x
  | none ↦
      let details =
        "Critical flag transitioned from "
        ++ bool_text rec.critical_flag
        ++ " to "
        ++ bool_text critical
        ++ ". Rationale: "
        ++ trim_space who.rationale in
      ok (record (record_entry rec who "CRITICAL_FLAG_UPDATED" "" "" details now) {
        critical_flag = critical;
      })
]

unfoldable pub update_critical_flag :
    FindingManager → String → String → Bool → Caller → ℕ → FindingManager × Option FindingError
unfolding on_finding
update_critical_flag m tenant finding critical who now =
    on_finding m tenant finding (change_critical_flag m.catalog critical who now)

unfoldable pub check_closure : FindingState → Caller → Option FindingError
check_closure to_state who =
    if not (to_state == finding_state_closed)
    then none
    else if is_autonomous who.actor who.actor_role
    then some autonomous_closure_prohibited
    else if not (is_human_closure_authorized who.actor_role)
    then some unauthorized_closure
    else if trim_space who.rationale == ""
    then some blank_closure_rationale
    else none

-- The `switch` on the record's state.
unfoldable pub is_allowed_move : FindingState → FindingState → Bool
is_allowed_move from_state to_state =
    if from_state == finding_state_open
    then to_state == finding_state_under_review
      || to_state == finding_state_remediated
      || to_state == finding_state_closed
    else if from_state == finding_state_under_review
    then to_state == finding_state_remediated
      || to_state == finding_state_closed
      || to_state == finding_state_open
    else if from_state == finding_state_remediated
    then to_state == finding_state_closed || to_state == finding_state_under_review
    else false

-- The fields that a closure sets.
unfoldable pub close_fields : FindingState → Caller → ℕ → FindingRecord → FindingRecord
close_fields to_state who now rec =
    if to_state == finding_state_closed
    then record rec {
      closed_at = some now;
      closed_by = who.actor;
      closure_rationale = who.rationale;
    }
    else rec

unfoldable pub change_state :
    FindingState → Caller → ℕ → FindingRecord → Result FindingError FindingRecord
unfolding record_entry close_fields
change_state to_state who now rec = elim (check_closure to_state who) [
  | some x ↦ err x
  | none ↦
      let details =
        "Transitioned from " ++ rec.state ++ " to " ++ to_state ++ ". Details: " ++ who.rationale in
      if is_allowed_move rec.state to_state
      then ok (
          close_fields to_state who now
            (record (record_entry rec who "STATE_TRANSITION" rec.state to_state details now) {
              state = to_state;
            }))
      else err invalid_finding_state_transition
]

unfoldable pub transition_state :
    FindingManager
    → String
    → String
    → FindingState
    → Caller
    → ℕ
    → FindingManager × Option FindingError
unfolding on_finding
transition_state m tenant finding to_state who now =
    on_finding m tenant finding (change_state to_state who now)
