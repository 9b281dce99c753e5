-- ===== src/Finding/Tests.antt =====
-- Findings at concrete inputs.
use oshe_platform.Prelude.{◌≡◌, refl, true, false, some, List, [], ◌∷◌}
use oshe_platform.Prelude.Map.{lookup, insert, string_eq}
use oshe_platform.Prelude.Strings.{trim_space}
use oshe_platform.Identifiers.{char_in}
use oshe_platform.Finding.{
  FindingRecord, FindingCreationRequest, Caller, finding_state_open, finding_state_closed,
  new_finding_rule_catalog, register_rule, get_rule, severity_rank, to_upper, upper_char,
  starts_with, contains, is_autonomous, is_human_closure_authorized,
}
use oshe_platform.Finding.Manager.{
  FindingManager, new_finding_manager, find, tenant_map, store, chosen_severity, check_rule,
  check_request, new_finding, check_stored, create_with_rule, create_finding,
}
use oshe_platform.Finding.Changes.{
  on_finding, record_entry, check_closure, is_allowed_move, close_fields, change_state,
  transition_state,
}
use oshe_platform.Finding.Run.{Call, create, move_to, run}
use oshe_platform.Finding.Sound.{IsSoundFinding}
use oshe_platform.Finding.Lifecycle.{register_rules, findings_sound}
use oshe_platform.Finding.Closed.{closed_stays}

abbrev request : FindingCreationRequest
request = record {
  tenant_id = " acme";
  finding_id = "f-1";
  execution_id = "exe-1";
  question_id = "qst_fire_exit_2";
  response_id = "rsp-1";
  recurrence_id = "";
  rule_id = "RULE-FND-FIRE-EXIT-BLOCKED";
  rule_version = "1.0.0";
  title = "Blocked exit";
  description = "Pallets before the door";
  severity_input = "";
  critical_flag = false;
  immediate_control = "Guard posted";
  actor = "usr_kim";
  actor_role = "inspector";
  evidence_ids = [];
}

abbrev owner : Caller
owner = record { actor = "usr_lee"; actor_role = "Owner "; rationale = "Cleared" }

abbrev agent : Caller
agent = record { actor = "ai_agent_7"; actor_role = "OWNER"; rationale = "Cleared" }

abbrev started : FindingManager
started = new_finding_manager (register_rules new_finding_rule_catalog [])

abbrev calls : List Call
calls =
    create request 5
    ∷ move_to "acme" "f-1" finding_state_closed agent 6
    ∷ move_to "acme" "f-1" finding_state_closed owner 7
    ∷ []

-- The finding after the calls: the agent's closure is refused, the owner's is not.
abbrev closed_finding : FindingRecord
closed_finding =
    record (new_finding request
      (record {
        rule_id = "RULE-FND-FIRE-EXIT-BLOCKED";
        rule_version = "1.0.0";
        question_pattern = "qst_fire_exit_*";
        trigger_condition = "RESPONSE_CONCERNING_OR_FAILED";
        default_severity_input = "CRITICAL";
        mandatory_critical = true;
        requires_immediate_control = true;
        requires_evidence = true;
      })
      5) {
        state = finding_state_closed;
        closed_at = some 7;
        closed_by = "usr_lee";
        closure_rationale = "Cleared";
        history =
            record {
              sequence = 1;
              timestamp = 5;
              actor = "usr_kim";
              actor_role = "inspector";
              action = "CREATED";
              from_state = "";
              to_state = "OPEN";
              details =
                  "Finding created under rule RULE-FND-FIRE-EXIT-BLOCKED v1.0.0 with severity CRITICAL (critical=true)";
            }
            ∷ record {
              sequence = 2;
              timestamp = 7;
              actor = "usr_lee";
              actor_role = "Owner ";
              action = "STATE_TRANSITION";
              from_state = "OPEN";
              to_state = "CLOSED";
              details = "Transitioned from OPEN to CLOSED. Details: Cleared";
            }
            ∷ [];
      }

found_test : find (run started calls).findings "acme" "f-1" ≡ some closed_finding
unfolding find run create_finding check_request get_rule register_rules new_finding_rule_catalog
    register_rule create_with_rule check_rule chosen_severity check_stored store tenant_map
    new_finding transition_state on_finding change_state check_closure is_autonomous
    is_human_closure_authorized to_upper upper_char char_in contains starts_with is_allowed_move
    close_fields record_entry severity_rank trim_space lookup insert
found_test = refl

findings_sound_example :
    IsSoundFinding (register_rules new_finding_rule_catalog []) "acme" "f-1" closed_finding
findings_sound_example = findings_sound [] calls "acme" "f-1" closed_finding found_test

closed_stays_example :
    find
      (run (run started calls) (move_to "acme" "f-1" finding_state_open owner 9 ∷ [])).findings
      "acme"
      "f-1"
    ≡ some closed_finding
closed_stays_example =
    closed_stays (run started calls) (move_to "acme" "f-1" finding_state_open owner 9 ∷ []) "acme"
      "f-1" closed_finding found_test refl
