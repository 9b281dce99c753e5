-- ===== src/Action/Tests.antt =====
-- Calls of the action manager at concrete inputs.
use oshe_platform.Prelude.{ok}
use oshe_platform.Prelude.{
  ℕ, String, ◌≡◌, refl, false, Option, none, some, List, [], ◌∷◌, length, arith,
}
use oshe_platform.Prelude.Map.{lookup, insert, string_eq, ◌==◌, lookup-empty}
use oshe_platform.Prelude.Strings.{trim_space}
use oshe_platform.Action.{ActionState, closed, Action, EvidenceAttachment, unauthorized_action}
use oshe_platform.Action.Decide.{
  log_entry, move_to, start_work_of, has_evidence, attach, attach_evidence_of, lacks_evidence,
  submit_for_review_of, close_action_of,
}
use oshe_platform.Action.Manager.{
  ActionKey, key_eq, ActionManager, new_action_manager, CreateActionRequest, new_action,
  check_create, create_action, find_action, settle, on_action, start_work, attach_evidence,
  submit_for_review, close_action,
}
use oshe_platform.Action.Run.{
  Call, create, start, attach_to, submit, close, exec, run, IsSoundManager, run-IsSoundManager,
}
use oshe_platform.Action.Closing.{IsClosable, close_action_iff}
use oshe_platform.Prelude.{◌↔◌}
use oshe_platform.Action.Frame.{exec_frame, exec_refused}
use oshe_platform.Action.Parties.{run-Survives}

abbrev no_format : ℕ → String
no_format _ = ""

abbrev request : CreateActionRequest
request = record {
  id = "act-1";
  tenant_id = "";
  title = "Fix the guard rail";
  owner = "olga";
  reviewer = "rene ";
  due_date = 100;
  required_evidence_count = 1;
  creator = "";
}

abbrev photo : EvidenceAttachment
photo = record {
  evidence_id = " ev-1";
  tenant_id = "acme";
  digest = "0123456789abcdef0123456789abcdef0123456789abcdef0123456789abcdef";
  attached_by = "";
  attached_at = 0;
}

abbrev life : List Call
life =
    create " acme" request 10
    ∷ start "acme" "act-1" "olga" 20
    ∷ attach_to "acme" "act-1" "olga" photo 30
    ∷ submit "acme" "act-1" "olga" "done" 40
    ∷ close "acme" "act-1" "rene" "seen" 50
    ∷ []

abbrev place : ActionKey
place = record { tenant_id = "acme"; action_id = "act-1" }

abbrev assigned_action : Action
assigned_action = new_action "acme" request 10

abbrev closed_manager : ActionManager
closed_manager = run no_format new_action_manager life

abbrev opened_manager : ActionManager
opened_manager = run no_format new_action_manager (create " acme" request 10 ∷ [])

abbrev closed_state_of : Option Action → Option (ActionState × Option ℕ × String × ℕ)
closed_state_of none = none
closed_state_of (some act) = some (act.state, act.closed_at, act.closed_by, length act.history)

life_closes :
    closed_state_of (lookup place closed_manager.actions) ≡ some (closed, some 50, "rene", 5)
unfolding run create_action check_create new_action start_work attach_evidence submit_for_review
    close_action on_action find_action settle start_work_of attach_evidence_of submit_for_review_of
    close_action_of has_evidence attach lacks_evidence move_to log_entry lookup insert trim_space
life_closes = refl

opened_holds : lookup place opened_manager.actions ≡ some assigned_action
unfolding run create_action check_create new_action lookup insert trim_space
opened_holds = refl

new_action_manager-IsSoundManager : IsSoundManager new_action_manager
new_action_manager-IsSoundManager k act h = absurd (ground (arith, lookup-empty {V = Action} k))

run-IsSoundManager_example : IsSoundManager closed_manager
run-IsSoundManager_example =
    run-IsSoundManager no_format new_action_manager life new_action_manager-IsSoundManager

other_tenant :
    (record { tenant_id = trim_space " zeta"; action_id = trim_space "act-1" } == place) ≡ false
unfolding trim_space
other_tenant = refl

exec_frame_example :
    lookup place (exec no_format opened_manager (start " zeta" "act-1" "olga" 20)).0.actions
    ≡ lookup place opened_manager.actions
exec_frame_example =
    exec_frame no_format opened_manager (start " zeta" "act-1" "olga" 20) place other_tenant

stranger_refused :
    (exec no_format opened_manager (start "acme" "act-1" "eve" 20)).1 ≡ some unauthorized_action
unfolding run create_action check_create new_action start_work on_action find_action settle
    start_work_of lookup insert trim_space
stranger_refused = refl

exec_refused_test :
    (exec no_format opened_manager (start "acme" "act-1" "eve" 20)).0 ≡ opened_manager
exec_refused_test =
    exec_refused no_format opened_manager (start "acme" "act-1" "eve" 20) unauthorized_action
      stranger_refused

run-Survives_test :
    (act' : Action) × ((lookup place
          (run no_format opened_manager (start "acme" "act-1" "olga" 20 ∷ [])).actions
        ≡ some act')
      × (act'.owner ≡ assigned_action.owner)
      × (act'.reviewer ≡ assigned_action.reviewer))
run-Survives_test =
    run-Survives no_format opened_manager (start "acme" "act-1" "olga" 20 ∷ []) place
      assigned_action
      (run-IsSoundManager no_format new_action_manager (create " acme" request 10 ∷ [])
        new_action_manager-IsSoundManager)
      opened_holds

abbrev submitted : ActionManager
submitted = run no_format new_action_manager (
    create " acme" request 10
    ∷ start "acme" "act-1" "olga" 20
    ∷ attach_to "acme" "act-1" "olga" photo 30
    ∷ submit "acme" "act-1" "olga" "done" 40
    ∷ [])

submitted_closes : (close_action submitted "acme" "act-1" "rene" "seen" 50).1 ≡ none
unfolding run create_action check_create new_action start_work attach_evidence submit_for_review
    close_action on_action find_action settle start_work_of attach_evidence_of submit_for_review_of
    close_action_of has_evidence attach lacks_evidence move_to log_entry lookup insert trim_space
submitted_closes = refl

close_action_iff_example :
    ((close_action submitted "acme" "act-1" "rene" "seen" 50).1 ≡ none)
    ↔ ((act : Action) × ((find_action submitted "acme" "act-1" ≡ ok act) × IsClosable "rene" act))
close_action_iff_example = close_action_iff submitted "acme" "act-1" "rene" "seen" 50
