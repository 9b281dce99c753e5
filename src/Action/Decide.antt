-- ===== src/Action/Decide.antt =====
-- What each method of modules/workflow-action/action_lifecycle.go decides about the action that it
-- has found, and the value that the action gets.
use Prim.Native.String.{◌++◌, len}
use oshe_platform.Prelude.{
  ℕ, ◌+◌, String, Bool, true, false, not, ◌&&◌, none, some, List, [], ◌∷◌, wrap, int_lt, ltb, eqb,
  length, push, if◌then◌else◌,
}
use oshe_platform.Prelude.Map.{lookup, insert, string_eq, ◌==◌}
use oshe_platform.Prelude.Strings.{trim_space}
use oshe_platform.Action.{
  ActionState, ActionError, EvidenceAttachment, Action, assigned, in_progress, in_review, rejected,
  overdue, closed, reopened, unauthorized_action, cross_tenant_denied, invalid_preceding_state,
  insufficient_evidence, action_closed, blank_reason, duplicate_evidence_id,
  invalid_evidence_digest, blank_evidence_id,
}

-- What a method decides about an action that it has found: an error, nothing to do, or a new value.
pub data Verdict : Type 0 where
  refuse : ActionError → Verdict
  leave : Verdict
  update : Action → Verdict

-- `act.history = append(act.history, …)` with the next sequence number, from the action's state.
unfoldable pub log_entry : Action → ActionState → String → String → List String → ℕ → Action
log_entry act to actor reason ids now = record act {
  history = push act.history (record {
    sequence = wrap (length act.history + 1);
    from_state = some act.state;
    to_state = to;
    actor = actor;
    reason = reason;
    evidence_ids = ids;
    timestamp = now;
  });
}

-- The entry and the change of state that follows it.
unfoldable pub move_to : Action → ActionState → String → String → ℕ → Action
unfolding log_entry
move_to act to actor reason now = record (log_entry act to actor reason [] now) { state = to }

abbrev pub is_closed : ActionState → Bool
is_closed closed = true
is_closed _ = false

abbrev pub is_in_review : ActionState → Bool
is_in_review in_review = true
is_in_review _ = false

-- The `switch` of `StartWork`: the states that work starts from.
abbrev pub can_start : ActionState → Bool
can_start assigned = true
can_start rejected = true
can_start reopened = true
can_start overdue = true
can_start _ = false

abbrev pub is_in_progress : ActionState → Bool
is_in_progress in_progress = true
is_in_progress _ = false

-- The `switch` of `SubmitForReview`.
abbrev pub can_submit : ActionState → Bool
can_submit in_progress = true
can_submit s = can_start s

unfoldable pub start_work_of : String → ℕ → Action → Verdict
start_work_of caller now act =
    if is_closed act.state
    then refuse action_closed
    else if not (trim_space caller == act.owner)
    then refuse unauthorized_action
    else if can_start act.state
    then update (move_to act in_progress caller "Work started by owner" now)
    else if is_in_progress act.state
    then leave
    else refuse invalid_preceding_state

unfoldable pub has_evidence : Action → String → Bool
has_evidence act evidence_id = elim (lookup evidence_id act.evidence_ids) [
  | none ↦ false
  | some b ↦ b
]

unfoldable pub attach : Action → String → EvidenceAttachment → ℕ → Action
attach act caller ev now =
    let evidence_id = trim_space ev.evidence_id in
    let attachment : EvidenceAttachment = record {
      evidence_id = evidence_id;
      tenant_id = act.tenant_id;
      digest = trim_space ev.digest;
      attached_by = caller;
      attached_at = now;
    } in
    log_entry
      (record act {
        evidence = push act.evidence attachment;
        evidence_ids = insert evidence_id true act.evidence_ids;
      })
      act.state caller ("Attached evidence " ++ evidence_id) (evidence_id ∷ []) now

unfoldable pub attach_evidence_of : String → EvidenceAttachment → ℕ → Action → Verdict
attach_evidence_of caller ev now act =
    if is_closed act.state
    then refuse action_closed
    else if not (trim_space caller == act.owner)
    then refuse unauthorized_action
    else if not (trim_space ev.tenant_id == act.tenant_id)
    then refuse cross_tenant_denied
    else if trim_space ev.evidence_id == ""
    then refuse blank_evidence_id
    else if has_evidence act (trim_space ev.evidence_id)
    then refuse duplicate_evidence_id
    else if not (eqb (len (trim_space ev.digest)) 64)
    then refuse invalid_evidence_digest
    else update (attach act caller ev now)

-- `len(act.evidence) < act.requiredEvidenceCount`, in `int`.
unfoldable pub lacks_evidence : Action → Bool
lacks_evidence act = int_lt (wrap (length act.evidence)) act.required_evidence_count

unfoldable pub submit_for_review_of : String → String → ℕ → Action → Verdict
submit_for_review_of caller notes now act =
    if is_closed act.state
    then refuse action_closed
    else if not (trim_space caller == act.owner)
    then refuse unauthorized_action
    else if not (can_submit act.state)
    then refuse invalid_preceding_state
    else if lacks_evidence act
    then refuse insufficient_evidence
    else update (move_to act in_review caller notes now)

unfoldable pub reject_review_of : String → String → ℕ → Action → Verdict
reject_review_of caller reason now act =
    if is_closed act.state
    then refuse action_closed
    else if not (trim_space caller == act.reviewer)
    then refuse unauthorized_action
    else if not (is_in_review act.state)
    then refuse invalid_preceding_state
    else if trim_space reason == ""
    then refuse blank_reason
    else update (move_to act rejected caller (trim_space reason) now)

unfoldable pub close_action_of : String → String → ℕ → Action → Verdict
close_action_of caller notes now act =
    if is_closed act.state
    then refuse action_closed
    else if not (trim_space caller == act.reviewer)
    then refuse unauthorized_action
    else if not (is_in_review act.state)
    then refuse invalid_preceding_state
    else if lacks_evidence act
    then refuse insufficient_evidence
    else update
        (record (move_to act closed caller notes now) { closed_at = some now; closed_by = caller })

unfoldable pub reopen_action_of : String → String → ℕ → Action → Verdict
reopen_action_of caller reason now act =
    if not (is_closed act.state)
    then refuse invalid_preceding_state
    else if not (trim_space caller == act.reviewer)
    then refuse unauthorized_action
    else if trim_space reason == ""
    then refuse blank_reason
    else update (record (move_to act reopened caller (trim_space reason) now) {
      closed_at = none;
      closed_by = "";
    })

-- An action is past its due date: it has one, and the clock is after it.
unfoldable pub is_past_due : Action → ℕ → Bool
is_past_due act now = not (eqb act.due_date 0) && ltb act.due_date now

abbrev pub is_overdue : ActionState → Bool
is_overdue overdue = true
is_overdue _ = false

-- `rfc3339` prints a time, as `Format(time.RFC3339)` does.
unfoldable pub check_overdue_of : (ℕ → String) → ℕ → Action → Verdict
check_overdue_of rfc3339 now act =
    if is_closed act.state
    then leave
    else if not (is_past_due act now)
    then leave
    else if is_overdue act.state
    then leave
    else update (
        move_to act overdue "system_timer"
          ("Due date " ++ rfc3339 act.due_date ++ " exceeded at " ++ rfc3339 now) now)
