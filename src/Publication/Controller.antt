-- ===== src/Publication/Controller.antt =====
-- The controller of modules/publication-snapshot/publication_lifecycle.go.
use Prim.Native.String.{◌++◌}
use oshe_platform.Prelude.{ℕ, String, not, ◌&&◌, Option, none, some, [], int_le, if◌then◌else◌}
use oshe_platform.Prelude.Map.{Map, empty, string_eq, ◌==◌}
use oshe_platform.Prelude.Strings.{trim_space}
use oshe_platform.Publication.{
  state_draft, state_under_review, state_approved, state_published, state_withdrawn, state_replaced,
  state_superseded, LifecycleError, unauthorized_publish, unauthorized_reviewer, stale_approval,
  approval_digest_mismatch, snapshot_expired, illegal_state_transition, duplicate_transition,
  snapshot_not_under_review, blank_content_digest, blank_tenant_id, blank_snapshot_id,
  invalid_version, ApprovalEvidence, is_stale, EffectiveWindow, validate_window, is_expired,
  LifecycleManagedSnapshot, LifecycleAuditLedger, is_authorized_role,
}

pub record LifecycleController : Type 0 where
  pub ledger : LifecycleAuditLedger
  pub snapshots : Map String LifecycleManagedSnapshot
  pub transition_seq : ℕ

abbrev pub new_lifecycle_controller : LifecycleController
new_lifecycle_controller = record {
  ledger = record { records = [] };
  snapshots = empty;
  transition_seq = 0;
}

abbrev pub make_lifecycle_key : String → String → String
make_lifecycle_key tenant snapshot = trim_space tenant ++ ":" ++ trim_space snapshot

-- Who acts, as what, and when.
pub record Actor : Type 0 where
  pub subject : String
  pub role : String
  pub now : ℕ

abbrev no_approval : ApprovalEvidence
no_approval = record {
  approval_id = "";
  approver_subject = "";
  approver_role = "";
  approved_at = 0;
  content_digest = "";
  decision_hash = "";
  approval_notes = "";
  max_approval_age = 0;
}

unfoldable pub draft_of : String → String → ℕ → String → ℕ → LifecycleManagedSnapshot
draft_of tenant snapshot version digest now = record {
  snapshot_id = trim_space snapshot;
  tenant_id = trim_space tenant;
  version = version;
  state = state_draft;
  approval = no_approval;
  window = record { effective_from = 0; expires_at = 0 };
  content_digest = trim_space digest;
  successor_id = "";
  withdrawal_reason = "";
  withdrawn_by = "";
  replacement_reason = "";
  created_at = now;
  updated_at = now;
}

unfoldable pub check_draft : String → String → ℕ → String → Option LifecycleError
check_draft tenant snapshot version digest =
    if trim_space tenant == ""
    then some blank_tenant_id
    else if trim_space snapshot == ""
    then some blank_snapshot_id
    else if trim_space digest == ""
    then some blank_content_digest
    else if int_le version 0
    then some invalid_version
    else none

unfoldable pub check_submit : LifecycleManagedSnapshot → Option LifecycleError
check_submit s = if not (s.state == state_draft) then some illegal_state_transition else none

unfoldable pub check_approve :
    ApprovalEvidence → ℕ → LifecycleManagedSnapshot → Option LifecycleError
check_approve evidence now s =
    if not (s.state == state_under_review)
    then some snapshot_not_under_review
    else if not (is_authorized_role evidence.approver_role)
    then some unauthorized_reviewer
    else if is_stale evidence now
    then some stale_approval
    else if not (evidence.content_digest == s.content_digest)
    then some approval_digest_mismatch
    else none

unfoldable pub check_publish :
    String → EffectiveWindow → ℕ → LifecycleManagedSnapshot → Option LifecycleError
check_publish role window now s =
    if s.state == state_published
    then some duplicate_transition
    else if not (s.state == state_approved)
    then some illegal_state_transition
    else if not (is_authorized_role role)
    then some unauthorized_publish
    else if is_stale s.approval now
    then some stale_approval
    else elim (validate_window window) [
      | some x ↦ some x
      | none ↦ if is_expired window now then some snapshot_expired else none
    ]

unfoldable pub check_withdraw : LifecycleManagedSnapshot → Option LifecycleError
check_withdraw s =
    if s.state == state_withdrawn
    then some duplicate_transition
    else if not (s.state == state_published) && not (s.state == state_approved)
    then some illegal_state_transition
    else none

unfoldable pub check_published : LifecycleManagedSnapshot → Option LifecycleError
check_published s = if not (s.state == state_published) then some illegal_state_transition else none

-- The new values of a snapshot.
abbrev pub submitted : ℕ → LifecycleManagedSnapshot → LifecycleManagedSnapshot
submitted now s = record s { state = state_under_review; updated_at = now }

abbrev pub approved : ApprovalEvidence → ℕ → LifecycleManagedSnapshot → LifecycleManagedSnapshot
approved evidence now s = record s { state = state_approved; approval = evidence; updated_at = now }

abbrev pub published : EffectiveWindow → ℕ → LifecycleManagedSnapshot → LifecycleManagedSnapshot
published w now s = record s { state = state_published; window = w; updated_at = now }

abbrev pub withdrawn : String → Actor → LifecycleManagedSnapshot → LifecycleManagedSnapshot
withdrawn reason who s = record s {
  state = state_withdrawn;
  withdrawal_reason = trim_space reason;
  withdrawn_by = who.subject;
  updated_at = who.now;
}

abbrev pub replaced : String → String → ℕ → LifecycleManagedSnapshot → LifecycleManagedSnapshot
replaced successor reason now s = record s {
  state = state_replaced;
  successor_id = trim_space successor;
  replacement_reason = trim_space reason;
  updated_at = now;
}

abbrev pub superseded : String → ℕ → LifecycleManagedSnapshot → LifecycleManagedSnapshot
superseded successor now s = record s {
  state = state_superseded;
  successor_id = trim_space successor;
  updated_at = now;
}
