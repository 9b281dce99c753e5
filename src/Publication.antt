-- ===== src/Publication.antt =====
-- The records and the checks of modules/publication-snapshot/publication_lifecycle.go.
pub mod Controller
pub mod Transitions
pub mod Run
pub mod Sound
pub mod Active
pub mod Kept
mod Tests
use Prim.Native.String.{◌++◌}
use oshe_platform.Prelude.{
  ℕ, ◌-◌, ◌*◌, ◌^◌, String, Bool, true, false, not, ◌&&◌, ◌||◌, Option, none, some, List, [], ◌∷◌,
  push, keep, ltb, eqb, int_lt, int_le, Result, ok, err, if◌then◌else◌,
}
use oshe_platform.Prelude.Map.{Map, empty, string_eq, ◌==◌}
use oshe_platform.Prelude.Strings.{trim_space}

-- The code's named string type is a text, of which it names these.
abbrev pub LifecycleState : Type 0
LifecycleState = String

abbrev pub state_draft : LifecycleState
state_draft = "DRAFT"

abbrev pub state_under_review : LifecycleState
state_under_review = "UNDER_REVIEW"

abbrev pub state_approved : LifecycleState
state_approved = "APPROVED"

abbrev pub state_published : LifecycleState
state_published = "PUBLISHED"

abbrev pub state_expired : LifecycleState
state_expired = "EXPIRED"

abbrev pub state_withdrawn : LifecycleState
state_withdrawn = "WITHDRAWN"

abbrev pub state_replaced : LifecycleState
state_replaced = "REPLACED"

abbrev pub state_superseded : LifecycleState
state_superseded = "SUPERSEDED"

-- Errors without a name of their own in the code are named for what they say.
pub data LifecycleError : Type 0 where
  unauthorized_publish unauthorized_reviewer stale_approval approval_digest_mismatch :
      LifecycleError
  invalid_publication_window not_yet_effective snapshot_expired illegal_state_transition :
      LifecycleError
  duplicate_transition missing_withdrawal_reason missing_replacement_reason : LifecycleError
  blank_approval_id blank_approver_subject snapshot_not_under_review : LifecycleError
  blank_approver_role blank_content_digest blank_successor already_registered : LifecycleError
  blank_tenant_id blank_snapshot_id invalid_version snapshot_not_found snapshot_withdrawn :
      LifecycleError

-- A time is its distance in nanoseconds from Go's zero time, a duration the bit pattern of an int64.
-- `a.Sub(b)`, for an `a` not before `b`, stops at the greatest duration.
unfoldable pub sub_time : ℕ → ℕ → ℕ
sub_time a b = if ltb (2 ^ 63 - 1) (a - b) then 2 ^ 63 - 1 else a - b

abbrev pub hour : ℕ
hour = 3600000000000

abbrev pub default_max_approval_validity : ℕ
default_max_approval_validity = 7 * 24 * hour

abbrev pub max_publication_window_duration : ℕ
max_publication_window_duration = 365 * 24 * hour

pub record ApprovalEvidence : Type 0 where
  pub approval_id : String
  pub approver_subject : String
  pub approver_role : String
  pub approved_at : ℕ
  pub content_digest : String
  pub decision_hash : String
  pub approval_notes : String
  pub max_approval_age : ℕ

unfoldable pub check_evidence : String → String → String → String → Option LifecycleError
check_evidence approval subject role digest =
    if trim_space approval == ""
    then some blank_approval_id
    else if trim_space subject == ""
    then some blank_approver_subject
    else if trim_space role == ""
    then some blank_approver_role
    else if trim_space digest == ""
    then some blank_content_digest
    else none

-- `hash` is the SHA-256 of the six fields' text.
unfoldable pub new_approval_evidence :
    (String → String → String → ℕ → String → String → String)
    → String
    → String
    → String
    → ℕ
    → String
    → String
    → ℕ
    → Result LifecycleError ApprovalEvidence
unfolding check_evidence
new_approval_evidence hash approval subject role approved_at digest notes max_age =
    elim (check_evidence approval subject role digest) [
      | some x ↦ err x
      | none ↦ ok (record {
        approval_id = trim_space approval;
        approver_subject = trim_space subject;
        approver_role = trim_space role;
        approved_at = approved_at;
        content_digest = trim_space digest;
        decision_hash =
            hash (trim_space approval) (trim_space subject) (trim_space role) approved_at
              (trim_space digest) (trim_space notes);
        approval_notes = trim_space notes;
        max_approval_age = if int_le max_age 0 then default_max_approval_validity else max_age;
      })
    ]

unfoldable pub is_stale : ApprovalEvidence → ℕ → Bool
unfolding sub_time
is_stale a now =
    if eqb a.approved_at 0
    then true
    else if ltb now a.approved_at
    then false
    else int_lt a.max_approval_age (sub_time now a.approved_at)

pub record EffectiveWindow : Type 0 where
  pub effective_from : ℕ
  pub expires_at : ℕ

unfoldable pub validate_window : EffectiveWindow → Option LifecycleError
unfolding sub_time
validate_window w =
    if eqb w.effective_from 0 || eqb w.expires_at 0
    then some invalid_publication_window
    else if ltb w.expires_at w.effective_from || eqb w.expires_at w.effective_from
    then some invalid_publication_window
    else if int_lt max_publication_window_duration (sub_time w.expires_at w.effective_from)
    then some invalid_publication_window
    else none

unfoldable pub is_effective : EffectiveWindow → ℕ → Bool
is_effective w now = ltb w.effective_from now || eqb now w.effective_from

unfoldable pub is_expired : EffectiveWindow → ℕ → Bool
is_expired w now = ltb w.expires_at now || eqb now w.expires_at

pub record LifecycleManagedSnapshot : Type 0 where
  pub snapshot_id : String
  pub tenant_id : String
  pub version : ℕ
  pub state : LifecycleState
  pub approval : ApprovalEvidence
  pub window : EffectiveWindow
  pub content_digest : String
  pub successor_id : String
  pub withdrawal_reason : String
  pub withdrawn_by : String
  pub replacement_reason : String
  pub created_at : ℕ
  pub updated_at : ℕ

unfoldable pub effective_state : LifecycleManagedSnapshot → ℕ → LifecycleState
unfolding is_expired
effective_state s now =
    if s.state == state_published && is_expired s.window now then state_expired else s.state

unfoldable pub is_active : LifecycleManagedSnapshot → ℕ → Bool
unfolding effective_state is_effective
is_active s now = effective_state s now == state_published && is_effective s.window now

pub record LifecycleAuditRecord : Type 0 where
  pub record_id : String
  pub tenant_id : String
  pub snapshot_id : String
  pub version : ℕ
  pub from_state : LifecycleState
  pub to_state : LifecycleState
  pub actor_subject : String
  pub actor_role : String
  pub timestamp : ℕ
  pub reason : String
  pub approval_id : String
  pub audit_digest : String

pub record LifecycleAuditLedger : Type 0 where
  pub records : List LifecycleAuditRecord

-- `digest` is the SHA-256 of the record's other fields.
abbrev pub append_record :
    (LifecycleAuditRecord → String)
    → LifecycleAuditLedger
    → LifecycleAuditRecord
    → LifecycleAuditLedger
append_record digest l rec = record {
  records = push l.records (record rec { audit_digest = digest rec });
}

unfoldable pub get_history :
    LifecycleAuditLedger → String → String → Result LifecycleError (List LifecycleAuditRecord)
get_history l tenant snapshot =
    if trim_space tenant == ""
    then err blank_tenant_id
    else if trim_space snapshot == ""
    then err blank_snapshot_id
    else ok (
        keep
          (λ (r : LifecycleAuditRecord).
            r.tenant_id == trim_space tenant && r.snapshot_id == trim_space snapshot)
          l.records)

-- The map of roles that every controller is made with, and that nothing changes.
abbrev pub is_authorized_role : String → Bool
is_authorized_role role = role == "AUDITOR" || role == "TENANT_ADMIN"
