-- ===== src/Publication/Transitions.antt =====
-- The transitions of the controller of modules/publication-snapshot/publication_lifecycle.go, and its readers.
use Prim.Native.String.{◌++◌}
use oshe_platform.Prelude.{
  ℕ, ◌+◌, String, not, ◌||◌, Option, none, some, wrap, Result, ok, err, if◌then◌else◌,
}
use oshe_platform.Prelude.Map.{lookup, insert, string_eq, ◌==◌}
use oshe_platform.Prelude.Strings.{trim_space, print_int}
use oshe_platform.Publication.{
  LifecycleState, state_published, state_expired, state_withdrawn, state_replaced, state_superseded,
  LifecycleError, unauthorized_reviewer, not_yet_effective, snapshot_expired,
  illegal_state_transition, missing_withdrawal_reason, missing_replacement_reason, blank_successor,
  already_registered, snapshot_not_found, snapshot_withdrawn, ApprovalEvidence, EffectiveWindow,
  is_effective, LifecycleManagedSnapshot, effective_state, LifecycleAuditRecord, append_record,
  is_authorized_role,
}
use oshe_platform.Publication.Controller.{
  LifecycleController, make_lifecycle_key, Actor, draft_of, check_draft, check_submit,
  check_approve, check_publish, check_withdraw, check_published, submitted, approved, published,
  withdrawn, replaced, superseded,
}

module _ (digest : LifecycleAuditRecord → String) where
  -- The write of a snapshot, the next number and the audit record with it.
  unfoldable pub log :
      LifecycleController
      → String
      → LifecycleManagedSnapshot
      → LifecycleState
      → Actor
      → String
      → String
      → LifecycleController
  log c key s from_state who reason approval_id = record c {
    snapshots = insert key s c.snapshots;
    transition_seq = wrap (c.transition_seq + 1);
    ledger = append_record digest c.ledger (record {
      record_id = "audit_" ++ print_int (wrap (c.transition_seq + 1));
      tenant_id = s.tenant_id;
      snapshot_id = s.snapshot_id;
      version = s.version;
      from_state = from_state;
      to_state = s.state;
      actor_subject = who.subject;
      actor_role = who.role;
      timestamp = who.now;
      reason = reason;
      approval_id = approval_id;
      audit_digest = "";
    });
  }

  -- The lookup, the checks and the write that the transitions share.
  unfoldable pub transition :
      LifecycleController
      → String
      → String
      → (LifecycleManagedSnapshot → Option LifecycleError)
      → (LifecycleManagedSnapshot → LifecycleManagedSnapshot)
      → Actor
      → String
      → (LifecycleManagedSnapshot → String)
      → LifecycleController × Result LifecycleError LifecycleManagedSnapshot
  unfolding log
  transition c tenant snapshot check change who reason approval_id =
      elim (lookup (make_lifecycle_key tenant snapshot) c.snapshots) [
        | none ↦ (c, err snapshot_not_found)
        | some s ↦ elim (check s) [
          | some x ↦ (c, err x)
          | none ↦ (
            log c (make_lifecycle_key tenant snapshot) (change s) s.state who reason
                (approval_id s),
            ok (change s),
          )
        ]
      ]

  unfoldable pub register_draft :
      LifecycleController
      → String
      → String
      → ℕ
      → String
      → String
      → ℕ
      → LifecycleController × Result LifecycleError LifecycleManagedSnapshot
  unfolding check_draft log
  register_draft c tenant snapshot version content_digest creator now =
      elim (check_draft tenant snapshot version content_digest) [
        | some x ↦ (c, err x)
        | none ↦
            elim (lookup (make_lifecycle_key (trim_space tenant) (trim_space snapshot))
              c.snapshots) [
                | some _ ↦ (c, err already_registered)
                | none ↦
                    let s = draft_of tenant snapshot version content_digest now in
                    (
                      log c (make_lifecycle_key (trim_space tenant) (trim_space snapshot)) s ""
                          (record { subject = creator; role = "CREATOR"; now = now })
                          "Initial draft registration" "",
                      ok s,
                    )
              ]
      ]

  unfoldable pub submit_for_review :
      LifecycleController
      → String
      → String
      → Actor
      → LifecycleController × Result LifecycleError LifecycleManagedSnapshot
  unfolding transition
  submit_for_review c tenant snapshot who =
      transition c tenant snapshot check_submit (submitted who.now) who
        "Submitted for publication review" (λ s. "")

  unfoldable pub approve :
      LifecycleController
      → String
      → String
      → ApprovalEvidence
      → ℕ
      → LifecycleController × Result LifecycleError LifecycleManagedSnapshot
  unfolding transition
  approve c tenant snapshot evidence now =
      transition c tenant snapshot (check_approve evidence now) (approved evidence now)
        (record { subject = evidence.approver_subject; role = evidence.approver_role; now = now })
        evidence.approval_notes (λ s. evidence.approval_id)

  unfoldable pub publish :
      LifecycleController
      → String
      → String
      → Actor
      → EffectiveWindow
      → LifecycleController × Result LifecycleError LifecycleManagedSnapshot
  unfolding transition
  publish c tenant snapshot who window =
      transition c tenant snapshot (check_publish who.role window who.now)
        (published window who.now) who "Published within authorized effective window"
        (λ (s : LifecycleManagedSnapshot). s.approval.approval_id)

  unfoldable pub withdraw :
      LifecycleController
      → String
      → String
      → Actor
      → String
      → LifecycleController × Result LifecycleError LifecycleManagedSnapshot
  unfolding transition
  withdraw c tenant snapshot who reason =
      if trim_space reason == ""
      then (c, err missing_withdrawal_reason)
      else if not (is_authorized_role who.role)
      then (c, err unauthorized_reviewer)
      else transition c tenant snapshot check_withdraw (withdrawn reason who) who
          (trim_space reason) (λ s. "")

  unfoldable pub replace :
      LifecycleController
      → String
      → String
      → String
      → Actor
      → String
      → LifecycleController × Result LifecycleError LifecycleManagedSnapshot
  unfolding transition
  replace c tenant snapshot successor who reason =
      if trim_space successor == ""
      then (c, err blank_successor)
      else if trim_space reason == ""
      then (c, err missing_replacement_reason)
      else transition c tenant snapshot check_published (replaced successor reason who.now) who
          (trim_space reason) (λ s. "")

  unfoldable pub supersede :
      LifecycleController
      → String
      → String
      → String
      → Actor
      → LifecycleController × Result LifecycleError LifecycleManagedSnapshot
  unfolding transition
  supersede c tenant snapshot successor who =
      if trim_space successor == ""
      then (c, err blank_successor)
      else transition c tenant snapshot check_published (superseded successor who.now) who
          ("Superseded by version " ++ trim_space successor) (λ s. "")

unfoldable pub get_snapshot :
    LifecycleController → String → String → ℕ → Result LifecycleError LifecycleManagedSnapshot
get_snapshot c tenant snapshot now =
    elim (lookup (make_lifecycle_key tenant snapshot) c.snapshots) [
      | none ↦ err snapshot_not_found
      | some s ↦ ok (record s { state = effective_state s now })
    ]

unfoldable pub check_active : LifecycleManagedSnapshot → ℕ → Option LifecycleError
check_active s now =
    if s.state == state_expired
    then some snapshot_expired
    else if s.state == state_withdrawn
    then some snapshot_withdrawn
    else if s.state == state_replaced || s.state == state_superseded
    then some illegal_state_transition
    else if not (s.state == state_published)
    then some illegal_state_transition
    else if not (is_effective s.window now)
    then some not_yet_effective
    else none

unfoldable pub get_active_published_snapshot :
    LifecycleController → String → String → ℕ → Result LifecycleError LifecycleManagedSnapshot
unfolding get_snapshot check_active
get_active_published_snapshot c tenant snapshot now = elim (get_snapshot c tenant snapshot now) [
  | err x ↦ err x
  | ok s ↦ elim (check_active s now) [ some x ↦ err x | none ↦ ok s ]
]
