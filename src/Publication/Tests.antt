-- ===== src/Publication/Tests.antt =====
-- A publication at concrete inputs.
use oshe_platform.Prelude.{String, ◌≡◌, refl, some, List, [], ◌∷◌, ok}
use oshe_platform.Prelude.Map.{lookup, insert, string_eq}
use oshe_platform.Prelude.Strings.{trim_space}
use oshe_platform.Publication.{
  ApprovalEvidence, is_stale, EffectiveWindow, validate_window, is_effective, is_expired,
  LifecycleManagedSnapshot, effective_state, LifecycleAuditRecord, sub_time, hour,
}
use oshe_platform.Publication.Controller.{
  new_lifecycle_controller, Actor, draft_of, check_draft, check_submit, check_approve,
  check_publish,
}
use oshe_platform.Publication.Transitions.{
  log, transition, register_draft, submit_for_review, approve, publish, get_snapshot, check_active,
  get_active_published_snapshot,
}
use oshe_platform.Publication.Run.{Call, draft, submit, approve_with, publish_in, withdraw_for, run}
use oshe_platform.Publication.Active.{IsActiveAt, get_active_published_snapshot-IsActiveAt}
use oshe_platform.Publication.Kept.{Kept, run-Kept}

abbrev digest : LifecycleAuditRecord → String
digest r = r.record_id

abbrev author : Actor
author = record { subject = "usr_kim"; role = "EDITOR"; now = 6 }

abbrev auditor : Actor
auditor = record { subject = "usr_lee"; role = "AUDITOR"; now = 8 }

abbrev evidence : ApprovalEvidence
evidence = record {
  approval_id = "apv-1";
  approver_subject = "usr_lee";
  approver_role = "AUDITOR";
  approved_at = 7;
  content_digest = "abc";
  decision_hash = "";
  approval_notes = "Checked";
  max_approval_age = hour;
}

abbrev window : EffectiveWindow
window = record { effective_from = 10; expires_at = 20 }

abbrev calls : List Call
calls =
    draft " acme" "s-1" 1 "abc" "usr_kim" 5
    ∷ submit "acme" "s-1" author
    ∷ approve_with "acme" "s-1" evidence 7
    ∷ publish_in "acme" "s-1" auditor window
    ∷ []

abbrev published_snapshot : LifecycleManagedSnapshot
published_snapshot = record {
  snapshot_id = "s-1";
  tenant_id = "acme";
  version = 1;
  state = "PUBLISHED";
  approval = evidence;
  window = window;
  content_digest = "abc";
  successor_id = "";
  withdrawal_reason = "";
  withdrawn_by = "";
  replacement_reason = "";
  created_at = 5;
  updated_at = 8;
}

active_test :
    get_active_published_snapshot (run digest new_lifecycle_controller calls) "acme" "s-1" 12
    ≡ ok published_snapshot
unfolding get_active_published_snapshot get_snapshot check_active effective_state is_expired
    is_effective run register_draft check_draft draft_of submit_for_review approve publish
    transition log check_submit check_approve check_publish is_stale sub_time validate_window
    trim_space lookup insert
active_test = refl

get_active_published_snapshot-IsActiveAt_example : IsActiveAt published_snapshot 12
get_active_published_snapshot-IsActiveAt_example =
    get_active_published_snapshot-IsActiveAt digest calls "acme" "s-1" 12 published_snapshot
      active_test

stored_test :
    lookup "acme:s-1" (run digest new_lifecycle_controller calls).snapshots
    ≡ some published_snapshot
unfolding run register_draft check_draft draft_of submit_for_review approve publish transition log
    check_submit check_approve check_publish is_stale sub_time validate_window is_expired trim_space
    lookup insert
stored_test = refl

run-Kept_example :
    Kept
      (run digest
        (run digest new_lifecycle_controller calls)
        (withdraw_for "acme" "s-1" auditor "Wrong site" ∷ []))
      "acme:s-1"
      published_snapshot
run-Kept_example =
    run-Kept digest (run digest new_lifecycle_controller calls)
      (withdraw_for "acme" "s-1" auditor "Wrong site" ∷ []) "acme:s-1" published_snapshot
      stored_test
