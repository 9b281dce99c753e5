-- ===== src/Action/Frame.antt =====
-- What a call on the manager of modules/workflow-action/action_lifecycle.go leaves alone.
use oshe_platform.Prelude.{
  ℕ, String, ◌≡◌, refl, ap, ◌∙◌, false, some, Result-cases, arith, Option-cases, inl, inr,
}
use oshe_platform.Prelude.Map.{lookup, lookup-insert, string_eq, ◌==◌}
use oshe_platform.Prelude.Strings.{trim_space}
use oshe_platform.Action.{ActionError, Action}
use oshe_platform.Action.Decide.{
  Verdict, refuse, leave, update, start_work_of, attach_evidence_of, submit_for_review_of,
  reject_review_of, close_action_of, reopen_action_of, check_overdue_of,
}
use oshe_platform.Action.Manager.{
  ActionKey, key_eq, ActionManager, CreateActionRequest, new_action, check_create, create_action,
  find_action, settle, on_action, start_work, attach_evidence, submit_for_review, reject_review,
  close_action, reopen_action, check_overdue,
}
use oshe_platform.Action.Run.{
  Call, create, start, attach_to, submit, reject, close, reopen, timer, exec, target, error_of,
  check_overdue-on_action,
}

settle_frame :
    (m : ActionManager) (t id : String) (v : Verdict) (k : ActionKey)
    → (record { tenant_id = trim_space t; action_id = trim_space id } == k) ≡ false
    → lookup k (settle m t id v).0.actions ≡ lookup k m.actions
unfolding settle
settle_frame m t id (refuse x) k h = refl
settle_frame m t id leave k h = refl
settle_frame m t id (update act) k h =
    lookup-insert (record { tenant_id = trim_space t; action_id = trim_space id }) k act m.actions
    ∙ rw h

on_action_frame :
    (m : ActionManager) (t id : String) (decide : Action → Verdict) (k : ActionKey)
    → (record { tenant_id = trim_space t; action_id = trim_space id } == k) ≡ false
    → lookup k (on_action m t id decide).0.actions ≡ lookup k m.actions
unfolding on_action
on_action_frame m t id decide k h = elim (Result-cases (find_action m t id)) [
  | inl f ↦ rw (on_action, f.1) (settle_frame m t id (decide f.0) k h)
  | inr f ↦ rw (on_action, f.1)
]

create_action_frame :
    (m : ActionManager) (t : String) (req : CreateActionRequest) (now : ℕ) (k : ActionKey)
    → (record { tenant_id = trim_space t; action_id = trim_space req.id } == k) ≡ false
    → lookup k (create_action m t req now).0.actions ≡ lookup k m.actions
unfolding create_action
create_action_frame m t req now k h = elim (Option-cases (check_create m (trim_space t) req)) [
  | inl e ↦
      rw (create_action, e)
        (lookup-insert (record { tenant_id = trim_space t; action_id = trim_space req.id }) k
            (new_action (trim_space t) req now) m.actions
          ∙ rw h)
  | inr e ↦ rw (create_action, e.1)
]

-- A call changes no action but the one that it names, and so none of another tenant.
pub exec_frame :
    (f : ℕ → String) (m : ActionManager) (c : Call) (k : ActionKey)
    → (target c == k) ≡ false
    → lookup k (exec f m c).0.actions ≡ lookup k m.actions
unfolding start_work attach_evidence submit_for_review reject_review close_action reopen_action
exec_frame f m (create t req now) k h = create_action_frame m t req now k h
exec_frame f m (start t id who now) k h = on_action_frame m t id (start_work_of who now) k h
exec_frame f m (attach_to t id who ev now) k h =
    on_action_frame m t id (attach_evidence_of who ev now) k h
exec_frame f m (submit t id who notes now) k h =
    on_action_frame m t id (submit_for_review_of who notes now) k h
exec_frame f m (reject t id who reason now) k h =
    on_action_frame m t id (reject_review_of who reason now) k h
exec_frame f m (close t id who notes now) k h =
    on_action_frame m t id (close_action_of who notes now) k h
exec_frame f m (reopen t id who reason now) k h =
    on_action_frame m t id (reopen_action_of who reason now) k h
exec_frame f m (timer t id now) k h =
    ap (λ (m' : ActionManager). lookup k m'.actions) (check_overdue-on_action f m t id now)
    ∙ on_action_frame m t id (check_overdue_of f now) k h

settle_refused :
    (m : ActionManager) (t id : String) (v : Verdict) (x : ActionError)
    → (settle m t id v).1 ≡ some x
    → (settle m t id v).0 ≡ m
unfolding settle
settle_refused m t id (refuse y) x h = refl
settle_refused m t id leave x h = refl
settle_refused m t id (update act) x h = absurd (ground arith)

on_action_refused :
    (m : ActionManager) (t id : String) (decide : Action → Verdict) (x : ActionError)
    → (on_action m t id decide).1 ≡ some x
    → (on_action m t id decide).0 ≡ m
unfolding on_action
on_action_refused m t id decide x h = elim (Result-cases (find_action m t id)) [
  | inl f ↦ rw (on_action, f.1) (settle_refused m t id (decide f.0) x (rw (on_action, f.1) at h))
  | inr f ↦ rw (on_action, f.1)
]

create_action_refused :
    (m : ActionManager) (t : String) (req : CreateActionRequest) (now : ℕ) (x : ActionError)
    → error_of (create_action m t req now).1 ≡ some x
    → (create_action m t req now).0 ≡ m
unfolding create_action
create_action_refused m t req now x h = elim (Option-cases (check_create m (trim_space t) req)) [
  | inl e ↦ absurd (ground (arith, rw (create_action, e) at h))
  | inr e ↦ rw (create_action, e.1)
]

check_overdue_refused :
    (f : ℕ → String) (m : ActionManager) (t id : String) (now : ℕ) (x : ActionError)
    → error_of (check_overdue f m t id now).1 ≡ some x
    → (check_overdue f m t id now).0 ≡ m
unfolding check_overdue
check_overdue_refused f m t id now x h = elim (Result-cases (find_action m t id)) [
  | inl e ↦ absurd (ground (arith, rw (check_overdue, e.1) at h))
  | inr e ↦ rw (check_overdue, e.1)
]

-- A call that returns an error leaves the manager as it was.
pub exec_refused :
    (f : ℕ → String) (m : ActionManager) (c : Call) (x : ActionError)
    → (exec f m c).1 ≡ some x
    → (exec f m c).0 ≡ m
unfolding start_work attach_evidence submit_for_review reject_review close_action reopen_action
exec_refused f m (create t req now) x h = create_action_refused m t req now x h
exec_refused f m (start t id who now) x h = on_action_refused m t id (start_work_of who now) x h
exec_refused f m (attach_to t id who ev now) x h =
    on_action_refused m t id (attach_evidence_of who ev now) x h
exec_refused f m (submit t id who notes now) x h =
    on_action_refused m t id (submit_for_review_of who notes now) x h
exec_refused f m (reject t id who reason now) x h =
    on_action_refused m t id (reject_review_of who reason now) x h
exec_refused f m (close t id who notes now) x h =
    on_action_refused m t id (close_action_of who notes now) x h
exec_refused f m (reopen t id who reason now) x h =
    on_action_refused m t id (reopen_action_of who reason now) x h
exec_refused f m (timer t id now) x h = check_overdue_refused f m t id now x h
