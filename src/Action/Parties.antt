-- ===== src/Action/Parties.antt =====
-- A stored action of modules/workflow-action/action_lifecycle.go stays, with its owner and
-- reviewer.
use mathlib.Core.Path.{subst}
use oshe_platform.Prelude.{
  ℕ, String, ◌≡◌, refl, sym, ap, ◌∙◌, none, some, List, [], ◌∷◌, ok, Result-cases, arith,
  Bool-cases, Option-cases, inl, inr,
}
use oshe_platform.Prelude.Map.{lookup, lookup-insert, beq_refl, string_eq, ◌==◌}
use oshe_platform.Prelude.Strings.{trim_space}
use oshe_platform.Action.{Action}
use oshe_platform.Action.Decide.{
  Verdict, start_work_of, attach_evidence_of, submit_for_review_of, reject_review_of,
  close_action_of, reopen_action_of, check_overdue_of,
}
use oshe_platform.Action.Manager.{
  ActionKey, key_eq, key_beq_iff, ActionManager, CreateActionRequest, check_create, create_action,
  find_action, settle, on_action, start_work, attach_evidence, submit_for_review, reject_review,
  close_action, reopen_action,
}
use oshe_platform.Action.Sound.{IsSoundAction, Keeps, by_refusal, by_leave, by_update}
use oshe_platform.Action.Keeps.{
  start_work-Keeps, submit_for_review-Keeps, reject_review-Keeps, check_overdue-Keeps,
  attach_evidence-Keeps, close_action-Keeps, reopen_action-Keeps,
}
use oshe_platform.Action.Frame.{exec_frame}
use oshe_platform.Action.Run.{
  Call, create, start, attach_to, submit, reject, close, reopen, timer, exec, run, target,
  find_action_lem, check_overdue-on_action, IsSoundManager, exec-IsSoundManager,
}

-- An action that has become another value keeps the people who act on it.
pub record HasSameParties (act act' : Action) : Type 0 where
  pub owner : act'.owner ≡ act.owner
  pub reviewer : act'.reviewer ≡ act.reviewer

abbrev Survives : ActionManager → ActionKey → Action → Type 0
Survives m k act = (act' : Action) × ((lookup k m.actions ≡ some act') × HasSameParties act act')

settle-Survives :
    (m : ActionManager) (t id : String) (act : Action) (v : Verdict)
    → lookup (record { tenant_id = trim_space t; action_id = trim_space id }) m.actions ≡ some act
    → Keeps act v
    → Survives
        (settle m t id v).0
        (record { tenant_id = trim_space t; action_id = trim_space id })
        act
unfolding settle
settle-Survives m t id act _ e (by_refusal x) = (act, (e, record { owner = refl; reviewer = refl }))
settle-Survives m t id act _ e by_leave = (act, (e, record { owner = refl; reviewer = refl }))
settle-Survives m t id act _ e (by_update act' s i n o r) = (
  act',
  (
    lookup-insert (record { tenant_id = trim_space t; action_id = trim_space id })
          (record { tenant_id = trim_space t; action_id = trim_space id }) act' m.actions
        ∙ rw beq_refl,
    record { owner = o; reviewer = r },
  ),
)

find_action_same :
    (m : ActionManager) (t id : String) (act found : Action)
    → lookup (record { tenant_id = trim_space t; action_id = trim_space id }) m.actions ≡ some act
    → find_action m t id ≡ ok found
    → found ≡ act
find_action_same m t id act found e f = ground (arith, find_action_lem m t id found f)

on_action-Survives :
    (m : ActionManager) (t id : String) (act : Action) (decide : Action → Verdict)
    → lookup (record { tenant_id = trim_space t; action_id = trim_space id }) m.actions ≡ some act
    → Keeps act (decide act)
    → Survives
        (on_action m t id decide).0
        (record { tenant_id = trim_space t; action_id = trim_space id })
        act
unfolding on_action
on_action-Survives m t id act decide e k = elim (Result-cases (find_action m t id)) [
  | inl f ↦
      rw (on_action, f.1, find_action_same m t id act f.0 e f.1)
        (settle-Survives m t id act (decide act) e k)
  | inr f ↦ rw (on_action, f.1) (act, (e, record { owner = refl; reviewer = refl }))
]

check_create_fresh :
    (m : ActionManager) (t : String) (req : CreateActionRequest)
    → check_create m t req ≡ none
    → lookup (record { tenant_id = t; action_id = trim_space req.id }) m.actions ≡ none
unfolding check_create
check_create_fresh m t req h = ground arith

-- A duplicate is refused, so creation replaces nothing.
create_action-Survives :
    (m : ActionManager) (t : String) (req : CreateActionRequest) (now : ℕ) (act : Action)
    → lookup (record { tenant_id = trim_space t; action_id = trim_space req.id }) m.actions
      ≡ some act
    → Survives
        (create_action m t req now).0
        (record { tenant_id = trim_space t; action_id = trim_space req.id })
        act
unfolding create_action
create_action-Survives m t req now act e = elim (Option-cases (check_create m (trim_space t) req)) [
  | inl c ↦ absurd (ground (arith, check_create_fresh m (trim_space t) req c))
  | inr c ↦ rw (create_action, c.1) (act, (e, record { owner = refl; reviewer = refl }))
]

target-Survives :
    (f : ℕ → String) (m : ActionManager) (c : Call) (act : Action)
    → lookup (target c) m.actions ≡ some act
    → IsSoundAction act
    → Survives (exec f m c).0 (target c) act
unfolding start_work attach_evidence submit_for_review reject_review close_action reopen_action
target-Survives f m (create t req now) act e h = create_action-Survives m t req now act e
target-Survives f m (start t id who now) act e h =
    on_action-Survives m t id act (start_work_of who now) e (start_work-Keeps who now act h)
target-Survives f m (attach_to t id who ev now) act e h =
    on_action-Survives m t id act (attach_evidence_of who ev now) e
      (attach_evidence-Keeps who ev now act h)
target-Survives f m (submit t id who notes now) act e h =
    on_action-Survives m t id act (submit_for_review_of who notes now) e
      (submit_for_review-Keeps who notes now act h)
target-Survives f m (reject t id who reason now) act e h =
    on_action-Survives m t id act (reject_review_of who reason now) e
      (reject_review-Keeps who reason now act h)
target-Survives f m (close t id who notes now) act e h =
    on_action-Survives m t id act (close_action_of who notes now) e
      (close_action-Keeps who notes now act h)
target-Survives f m (reopen t id who reason now) act e h =
    on_action-Survives m t id act (reopen_action_of who reason now) e
      (reopen_action-Keeps who reason now act h)
target-Survives f m (timer t id now) act e h =
    subst
      (λ (m' : ActionManager).
        Survives m' (record { tenant_id = trim_space t; action_id = trim_space id }) act)
      (sym (check_overdue-on_action f m t id now))
      (on_action-Survives m t id act (check_overdue_of f now) e (check_overdue-Keeps f now act h))

exec-Survives :
    (f : ℕ → String) (m : ActionManager) (c : Call) (k : ActionKey) (act : Action)
    → lookup k m.actions ≡ some act
    → IsSoundAction act
    → Survives (exec f m c).0 k act
exec-Survives f m c k act e h = elim (Bool-cases (target c == k)) [
  | inl s ↦
      let same = (key_beq_iff (target c) k).0 s in
      subst (λ (j : ActionKey). Survives (exec f m c).0 j act) same
        (target-Survives f m c act (ap (λ (j : ActionKey). lookup j m.actions) same ∙ e) h)
  | inr s ↦ (act, (exec_frame f m c k s ∙ e, record { owner = refl; reviewer = refl }))
]

-- An action of a sound manager is still stored after any calls, with the same owner and reviewer.
pub run-Survives :
    (f : ℕ → String) (m : ActionManager) (cs : List Call) (k : ActionKey) (act : Action)
    → IsSoundManager m
    → lookup k m.actions ≡ some act
    → (act' : Action) × ((lookup k (run f m cs).actions ≡ some act')
        × (act'.owner ≡ act.owner)
        × (act'.reviewer ≡ act.reviewer))
unfolding run
run-Survives f m [] k act h e = (act, (e, refl, refl))
run-Survives f m (c ∷ cs) k act h e =
    let now = exec-Survives f m c k act e (h k act e).sound in
    let later = run-Survives f (exec f m c).0 cs k now.0 (exec-IsSoundManager f m c h) now.1.0 in
    (later.0, (later.1.0, later.1.1 ∙ now.1.1.owner, later.1.2 ∙ now.1.1.reviewer))
