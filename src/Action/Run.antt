-- ===== src/Action/Run.antt =====
-- Any sequence of calls on the manager of modules/workflow-action/action_lifecycle.go. The lock
-- makes a method one step, so concurrent calls are one of these sequences.
use mathlib.Core.Path.{subst}
use oshe_platform.Prelude.{
  ℕ, String, ◌≡◌, refl, sym, ◌∙◌, Option, none, some, List, [], ◌∷◌, Result, ok, err, Result-cases,
  arith, Option-cases, inl, inr,
}
use oshe_platform.Prelude.Map.{lookup, insert, lookup-insert_cases, string_eq}
use oshe_platform.Prelude.Strings.{trim_space}
use oshe_platform.Action.{ActionError, EvidenceAttachment, Action}
use oshe_platform.Action.Decide.{
  Verdict, start_work_of, attach_evidence_of, submit_for_review_of, reject_review_of,
  close_action_of, reopen_action_of, check_overdue_of,
}
use oshe_platform.Action.Manager.{
  ActionKey, key_eq, ActionManager, CreateActionRequest, new_action, check_create, create_action,
  find_action, settle, on_action, start_work, attach_evidence, submit_for_review, reject_review,
  close_action, reopen_action, check_overdue,
}
use oshe_platform.Action.Sound.{
  IsSoundAction, Keeps, by_refusal, by_leave, by_update, new_action-IsSoundAction,
}
use oshe_platform.Action.Keeps.{
  start_work-Keeps, submit_for_review-Keeps, reject_review-Keeps, check_overdue-Keeps,
  attach_evidence-Keeps, close_action-Keeps, reopen_action-Keeps,
}

pub data Call : Type 0 where
  create : String → CreateActionRequest → ℕ → Call
  start : String → String → String → ℕ → Call
  attach_to : String → String → String → EvidenceAttachment → ℕ → Call
  submit : String → String → String → String → ℕ → Call
  reject : String → String → String → String → ℕ → Call
  close : String → String → String → String → ℕ → Call
  reopen : String → String → String → String → ℕ → Call
  timer : String → String → ℕ → Call

abbrev pub error_of {ℓ} : {A : Type ℓ} → Result ActionError A → Option ActionError
error_of (ok _) = none
error_of (err x) = some x

abbrev pub exec : (ℕ → String) → ActionManager → Call → ActionManager × Option ActionError
exec f m (create t req now) = let r = create_action m t req now in (r.0, error_of r.1)
exec f m (start t id who now) = start_work m t id who now
exec f m (attach_to t id who ev now) = attach_evidence m t id who ev now
exec f m (submit t id who notes now) = submit_for_review m t id who notes now
exec f m (reject t id who reason now) = reject_review m t id who reason now
exec f m (close t id who notes now) = close_action m t id who notes now
exec f m (reopen t id who reason now) = reopen_action m t id who reason now
exec f m (timer t id now) = let r = check_overdue f m t id now in (r.0, error_of r.1)

unfoldable pub run : (ℕ → String) → ActionManager → List Call → ActionManager
run f m [] = m
run f m (c ∷ cs) = run f (exec f m c).0 cs

-- The key that a call is about.
abbrev pub target : Call → ActionKey
target (create t req _) = record { tenant_id = trim_space t; action_id = trim_space req.id }
target (start t id _ _) = record { tenant_id = trim_space t; action_id = trim_space id }
target (attach_to t id _ _ _) = record { tenant_id = trim_space t; action_id = trim_space id }
target (submit t id _ _ _) = record { tenant_id = trim_space t; action_id = trim_space id }
target (reject t id _ _ _) = record { tenant_id = trim_space t; action_id = trim_space id }
target (close t id _ _ _) = record { tenant_id = trim_space t; action_id = trim_space id }
target (reopen t id _ _ _) = record { tenant_id = trim_space t; action_id = trim_space id }
target (timer t id _) = record { tenant_id = trim_space t; action_id = trim_space id }

-- An action is sound, and stands under its own tenant and identifier.
pub record IsFiled (k : ActionKey) (act : Action) : Type 0 where
  pub sound : IsSoundAction act
  pub tenant : act.tenant_id ≡ k.tenant_id
  pub identifier : act.id ≡ k.action_id

abbrev pub IsSoundManager : ActionManager → Type 0
IsSoundManager m = (k : ActionKey) (act : Action) → lookup k m.actions ≡ some act → IsFiled k act

insert-IsSoundManager :
    (m : ActionManager) (k : ActionKey) (act : Action)
    → IsSoundManager m
    → IsFiled k act
    → IsSoundManager (record { actions = insert k act m.actions })
insert-IsSoundManager m k act h f k' act' e = elim (lookup-insert_cases k k' act m.actions e) [
  | inl s ↦ subst (IsFiled k') s.1 (subst (λ (j : ActionKey). IsFiled j act) s.0 f)
  | inr s ↦ h k' act' s.1
]

pub find_action_lem :
    (m : ActionManager) (t id : String) (act : Action)
    → find_action m t id ≡ ok act
    → lookup (record { tenant_id = trim_space t; action_id = trim_space id }) m.actions ≡ some act
unfolding find_action
find_action_lem m t id act e = ground arith

settle-IsSoundManager :
    (m : ActionManager) (t id : String) (act : Action) (v : Verdict)
    → IsSoundManager m
    → IsFiled (record { tenant_id = trim_space t; action_id = trim_space id }) act
    → Keeps act v
    → IsSoundManager (settle m t id v).0
unfolding settle
settle-IsSoundManager m t id act _ h f (by_refusal x) = h
settle-IsSoundManager m t id act _ h f by_leave = h
settle-IsSoundManager m t id act _ h f (by_update act' s i n o r) =
    insert-IsSoundManager m _ act' h
      (record { sound = s; tenant = n ∙ f.tenant; identifier = i ∙ f.identifier })

on_action-IsSoundManager :
    (m : ActionManager) (t id : String) (decide : Action → Verdict)
    → IsSoundManager m
    → ((act : Action) → IsSoundAction act → Keeps act (decide act))
    → IsSoundManager (on_action m t id decide).0
unfolding on_action
on_action-IsSoundManager m t id decide h k = elim (Result-cases (find_action m t id)) [
  | inl f ↦
      let filed = h _ f.0 (find_action_lem m t id f.0 f.1) in
      rw (on_action, f.1)
        (settle-IsSoundManager m t id f.0 (decide f.0) h filed (k f.0 filed.sound))
  | inr f ↦ rw (on_action, f.1) h
]

-- The timer's method changes the manager as the others do.
pub check_overdue-on_action :
    (f : ℕ → String) (m : ActionManager) (t id : String) (now : ℕ)
    → (check_overdue f m t id now).0 ≡ (on_action m t id (check_overdue_of f now)).0
unfolding check_overdue on_action
check_overdue-on_action f m t id now = elim (Result-cases (find_action m t id)) [
  | inl h ↦ rw (check_overdue, on_action, h.1)
  | inr h ↦ rw (check_overdue, on_action, h.1)
]

new_action-IsFiled :
    (t : String) (req : CreateActionRequest) (now : ℕ)
    → IsFiled (record { tenant_id = t; action_id = trim_space req.id }) (new_action t req now)
unfolding new_action
new_action-IsFiled t req now = record {
  sound = new_action-IsSoundAction t req now;
  tenant = refl;
  identifier = refl;
}

create_action-IsSoundManager :
    (m : ActionManager) (t : String) (req : CreateActionRequest) (now : ℕ)
    → IsSoundManager m
    → IsSoundManager (create_action m t req now).0
unfolding create_action
create_action-IsSoundManager m t req now h =
    elim (Option-cases (check_create m (trim_space t) req)) [
      | inl e ↦
          rw (create_action, e)
            (insert-IsSoundManager m _ _ h (new_action-IsFiled (trim_space t) req now))
      | inr e ↦ rw (create_action, e.1) h
    ]

pub exec-IsSoundManager :
    (f : ℕ → String) (m : ActionManager) (c : Call)
    → IsSoundManager m
    → IsSoundManager (exec f m c).0
unfolding start_work attach_evidence submit_for_review reject_review close_action reopen_action
exec-IsSoundManager f m (create t req now) h = create_action-IsSoundManager m t req now h
exec-IsSoundManager f m (start t id who now) h =
    on_action-IsSoundManager m t id (start_work_of who now) h (start_work-Keeps who now)
exec-IsSoundManager f m (attach_to t id who ev now) h =
    on_action-IsSoundManager m t id (attach_evidence_of who ev now) h
      (attach_evidence-Keeps who ev now)
exec-IsSoundManager f m (submit t id who notes now) h =
    on_action-IsSoundManager m t id (submit_for_review_of who notes now) h
      (submit_for_review-Keeps who notes now)
exec-IsSoundManager f m (reject t id who reason now) h =
    on_action-IsSoundManager m t id (reject_review_of who reason now) h
      (reject_review-Keeps who reason now)
exec-IsSoundManager f m (close t id who notes now) h =
    on_action-IsSoundManager m t id (close_action_of who notes now) h
      (close_action-Keeps who notes now)
exec-IsSoundManager f m (reopen t id who reason now) h =
    on_action-IsSoundManager m t id (reopen_action_of who reason now) h
      (reopen_action-Keeps who reason now)
exec-IsSoundManager f m (timer t id now) h =
    subst IsSoundManager (sym (check_overdue-on_action f m t id now))
      (on_action-IsSoundManager m t id (check_overdue_of f now) h (check_overdue-Keeps f now))

-- Any calls from a sound manager lead to a sound manager: each stored action stands under its own
-- tenant and identifier, its history is numbered from 1, in 64-bit numbers, and leads from ASSIGNED
-- to its state by moves that the diagram permits to the owner, the reviewer or the timer, and it
-- carries a closing time and a closer exactly while it is CLOSED, when its evidence suffices and
-- its reviewer closed it.
pub run-IsSoundManager :
    (f : ℕ → String) (m : ActionManager) (cs : List Call)
    → IsSoundManager m
    → IsSoundManager (run f m cs)
unfolding run
run-IsSoundManager f m [] h = h
run-IsSoundManager f m (c ∷ cs) h =
    run-IsSoundManager f (exec f m c).0 cs (exec-IsSoundManager f m c h)
