-- ===== src/Action/Sound.antt =====
-- What the methods of modules/workflow-action/action_lifecycle.go keep of one action.
use mathlib.Core.Path.{subst}
use oshe_platform.Prelude.{
  ℕ, ◌+◌, String, ◌≡◌, ◌≢◌, refl, sym, true, false, none, some, List, [], ◌∷◌, wrap, length, push,
  arith, ◌⊎◌,
}
use oshe_platform.Prelude.Map.{string_eq}
use oshe_platform.Prelude.Strings.{trim_space}
use oshe_platform.Action.{
  ActionState, assigned, in_progress, in_review, rejected, overdue, closed, reopened, ActionError,
  ActionHistoryEntry, Action,
}
use oshe_platform.Action.Decide.{
  Verdict, refuse, leave, update, can_start, can_submit, lacks_evidence,
}
use oshe_platform.Action.Manager.{key_eq, CreateActionRequest, new_action}

-- Who may take an action from one state to another; an entry that keeps the state attaches
-- evidence.
abbrev pub Permitted : String → String → ActionState → ActionState → String → Type 0
Permitted owner reviewer s in_progress who =
    (trim_space who ≡ owner) × ((can_start s ≡ true) ⊎ (s ≡ in_progress))
Permitted owner reviewer s in_review who =
    (trim_space who ≡ owner) × ((can_submit s ≡ true) ⊎ (s ≡ in_review))
Permitted owner reviewer s rejected who =
    ((trim_space who ≡ reviewer) × (s ≡ in_review)) ⊎ ((trim_space who ≡ owner) × (s ≡ rejected))
Permitted owner reviewer s closed who = (trim_space who ≡ reviewer) × (s ≡ in_review)
Permitted owner reviewer s reopened who =
    ((trim_space who ≡ reviewer) × (s ≡ closed)) ⊎ ((trim_space who ≡ owner) × (s ≡ reopened))
Permitted owner reviewer s overdue who =
    ((who ≡ "system_timer") × (s ≢ closed)) ⊎ ((trim_space who ≡ owner) × (s ≡ overdue))
Permitted owner reviewer s assigned who = (trim_space who ≡ owner) × (s ≡ assigned)

-- The entries are numbered from `n`, and lead by permitted moves from one state to another.
abbrev pub Trail :
    String → String → ℕ → ActionState → List ActionHistoryEntry → ActionState → Type 0
Trail owner reviewer n s [] t = s ≡ t
Trail owner reviewer n s (x ∷ xs) t =
    (x.sequence ≡ wrap n)
    × (x.from_state ≡ some s)
    × Permitted owner reviewer s x.to_state x.actor
    × Trail owner reviewer (n + 1) x.to_state xs t

Trail-push :
    (owner reviewer : String) (n : ℕ) (s : ActionState) (xs : List ActionHistoryEntry)
    (x : ActionHistoryEntry) (t : ActionState)
    → Trail owner reviewer n s xs t
    → x.sequence ≡ wrap (n + length xs)
    → x.from_state ≡ some t
    → Permitted owner reviewer t x.to_state x.actor
    → Trail owner reviewer n s (push xs x) x.to_state
Trail-push o r n s [] x t h q f p = (
  omega arith,
  rw h f,
  subst (λ (u : ActionState). Permitted o r u x.to_state x.actor) (sym h) p,
  refl,
)
Trail-push o r n s (y ∷ xs) x t h q f p =
    (h.0, h.1, h.2, Trail-push o r (n + 1) y.to_state xs x t h.3 (omega arith) f p)

-- The first entry is the creation, and the rest lead from ASSIGNED to the action's state.
abbrev pub HasTrail : String → String → ActionState → List ActionHistoryEntry → Type 0
HasTrail owner reviewer t [] = ⊥
HasTrail owner reviewer t (x ∷ xs) =
    (x.sequence ≡ 1)
    × (x.from_state ≡ none)
    × (x.to_state ≡ assigned)
    × Trail owner reviewer 2 assigned xs t

pub HasTrail-push :
    (owner reviewer : String) (t : ActionState) (xs : List ActionHistoryEntry)
    (x : ActionHistoryEntry)
    → HasTrail owner reviewer t xs
    → x.sequence ≡ wrap (length xs + 1)
    → x.from_state ≡ some t
    → Permitted owner reviewer t x.to_state x.actor
    → HasTrail owner reviewer x.to_state (push xs x)
HasTrail-push o r t [] x h q f p = absurd h
HasTrail-push o r t (y ∷ xs) x h q f p =
    (h.0, h.1, h.2, Trail-push o r 2 assigned xs x t h.3 (omega arith) f p)

-- A closed action has its evidence and was closed by its reviewer.
pub record IsReviewed (act : Action) : Type 0 where
  pub evidence : lacks_evidence act ≡ false
  pub closer : trim_space act.closed_by ≡ act.reviewer
  pub stamp : act.closed_at ≢ none

abbrev pub ClosureOf : ActionState → Action → Type 0
ClosureOf closed act = IsReviewed act
ClosureOf _ act = (act.closed_at ≡ none) × (act.closed_by ≡ "")

pub record IsSoundAction (act : Action) : Type 0 where
  pub trail : HasTrail act.owner act.reviewer act.state act.history
  pub closure : ClosureOf act.state act

-- What a verdict leaves at the place of a sound action is sound, and is the same action.
pub data Keeps (act : Action) : Verdict → Type 0 where
  by_refusal : (x : ActionError) → Keeps act (refuse x)
  by_leave : Keeps act leave
  by_update :
      (act' : Action)
      → IsSoundAction act'
      → act'.id ≡ act.id
      → act'.tenant_id ≡ act.tenant_id
      → act'.owner ≡ act.owner
      → act'.reviewer ≡ act.reviewer
      → Keeps act (update act')

pub new_action-IsSoundAction :
    (tenant : String) (req : CreateActionRequest) (now : ℕ)
    → IsSoundAction (new_action tenant req now)
unfolding new_action
new_action-IsSoundAction tenant req now = record {
  trail = (refl, refl, refl, refl);
  closure = (refl, refl);
}
