-- ===== src/Action/Closing.antt =====
-- When `CloseAction` of modules/workflow-action/action_lifecycle.go closes an action.
use mathlib.Core.Path.{subst}
use oshe_platform.Prelude.{
  ℕ, String, ◌≡◌, refl, ap, Bool, true, false, none, ok, Result-cases, arith, eq_iff, inl, inr, ◌↔◌,
}
use oshe_platform.Prelude.Map.{same_text, string_eq}
use oshe_platform.Prelude.Strings.{trim_space}
use oshe_platform.Action.{in_review, Action}
use oshe_platform.Action.Decide.{
  Verdict, refuse, leave, update, is_closed, is_in_review, lacks_evidence, close_action_of,
}
use oshe_platform.Action.Manager.{ActionManager, find_action, settle, on_action, close_action}
use oshe_platform.Action.Moves.{in_review_state}

-- What the closure of an action asks for.
pub record IsClosable (who : String) (act : Action) : Type 0 where
  pub reviewed : act.state ≡ in_review
  pub by_reviewer : trim_space who ≡ act.reviewer
  pub evidenced : lacks_evidence act ≡ false

-- A verdict that is no error.
abbrev grants : Verdict → Bool
grants (refuse _) = false
grants leave = true
grants (update _) = true

grants-settle :
    (m : ActionManager) (t id : String) (v : Verdict)
    → (grants v ≡ true) ↔ ((settle m t id v).1 ≡ none)
unfolding settle
grants-settle m t id (refuse x) = (λ h. absurd (ground arith), λ h. absurd (ground arith))
grants-settle m t id leave = (λ _. refl, λ _. refl)
grants-settle m t id (update act) = (λ _. refl, λ _. refl)

grants-IsClosable :
    (who notes : String) (now : ℕ) (act : Action)
    → grants (close_action_of who notes now act) ≡ true
    → IsClosable who act
unfolding close_action_of
grants-IsClosable who notes now act h = record {
  reviewed = in_review_state act.state (ground arith);
  by_reviewer = same_text (trim_space who) act.reviewer (ground arith);
  evidenced = ground arith;
}

IsClosable-grants :
    (who notes : String) (now : ℕ) (act : Action)
    → IsClosable who act
    → grants (close_action_of who notes now act) ≡ true
unfolding close_action_of
IsClosable-grants who notes now act h = ground (
  arith,
  ap is_closed h.reviewed,
  ap is_in_review h.reviewed,
  eq_iff (trim_space who) act.reviewer,
)

-- `CloseAction` returns no error exactly when the manager has the action, it is in review, the caller
-- is its reviewer and its evidence suffices.
pub close_action_iff :
    (m : ActionManager) (t id who notes : String) (now : ℕ)
    → ((close_action m t id who notes now).1 ≡ none)
      ↔ ((act : Action) × ((find_action m t id ≡ ok act) × IsClosable who act))
unfolding close_action on_action
close_action_iff m t id who notes now = elim (Result-cases (find_action m t id)) [
  | inl f ↦ (
    (λ h. (
      f.0,
      (
        f.1,
        grants-IsClosable who notes now f.0 (
            (grants-settle m t id (close_action_of who notes now f.0)).1
              (rw (on_action, f.1) at h)),
      ),
    )),
    (λ g.
        let found : g.0 ≡ f.0 = ground (arith, f.1, g.1.0) in
        rw (on_action, f.1)
          ((grants-settle m t id (close_action_of who notes now f.0)).0
            (IsClosable-grants who notes now f.0 (subst (IsClosable who) found g.1.1)))),
  )
  | inr f ↦ (
    (λ h. absurd (ground (arith, rw (on_action, f.1) at h))),
    (λ g. absurd (ground (arith, f.1, g.1.0))),
  )
]
