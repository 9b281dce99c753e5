-- ===== src/Workflow/Guards.antt =====
-- What the guards of `Transition` and `Rollback` in modules/workflow-action/workflow.go ensure.
use oshe_platform.Prelude.{String, ◌≡◌, refl, false, true, none, ◌⊎◌, arith}
use oshe_platform.Prelude.Map.{string_eq}
use oshe_platform.Workflow.State.{
  State, draft, in_progress, under_review, approved, closed, archived, other, state_beq_iff,
  state_eq, unspecified, is_terminal, allowed_transitions,
}
use oshe_platform.Workflow.Engine.{
  TransitionRequest, WorkflowInstance, is_permitted, is_authorized, check_transition,
}

-- The state diagram of the engine, as a relation.
pub data Edge : State → State → Type 0 where
  start : Edge draft in_progress
  submit : Edge in_progress under_review
  approve : Edge under_review approved
  return_to_work : Edge under_review in_progress
  close : Edge approved closed
  archive : {s : State} → is_terminal s ≡ false → ((t : String) → s ≡ other t → ⊥) → Edge s archived

is_permitted-Edge : (s t : State) → is_permitted t (allowed_transitions s) ≡ true → Edge s t
unfolding is_permitted allowed_transitions is_terminal
is_permitted-Edge draft in_progress h = start
is_permitted-Edge draft archived h = archive refl (λ t e. cc)
is_permitted-Edge in_progress under_review h = submit
is_permitted-Edge in_progress archived h = archive refl (λ t e. cc)
is_permitted-Edge under_review approved h = approve
is_permitted-Edge under_review in_progress h = return_to_work
is_permitted-Edge under_review archived h = archive refl (λ t e. cc)
is_permitted-Edge approved closed h = close
is_permitted-Edge approved archived h = archive refl (λ t e. cc)
is_permitted-Edge s t h = cc

-- What holds of a request that changes the engine: the guards, the diagram and the authorizer.
pub record IsLawful (req : TransitionRequest) (id : String) (inst : WorkflowInstance) : Type 0 where
  pub source : (req.source_state ≡ unspecified) ⊎ (req.source_state ≡ inst.current_state)
  pub live : is_terminal inst.current_state ≡ false
  pub fresh : req.expected_revision ≡ inst.revision
  pub edge : Edge inst.current_state req.target_state
  pub authorized : is_authorized req.authorizer id inst.current_state req.target_state ≡ true

pub check_transition-IsLawful :
    (req : TransitionRequest) (id : String) (inst : WorkflowInstance)
    → check_transition req id inst ≡ none
    → IsLawful req id inst
check_transition-IsLawful req id inst h = record {
  source =
      unfold check_transition in
      ground (
        arith,
        state_beq_iff req.source_state unspecified,
        state_beq_iff req.source_state inst.current_state,
      );
  live = unfold check_transition in ground arith;
  fresh = unfold check_transition in ground arith;
  edge =
      is_permitted-Edge inst.current_state req.target_state
        (unfold check_transition in ground arith);
  authorized = unfold check_transition in ground arith;
}
