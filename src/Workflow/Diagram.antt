-- ===== src/Workflow/Diagram.antt =====
-- The states that the transitions of modules/workflow-action/workflow.go go through.
use oshe_platform.Prelude.{List, [], ◌∷◌, All, All-append}
use oshe_platform.Prelude.Map.{string_eq}
use oshe_platform.Workflow.State.{state_eq}
use oshe_platform.Workflow.Engine.{AuditEntry, Engine, apply_transition, new_engine}
use oshe_platform.Workflow.Guards.{Edge}
use oshe_platform.Workflow.Run.{
  Op, restore, exec, run, Step, same, created, moved, restored, exec-Step,
}

-- A call that is no rollback.
abbrev pub IsForward : Op → Type 0
IsForward (restore _ _ _ _) = ⊥
IsForward _ = Unit

abbrev pub FollowsEdge : AuditEntry → Type 0
FollowsEdge x = Edge x.prior_state x.current_state

Step-FollowsEdge :
    {e e' : Engine} {o : Op}
    → Step e o e'
    → IsForward o
    → All FollowsEdge e.audit_log
    → All FollowsEdge e'.audit_log
unfolding apply_transition
Step-FollowsEdge (same o) f h = h
Step-FollowsEdge (created raw id now n) f h = h
Step-FollowsEdge {e} (moved req id rid inst now g u l) f h =
    All-append FollowsEdge e.audit_log _ h (l.edge, tt)
Step-FollowsEdge (restored raw id inst saved reason now g l) f h = absurd f

run-FollowsEdge :
    (e : Engine) (os : List Op)
    → All IsForward os
    → All FollowsEdge e.audit_log
    → All FollowsEdge (run e os).audit_log
unfolding run
run-FollowsEdge e [] f h = h
run-FollowsEdge e (o ∷ os) f h =
    run-FollowsEdge (exec e o).0 os f.1 (Step-FollowsEdge (exec-Step e o) f.0 h)

-- Without rollbacks, every move that a new engine ever records follows an edge of the diagram DRAFT
-- → IN_PROGRESS → UNDER_REVIEW → APPROVED → CLOSED, UNDER_REVIEW → IN_PROGRESS, and from each of
-- the four live states to ARCHIVED.
pub moves_follow_diagram :
    (os : List Op) → All IsForward os → All FollowsEdge (run new_engine os).audit_log
moves_follow_diagram os f = run-FollowsEdge new_engine os f tt
