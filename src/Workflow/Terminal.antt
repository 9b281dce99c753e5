-- ===== src/Workflow/Terminal.antt =====
-- Terminal workflows of modules/workflow-action/workflow.go: CLOSED and ARCHIVED are final.
use oshe_platform.Prelude.{String, ◌≡◌, false, true, some, arith, eq_iff, List, [], ◌∷◌}
use oshe_platform.Prelude.Map.{Map, lookup, insert, lookup-insert, string_eq}
use oshe_platform.Workflow.State.{state_eq, is_terminal}
use oshe_platform.Workflow.Engine.{WorkflowInstance, Engine, apply_transition, apply_rollback}
use oshe_platform.Workflow.Run.{Op, exec, run, Step, same, created, moved, restored, exec-Step}

-- A write at a key leaves a terminal workflow alone if the key holds no terminal workflow.
off_key :
    (k id : String) (i j new : WorkflowInstance) (m : Map String WorkflowInstance)
    → lookup k m ≡ some i
    → is_terminal i.current_state ≡ true
    → lookup id m ≡ some j
    → is_terminal j.current_state ≡ false
    → lookup k (insert id new m) ≡ some i
off_key k id i j new m h t f l = rw lookup-insert (ground (arith, eq_iff id k))

Step-terminal :
    {e e' : Engine} {o : Op} (k : String) (i : WorkflowInstance)
    → Step e o e'
    → lookup k e.instances ≡ some i
    → is_terminal i.current_state ≡ true
    → lookup k e'.instances ≡ some i
unfolding apply_transition apply_rollback
Step-terminal k i (same o) h t = h
Step-terminal {e} k i (created raw id now n) h t = rw lookup-insert (ground (arith, eq_iff id k))
Step-terminal {e} k i (moved req id rid inst now f u l) h t =
    off_key k id i inst _ e.instances h t f l.live
Step-terminal {e} k i (restored raw id inst saved reason now f l) h t =
    off_key k id i inst _ e.instances h t f l

-- Once a workflow is CLOSED or ARCHIVED, no sequence of calls, rollbacks included, changes it.
pub terminal_absorbs :
    (e : Engine) (os : List Op) (k : String) (i : WorkflowInstance)
    → lookup k e.instances ≡ some i
    → is_terminal i.current_state ≡ true
    → lookup k (run e os).instances ≡ some i
unfolding run
terminal_absorbs e [] k i h t = h
terminal_absorbs e (o ∷ os) k i h t =
    terminal_absorbs (exec e o).0 os k i (Step-terminal k i (exec-Step e o) h t) t
