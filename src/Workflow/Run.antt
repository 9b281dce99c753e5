-- ===== src/Workflow/Run.antt =====
-- Sequences of calls of the engine of modules/workflow-action/workflow.go. The engine's lock makes
-- every interleaving of concurrent callers such a sequence.
use oshe_platform.Prelude.{
  ℕ, String, ◌≡◌, false, none, some, Option-cases, Bool-cases, inl, inr, arith, err, List, [], ◌∷◌,
  int_le, int_lt, ◌||◌,
}
use oshe_platform.Prelude.Map.{lookup, insert, string_eq, ◌==◌}
use oshe_platform.Prelude.Strings.{trim_space}
use oshe_platform.Workflow.State.{draft, state_eq, is_terminal}
use oshe_platform.Workflow.Guards.{IsLawful, check_transition-IsLawful}
use oshe_platform.Workflow.Engine.{
  WorkflowError, TransitionRequest, WorkflowInstance, Engine, Outcome, is_retry, check_transition,
  apply_transition, idempotency_key, transition, create_workflow, rollback, apply_rollback,
}

pub data Op : Type 0 where
  create : String → ℕ → Op
  move : TransitionRequest → ℕ → Op
  restore : String → WorkflowInstance → String → ℕ → Op

unfoldable pub exec : Engine → Op → Outcome
exec e (create id now) = create_workflow e id now
exec e (move req now) = transition e req now
exec e (restore id saved reason now) = rollback e id saved reason now

unfoldable pub run : Engine → List Op → Engine
unfolding exec
run e [] = e
run e (o ∷ os) = run (exec e o).0 os

-- A call that returns an error leaves the engine as it was.
pub exec_error : (e : Engine) (o : Op) {x : WorkflowError} → (exec e o).1 ≡ err x → (exec e o).0 ≡ e
unfolding exec create_workflow transition apply_transition rollback apply_rollback
exec_error e (create id now) h = ground arith
exec_error e (move req now) h = ground arith
exec_error e (restore id saved reason now) h = ground arith

abbrev pub fresh_instance : String → ℕ → WorkflowInstance
fresh_instance id now = record {
  id = id;
  current_state = draft;
  revision = 1;
  created_at = now;
  updated_at = now;
}

-- What one call does: nothing, or one of three writes, under the conditions of its guards.
pub data Step (e : Engine) : Op → Engine → Type 0 where
  same : (o : Op) → Step e o e
  created :
      (raw id : String) (now : ℕ)
      → lookup id e.instances ≡ none
      → Step e
          (create raw now)
          (record e { instances = insert id (fresh_instance id now) e.instances })
  moved :
      (req : TransitionRequest) (id rid : String) (inst : WorkflowInstance) (now : ℕ)
      → lookup id e.instances ≡ some inst
      → lookup (idempotency_key id rid) e.idempotency ≡ none
      → IsLawful req id inst
      → Step e (move req now) (apply_transition e req id rid inst now).0
  restored :
      (raw id : String) (inst saved : WorkflowInstance) (reason : String) (now : ℕ)
      → lookup id e.instances ≡ some inst
      → is_terminal inst.current_state ≡ false
      → Step e (restore raw saved reason now) (apply_rollback e id inst saved now).0

create-Step :
    (e : Engine) (raw : String) (now : ℕ) → Step e (create raw now) (create_workflow e raw now).0
unfolding create_workflow
create-Step e raw now = elim (Bool-cases (trim_space raw == "")) [
  | inl b ↦ rw b (same _)
  | inr b ↦ rw b (elim (Option-cases (lookup (trim_space raw) e.instances)) [
    | inl n ↦ rw n (created raw (trim_space raw) now n)
    | inr (i, s) ↦ rw s (same _)
  ])
]

restore-Step :
    (e : Engine) (raw : String) (saved : WorkflowInstance) (reason : String) (now : ℕ)
    → Step e (restore raw saved reason now) (rollback e raw saved reason now).0
unfolding rollback
restore-Step e raw saved reason now = elim (Bool-cases (trim_space raw == "")) [
  | inl b ↦ rw b (same _)
  | inr b ↦ rw b (elim (Option-cases (lookup (trim_space raw) e.instances)) [
    | inl n ↦ rw n (same _)
    | inr (i, s) ↦ rw s (elim (Bool-cases (is_terminal i.current_state)) [
      | inl t ↦ rw t (same _)
      | inr t ↦ rw t (elim (Bool-cases (saved.id == i.id)) [
        | inr m ↦ rw m (same _)
        | inl m ↦
            rw m (elim (Bool-cases (int_le i.revision saved.revision || int_lt saved.revision 1)) [
              | inl r ↦ rw r (same _)
              | inr r ↦ rw r (restored raw (trim_space raw) i saved reason now s t)
            ])
      ])
    ])
  ])
]

move-Step :
    (e : Engine) (req : TransitionRequest) (now : ℕ)
    → Step e (move req now) (transition e req now).0
unfolding transition
move-Step e req now =
    let id = trim_space req.workflow_id in
    let rid = trim_space req.request_id in
    elim (Bool-cases (id == "")) [
      | inl b ↦ rw b (same _)
      | inr b ↦ rw b (elim (Bool-cases (rid == "")) [
        | inl c ↦ rw c (same _)
        | inr c ↦ rw c (elim (Option-cases (lookup id e.instances)) [
          | inl n ↦ rw n (same _)
          | inr (i, s) ↦ rw s (elim (Option-cases (lookup (idempotency_key id rid) e.idempotency)) [
            | inr (r, seen) ↦ rw seen (elim (Bool-cases (is_retry req r)) [
              | inl y ↦ rw y (same _)
              | inr y ↦ rw y (same _)
            ])
            | inl unseen ↦ rw unseen (elim (Option-cases (check_transition req id i)) [
              | inr (x, failed) ↦ rw failed (same _)
              | inl passed ↦
                  rw passed
                    (moved req id rid i now s unseen (check_transition-IsLawful req id i passed))
            ])
          ])
        ])
      ])
    ]

-- Every call takes one step of the relation.
pub exec-Step : (e : Engine) (o : Op) → Step e o (exec e o).0
unfolding exec
exec-Step e (create raw now) = create-Step e raw now
exec-Step e (move req now) = move-Step e req now
exec-Step e (restore raw saved reason now) = restore-Step e raw saved reason now
