-- ===== src/Workflow/Gaps.antt =====
-- What the checks of modules/workflow-action/workflow.go let through: two requests under one
-- idempotency key, and a rollback to a state that the workflow never had.
use oshe_platform.Prelude.{ℕ, ◌+◌, String, ◌≡◌, false, none, some, inl, ok, wrap, int_le}
use Prim.Native.String.{◌++◌}
use text.Mathlib.TextLemmas.{append_assoc}
use oshe_platform.Prelude.Map.{lookup, beq_refl, string_eq, ◌==◌}
use oshe_platform.Prelude.Strings.{trim_space}
use oshe_platform.Workflow.State.{State, state_eq, unspecified, is_terminal}
use oshe_platform.Workflow.Engine.{
  TransitionRequest, WorkflowInstance, Engine, idempotency_key, transition, rollback,
  apply_rollback,
}
use oshe_platform.Workflow.Retry.{
  key_of, transition-Fired, recorded, idempotency-Fired, is_retry_lem, retry_answer,
}

-- The key of a request does not tell which workflow it is for where an identifier holds a colon.
idempotency_key-colon :
    (w x y : String) → idempotency_key (w ++ ":" ++ x) y ≡ idempotency_key w (x ++ ":" ++ y)
unfolding idempotency_key
idempotency_key-colon w x y = simp append_assoc

-- Request `x:y` to workflow `w` and request `y` to workflow `w:x` share a key. Where the first has
-- succeeded, the second, with the same target and expected revision, no source state and a workflow
-- that exists, is answered with that workflow's own instance: it is reported as a success while
-- nothing is moved or audited, and its authorizer is not asked.
pub transition_swallowed :
    (e e' : Engine) (p q : TransitionRequest) (now later : ℕ) (i j : WorkflowInstance)
    (w x y : String)
    → trim_space p.workflow_id ≡ w
    → trim_space p.request_id ≡ x ++ ":" ++ y
    → trim_space q.workflow_id ≡ w ++ ":" ++ x
    → trim_space q.request_id ≡ y
    → (w ++ ":" ++ x == "") ≡ false
    → (y == "") ≡ false
    → q.source_state ≡ unspecified
    → p.target_state ≡ q.target_state
    → p.expected_revision ≡ q.expected_revision
    → lookup (key_of p) e.idempotency ≡ none
    → transition e p now ≡ (e', ok j)
    → lookup (w ++ ":" ++ x) e'.instances ≡ some i
    → transition e' q later ≡ (e', ok i)
unfolding recorded
transition_swallowed e e' p q now later i j w x y a b c d n m s t r unseen h f =
    let fired = transition-Fired e e' p now j h unseen in
    retry_answer e' q later i (recorded fired) (rw c n) (rw d m) (rw c f)
      (rw (one_key) (idempotency-Fired fired)) (is_retry_lem q (recorded fired) (inl s) t r)
  where
    one_key : key_of q ≡ key_of p
    one_key = rw (a, b, c, d) (idempotency_key-colon w x y)

-- For every state at all there is a checkpoint with the workflow's own identifier and revision 1
-- with which a live workflow past revision 1 is put into that state, allowed or not, with no
-- authorizer asked: the checks read the checkpoint's identifier and revision, and not its state.
pub rollback_forged :
    (e : Engine) (k reason : String) (i : WorkflowInstance) (s : State) (now : ℕ)
    → (trim_space k == "") ≡ false
    → lookup (trim_space k) e.instances ≡ some i
    → is_terminal i.current_state ≡ false
    → int_le i.revision 1 ≡ false
    → (rollback e k (record i { current_state = s; revision = 1 }) reason now).1
      ≡ ok (record i { current_state = s; revision = wrap (i.revision + 1); updated_at = now })
unfolding rollback apply_rollback
rollback_forged e k reason i s now a f l r = rw (a, f, l, beq_refl i.id, r)
