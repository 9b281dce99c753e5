-- ===== src/Workflow/Retry.antt =====
-- Retries of a request to `Transition` in modules/workflow-action/workflow.go.
use oshe_platform.Prelude.{
  ℕ, ◌+◌, String, ◌≡◌, refl, false, true, Option, none, some, Option-cases, Bool-cases, ◌⊎◌, inl,
  inr, arith, Result, ok, err, wrap,
}
use mathlib.Core.Bool.{◌||◌, or-true}
use oshe_platform.Prelude.Map.{lookup, lookup-insert, beq_refl, string_eq, ◌==◌}
use oshe_platform.Prelude.Strings.{trim_space}
use oshe_platform.Workflow.State.{State, state_beq_iff, state_eq, unspecified}
use oshe_platform.Workflow.Engine.{
  WorkflowError, TransitionRequest, WorkflowInstance, IdempotencyRecord, Engine, Outcome, is_retry,
  check_transition, apply_transition, idempotency_key, transition,
}
use oshe_platform.Workflow.Guards.{check_transition-IsLawful}

-- A request that changed the engine: what the call looked up, and the writes it made.
pub record Fired (e : Engine) (req : TransitionRequest) (now : ℕ) (r : Outcome) : Type 0 where
  pub inst : WorkflowInstance
  pub id_given : (trim_space req.workflow_id == "") ≡ false
  pub request_given : (trim_space req.request_id == "") ≡ false
  pub found : lookup (trim_space req.workflow_id) e.instances ≡ some inst
  pub passed : check_transition req (trim_space req.workflow_id) inst ≡ none
  pub wrote :
      apply_transition e req (trim_space req.workflow_id) (trim_space req.request_id) inst now ≡ r

abbrev pub key_of : TransitionRequest → String
key_of req = idempotency_key (trim_space req.workflow_id) (trim_space req.request_id)

module _ (e e' : Engine) (req : TransitionRequest) (now : ℕ) (j : WorkflowInstance) where
  -- A first request that succeeds has made its writes.
  pub transition-Fired :
      transition e req now ≡ (e', ok j)
      → lookup (key_of req) e.idempotency ≡ none
      → Fired e req now (e', ok j)
  unfolding transition
  transition-Fired h unseen =
      let id = trim_space req.workflow_id in
      let rid = trim_space req.request_id in
      elim (Bool-cases (id == "")) [
        | inl b ↦ absurd (ground arith)
        | inr b ↦ elim (Bool-cases (rid == "")) [
          | inl c ↦ absurd (ground arith)
          | inr c ↦ elim (Option-cases (lookup id e.instances)) [
            | inl n ↦ absurd (ground arith)
            | inr (i, s) ↦ elim (Option-cases (check_transition req id i)) [
              | inr (x, failed) ↦ absurd (ground arith)
              | inl passed ↦ record {
                inst = i;
                id_given = b;
                request_given = c;
                found = s;
                passed = passed;
                wrote = rw (b, c, s, unseen, passed) at h;
              }
            ]
          ]
        ]
      ]

-- The record that the writes leave under the request's key.
module _ {e : Engine} {req : TransitionRequest} {now : ℕ} {r : Outcome}
    (f : Fired e req now r) where
  unfoldable pub recorded : IdempotencyRecord
  recorded = record {
    workflow_id = trim_space req.workflow_id;
    request_id = trim_space req.request_id;
    source_state = f.inst.current_state;
    target_state = req.target_state;
    expected_revision = req.expected_revision;
    result_revision = wrap (f.inst.revision + 1);
    resulting_state = req.target_state;
    updated_at = now;
  }

  pub idempotency-Fired : lookup (key_of req) r.0.idempotency ≡ some recorded
  unfolding recorded apply_transition
  idempotency-Fired = rw (← f.wrote) (rw lookup-insert (rw (beq_refl (key_of req)) refl))

state_beq_of_eq : (s t : State) → s ≡ t → (s == t) ≡ true
state_beq_of_eq s t h = (state_beq_iff s t).1 h

source_matches :
    (req : TransitionRequest) (r : IdempotencyRecord)
    → (req.source_state ≡ unspecified) ⊎ (req.source_state ≡ r.source_state)
    → (req.source_state == unspecified || req.source_state == r.source_state) ≡ true
source_matches req r (inl h) = rw (state_beq_of_eq _ _ h)
source_matches req r (inr h) = rw (state_beq_of_eq _ _ h) (or-true _)

pub is_retry_lem :
    (req : TransitionRequest) (r : IdempotencyRecord)
    → (req.source_state ≡ unspecified) ⊎ (req.source_state ≡ r.source_state)
    → r.target_state ≡ req.target_state
    → r.expected_revision ≡ req.expected_revision
    → is_retry req r ≡ true
unfolding is_retry
is_retry_lem req r p q s = rw (source_matches req r p, state_beq_of_eq _ _ q) (ground arith)

-- A request whose key holds a record that it matches changes nothing and is told the instance.
pub retry_answer :
    (e : Engine) (req : TransitionRequest) (now : ℕ) (i : WorkflowInstance) (r : IdempotencyRecord)
    → (trim_space req.workflow_id == "") ≡ false
    → (trim_space req.request_id == "") ≡ false
    → lookup (trim_space req.workflow_id) e.instances ≡ some i
    → lookup (key_of req) e.idempotency ≡ some r
    → is_retry req r ≡ true
    → transition e req now ≡ (e, ok i)
unfolding transition
retry_answer e req now i r a b f l m = rw (a, b, f, l, m)

abbrev answer : Result WorkflowError WorkflowInstance → Option WorkflowInstance
answer (ok i) = some i
answer (err x) = none

instance-Fired :
    {e : Engine} {req : TransitionRequest} {now : ℕ} {r : Outcome}
    → Fired e req now r
    → lookup (trim_space req.workflow_id) r.0.instances ≡ answer r.1
unfolding apply_transition
instance-Fired {req} f =
    rw (← f.wrote) (rw lookup-insert (rw (beq_refl (trim_space req.workflow_id)) refl))

-- A first request that succeeds, sent again before any other call, succeeds with the same instance
-- and leaves the engine as it is: no second revision and no second audit entry.
pub transition_retry :
    (e e' : Engine) (req : TransitionRequest) (now later : ℕ) (j : WorkflowInstance)
    → transition e req now ≡ (e', ok j)
    → lookup (key_of req) e.idempotency ≡ none
    → transition e' req later ≡ (e', ok j)
unfolding recorded
transition_retry e e' req now later j h unseen =
    let f = transition-Fired e e' req now j h unseen in
    retry_answer e' req later j (recorded f) f.id_given f.request_given (instance-Fired f)
      (idempotency-Fired f)
      (is_retry_lem req (recorded f) (check_transition-IsLawful req _ f.inst f.passed).source refl
        refl)
