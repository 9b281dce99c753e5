-- ===== src/Workflow/Engine.antt =====
-- modules/workflow-action/workflow.go: the engine's data and its operations. Each operation takes
-- the reading of the injected clock (nanoseconds, 0 the zero time) and returns the engine after it.
use Prim.Native.String.{◌++◌}
use oshe_platform.Prelude.{
  ℕ, ◌+◌, String, Bool, not, ◌&&◌, ◌||◌, Option, none, some, List, [], ◌∷◌, Result, ok, err, wrap,
  int_lt, int_le, eqb, true, false, keep, push, if◌then◌else◌,
}
use oshe_platform.Prelude.Map.{Map, lookup, insert, empty, string_eq, ◌==◌}
use oshe_platform.Prelude.Strings.{trim_space, print_int}
use oshe_platform.Workflow.State.{
  State, draft, unspecified, state_eq, is_terminal, allowed_transitions,
}

pub data WorkflowError : Type 0 where
  not_found workflow_exists blank_id blank_request_id terminal_state : WorkflowError
  invalid_transition stale_revision authorization_denied : WorkflowError
  conflicting_duplicate_request invalid_rollback : WorkflowError

-- `none` is a nil predicate.
abbrev pub AuthPredicate : Type 0
AuthPredicate = Option (String → State → State → Bool)

pub record TransitionRequest : Type 0 where
  pub workflow_id : String
  pub request_id : String
  pub correlation_id : String
  pub source_state : State
  pub target_state : State
  pub expected_revision : ℕ
  pub authorizer : AuthPredicate

pub record AuditEntry : Type 0 where
  pub workflow_id : String
  pub correlation_id : String
  pub request_id : String
  pub prior_state : State
  pub current_state : State
  pub revision : ℕ
  pub timestamp : ℕ

pub record WorkflowInstance : Type 0 where
  pub id : String
  pub current_state : State
  pub revision : ℕ
  pub created_at : ℕ
  pub updated_at : ℕ

pub record IdempotencyRecord : Type 0 where
  pub workflow_id : String
  pub request_id : String
  pub source_state : State
  pub target_state : State
  pub expected_revision : ℕ
  pub result_revision : ℕ
  pub resulting_state : State
  pub updated_at : ℕ

pub record Engine : Type 0 where
  pub instances : Map String WorkflowInstance
  pub audit_log : List AuditEntry
  pub idempotency : Map String IdempotencyRecord

abbrev pub new_engine : Engine
new_engine = record { instances = empty; audit_log = []; idempotency = empty }

abbrev pub Outcome : Type 0
Outcome = Engine × Result WorkflowError WorkflowInstance

unfoldable pub create_workflow : Engine → String → ℕ → Outcome
create_workflow e id now =
    let trimmed_id = trim_space id in
    if trimmed_id == "" then (e, err blank_id) else elim (lookup trimmed_id e.instances) [
      | some _ ↦ (e, err workflow_exists)
      | none ↦
          let inst : WorkflowInstance = record {
            id = trimmed_id;
            current_state = draft;
            revision = 1;
            created_at = now;
            updated_at = now;
          } in
          (record e { instances = insert trimmed_id inst e.instances }, ok inst)
    ]

unfoldable pub get_workflow : Engine → String → Result WorkflowError WorkflowInstance
get_workflow e id = elim (lookup (trim_space id) e.instances) [
  | none ↦ err not_found
  | some inst ↦ ok inst
]

unfoldable pub idempotency_key : String → String → String
idempotency_key workflow_id request_id = workflow_id ++ ":" ++ request_id

-- A request with the same ID as a recorded one is its retry.
unfoldable pub is_retry : TransitionRequest → IdempotencyRecord → Bool
is_retry req recorded =
    (req.source_state == unspecified || req.source_state == recorded.source_state)
    && recorded.target_state == req.target_state
    && eqb recorded.expected_revision req.expected_revision

-- The loop over the allowed next states, which breaks at the first match.
unfoldable pub is_permitted : State → List State → Bool
is_permitted target [] = false
is_permitted target (next ∷ rest) = if next == target then true else is_permitted target rest

unfoldable pub is_authorized : AuthPredicate → String → State → State → Bool
is_authorized none workflow_id from to = false
is_authorized (some p) workflow_id from to = p workflow_id from to

-- The checks of a request that is no retry, in the code's order.
unfoldable pub check_transition :
    TransitionRequest → String → WorkflowInstance → Option WorkflowError
unfolding is_permitted is_authorized
check_transition req workflow_id inst =
    if not (req.source_state == unspecified) && not (req.source_state == inst.current_state)
    then some invalid_transition
    else if is_terminal inst.current_state
    then some terminal_state
    else if not (eqb req.expected_revision inst.revision)
    then some stale_revision
    else if not (is_permitted req.target_state (allowed_transitions inst.current_state))
    then some invalid_transition
    else if not (is_authorized req.authorizer workflow_id inst.current_state req.target_state)
    then some authorization_denied
    else none

-- The writes of a transition that passed its checks.
unfoldable pub apply_transition :
    Engine → TransitionRequest → String → String → WorkflowInstance → ℕ → Outcome
apply_transition e req workflow_id request_id inst now =
    let inst' = record inst {
      current_state = req.target_state;
      revision = wrap (inst.revision + 1);
      updated_at = now;
    } in
    let entry : AuditEntry = record {
      workflow_id = workflow_id;
      correlation_id = trim_space req.correlation_id;
      request_id = request_id;
      prior_state = inst.current_state;
      current_state = inst'.current_state;
      revision = inst'.revision;
      timestamp = now;
    } in
    let recorded : IdempotencyRecord = record {
      workflow_id = workflow_id;
      request_id = request_id;
      source_state = inst.current_state;
      target_state = req.target_state;
      expected_revision = req.expected_revision;
      result_revision = inst'.revision;
      resulting_state = inst'.current_state;
      updated_at = now;
    } in
    (
      record {
        instances = insert workflow_id inst' e.instances;
        audit_log = push e.audit_log entry;
        idempotency = insert (idempotency_key workflow_id request_id) recorded e.idempotency;
      },
      ok inst',
    )

unfoldable pub transition : Engine → TransitionRequest → ℕ → Outcome
transition e req now =
    let workflow_id = trim_space req.workflow_id in
    let request_id = trim_space req.request_id in
    if workflow_id == ""
    then (e, err blank_id)
    else if request_id == ""
    then (e, err blank_request_id)
    else elim (lookup workflow_id e.instances) [
      | none ↦ (e, err not_found)
      | some inst ↦ elim (lookup (idempotency_key workflow_id request_id) e.idempotency) [
        | some recorded ↦
            if is_retry req recorded then (e, ok inst) else (e, err conflicting_duplicate_request)
        | none ↦ elim (check_transition req workflow_id inst) [
          | some x ↦ (e, err x)
          | none ↦ apply_transition e req workflow_id request_id inst now
        ]
      ]
    ]

unfoldable pub audit_history : Engine → String → List AuditEntry
audit_history e workflow_id =
    let trimmed_id = trim_space workflow_id in keep (λ x. x.workflow_id == trimmed_id) e.audit_log

unfoldable pub checkpoint : Engine → String → Result WorkflowError WorkflowInstance
checkpoint e workflow_id = get_workflow e workflow_id

unfoldable pub apply_rollback : Engine → String → WorkflowInstance → WorkflowInstance → ℕ → Outcome
apply_rollback e workflow_id inst saved now =
    let inst' = record inst {
      current_state = saved.current_state;
      revision = wrap (inst.revision + 1);
      updated_at = now;
    } in
    let entry : AuditEntry = record {
      workflow_id = workflow_id;
      correlation_id = "rollback";
      request_id =
          "rollback-rev-" ++ print_int saved.revision ++ "-to-" ++ print_int inst'.revision;
      prior_state = inst.current_state;
      current_state = inst'.current_state;
      revision = inst'.revision;
      timestamp = now;
    } in
    (
      record e {
        instances = insert workflow_id inst' e.instances;
        audit_log = push e.audit_log entry;
      },
      ok inst',
    )

-- The argument `reason` is not read.
unfoldable pub rollback : Engine → String → WorkflowInstance → String → ℕ → Outcome
rollback e workflow_id saved reason now =
    let w_id = trim_space workflow_id in
    if w_id == "" then (e, err blank_id) else elim (lookup w_id e.instances) [
      | none ↦ (e, err not_found)
      | some inst ↦
          if is_terminal inst.current_state
          then (e, err terminal_state)
          else if not (saved.id == inst.id)
          then (e, err invalid_rollback)
          else if int_le inst.revision saved.revision || int_lt saved.revision 1
          then (e, err invalid_rollback)
          else apply_rollback e w_id inst saved now
    ]
