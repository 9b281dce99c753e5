-- ===== src/Workflow/Tests.antt =====
-- Calls of the workflow engine at concrete inputs.
use oshe_platform.Prelude.{ℕ, ◌+◌, String, ◌≡◌, refl, true, none, some, ok, err, wrap, [], ◌∷◌, All}
use oshe_platform.Prelude.Map.{lookup, insert, string_eq}
use oshe_platform.Prelude.Strings.{trim_space}
use oshe_platform.Workflow.State.{
  State, draft, in_progress, under_review, closed, archived, state_eq, unspecified, is_terminal,
  allowed_transitions,
}
use oshe_platform.Workflow.Engine.{
  TransitionRequest, WorkflowInstance, Engine, check_transition, apply_transition, idempotency_key,
  transition, create_workflow, rollback, AuthPredicate, stale_revision, new_engine,
}
use oshe_platform.Workflow.Run.{create, move, restore, exec, run}
use oshe_platform.Workflow.Retry.{key_of}
use oshe_platform.Workflow.Run.{exec_error}
use oshe_platform.Workflow.Terminal.{terminal_absorbs}
use oshe_platform.Workflow.Audit.{IsAudited, engine-IsAudited}
use oshe_platform.Workflow.Retry.{transition_retry}
use oshe_platform.Workflow.Gaps.{transition_swallowed, rollback_forged}
use oshe_platform.Workflow.Diagram.{FollowsEdge, moves_follow_diagram}

abbrev allow_all : AuthPredicate
allow_all = some (λ w s t. true)

abbrev request : String → String → State → ℕ → TransitionRequest
request w r t n = record {
  workflow_id = w;
  request_id = r;
  correlation_id = "corr_1";
  source_state = unspecified;
  target_state = t;
  expected_revision = n;
  authorizer = allow_all;
}

abbrev opened : Engine
opened = run new_engine (create " w-1 " 10 ∷ [])

abbrev started : Engine
started = run new_engine (create "w-1" 10 ∷ move (request "w-1" "r-1" in_progress 1) 20 ∷ [])

abbrev started_instance : WorkflowInstance
started_instance = record {
  id = "w-1";
  current_state = in_progress;
  revision = 2;
  created_at = 10;
  updated_at = 20;
}

started_holds : lookup "w-1" started.instances ≡ some started_instance
unfolding run create_workflow transition check_transition apply_transition is_terminal
    allowed_transitions trim_space lookup insert idempotency_key
started_holds = refl

stale_refused : (exec started (move (request "w-1" "r-2" under_review 1) 30)).1 ≡ err stale_revision
unfolding run create_workflow transition check_transition apply_transition is_terminal
    allowed_transitions trim_space lookup insert idempotency_key
stale_refused = refl

exec_error_example : (exec started (move (request "w-1" "r-2" under_review 1) 30)).0 ≡ started
exec_error_example = exec_error started (move (request "w-1" "r-2" under_review 1) 30) stale_refused

abbrev archived_engine : Engine
archived_engine = run started (move (request "w-1" "r-2" archived 2) 30 ∷ [])

abbrev archived_instance : WorkflowInstance
archived_instance = record {
  id = "w-1";
  current_state = archived;
  revision = 3;
  created_at = 10;
  updated_at = 30;
}

archived_holds : lookup "w-1" archived_engine.instances ≡ some archived_instance
unfolding run create_workflow transition check_transition apply_transition is_terminal
    allowed_transitions trim_space lookup insert idempotency_key
archived_holds = refl

terminal_absorbs_example :
    lookup "w-1" (run archived_engine (restore "w-1" started_instance "undo" 40 ∷ [])).instances
    ≡ some archived_instance
unfolding is_terminal
terminal_absorbs_example =
    terminal_absorbs archived_engine (restore "w-1" started_instance "undo" 40 ∷ []) "w-1"
      archived_instance archived_holds refl

engine-IsAudited_example :
    IsAudited (run new_engine (create "w-1" 10 ∷ move (request "w-1" "r-1" in_progress 1) 20 ∷ []))
engine-IsAudited_example =
    engine-IsAudited (create "w-1" 10 ∷ move (request "w-1" "r-1" in_progress 1) 20 ∷ [])

opened_moves :
    transition opened (request "w-1" "r-1" in_progress 1) 20
    ≡ ((transition opened (request "w-1" "r-1" in_progress 1) 20).0, ok started_instance)
unfolding run create_workflow transition check_transition apply_transition is_terminal
    allowed_transitions trim_space lookup insert idempotency_key
opened_moves = refl

opened_unseen : lookup (key_of (request "w-1" "r-1" in_progress 1)) opened.idempotency ≡ none
unfolding run create_workflow trim_space lookup insert idempotency_key
opened_unseen = refl

transition_retry_example :
    let e' = (transition opened (request "w-1" "r-1" in_progress 1) 20).0 in
    transition e' (request "w-1" "r-1" in_progress 1) 99 ≡ (e', ok started_instance)
transition_retry_example =
    transition_retry opened (transition opened (request "w-1" "r-1" in_progress 1) 20).0
      (request "w-1" "r-1" in_progress 1) 20 99 started_instance opened_moves opened_unseen

abbrev two : Engine
two = run new_engine (create "a" 1 ∷ create "a:b" 1 ∷ [])

abbrev draft_instance : String → WorkflowInstance
draft_instance k = record {
  id = k;
  current_state = draft;
  revision = 1;
  created_at = 1;
  updated_at = 1;
}

two_moves : transition two (request "a" "b:c" in_progress 1) 5 ≡ (
  (transition two (request "a" "b:c" in_progress 1) 5).0,
  ok (record (draft_instance "a") { current_state = in_progress; revision = 2; updated_at = 5 }),
)
unfolding run create_workflow transition check_transition apply_transition is_terminal
    allowed_transitions trim_space lookup insert idempotency_key
two_moves = refl

transition_swallowed_example :
    let e' = (transition two (request "a" "b:c" in_progress 1) 5).0 in
    transition e' (request "a:b" "c" in_progress 1) 6 ≡ (e', ok (draft_instance "a:b"))
unfolding run create_workflow transition check_transition apply_transition is_terminal
    allowed_transitions trim_space lookup insert idempotency_key
transition_swallowed_example =
    transition_swallowed two (transition two (request "a" "b:c" in_progress 1) 5).0
      (request "a" "b:c" in_progress 1) (request "a:b" "c" in_progress 1) 5 6 (draft_instance "a:b")
      (record (draft_instance "a") { current_state = in_progress; revision = 2; updated_at = 5 })
      "a" "b" "c" refl refl refl refl refl refl refl refl refl refl two_moves refl

rollback_forged_test :
    (rollback started "w-1"
      (record started_instance { current_state = closed; revision = 1 })
      "x"
      30).1
    ≡ ok (record started_instance {
      current_state = closed;
      revision = wrap (2 + 1);
      updated_at = 30;
    })
unfolding trim_space is_terminal
rollback_forged_test =
    rollback_forged started "w-1" "x" started_instance closed 30 refl started_holds refl refl

moves_follow_diagram_example :
    All FollowsEdge
      (run new_engine
        (create "w-1" 10 ∷ move (request "w-1" "r-1" in_progress 1) 20 ∷ [])).audit_log
moves_follow_diagram_example =
    moves_follow_diagram (create "w-1" 10 ∷ move (request "w-1" "r-1" in_progress 1) 20 ∷ [])
      (tt, (tt, tt))
