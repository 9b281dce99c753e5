-- ===== src/Workflow/Audit.antt =====
-- The audit log of modules/workflow-action/workflow.go: for each workflow an unbroken chain of
-- states and revisions from its creation to what the engine holds.
use oshe_platform.Prelude.{
  ℕ, ◌+◌, String, ◌≡◌, refl, sym, ap, ◌∙◌, false, none, some, Bool-cases, inl, inr, arith, wrap,
  eq_iff, List, [], ◌∷◌, push, keep, keep-append,
}
use mathlib.Core.Path.{subst₂}
use mathlib.Core.List.{append-nil}
use oshe_platform.Prelude.Map.{
  lookup-insert_cases, Map, lookup, insert, lookup-insert, lookup-empty, string_eq, ◌==◌,
}
use oshe_platform.Workflow.State.{State, draft, state_eq}
use oshe_platform.Workflow.Engine.{
  WorkflowInstance, IdempotencyRecord, AuditEntry, Engine, apply_transition, apply_rollback,
  new_engine,
}
use oshe_platform.Workflow.Run.{
  Op, exec, run, Step, same, created, moved, restored, exec-Step, fresh_instance,
}

-- The entries lead from one state and revision to another, each starting where the last ended.
abbrev pub Chain : State → ℕ → List AuditEntry → State → ℕ → Type 0
Chain s r [] s' r' = (s ≡ s') × (r ≡ r')
Chain s r (x ∷ xs) s' r' =
    (x.prior_state ≡ s) × (x.revision ≡ wrap (r + 1)) × Chain x.current_state x.revision xs s' r'

Chain-push :
    (s : State) (r : ℕ) (xs : List AuditEntry) (x : AuditEntry) (s' : State) (r' : ℕ)
    → Chain s r xs s' r'
    → x.prior_state ≡ s'
    → x.revision ≡ wrap (r' + 1)
    → Chain s r (push xs x) x.current_state x.revision
Chain-push s r [] x s' r' c p q = (p ∙ sym c.0, rw c.1 q, (refl, refl))
Chain-push s r (y ∷ xs) x s' r' c p q =
    (c.0, c.1, Chain-push y.current_state y.revision xs x s' r' c.2 p q)

abbrev pub entries_of : String → List AuditEntry → List AuditEntry
entries_of k log = keep (λ x. x.workflow_id == k) log

entries_of-push_self :
    (k : String) (log : List AuditEntry) (x : AuditEntry)
    → x.workflow_id ≡ k
    → entries_of k (push log x) ≡ push (entries_of k log) x
entries_of-push_self k log x h = rw keep-append (ground (arith, eq_iff x.workflow_id k))

entries_of-push_ne :
    (k : String) (log : List AuditEntry) (x : AuditEntry)
    → (x.workflow_id == k) ≡ false
    → entries_of k (push log x) ≡ entries_of k log
entries_of-push_ne k log x h = rw keep-append (rw h (append-nil _))

-- The entries of each workflow lead from DRAFT at revision 1 to the state and revision that the
-- engine holds, and an identifier with no workflow has no entries.
pub record IsAudited (e : Engine) : Type 0 where
  pub named : (k : String) (i : WorkflowInstance) → lookup k e.instances ≡ some i → i.id ≡ k
  pub chained :
      (k : String) (i : WorkflowInstance)
      → lookup k e.instances ≡ some i
      → Chain draft 1 (entries_of k e.audit_log) i.current_state i.revision
  pub absent : (k : String) → lookup k e.instances ≡ none → entries_of k e.audit_log ≡ []

-- A write at `id` with its entry, which starts where the workflow stands.
module _ (e : Engine) (id : String) (old new : WorkflowInstance) (x : AuditEntry) where
  abbrev written : Map String IdempotencyRecord → Engine
  written m = record {
    instances = insert id new e.instances;
    audit_log = push e.audit_log x;
    idempotency = m;
  }

  written-IsAudited :
      (m : Map String IdempotencyRecord)
      → IsAudited e
      → lookup id e.instances ≡ some old
      → new.id ≡ old.id
      → x.workflow_id ≡ id
      → x.prior_state ≡ old.current_state
      → x.revision ≡ wrap (old.revision + 1)
      → new.current_state ≡ x.current_state
      → new.revision ≡ x.revision
      → IsAudited (written m)
  written-IsAudited m h f n w p r c v = record {
    named = λ k i q. elim (lookup-insert_cases id k new e.instances q) [
      | inl (ek, ei) ↦ ap (λ (j : WorkflowInstance). j.id) (sym ei) ∙ n ∙ h.named id old f ∙ ek
      | inr (_, q') ↦ h.named k i q'
    ];
    chained = λ k i q. elim (lookup-insert_cases id k new e.instances q) [
      | inl (ek, ei) ↦
          subst₂
            (λ (j : String) (y : WorkflowInstance).
              Chain draft 1 (entries_of j (push e.audit_log x)) y.current_state y.revision)
            ek ei here
      | inr (apart, q') ↦ rw (entries_of-push_ne k e.audit_log x (rw w apart)) (h.chained k i q')
    ];
    absent = λ k q. elim (Bool-cases (id == k)) [
      | inl ek ↦ cc (rw (lookup-insert, ek) at q)
      | inr apart ↦
          rw (entries_of-push_ne k e.audit_log x (rw w apart))
            (h.absent k (rw (lookup-insert, apart) at q))
    ];
  }
    where
      here : Chain draft 1 (entries_of id (push e.audit_log x)) new.current_state new.revision
      here = rw (entries_of-push_self id e.audit_log x w) (
          rw c (
            rw v (
              Chain-push draft 1 (entries_of id e.audit_log) x old.current_state old.revision
                (h.chained id old f) p r)))

Step-IsAudited : {e e' : Engine} {o : Op} → Step e o e' → IsAudited e → IsAudited e'
unfolding apply_transition apply_rollback
Step-IsAudited (same o) h = h
Step-IsAudited {e} (created raw id now n) h = record {
  named = λ k i q. elim (lookup-insert_cases id k (fresh_instance id now) e.instances q) [
    | inl (ek, ei) ↦ ap (λ (j : WorkflowInstance). j.id) (sym ei) ∙ ek
    | inr (_, q') ↦ h.named k i q'
  ];
  chained = λ k i q. elim (lookup-insert_cases id k (fresh_instance id now) e.instances q) [
    | inl (ek, ei) ↦
        subst₂
          (λ (j : String) (y : WorkflowInstance).
            Chain draft 1 (entries_of j e.audit_log) y.current_state y.revision)
          ek ei (rw (h.absent id n) (refl, refl))
    | inr (_, q') ↦ h.chained k i q'
  ];
  absent = λ k q. elim (Bool-cases (id == k)) [
    | inl ek ↦ cc (rw (lookup-insert, ek) at q)
    | inr apart ↦ h.absent k (rw (lookup-insert, apart) at q)
  ];
}
Step-IsAudited {e} (moved req id rid inst now f u l) h =
    written-IsAudited e id inst _ _ _ h f refl refl refl refl refl refl
Step-IsAudited {e} (restored raw id inst saved reason now f l) h =
    written-IsAudited e id inst _ _ _ h f refl refl refl refl refl refl

run-IsAudited : (e : Engine) (os : List Op) → IsAudited e → IsAudited (run e os)
unfolding run
run-IsAudited e [] h = h
run-IsAudited e (o ∷ os) h = run-IsAudited (exec e o).0 os (Step-IsAudited (exec-Step e o) h)

-- After any calls of a new engine, rollbacks and refused calls included, the audit entries of each
-- workflow lead from DRAFT at revision 1 to the state and the revision that the engine holds, each
-- entry starting where the one before it ended and raising the revision by one; an instance carries
-- the identifier that it is stored under; and an identifier with no workflow has no entries.
pub engine-IsAudited : (os : List Op) → IsAudited (run new_engine os)
engine-IsAudited os = run-IsAudited new_engine os (record {
  named = λ k i q. cc (lookup-empty {K = String} {V = WorkflowInstance} k, q);
  chained = λ k i q. cc (lookup-empty {K = String} {V = WorkflowInstance} k, q);
  absent = λ k q. refl;
})
