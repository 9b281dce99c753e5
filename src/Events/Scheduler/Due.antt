-- ===== src/Events/Scheduler/Due.antt =====
-- Which jobs `ExecuteDueJobs` of modules/events-outbox-jobs/scheduler_notifications.go runs, and
-- that a job which has ended stays as it is.
use mathlib.Core.Path.{subst}
use oshe_platform.Prelude.{
  ℕ, ◌<◌, String, ◌≡◌, refl, sym, ap, ◌∙◌, true, false, Option, none, some, List, [], ◌∷◌, All, ltb,
  arith, Bool-cases, Option-cases, eq_iff, inl, inr,
}
use oshe_platform.Prelude.Map.{Map, lookup, insert, lookup-insert, beq_refl, string_eq, ◌==◌}
use oshe_platform.Prelude.Strings.{trim_space}
use oshe_platform.Events.Scheduler.{
  ScheduledJob, JobHandler, Scheduler, check_job, job_of, is_scheduled, started, unhandled,
  finish_job, run_job, visit_jobs, execute_due_jobs,
}
use oshe_platform.Events.Scheduler.Run.{
  Call, exec, run, Step, idle, schedules, executes, saves, sinks, exec-Step,
}

run_job_ended :
    (handlers : Map String JobHandler) (now : ℕ) (j : ScheduledJob)
    → is_scheduled j.state ≡ false
    → run_job handlers now j ≡ none
unfolding run_job
run_job_ended handlers now j h = rw (run_job, h) refl

finish_job_ended :
    (j : ScheduledJob) (r : Option String) → is_scheduled (finish_job j r).state ≡ false
unfolding finish_job
finish_job_ended j none = refl
finish_job_ended j (some text) = refl

run_job_ends :
    (handlers : Map String JobHandler) (now : ℕ) (j j' : ScheduledJob)
    → run_job handlers now j ≡ some j'
    → is_scheduled j'.state ≡ false
unfolding run_job
run_job_ends handlers now j j' e = elim (Bool-cases (is_scheduled j.state)) [
  | inr a ↦ absurd (ground (arith, rw (run_job, a) at e))
  | inl a ↦ elim (Bool-cases (ltb now j.due_at)) [
    | inl b ↦ absurd (ground (arith, rw (run_job, a, b) at e))
    | inr b ↦ elim (Option-cases (lookup j.job_type handlers)) [
      | inl c ↦
          let same : unhandled j ≡ j' = ground (arith, rw (run_job, a, b, c) at e) in
          ap (λ (x : ScheduledJob). is_scheduled x.state) (sym same)
      | inr c ↦
          let same : finish_job (started j now) (c.0 (started j now)) ≡ j' =
            ground (arith, rw (run_job, a, b, c.1) at e) in
          ap (λ (x : ScheduledJob). is_scheduled x.state) (sym same)
          ∙ finish_job_ended (started j now) (c.0 (started j now))
    ]
  ]
]

-- The loop would pass over what is stored at the key.
abbrev IsPassed : Map String JobHandler → ℕ → Map String ScheduledJob → String → Type 0
IsPassed handlers now m k = (j : ScheduledJob) → lookup k m ≡ some j → run_job handlers now j ≡ none

-- The loop keeps what it passes over.
visit_jobs_keeps :
    (handlers : Map String JobHandler) (now : ℕ) (ks : List String) (m : Map String ScheduledJob)
    (k : String)
    → IsPassed handlers now m k
    → lookup k (visit_jobs handlers now ks m).0 ≡ lookup k m
unfolding visit_jobs
visit_jobs_keeps handlers now [] m k h = refl
visit_jobs_keeps handlers now (i ∷ ks) m k h = elim (Option-cases (lookup i m)) [
  | inl f ↦ rw (visit_jobs, f) (visit_jobs_keeps handlers now ks m k h)
  | inr f ↦ elim (Option-cases (run_job handlers now f.0)) [
    | inl r ↦ rw (visit_jobs, f.1, r) (visit_jobs_keeps handlers now ks m k h)
    | inr r ↦ elim (Bool-cases (i == k)) [
      | inl c ↦ absurd (
          ground
            (arith, r.1, h f.0 (ap (λ (x : String). lookup x m) (sym ((eq_iff i k).0 c)) ∙ f.1)))
      | inr c ↦
          let other : lookup k (insert i r.0 m) ≡ lookup k m =
            lookup-insert i k r.0 m ∙ rw c refl in
          rw (visit_jobs, f.1, r.1)
            (visit_jobs_keeps handlers now ks (insert i r.0 m) k (λ j e. h j (sym other ∙ e))
              ∙ other)
    ]
  ]
]

check_job-none :
    (s : Scheduler) (job : ScheduledJob)
    → check_job s job ≡ none
    → lookup (trim_space job.job_id) s.jobs ≡ none
unfolding check_job
check_job-none s job h = ground arith

ended_job_kept :
    (s s' : Scheduler)
    → Step s s'
    → (k : String) (j : ScheduledJob) → lookup k s.jobs ≡ some j
    → is_scheduled j.state ≡ false
    → lookup k s'.jobs ≡ some j
ended_job_kept s _ (idle s' e n l) k j f h = ap (lookup k) e ∙ f
ended_job_kept s _ (schedules job now c) k j f h = elim (Bool-cases (trim_space job.job_id == k)) [
  | inl b ↦ absurd (
      ground (
        arith,
        f,
        check_job-none s job c,
        ap (λ (x : String). lookup x s.jobs) ((eq_iff (trim_space job.job_id) k).0 b),
      ))
  | inr b ↦ lookup-insert (trim_space job.job_id) k (job_of job now) s.jobs ∙ rw b f
]
ended_job_kept s _ (executes order now) k j f h =
    visit_jobs_keeps s.job_handlers now order s.jobs k (λ x e.
      ap (run_job s.job_handlers now) (ground (arith, f, e)) ∙ run_job_ended s.job_handlers now j h)
    ∙ f
ended_job_kept s _ (saves i r n z d) k j f h = f
ended_job_kept s _ (sinks i r n z d) k j f h = f

-- A stored job that is no longer SCHEDULED is the same after any calls: no call runs it again,
-- schedules another one in its place or changes its result.
pub ended_job_stays :
    (s : Scheduler) (cs : List Call) (k : String) (j : ScheduledJob)
    → lookup k s.jobs ≡ some j
    → is_scheduled j.state ≡ false
    → lookup k (run s cs).jobs ≡ some j
unfolding run
ended_job_stays s [] k j f h = f
ended_job_stays s (c ∷ cs) k j f h =
    ended_job_stays (exec s c) cs k j (ended_job_kept s (exec s c) (exec-Step s c) k j f h) h

-- What is stored at the key is not due.
abbrev pub IsQuiet : ℕ → Map String ScheduledJob → String → Type 0
IsQuiet now m k =
    (j : ScheduledJob) → lookup k m ≡ some j → is_scheduled j.state ≡ true → now < j.due_at

run_job-none :
    (handlers : Map String JobHandler) (now : ℕ) (j : ScheduledJob)
    → run_job handlers now j ≡ none
    → is_scheduled j.state ≡ true
    → now < j.due_at
unfolding run_job
run_job-none handlers now j e s = ground arith

passed-IsQuiet :
    (handlers : Map String JobHandler) (now : ℕ) (ks : List String) (m : Map String ScheduledJob)
    (k : String)
    → IsPassed handlers now m k
    → IsQuiet now (visit_jobs handlers now ks m).0 k
passed-IsQuiet handlers now ks m k h j e s =
    run_job-none handlers now j (h j (sym (visit_jobs_keeps handlers now ks m k h) ∙ e)) s

visit_jobs-IsQuiet :
    (handlers : Map String JobHandler) (now : ℕ) (ks : List String) (m : Map String ScheduledJob)
    → All (IsQuiet now (visit_jobs handlers now ks m).0) ks
unfolding visit_jobs
visit_jobs-IsQuiet handlers now [] m = tt
visit_jobs-IsQuiet handlers now (k ∷ ks) m =
    let Goal : Map String ScheduledJob → Type 0 = λ r. All (IsQuiet now r) (k ∷ ks) in
    let whole = (visit_jobs handlers now (k ∷ ks) m).0 in
    elim (Option-cases (lookup k m)) [
      | inl f ↦
          let step : whole ≡ (visit_jobs handlers now ks m).0 = rw (visit_jobs, f) refl in
          subst Goal (sym step) (
            passed-IsQuiet handlers now ks m k (λ j e. absurd (ground (arith, f, e))),
            visit_jobs-IsQuiet handlers now ks m,
          )
      | inr f ↦ elim (Option-cases (run_job handlers now f.0)) [
        | inl r ↦
            let step : whole ≡ (visit_jobs handlers now ks m).0 = rw (visit_jobs, f.1, r) refl in
            subst Goal (sym step) (
              passed-IsQuiet handlers now ks m k
                  (λ j e. ap (run_job handlers now) (ground (arith, f.1, e)) ∙ r),
              visit_jobs-IsQuiet handlers now ks m,
            )
        | inr r ↦
            let m' = insert k r.0 m in
            let step : whole ≡ (visit_jobs handlers now ks m').0 = rw (visit_jobs, f.1, r.1) refl in
            let here : lookup k m' ≡ some r.0 = lookup-insert k k r.0 m ∙ rw beq_refl refl in
            let ended = run_job_ended handlers now r.0 (run_job_ends handlers now f.0 r.0 r.1) in
            subst Goal (sym step) (
              passed-IsQuiet handlers now ks m' k
                  (λ j e. ap (run_job handlers now) (ground (arith, here, e)) ∙ ended),
              visit_jobs-IsQuiet handlers now ks m',
            )
      ]
    ]

-- After `ExecuteDueJobs` no job that its loop has visited is SCHEDULED and due.
pub execute_due_jobs-IsQuiet :
    (s : Scheduler) (order : List String) (now : ℕ)
    → All (IsQuiet now (execute_due_jobs s order now).0.jobs) order
unfolding execute_due_jobs
execute_due_jobs-IsQuiet s order now = visit_jobs-IsQuiet s.job_handlers now order s.jobs
