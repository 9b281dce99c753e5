-- ===== src/Events/Scheduler/Jobs.antt =====
-- The jobs of modules/events-outbox-jobs/scheduler_notifications.go over any calls.
use mathlib.Core.Path.{subst}
use oshe_platform.Prelude.{
  ℕ, ◌≤◌, String, ◌≡◌, refl, sym, ap, ◌∙◌, true, Option, none, some, List, [], ◌∷◌, ltb, arith,
  Bool-cases, Option-cases, ◌⊎◌, inl, inr,
}
use oshe_platform.Prelude.Map.{Map, lookup, insert, lookup-insert_cases, string_eq}
use oshe_platform.Prelude.Strings.{trim_space}
use oshe_platform.Events.Scheduler.{
  JobState, scheduled, running, completed, failed, canceled, ScheduledJob, JobHandler, Scheduler,
  job_of, is_scheduled, started, unhandled, finish_job, run_job, visit_jobs,
}
use oshe_platform.Events.Scheduler.Run.{
  Call, exec, run, Step, idle, schedules, executes, saves, sinks, exec-Step,
}

-- A handler ran once, no earlier than the job was due.
abbrev pub HasRun : ScheduledJob → Type 0
HasRun j = (j.attempts ≡ 1) × ((t : ℕ) × ((j.executed_at ≡ some t) × (j.due_at ≤ t)))

abbrev pub HasNotRun : ScheduledJob → Type 0
HasNotRun j = (j.attempts ≡ 0) × (j.executed_at ≡ none)

-- What the state of a stored job says: RUNNING and CANCELED are never seen.
abbrev pub Progress : JobState → ScheduledJob → Type 0
Progress scheduled j = HasNotRun j × (j.last_error ≡ "")
Progress completed j = HasRun j × (j.last_error ≡ "")
Progress failed j = HasNotRun j ⊎ HasRun j
Progress running j = ⊥
Progress canceled j = ⊥

pub record IsSoundJob (k : String) (j : ScheduledJob) : Type 0 where
  pub named : j.job_id ≡ k
  pub progress : Progress j.state j

abbrev pub HasSoundJobs : Map String ScheduledJob → Type 0
HasSoundJobs m = (k : String) (j : ScheduledJob) → lookup k m ≡ some j → IsSoundJob k j

insert-HasSoundJobs :
    (m : Map String ScheduledJob) (k : String) (j : ScheduledJob)
    → HasSoundJobs m
    → IsSoundJob k j
    → HasSoundJobs (insert k j m)
insert-HasSoundJobs m k j h g i found e = elim (lookup-insert_cases k i j m e) [
  | inl c ↦ subst (IsSoundJob i) c.1 (subst (λ (x : String). IsSoundJob x j) c.0 g)
  | inr c ↦ h i found c.1
]

scheduled-HasNotRun :
    (s : JobState) (j : ScheduledJob) → is_scheduled s ≡ true → Progress s j → HasNotRun j
scheduled-HasNotRun scheduled j h p = p.0
scheduled-HasNotRun running j h p = absurd p
scheduled-HasNotRun completed j h p = absurd (ground arith)
scheduled-HasNotRun failed j h p = absurd (ground arith)
scheduled-HasNotRun canceled j h p = absurd p

finish_job-IsSoundJob :
    (k : String) (j : ScheduledJob) (r : Option String)
    → j.job_id ≡ k
    → HasRun j
    → IsSoundJob k (finish_job j r)
unfolding finish_job
finish_job-IsSoundJob k j none n h = record { named = n; progress = (h, refl) }
finish_job-IsSoundJob k j (some text) n h = record { named = n; progress = inr h }

run_job-IsSoundJob :
    (handlers : Map String JobHandler) (now : ℕ) (k : String) (j j' : ScheduledJob)
    → IsSoundJob k j
    → run_job handlers now j ≡ some j'
    → IsSoundJob k j'
unfolding run_job
run_job-IsSoundJob handlers now k j j' h e = elim (Bool-cases (is_scheduled j.state)) [
  | inr a ↦ absurd (ground (arith, rw (run_job, a) at e))
  | inl a ↦ elim (Bool-cases (ltb now j.due_at)) [
    | inl b ↦ absurd (ground (arith, rw (run_job, a, b) at e))
    | inr b ↦
        let fresh = scheduled-HasNotRun j.state j a h.progress in
        elim (Option-cases (lookup j.job_type handlers)) [
          | inl c ↦
              let same : unhandled j ≡ j' = ground (arith, rw (run_job, a, b, c) at e) in
              subst (IsSoundJob k) same (record { named = h.named; progress = inl fresh })
          | inr c ↦
              let same : finish_job (started j now) (c.0 (started j now)) ≡ j' =
                ground (arith, rw (run_job, a, b, c.1) at e) in
              subst (IsSoundJob k) same (
                finish_job-IsSoundJob k (started j now) (c.0 (started j now)) h.named
                  (rw (fresh.0) refl, (now, (refl, ground arith))))
        ]
  ]
]

visit_jobs-HasSoundJobs :
    (handlers : Map String JobHandler) (now : ℕ) (ks : List String) (m : Map String ScheduledJob)
    → HasSoundJobs m
    → HasSoundJobs (visit_jobs handlers now ks m).0
unfolding visit_jobs
visit_jobs-HasSoundJobs handlers now [] m h = h
visit_jobs-HasSoundJobs handlers now (k ∷ ks) m h = elim (Option-cases (lookup k m)) [
  | inl f ↦ rw (visit_jobs, f) (visit_jobs-HasSoundJobs handlers now ks m h)
  | inr f ↦ elim (Option-cases (run_job handlers now f.0)) [
    | inl r ↦ rw (visit_jobs, f.1, r) (visit_jobs-HasSoundJobs handlers now ks m h)
    | inr r ↦
        rw (visit_jobs, f.1, r.1)
          (visit_jobs-HasSoundJobs handlers now ks (insert k r.0 m) (
            insert-HasSoundJobs m k r.0 h
              (run_job-IsSoundJob handlers now k f.0 r.0 (h k f.0 f.1) r.1)))
  ]
]

Step-HasSoundJobs : (s s' : Scheduler) → Step s s' → HasSoundJobs s.jobs → HasSoundJobs s'.jobs
unfolding job_of
Step-HasSoundJobs s _ (idle s' j n l) h = λ k x e. h k x (ap (lookup k) (sym j) ∙ e)
Step-HasSoundJobs s _ (schedules job now c) h =
    insert-HasSoundJobs s.jobs (trim_space job.job_id) (job_of job now) h
      (record { named = refl; progress = ((refl, refl), refl) })
Step-HasSoundJobs s _ (executes order now) h =
    visit_jobs-HasSoundJobs s.job_handlers now order s.jobs h
Step-HasSoundJobs s _ (saves k r n z d) h = h
Step-HasSoundJobs s _ (sinks k r n z d) h = h

-- After any calls from sound jobs, whatever order the loop over the map takes and whatever the
-- handlers return, each job stands under its own identifier, and its handler has run at most once:
-- not yet while it is SCHEDULED, once and no earlier than it was due when it is COMPLETED, and at
-- most once when it is FAILED. No stored job is RUNNING or CANCELED.
pub run-HasSoundJobs :
    (s : Scheduler) (cs : List Call) → HasSoundJobs s.jobs → HasSoundJobs (run s cs).jobs
unfolding run
run-HasSoundJobs s [] h = h
run-HasSoundJobs s (c ∷ cs) h =
    run-HasSoundJobs (exec s c) cs (Step-HasSoundJobs s (exec s c) (exec-Step s c) h)
