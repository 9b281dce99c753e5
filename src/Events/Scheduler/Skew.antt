-- ===== src/Events/Scheduler/Skew.antt =====
-- The check of the dates in `ScheduleJob` of modules/events-outbox-jobs/scheduler_notifications.go.
use oshe_platform.Prelude.{ℕ, ◌<◌, ◌≡◌, refl, ◌∙◌, none, some, arith}
use oshe_platform.Prelude.Map.{lookup, lookup-insert, beq_refl, string_eq}
use oshe_platform.Prelude.Strings.{trim_space}
use oshe_platform.Events.Scheduler.{ScheduledJob, Scheduler, check_job, job_of, schedule_job}

-- A job that passes the checks with no scheduled date and with a due date before now is stored with
-- a due date before its scheduled date, which the check of the dates means to refuse.
pub schedule_job_backdates :
    (s : Scheduler) (job : ScheduledJob) (now : ℕ)
    → check_job s job ≡ none
    → job.scheduled_at ≡ 0
    → 0 < job.due_at
    → job.due_at < now
    → (j : ScheduledJob) × ((lookup (trim_space job.job_id) (schedule_job s job now).0.jobs
          ≡ some j)
        × (j.due_at < j.scheduled_at))
unfolding schedule_job job_of
schedule_job_backdates s job now c z p d =
    rw (schedule_job, c)
      (
        job_of job now,
        (
          lookup-insert (trim_space job.job_id) (trim_space job.job_id) (job_of job now) s.jobs
              ∙ rw beq_refl refl,
          ground arith,
        ),
      )
