-- ===== src/Events/Scheduler/Tests.antt =====
-- Calls of the scheduler at concrete inputs.
use oshe_platform.Prelude.{
  ℕ, ◌<◌, String, ◌≡◌, refl, sym, none, some, List, [], ◌∷◌, length, All, arith,
}
use oshe_platform.Prelude.Map.{lookup, insert, lookup-empty, string_eq}
use oshe_platform.Prelude.Strings.{trim_space}
use oshe_platform.Events.Scheduler.{
  completed, pending, retrying, ScheduledJob, JobHandler, NotificationRequest, Scheduler,
  new_scheduler, register_job_handler, check_job, job_of, schedule_job, finish_job, run_job,
  visit_jobs, execute_due_jobs,
}
use oshe_platform.Events.Scheduler.Notify.{
  check_send, notification_of, attempt_delivery, send_notification, replay_delivery,
  replay_notification,
}
use oshe_platform.Prelude.Strings.{print_int}
use oshe_platform.Events.Scheduler.Run.{
  Call, register, schedule, execute, send, replay, set_failure, run,
}
use oshe_platform.Events.Scheduler.Sink.{IsSoundSink, run-IsSoundSink}
use oshe_platform.Events.Scheduler.Jobs.{HasSoundJobs, run-HasSoundJobs}
use oshe_platform.Events.Scheduler.Due.{IsQuiet, ended_job_stays, execute_due_jobs-IsQuiet}
use oshe_platform.Events.Scheduler.Tenant.{send_notification_crosses_tenants}
use oshe_platform.Events.Scheduler.Skew.{schedule_job_backdates}

abbrev job : String → ℕ → ScheduledJob
job id due = record {
  job_id = id;
  tenant_id = "acme";
  job_type = "digest";
  payload = "";
  scheduled_at = 0;
  due_at = due;
  state = completed;
  executed_at = none;
  attempts = 7;
  last_error = "";
}

abbrev no_error : JobHandler
no_error _ = none

abbrev ready : Scheduler
ready = run (new_scheduler 2) (
    register "digest" (some no_error)
    ∷ schedule (job " j-1" 40) 10
    ∷ schedule (job "j-2" 90) 10
    ∷ [])

abbrev worked : Scheduler
worked = run ready (execute ("j-2" ∷ "j-1" ∷ []) 50 ∷ [])

abbrev done : ScheduledJob
done = record {
  job_id = "j-1";
  tenant_id = "acme";
  job_type = "digest";
  payload = "";
  scheduled_at = 10;
  due_at = 40;
  state = completed;
  executed_at = some 50;
  attempts = 1;
  last_error = "";
}

worked_holds : lookup "j-1" worked.jobs ≡ some done
unfolding run new_scheduler register_job_handler schedule_job check_job job_of execute_due_jobs
    visit_jobs run_job finish_job lookup insert trim_space
worked_holds = refl

new_scheduler-HasSoundJobs : HasSoundJobs (new_scheduler 2).jobs
unfolding new_scheduler
new_scheduler-HasSoundJobs k j e = absurd (ground (arith, lookup-empty {V = ScheduledJob} k))

run-HasSoundJobs_example :
    HasSoundJobs
      (run (new_scheduler 2) (schedule (job "j-1" 40) 10 ∷ execute ("j-1" ∷ []) 50 ∷ [])).jobs
run-HasSoundJobs_example =
    run-HasSoundJobs (new_scheduler 2) (schedule (job "j-1" 40) 10 ∷ execute ("j-1" ∷ []) 50 ∷ [])
      new_scheduler-HasSoundJobs

ended_job_stays_example :
    lookup "j-1" (run worked (schedule (job "j-1" 60) 55 ∷ execute ("j-1" ∷ []) 70 ∷ [])).jobs
    ≡ some done
ended_job_stays_example =
    ended_job_stays worked (schedule (job "j-1" 60) 55 ∷ execute ("j-1" ∷ []) 70 ∷ []) "j-1" done
      worked_holds refl

execute_due_jobs-IsQuiet_example :
    All (IsQuiet 50 (execute_due_jobs ready ("j-2" ∷ "j-1" ∷ []) 50).0.jobs) ("j-2" ∷ "j-1" ∷ [])
execute_due_jobs-IsQuiet_example = execute_due_jobs-IsQuiet ready ("j-2" ∷ "j-1" ∷ []) 50

abbrev note : String → String → NotificationRequest
note id tenant = record {
  request_id = id;
  tenant_id = tenant;
  recipient = "ann";
  subject = "Inspection";
  body = "Tomorrow";
  channel = "LOCAL_LOG";
  created_at = 0;
  status = pending;
  attempts = 0;
  max_attempts = 0;
  delivered_at = none;
  last_error = "";
  diagnostics = "";
}

abbrev posted : Scheduler
posted = run (new_scheduler 2) (set_failure (some "full") ∷ send (note "n-1" "acme") 10 ∷ [])

abbrev waiting : NotificationRequest
waiting = record (note "n-1" "acme") {
  created_at = 10;
  status = retrying;
  attempts = 1;
  max_attempts = 2;
  last_error = "full";
  diagnostics = "local sink delivery failed on attempt 1: full";
}

posted_holds : lookup (trim_space "n-1") posted.notifications ≡ some waiting
unfolding run new_scheduler send_notification check_send notification_of attempt_delivery print_int
    lookup insert trim_space
posted_holds = refl

-- A failure, a retry that is quarantined, a replay and a duplicate: one delivery.
abbrev journey : List Call
journey =
    set_failure (some "full")
    ∷ send (note "n-1" "acme") 10
    ∷ send (note "n-1" "acme") 20
    ∷ set_failure none
    ∷ replay "n-1" "acme" "ann" 30
    ∷ send (note "n-1" "acme") 40
    ∷ []

journey_delivers : length (run (new_scheduler 2) journey).local_sink_deliveries ≡ 1
unfolding run new_scheduler send_notification check_send notification_of attempt_delivery
    replay_notification replay_delivery lookup insert trim_space
journey_delivers = refl

new_scheduler-IsSoundSink : IsSoundSink (new_scheduler 2)
unfolding new_scheduler
new_scheduler-IsSoundSink = record {
  named = λ k r e. absurd (ground (arith, lookup-empty {V = NotificationRequest} k));
  once = λ k. sym (rw lookup-empty refl);
}

run-IsSoundSink_example : IsSoundSink (run (new_scheduler 2) journey)
run-IsSoundSink_example = run-IsSoundSink (new_scheduler 2) journey new_scheduler-IsSoundSink

zeta_valid : check_send (note "n-1" "zeta") ≡ none
unfolding check_send trim_space
zeta_valid = refl

send_notification_crosses_tenants_test :
    (r : NotificationRequest) × (((send_notification posted (note "n-1" "zeta") 20).1.0 ≡ some r)
      × (r.tenant_id ≡ waiting.tenant_id)
      × (r.recipient ≡ waiting.recipient)
      × (r.subject ≡ waiting.subject)
      × (r.body ≡ waiting.body))
send_notification_crosses_tenants_test =
    send_notification_crosses_tenants posted (note "n-1" "zeta") 20 waiting zeta_valid posted_holds

late_valid : check_job (new_scheduler 2) (job "j-1" 40) ≡ none
unfolding check_job new_scheduler lookup trim_space
late_valid = refl

schedule_job_backdates_test :
    (j : ScheduledJob) × ((lookup
          (trim_space "j-1")
          (schedule_job (new_scheduler 2) (job "j-1" 40) 50).0.jobs
        ≡ some j)
      × (j.due_at < j.scheduled_at))
schedule_job_backdates_test =
    schedule_job_backdates (new_scheduler 2) (job "j-1" 40) 50 late_valid refl (omega arith)
      (omega arith)
