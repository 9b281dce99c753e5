-- ===== src/Events/Scheduler.antt =====
-- The data of the scheduler of modules/events-outbox-jobs/scheduler_notifications.go, and its jobs.
pub mod Notify
pub mod Run
pub mod Sink
pub mod Tenant
pub mod Jobs
pub mod Due
pub mod Skew
mod Tests
use Prim.Native.String.{◌++◌}
use oshe_platform.Prelude.{
  ℕ, ◌+◌, String, Bool, true, false, not, ◌&&◌, ◌||◌, Option, none, some, List, [], ◌∷◌, Result, ok,
  err, wrap, int_le, ltb, eqb, if◌then◌else◌,
}
use oshe_platform.Prelude.Map.{Map, lookup, insert, empty, string_eq, ◌==◌}
use oshe_platform.Prelude.Strings.{trim_space}

pub data JobState : Type 0 where
  scheduled running completed failed canceled : JobState

pub data NotificationStatus : Type 0 where
  pending delivered retrying quarantined : NotificationStatus

-- `nil_handler`, `blank_request_id` and `sink_failed` are errors that have no variable.
pub data SchedulerError : Type 0 where
  blank_job_id blank_tenant_id blank_job_type duplicate_job_id job_not_found clock_skew :
      SchedulerError
  unsupported_external_channel cross_tenant_notification duplicate_notification_request :
      SchedulerError
  notification_not_found unauthorized_notification_access notification_not_quarantined :
      SchedulerError
  notification_max_retries notification_retry_limit_reached : SchedulerError
  nil_handler blank_request_id sink_failed : SchedulerError

pub record ScheduledJob : Type 0 where
  pub job_id : String
  pub tenant_id : String
  pub job_type : String
  pub payload : String
  pub scheduled_at : ℕ
  pub due_at : ℕ
  pub state : JobState
  pub executed_at : Option ℕ
  pub attempts : ℕ
  pub last_error : String

-- The text of the error that a handler returns, or none.
abbrev pub JobHandler : Type 0
JobHandler = ScheduledJob → Option String

pub record NotificationRequest : Type 0 where
  pub request_id : String
  pub tenant_id : String
  pub recipient : String
  pub subject : String
  pub body : String
  pub channel : String
  pub created_at : ℕ
  pub status : NotificationStatus
  pub attempts : ℕ
  pub max_attempts : ℕ
  pub delivered_at : Option ℕ
  pub last_error : String
  pub diagnostics : String

pub record Scheduler : Type 0 where
  pub max_notif_attempts : ℕ
  pub jobs : Map String ScheduledJob
  pub job_handlers : Map String JobHandler
  pub notifications : Map String NotificationRequest
  pub local_sink_deliveries : List NotificationRequest
  pub simulated_sink_failure : Option String

unfoldable pub new_scheduler : ℕ → Scheduler
new_scheduler max_attempts = record {
  max_notif_attempts = if int_le max_attempts 0 then 3 else max_attempts;
  jobs = empty;
  job_handlers = empty;
  notifications = empty;
  local_sink_deliveries = [];
  simulated_sink_failure = none;
}

unfoldable pub register_job_handler :
    Scheduler → String → Option JobHandler → Scheduler × Option SchedulerError
register_job_handler s job_type handler =
    if trim_space job_type == "" then (s, some blank_job_type) else elim handler [
      | none ↦ (s, some nil_handler)
      | some f ↦ (record s { job_handlers = insert (trim_space job_type) f s.job_handlers }, none)
    ]

unfoldable pub check_job : Scheduler → ScheduledJob → Option SchedulerError
check_job s job =
    if trim_space job.job_id == ""
    then some blank_job_id
    else if trim_space job.tenant_id == ""
    then some blank_tenant_id
    else if trim_space job.job_type == ""
    then some blank_job_type
    else elim (lookup (trim_space job.job_id) s.jobs) [
      | some _ ↦ some duplicate_job_id
      | none ↦ if ltb job.due_at job.scheduled_at then some clock_skew else none
    ]

-- A zero time stands for now.
abbrev pub or_now : ℕ → ℕ → ℕ
or_now t now = if eqb t 0 then now else t

unfoldable pub job_of : ScheduledJob → ℕ → ScheduledJob
job_of job now = record {
  job_id = trim_space job.job_id;
  tenant_id = trim_space job.tenant_id;
  job_type = trim_space job.job_type;
  payload = job.payload;
  scheduled_at = or_now job.scheduled_at now;
  due_at = or_now job.due_at now;
  state = scheduled;
  executed_at = none;
  attempts = 0;
  last_error = "";
}

unfoldable pub schedule_job : Scheduler → ScheduledJob → ℕ → Scheduler × Option SchedulerError
schedule_job s job now = elim (check_job s job) [
  | some x ↦ (s, some x)
  | none ↦ (record s { jobs = insert (trim_space job.job_id) (job_of job now) s.jobs }, none)
]

abbrev pub is_scheduled : JobState → Bool
is_scheduled scheduled = true
is_scheduled _ = false

-- The job while its handler runs.
abbrev pub started : ScheduledJob → ℕ → ScheduledJob
started job now = record job {
  state = running;
  attempts = wrap (job.attempts + 1);
  executed_at = some now;
}

-- The job after its handler.
unfoldable pub finish_job : ScheduledJob → Option String → ScheduledJob
finish_job job (some text) = record job { state = failed; last_error = text }
finish_job job none = record job { state = completed; last_error = "" }

abbrev pub unhandled : ScheduledJob → ScheduledJob
unhandled job = record job {
  state = failed;
  last_error = "no handler registered for job type: " ++ job.job_type;
}

-- The body of the loop: `none` where it continues without the job.
unfoldable pub run_job : Map String JobHandler → ℕ → ScheduledJob → Option ScheduledJob
run_job handlers now job =
    if not (is_scheduled job.state)
    then none
    else if ltb now job.due_at
    then none
    else elim (lookup job.job_type handlers) [
      | none ↦ some (unhandled job)
      | some handler ↦ some (finish_job (started job now) (handler (started job now)))
    ]

-- The loop over the map, which visits its keys in an order that Go does not fix.
unfoldable pub visit_jobs :
    Map String JobHandler
    → ℕ
    → List String
    → Map String ScheduledJob
    → Map String ScheduledJob × List ScheduledJob
visit_jobs handlers now [] jobs = (jobs, [])
visit_jobs handlers now (k ∷ ks) jobs = elim (lookup k jobs) [
  | none ↦ visit_jobs handlers now ks jobs
  | some job ↦ elim (run_job handlers now job) [
    | none ↦ visit_jobs handlers now ks jobs
    | some job' ↦
        let rest = visit_jobs handlers now ks (insert k job' jobs) in (rest.0, job' ∷ rest.1)
  ]
]

unfoldable pub execute_due_jobs : Scheduler → List String → ℕ → Scheduler × List ScheduledJob
execute_due_jobs s order now =
    let r = visit_jobs s.job_handlers now order s.jobs in (record s { jobs = r.0 }, r.1)

unfoldable pub get_job : Scheduler → String → Result SchedulerError ScheduledJob
get_job s job_id = elim (lookup (trim_space job_id) s.jobs) [
  | none ↦ err job_not_found
  | some j ↦ ok j
]
