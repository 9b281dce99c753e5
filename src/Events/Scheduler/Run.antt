-- ===== src/Events/Scheduler/Run.antt =====
-- The calls on the scheduler of modules/events-outbox-jobs/scheduler_notifications.go.
use oshe_platform.Prelude.{
  ℕ, String, ◌≡◌, refl, ap, ◌∙◌, true, false, Option, none, some, List, [], ◌∷◌, int_le,
  if◌then◌else◌, arith, Bool-cases, Option-cases, ◌⊎◌, inl, inr,
}
use oshe_platform.Prelude.Map.{lookup, insert, string_eq, ◌==◌}
use oshe_platform.Prelude.Strings.{trim_space}
use oshe_platform.Events.Scheduler.{
  NotificationStatus, pending, delivered, retrying, quarantined, ScheduledJob, JobHandler,
  NotificationRequest, Scheduler, register_job_handler, check_job, job_of, schedule_job, visit_jobs,
  execute_due_jobs,
}
use oshe_platform.Events.Scheduler.Notify.{
  is_delivered, is_quarantined, check_send, notification_of, counted, save, sink, attempt_delivery,
  send_notification, replay_delivery, replay_notification, set_local_sink_failure,
}

pub data Call : Type 0 where
  register : String → Option JobHandler → Call
  schedule : ScheduledJob → ℕ → Call
  execute : List String → ℕ → Call
  send : NotificationRequest → ℕ → Call
  replay : String → String → String → ℕ → Call
  set_failure : Option String → Call

-- The state after a call.
abbrev pub exec : Scheduler → Call → Scheduler
exec s (register t h) = (register_job_handler s t h).0
exec s (schedule job now) = (schedule_job s job now).0
exec s (execute order now) = (execute_due_jobs s order now).0
exec s (send req now) = (send_notification s req now).0
exec s (replay id tenant caller now) = (replay_notification s id tenant caller now).0
exec s (set_failure e) = set_local_sink_failure s e

unfoldable pub run : Scheduler → List Call → Scheduler
run s [] = s
run s (c ∷ cs) = run (exec s c) cs

-- One for each notification that has been delivered.
abbrev pub owed : Option NotificationRequest → ℕ
owed none = 0
owed (some r) = if is_delivered r.status then 1 else 0

-- A record carries the identifier of its key, or that of the record which it replaces.
abbrev pub IsNamed : Scheduler → String → NotificationRequest → Type 0
IsNamed s k r =
    (r.request_id ≡ k)
    ⊎ ((old : NotificationRequest) × ((lookup k s.notifications ≡ some old)
          × (r.request_id ≡ old.request_id)))

-- What a call writes.
pub data Step (s : Scheduler) : Scheduler → Type 0 where
  idle :
      (s' : Scheduler)
      → s'.jobs ≡ s.jobs
      → s'.notifications ≡ s.notifications
      → s'.local_sink_deliveries ≡ s.local_sink_deliveries
      → Step s s'
  schedules :
      (job : ScheduledJob) (now : ℕ)
      → check_job s job ≡ none
      → Step s (record s { jobs = insert (trim_space job.job_id) (job_of job now) s.jobs })
  executes :
      (order : List String) (now : ℕ)
      → Step s (record s { jobs = (visit_jobs s.job_handlers now order s.jobs).0 })
  saves :
      (k : String) (r : NotificationRequest)
      → IsNamed s k r
      → owed (lookup k s.notifications) ≡ 0
      → is_delivered r.status ≡ false
      → Step s (save s k r)
  sinks :
      (k : String) (r : NotificationRequest)
      → IsNamed s k r
      → owed (lookup k s.notifications) ≡ 0
      → is_delivered r.status ≡ true
      → Step s (sink s k r)

unchanged : (s : Scheduler) → Step s s
unchanged s = idle s refl refl refl

register_job_handler-Step :
    (s : Scheduler) (t : String) (h : Option JobHandler) → Step s (register_job_handler s t h).0
unfolding register_job_handler
register_job_handler-Step s t none = elim (Bool-cases (trim_space t == "")) [
  | inl e ↦ rw e (unchanged s)
  | inr e ↦ rw e (unchanged s)
]
register_job_handler-Step s t (some f) = elim (Bool-cases (trim_space t == "")) [
  | inl e ↦ rw e (unchanged s)
  | inr e ↦ rw e (idle _ refl refl refl)
]

schedule_job-Step :
    (s : Scheduler) (job : ScheduledJob) (now : ℕ) → Step s (schedule_job s job now).0
unfolding schedule_job
schedule_job-Step s job now = elim (Option-cases (check_job s job)) [
  | inl e ↦ rw (schedule_job, e) (schedules job now e)
  | inr e ↦ rw (schedule_job, e.1) (unchanged s)
]

attempt_delivery-Step :
    (failure : Option String) (s : Scheduler) (k : String) (r : NotificationRequest) (now : ℕ)
    → IsNamed s k r
    → owed (lookup k s.notifications) ≡ 0
    → Step s (attempt_delivery failure s k r now).0
unfolding attempt_delivery
attempt_delivery-Step none s k r now n o = sinks k _ n o refl
attempt_delivery-Step (some reason) s k r now n o =
    elim (Bool-cases (int_le r.max_attempts r.attempts)) [
      | inl l ↦ rw l (saves k _ n o refl)
      | inr l ↦ rw l (saves k _ n o refl)
    ]

replay_delivery-Step :
    (failure : Option String) (s : Scheduler) (k : String) (r : NotificationRequest) (who : String)
    (now : ℕ)
    → IsNamed s k r
    → owed (lookup k s.notifications) ≡ 0
    → Step s (replay_delivery failure s k r who now).0
unfolding replay_delivery
replay_delivery-Step none s k r who now n o = sinks k _ n o refl
replay_delivery-Step (some reason) s k r who now n o = saves k _ n o refl

not_owed :
    (s : Scheduler) (k : String) (old : NotificationRequest)
    → lookup k s.notifications ≡ some old
    → is_delivered old.status ≡ false
    → owed (lookup k s.notifications) ≡ 0
not_owed s k old f d = ap owed f ∙ rw d refl

send_notification-Step :
    (s : Scheduler) (req : NotificationRequest) (now : ℕ) → Step s (send_notification s req now).0
unfolding send_notification notification_of
send_notification-Step s req now =
    let k = trim_space req.request_id in
    elim (Option-cases (check_send req)) [
      | inr e ↦ rw (send_notification, e.1) (unchanged s)
      | inl e ↦ elim (Option-cases (lookup k s.notifications)) [
        | inl f ↦
            rw (send_notification, e, f)
              (attempt_delivery-Step s.simulated_sink_failure s k _ now (inl refl) (ap owed f))
        | inr f ↦ elim (Bool-cases (is_delivered f.0.status)) [
          | inl d ↦ rw (send_notification, e, f.1, d) (unchanged s)
          | inr d ↦ elim (Bool-cases (is_quarantined f.0.status)) [
            | inl q ↦ rw (send_notification, e, f.1, d, q) (unchanged s)
            | inr q ↦
                rw (send_notification, e, f.1, d, q)
                  (attempt_delivery-Step s.simulated_sink_failure s k (counted f.0) now
                    (inr (f.0, (f.1, refl))) (not_owed s k f.0 f.1 d))
          ]
        ]
      ]
    ]

quarantined_not_delivered :
    (s : NotificationStatus) → is_quarantined s ≡ true → is_delivered s ≡ false
quarantined_not_delivered quarantined h = refl
quarantined_not_delivered pending h = refl
quarantined_not_delivered retrying h = refl
quarantined_not_delivered delivered h = absurd (ground arith)

replay_notification-Step :
    (s : Scheduler) (id tenant who : String) (now : ℕ)
    → Step s (replay_notification s id tenant who now).0
unfolding replay_notification
replay_notification-Step s id tenant who now =
    let k = trim_space id in
    elim (Bool-cases (trim_space who == "")) [
      | inl e ↦ rw (replay_notification, e) (unchanged s)
      | inr e ↦ elim (Option-cases (lookup k s.notifications)) [
        | inl f ↦ rw (replay_notification, e, f) (unchanged s)
        | inr f ↦ elim (Bool-cases (f.0.tenant_id == trim_space tenant)) [
          | inr t ↦ rw (replay_notification, e, f.1, t) (unchanged s)
          | inl t ↦ elim (Bool-cases (is_quarantined f.0.status)) [
            | inr q ↦ rw (replay_notification, e, f.1, t, q) (unchanged s)
            | inl q ↦
                rw (replay_notification, e, f.1, t, q)
                  (replay_delivery-Step s.simulated_sink_failure s k (counted f.0) who now
                    (inr (f.0, (f.1, refl)))
                    (not_owed s k f.0 f.1 (quarantined_not_delivered f.0.status q)))
          ]
        ]
      ]
    ]

pub exec-Step : (s : Scheduler) (c : Call) → Step s (exec s c)
unfolding execute_due_jobs
exec-Step s (register t h) = register_job_handler-Step s t h
exec-Step s (schedule job now) = schedule_job-Step s job now
exec-Step s (execute order now) = executes order now
exec-Step s (send req now) = send_notification-Step s req now
exec-Step s (replay id tenant who now) = replay_notification-Step s id tenant who now
exec-Step s (set_failure e) = idle _ refl refl refl
