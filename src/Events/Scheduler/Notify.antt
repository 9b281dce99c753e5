-- ===== src/Events/Scheduler/Notify.antt =====
-- The notifications of modules/events-outbox-jobs/scheduler_notifications.go.
use Prim.Native.String.{◌++◌}
use oshe_platform.Prelude.{
  ℕ, ◌+◌, String, Bool, true, false, not, ◌||◌, Option, none, some, List, push, Result, ok, err,
  wrap, int_le, if◌then◌else◌,
}
use oshe_platform.Prelude.Map.{lookup, insert, string_eq, ◌==◌}
use oshe_platform.Prelude.Strings.{trim_space, print_int}
use oshe_platform.Events.Scheduler.{
  NotificationStatus, pending, delivered, retrying, quarantined, SchedulerError, blank_tenant_id,
  unsupported_external_channel, cross_tenant_notification, duplicate_notification_request,
  notification_not_found, unauthorized_notification_access, notification_not_quarantined,
  notification_max_retries, notification_retry_limit_reached, blank_request_id, sink_failed,
  NotificationRequest, Scheduler, or_now,
}

abbrev pub is_delivered : NotificationStatus → Bool
is_delivered delivered = true
is_delivered _ = false

abbrev pub is_quarantined : NotificationStatus → Bool
is_quarantined quarantined = true
is_quarantined _ = false

unfoldable pub check_send : NotificationRequest → Option SchedulerError
check_send req =
    if trim_space req.request_id == ""
    then some blank_request_id
    else if trim_space req.tenant_id == ""
    then some blank_tenant_id
    else if not (req.channel == "LOCAL_MEMORY" || req.channel == "LOCAL_LOG")
    then some unsupported_external_channel
    else none

unfoldable pub notification_of : Scheduler → NotificationRequest → ℕ → NotificationRequest
notification_of s req now = record {
  request_id = trim_space req.request_id;
  tenant_id = trim_space req.tenant_id;
  recipient = trim_space req.recipient;
  subject = trim_space req.subject;
  body = trim_space req.body;
  channel = req.channel;
  created_at = or_now req.created_at now;
  status = pending;
  attempts = 0;
  max_attempts = s.max_notif_attempts;
  delivered_at = none;
  last_error = "";
  diagnostics = "";
}

-- What a method returns: the record that it found or made, and the error.
abbrev pub Reply : Type 0
Reply = Option NotificationRequest × Option SchedulerError

-- One more attempt.
abbrev pub counted : NotificationRequest → NotificationRequest
counted req = record req { attempts = wrap (req.attempts + 1) }

abbrev pub arrived : NotificationRequest → ℕ → String → NotificationRequest
arrived req now text = record req {
  status = delivered;
  delivered_at = some now;
  last_error = "";
  diagnostics = text;
}

abbrev pub lost : NotificationRequest → NotificationStatus → String → String → NotificationRequest
lost req status reason text = record req {
  status = status;
  last_error = reason;
  diagnostics = text;
}

abbrev pub save : Scheduler → String → NotificationRequest → Scheduler
save s key req = record s { notifications = insert key req s.notifications }

abbrev pub sink : Scheduler → String → NotificationRequest → Scheduler
sink s key req = record (save s key req) {
  local_sink_deliveries = push s.local_sink_deliveries req;
}

-- The part of `SendNotification` after `record.Attempts++`, by `s.simulatedSinkFailure`.
unfoldable pub attempt_delivery :
    Option String → Scheduler → String → NotificationRequest → ℕ → Scheduler × Reply
attempt_delivery (some reason) s key req now =
    let text =
      "local sink delivery failed on attempt " ++ print_int req.attempts ++ ": " ++ reason in
    let last = lost req quarantined reason text in
    let again = lost req retrying reason text in
    if int_le req.max_attempts req.attempts
    then (save s key last, (some last, some notification_max_retries))
    else (save s key again, (some again, some sink_failed))
attempt_delivery none s key req now =
    let r =
      arrived req now
        ("successfully delivered to " ++ req.channel ++ " on attempt " ++ print_int req.attempts) in
    (sink s key r, (some r, none))

unfoldable pub send_notification : Scheduler → NotificationRequest → ℕ → Scheduler × Reply
send_notification s req now =
    let key = trim_space req.request_id in
    elim (check_send req) [
      | some x ↦ (s, (none, some x))
      | none ↦ elim (lookup key s.notifications) [
        | some old ↦
            if is_delivered old.status
            then (s, (some old, some duplicate_notification_request))
            else if is_quarantined old.status
            then (s, (some old, some notification_retry_limit_reached))
            else attempt_delivery s.simulated_sink_failure s key (counted old) now
        | none ↦
            attempt_delivery s.simulated_sink_failure s key (counted (notification_of s req now))
              now
      ]
    ]

-- The part of `ReplayNotification` after `record.Attempts++`, by `s.simulatedSinkFailure`.
unfoldable pub replay_delivery :
    Option String → Scheduler → String → NotificationRequest → String → ℕ → Scheduler × Reply
replay_delivery (some reason) s key req caller now =
    let r = lost req quarantined reason ("replay delivery failed: " ++ reason) in
    (save s key r, (some r, some sink_failed))
replay_delivery none s key req caller now =
    let r = arrived req now ("replayed by " ++ caller ++ " and delivered to " ++ req.channel) in
    (sink s key r, (some r, none))

unfoldable pub replay_notification : Scheduler → String → String → String → ℕ → Scheduler × Reply
replay_notification s request_id caller_tenant_id caller_identity now =
    let key = trim_space request_id in
    if trim_space caller_identity == ""
    then (s, (none, some unauthorized_notification_access))
    else elim (lookup key s.notifications) [
      | none ↦ (s, (none, some notification_not_found))
      | some old ↦
          if not (old.tenant_id == trim_space caller_tenant_id)
          then (s, (none, some cross_tenant_notification))
          else if not (is_quarantined old.status)
          then (s, (none, some notification_not_quarantined))
          else replay_delivery s.simulated_sink_failure s key (counted old) caller_identity now
    ]

unfoldable pub get_notification :
    Scheduler → String → String → Result SchedulerError NotificationRequest
get_notification s request_id caller_tenant_id =
    elim (lookup (trim_space request_id) s.notifications) [
      | none ↦ err notification_not_found
      | some old ↦
          if not (old.tenant_id == trim_space caller_tenant_id)
          then err cross_tenant_notification
          else ok old
    ]

abbrev pub set_local_sink_failure : Scheduler → Option String → Scheduler
set_local_sink_failure s e = record s { simulated_sink_failure = e }

abbrev pub get_local_sink_deliveries : Scheduler → List NotificationRequest
get_local_sink_deliveries s = s.local_sink_deliveries
