-- ===== src/Events/Scheduler/Tenant.antt =====
-- Requests of another tenant to modules/events-outbox-jobs/scheduler_notifications.go.
use oshe_platform.Prelude.{ℕ, String, ◌≡◌, refl, Option, none, some, int_le, Bool-cases, inl, inr}
use oshe_platform.Prelude.Map.{lookup, string_eq}
use oshe_platform.Prelude.Strings.{trim_space}
use oshe_platform.Events.Scheduler.{NotificationRequest, Scheduler}
use oshe_platform.Events.Scheduler.Notify.{
  is_delivered, is_quarantined, check_send, counted, attempt_delivery, send_notification,
}

-- The record that a call returns, and the message of another one.
abbrev Returns : Option NotificationRequest → NotificationRequest → Type 0
Returns reply old =
    (r : NotificationRequest) × ((reply ≡ some r)
      × (r.tenant_id ≡ old.tenant_id)
      × (r.recipient ≡ old.recipient)
      × (r.subject ≡ old.subject)
      × (r.body ≡ old.body))

attempt_delivery-Returns :
    (failure : Option String) (s : Scheduler) (k : String) (r : NotificationRequest) (now : ℕ)
    → Returns (attempt_delivery failure s k r now).1.0 r
unfolding attempt_delivery
attempt_delivery-Returns none s k r now = (_, (refl, refl, refl, refl, refl))
attempt_delivery-Returns (some reason) s k r now =
    elim (Bool-cases (int_le r.max_attempts r.attempts)) [
      | inl l ↦ rw l (_, (refl, refl, refl, refl, refl))
      | inr l ↦ rw l (_, (refl, refl, refl, refl, refl))
    ]

-- A valid request whose identifier is known is given the record that is stored under it, with its
-- tenant, its recipient, its subject and its body, whatever tenant the request names.
pub send_notification_crosses_tenants :
    (s : Scheduler) (req : NotificationRequest) (now : ℕ) (old : NotificationRequest)
    → check_send req ≡ none
    → lookup (trim_space req.request_id) s.notifications ≡ some old
    → (r : NotificationRequest) × (((send_notification s req now).1.0 ≡ some r)
        × (r.tenant_id ≡ old.tenant_id)
        × (r.recipient ≡ old.recipient)
        × (r.subject ≡ old.subject)
        × (r.body ≡ old.body))
unfolding send_notification
send_notification_crosses_tenants s req now old c f = elim (Bool-cases (is_delivered old.status)) [
  | inl d ↦ rw (send_notification, c, f, d) (old, (refl, refl, refl, refl, refl))
  | inr d ↦ elim (Bool-cases (is_quarantined old.status)) [
    | inl q ↦ rw (send_notification, c, f, d, q) (old, (refl, refl, refl, refl, refl))
    | inr q ↦
        rw (send_notification, c, f, d, q)
          (attempt_delivery-Returns s.simulated_sink_failure s (trim_space req.request_id)
            (counted old) now)
  ]
]
