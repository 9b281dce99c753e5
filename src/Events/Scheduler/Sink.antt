-- ===== src/Events/Scheduler/Sink.antt =====
-- What reaches the local sink of modules/events-outbox-jobs/scheduler_notifications.go.
use oshe_platform.Prelude.{
  ℕ, ◌+◌, String, ◌≡◌, refl, sym, ap, ◌∙◌, Bool, true, false, some, List, [], ◌∷◌, push, keep,
  keep-append, length, length-append, if◌then◌else◌, arith, Bool-cases, eq_iff, inl, inr,
}
use oshe_platform.Prelude.Map.{
  Map, lookup, insert, lookup-insert, lookup-insert_cases, string_eq, ◌==◌,
}
use oshe_platform.Events.Scheduler.{NotificationRequest, Scheduler}
use oshe_platform.Events.Scheduler.Notify.{is_delivered}
use oshe_platform.Events.Scheduler.Run.{
  Call, exec, run, owed, IsNamed, Step, idle, schedules, executes, saves, sinks, exec-Step,
}

abbrev pub deliveries_of : String → List NotificationRequest → ℕ
deliveries_of k l = length (keep (λ (d : NotificationRequest). d.request_id == k) l)

-- Each record carries the identifier of its key, and the sink holds a request once where it has
-- been delivered, else not at all.
pub record IsSoundSink (s : Scheduler) : Type 0 where
  pub named :
      (k : String) (r : NotificationRequest) → lookup k s.notifications ≡ some r → r.request_id ≡ k
  pub once :
      (k : String) → deliveries_of k s.local_sink_deliveries ≡ owed (lookup k s.notifications)

IsNamed-own :
    (s : Scheduler) (k : String) (r : NotificationRequest)
    → IsSoundSink s
    → IsNamed s k r
    → r.request_id ≡ k
IsNamed-own s k r h (inl e) = e
IsNamed-own s k r h (inr (old, (f, e))) = e ∙ h.named k old f

save_named :
    (s : Scheduler) (k : String) (r : NotificationRequest)
    → IsSoundSink s
    → r.request_id ≡ k
    → (j : String) (found : NotificationRequest)
    → lookup j (insert k r s.notifications) ≡ some found
    → found.request_id ≡ j
save_named s k r h o j found e = elim (lookup-insert_cases k j r s.notifications e) [
  | inl c ↦ ap (λ (x : NotificationRequest). x.request_id) (sym c.1) ∙ o ∙ c.0
  | inr c ↦ h.named j found c.1
]

owed-insert :
    (m : Map String NotificationRequest) (k j : String) (r : NotificationRequest)
    → owed (lookup j (insert k r m)) ≡ (if k == j then owed (some r) else owed (lookup j m))
owed-insert m k j r = elim (Bool-cases (k == j)) [
  | inl e ↦ rw (lookup-insert, e) refl
  | inr e ↦ rw (lookup-insert, e) refl
]

count_one :
    (b : Bool) (r : NotificationRequest) → length (if b then r ∷ [] else []) ≡ (if b then 1 else 0)
count_one true r = refl
count_one false r = refl

-- A record that replaces one that is not delivered.
module _ (s : Scheduler) (k : String) (r : NotificationRequest) where
  save_once :
      IsSoundSink s
      → owed (lookup k s.notifications) ≡ 0
      → is_delivered r.status ≡ false
      → (j : String)
      → deliveries_of j s.local_sink_deliveries ≡ owed (lookup j (insert k r s.notifications))
  save_once h z d j = elim (Bool-cases (k == j)) [
    | inl c ↦
        let same = (eq_iff k j).0 c in
        rw (owed-insert, c, d)
          (h.once j ∙ ap (λ (i : String). owed (lookup i s.notifications)) (sym same) ∙ z)
    | inr c ↦ rw (owed-insert, c) (h.once j)
  ]

  deliveries_of-push :
      (j : String)
      → r.request_id ≡ k
      → deliveries_of j (push s.local_sink_deliveries r)
        ≡ deliveries_of j s.local_sink_deliveries + (if k == j then 1 else 0)
  deliveries_of-push j o = rw keep-append (
      rw length-append
        (rw o (ap (λ (n : ℕ). deliveries_of j s.local_sink_deliveries + n) (count_one (k == j) _))))

  sink_once :
      IsSoundSink s
      → owed (lookup k s.notifications) ≡ 0
      → is_delivered r.status ≡ true
      → r.request_id ≡ k
      → (j : String)
      → deliveries_of j (push s.local_sink_deliveries r)
        ≡ owed (lookup j (insert k r s.notifications))
  sink_once h z d o j = elim (Bool-cases (k == j)) [
    | inl c ↦
        let same = (eq_iff k j).0 c in
        let before =
          h.once j ∙ ap (λ (i : String). owed (lookup i s.notifications)) (sym same) ∙ z in
        rw (deliveries_of-push j o, owed-insert, c, d) (omega arith)
    | inr c ↦ rw (deliveries_of-push j o, owed-insert, c) (omega (arith, h.once j))
  ]

Step-IsSoundSink : (s s' : Scheduler) → Step s s' → IsSoundSink s → IsSoundSink s'
Step-IsSoundSink s _ (idle s' j n l) h = record {
  named = λ k r e. h.named k r (ap (lookup k) (sym n) ∙ e);
  once = λ k. ap (deliveries_of k) l ∙ h.once k ∙ ap (λ m. owed (lookup k m)) (sym n);
}
Step-IsSoundSink s _ (schedules job now c) h = record { named = h.named; once = h.once }
Step-IsSoundSink s _ (executes order now) h = record { named = h.named; once = h.once }
Step-IsSoundSink s _ (saves k r n z d) h = record {
  named = save_named s k r h (IsNamed-own s k r h n);
  once = save_once s k r h z d;
}
Step-IsSoundSink s _ (sinks k r n z d) h = record {
  named = save_named s k r h (IsNamed-own s k r h n);
  once = sink_once s k r h z d (IsNamed-own s k r h n);
}

-- After any calls from a sound sink, each notification stands under its own identifier, and the
-- sink holds it exactly once when it is DELIVERED and not at all otherwise, replays included.
pub run-IsSoundSink : (s : Scheduler) (cs : List Call) → IsSoundSink s → IsSoundSink (run s cs)
unfolding run
run-IsSoundSink s [] h = h
run-IsSoundSink s (c ∷ cs) h =
    run-IsSoundSink (exec s c) cs (Step-IsSoundSink s (exec s c) (exec-Step s c) h)
