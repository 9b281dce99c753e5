-- ===== src/Events/Dispatcher/Limit.antt =====
-- The attempt limit of modules/events-outbox-jobs/event_dispatcher.go.
use mathlib.Core.Path.{subst}
use oshe_platform.Prelude.{
  ℕ, ◌<◌, ◌^◌, String, ◌≡◌, ◌≢◌, refl, Option, none, some, List, arith, inl, inr,
}
use oshe_platform.Prelude.Map.{Map, lookup, insert, lookup-insert_cases, lookup-empty, string_eq}
use oshe_platform.Events.Dispatcher.{
  DeliveryStatus, pending, delivered, retrying, quarantined, max_retries_exceeded, DeliveryRecord,
  fresh_record, settle_attempt, settle_replay, refusal, new_dispatcher,
}
use oshe_platform.Events.Dispatcher.Run.{
  Writes, kept, first, again, replayed, Call, perform_all, perform_all_induction,
}

-- What holds of a stored record: it carries the dispatcher's limit, and while it is to be retried
-- it has had at least one attempt and fewer than the limit.
pub record IsWithin (limit : ℕ) (rec : DeliveryRecord) : Type 0 where
  pub carried : rec.max_attempts ≡ limit
  pub attempted : rec.status ≢ pending
  pub below : rec.status ≡ retrying → (0 < rec.attempts) × (rec.attempts < limit)

-- What an attempt makes of a record that has had fewer attempts than the limit.
module _ (limit : ℕ) (rec : DeliveryRecord) (now : ℕ) (answer : Option String)
    (small : limit < 2 ^ 63) (carried : rec.max_attempts ≡ limit)
    (below : rec.attempts < limit) where
  settle_attempt-IsWithin : IsWithin limit (settle_attempt rec now answer).0
  unfolding settle_attempt
  settle_attempt-IsWithin = record {
    carried = ground arith;
    attempted = λ e. ground arith;
    below = λ e. ground arith;
  }

  -- It is quarantined on a failure exactly if this attempt was the last one.
  quarantined_at_limit :
      (message : String)
      → (settle_attempt rec now answer).1 ≡ some (max_retries_exceeded message)
      → (settle_attempt rec now answer).0.attempts ≡ limit
  unfolding settle_attempt
  quarantined_at_limit message h = ground arith

settle_replay-IsWithin :
    (limit : ℕ) (rec : DeliveryRecord) (now : ℕ) (answer : Option String)
    → rec.max_attempts ≡ limit
    → IsWithin limit (settle_replay rec now answer).0
unfolding settle_replay
settle_replay-IsWithin limit rec now answer c = record {
  carried = ground arith;
  attempted = λ e. ground arith;
  below = λ e. absurd (ground arith);
}

pub record AllWithin (limit : ℕ) (m : Map String DeliveryRecord) : Type 0 where
  pub within : (k : String) (rec : DeliveryRecord) → lookup k m ≡ some rec → IsWithin limit rec

AllWithin-insert :
    (limit : ℕ) (m : Map String DeliveryRecord) (k : String) (r : DeliveryRecord)
    → IsWithin limit r
    → AllWithin limit m
    → AllWithin limit (insert k r m)
AllWithin-insert limit m k r w h = record {
  within = λ j rec q. elim (lookup-insert_cases k j r m q) [
    | inl (_, e) ↦ subst (IsWithin limit) e w
    | inr (_, q') ↦ h.within j rec q'
  ];
}

still_below :
    (limit : ℕ) (rec : DeliveryRecord)
    → IsWithin limit rec
    → refusal rec.status ≡ none
    → rec.attempts < limit
unfolding refusal
still_below limit rec w r = go rec.status refl r
  where
    go : (s : DeliveryStatus) → rec.status ≡ s → refusal s ≡ none → rec.attempts < limit
    go pending e r = absurd (w.attempted e)
    go delivered e r = absurd (ground arith)
    go retrying e r = (w.below e).1
    go quarantined e r = absurd (ground arith)

Writes-AllWithin :
    (limit : ℕ) (m m' : Map String DeliveryRecord)
    → 0 < limit
    → limit < 2 ^ 63
    → Writes limit m m'
    → AllWithin limit m
    → AllWithin limit m'
Writes-AllWithin limit m m' p b kept h = h
Writes-AllWithin limit m m' p b (first k e c t now answer n) h =
    AllWithin-insert limit m k _
      (settle_attempt-IsWithin limit (fresh_record e c t limit now) now answer b
        (unfold fresh_record in refl) (unfold fresh_record in p))
      h
Writes-AllWithin limit m m' p b (again k r now answer f n) h =
    AllWithin-insert limit m k _
      (settle_attempt-IsWithin limit r now answer b (h.within k r f).carried
        (still_below limit r (h.within k r f) n))
      h
Writes-AllWithin limit m m' p b (replayed k r now answer f q) h =
    AllWithin-insert limit m k _
      (settle_replay-IsWithin limit r now answer (h.within k r f).carried) h

-- After any registrations, dispatches and replays of a new dispatcher whose limit is below 2^63,
-- every record carries the limit, is past its first attempt, and has had fewer attempts than the
-- limit as long as it is to be retried.
pub perform_all-AllWithin :
    {Handler : Type 0} (n : ℕ) (os : List (Call Handler))
    → n < 2 ^ 63
    → AllWithin
        (new_dispatcher {Handler = Handler} n).max_attempts
        (perform_all (new_dispatcher n) os).records
perform_all-AllWithin {Handler} n os b =
    perform_all_induction (AllWithin (new_dispatcher {Handler = Handler} n).max_attempts)
      (new_dispatcher n) os
      (λ m m' w h. Writes-AllWithin _ m m' (positive n b).0 (positive n b).1 w h)
      (unfold new_dispatcher in
        record { within = λ k rec q. cc (lookup-empty {K = String} {V = DeliveryRecord} k, q) })
  where
    positive :
        (n : ℕ)
        → n < 2 ^ 63
        → (0 < (new_dispatcher {Handler = Handler} n).max_attempts)
          × ((new_dispatcher {Handler = Handler} n).max_attempts < 2 ^ 63)
    positive n b = unfold new_dispatcher in (ground arith, ground arith)
