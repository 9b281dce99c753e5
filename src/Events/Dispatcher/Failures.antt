-- ===== src/Events/Dispatcher/Failures.antt =====
-- Repeated failures, and replays, in modules/events-outbox-jobs/event_dispatcher.go.
use oshe_platform.Prelude.{
  ℕ, suc, ◌+◌, ◌≤◌, ◌<◌, ◌^◌, String, ◌≡◌, refl, ap, true, false, Option, none, some, List, [], ◌∷◌,
  length, All, ltb, if◌then◌else◌, arith, eq_iff,
}
use oshe_platform.Prelude.Map.{lookup, lookup-insert, beq_refl, string_eq, ◌==◌}
use oshe_platform.Prelude.Strings.{trim_space}
use oshe_platform.Events.Outbox.{EventEnvelope}
use oshe_platform.Events.Dispatcher.{
  delivered, retrying, quarantined, DispatchError, DeliveryRecord, Dispatcher, record_key,
  fresh_record, settle_attempt, settle_replay, refusal, is_quarantined, is_foreign, store, attempt,
  dispatch, replay,
}

-- What the environment gives one call of `Dispatch`: what handlers answer then, the text of the
-- error of the event's handler, and the clock's reading.
pub record Failure (Handler : Type 0) : Type 0 where
  pub call : Handler → EventEnvelope → Option String
  pub message : String
  pub now : ℕ

module _ {Handler : Type 0} (c : String) (env : EventEnvelope) (h : Handler)
    (c_given : (trim_space c == "") ≡ false)
    (e_given : (trim_space env.event_id == "") ≡ false) where
  abbrev pub key : String
  key = record_key (trim_space c) (trim_space env.event_id)

  abbrev pub Fails : Failure Handler → Type 0
  Fails f = f.call h env ≡ some f.message

  -- Dispatching the event once for each failure, the first one first.
  pub dispatch_each : Dispatcher Handler → List (Failure Handler) → Dispatcher Handler
  dispatch_each d [] = d
  dispatch_each d (f ∷ fs) = dispatch_each (dispatch f.call d c env f.now).0 fs

  abbrev pub last : Failure Handler → List (Failure Handler) → Failure Handler
  last f [] = f
  last f (g ∷ gs) = last g gs

  -- A dispatcher that takes the event for the handler.
  record Accepts (d : Dispatcher Handler) : Type 0 where
    handled : lookup (trim_space c) d.handlers ≡ some h
    own : is_foreign d (trim_space c) env ≡ false

  -- The record after n failures, the first one at the time `since` and the last one `f`.
  pub record HasFailed (limit since n : ℕ) (f : Failure Handler) (d : Dispatcher Handler)
      : Type 0 where
    pub rec : DeliveryRecord
    pub found : lookup key d.records ≡ some rec
    pub attempts : rec.attempts ≡ n
    pub limited : rec.max_attempts ≡ limit
    pub status : rec.status ≡ (if ltb n limit then retrying else quarantined)
    pub began : rec.first_attempt_at ≡ since
    pub ended : rec.last_attempt_at ≡ f.now
    pub error : rec.last_error ≡ f.message

  dispatch_new :
      (d : Dispatcher Handler) (f : Failure Handler)
      → Accepts d
      → lookup key d.records ≡ none
      → Fails f
      → dispatch f.call d c env f.now
        ≡ store d key (
            settle_attempt
              (fresh_record
                (trim_space env.event_id)
                (trim_space c)
                env.tenant_id
                d.max_attempts
                f.now)
              f.now
              (some f.message))
  unfolding dispatch attempt
  dispatch_new d f a n e = rw (c_given, e_given, a.handled, a.own, n, e) refl

  dispatch_again :
      (d : Dispatcher Handler) (f : Failure Handler) (rec : DeliveryRecord)
      → Accepts d
      → lookup key d.records ≡ some rec
      → refusal rec.status ≡ none
      → Fails f
      → dispatch f.call d c env f.now ≡ store d key (settle_attempt rec f.now (some f.message))
  unfolding dispatch attempt
  dispatch_again d f rec a g r e = rw (c_given, e_given, a.handled, a.own, g, r, e) refl

  keeps_accepting :
      (d : Dispatcher Handler) (r : DeliveryRecord × Option DispatchError)
      → Accepts d
      → Accepts (store d key r).0
  unfolding store is_foreign
  keeps_accepting d r a = record { handled = a.handled; own = a.own }

  settle-HasFailed :
      (d : Dispatcher Handler) (f : Failure Handler) (rec : DeliveryRecord) (limit n : ℕ)
      → rec.attempts ≡ n
      → rec.max_attempts ≡ limit
      → limit < 2 ^ 63
      → n < limit
      → HasFailed limit rec.first_attempt_at
          (suc n)
          f
          (store d key (settle_attempt rec f.now (some f.message))).0
  unfolding store settle_attempt
  settle-HasFailed d f rec limit n a m b l = record {
    rec = (settle_attempt rec f.now (some f.message)).0;
    found = rw lookup-insert (rw (beq_refl key) refl);
    attempts = ground arith;
    limited = ground arith;
    status = ground arith;
    began = ground arith;
    ended = ground arith;
    error = ground arith;
  }

  open_again :
      (d : Dispatcher Handler) (limit since n : ℕ) (f : Failure Handler)
      (e : HasFailed limit since n f d)
      → n < limit
      → refusal e.rec.status ≡ none
  unfolding refusal
  open_again d limit since n f e l = ground (arith, e.status)

  dispatch-HasFailed :
      (d : Dispatcher Handler) (limit since n : ℕ) (f g : Failure Handler)
      → Accepts d
      → HasFailed limit since n f d
      → Fails g
      → limit < 2 ^ 63
      → n < limit
      → Accepts (dispatch g.call d c env g.now).0
        × HasFailed limit since (suc n) g (dispatch g.call d c env g.now).0
  dispatch-HasFailed d limit since n f g a e w b l =
      rw (dispatch_again d g e.rec a e.found (open_again d limit since n f e l) w) (
        keeps_accepting d _ a,
        rw (← e.began) (settle-HasFailed d g e.rec limit n e.attempts e.limited b l),
      )

  all_fail :
      (d : Dispatcher Handler) (limit since n : ℕ) (f : Failure Handler)
      (gs : List (Failure Handler))
      → Accepts d
      → HasFailed limit since n f d
      → All Fails gs
      → limit < 2 ^ 63
      → n + length gs ≤ limit
      → HasFailed limit since (n + length gs) (last f gs) (dispatch_each d gs)
  unfolding dispatch_each
  all_fail d limit since n f [] a e w b l = let m : n ≡ n + 0 = omega arith in rw (← m) e
  all_fail d limit since n f (g ∷ gs) a e w b l =
      let (a', e') = dispatch-HasFailed d limit since n f g a e w.0 b (omega arith) in
      let ih =
        all_fail (dispatch g.call d c env g.now).0 limit since (suc n) g gs a' e' w.1 b
          (omega arith) in
      let m : suc n + length gs ≡ n + length (g ∷ gs) = omega arith in rw (← m) ih

  -- An event that has no record is dispatched to a registered consumer, which is not bound to
  -- another tenant, once or more, up to the dispatcher's limit of times, a limit below 2^63; neither
  -- identifier is blank, and the consumer's handler fails every time. At each call the clock's
  -- reading, the error's text and the answers of other handlers are arbitrary. Then the record
  -- counts the calls as attempts, has the time of the first call and the time and the error of the
  -- last one, and is to be retried while the attempts are below the limit and quarantined at the
  -- limit.
  pub quarantined_after_limit :
      (d : Dispatcher Handler) (f : Failure Handler) (fs : List (Failure Handler))
      → lookup (trim_space c) d.handlers ≡ some h
      → is_foreign d (trim_space c) env ≡ false
      → lookup key d.records ≡ none
      → All Fails (f ∷ fs)
      → d.max_attempts < 2 ^ 63
      → length (f ∷ fs) ≤ d.max_attempts
      → HasFailed d.max_attempts f.now (length (f ∷ fs)) (last f fs) (dispatch_each d (f ∷ fs))
  unfolding dispatch_each
  quarantined_after_limit d f fs handled own u w b l =
      let a : Accepts d = record { handled = handled; own = own } in
      let start =
        fresh_record (trim_space env.event_id) (trim_space c) env.tenant_id d.max_attempts f.now in
      let first =
        settle-HasFailed d f start d.max_attempts 0 (unfold fresh_record in refl)
          (unfold fresh_record in refl) b (omega arith) in
      let m : suc 0 + length fs ≡ length (f ∷ fs) = omega arith in
      rw (dispatch_new d f a u w.0) (
        rw (← m) (
          all_fail _ d.max_attempts f.now 1 f fs (keeps_accepting d _ a)
            (unfold fresh_record in first) w.1 b (omega arith)))

-- `Replay` does not compare the envelope that it is given with the record: for a quarantined event,
-- an envelope of any event and any tenant is handed to the handler, and if that accepts it the
-- record of the quarantined event is marked as delivered.
pub replay_any_envelope :
    {Handler : Type 0} (call : Handler → EventEnvelope → Option String) (d : Dispatcher Handler)
    (c event_id who : String) (env : EventEnvelope) (now : ℕ) (h : Handler) (rec : DeliveryRecord)
    → (trim_space who == "") ≡ false
    → trim_space rec.tenant_id ≡ rec.tenant_id
    → lookup (record_key (trim_space c) (trim_space event_id)) d.records ≡ some rec
    → rec.status ≡ quarantined
    → lookup (trim_space c) d.handlers ≡ some h
    → call h env ≡ none
    → (r : DeliveryRecord) × ((replay call d c event_id rec.tenant_id who env now).1
        ≡ (some r, none))
      × (r.event_id ≡ rec.event_id)
      × (r.status ≡ delivered)
unfolding replay store settle_replay
replay_any_envelope call d c event_id who env now h rec w t f s k a =
    let q : is_quarantined rec.status ≡ true = ap is_quarantined s in
    let same : (trim_space rec.tenant_id == rec.tenant_id) ≡ true = (eq_iff _ _).1 t in
    ((settle_replay rec now none).0, rw (w, f, q, same, k, a), refl, refl)
