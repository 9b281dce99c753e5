-- ===== src/Events/Dispatcher/Run.antt =====
-- Sequences of calls of the dispatcher of modules/events-outbox-jobs/event_dispatcher.go.
use oshe_platform.Prelude.{
  ℕ, String, ◌≡◌, true, Option, none, some, List, [], ◌∷◌, arith, Bool-cases, Option-cases, inl,
  inr,
}
use oshe_platform.Prelude.Map.{Map, lookup, insert, string_eq, ◌==◌}
use oshe_platform.Prelude.Strings.{trim_space}
use oshe_platform.Events.Outbox.{EventEnvelope}
use oshe_platform.Events.Dispatcher.{
  DeliveryRecord, Dispatcher, record_key, fresh_record, settle_attempt, settle_replay, refusal,
  is_quarantined, register_consumer, is_foreign, attempt, dispatch, replay,
}

-- What one call does to the delivery records of a dispatcher with the given limit.
pub data Writes (limit : ℕ) (m : Map String DeliveryRecord)
    : Map String DeliveryRecord → Type 0 where
  kept : Writes limit m m
  first :
      (key event_id consumer_id tenant_id : String) (now : ℕ) (answer : Option String)
      → lookup key m ≡ none
      → Writes limit m (
          insert key
            (settle_attempt (fresh_record event_id consumer_id tenant_id limit now) now answer).0
            m)
  again :
      (key : String) (rec : DeliveryRecord) (now : ℕ) (answer : Option String)
      → lookup key m ≡ some rec
      → refusal rec.status ≡ none
      → Writes limit m (insert key (settle_attempt rec now answer).0 m)
  replayed :
      (key : String) (rec : DeliveryRecord) (now : ℕ) (answer : Option String)
      → lookup key m ≡ some rec
      → is_quarantined rec.status ≡ true
      → Writes limit m (insert key (settle_replay rec now answer).0 m)

-- A call of the dispatcher, with what the handlers would answer at that time.
pub data Call (Handler : Type 0) : Type 0 where
  register : String → String → Option Handler → Call Handler
  deliver : (Handler → EventEnvelope → Option String) → String → EventEnvelope → ℕ → Call Handler
  replays :
      (Handler → EventEnvelope → Option String)
      → String
      → String
      → String
      → String
      → EventEnvelope
      → ℕ
      → Call Handler

module _ {Handler : Type 0} where
  unfoldable pub perform : Dispatcher Handler → Call Handler → Dispatcher Handler
  perform d (register c t h) = (register_consumer d c t h).0
  perform d (deliver call c env now) = (dispatch call d c env now).0
  perform d (replays call c e t who env now) = (replay call d c e t who env now).0

  unfoldable pub perform_all : Dispatcher Handler → List (Call Handler) → Dispatcher Handler
  unfolding perform
  perform_all d [] = d
  perform_all d (o ∷ os) = perform_all (perform d o) os

  limit-perform :
      (d : Dispatcher Handler) (o : Call Handler) → (perform d o).max_attempts ≡ d.max_attempts
  unfolding perform register_consumer dispatch attempt replay
  limit-perform d (register c t h) = ground arith
  limit-perform d (deliver call c env now) = ground arith
  limit-perform d (replays call c e t who env now) = ground arith

  register-Writes :
      (d : Dispatcher Handler) (c t : String) (h : Option Handler)
      → (register_consumer d c t h).0.records ≡ d.records
  unfolding register_consumer
  register-Writes d c t h = ground arith

  dispatch-Writes :
      (d : Dispatcher Handler) (call : Handler → EventEnvelope → Option String) (c : String)
      (env : EventEnvelope) (now : ℕ)
      → Writes d.max_attempts d.records (dispatch call d c env now).0.records
  unfolding dispatch attempt
  dispatch-Writes d call c env now =
      let c_id = trim_space c in
      let e_id = trim_space env.event_id in
      let key = record_key c_id e_id in
      elim (Bool-cases (c_id == "")) [
        | inl a ↦ rw a kept
        | inr a ↦ rw a (elim (Bool-cases (e_id == "")) [
          | inl b ↦ rw b kept
          | inr b ↦ rw b (elim (Option-cases (lookup c_id d.handlers)) [
            | inl n ↦ rw n kept
            | inr (h, s) ↦ rw s (elim (Bool-cases (is_foreign d c_id env)) [
              | inl f ↦ rw f kept
              | inr f ↦ rw f (elim (Option-cases (lookup key d.records)) [
                | inl unseen ↦ rw unseen (first key e_id c_id env.tenant_id now (call h env) unseen)
                | inr (rec, seen) ↦ rw seen (elim (Option-cases (refusal rec.status)) [
                  | inr (x, r) ↦ rw r kept
                  | inl r ↦ rw r (again key rec now (call h env) seen r)
                ])
              ])
            ])
          ])
        ])
      ]

  replay-Writes :
      (d : Dispatcher Handler) (call : Handler → EventEnvelope → Option String) (c e t who : String)
      (env : EventEnvelope) (now : ℕ)
      → Writes d.max_attempts d.records (replay call d c e t who env now).0.records
  unfolding replay
  replay-Writes d call c e t who env now =
      let key = record_key (trim_space c) (trim_space e) in
      elim (Bool-cases (trim_space who == "")) [
        | inl a ↦ rw a kept
        | inr a ↦ rw a (elim (Option-cases (lookup key d.records)) [
          | inl n ↦ rw n kept
          | inr (rec, s) ↦ rw s (elim (Bool-cases (is_quarantined rec.status)) [
            | inr q ↦ rw q kept
            | inl q ↦ rw q (elim (Bool-cases (trim_space t == rec.tenant_id)) [
              | inr w ↦ rw w kept
              | inl w ↦ rw w (elim (Option-cases (lookup (trim_space c) d.handlers)) [
                | inl n ↦ rw n kept
                | inr (h, f) ↦ rw f (replayed key rec now (call h env) s q)
              ])
            ])
          ])
        ])
      ]

  perform-Writes :
      (d : Dispatcher Handler) (o : Call Handler)
      → Writes d.max_attempts d.records (perform d o).records
  unfolding perform
  perform-Writes d (register c t h) = rw register-Writes kept
  perform-Writes d (deliver call c env now) = dispatch-Writes d call c env now
  perform-Writes d (replays call c e t who env now) = replay-Writes d call c e t who env now

  -- A property of the records that every write keeps holds after any calls.
  pub perform_all_induction :
      (P : Map String DeliveryRecord → Type 0) (d : Dispatcher Handler) (os : List (Call Handler))
      → ((m m' : Map String DeliveryRecord) → Writes d.max_attempts m m' → P m → P m')
      → P d.records
      → P (perform_all d os).records
  unfolding perform_all
  perform_all_induction P d [] keeps h = h
  perform_all_induction P d (o ∷ os) keeps h =
      perform_all_induction P (perform d o) os (λ m m' w. keeps m m' (rw (limit-perform d o) at w))
        (keeps d.records (perform d o).records (perform-Writes d o) h)
