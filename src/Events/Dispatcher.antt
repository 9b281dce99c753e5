-- ===== src/Events/Dispatcher.antt =====
-- The dispatcher of modules/events-outbox-jobs/event_dispatcher.go. A handler is code of the
-- caller: `Handler` is its type, and each operation that calls one takes what a call returns then,
-- `none` for nil and the text of the error otherwise.
pub mod Run
pub mod Delivery
pub mod Limit
pub mod Failures
mod Tests
use Prim.Native.String.{◌++◌}
use oshe_platform.Prelude.{
  ℕ, ◌+◌, String, Bool, true, false, not, ◌&&◌, Option, none, some, List, [], ◌∷◌, wrap, int_le,
  if◌then◌else◌,
}
use oshe_platform.Prelude.Map.{Map, Eq, lookup, insert, empty, string_eq, ◌==◌}
use oshe_platform.Prelude.Strings.{trim_space}
use oshe_platform.Events.Outbox.{EventEnvelope}

pub data DeliveryStatus : Type 0 where
  pending delivered retrying quarantined : DeliveryStatus

pub data DispatchError : Type 0 where
  blank_consumer_id blank_event_id consumer_not_registered already_delivered : DispatchError
  cross_tenant_dispatch cross_tenant_replay event_not_quarantined unauthorized_replay :
      DispatchError
  delivery_record_not_found retry_limit_reached nil_handler : DispatchError
  max_retries_exceeded replay_failed : String → DispatchError
  attempt_failed : ℕ → String → DispatchError

pub record DeliveryRecord : Type 0 where
  pub event_id : String
  pub consumer_id : String
  pub tenant_id : String
  pub status : DeliveryStatus
  pub attempts : ℕ
  pub max_attempts : ℕ
  pub last_error : String
  pub first_attempt_at : ℕ
  pub last_attempt_at : ℕ
  pub delivered_at : Option ℕ
  pub quarantined_at : Option ℕ
  pub replayed_count : ℕ

pub record Dispatcher (Handler : Type 0) : Type 0 where
  pub max_attempts : ℕ
  pub handlers : Map String Handler
  pub consumer_tenants : Map String String
  pub records : Map String DeliveryRecord

unfoldable pub record_key : String → String → String
record_key consumer_id event_id = trim_space consumer_id ++ ":" ++ trim_space event_id

abbrev pub Reply : Type 0
Reply = Option DeliveryRecord × Option DispatchError

unfoldable pub fresh_record : String → String → String → ℕ → ℕ → DeliveryRecord
fresh_record event_id consumer_id tenant_id max_attempts now = record {
  event_id = event_id;
  consumer_id = consumer_id;
  tenant_id = tenant_id;
  status = pending;
  attempts = 0;
  max_attempts = max_attempts;
  last_error = "";
  first_attempt_at = now;
  last_attempt_at = 0;
  delivered_at = none;
  quarantined_at = none;
  replayed_count = 0;
}

-- The attempt of `Dispatch` and what it writes for the handler's answer.
unfoldable pub settle_attempt :
    DeliveryRecord → ℕ → Option String → DeliveryRecord × Option DispatchError
settle_attempt rec now none = (
  record rec {
    attempts = wrap (rec.attempts + 1);
    last_attempt_at = now;
    status = delivered;
    delivered_at = some now;
    last_error = "";
  },
  none,
)
settle_attempt rec now (some message) =
    let rec' = record rec {
      attempts = wrap (rec.attempts + 1);
      last_attempt_at = now;
      last_error = message;
    } in
    if int_le rec'.max_attempts rec'.attempts
    then (
      record rec' { status = quarantined; quarantined_at = some now },
      some (max_retries_exceeded message),
    )
    else (record rec' { status = retrying }, some (attempt_failed rec'.attempts message))

-- The attempt of `Replay`.
unfoldable pub settle_replay :
    DeliveryRecord → ℕ → Option String → DeliveryRecord × Option DispatchError
settle_replay rec now none = (
  record rec {
    replayed_count = wrap (rec.replayed_count + 1);
    attempts = wrap (rec.attempts + 1);
    last_attempt_at = now;
    status = delivered;
    delivered_at = some now;
    last_error = "";
  },
  none,
)
settle_replay rec now (some message) = (
  record rec {
    replayed_count = wrap (rec.replayed_count + 1);
    attempts = wrap (rec.attempts + 1);
    last_attempt_at = now;
    last_error = message;
    status = quarantined;
    quarantined_at = some now;
  },
  some (replay_failed message),
)

-- What `Dispatch` says of an event that it has a record of: delivered and quarantined ones are
-- final.
unfoldable pub refusal : DeliveryStatus → Option DispatchError
refusal delivered = some already_delivered
refusal quarantined = some retry_limit_reached
refusal _ = none

abbrev pub is_quarantined : DeliveryStatus → Bool
is_quarantined quarantined = true
is_quarantined _ = false

export_entries : List (String × DeliveryRecord) → List DeliveryRecord
export_entries [] = []
export_entries ((key, rec) ∷ rest) = rec ∷ export_entries rest

module _ {Handler : Type 0} where
  -- A limit that is not positive is 3.
  unfoldable pub new_dispatcher : ℕ → Dispatcher Handler
  new_dispatcher max_attempts = record {
    max_attempts = if int_le max_attempts 0 then 3 else max_attempts;
    handlers = empty;
    consumer_tenants = empty;
    records = empty;
  }

  unfoldable pub register_consumer :
      Dispatcher Handler
      → String
      → String
      → Option Handler
      → Dispatcher Handler × Option DispatchError
  register_consumer d consumer_id tenant_id handler =
      let id = trim_space consumer_id in
      if id == "" then (d, some blank_consumer_id) else elim handler [
        | none ↦ (d, some nil_handler)
        | some h ↦
            let d' = record d { handlers = insert id h d.handlers } in
            (
              if not (trim_space tenant_id == "")
                  then record d' {
                    consumer_tenants = insert id (trim_space tenant_id) d.consumer_tenants;
                  }
                  else d',
              none,
            )
      ]

  -- A consumer that is bound to a tenant takes no event of another.
  unfoldable pub is_foreign : Dispatcher Handler → String → EventEnvelope → Bool
  is_foreign d consumer_id envelope = elim (lookup consumer_id d.consumer_tenants) [
    | none ↦ false
    | some bound ↦ not (bound == envelope.tenant_id)
  ]

  -- The record is stored, and its pointer returned, with the attempt's writes.
  unfoldable pub store :
      Dispatcher Handler
      → String
      → DeliveryRecord × Option DispatchError
      → Dispatcher Handler × Reply
  store d key (rec, e) = (record d { records = insert key rec d.records }, (some rec, e))

  unfoldable pub attempt :
      (Handler → EventEnvelope → Option String)
      → Dispatcher Handler
      → String
      → DeliveryRecord
      → Handler
      → EventEnvelope
      → ℕ
      → Dispatcher Handler × Reply
  unfolding store
  attempt call d key rec handler envelope now =
      store d key (settle_attempt rec now (call handler envelope))

  unfoldable pub dispatch :
      (Handler → EventEnvelope → Option String)
      → Dispatcher Handler
      → String
      → EventEnvelope
      → ℕ
      → Dispatcher Handler × Reply
  dispatch call d consumer_id envelope now =
      let c_id = trim_space consumer_id in
      let e_id = trim_space envelope.event_id in
      if c_id == ""
      then (d, (none, some blank_consumer_id))
      else if e_id == ""
      then (d, (none, some blank_event_id))
      else elim (lookup c_id d.handlers) [
        | none ↦ (d, (none, some consumer_not_registered))
        | some handler ↦
            if is_foreign d c_id envelope
            then (d, (none, some cross_tenant_dispatch))
            else let key = record_key c_id e_id in
              elim (lookup key d.records) [
                | none ↦
                    attempt call d key
                      (fresh_record e_id c_id envelope.tenant_id d.max_attempts now) handler
                      envelope now
                | some rec ↦ elim (refusal rec.status) [
                  | some x ↦ (d, (some rec, some x))
                  | none ↦ attempt call d key rec handler envelope now
                ]
              ]
      ]

  unfoldable pub replay :
      (Handler → EventEnvelope → Option String)
      → Dispatcher Handler
      → String
      → String
      → String
      → String
      → EventEnvelope
      → ℕ
      → Dispatcher Handler × Reply
  unfolding store
  replay call d consumer_id event_id caller_tenant_id caller_identity envelope now =
      if trim_space caller_identity == ""
      then (d, (none, some unauthorized_replay))
      else let c_id = trim_space consumer_id in
        let e_id = trim_space event_id in
        let key = record_key c_id e_id in
        elim (lookup key d.records) [
          | none ↦ (d, (none, some delivery_record_not_found))
          | some rec ↦
              if not (is_quarantined rec.status)
              then (d, (none, some event_not_quarantined))
              else if not (trim_space caller_tenant_id == rec.tenant_id)
              then (d, (none, some cross_tenant_replay))
              else elim (lookup c_id d.handlers) [
                | none ↦ (d, (none, some consumer_not_registered))
                | some handler ↦ store d key (settle_replay rec now (call handler envelope))
              ]
        ]

  unfoldable pub get_delivery_record : Dispatcher Handler → String → String → Option DeliveryRecord
  get_delivery_record d consumer_id event_id = lookup (record_key consumer_id event_id) d.records

  -- The records in the order of the map's entries, which Go leaves open.
  unfoldable pub export_state : Dispatcher Handler → List DeliveryRecord
  unfolding export_entries
  export_state d = export_entries d.records.entries

  unfoldable pub restore_state : Dispatcher Handler → List DeliveryRecord → Dispatcher Handler
  restore_state d [] = d
  restore_state d (rec ∷ rest) =
      restore_state
        (record d { records = insert (record_key rec.consumer_id rec.event_id) rec d.records }) rest
