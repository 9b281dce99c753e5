-- ===== src/Events/Dispatcher/Tests.antt =====
-- Calls of the dispatcher at concrete inputs. A handler is a Boolean: whether it accepts events.
use mathlib.Core.Bool.{false≢true}
use oshe_platform.Prelude.{
  String, ◌≡◌, refl, Bool, true, false, Option, none, some, List, [], ◌∷◌, arith, eq_iff,
}
use oshe_platform.Prelude.Map.{lookup, insert, string_eq, ◌==◌}
use oshe_platform.Prelude.Strings.{trim_space}
use oshe_platform.Events.Outbox.{EventEnvelope}
use oshe_platform.Events.Dispatcher.{
  delivered, quarantined, DispatchError, already_delivered, DeliveryRecord, Dispatcher, record_key,
  fresh_record, settle_attempt, refusal, new_dispatcher, register_consumer, is_foreign, attempt,
  dispatch, replay,
}
use oshe_platform.Events.Dispatcher.Run.{Call, register, deliver, perform, perform_all}
use oshe_platform.Events.Dispatcher.Delivery.{delivered_final, dispatch_once, dispatch_foreign}
use oshe_platform.Events.Dispatcher.Limit.{AllWithin, perform_all-AllWithin}
use oshe_platform.Events.Dispatcher.Failures.{
  Failure, HasFailed, dispatch_each, quarantined_after_limit, replay_any_envelope,
}

abbrev ask : Bool → EventEnvelope → Option String
ask true env = none
ask false env = some "down"

abbrev event : String → String → EventEnvelope
event id tenant = record {
  event_id = id;
  tenant_id = tenant;
  producer = "inspection";
  event_type = "closed";
  envelope_version = "1.0.0";
  schema_version = "1.0.0";
  correlation_id = "corr_1";
  causation_id = "caus_1";
  payload_digest = "";
  sequence_number = 1;
  timestamp = 5;
}

abbrev with_consumer : Bool → Dispatcher Bool
with_consumer h = perform_all (new_dispatcher 2) (register "mail" "ten_a" (some h) ∷ [])

abbrev done_dispatcher : Dispatcher Bool
done_dispatcher = perform (with_consumer true) (deliver ask "mail" (event "evt_1" "ten_a") 7)

abbrev done_record : DeliveryRecord
done_record = record {
  event_id = "evt_1";
  consumer_id = "mail";
  tenant_id = "ten_a";
  status = delivered;
  attempts = 1;
  max_attempts = 2;
  last_error = "";
  first_attempt_at = 7;
  last_attempt_at = 7;
  delivered_at = some 7;
  quarantined_at = none;
  replayed_count = 0;
}

done_holds : lookup "mail:evt_1" done_dispatcher.records ≡ some done_record
unfolding perform perform_all register_consumer new_dispatcher dispatch attempt settle_attempt
    fresh_record is_foreign refusal record_key trim_space lookup insert
done_holds = refl

delivered_final_example :
    lookup "mail:evt_1"
      (perform_all done_dispatcher (deliver ask "mail" (event "evt_1" "ten_a") 8 ∷ [])).records
    ≡ some done_record
delivered_final_example =
    delivered_final "mail:evt_1" done_record done_dispatcher
      (deliver ask "mail" (event "evt_1" "ten_a") 8 ∷ []) done_holds refl

dispatch_once_test :
    dispatch ask done_dispatcher "mail" (event "evt_1" "ten_a") 8
    ≡ (done_dispatcher, (some done_record, some already_delivered))
unfolding perform perform_all register_consumer new_dispatcher dispatch attempt settle_attempt
    fresh_record is_foreign refusal record_key trim_space lookup insert
dispatch_once_test =
    dispatch_once ask done_dispatcher "mail" (event "evt_1" "ten_a") 8 true done_record refl refl
      refl refl done_holds refl

dispatch_foreign_test :
    (x : DispatchError) × (dispatch ask done_dispatcher "mail" (event "evt_2" "ten_b") 8
      ≡ (done_dispatcher, (none, some x)))
unfolding perform perform_all register_consumer new_dispatcher dispatch attempt settle_attempt
    fresh_record is_foreign refusal record_key trim_space lookup insert
dispatch_foreign_test =
    dispatch_foreign ask done_dispatcher "mail" "ten_a" (event "evt_2" "ten_b") 8 refl
      (λ p. false≢true ((eq_iff "ten_a" "ten_b").1 p))

abbrev failing_calls : List (Call Bool)
failing_calls =
    register "mail" "ten_a" (some false)
    ∷ deliver ask "mail" (event "evt_1" "ten_a") 7
    ∷ deliver ask "mail" (event "evt_1" "ten_a") 8
    ∷ deliver ask "mail" (event "evt_1" "ten_a") 9
    ∷ []

perform_all-AllWithin_example :
    AllWithin
      (new_dispatcher {Handler = Bool} 2).max_attempts
      (perform_all (new_dispatcher 2) failing_calls).records
perform_all-AllWithin_example = perform_all-AllWithin 2 failing_calls (omega arith)

mail_given : (trim_space "mail" == "") ≡ false
unfolding trim_space
mail_given = refl

event_given : (trim_space (event "evt_1" "ten_a").event_id == "") ≡ false
unfolding trim_space
event_given = refl

-- Two refusals of the mail server, the second one after a day.
abbrev refused : Failure Bool
refused = record { call = λ h env. some "refused"; message = "refused"; now = 7 }

abbrev timed_out : Failure Bool
timed_out = record { call = ask; message = "down"; now = 86400000000007 }

quarantined_after_limit_example :
    HasFailed "mail" (event "evt_1" "ten_a") false mail_given event_given 2 7 2 timed_out (
      dispatch_each "mail"
        (event "evt_1" "ten_a")
        false
        mail_given
        event_given
        (with_consumer false)
        (refused ∷ timed_out ∷ []))
unfolding perform perform_all register_consumer new_dispatcher is_foreign trim_space lookup insert
quarantined_after_limit_example =
    quarantined_after_limit "mail" (event "evt_1" "ten_a") false mail_given event_given
      (with_consumer false) refused (timed_out ∷ []) refl refl refl (refl, (refl, tt)) (omega arith)
      (omega arith)

abbrev stuck_dispatcher : Dispatcher Bool
stuck_dispatcher = perform_all (with_consumer false) (
    deliver ask "mail" (event "evt_1" "ten_a") 7
    ∷ deliver ask "mail" (event "evt_1" "ten_a") 8
    ∷ [])

abbrev stuck_record : DeliveryRecord
stuck_record = record done_record {
  status = quarantined;
  attempts = 2;
  last_error = "down";
  last_attempt_at = 8;
  delivered_at = none;
  quarantined_at = some 8;
}

-- The quarantined event of tenant A is replayed with an event of tenant B.
replay_any_envelope_test :
    (r : DeliveryRecord) × ((replay
        (λ h env. none)
        stuck_dispatcher
        "mail"
        "evt_1"
        "ten_a"
        "admin"
        (event "evt_9" "ten_b")
        9).1
      ≡ (some r, none))
    × (r.event_id ≡ "evt_1")
    × (r.status ≡ delivered)
unfolding perform perform_all register_consumer new_dispatcher dispatch attempt settle_attempt
    fresh_record is_foreign refusal record_key trim_space lookup insert
replay_any_envelope_test =
    replay_any_envelope (λ h env. none) stuck_dispatcher "mail" "evt_1" "admin"
      (event "evt_9" "ten_b") 9 false stuck_record refl refl refl refl refl refl
