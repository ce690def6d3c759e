-- ===== src/Examples/Pipeline.antt =====
-- A concrete run of the whole pipeline, from a client to the sandbox provider.
use pulsar_notifcation_pipel.Base.{
  ◌<◌, trim_back, trim_left, trim_space, ℕ, true, arith, ap, text_eq, [], ◌∷◌, some, inl, inr, refl,
  ◌≡◌, ascii,
}
use pulsar_notifcation_pipel.EndToEnd.Pipeline.{submission_delivered}
use pulsar_notifcation_pipel.Examples.Data.{
  below_one, desk, note-runs, timeout, scripted, service, packages, note,
}
use pulsar_notifcation_pipel.Dispatcher.Loop.{reply, IsRetryable}
use pulsar_notifcation_pipel.Outcomes.{status_delivered, Outcome}
use pulsar_notifcation_pipel.Consumer.{receiving, run, State}
use pulsar_notifcation_pipel.EndToEnd.Delivery.{IsDeliverable}
use pulsar_notifcation_pipel.EndToEnd.Submission.{IsClientOf, IsTransmitted}
use pulsar_notifcation_pipel.Examples.Codec.{decode_success-encode}
use pulsar_notifcation_pipel.Pulsarlib.{receive, notification_id_property, ReceivedMessage, publish}
use pulsar_notifcation_pipel.Sandbox.{provider, push, Sandbox}
use pulsar_notifcation_pipel.Base.Dict.{lookup}
use pulsar_notifcation_pipel.EndToEnd.Publishing.{receipt}
use pulsar_notifcation_pipel.GoError.{as_permanent_error, nil}
use pulsar_notifcation_pipel.Dispatcher.Dispatch.{resolve_target, resolve, is_expired}
use pulsar_notifcation_pipel.Validation.Correct.{validate_iff}
use pulsar_notifcation_pipel.Ingest.Accept.{IsAcceptable, stamped}
use pulsar_notifcation_pipel.Dispatcher.{World}
use pulsar_notifcation_pipel.Message.{Notification}
use pulsar_notifcation_pipel.Http.{new_writer}
use pulsar_notifcation_pipel.NotificationClient.Posting.{submit_request-posted, posted}
use pulsar_notifcation_pipel.NotificationClient.{answer_of}
use pulsar_notifcation_pipel.EndToEnd.{served, writer_handler, IsConnected}
use pulsar_notifcation_pipel.Handlers.{ServerWorld}
use pulsar_notifcation_pipel.NotificationClient.Submission.{submit_request}
use pulsar_notifcation_pipel.Examples.Network.{
  Queue, send_message, over_pulsar, idle_writer, idle_server, encode_any, first_body, reply_to,
  unconnected, connected, wire, http_packages, caller,
}

pub connected-IsConnected : (n : Notification) → IsConnected (connected n)
connected-IsConnected n r w response b returned sent one = (
  _,
  ap (λ x. (reply_to x, (writer_handler (unconnected n) (served (unconnected n) r) new_writer w).2))
      sent,
  refl,
  ap (first_body encode_any) one,
  refl,
)

submit_request-posted_example :
    submit_request wire http_packages (caller note) (some note) [] idle_server ≡ (
      answer_of wire
          ((connected note).doer
            (posted wire http_packages (caller note) [] (ascii "application/json") (ascii "n1"))
            idle_server).0,
      ((connected note).doer
          (posted wire http_packages (caller note) [] (ascii "application/json") (ascii "n1"))
          idle_server).1,
    )
unfolding text_eq ascii
submit_request-posted_example =
    submit_request-posted wire http_packages (caller note) [] note idle_server (refl, refl, refl)
      refl refl (inr (inl refl)) refl

pub caller-IsClientOf :
    (n : Notification)
    → IsClientOf (connected n) wire http_packages (caller n) n [] service idle_server
unfolding trim_space trim_left trim_back lookup text_eq ascii
caller-IsClientOf n = record {
  reach = (refl, refl, refl);
  plain = refl;
  connected = refl;
  route = refl;
  supported = inr (inl refl);
  given = refl;
  trimmed = refl;
  known = refl;
}

note-IsTransmitted :
    IsTransmitted (connected note) wire http_packages (caller note) note [] service idle_server
unfolding text_eq ascii
note-IsTransmitted = record {
  marshals = refl;
  short = omega arith;
  unmarshals = refl;
  styled = refl;
  bound = inl refl;
}

note-IsAcceptable : IsAcceptable packages over_pulsar note (ascii "ci") idle_writer
unfolding publish
note-IsAcceptable = ((validate_iff (λ url. true) note).0 note-runs, refl, refl, refl)

-- The notification as the writer stamps it.
abbrev taken : Notification
taken = stamped packages over_pulsar note (ascii "ci") idle_writer

abbrev inbox : State Sandbox
inbox = record { world = scripted (timeout ∷ []); acked = [] }

-- The message as the deliverer receives it.
abbrev arrived : ReceivedMessage
arrived = record {
  payload = ascii "id-1";
  properties = (notification_id_property, ascii "id-1") ∷ [];
  handle = 7;
}

soft_first : (j : ℕ) → j < 1 → IsRetryable (reply provider taken inbox.world.state j)
unfolding push as_permanent_error
soft_first = below_one _ (refl, refl)

taken-IsDeliverable :
    IsDeliverable send_message packages over_pulsar note
      (ascii "ci")
      idle_writer
      (λ body. some taken)
      desk
      provider
      inbox
      1
unfolding is_expired resolve resolve_target lookup text_eq ascii push
    pulsar_notifcation_pipel.Sandbox.accept
taken-IsDeliverable = record {
  live = refl;
  resolved = refl;
  sleeps = λ j b. refl;
  few = omega arith;
  soft = soft_first;
  last = refl;
}

submission_delivered_example :
    (w' : ServerWorld Queue) × (world : World Sandbox) × (outcome : Outcome) × (submit_request wire
        http_packages
        (caller note)
        (some note)
        []
        idle_server
      ≡ (
        inl (receipt (connected note) wire http_packages (caller note) note [] service idle_server),
        w',
      ))
    × (w'.writer.substrate
        ≡ record {
          payload = ascii "id-1";
          properties = (notification_id_property, ascii "id-1") ∷ [];
        }
          ∷ [])
    × (run (λ body. some taken) desk (receive (inl arrived) ∷ []) inbox
        ≡ some (receiving, record { world = world; acked = 7 ∷ [] }))
    × (world.recorded ≡ outcome ∷ [])
    × (outcome.status ≡ status_delivered)
    × (outcome.attempts ≡ 2)
    × (outcome.notification_id ≡ ascii "id-1")
submission_delivered_example =
    submission_delivered (connected note) wire http_packages (caller note) note [] service
      idle_server send_message (λ body. some taken) desk provider inbox 1 arrived
      (connected-IsConnected note) (caller-IsClientOf note) note-IsTransmitted note-IsAcceptable
      (λ d rid. ap (λ x. (x, nil)) (decode_success-encode d rid)) refl refl (refl, refl)
      taken-IsDeliverable
