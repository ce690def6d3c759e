-- ===== src/EndToEnd/Pipeline.antt =====
-- The whole way of a notification: from Submit of pkg/notificationclient through the writer and the
-- substrate to the provider of the deliverer.
use pulsar_notifcation_pipel.Base.{ap, ◌∙◌, ◌+◌, ◌++◌, ℕ, [], ◌∷◌, Option, some, inl, ◌≡◌, Text}
use pulsar_notifcation_pipel.Pulsarlib.Publishing.{publish_lem}
use pulsar_notifcation_pipel.EndToEnd.Delivery.{
  accepted_delivered, IsDeliverable, queued, IsDelivered,
}
use pulsar_notifcation_pipel.EndToEnd.Publishing.{
  submit_request_published, published_input, receipt,
}
use pulsar_notifcation_pipel.Outcomes.{status_delivered, Outcome}
use pulsar_notifcation_pipel.Consumer.{receiving, run, State}
use pulsar_notifcation_pipel.Pulsarlib.{receive, apache_publisher, ReceivedMessage, ProducerMessage}
use pulsar_notifcation_pipel.NotificationClient.Submission.{submit_request, Client}
use pulsar_notifcation_pipel.Dispatcher.{World, Dispatcher}
use pulsar_notifcation_pipel.Ingest.Accept.{stamped, IsAcceptable}
use pulsar_notifcation_pipel.GoError.{nil, Error}
use pulsar_notifcation_pipel.EndToEnd.{IsConnected, Connection}
use pulsar_notifcation_pipel.Handlers.{ServerWorld}
use pulsar_notifcation_pipel.Http.{success_body, SubmitData, Principal}
use pulsar_notifcation_pipel.NotificationClient.Posting.{keyed}
use pulsar_notifcation_pipel.EndToEnd.Submission.{IsTransmitted, IsClientOf}
use pulsar_notifcation_pipel.Provider.{PushProvider}
use pulsar_notifcation_pipel.Message.{Notification}
use pulsar_notifcation_pipel.GeneratedClient.{HttpPackages}
use pulsar_notifcation_pipel.NotificationClient.{Transport}

-- A submission that the writer accepts, and whose message the deliverer receives as it was sent, is
-- delivered. Where the client is set up for the writer, the notification survives the codecs, and
-- Accept takes it: Submit gives a receipt, and the producer is asked to send one message.
-- Where that message is then received as it was sent, and can be delivered at the attempt after
-- k failures: the consumer records one outcome, delivered after k + 1 calls of Push, under the
-- identifier of the receipt, and acknowledges the message.
pub submission_delivered :
    {U P S : Type 0} (conn : Connection P) (tr : Transport) (hp : HttpPackages U)
    (c : Client (ServerWorld P)) (n : Notification) (key : Text) (p : Principal) (w : ServerWorld P)
    (send : ProducerMessage → P → Error × P) (unmarshal : Text → Option Notification)
    (d : Dispatcher S) (pr : PushProvider S) (s : State S) (k : ℕ) (msg : ReceivedMessage)
    → IsConnected conn
    → IsClientOf conn tr hp c n key p w
    → IsTransmitted conn tr hp c n key p w
    → IsAcceptable conn.packages conn.ingester (keyed tr hp c key n) p.service_name w.writer
    → ((data_member : SubmitData) (rid : Text)
        → tr.unmarshal_envelope (conn.encode_body (success_body data_member rid)) ≡ (
          record {
            notification_id = data_member.notification_id;
            accepted_text = data_member.accepted_at;
            request_id = rid;
          },
          nil,
        ))
    → conn.ingester.publisher ≡ apache_publisher send
    → let m = keyed tr hp c key n in
      let taken = stamped conn.packages conn.ingester m p.service_name w.writer in
      unmarshal (conn.packages.marshal taken).0 ≡ some taken
      → IsDelivered
          (queued send conn.packages conn.ingester m p.service_name w.writer unmarshal d pr s)
          msg
      → IsDeliverable send conn.packages conn.ingester m p.service_name w.writer unmarshal d pr s k
      → (w' : ServerWorld P) × (world : World S) × (outcome : Outcome) × (submit_request tr hp c
            (some n)
            key
            w
          ≡ (inl (receipt conn tr hp c n key p w), w'))
        × (w'.writer.substrate
            ≡ (send
                (queued send conn.packages conn.ingester m p.service_name w.writer unmarshal d pr s)
                w.writer.substrate).1)
        × (run unmarshal d (receive (inl msg) ∷ []) s
            ≡ some (receiving, record { world = world; acked = s.acked ++ msg.handle ∷ [] }))
        × (world.recorded ≡ s.world.recorded ++ outcome ∷ [])
        × (outcome.status ≡ status_delivered)
        × (outcome.attempts ≡ k + 1)
        × (outcome.notification_id ≡ (receipt conn tr hp c n key p w).notification_id)
submission_delivered conn tr hp c n key p w send unmarshal d pr s k msg connected client sent ok
      envelope over decodes as_sent can =
    let m = keyed tr hp c key n in
    let published = published_input conn tr hp c n key p w in
    let (w', submitted, substrate, logged) =
      submit_request_published conn tr hp c n key p w connected client sent ok envelope in
    let (accepted, (world, ran, reports)) =
      accepted_delivered send conn.packages conn.ingester m p.service_name w.writer unmarshal d pr s
        k msg over ok decodes as_sent can in
    (
      w',
      world,
      reports.outcome,
      submitted,
      substrate
          ∙ ap (λ x. (x.publish published w.writer.substrate).1) over
          ∙ (publish_lem send published w.writer.substrate).0,
      ran,
      reports.recorded,
      reports.status_is,
      reports.attempts_is,
      reports.same_id,
    )
