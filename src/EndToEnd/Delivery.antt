-- ===== src/EndToEnd/Delivery.antt =====
-- A message that internal/writer/ingest published through internal/pulsarlib, as the loop of
-- internal/deliverer/consumer handles it.
use pulsar_notifcation_pipel.Base.{
  ◌∙◌, ◌+◌, ◌<◌, ℕ, true, false, ap, Bool-cases, null, if◌then◌else◌, ◌++◌, text_eq_refl, [], ◌∷◌,
  Option, some, inl, inr, refl, ◌≡◌, Text,
}
use pulsar_notifcation_pipel.Pulsarlib.Publishing.{publish_lem}
use pulsar_notifcation_pipel.Ingest.Accept.{accept-substrate, IsAcceptable, stamped, input}
use pulsar_notifcation_pipel.Dispatcher.Verdict.{dispatch_delivers}
use pulsar_notifcation_pipel.Dispatcher.Dispatch.{safe_response, resolve, is_expired, dispatch}
use pulsar_notifcation_pipel.Dispatcher.Loop.{state_after, reply, IsRetryable, Reports}
use pulsar_notifcation_pipel.Ingest.{accept, WriterWorld, Ingester, Packages}
use pulsar_notifcation_pipel.Base.Int.{pos_part}
use pulsar_notifcation_pipel.GoError.{is_nil, Error, nil}
use pulsar_notifcation_pipel.Message.{Duration, Notification}
use pulsar_notifcation_pipel.Outcomes.{status_delivered}
use pulsar_notifcation_pipel.Pulsarlib.{
  apache_publisher, ReceivedMessage, notification_id_property, ProducerMessage, PublishInput,
  receive,
}
use pulsar_notifcation_pipel.Provider.{PushProvider}
use pulsar_notifcation_pipel.Consumer.{
  receiving, State, ConsumedMessage, message, handle_message, run,
}
use pulsar_notifcation_pipel.Metrics.{record_consumed}
use pulsar_notifcation_pipel.Dispatcher.{World, Dispatcher}
use pulsar_notifcation_pipel.Base.Dict.{lookup}

-- The message of a published input.
abbrev pub sent_message : PublishInput → ProducerMessage
sent_message published = record {
  payload = published.body;
  properties = (notification_id_property, published.notification_id) ∷ [];
}

-- The client delivers a message as it was sent.
abbrev pub IsDelivered : ProducerMessage → ReceivedMessage → Type 0
IsDelivered sent msg = (msg.payload ≡ sent.payload) × (msg.properties ≡ sent.properties)

pub received_message :
    (published : PublishInput) (msg : ReceivedMessage)
    → IsDelivered (sent_message published) msg
    → receive (inl msg)
      ≡ message (record {
        body = published.body;
        notification_id = published.notification_id;
        handle = msg.handle;
      })
unfolding receive lookup
received_message published msg (payload, properties) =
    rw (payload, properties) (rw (text_eq_refl notification_id_property) refl)

module _ {S : Type 0} (unmarshal : Text → Option Notification) (d : Dispatcher S) where
  handle_message_identified :
      (m : ConsumedMessage) (n : Notification) (w : World S)
      → unmarshal m.body ≡ some n
      → m.notification_id ≡ n.notification_id
      → handle_message unmarshal d m w
        ≡ dispatch d (some n) (record w { instruments = record_consumed w.instruments })
  unfolding handle_message
  handle_message_identified m n w decodes same =
      rw (decodes, handle_message)
        (ap
          (λ i.
            dispatch d (some (record n { notification_id = i }))
              (record w { instruments = record_consumed w.instruments }))
          chosen)
    where
      chosen :
          (if null n.notification_id then m.notification_id else n.notification_id)
          ≡ n.notification_id
      chosen = elim (Bool-cases (null n.notification_id)) [ inl e ↦ rw e same | inr e ↦ rw e refl ]

  run-one :
      (m : ConsumedMessage) (s : State S) (w : World S)
      → handle_message unmarshal d m s.world ≡ some (nil, w)
      → run unmarshal d (message m ∷ []) s
        ≡ some (receiving, record { world = w; acked = s.acked ++ m.handle ∷ [] })
  unfolding run
  run-one m s w handled = rw (handled, run) refl

module _ {P S : Type 0} (send : ProducerMessage → P → Error × P) (pk : Packages) (i : Ingester P)
    (n : Notification) (service : Text) (w : WriterWorld P) (unmarshal : Text → Option Notification)
    (d : Dispatcher S) (pr : PushProvider S) (s : State S) where
  -- The message that Accept has the producer send.
  abbrev pub queued : ProducerMessage
  queued = sent_message (input pk i n service w)

  -- The loop takes a message, records one outcome for the notification that Accept stamped, delivered
  -- after the given number of attempts with the provider in the given state, and acknowledges it.
  abbrev pub IsHandled : ReceivedMessage → S → Text → ℕ → Type 0
  IsHandled msg state response attempts =
      (world : World S) × (run unmarshal d (receive (inl msg) ∷ []) s
        ≡ some (receiving, record { world = world; acked = s.acked ++ msg.handle ∷ [] }))
      × Reports (stamped pk i n service w) s.world.recorded state status_delivered [] response
          attempts world

  -- The stamped notification has not expired and its target's provider is registered; Push first
  -- fails k times with errors that can be retried, fewer than the policy's attempts, and then
  -- returns no error; no sleep is cut short.
  pub record IsDeliverable (k : ℕ) : Type 0 where
    pub live : (is_expired (stamped pk i n service w) (d.clock s.world.clock_reads)).0 ≡ false
    pub resolved : (resolve d (stamped pk i n service w)).0 ≡ some pr
    pub sleeps : (j : ℕ) (b : Duration) → is_nil (d.sleep j b) ≡ true
    pub few : k < pos_part d.retry.max_attempts
    pub soft : (j : ℕ) → j < k → IsRetryable (reply pr (stamped pk i n service w) s.world.state j)
    pub last : is_nil (reply pr (stamped pk i n service w) s.world.state k).1 ≡ true

  -- Where Accept takes a notification for a publisher over the Pulsar producer, the producer is asked
  -- to send one message. If that is then received as it was sent, and the stamped notification
  -- survives its codec and can be delivered at the attempt after k failures: the consumer records
  -- the stamped notification as delivered, under the identifier that Accept gave it, after
  -- k + 1 calls of Push, and acknowledges the message.
  pub accepted_delivered :
      (k : ℕ) (msg : ReceivedMessage)
      → i.publisher ≡ apache_publisher send
      → IsAcceptable pk i n service w
      → unmarshal (pk.marshal (stamped pk i n service w)).0 ≡ some (stamped pk i n service w)
      → IsDelivered queued msg
      → IsDeliverable k
      → ((accept pk i (some n) service w).1.substrate ≡ (send queued w.substrate).1)
        × IsHandled msg
            (pr.push
              (stamped pk i n service w)
              (state_after pr (stamped pk i n service w) s.world.state k)).1
            (safe_response (reply pr (stamped pk i n service w) s.world.state k).0)
            (k + 1)
  accepted_delivered k msg over ok decodes as_sent can =
      let published = input pk i n service w in
      let counted = record s.world { instruments = record_consumed s.world.instruments } in
      let (world, dispatched, reports) =
        dispatch_delivers d (stamped pk i n service w) counted pr can.live can.resolved can.sleeps k
          can.few can.soft can.last in
      (
        accept-substrate pk i n service w ok
            ∙ ap (λ x. (x.publish published w.substrate).1) over
            ∙ (publish_lem send published w.substrate).0,
        (
          world,
          ap (λ m. run unmarshal d (m ∷ []) s) (received_message published msg as_sent)
              ∙ run-one unmarshal d _ s world (
                  handle_message_identified unmarshal d _ (stamped pk i n service w) s.world decodes
                    refl
                  ∙ dispatched),
          reports,
        ),
      )
