-- ===== src/EndToEnd/Accounting.antt =====
-- What the callers of internal/writer/httpserver were told against what the loop of
-- internal/deliverer/consumer records, for the messages that went from the one to the other.
use pulsar_notifcation_pipel.Base.{
  ap, ◌∙◌, All, null, Bool-cases, if◌then◌else◌, ◌++◌, ℕ, List, [], ◌∷◌, Option, some, true, inl,
  inr, refl, ◌≡◌, Text,
}
use mathlib.Core.List.{map, map-append}
use pulsar_notifcation_pipel.Consumer.Accounting.{
  outcome_ids, payload_id, receipt_id, handles, IsServed, run_accounts,
}
use pulsar_notifcation_pipel.Router.Balance.{IsQuiet}
use pulsar_notifcation_pipel.Router.Sessions.{serve_all, told_all, serve_all-tallies}
use pulsar_notifcation_pipel.Ingest.Counting.{Records}
use pulsar_notifcation_pipel.EndToEnd.Delivery.{IsDelivered, sent_message, received_message}
use pulsar_notifcation_pipel.EndToEnd.{Connection, writer_handler}
use pulsar_notifcation_pipel.Auth.Bearer.{authenticate}
use pulsar_notifcation_pipel.Router.{request_id_from_context}
use pulsar_notifcation_pipel.Handlers.{ServerWorld}
use pulsar_notifcation_pipel.Http.{Request}
use pulsar_notifcation_pipel.Ingest.{Packages}
use pulsar_notifcation_pipel.Pulsarlib.{Publisher, PublishInput, ReceivedMessage, receive}
use pulsar_notifcation_pipel.GoError.{is_nil}
use pulsar_notifcation_pipel.Message.{Notification}
use pulsar_notifcation_pipel.Dispatcher.{Dispatcher}
use pulsar_notifcation_pipel.Consumer.{Received, State, receiving, run}

-- `queue` is the messages that a substrate acknowledged, oldest first: one more with each call of
-- Publish that returns no error.
abbrev pub IsQueue : {P : Type 0} → Publisher P → (P → List PublishInput) → Type 0
IsQueue {P} publisher queue =
    (input : PublishInput) (s : P)
    → queue (publisher.publish input s).1
      ≡ queue s ++ (if is_nil (publisher.publish input s).0 then input ∷ [] else [])

-- A notification that can be marshalled is unmarshalled to one with its identifier.
abbrev pub KeepsId : Packages → (Text → Option Notification) → Type 0
KeepsId pk unmarshal =
    (n : Notification)
    → is_nil (pk.marshal n).1 ≡ true
    → (m : Notification) × (unmarshal (pk.marshal n).0 ≡ some m)
      × (m.notification_id ≡ n.notification_id)

-- The messages arrive in order, each as it was sent.
abbrev pub AreDelivered : List PublishInput → List ReceivedMessage → Type 0
AreDelivered [] [] = Unit {0}
AreDelivered [] (msg ∷ msgs) = ⊥
AreDelivered (input ∷ inputs) [] = ⊥
AreDelivered (input ∷ inputs) (msg ∷ msgs) =
    IsDelivered (sent_message input) msg × AreDelivered inputs msgs

abbrev pub received : List ReceivedMessage → List Received
received = map (λ msg. receive (inl msg))

abbrev pub received_handles : List ReceivedMessage → List ℕ
received_handles = map (λ msg. msg.handle)

module _ (unmarshal : Text → Option Notification) where
  -- The identifier under which the consumer will record a message.
  abbrev pub recorded_id : PublishInput → Text
  recorded_id input = payload_id (unmarshal input.body) input.notification_id

  recorded_id-marshalled :
      (pk : Packages) (n : Notification)
      → KeepsId pk unmarshal
      → is_nil (pk.marshal n).1 ≡ true
      → recorded_id (record { body = (pk.marshal n).0; notification_id = n.notification_id })
        ≡ n.notification_id
  recorded_id-marshalled pk n keeps ok =
      let (m, decodes, same) = keeps n ok in
      elim (Bool-cases (null m.notification_id)) [
        | inl e ↦ rw (decodes, e) refl
        | inr e ↦ rw (decodes, e) same
      ]

  pub queue-Records :
      {P : Type 0} (pk : Packages) (publisher : Publisher P) (queue : P → List PublishInput)
      → KeepsId pk unmarshal
      → IsQueue publisher queue
      → Records pk publisher (λ s. map recorded_id (queue s))
  queue-Records pk publisher queue keeps is_queue n s ok =
      let input : PublishInput = record {
        body = (pk.marshal n).0;
        notification_id = n.notification_id;
      } in
      ap (map recorded_id) (is_queue input s)
      ∙ map-append _ (queue s) _
      ∙ ap (λ xs. map recorded_id (queue s) ++ xs)
          (elim (Bool-cases (is_nil (publisher.publish input s).0)) [
            | inl e ↦ rw e (ap (λ x. x ∷ []) (recorded_id-marshalled pk n keeps ok))
            | inr e ↦ rw e refl
          ])

  pub received-lem :
      (inputs : List PublishInput) (msgs : List ReceivedMessage)
      → AreDelivered inputs msgs
      → All IsServed (received msgs)
        × (map (receipt_id unmarshal) (received msgs) ≡ map recorded_id inputs)
        × (handles (received msgs) ≡ received_handles msgs)
  received-lem [] [] h = (tt, refl, refl)
  received-lem [] (msg ∷ msgs) h = absurd h
  received-lem (input ∷ inputs) [] h = absurd h
  received-lem (input ∷ inputs) (msg ∷ msgs) (as_sent, h) =
      let (served, recorded, acked) = received-lem inputs msgs h in
      rw (received_message input msg as_sent)
        ((tt, served), ap (λ xs. recorded_id input ∷ xs) recorded, ap (λ xs. msg.handle ∷ xs) acked)

-- What the consumer will record the queue's messages under is what the writer told.
pub served_told :
    {P : Type 0} (conn : Connection P) (queue : P → List PublishInput)
    (unmarshal : Text → Option Notification) (rs : List Request) (w : ServerWorld P)
    → IsQueue conn.ingester.publisher queue
    → IsQuiet conn.platform.not_routed
    → KeepsId conn.packages unmarshal
    → queue w.writer.substrate ≡ []
    → map (recorded_id unmarshal) (queue (serve_all (writer_handler conn) rs w).1.writer.substrate)
      ≡ told_all (serve_all (writer_handler conn) rs w).0
served_told conn queue unmarshal rs w is_queue quiet keeps empty =
    (serve_all-tallies conn.platform (authenticate conn.tokens) conn.packages conn.codecs
      (record { ingester = conn.ingester; request_id = request_id_from_context }) _
      (queue-Records unmarshal conn.packages conn.ingester.publisher queue keeps is_queue) quiet rs
      w).0
    ∙ ap (λ xs. map (recorded_id unmarshal) xs ++ told_all (serve_all (writer_handler conn) rs w).0)
        empty

-- The writer serves any sequence of requests, by any callers, over a queue that was empty, and the
-- consumer receives the messages that the queue then holds, in order and as they were sent. Where
-- the codec keeps the identifier of a notification, and the answer where no route matches leaves
-- the state alone and is no 202: whatever the providers do, the consumer goes on after the last
-- message; its outcomes are, in order, for exactly the notifications whose identifiers the writer
-- told in 202 responses, and it has acknowledged every message.
pub serve_all-accounted :
    {P S : Type 0} (conn : Connection P) (queue : P → List PublishInput)
    (unmarshal : Text → Option Notification) (d : Dispatcher S) (rs : List Request)
    (w : ServerWorld P) (msgs : List ReceivedMessage) (s : State S)
    → IsQueue conn.ingester.publisher queue
    → IsQuiet conn.platform.not_routed
    → KeepsId conn.packages unmarshal
    → queue w.writer.substrate ≡ []
    → AreDelivered (queue (serve_all (writer_handler conn) rs w).1.writer.substrate) msgs
    → (s' : State S) × (run unmarshal d (received msgs) s ≡ some (receiving, s'))
      × (outcome_ids s'.world.recorded
          ≡ outcome_ids s.world.recorded ++ told_all (serve_all (writer_handler conn) rs w).0)
      × (s'.acked ≡ s.acked ++ received_handles msgs)
serve_all-accounted conn queue unmarshal d rs w msgs s is_queue quiet keeps empty delivered =
    let (served, same_ids, same_handles) = received-lem unmarshal _ msgs delivered in
    let (s', ran, recorded, acked) = run_accounts unmarshal d (received msgs) s served in
    (
      s',
      ran,
      recorded
          ∙ ap (λ xs. outcome_ids s.world.recorded ++ xs)
              (same_ids ∙ served_told conn queue unmarshal rs w is_queue quiet keeps empty),
      acked ∙ ap (λ xs. s.acked ++ xs) same_handles,
    )
