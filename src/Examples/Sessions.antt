-- ===== src/Examples/Sessions.antt =====
-- Concrete sequences of requests to the writer.
use pulsar_notifcation_pipel.Base.{
  ap, sym, ◌∙◌, false, Option, some, inr, Text, map, ◌+◌, length, List, [], ◌∷◌, refl, arith, ◌≡◌,
  ascii,
}
use mathlib.Core.List.{map-append, Perm}
use pulsar_notifcation_pipel.Ingest.Counting.{Records}
use pulsar_notifcation_pipel.Pulsarlib.{PublishInput, ReceivedMessage, notification_id_property}
use pulsar_notifcation_pipel.Router.Balance.{IsQuiet}
use pulsar_notifcation_pipel.Router.Sessions.{told_all, serve_all-tallies, count_202, serve_all}
use pulsar_notifcation_pipel.Handlers.{submit_notification}
use pulsar_notifcation_pipel.Router.{root_handler}
use pulsar_notifcation_pipel.Http.{write_header, Request}
use pulsar_notifcation_pipel.Examples.Server.{
  codecs, handlers, platform, server, everyone, with_path,
}
use pulsar_notifcation_pipel.Examples.Data.{
  packages, ingester, service, submission, scripted, timeout, desk, note,
}
use pulsar_notifcation_pipel.EndToEnd.Concurrency.{serve_all-pooled, kept}
use pulsar_notifcation_pipel.EndToEnd.Delivery.{received_message}
use pulsar_notifcation_pipel.Workers.{Pool, spawn, start, taken, listening}
use pulsar_notifcation_pipel.Workers.Accounting.{all_ids, all_handles}
use pulsar_notifcation_pipel.Workers.Serving.{Comes, serves_all}
use pulsar_notifcation_pipel.Base.Int.{pos}
use pulsar_notifcation_pipel.EndToEnd.Accounting.{
  received-lem, serve_all-accounted, AreDelivered, received, received_handles,
}
use pulsar_notifcation_pipel.EndToEnd.{Connection, writer_handler}
use pulsar_notifcation_pipel.Consumer.{Received, message, State, run, receiving}
use pulsar_notifcation_pipel.Consumer.Accounting.{outcome_ids}
use pulsar_notifcation_pipel.Sandbox.{Sandbox}
use pulsar_notifcation_pipel.GoError.{new, nil}
use pulsar_notifcation_pipel.Message.{Notification}

-- The identifiers that the substrate of the examples holds.
abbrev kept_ids : List PublishInput → List Text
kept_ids = map (λ input. input.notification_id)

kept_ids-Records : Records packages handlers.ingester.publisher kept_ids
kept_ids-Records n s ok = map-append _ s _

not_routed-IsQuiet : IsQuiet platform.not_routed
unfolding write_header
not_routed-IsQuiet r writer w unsent = (refl, ground arith, refl)

-- A probe, a submission, and a path that is not routed.
abbrev session : List Request
session =
    with_path (ascii "/healthz") []
    ∷ with_path (ascii "/notifications")
        ((ascii "Content-Type", ascii "application/json" ∷ []) ∷ [])
    ∷ with_path (ascii "/x") []
    ∷ []

serve_all-tallies_example :
    let (responses, after) =
      serve_all
        (root_handler platform everyone (submit_notification packages codecs handlers))
        session
        server in
    (kept_ids after.writer.substrate ≡ told_all responses)
    × (count_202 after.access_log ≡ 0 + length (told_all responses))
serve_all-tallies_example =
    serve_all-tallies platform everyone packages codecs handlers kept_ids kept_ids-Records
      not_routed-IsQuiet session server

-- A writer whose substrate is the queue of the deliverer; the request number k gets the identifier k.
abbrev staffed : Connection (List PublishInput)
staffed = record {
  platform = platform;
  packages = packages;
  codecs = codecs;
  ingester = record ingester { id_fn = λ k. ((k + 65) ∷ [], nil) };
  tokens = (ascii "abc", service) ∷ [];
  path_of = λ url. ascii "/notifications";
  encode_body = λ b. [];
  doer = λ r w. (inr (new (ascii "refused")), w);
}

-- Two submissions by a known caller, and one by an unknown caller between them.
abbrev requests : List Request
requests =
    record (submission (ascii "Bearer abc")) {
      headers =
          (ascii "Authorization", ascii "Bearer abc" ∷ [])
          ∷ (ascii "Content-Type", ascii "application/json" ∷ [])
          ∷ [];
    }
    ∷ submission (ascii "Bearer xyz")
    ∷ record (submission (ascii "Bearer abc")) {
      headers =
          (ascii "Authorization", ascii "Bearer abc" ∷ [])
          ∷ (ascii "Content-Type", ascii "application/json" ∷ [])
          ∷ [];
    }
    ∷ []

abbrev as_sent : PublishInput → ReceivedMessage
as_sent input = record {
  payload = input.body;
  properties = (notification_id_property, input.notification_id) ∷ [];
  handle = 1;
}

as_sent-AreDelivered : (inputs : List PublishInput) → AreDelivered inputs (map as_sent inputs)
as_sent-AreDelivered [] = tt
as_sent-AreDelivered (input ∷ inputs) = ((refl, refl), as_sent-AreDelivered inputs)

-- What the queue holds after the requests.
abbrev arrived : List ReceivedMessage
arrived = map as_sent (serve_all (writer_handler staffed) requests server).1.writer.substrate

abbrev reader : Text → Option Notification
reader body = some (record note { notification_id = body })

abbrev inbox : State Sandbox
inbox = record { world = scripted (timeout ∷ []); acked = [] }

serve_all-accounted_example :
    (s' : State Sandbox) × (run reader desk (received arrived) inbox ≡ some (receiving, s'))
    × (outcome_ids s'.world.recorded
        ≡ told_all (serve_all (writer_handler staffed) requests server).0)
    × (s'.acked ≡ received_handles arrived)
serve_all-accounted_example =
    serve_all-accounted staffed (λ queue. queue) reader desk requests server arrived inbox
      (λ input s. refl) not_routed-IsQuiet (λ n ok. (_, refl, refl)) refl
      (as_sent-AreDelivered (serve_all (writer_handler staffed) requests server).1.writer.substrate)

-- A pool of two workers, of which one serves all the messages.
spawned : Comes reader desk (spawn (pos 2) inbox) [] (listening ∷ []) false false listening []
unfolding spawn taken
spawned = (inbox, start, refl)

kept-received :
    (inputs : List PublishInput)
    → kept (received (map as_sent inputs)) ≡ received (map as_sent inputs)
kept-received [] = refl
kept-received (input ∷ inputs) =
    let m : Received =
      message (record { body = input.body; notification_id = input.notification_id; handle = 1 }) in
    let same = received_message input (as_sent input) (refl, refl) in
    ap (λ r. kept (r ∷ received (map as_sent inputs))) same
    ∙ ap (λ rs. m ∷ rs) (kept-received inputs)
    ∙ ap (λ r. r ∷ received (map as_sent inputs)) (sym same)

served :
    Comes reader desk
      (spawn (pos 2) inbox)
      []
      (listening ∷ [])
      false
      false
      listening
      (received arrived)
served =
    let inputs = (serve_all (writer_handler staffed) requests server).1.writer.substrate in
    let (can, ids_are, handles_are) =
      received-lem reader inputs arrived (as_sent-AreDelivered inputs) in
    serves_all reader desk (spawn (pos 2) inbox) [] (listening ∷ []) false false []
      (received arrived) can spawned

abbrev afterwards : Pool Sandbox
afterwards = record {
  workers = listening ∷ listening ∷ [];
  state = served.0;
  cancelled = false;
  waited = false;
}

serve_all-pooled_example :
    Perm (all_ids afterwards) (told_all (serve_all (writer_handler staffed) requests server).0)
    × Perm (all_handles afterwards) (received_handles arrived)
serve_all-pooled_example =
    serve_all-pooled staffed (λ queue. queue) reader desk requests server arrived (pos 2) inbox
      afterwards (λ input s. refl) not_routed-IsQuiet (λ n ok. (_, refl, refl)) refl
      (as_sent-AreDelivered (serve_all (writer_handler staffed) requests server).1.writer.substrate)
      refl refl served.1
      (ap kept served.2
        ∙ kept-received (serve_all (writer_handler staffed) requests server).1.writer.substrate)
