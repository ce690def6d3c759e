-- ===== src/Ingest/Counting.antt =====
-- Which messages `Accept` of internal/writer/ingest/ingest.go has acknowledged by the substrate.
use pulsar_notifcation_pipel.Base.{
  true, if◌then◌else◌, some, [], ◌∷◌, ◌++◌, List, none, Option, arith, ◌≡◌, Text,
}
use pulsar_notifcation_pipel.Ingest.Accept.{stamped}
use pulsar_notifcation_pipel.Ingest.{
  AcceptResult, WriterWorld, Ingester, Packages, publish_body, submit, accept,
}
use pulsar_notifcation_pipel.GoError.{is_nil, Error}
use mathlib.Core.List.{append-nil}
use pulsar_notifcation_pipel.Pulsarlib.{PublishInput, Publisher}
use pulsar_notifcation_pipel.Message.{Notification}

-- `ids` is the identifiers of the messages that a substrate acknowledged, oldest first: one more with each
-- call of Publish that returns no error, for a marshalled notification under its identifier.
abbrev pub Records : {P : Type 0} → Packages → Publisher P → (P → List Text) → Type 0
Records {P} pk publisher ids =
    (n : Notification) (s : P)
    → is_nil (pk.marshal n).1 ≡ true
    → let input : PublishInput = record {
      body = (pk.marshal n).0;
      notification_id = n.notification_id;
    } in
      ids (publisher.publish input s).1
      ≡ ids s ++ (if is_nil (publisher.publish input s).0 then n.notification_id ∷ [] else [])

-- The identifier that a call of Accept returns without an error.
abbrev pub accepted_ids : Option AcceptResult × Error → List Text
accepted_ids (none, err) = []
accepted_ids (some res, err) = if is_nil err then res.notification_id ∷ [] else []

-- A submission that returns without an error has a message with its identifier acknowledged, and any
-- other none.
pub accept-accepted_ids :
    {P : Type 0} (pk : Packages) (i : Ingester P) (n : Notification) (service : Text)
    (w : WriterWorld P) (ids : P → List Text)
    → Records pk i.publisher ids
    → ids (accept pk i (some n) service w).1.substrate
      ≡ ids w.substrate ++ accepted_ids (accept pk i (some n) service w).0
unfolding accept submit publish_body
accept-accepted_ids pk i n service w ids records =
    ground (arith, records (stamped pk i n service w) w.substrate, append-nil (ids w.substrate))
