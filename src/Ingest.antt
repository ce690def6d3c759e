-- ===== src/Ingest.antt =====
-- internal/writer/ingest/ingest.go: validate, assign the server's fields, publish.
pub mod Accept
pub mod Counting
use pulsar_notifcation_pipel.Base.{
  not, if◌then◌else◌, ◌%◌, apply_all, ◌+◌, ◌-◌, ℕ, List, [], ◌∷◌, Option, none, some, Bool, Text,
  ascii,
}
use pulsar_notifcation_pipel.GoError.{wrap, is_nil, nil, new, validation_error, Error}
use pulsar_notifcation_pipel.Validation.{validate}
use pulsar_notifcation_pipel.Message.{Duration, Notification, Time}
use pulsar_notifcation_pipel.Metrics.{record_publish_duration, Instruments}
use pulsar_notifcation_pipel.Pulsarlib.{Publisher}

-- `clock k` is the k-th reading of the clock and `id_fn k` the k-th call of the identifier
-- generator.
pub record Ingester (P : Type 0) : Type 0 where
  pub publisher : Publisher P
  pub clock : ℕ → Time
  pub id_fn : ℕ → Text × Error

-- The substrate behind the publisher, the counts of clock readings and identifiers, and the
-- instruments.
pub record WriterWorld (P : Type 0) : Type 0 where
  pub substrate : P
  pub clock_reads : ℕ
  pub id_calls : ℕ
  pub instruments : Instruments

-- newUUIDv7, over uuid.NewV7 and the text of what it returns.
unfoldable pub new_uuid_v7 : (new_v7 : ℕ → Text × Error) → ℕ → Text × Error
new_uuid_v7 new_v7 k = let (u, err) = new_v7 k in if is_nil err then (u, nil) else ([], err)

-- The options before NewIngester has looked at the publisher.
pub record Draft (P : Type 0) : Type 0 where
  pub publisher : Option (Publisher P)
  pub clock : ℕ → Time
  pub id_fn : ℕ → Text × Error

abbrev pub IngesterOption : Type 0 → Type 0
IngesterOption P = Draft P → Draft P

module _ {P : Type 0} where
  unfoldable pub with_publisher : Option (Publisher P) → IngesterOption P
  with_publisher p i = record i { publisher = p }

  unfoldable pub with_clock : (ℕ → Time) → IngesterOption P
  with_clock fn i = record i { clock = fn }

  unfoldable pub with_id_func : (ℕ → Text × Error) → IngesterOption P
  with_id_func fn i = record i { id_fn = fn }

  -- NewIngester; `now` and `new_v7` stand for time.Now and uuid.NewV7.
  unfoldable pub new_ingester :
      (now : ℕ → Time) (new_v7 : ℕ → Text × Error)
      → List (IngesterOption P)
      → Option (Ingester P) × Error
  new_ingester now new_v7 opts =
      let i : Draft P =
        apply_all opts (record { publisher = none; clock = now; id_fn = new_uuid_v7 new_v7 }) in
      elim i.publisher [
        | none ↦ (none, new (ascii "ingest: WithPublisher is required"))
        | some p ↦ (some (record { publisher = p; clock = i.clock; id_fn = i.id_fn }), nil)
      ]

pub record AcceptResult : Type 0 where
  pub notification_id : Text
  pub accepted_at : Time

-- t.Truncate(time.Millisecond)
abbrev pub truncate_ms : Time → Time
truncate_ms t = t - t % 1_000_000

-- The server-controlled fields.
abbrev pub assign : Text → Time → Text → Notification → Notification
assign id now service n = record n {
  notification_id = id;
  created_at = some now;
  originating_service = service;
}

-- `is_abs_url` is url.Parse followed by IsAbs, `marshal` is proto.Marshal with its error, and
-- `publish_time k` how long the publish call took after k identifiers.
pub record Packages : Type 0 where
  pub is_abs_url : Text → Bool
  pub marshal : Notification → Text × Error
  pub publish_time : ℕ → Duration

module _ {P : Type 0} (pk : Packages) (i : Ingester P) where
  -- From the call of the publisher on.
  unfoldable pub publish_body :
      Text → Time → Text → WriterWorld P → (Option AcceptResult × Error) × WriterWorld P
  publish_body id now body w =
      let (err, substrate) =
        i.publisher.publish (record { body = body; notification_id = id }) w.substrate in
      let w' = record w {
        substrate = substrate;
        instruments = record_publish_duration (pk.publish_time w.id_calls) w.instruments;
      } in
      if is_nil err
      then ((some (record { notification_id = id; accepted_at = now }), nil), w')
      else ((none, err), w')

  -- From the reading of the clock on.
  unfoldable pub submit :
      Notification → Text → WriterWorld P → (Option AcceptResult × Error) × WriterWorld P
  submit n service w =
      let now = truncate_ms (i.clock w.clock_reads) in
      let (id, id_err) = i.id_fn w.id_calls in
      let (body, marshal_err) = pk.marshal (assign id now service n) in
      let w' = record w { clock_reads = w.clock_reads + 1; id_calls = w.id_calls + 1 } in
      if not (is_nil id_err)
      then ((none, wrap (ascii "ingest: generate notification_id") id_err), w')
      else if not (is_nil marshal_err)
      then ((none, wrap (ascii "ingest: marshal notification") marshal_err), w')
      else publish_body id now body w'

  unfoldable pub accept :
      Option Notification → Text → WriterWorld P → (Option AcceptResult × Error) × WriterWorld P
  accept notification service w = elim notification [
    | none ↦ (
      (
        none,
        validation_error (
            record {
              field = ascii "notification";
              code = ascii "required";
              message = ascii "request body is empty";
            }
            ∷ []),
      ),
      w,
    )
    | some n ↦ elim (validate pk.is_abs_url n) [
      | some fields ↦ ((none, validation_error fields), w)
      | none ↦ submit n service w
    ]
  ]
