-- ===== src/Handlers.antt =====
-- internal/writer/httpserver/handlers.go: the submission handler and its helpers.
pub mod Responses
pub mod Labels
pub mod Accepting
pub mod Balance
pub mod Refusing
pub mod Construction
use pulsar_notifcation_pipel.Base.{
  ltb, before_byte, text_eq, ◌++◌, ◌||◌, if◌then◌else◌, to_lower, length, not, trim_space, ℕ, List,
  [], Option, none, some, Bool, inl, inr, Text, ascii, ◌⊎◌,
}
use pulsar_notifcation_pipel.Problems.{
  internal, substrate_unavailable, unsupported_content_type, authentication_required,
  validation_failed, Problem,
}
use pulsar_notifcation_pipel.Http.{
  content_type_key, set_header, write_success, get_header, panicked, finished, write_problem, Exit,
  Request, Handler, ResponseWriter,
}
use pulsar_notifcation_pipel.Metrics.{
  outcome_accepted, outcome_internal, outcome_substrate_unavailable, record_writer_submission,
  outcome_auth_failed, outcome_validation_failed,
}
use pulsar_notifcation_pipel.GoError.{
  error_text, is_nil, as_publish_error, as_validation_error, Error,
}
use pulsar_notifcation_pipel.Ingest.{accept, AcceptResult, Ingester, Packages, WriterWorld}
use pulsar_notifcation_pipel.Auth.{from_context}
use pulsar_notifcation_pipel.Message.{Duration, Time, Notification}

abbrev pub content_type_json : Text
content_type_json = ascii "application/json"

abbrev pub content_type_protobuf : Text
content_type_protobuf = ascii "application/x-protobuf"

abbrev pub content_type_protobuf_alt : Text
content_type_protobuf_alt = ascii "application/protobuf"

abbrev pub max_request_body_bytes : ℕ
max_request_body_bytes = 1_048_576

-- One line of the access log.
pub record AccessLine : Type 0 where
  pub method : Text
  pub path : Text
  pub status : ℕ
  pub request_id : Text

-- The writer's state with what the server adds: the count of generated request identifiers and the
-- two kinds of log lines (of a panic, the path and the request's identifier).
pub record ServerWorld (P : Type 0) : Type 0 where
  pub writer : WriterWorld P
  pub generated_ids : ℕ
  pub access_log : List AccessLine
  pub panic_log : List (Text × Text)

-- The packages that the handler calls: the two decoders with their errors, the format of a time,
-- and how long the k-th submission took.
pub record Codecs : Type 0 where
  pub unmarshal_json : Text → Notification × Error
  pub unmarshal_proto : Text → Notification × Error
  pub format_time : Time → Text
  pub submit_time : ℕ → Duration

pub record Handlers (P : Type 0) : Type 0 where
  pub ingester : Ingester P
  pub request_id : Request → Text

-- contentTypeOf
unfoldable pub content_type_of : Request → Text
content_type_of r = trim_space (to_lower (before_byte b';' (get_header content_type_key r)))

-- io.ReadAll of the limited body fails where reading fails or the body is too long.
abbrev pub unreadable : Request → Bool
unreadable r = not (is_nil r.body_err) || ltb max_request_body_bytes (length r.body)

-- What a decoder gives: the notification, or a problem with the decoder's message.
unfoldable pub decoded : Text → Request → Text → Notification × Error → Notification ⊎ Problem
decoded rid r label (n, err) =
    if is_nil err then inl n else inr (validation_failed rid r.path (label ++ error_text err) [])

unfoldable pub decode_body : Codecs → Request → Text → Notification ⊎ Problem
decode_body cs r rid =
    let ct = content_type_of r in
    if unreadable r
    then inr (validation_failed rid r.path (ascii "could not read request body") [])
    else if text_eq ct content_type_json
    then decoded rid r (ascii "invalid JSON: ") (cs.unmarshal_json r.body)
    else if text_eq ct content_type_protobuf || text_eq ct content_type_protobuf_alt
    then decoded rid r (ascii "invalid protobuf: ") (cs.unmarshal_proto r.body)
    else inr (unsupported_content_type rid r.path ct)

unfoldable pub outcome_for_ingest_error : Error → Text
outcome_for_ingest_error err = elim (as_validation_error err) [
  | some fields ↦ outcome_validation_failed
  | none ↦ elim (as_publish_error err) [
    | some transient ↦ if transient then outcome_substrate_unavailable else outcome_internal
    | none ↦ outcome_internal
  ]
]

unfoldable pub write_ingest_error : Request → Text → Error → ResponseWriter → ResponseWriter
write_ingest_error r rid err rw = elim (as_validation_error err) [
  | some fields ↦ write_problem (validation_failed rid r.path (error_text err) fields) rw
  | none ↦ elim (as_publish_error err) [
    | some transient ↦
        if transient
        then write_problem
            (substrate_unavailable rid r.path
              (ascii "messaging substrate is temporarily unavailable"))
            (set_header (ascii "Retry-After") (ascii "5") rw)
        else write_problem (internal rid r.path) rw
    | none ↦ write_problem (internal rid r.path) rw
  ]
]

module _ {P : Type 0} (pk : Packages) (cs : Codecs) (h : Handlers P) where
  -- The deferred metrics.RecordWriterSubmission, and the return.
  unfoldable pub finish :
      (outcome service_name : Text)
      → ResponseWriter
      → ServerWorld P
      → Exit × ResponseWriter × ServerWorld P
  finish outcome service_name rw w =
      let duration = cs.submit_time (length w.writer.instruments.writer_submissions) in
      (
        finished,
        rw,
        record w {
          writer = record w.writer {
            instruments =
                record_writer_submission outcome service_name duration w.writer.instruments;
          };
        },
      )

  -- What follows Accept. A nil result without an error would be a nil dereference.
  unfoldable pub answer :
      Request
      → Text
      → Text
      → Option AcceptResult × Error
      → ResponseWriter
      → ServerWorld P
      → Exit × ResponseWriter × ServerWorld P
  answer r rid service (none, err) rw w =
      if is_nil err
      then (panicked, rw, w)
      else finish (outcome_for_ingest_error err) service (write_ingest_error r rid err rw) w
  answer r rid service (some res, err) rw w =
      if is_nil err
      then finish outcome_accepted service
          (write_success 202 rid
            (record {
              notification_id = res.notification_id;
              accepted_at = cs.format_time res.accepted_at;
            })
            rw)
          w
      else finish (outcome_for_ingest_error err) service (write_ingest_error r rid err rw) w

  -- `if params.IdempotencyKey != nil`
  abbrev pub with_idempotency : Option Text → Notification → Notification
  with_idempotency none n = n
  with_idempotency (some key) n = record n { idempotency_key = key }

  -- From the look at the principal on.
  unfoldable pub submit_decoded : Notification → Option Text → Handler (ServerWorld P)
  submit_decoded n idempotency_key r rw w = elim (from_context r) [
    | none ↦
        finish outcome_auth_failed []
          (write_problem (authentication_required (h.request_id r) r.path) rw) w
    | some p ↦
        let (res, writer) =
          accept pk h.ingester (some (with_idempotency idempotency_key n)) p.service_name
            w.writer in
        answer r (h.request_id r) p.service_name res rw (record w { writer = writer })
  ]

  -- SubmitNotification
  unfoldable pub submit_notification : Option Text → Handler (ServerWorld P)
  submit_notification idempotency_key r rw w = elim (decode_body cs r (h.request_id r)) [
    | inl n ↦ submit_decoded n idempotency_key r rw w
    | inr perr ↦ finish outcome_validation_failed [] (write_problem perr rw) w
  ]
