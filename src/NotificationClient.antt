-- ===== src/NotificationClient.antt =====
-- pkg/notificationclient: the client of the writer's HTTP API (client.go, errors.go, response.go).
pub mod Categories
pub mod Submission
pub mod Parsing
pub mod Posting
pub mod Errors
use pulsar_notifcation_pipel.Base.{
  ltb, ◌&&◌, leb, not, null, text_eq, if◌then◌else◌, ℕ, List, [], ◌∷◌, inl, inr, Text, ascii, ◌⊎◌,
}
use pulsar_notifcation_pipel.GeneratedClient.{Reply}
use pulsar_notifcation_pipel.Message.{zero_time, Notification, Time}
use pulsar_notifcation_pipel.Base.Int.{pos, eq_ℤ, ℤ}
use pulsar_notifcation_pipel.GoError.{wrap, FieldError, is_nil, Error}

-- The sentinels of errors.go.
pub data Category : Type 0 where
  err_validation_failed err_authentication_required err_authentication_failed : Category
  err_idempotency_conflict err_unsupported_content_type : Category
  err_substrate_unavailable err_internal err_unknown_problem : Category

-- problemWire, as json.Unmarshal fills it from a zero value.
pub record ProblemWire : Type 0 where
  pub type_uri : Text
  pub title : Text
  pub status : ℤ
  pub detail : Text
  pub instance_uri : Text
  pub request_id : Text
  pub errors : List FieldError

pub record ProblemError : Type 0 where
  pub type_uri : Text
  pub title : Text
  pub status : ℤ
  pub detail : Text
  pub instance_uri : Text
  pub request_id : Text
  pub fields : List FieldError
  pub category : Category

-- The error of Submit: a *ProblemError, or another one.
pub data SubmitError : Type 0 where
  problem_error : ProblemError → SubmitError
  other_error : Error → SubmitError

unfoldable pub sentinel_for : Text → Category
sentinel_for type_uri =
    if text_eq type_uri
      (ascii "https://pulsar-notifcation-pipeline.example/problems/validation-failed")
    then err_validation_failed
    else if text_eq type_uri
        (ascii "https://pulsar-notifcation-pipeline.example/problems/authentication-required")
    then err_authentication_required
    else if text_eq type_uri
        (ascii "https://pulsar-notifcation-pipeline.example/problems/authentication-failed")
    then err_authentication_failed
    else if text_eq type_uri
        (ascii "https://pulsar-notifcation-pipeline.example/problems/idempotency-conflict")
    then err_idempotency_conflict
    else if text_eq type_uri
        (ascii "https://pulsar-notifcation-pipeline.example/problems/unsupported-content-type")
    then err_unsupported_content_type
    else if text_eq type_uri
        (ascii "https://pulsar-notifcation-pipeline.example/problems/substrate-unavailable")
    then err_substrate_unavailable
    else if text_eq type_uri (ascii "https://pulsar-notifcation-pipeline.example/problems/internal")
    then err_internal
    else err_unknown_problem

-- decodeProblem, after the unmarshalling.
unfoldable pub decode_problem : ProblemWire → (fallback_status : ℕ) → ProblemError
decode_problem wire fallback_status = record {
  type_uri = wire.type_uri;
  title = wire.title;
  status = if eq_ℤ wire.status (pos 0) then pos fallback_status else wire.status;
  detail = wire.detail;
  instance_uri = wire.instance_uri;
  request_id = wire.request_id;
  fields = wire.errors;
  category = sentinel_for wire.type_uri;
}

-- SubmitResponse: the envelope's data and meta.
pub record SubmitResponse : Type 0 where
  pub notification_id : Text
  pub accepted_text : Text
  pub request_id : Text

-- The packages that the client calls: the codecs, and time.Parse of a layout.
pub record Transport : Type 0 where
  pub marshal_json : Notification → Text × Error
  pub marshal_proto : Notification → Text × Error
  pub unmarshal_problem : Text → ProblemWire
  pub unmarshal_envelope : Text → SubmitResponse × Error
  pub parse_time : (layout : Text) → Text → Time × Error

module _ (tr : Transport) where
  -- parseResponse
  unfoldable pub parse_response : Reply → SubmitResponse ⊎ SubmitError
  parse_response resp =
      let (env, err) = tr.unmarshal_envelope resp.body in
      if not (is_nil resp.body_err)
      then inr (other_error (wrap (ascii "notificationclient: read response") resp.body_err))
      else if leb 200 resp.status && ltb resp.status 300
      then if is_nil err
        then inl env
        else inr (other_error (wrap (ascii "notificationclient: decode success envelope") err))
      else inr (problem_error (decode_problem (tr.unmarshal_problem resp.body) resp.status))

  unfoldable pub answer_of : Reply ⊎ Error → SubmitResponse ⊎ SubmitError
  answer_of (inl resp) = parse_response resp
  answer_of (inr err) = inr (other_error err)

  -- The loop of AcceptedAt over the layouts.
  unfoldable pub first_parsed : List Text → Text → Time
  first_parsed [] text = zero_time
  first_parsed (layout ∷ layouts) text =
      let (t, err) = tr.parse_time layout text in
      let rest = first_parsed layouts text in if is_nil err then t else rest

  unfoldable pub accepted_at : SubmitResponse → Time
  accepted_at r =
      let parsed =
        first_parsed
          (ascii "2006-01-02T15:04:05.000Z07:00"
            ∷ ascii "2006-01-02T15:04:05.999999999Z07:00"
            ∷ ascii "2006-01-02T15:04:05Z07:00"
            ∷ [])
          r.accepted_text in
      if null r.accepted_text then zero_time else parsed
