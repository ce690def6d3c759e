-- ===== src/GeneratedServer/Serving.antt =====
-- How the strict server of internal/writer/httpserver/server.gen.go answers.
use pulsar_notifcation_pipel.Base.{
  ap, sym, Bool-cases, inl, inr, refl, not, ◌&&◌, has_prefix, if◌then◌else◌, ℕ, [], Option, none,
  some, Bool, true, false, arith, ◌≡◌, Text, ascii,
}
use pulsar_notifcation_pipel.GoError.{nil, error_text, is_nil, Error}
use pulsar_notifcation_pipel.Http.{
  finished, content_type_key, get_header, Exit, http_error, Request, ResponseWriter, new_writer,
  set_header, write_body, Response, write_header,
}
use pulsar_notifcation_pipel.GeneratedServer.Strict.{
  as_interface, call_implementation, response_503, respond, response_500, new_strict_handler,
  response_415, request_object, response_409, strict_submit_notification, response_401,
  response_400, StrictServerInterface, encode, response_202, JsonCodec,
  SubmitNotificationResponseObject, visit_submit_notification_response,
}
use pulsar_notifcation_pipel.GeneratedServer.{SubmitNotificationParams}
use pulsar_notifcation_pipel.GeneratedServer.Wrapper.{report}
use mathlib.Core.Bool.{true≢false}

-- The status that a response object stands for.
abbrev pub status_of_object : SubmitNotificationResponseObject → ℕ
status_of_object (response_202 success) = 202
status_of_object (response_400 problem) = 400
status_of_object (response_401 problem) = 401
status_of_object (response_409 problem) = 409
status_of_object (response_415 problem) = 415
status_of_object (response_500 problem) = 500
status_of_object (response_503 problem) = 503

-- The status of what was sent.
abbrev pub sent_status : Option Response → Option ℕ
sent_status none = none
sent_status (some response) = some response.status

-- What an implementation returns asks for: 500 for an error, the object's status, or nothing.
abbrev pub asked_status : Option SubmitNotificationResponseObject × Error → Option ℕ
asked_status (response, err) =
    if is_nil err
    then elim response [ none ↦ none | some o ↦ some (status_of_object o) ]
    else some 500

visit-sent_status :
    (codec : JsonCodec) (o : SubmitNotificationResponseObject)
    → sent_status (visit_submit_notification_response codec o new_writer).1.sent
      ≡ some (status_of_object o)
unfolding visit_submit_notification_response encode write_header write_body set_header
visit-sent_status codec (response_202 success) = ground arith
visit-sent_status codec (response_400 problem) = ground arith
visit-sent_status codec (response_401 problem) = ground arith
visit-sent_status codec (response_409 problem) = ground arith
visit-sent_status codec (response_415 problem) = ground arith
visit-sent_status codec (response_500 problem) = ground arith
visit-sent_status codec (response_503 problem) = ground arith

pub http_error-sent_status :
    (message : Text) (status : ℕ) (rw : ResponseWriter)
    → sent_status (http_error message status rw).sent
      ≡ elim rw.sent [ none ↦ some status | some response ↦ some response.status ]
unfolding write_header write_body set_header
http_error-sent_status message status rw = ground arith

http_error-keeps_status :
    (message : Text) (status : ℕ) (rw : ResponseWriter) (k : ℕ)
    → sent_status rw.sent ≡ some k
    → sent_status (http_error message status rw).sent ≡ some k
unfolding write_header write_body set_header
http_error-keeps_status message status rw k sent = ground arith

-- What follows the call of an implementation that returned `response` and `err` and left w.
respond-answers :
    {W : Type 0} (codec : JsonCodec) (ssi : StrictServerInterface W) (r : Request)
    (response : Option SubmitNotificationResponseObject) (err : Error) (w : W)
    → let answered =
        respond codec (new_strict_handler ssi []) r ((as_interface response, err), new_writer, w) in
      (answered.0 ≡ finished)
      × (answered.2 ≡ w)
      × (sent_status answered.1.sent ≡ asked_status (response, err))
unfolding respond report new_strict_handler
respond-answers codec ssi r none err w = elim (Bool-cases (is_nil err)) [
  | inl fine ↦ rw fine (refl, refl, refl)
  | inr bad ↦ rw bad (refl, refl, http_error-sent_status (error_text err) 500 new_writer)
]
respond-answers codec ssi r (some o) err w =
    let visited = visit_submit_notification_response codec o new_writer in
    elim (Bool-cases (is_nil err)) [
      | inl fine ↦ elim (Bool-cases (is_nil visited.0)) [
        | inl encoded ↦ rw (fine, encoded) (refl, refl, visit-sent_status codec o)
        | inr refused ↦
            rw (fine, refused)
              (
                refl,
                refl,
                http_error-keeps_status (error_text visited.0) 500 visited.1 (status_of_object o)
                    (visit-sent_status codec o),
              )
      ]
      | inr bad ↦ rw bad (refl, refl, http_error-sent_status (error_text err) 500 new_writer)
    ]

module _ {W : Type 0} (codec : JsonCodec) (ssi : StrictServerInterface W)
    (params : SubmitNotificationParams) (r : Request) (w : W) where
  abbrev pub served : Exit × ResponseWriter × W
  served = strict_submit_notification codec (new_strict_handler ssi []) params r new_writer w

  -- The implementation on the decoded request.
  abbrev pub implemented : (Option SubmitNotificationResponseObject × Error) × W
  implemented =
      ssi (record { request_id = r.request_id; principal = r.principal })
        (request_object codec params r) w

  -- The body is announced as JSON and does not decode.
  abbrev pub undecodable : Bool
  undecodable =
      has_prefix (get_header content_type_key r) (ascii "application/json")
      && not (is_nil (codec.decode_notification r.body r.body_err).1)

  -- The strict server that NewStrictHandler makes with no middlewares, whose error handlers are the
  -- default ones, over an implementation that returns and does not panic: it does not panic. A body that is announced as JSON and does not decode is answered
  -- with 400 and the implementation is not called; otherwise it is called once, with the decoded
  -- request, and the answer has the status of its response object, also where that object does not
  -- encode, or 500 for an error; there is no answer only if it returns neither.
  pub strict_submit_notification-answers :
      (served.0 ≡ finished)
      × (undecodable ≡ true → (served.2 ≡ w) × (sent_status served.1.sent ≡ some 400))
      × (undecodable ≡ false
          → (served.2 ≡ implemented.1) × (sent_status served.1.sent ≡ asked_status implemented.0))
  unfolding strict_submit_notification new_strict_handler report call_implementation
  strict_submit_notification-answers = elim (Bool-cases undecodable) [
    | inl bad ↦ rw bad (
      refl,
      λ _. (refl, http_error-sent_status _ 400 new_writer),
      λ fine. absurd (true≢false fine),
    )
    | inr fine ↦
        let (over, kept, answered) =
          respond-answers codec ssi r implemented.0.0 implemented.0.1 implemented.1 in
        rw fine (over, λ bad. absurd (true≢false (sym bad)), λ _. (kept, answered))
  ]

  -- Where the implementation returns a response object that encodes, that object's visit of an unsent
  -- writer is all that happens.
  pub strict_submit_notification-visit :
      (o : SubmitNotificationResponseObject)
      → undecodable ≡ false
      → implemented.0 ≡ (some o, nil)
      → (visit_submit_notification_response codec o new_writer).0 ≡ nil
      → served
        ≡ (finished, (visit_submit_notification_response codec o new_writer).1, implemented.1)
  unfolding strict_submit_notification new_strict_handler respond call_implementation
  strict_submit_notification-visit o decodable returned encodes =
      rw (decodable, ap (λ p. p.0) returned, ap (λ p. p.1) returned, encodes) refl
