-- ===== src/GeneratedServer/Strict.antt =====
-- internal/writer/httpserver/server.gen.go: the strict server, whose implementation is handed a
-- decoded request and returns a response object.
use pulsar_notifcation_pipel.Base.{
  map, apply_all, ◌&&◌, ◌++◌, has_prefix, not, if◌then◌else◌, ℕ, List, [], ◌∷◌, Option, none, some,
  Text, ascii,
}
use pulsar_notifcation_pipel.GoError.{wrap, error_text, new, nil, is_nil, Error}
use pulsar_notifcation_pipel.Http.{
  text_body, write_body, content_type_key, http_error, Exit, finished, get_header, set_header,
  Handler, Request, write_header, Principal, ResponseWriter,
}
use pulsar_notifcation_pipel.GeneratedServer.{
  Notification, Problem, SubmitNotificationParams, SubmitNotificationSuccess,
}
use pulsar_notifcation_pipel.GeneratedServer.Wrapper.{report, ErrorHandler}

pub record SubmitNotificationRequestObject : Type 0 where
  pub params : SubmitNotificationParams
  pub json_body : Option Notification
  -- The body's reader, by what reading it to its end gives.
  pub body : Option (Text × Error)

-- The types that have a VisitSubmitNotificationResponse method.
pub data SubmitNotificationResponseObject : Type 0 where
  response_202 : SubmitNotificationSuccess → SubmitNotificationResponseObject
  response_400 response_401 response_409 response_415 response_500 response_503 :
      Problem → SubmitNotificationResponseObject

-- encoding/json: Decode of a body into a fresh notification, and Marshal of the two documents.
pub record JsonCodec : Type 0 where
  pub decode_notification : (body : Text) → (body_err : Error) → Notification × Error
  pub encode_success : SubmitNotificationSuccess → Text × Error
  pub encode_problem : Problem → Text × Error

-- What of a request's context an implementation reads.
pub record Context : Type 0 where
  pub request_id : Option Text
  pub principal : Option Principal

-- An interface{} that a strict handler returns: nil, a response object, or a value of another type.
pub data Returned : Type 0 where
  no_response : Returned
  response_object : SubmitNotificationResponseObject → Returned
  other_response : (type_name : Text) → Returned

-- StrictServerInterface, for an implementation that does not panic.
abbrev pub StrictServerInterface : Type 0 → Type 0
StrictServerInterface W =
    Context
    → SubmitNotificationRequestObject
    → W
    → (Option SubmitNotificationResponseObject × Error) × W

abbrev pub StrictHandlerFunc : Type 0 → Type 0
StrictHandlerFunc W =
    Request
    → SubmitNotificationRequestObject
    → ResponseWriter
    → W
    → (Returned × Error) × ResponseWriter × W

abbrev pub StrictMiddlewareFunc : Type 0 → Type 0
StrictMiddlewareFunc W = StrictHandlerFunc W → (operation_id : Text) → StrictHandlerFunc W

pub record StrictHttpServerOptions (W : Type 0) : Type 0 where
  pub request_error_handler_func : ErrorHandler Error W
  pub response_error_handler_func : ErrorHandler Error W

pub record StrictHandler (W : Type 0) : Type 0 where
  pub ssi : StrictServerInterface W
  pub middlewares : List (StrictMiddlewareFunc W)
  pub options : StrictHttpServerOptions W

-- Encode of a fresh json.Encoder: a document that Marshal refuses leaves nothing behind.
unfoldable pub encode : Text × Error → ResponseWriter → Error × ResponseWriter
encode (text, err) rw =
    if is_nil err then (nil, write_body (text_body (text ++ 10 ∷ [])) rw) else (err, rw)

abbrev pub problem_json : Text
problem_json = ascii "application/problem+json"

abbrev pub answer_with :
    (content_type : Text) → ℕ → Text × Error → ResponseWriter → Error × ResponseWriter
answer_with content_type status document rw =
    encode document (write_header status (set_header content_type_key content_type rw))

module _ (codec : JsonCodec) where
  -- The methods VisitSubmitNotificationResponse.
  unfoldable pub visit_submit_notification_response :
      SubmitNotificationResponseObject → ResponseWriter → Error × ResponseWriter
  visit_submit_notification_response (response_202 success) =
      answer_with (ascii "application/json") 202 (codec.encode_success success)
  visit_submit_notification_response (response_400 problem) =
      answer_with problem_json 400 (codec.encode_problem problem)
  visit_submit_notification_response (response_401 problem) =
      answer_with problem_json 401 (codec.encode_problem problem)
  visit_submit_notification_response (response_409 problem) =
      answer_with problem_json 409 (codec.encode_problem problem)
  visit_submit_notification_response (response_415 problem) =
      answer_with problem_json 415 (codec.encode_problem problem)
  visit_submit_notification_response (response_500 problem) =
      answer_with problem_json 500 (codec.encode_problem problem)
  visit_submit_notification_response (response_503 problem) =
      answer_with problem_json 503 (codec.encode_problem problem)

  -- The object that the implementation is handed, by what Decode leaves of the body.
  unfoldable pub request_object :
      SubmitNotificationParams → Request → SubmitNotificationRequestObject
  request_object params r =
      let content_type = get_header content_type_key r in
      record {
        params = params;
        json_body =
            if has_prefix content_type (ascii "application/json")
            then some (codec.decode_notification r.body r.body_err).0
            else none;
        body =
            if has_prefix content_type (ascii "application/x-protobuf")
            then some (r.body, r.body_err)
            else none;
      }

abbrev pub as_interface : Option SubmitNotificationResponseObject → Returned
as_interface none = no_response
as_interface (some o) = response_object o

module _ {W : Type 0} where
  -- http.Error of an error's text.
  abbrev pub plain_error : ℕ → Error → Handler W
  plain_error status err r rw w = (finished, http_error (error_text err) status rw, w)

  unfoldable pub new_strict_handler :
      StrictServerInterface W → List (StrictMiddlewareFunc W) → StrictHandler W
  new_strict_handler ssi middlewares = record {
    ssi = ssi;
    middlewares = middlewares;
    options = record {
      request_error_handler_func = some (plain_error 400);
      response_error_handler_func = some (plain_error 500);
    };
  }

  unfoldable pub new_strict_handler_with_options :
      StrictServerInterface W
      → List (StrictMiddlewareFunc W)
      → StrictHttpServerOptions W
      → StrictHandler W
  new_strict_handler_with_options ssi middlewares options = record {
    ssi = ssi;
    middlewares = middlewares;
    options = options;
  }

  -- The innermost handler, which calls the implementation.
  unfoldable pub call_implementation : StrictServerInterface W → StrictHandlerFunc W
  call_implementation ssi r request rw w =
      let ((response, err), w') =
        ssi (record { request_id = r.request_id; principal = r.principal }) request w in
      ((as_interface response, err), rw, w')

  module _ (codec : JsonCodec) (sh : StrictHandler W) where
    -- What follows the call of the handler.
    unfoldable pub respond :
        Request → (Returned × Error) × ResponseWriter × W → Exit × ResponseWriter × W
    unfolding report
    respond r ((response, err), rw, w) =
        let failed = report sh.options.response_error_handler_func in
        if not (is_nil err) then failed err r rw w else elim response [
          | no_response ↦ (finished, rw, w)
          | response_object o ↦
              let (visit_err, rw') = visit_submit_notification_response codec o rw in
              if is_nil visit_err then (finished, rw', w) else failed visit_err r rw' w
          | other_response type_name ↦
              failed (new (ascii "unexpected response type: " ++ type_name)) r rw w
        ]

    -- strictHandler.SubmitNotification
    unfoldable pub strict_submit_notification : SubmitNotificationParams → Handler W
    unfolding report
    strict_submit_notification params r rw w =
        let json = has_prefix (get_header content_type_key r) (ascii "application/json") in
        let (body, err) = codec.decode_notification r.body r.body_err in
        if json && not (is_nil err)
        then report sh.options.request_error_handler_func
            (wrap (ascii "can't decode JSON body") err) r rw w
        else respond r (
            apply_all
              (map (λ middleware handler. middleware handler (ascii "SubmitNotification"))
                sh.middlewares)
              (call_implementation sh.ssi) r (request_object codec params r) rw w)
