-- ===== src/Examples/Generated.antt =====
-- Concrete runs of the generated packages: a strict server that answers 202, and its client.
use pulsar_notifcation_pipel.Base.{
  ◌⊎◌, ◌==◌, ◌&&◌, text_eq_refl, inl, text_eq, has_prefix, ◌∙◌, append_assoc, sym, true, false,
  refl, null, ap, if◌then◌else◌, ◌+◌, ◌++◌, ℕ, [], ◌∷◌, none, some, ◌≡◌, Text, ascii,
}
use pulsar_notifcation_pipel.EndToEnd.Exchange.{strict_submit_notification-parsed}
use pulsar_notifcation_pipel.GeneratedClient.Documents.{document_at}
use pulsar_notifcation_pipel.GeneratedClient.Answers.{status_code, parse_submit_response}
use pulsar_notifcation_pipel.EndToEnd.Documents.{transported, client_success, IsLossless}
use pulsar_notifcation_pipel.GeneratedServer.Binding.{new_handler-answers, Binds, ServesRoute}
use pulsar_notifcation_pipel.GeneratedClient.WithResponses.{ParsedResponse, DocumentCodec}
use pulsar_notifcation_pipel.GeneratedServer.Serving.{
  strict_submit_notification-answers, served, sent_status,
}
use pulsar_notifcation_pipel.Http.{
  Handler, new_writer, text_body, write_header, Response, finished, get_header, Request,
}
use pulsar_notifcation_pipel.GeneratedServer.{
  SubmitNotificationParams, SubmitNotificationSuccess, Notification,
}
use pulsar_notifcation_pipel.GeneratedServer.Wrapper.{Mux, ServerInterface, new_handler}
use pulsar_notifcation_pipel.GeneratedServer.Strict.{
  request_object, response_202, JsonCodec, StrictServerInterface, SubmitNotificationResponseObject,
}
use pulsar_notifcation_pipel.Base.Dict.{lookup}
use pulsar_notifcation_pipel.Examples.Codec.{split_append, get, put}
use pulsar_notifcation_pipel.GoError.{Error, new, nil}
use pulsar_notifcation_pipel.GeneratedClient.Types
use pulsar_notifcation_pipel.Examples.ProblemCodec.{get-put_problem, get_problem, put_problem}

abbrev get_success : Text → Types.SubmitNotificationSuccess
get_success [] = record { accepted_at = 0; notification_id = []; meta = record { request_id = [] } }
get_success (accepted_at ∷ s) =
    let (notification_id, s1) = get s in
    let (request_id, s2) = get s1 in
    record {
      accepted_at = accepted_at;
      notification_id = notification_id;
      meta = record { request_id = request_id };
    }

abbrev put_success : SubmitNotificationSuccess → Text
put_success d = d.accepted_at ∷ put d.notification_id (put d.meta.request_id [])

abbrev empty_document : Notification
empty_document = record {
  content = record { body = []; data_member = none; priority = none; title = [] };
  created_at = none;
  expires_at = none;
  idempotency_key = none;
  notification_id = none;
  originating_service = none;
  pushover = record {
    device_name = none;
    sound = none;
    url = none;
    url_title = none;
    user_or_group_key = [];
  };
}

-- A codec that decodes every body but the empty one.
abbrev server_codec : JsonCodec
server_codec = record {
  decode_notification =
      λ body body_err. (empty_document, if null body then new (ascii "EOF") else nil);
  encode_success = λ d. (put_success d, nil);
  encode_problem = λ p. (put_problem p, nil);
}

abbrev client_codec : DocumentCodec
client_codec = record {
  unmarshal_success = λ text. (get_success text, nil);
  unmarshal_problem = λ text. (get_problem text, nil);
  marshal = λ n. (ascii "{}", nil);
}

get-put_success :
    (d : SubmitNotificationSuccess) → get_success (put_success d ++ 10 ∷ []) ≡ client_success d
get-put_success d =
    let rid = d.meta.request_id in
    rw
      (
        append_assoc d.notification_id (put rid []) (10 ∷ []),
        split_append d.notification_id (put rid [] ++ 10 ∷ []),
        append_assoc rid [] (10 ∷ []),
        split_append rid (10 ∷ []),
      )
      refl

codecs-IsLossless : IsLossless server_codec client_codec
codecs-IsLossless = record {
  success = λ d text e.
      ap (λ s. (get_success (s ++ 10 ∷ []), nil)) (sym (ap (λ x. x.0) e))
      ∙ ap (λ x. (x, nil)) (get-put_success d);
  problem = λ p text e.
      ap (λ s. (get_problem (s ++ 10 ∷ []), nil)) (sym (ap (λ x. x.0) e))
      ∙ ap (λ x. (x, nil)) (get-put_problem p);
}

abbrev accepted : SubmitNotificationSuccess
accepted = record {
  accepted_at = 70;
  notification_id = ascii "n-1";
  meta = record { request_id = ascii "req-1" };
}

abbrev receipt : SubmitNotificationResponseObject
receipt = response_202 (record {
  accepted_at = 70;
  notification_id = ascii "n-1";
  meta = record { request_id = ascii "req-1" };
})

-- It counts its calls.
abbrev implementation : StrictServerInterface ℕ
implementation ctx request calls = ((some receipt, nil), calls + 1)

abbrev json_request : Text → Request
json_request body = record {
  method = ascii "POST";
  path = ascii "/notifications";
  headers = (ascii "Content-Type", ascii "application/json" ∷ []) ∷ [];
  body = body;
  body_err = nil;
  request_id = none;
  principal = none;
}

strict_submit_notification-answers_example :
    let answered =
      served server_codec implementation (record { idempotency_key = none }) (json_request []) 0 in
    (answered.0 ≡ finished)
    × (true ≡ true → (answered.2 ≡ 0) × (sent_status answered.1.sent ≡ some 400))
    × (true ≡ false → (answered.2 ≡ 1) × (sent_status answered.1.sent ≡ some 202))
unfolding get_header lookup has_prefix ascii text_eq request_object
strict_submit_notification-answers_example =
    strict_submit_notification-answers server_codec implementation
      (record { idempotency_key = none }) (json_request []) 0

abbrev keyless : SubmitNotificationParams
keyless = record { idempotency_key = none }

abbrev answered : Response
answered = record {
  status = 202;
  headers = (ascii "Content-Type", ascii "application/json") ∷ [];
  bodies = text_body (put_success accepted ++ 10 ∷ []) ∷ [];
}

strict_submit_notification-parsed_example :
    (response : Response) × ((served server_codec implementation keyless
        (json_request (ascii "{}"))
        0).1.sent
      ≡ some response)
    × ((parsed : ParsedResponse) × (parse_submit_response client_codec.unmarshal_success
            client_codec.unmarshal_problem
            (transported (λ b. []) response)
          ≡ (some parsed, nil))
        × (status_code parsed ≡ 202)
        × ((k : ℕ)
            → document_at parsed k
              ≡ (if k == 202 then some (inl (client_success accepted)) else none)))
unfolding get_header lookup has_prefix ascii text_eq request_object
strict_submit_notification-parsed_example =
    strict_submit_notification-parsed server_codec client_codec codecs-IsLossless (λ b. [])
      implementation keyless (json_request (ascii "{}")) 0 receipt (put_success accepted) refl refl
      refl

-- A router that takes the first route that fits.
abbrev first_route : Mux ℕ → Handler ℕ
first_route [] r writer w = (finished, write_header 404 writer, w)
first_route (route ∷ routes) r writer w =
    let rest = first_route routes r writer w in
    if text_eq r.path route.path && text_eq r.method route.method
    then route.handler r writer w
    else rest

first_route-ServesRoute : (bind : Text → Text × Error) → ServesRoute bind first_route
first_route-ServesRoute bind route r path method same_path same_method writer w =
    rw (same_path, same_method, text_eq_refl route.path, text_eq_refl route.method) refl

abbrev bound : Text → Text × Error
bound value = (value, nil)

abbrev operation : ServerInterface ℕ
operation params r writer calls = (finished, write_header 202 writer, calls + 1)

abbrev two_keys : Request
two_keys = record (json_request []) {
  headers = (ascii "Idempotency-Key", ascii "a" ∷ ascii "b" ∷ []) ∷ [];
}

new_handler-answers_example :
    let result = first_route (new_handler bound operation) two_keys new_writer 0 in
    ((params : SubmitNotificationParams) × Binds bound two_keys params
      × (result ≡ operation params two_keys new_writer 0))
    ⊎ (((params : SubmitNotificationParams) → ¬ Binds bound two_keys params)
        × (result.0 ≡ finished)
        × (result.2 ≡ 0)
        × (sent_status result.1.sent ≡ some 400))
new_handler-answers_example =
    new_handler-answers bound first_route operation two_keys 0 (first_route-ServesRoute bound) refl
      refl
