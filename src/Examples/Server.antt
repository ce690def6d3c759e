-- ===== src/Examples/Server.antt =====
-- Concrete runs of the writer's HTTP server.
use pulsar_notifcation_pipel.Base.{
  trim_back, trim_left, trim_space, before_byte, to_lower, inl, ◌++◌, text_eq, List, [], ◌∷◌,
  Option, none, some, true, false, refl, ◌≡◌, Text, ascii,
}
use pulsar_notifcation_pipel.Examples.Data.{
  note-runs, packages, idle, ingester, note, service, submission,
}
use pulsar_notifcation_pipel.Validation.Correct.{validate_iff}
use pulsar_notifcation_pipel.Router.Accepting.{root_handler-IsAnswered, IsAnswered}
use pulsar_notifcation_pipel.Http.{
  get_header, text_body, write_header, finished, Request, new_writer, Handler,
}
use pulsar_notifcation_pipel.Handlers.{
  content_type_of, decoded, decode_body, submit_notification, Codecs, Handlers, ServerWorld,
}
use pulsar_notifcation_pipel.GoError.{err_invalid_credentials, nil, sentinel}
use pulsar_notifcation_pipel.Router.Access.{root_handler-two_keys, root_handler_rejects, sent_of}
use pulsar_notifcation_pipel.Base.Int.{pos}
use pulsar_notifcation_pipel.Router.{request_id_from_context, Platform, root_handler}
use pulsar_notifcation_pipel.Handlers.Responses.{Answers}
use pulsar_notifcation_pipel.Router.Submission.{root_handler-Answers}
use pulsar_notifcation_pipel.Auth.{anonymous, Authenticator}
use pulsar_notifcation_pipel.Base.Dict.{lookup}
use pulsar_notifcation_pipel.Pulsarlib.{PublishInput}

abbrev pub codecs : Codecs
codecs = record {
  unmarshal_json = λ body. (note, nil);
  unmarshal_proto = λ body. (note, nil);
  format_time = λ t. ascii "2026-01-01T00:00:00.000Z";
  submit_time = λ k. pos 9;
}

abbrev pub handlers : Handlers (List PublishInput)
handlers = record { ingester = ingester; request_id = request_id_from_context }

abbrev pub platform : Platform (List PublishInput)
platform = record {
  not_routed = λ r rw w. (finished, write_header 404 rw, w);
  new_uuid = λ k. (ascii "u1", nil);
  bind_parameter = λ value. (value, nil);
}

abbrev pub server : ServerWorld (List PublishInput)
server = record { writer = idle; generated_ids = 0; access_log = []; panic_log = [] }

abbrev pub everyone : Authenticator
everyone r = (service, nil)

abbrev nobody : Authenticator
nobody r = (anonymous, sentinel err_invalid_credentials)

abbrev pub with_path : Text → List (Text × List Text) → Request
with_path path headers = record (submission []) { path = path; headers = headers }

abbrev handle : Option Text → Handler (ServerWorld (List PublishInput))
handle = submit_notification packages codecs handlers

elsewhere : text_eq (ascii "/notifications") (ascii "/healthz") ≡ false
unfolding text_eq ascii
elsewhere = refl

root_handler_rejects_example :
    (root_handler platform nobody handle (submission []) new_writer server).2.writer ≡ idle
root_handler_rejects_example =
    (root_handler_rejects platform nobody handle (submission []) server elsewhere refl).1

abbrev two_keys : List (Text × List Text)
two_keys = (ascii "Idempotency-Key", ascii "a" ∷ ascii "b" ∷ []) ∷ []

root_handler-two_keys_example :
    sent_of
      (root_handler platform everyone handle
        (with_path (ascii "/notifications") two_keys)
        new_writer
        server).1.sent
    ≡ some (500, text_body (ascii "internal server error" ++ 10 ∷ []) ∷ [])
unfolding text_eq ascii lookup
root_handler-two_keys_example =
    (root_handler-two_keys platform everyone handle (with_path (ascii "/notifications") two_keys)
      server (ascii "a") (ascii "b") [] elsewhere refl refl refl refl).4

root_handler-Answers_example :
    Answers [] (root_handler platform everyone handle (submission []) new_writer server)
unfolding text_eq ascii lookup
root_handler-Answers_example =
    root_handler-Answers platform everyone packages codecs handlers (submission []) none server
      elsewhere refl refl refl (inl (refl, refl))

abbrev json_submission : Request
json_submission =
    with_path (ascii "/notifications") ((ascii "Content-Type", ascii "application/json" ∷ []) ∷ [])

root_handler-IsAnswered_example :
    IsAnswered platform packages codecs ingester note
      (ascii "ci")
      json_submission
      server
      (root_handler platform everyone handle json_submission new_writer server)
unfolding text_eq ascii lookup decode_body decoded content_type_of get_header to_lower before_byte
    trim_space trim_left trim_back
root_handler-IsAnswered_example =
    root_handler-IsAnswered platform packages codecs ingester everyone json_submission none note
      service server elsewhere refl refl refl (inl (refl, refl)) refl
      ((validate_iff (λ url. true) note).0 note-runs, refl, refl, refl)
