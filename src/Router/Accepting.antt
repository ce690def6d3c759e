-- ===== src/Router/Accepting.antt =====
-- A submission that the whole stack of internal/writer/httpserver/router.go accepts.
use pulsar_notifcation_pipel.Base.{
  ◌+◌, null, Bool-cases, text_eq, ◌∙◌, ap, Option, true, false, inl, inr, refl, ascii, ◌++◌, List,
  [], ◌∷◌, some, ◌≡◌, Text,
}
use pulsar_notifcation_pipel.GoError.{nil, is_nil}
use pulsar_notifcation_pipel.Http.{
  Principal, get_header, panicked, new_writer, ResponseWriter, Exit, set_header, success_body,
}
use pulsar_notifcation_pipel.Handlers.{
  content_type_of, decoded, submit_notification, with_idempotency, decode_body, ServerWorld,
  Handlers, Codecs,
}
use pulsar_notifcation_pipel.Router.Submission.{
  panicked-apart, root_handler-submission, BindsKey, identified_request,
}
use pulsar_notifcation_pipel.Handlers.Accepting.{submit_notification-IsAccepted, IsAccepted}
use pulsar_notifcation_pipel.Router.{
  root_handler, request_id_key, choose_request_id, finished, Request, log_access,
  request_id_from_context, recover_panic, Platform,
}
use pulsar_notifcation_pipel.Auth.{Authenticator}
use pulsar_notifcation_pipel.Ingest.Accept.{IsAcceptable, input, now, id}
use pulsar_notifcation_pipel.Http.Writing.{write_success-sent}
use pulsar_notifcation_pipel.Message.{Notification}
use pulsar_notifcation_pipel.Ingest.{Ingester, Packages}

-- The call returned, one 202 response is sent, with the identifier and the time that the submission
-- got and the request's own identifier, the substrate is as the one call of Publish left it, and the
-- access log has a line for it.
pub record IsAnswered {P : Type 0} (pf : Platform P) (pk : Packages) (cs : Codecs) (i : Ingester P)
    (n : Notification) (service : Text) (r : Request) (w : ServerWorld P)
    (out : Exit × ResponseWriter × ServerWorld P) : Type 0 where
  pub returned : out.0 ≡ finished
  pub headers : List (Text × Text)
  pub sent :
      out.1.sent
      ≡ some (record {
        status = 202;
        headers = headers;
        bodies =
            success_body
              (record {
                notification_id = id pk i n service w.writer;
                accepted_at = cs.format_time (now pk i n service w.writer);
              })
              (choose_request_id pf r w)
            ∷ [];
      })
  pub published :
      out.2.writer.substrate
      ≡ (i.publisher.publish (input pk i n service w.writer) w.writer.substrate).1
  pub logged :
      out.2.access_log
      ≡ w.access_log
        ++ record {
          method = r.method;
          path = r.path;
          status = 202;
          request_id = choose_request_id pf r w;
        }
          ∷ []

module _ {P : Type 0} (pf : Platform P) (pk : Packages) (cs : Codecs) (i : Ingester P) where
  -- The handler that the writer's main function builds.
  abbrev pub handlers : Handlers P
  handlers = record { ingester = i; request_id = request_id_from_context }

  recorded-IsAnswered :
      (n : Notification) (service : Text) (r : Request) (w : ServerWorld P)
      (out : Exit × ResponseWriter × ServerWorld P)
      → IsAccepted pk cs i n service
          (choose_request_id pf r w)
          (set_header request_id_key (choose_request_id pf r w) new_writer)
          w.writer
          w.access_log
          out
      → IsAnswered pf pk cs i n service r w
          (recover_panic pf r (log_access pf (identified_request pf r w) out))
  unfolding recover_panic log_access set_header request_id_from_context
  recorded-IsAnswered n service r w (finished, writer, world) ok =
      let sent =
        ap (λ x. x.sent) ok.sent
        ∙ write_success-sent 202 _ _ (set_header request_id_key _ _) refl in
      record {
        returned = refl;
        headers = _;
        sent = sent;
        published = ok.published;
        logged = rw (ok.logged, sent) refl;
      }
  recorded-IsAnswered n service r w (panicked, writer, world) ok =
      absurd (panicked-apart ok.returned)

  -- Decoding does not look at what the middleware put into the context.
  pub decode_body_admitted :
      (r : Request) (request_id : Option Text) (principal : Option Principal) (rid : Text)
      → decode_body cs (record r { request_id = request_id; principal = principal }) rid
        ≡ decode_body cs r rid
  unfolding decode_body decoded content_type_of get_header
  decode_body_admitted r request_id principal rid = refl

  -- A caller's POST to /notifications with at most one Idempotency-Key value, which binds, is answered
  -- with 202 and published once if the authenticator accepts the caller, the body decodes, and
  -- Accept takes the decoded notification with that key.
  pub root_handler-IsAnswered :
      (a : Authenticator) (r : Request) (key : Option Text) (n : Notification) (p : Principal)
      (w : ServerWorld P)
      → text_eq r.path (ascii "/healthz") ≡ false
      → text_eq r.path (ascii "/notifications") ≡ true
      → text_eq r.method (ascii "POST") ≡ true
      → a (identified_request pf r w) ≡ (p, nil)
      → BindsKey pf r key
      → decode_body cs r (choose_request_id pf r w) ≡ inl n
      → IsAcceptable pk i (with_idempotency pk cs handlers key n) p.service_name w.writer
      → IsAnswered pf pk cs i
          (with_idempotency pk cs handlers key n)
          p.service_name
          r
          w
          (root_handler pf a (submit_notification pk cs handlers) r new_writer w)
  unfolding request_id_from_context
  root_handler-IsAnswered a r key n p w elsewhere submission post ok binds decodes acceptable =
      let r' : Request = record (identified_request pf r w) {
        principal = some (a (identified_request pf r w)).0;
      } in
      let decodes' =
        decode_body_admitted r r'.request_id r'.principal (choose_request_id pf r w) ∙ decodes in
      let authed = ap (λ x. some x.0) ok in
      let writer = set_header request_id_key (choose_request_id pf r w) new_writer in
      rw
        (root_handler-submission pf a (submit_notification pk cs handlers) r key w elsewhere
          submission post (ap (λ x. is_nil x.1) ok) binds)
        (recorded-IsAnswered _ _ r w _ (elim (Bool-cases (null (get_header request_id_key r))) [
          | inl generated ↦ rw generated (
              submit_notification-IsAccepted pk cs handlers key n p r' writer
                (record w { generated_ids = w.generated_ids + 1 }) decodes' authed acceptable)
          | inr own ↦ rw own (
              submit_notification-IsAccepted pk cs handlers key n p r' writer w decodes' authed
                acceptable)
        ]))
