-- ===== src/Router/Refusing.antt =====
-- A submission that Accept refuses, through the whole stack of internal/writer/httpserver/router.go.
use pulsar_notifcation_pipel.Base.{
  ◌+◌, null, Bool-cases, ap, ◌∙◌, text_eq, ◌++◌, [], ◌∷◌, Option, none, some, true, false, inl, inr,
  refl, ◌≡◌, Text, ascii,
}
use pulsar_notifcation_pipel.Handlers.Refusing.{
  submit_notification-IsRefused, IsRefused, refusal, HoldsProblem,
}
use pulsar_notifcation_pipel.Http.{
  get_header, new_writer, set_header, panicked, finished, Request, Principal, ResponseWriter, Exit,
}
use pulsar_notifcation_pipel.Router.Submission.{
  root_handler-submission, BindsKey, panicked-apart, identified_request,
}
use pulsar_notifcation_pipel.Router.{
  request_id_key, root_handler, choose_request_id, request_id_from_context, log_access,
  recover_panic, Platform,
}
use pulsar_notifcation_pipel.GoError.{is_nil, nil, Error}
use pulsar_notifcation_pipel.Handlers.{
  with_idempotency, decode_body, ServerWorld, submit_notification, Codecs,
}
use pulsar_notifcation_pipel.Ingest.{accept, WriterWorld, Ingester, Packages}
use pulsar_notifcation_pipel.Auth.{Authenticator}
use pulsar_notifcation_pipel.Message.{Notification}
use pulsar_notifcation_pipel.Router.Accepting.{handlers, decode_body_admitted}

-- The call returned with the document of the error as its one response, under the request's own
-- identifier, the substrate is as Accept left it, and the access log has a line for the request.
pub record IsDeclined {P : Type 0} (pf : Platform P) (r : Request) (w : ServerWorld P) (err : Error)
    (substrate : P) (out : Exit × ResponseWriter × ServerWorld P) : Type 0 where
  pub returned : out.0 ≡ finished
  pub holds : HoldsProblem (refusal r.path (choose_request_id pf r w) err) out.1
  pub left : out.2.writer.substrate ≡ substrate
  pub logged :
      out.2.access_log
      ≡ w.access_log
        ++ record {
          method = r.method;
          path = r.path;
          status = (refusal r.path (choose_request_id pf r w) err).status;
          request_id = choose_request_id pf r w;
        }
          ∷ []

module _ {P : Type 0} (pf : Platform P) (pk : Packages) (cs : Codecs) (i : Ingester P) where
  recorded-IsDeclined :
      (err : Error) (substrate : P) (r : Request) (w : ServerWorld P)
      (out : Exit × ResponseWriter × ServerWorld P)
      → IsRefused r.path (choose_request_id pf r w) err substrate w.access_log out
      → IsDeclined pf r w err substrate
          (recover_panic pf r (log_access pf (identified_request pf r w) out))
  unfolding recover_panic log_access request_id_from_context
  recorded-IsDeclined err substrate r w (finished, writer, world) ok = record {
    returned = refl;
    holds = ok.holds;
    left = ok.left;
    logged = rw (ok.logged, ok.holds.1) refl;
  }
  recorded-IsDeclined err substrate r w (panicked, writer, world) ok =
      absurd (panicked-apart ok.returned)

  module _ (a : Authenticator) (r : Request) (key : Option Text) (n : Notification) (p : Principal)
      (w : ServerWorld P) (err : Error) (w' : WriterWorld P) where
    -- A caller's POST to /notifications with at most one Idempotency-Key value, which binds, is
    -- answered with the document of Accept's error if the authenticator accepts the caller, the body
    -- decodes, and Accept refuses the decoded notification with that key.
    pub root_handler-IsDeclined :
        text_eq r.path (ascii "/healthz") ≡ false
        → text_eq r.path (ascii "/notifications") ≡ true
        → text_eq r.method (ascii "POST") ≡ true
        → a (identified_request pf r w) ≡ (p, nil)
        → BindsKey pf r key
        → decode_body cs r (choose_request_id pf r w) ≡ inl n
        → accept pk i
            (some (with_idempotency pk cs (handlers pf pk cs i) key n))
            p.service_name
            w.writer
          ≡ ((none, err), w')
        → is_nil err ≡ false
        → IsDeclined pf r w err w'.substrate
            (root_handler pf a (submit_notification pk cs (handlers pf pk cs i)) r new_writer w)
    unfolding request_id_from_context set_header
    root_handler-IsDeclined elsewhere submission post ok binds decodes refused bad =
        let h = handlers pf pk cs i in
        let r' : Request = record (identified_request pf r w) {
          principal = some (a (identified_request pf r w)).0;
        } in
        let decodes' =
          decode_body_admitted pf pk cs i r r'.request_id r'.principal (choose_request_id pf r w)
          ∙ decodes in
        let authed = ap (λ x. some x.0) ok in
        let writer = set_header request_id_key (choose_request_id pf r w) new_writer in
        rw
          (root_handler-submission pf a (submit_notification pk cs h) r key w elsewhere submission
            post (ap (λ x. is_nil x.1) ok) binds)
          (recorded-IsDeclined err w'.substrate r w _
            (elim (Bool-cases (null (get_header request_id_key r))) [
              | inl generated ↦ rw generated (
                  submit_notification-IsRefused pk cs h key n p r' writer
                    (record w { generated_ids = w.generated_ids + 1 }) err w' decodes' authed
                    refused bad refl)
              | inr own ↦ rw own (
                  submit_notification-IsRefused pk cs h key n p r' writer w err w' decodes' authed
                    refused bad refl)
            ]))
