-- ===== src/Router/Submission.antt =====
-- A submission through the whole stack of internal/writer/httpserver/router.go.
use pulsar_notifcation_pipel.Base.{
  ◌+◌, ap, if◌then◌else◌, [], ◌∷◌, ◌⊎◌, Option, null, Bool-cases, inl, inr, arith, text_eq, List,
  none, some, true, false, refl, ◌≡◌, Text, ascii,
}
use pulsar_notifcation_pipel.GeneratedServer.Wrapper.{wrapped_submit_notification}
use pulsar_notifcation_pipel.Router.{
  request_id_from_context, request_id_key, choose_request_id, Platform, wrapped, route,
  conditional_auth, access_log_middleware, Request, request_id_middleware, log_access,
  recover_middleware, recover_panic, root_handler,
}
use pulsar_notifcation_pipel.GoError.{nil, is_nil}
use pulsar_notifcation_pipel.Http.{
  Handler, get_header, finished, panicked, new_writer, set_header, ResponseWriter, Exit,
}
use pulsar_notifcation_pipel.Handlers.Responses.{submit_notification-Answers, Answers}
use pulsar_notifcation_pipel.Handlers.{submit_notification, Handlers, Codecs, ServerWorld}
use pulsar_notifcation_pipel.Base.Dict.{lookup}
use pulsar_notifcation_pipel.Ingest.{Packages}
use pulsar_notifcation_pipel.Auth.{Authenticator, middleware}

pub panicked-apart : ¬ (panicked ≡ finished)
panicked-apart = ground arith

-- An access line leaves the response and the count of a handler that returned alone.
recorded_Answers :
    {P : Type 0} (pf : Platform P) (r r' : Request) (before : List (Text × Text))
    (out : Exit × ResponseWriter × ServerWorld P)
    → Answers before out
    → Answers before (recover_panic pf r (log_access pf r' out))
unfolding recover_panic log_access
recorded_Answers pf r r' before (finished, writer, w) answers = record {
  returned = refl;
  label = answers.label;
  service = answers.service;
  sends = answers.sends;
  counted = answers.counted;
}
recorded_Answers pf r r' before (panicked, writer, w) answers =
    absurd (panicked-apart answers.returned)

-- The handler gets the key k of a request r: r has no Idempotency-Key value and k is none, or r has one
-- value and k is what it binds to.
abbrev pub BindsKey : {P : Type 0} → Platform P → Request → Option Text → Type 0
BindsKey pf r key =
    ((lookup (ascii "Idempotency-Key") r.headers ≡ none) × (key ≡ none))
    ⊎ ((value : Text) × (k : Text) × (lookup (ascii "Idempotency-Key") r.headers
          ≡ some (value ∷ []))
        × (pf.bind_parameter value ≡ (k, nil))
        × (key ≡ some k))

wrapped_binds :
    {P : Type 0} (pf : Platform P) (handler : Option Text → Handler (ServerWorld P)) (r : Request)
    (key : Option Text) (writer : ResponseWriter) (w : ServerWorld P)
    → BindsKey pf r key
    → wrapped pf handler r writer w ≡ handler key r writer w
unfolding wrapped wrapped_submit_notification
wrapped_binds pf handler r key writer w (inl (none_sent, e)) =
    rw (none_sent, e, wrapped, wrapped_submit_notification) refl
wrapped_binds pf handler r key writer w (inr (value, k, sent, bound, e)) =
    rw (sent, wrapped, wrapped_submit_notification) (rw (bound, e) refl)

pub authed_submission :
    {P : Type 0} (pf : Platform P) (a : Authenticator)
    (handler : Option Text → Handler (ServerWorld P)) (r : Request) (key : Option Text)
    (writer : ResponseWriter) (w : ServerWorld P)
    → text_eq r.path (ascii "/healthz") ≡ false
    → text_eq r.path (ascii "/notifications") ≡ true
    → text_eq r.method (ascii "POST") ≡ true
    → is_nil (a r).1 ≡ true
    → BindsKey pf r key
    → conditional_auth pf
        (route pf handler)
        (middleware a (route pf handler) (some request_id_from_context))
        r
        writer
        w
      ≡ handler key (record r { principal = some (a r).0 }) writer w
unfolding conditional_auth route middleware
authed_submission pf a handler r key writer w elsewhere submission post ok binds =
    rw (elsewhere, ok, submission, post)
      (wrapped_binds pf handler (record r { principal = some (a r).0 }) key writer w binds)

-- The request and the writer's state behind the request-identifier middleware.
abbrev pub identified_request : {P : Type 0} → Platform P → Request → ServerWorld P → Request
identified_request pf r w = record r { request_id = some (choose_request_id pf r w) }

abbrev pub identified_world : {P : Type 0} → Request → ServerWorld P → ServerWorld P
identified_world r w =
    if null (get_header request_id_key r)
    then record w { generated_ids = w.generated_ids + 1 }
    else w

-- The stack for a submission by an accepted caller: the handler between the access log and the
-- recovery.
pub root_handler-submission :
    {P : Type 0} (pf : Platform P) (a : Authenticator)
    (handler : Option Text → Handler (ServerWorld P)) (r : Request) (key : Option Text)
    (w : ServerWorld P)
    → text_eq r.path (ascii "/healthz") ≡ false
    → text_eq r.path (ascii "/notifications") ≡ true
    → text_eq r.method (ascii "POST") ≡ true
    → is_nil (a (identified_request pf r w)).1 ≡ true
    → BindsKey pf r key
    → root_handler pf a handler r new_writer w
      ≡ recover_panic pf r (
          log_access pf (identified_request pf r w) (
            handler key
              (record (identified_request pf r w) {
                principal = some (a (identified_request pf r w)).0;
              })
              (set_header request_id_key (choose_request_id pf r w) new_writer)
              (identified_world r w)))
unfolding root_handler recover_middleware request_id_middleware access_log_middleware
root_handler-submission pf a handler r key w elsewhere submission post ok binds =
    ap (λ out. recover_panic pf r (log_access pf (identified_request pf r w) out))
      (authed_submission pf a handler (identified_request pf r w) key _ _ elsewhere submission post
        ok binds)

-- An accepted caller's POST to /notifications with at most one Idempotency-Key value, which binds,
-- goes through the stack and the handler without a panic: one response with a documented status and
-- one body is sent, and exactly one submission is counted, under the label of that status.
pub root_handler-Answers :
    {P : Type 0} (pf : Platform P) (a : Authenticator) (pk : Packages) (cs : Codecs)
    (h : Handlers P) (r : Request) (key : Option Text) (w : ServerWorld P)
    → text_eq r.path (ascii "/healthz") ≡ false
    → text_eq r.path (ascii "/notifications") ≡ true
    → text_eq r.method (ascii "POST") ≡ true
    → is_nil (a (identified_request pf r w)).1 ≡ true
    → BindsKey pf r key
    → Answers w.writer.instruments.writer_submissions
        (root_handler pf a (submit_notification pk cs h) r new_writer w)
unfolding set_header
root_handler-Answers pf a pk cs h r key w elsewhere submission post ok binds =
    rw
      (root_handler-submission pf a (submit_notification pk cs h) r key w elsewhere submission post
        ok binds)
      (recorded_Answers pf _ _ _ _ (elim (Bool-cases (null (get_header request_id_key r))) [
        | inl generated ↦ rw generated (submit_notification-Answers pk cs h key _ _ _ refl)
        | inr own ↦ rw own (submit_notification-Answers pk cs h key _ _ _ refl)
      ]))
