-- ===== src/Router/Access.antt =====
-- What the whole middleware stack of internal/writer/httpserver/router.go lets through, and what it
-- answers.
use pulsar_notifcation_pipel.Base.{
  Bool-cases, inl, inr, null, refl, ◌++◌, text_eq, ℕ, List, [], ◌∷◌, Option, none, some, true,
  false, arith, ◌≡◌, Text, ascii,
}
use pulsar_notifcation_pipel.GeneratedServer.Wrapper.{report, wrapped_submit_notification}
use pulsar_notifcation_pipel.Router.{
  request_id_key, recover_panic, log_access, wrapped, route, conditional_auth,
  access_log_middleware, request_id_middleware, recover_middleware, request_id_from_context,
  choose_request_id, root_handler, Platform,
}
use pulsar_notifcation_pipel.Problems.{authentication_failed, authentication_required, Problem}
use pulsar_notifcation_pipel.GoError.{err_no_credentials, errors_is, is_nil}
use pulsar_notifcation_pipel.Http.{
  get_header, write_problem, text_body, set_header, write_body, write_header, problem_body,
  finished, new_writer, ResponseWriter, Exit, Request, Handler, Body, Response,
}
use pulsar_notifcation_pipel.Base.Dict.{lookup}
use pulsar_notifcation_pipel.Handlers.{ServerWorld, AccessLine}
use pulsar_notifcation_pipel.Auth.{Authenticator, middleware, failure_request_id}

-- The status and the bodies of what is sent.
abbrev pub sent_of : Option Response → Option (ℕ × List Body)
sent_of none = none
sent_of (some response) = some (response.status, response.bodies)

module _ {P : Type 0} (pf : Platform P) (a : Authenticator)
    (handler : Option Text → Handler (ServerWorld P)) (r : Request) (w : ServerWorld P) where
  -- The request as it is behind the request-identifier middleware.
  abbrev pub identified : Request
  identified = record r { request_id = some (choose_request_id pf r w) }

  abbrev pub answered : Exit × ResponseWriter × ServerWorld P
  answered = root_handler pf a handler r new_writer w

  -- The line that the access log gets for a status.
  abbrev pub access_line : ℕ → AccessLine
  access_line status = record {
    method = r.method;
    path = r.path;
    status = status;
    request_id = choose_request_id pf r w;
  }

  -- No request goes on without an identifier.
  choose_request_id-null : null (choose_request_id pf r w) ≡ false
  unfolding choose_request_id ascii
  choose_request_id-null = elim (Bool-cases (null (get_header request_id_key r))) [
    | inl generated ↦ elim (Bool-cases (is_nil (pf.new_uuid w.generated_ids).1)) [
      | inl fresh ↦ rw (generated, fresh) refl
      | inr failed ↦ rw (generated, failed) refl
    ]
    | inr own ↦ rw (own) own
  ]

  failure_request_id_lem :
      failure_request_id (some request_id_from_context) identified ≡ choose_request_id pf r w
  unfolding failure_request_id request_id_from_context
  failure_request_id_lem = rw (choose_request_id-null) refl

  -- A caller whom the authenticator does not accept gets a 401 problem under the request's identifier
  -- on every path but /healthz, and a line in the access log; whatever the handler is, the
  -- writer's state stays as it was.
  pub root_handler_rejects :
      text_eq r.path (ascii "/healthz") ≡ false
      → is_nil (a identified).1 ≡ false
      → (answered.0 ≡ finished)
        × (answered.2.writer ≡ w.writer)
        × (answered.2.access_log ≡ w.access_log ++ access_line 401 ∷ [])
        × ((p : Problem) × (p.status ≡ 401)
            × (p.request_id ≡ choose_request_id pf r w)
            × (sent_of answered.1.sent ≡ some (401, problem_body p ∷ [])))
  unfolding root_handler recover_middleware request_id_middleware access_log_middleware
      conditional_auth middleware log_access recover_panic write_problem write_header write_body
      set_header request_id_from_context authentication_required authentication_failed
  root_handler_rejects elsewhere bad =
      let rid = failure_request_id (some request_id_from_context) identified in
      elim (Bool-cases (errors_is (a identified).1 err_no_credentials)) [
        | inl missing ↦ (
          ground arith,
          ground arith,
          ground arith,
          (authentication_required rid r.path, refl, failure_request_id_lem, ground arith),
        )
        | inr wrong ↦ (
          ground arith,
          ground arith,
          ground arith,
          (authentication_failed rid r.path, refl, failure_request_id_lem, ground arith),
        )
      ]

  -- The probe /healthz answers 204 with no body, whatever the authenticator says and whatever the
  -- handler is.
  pub root_handler_healthz :
      text_eq r.path (ascii "/healthz") ≡ true
      → (answered.0 ≡ finished)
        × (answered.2.writer ≡ w.writer)
        × (sent_of answered.1.sent ≡ some (204, []))
  unfolding root_handler recover_middleware request_id_middleware access_log_middleware
      conditional_auth route log_access recover_panic write_header set_header
  root_handler_healthz probe = ground arith

  -- An accepted caller's POST to /notifications that has two or more Idempotency-Key values gets
  -- a 500 with a text body, which is no problem document; the handler is not run, no line of
  -- the access log is written, and the line for the panic has the identifier of the request as it
  -- came in, which is not the one sent in the response's headers.
  pub root_handler-two_keys :
      (v v' : Text) (vs : List Text)
      → text_eq r.path (ascii "/healthz") ≡ false
      → text_eq r.path (ascii "/notifications") ≡ true
      → text_eq r.method (ascii "POST") ≡ true
      → is_nil (a identified).1 ≡ true
      → lookup (ascii "Idempotency-Key") r.headers ≡ some (v ∷ v' ∷ vs)
      → (answered.0 ≡ finished)
        × (answered.2.writer ≡ w.writer)
        × (answered.2.access_log ≡ w.access_log)
        × (answered.2.panic_log ≡ w.panic_log ++ (r.path, request_id_from_context r) ∷ [])
        × (sent_of answered.1.sent
            ≡ some (500, text_body (ascii "internal server error" ++ 10 ∷ []) ∷ []))
  unfolding root_handler recover_middleware request_id_middleware access_log_middleware
      conditional_auth route wrapped wrapped_submit_notification report middleware log_access
      recover_panic write_header write_body set_header
  root_handler-two_keys v v' vs elsewhere submission post ok keys = ground arith
