-- ===== src/Router.antt =====
-- internal/writer/httpserver/router.go: the middleware stack and the routes, and the wrapper of
-- internal/writer/httpserver/server.gen.go between the route and the handler.
pub mod Access
pub mod Submission
pub mod Accepting
pub mod Balance
pub mod Sessions
pub mod Refusing
pub mod Construction
use pulsar_notifcation_pipel.Base.{
  ◌&&◌, ◌+◌, null, text_eq, ◌++◌, if◌then◌else◌, ℕ, [], ◌∷◌, Option, none, some, Text, ascii,
}
use pulsar_notifcation_pipel.GeneratedServer.Wrapper.{
  ServerInterfaceWrapper, wrapped_submit_notification,
}
use pulsar_notifcation_pipel.Auth.{with_request_id_func, middleware_with, Authenticator}
use pulsar_notifcation_pipel.Http.{
  http_error, set_header, finished, panicked, write_header, Exit, get_header, Request, Handler,
  ResponseWriter,
}
use pulsar_notifcation_pipel.GoError.{is_nil, Error}
use pulsar_notifcation_pipel.Handlers.{ServerWorld}

-- The router package's answer where neither route matches, the request identifiers that uuid.NewV7
-- gives, and the binding of a header value to a string parameter with its error.
pub record Platform (P : Type 0) : Type 0 where
  pub not_routed : Handler (ServerWorld P)
  pub new_uuid : ℕ → Text × Error
  pub bind_parameter : Text → Text × Error

abbrev pub request_id_key : Text
request_id_key = ascii "X-Request-Id"

-- RequestIDFromContext
unfoldable pub request_id_from_context : Request → Text
request_id_from_context r = elim r.request_id [ none ↦ [] | some rid ↦ rid ]

module _ {P : Type 0} (pf : Platform P) where
  -- The wrapper that NewServer makes, with no ErrorHandlerFunc.
  abbrev pub wrapper :
      (Option Text → Handler (ServerWorld P)) → ServerInterfaceWrapper (ServerWorld P)
  wrapper handler = record {
    handler = λ params. handler params.idempotency_key;
    handler_middlewares = [];
    error_handler_func = none;
  }

  unfoldable pub wrapped : (Option Text → Handler (ServerWorld P)) → Handler (ServerWorld P)
  wrapped handler = wrapped_submit_notification pf.bind_parameter (wrapper handler)

  -- The two routes of the mux.
  unfoldable pub route : (Option Text → Handler (ServerWorld P)) → Handler (ServerWorld P)
  route handler r rw w =
      if text_eq r.path (ascii "/healthz")
      then (finished, write_header 204 rw, w)
      else if text_eq r.path (ascii "/notifications") && text_eq r.method (ascii "POST")
      then wrapped handler r rw w
      else pf.not_routed r rw w

  unfoldable pub conditional_auth : (raw authed : Handler (ServerWorld P)) → Handler (ServerWorld P)
  conditional_auth raw authed r rw w =
      if text_eq r.path (ascii "/healthz") then raw r rw w else authed r rw w

  -- The request's own identifier, or a generated one.
  unfoldable pub choose_request_id : Request → ServerWorld P → Text
  choose_request_id r w =
      let own = get_header request_id_key r in
      let (u, err) = pf.new_uuid w.generated_ids in
      if null own then if is_nil err then ascii "req_" ++ u else ascii "req_unknown" else own

  unfoldable pub request_id_middleware : Handler (ServerWorld P) → Handler (ServerWorld P)
  request_id_middleware next r rw w =
      let rid = choose_request_id r w in
      let w' =
        if null (get_header request_id_key r)
        then record w { generated_ids = w.generated_ids + 1 }
        else w in
      next (record r { request_id = some rid }) (set_header request_id_key rid rw) w'

  -- The status that the capture holds: the first one sent, or 200.
  abbrev pub captured : ResponseWriter → ℕ
  captured rw = elim rw.sent [ none ↦ 200 | some r ↦ r.status ]

  -- What follows next.ServeHTTP: a panic goes on past the log line.
  unfoldable pub log_access :
      Request → Exit × ResponseWriter × ServerWorld P → Exit × ResponseWriter × ServerWorld P
  log_access r (finished, rw, w) = (
    finished,
    rw,
    record w {
      access_log =
          w.access_log
          ++ record {
            method = r.method;
            path = r.path;
            status = captured rw;
            request_id = request_id_from_context r;
          }
            ∷ [];
    },
  )
  log_access r (panicked, rw, w) = (panicked, rw, w)

  unfoldable pub access_log_middleware : Handler (ServerWorld P) → Handler (ServerWorld P)
  access_log_middleware next r rw w = log_access r (next r rw w)

  -- The deferred function: it logs a panic and answers it.
  unfoldable pub recover_panic :
      Request → Exit × ResponseWriter × ServerWorld P → Exit × ResponseWriter × ServerWorld P
  recover_panic r (finished, rw, w) = (finished, rw, w)
  recover_panic r (panicked, rw, w) = (
    finished,
    http_error (ascii "internal server error") 500 rw,
    record w { panic_log = w.panic_log ++ (r.path, request_id_from_context r) ∷ [] },
  )

  unfoldable pub recover_middleware : Handler (ServerWorld P) → Handler (ServerWorld P)
  recover_middleware next r rw w = recover_panic r (next r rw w)

  -- The chain that NewServer builds: recover, request identifier, log, auth, route.
  unfoldable pub root_handler :
      Authenticator → (Option Text → Handler (ServerWorld P)) → Handler (ServerWorld P)
  root_handler a handler = recover_middleware (
      request_id_middleware (
        access_log_middleware (
          conditional_auth (route handler) (
            middleware_with a (route handler)
              (with_request_id_func request_id_from_context ∷ [])))))
