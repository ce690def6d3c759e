-- ===== src/GeneratedServer/Wrapper.antt =====
-- internal/writer/httpserver/server.gen.go: the wrapper that binds the parameters of a request, and
-- the registration of the operation with a router. The scopes that the wrapper puts into the
-- context are read by nobody and left out.
use pulsar_notifcation_pipel.Base.{
  ◌+◌, length, if◌then◌else◌, apply_all, ◌++◌, List, [], ◌∷◌, Option, none, some, Text, ascii,
}
use pulsar_notifcation_pipel.GeneratedServer.Params.{
  invalid_param_format_error, param_error_text, too_many_values_for_param_error, ParamError,
}
use pulsar_notifcation_pipel.GoError.{is_nil, Error}
use pulsar_notifcation_pipel.Base.Dict.{lookup}
use pulsar_notifcation_pipel.Http.{http_error, finished, panicked, Handler}
use pulsar_notifcation_pipel.GeneratedServer.{SubmitNotificationParams}

-- A func(w, r, err) that may be nil.
abbrev pub ErrorHandler : (E W : Type 0) → Type 0
ErrorHandler E W = Option (E → Handler W)

-- ServerInterface
abbrev pub ServerInterface : Type 0 → Type 0
ServerInterface W = SubmitNotificationParams → Handler W

abbrev pub MiddlewareFunc : Type 0 → Type 0
MiddlewareFunc W = Handler W → Handler W

pub record ServerInterfaceWrapper (W : Type 0) : Type 0 where
  pub handler : ServerInterface W
  pub handler_middlewares : List (MiddlewareFunc W)
  pub error_handler_func : ErrorHandler ParamError W

-- A route of the mux: HandleFunc(path, handler).Methods(method).
pub record Route (W : Type 0) : Type 0 where
  pub path : Text
  pub method : Text
  pub handler : Handler W

-- The routes that were registered, oldest first.
abbrev pub Mux : Type 0 → Type 0
Mux W = List (Route W)

pub record GorillaServerOptions (W : Type 0) : Type 0 where
  pub base_url : Text
  pub base_router : Option (Mux W)
  pub middlewares : List (MiddlewareFunc W)
  pub error_handler_func : ErrorHandler ParamError W

abbrev pub idempotency_key_header : Text
idempotency_key_header = ascii "Idempotency-Key"

module _ {W : Type 0} where
  -- The call of an error handler: of a nil one it panics.
  unfoldable pub report : {E : Type 0} → ErrorHandler E W → E → Handler W
  report none err r rw w = (panicked, rw, w)
  report (some handle) err r rw w = handle err r rw w

  -- ServerInterfaceWrapper.SubmitNotification; `bind_parameter` is the runtime's
  -- BindStyledParameterWithOptions for a header of type string.
  unfoldable pub wrapped_submit_notification :
      (bind_parameter : Text → Text × Error) → ServerInterfaceWrapper W → Handler W
  unfolding report
  wrapped_submit_notification bind_parameter siw r rw w =
      let handle = λ (params : SubmitNotificationParams).
        apply_all siw.handler_middlewares (siw.handler params) r rw w in
      elim (lookup idempotency_key_header r.headers) [
        | none ↦ handle (record { idempotency_key = none })
        | some [] ↦
            report siw.error_handler_func (too_many_values_for_param_error idempotency_key_header 0)
              r rw w
        | some (value ∷ []) ↦
            let (key, err) = bind_parameter value in
            if is_nil err
            then handle (record { idempotency_key = some key })
            else report siw.error_handler_func
                (invalid_param_format_error idempotency_key_header err) r rw w
        | some (value ∷ value' ∷ values) ↦
            report siw.error_handler_func
              (too_many_values_for_param_error idempotency_key_header (length values + 2)) r rw w
      ]

  -- The ErrorHandlerFunc that HandlerWithOptions puts in: http.Error with status 400.
  abbrev pub bad_request : ParamError → Handler W
  bad_request err r rw w = (finished, http_error (param_error_text err) 400 rw, w)

  abbrev pub or_bad_request : ErrorHandler ParamError W → ErrorHandler ParamError W
  or_bad_request none = some bad_request
  or_bad_request (some handle) = some handle

  abbrev pub or_new_router : Option (Mux W) → Mux W
  or_new_router none = []
  or_new_router (some routes) = routes

  unfoldable pub handler_with_options :
      (bind_parameter : Text → Text × Error) → ServerInterface W → GorillaServerOptions W → Mux W
  handler_with_options bind_parameter si options =
      let wrapper : ServerInterfaceWrapper W = record {
        handler = si;
        handler_middlewares = options.middlewares;
        error_handler_func = or_bad_request options.error_handler_func;
      } in
      or_new_router options.base_router
      ++ record {
        path = options.base_url ++ ascii "/notifications";
        method = ascii "POST";
        handler = wrapped_submit_notification bind_parameter wrapper;
      }
        ∷ []

  abbrev pub no_options : GorillaServerOptions W
  no_options = record {
    base_url = [];
    base_router = none;
    middlewares = [];
    error_handler_func = none;
  }

  -- Handler, which would have the name of the type of handlers here.
  unfoldable pub new_handler : (bind_parameter : Text → Text × Error) → ServerInterface W → Mux W
  new_handler bind_parameter si = handler_with_options bind_parameter si no_options

  unfoldable pub handler_from_mux :
      (bind_parameter : Text → Text × Error) → ServerInterface W → Mux W → Mux W
  handler_from_mux bind_parameter si routes =
      handler_with_options bind_parameter si (record no_options { base_router = some routes })

  unfoldable pub handler_from_mux_with_base_url :
      (bind_parameter : Text → Text × Error) → ServerInterface W → Mux W → (base_url : Text) → Mux W
  handler_from_mux_with_base_url bind_parameter si routes base_url =
      handler_with_options bind_parameter si
        (record no_options { base_url = base_url; base_router = some routes })
