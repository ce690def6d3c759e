-- ===== src/GeneratedServer/Binding.antt =====
-- What the wrapper of internal/writer/httpserver/server.gen.go does with the Idempotency-Key header, and
-- how the router that Handler makes answers.
use pulsar_notifcation_pipel.Base.{
  arith, ◌∙◌, ascii, ◌+◌, length, apply_all, List, [], ◌∷◌, Option, none, some, inl, inr, refl, ◌≡◌,
  Text, ◌⊎◌,
}
use pulsar_notifcation_pipel.GeneratedServer.Params.{
  param_error_text, invalid_param_format_error, ParamError, too_many_values_for_param_error,
}
use pulsar_notifcation_pipel.GeneratedServer.Serving.{http_error-sent_status, sent_status}
use pulsar_notifcation_pipel.GeneratedServer.Wrapper.{
  bad_request, Route, ServerInterface, handler_with_options, Mux, new_handler, report,
  idempotency_key_header, wrapped_submit_notification, ServerInterfaceWrapper,
}
use pulsar_notifcation_pipel.Http.{finished, new_writer, Handler, Request, Exit, ResponseWriter}
use pulsar_notifcation_pipel.GoError.{nil, nil-cases, Error}
use pulsar_notifcation_pipel.Base.Dict.{lookup}
use pulsar_notifcation_pipel.GeneratedServer.{SubmitNotificationParams}

module _ (bind_parameter : Text → Text × Error) where
  -- The parameters of a request: it has no Idempotency-Key header, or one value that binds.
  abbrev pub Binds : Request → SubmitNotificationParams → Type 0
  Binds r params =
      ((lookup idempotency_key_header r.headers ≡ none) × (params.idempotency_key ≡ none))
      ⊎ ((value : Text) × (key : Text) × (lookup idempotency_key_header r.headers
            ≡ some (value ∷ []))
          × (bind_parameter value ≡ (key, nil))
          × (params.idempotency_key ≡ some key))

  module _ {W : Type 0} (siw : ServerInterfaceWrapper W) (r : Request) (writer : ResponseWriter)
      (w : W) where
    abbrev wrapped : Exit × ResponseWriter × W
    wrapped = wrapped_submit_notification bind_parameter siw r writer w

    -- The operation ran on bound parameters, or there are none and the error handler was called.
    abbrev pub IsRunOrReported : Type 0
    IsRunOrReported =
        ((params : SubmitNotificationParams) × Binds r params
          × (wrapped ≡ apply_all siw.handler_middlewares (siw.handler params) r writer w))
        ⊎ ((err : ParamError) × ((params : SubmitNotificationParams) → ¬ Binds r params)
            × (wrapped ≡ report siw.error_handler_func err r writer w))

    bound_value :
        (value : Text)
        → lookup idempotency_key_header r.headers ≡ some (value ∷ [])
        → IsRunOrReported
    unfolding wrapped_submit_notification
    bound_value value sent = elim (nil-cases (bind_parameter value).1) [
      | inl fine ↦ inl (
        record { idempotency_key = some (bind_parameter value).0 },
        inr (value, (bind_parameter value).0, sent, λ i. ((bind_parameter value).0, fine i), refl),
        rw (sent, fine, wrapped_submit_notification) refl,
      )
      | inr bad ↦ inr (
        invalid_param_format_error idempotency_key_header (bind_parameter value).1,
        λ params binds. ground (arith, sent, bad, binds),
        rw (sent, bad, wrapped_submit_notification) refl,
      )
    ]

    by_values :
        (found : Option (List Text))
        → lookup idempotency_key_header r.headers ≡ found
        → IsRunOrReported
    unfolding wrapped_submit_notification
    by_values none e =
        inl (
          record { idempotency_key = none },
          inl (e, refl),
          rw (e, wrapped_submit_notification) refl,
        )
    by_values (some []) e = inr (
      too_many_values_for_param_error idempotency_key_header 0,
      λ params binds. ground (arith, e, binds),
      rw (e, wrapped_submit_notification) refl,
    )
    by_values (some (value ∷ [])) e = bound_value value e
    by_values (some (value ∷ value' ∷ values)) e = inr (
      too_many_values_for_param_error idempotency_key_header (length values + 2),
      λ params binds. ground (arith, e, binds),
      rw (e, wrapped_submit_notification) refl,
    )

    -- The operation runs on bound parameters, or the error handler answers where there are none.
    pub wrapped_submit_notification-IsRunOrReported : IsRunOrReported
    wrapped_submit_notification-IsRunOrReported = by_values _ refl

  -- The router serves a route for POST /notifications, where it is the only one, by its handler.
  abbrev pub ServesRoute : {W : Type 0} → (Mux W → Handler W) → Type 0
  ServesRoute {W} serve =
      (route : Route W) (r : Request)
      → route.path ≡ ascii "/notifications"
      → route.method ≡ ascii "POST"
      → r.path ≡ route.path
      → r.method ≡ route.method
      → (writer : ResponseWriter) (w : W) → serve (route ∷ []) r writer w ≡ route.handler r writer w

  -- The handler that Handler makes, for a POST to /notifications under a router that serves its one
  -- route: either the request binds to parameters (it has no Idempotency-Key header, or one value
  -- that binds), and it does what the operation does with them; or it binds to none, and it answers
  -- 400, without a panic, and the operation does not run.
  pub new_handler-answers :
      {W : Type 0} (serve : Mux W → Handler W) (si : ServerInterface W) (r : Request) (w : W)
      → ServesRoute serve
      → r.path ≡ ascii "/notifications"
      → r.method ≡ ascii "POST"
      → let answered = serve (new_handler bind_parameter si) r new_writer w in
        ((params : SubmitNotificationParams) × Binds r params
          × (answered ≡ si params r new_writer w))
        ⊎ (((params : SubmitNotificationParams) → ¬ Binds r params)
            × (answered.0 ≡ finished)
            × (answered.2 ≡ w)
            × (sent_status answered.1.sent ≡ some 400))
  unfolding new_handler handler_with_options report
  new_handler-answers serve si r w serves path method =
      let siw : ServerInterfaceWrapper _ = record {
        handler = si;
        handler_middlewares = [];
        error_handler_func = some bad_request;
      } in
      let route : Route _ = record {
        path = ascii "/notifications";
        method = ascii "POST";
        handler = wrapped_submit_notification bind_parameter siw;
      } in
      let served = serves route r refl refl path method new_writer w in
      elim (wrapped_submit_notification-IsRunOrReported siw r new_writer w) [
        | inl (params, binds, run) ↦ inl (params, binds, served ∙ run)
        | inr (err, unbound, reported) ↦ inr (
            rw (served ∙ reported)
              (unbound, refl, refl, http_error-sent_status (param_error_text err) 400 new_writer))
      ]
