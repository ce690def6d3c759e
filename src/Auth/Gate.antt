-- ===== src/Auth/Gate.antt =====
-- Who passes the middleware of internal/writer/auth/auth.go.
use pulsar_notifcation_pipel.Http.Writing.{write_problem-sent}
use pulsar_notifcation_pipel.Base.{
  Bool-cases, [], ◌∷◌, inl, inr, refl, ascii, if◌then◌else◌, Option, none, some, true, false, ◌≡◌,
  Text,
}
use pulsar_notifcation_pipel.Http.{problem_body, content_type_key, Handler, ResponseWriter}
use pulsar_notifcation_pipel.Base.Dict.{insert}
use pulsar_notifcation_pipel.Problems.{
  authentication_failed, authentication_required, type_authentication_failed,
  type_authentication_required, Problem,
}
use pulsar_notifcation_pipel.Auth.{failure_request_id, Request, Authenticator, middleware}
use pulsar_notifcation_pipel.GoError.{err_no_credentials, errors_is, is_nil}

module _ {W : Type 0} (a : Authenticator) (next : Handler W) (extract : Option (Request → Text))
    (r : Request) (writer : ResponseWriter) (w : W) where
  -- Where the authenticator returns no error, the middleware is the next handler, on the request with
  -- the authenticator's principal attached.
  pub middleware_passes :
      is_nil (a r).1 ≡ true
      → middleware a next extract r writer w ≡ next (record r { principal = some (a r).0 }) writer w
  unfolding middleware
  middleware_passes ok = rw (ok) refl

  -- Where it returns an error, and nothing is sent yet, one 401 problem is sent; its type says
  -- whether credentials were missing or not accepted. The state stays as it was, whatever the next
  -- handler would do.
  pub middleware_rejects :
      is_nil (a r).1 ≡ false
      → writer.sent ≡ none
      → (p : Problem) × (p.status ≡ 401)
        × (p.type_uri ≡ (
            if errors_is (a r).1 err_no_credentials
            then type_authentication_required
            else type_authentication_failed))
        × (p.request_id ≡ failure_request_id extract r)
        × ((middleware a next extract r writer w).1.sent
            ≡ some (record {
              status = 401;
              headers = insert content_type_key (ascii "application/problem+json") writer.headers;
              bodies = problem_body p ∷ [];
            }))
        × ((middleware a next extract r writer w).2 ≡ w)
  unfolding middleware authentication_required authentication_failed
  middleware_rejects bad unsent = elim (Bool-cases (errors_is (a r).1 err_no_credentials)) [
    | inl missing ↦
        rw (bad, missing)
          (
            authentication_required (failure_request_id extract r) r.path,
            refl,
            refl,
            refl,
            write_problem-sent (authentication_required (failure_request_id extract r) r.path)
                writer unsent,
            refl,
          )
    | inr wrong ↦
        rw (bad, wrong)
          (
            authentication_failed (failure_request_id extract r) r.path,
            refl,
            refl,
            refl,
            write_problem-sent (authentication_failed (failure_request_id extract r) r.path) writer
                unsent,
            refl,
          )
  ]
