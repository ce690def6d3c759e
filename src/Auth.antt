-- ===== src/Auth.antt =====
-- internal/writer/auth/auth.go: the authenticator interface, its middleware, and bearer tokens.
pub mod Bearer
pub mod Gate
pub mod Tokens
use pulsar_notifcation_pipel.Base.{
  apply_all, List, drop, trim_space, has_prefix, null, if◌then◌else◌, [], Option, none, some, Text,
  ascii,
}
use pulsar_notifcation_pipel.Problems.{authentication_failed, authentication_required}
use pulsar_notifcation_pipel.Http.{write_problem, finished, get_header, Request, Handler, Principal}
use pulsar_notifcation_pipel.GoError.{err_no_credentials, errors_is, is_nil, Error}

-- The principal and the error of Authenticate.
abbrev pub Authenticator : Type 0
Authenticator = Request → Principal × Error

-- FromContext: `none` where no principal is attached.
abbrev pub from_context : Request → Option Principal
from_context r = r.principal

abbrev pub anonymous : Principal
anonymous = record { service_name = [] }

-- The request ID of an auth failure: the extractor's, or else the header's.
unfoldable pub failure_request_id : Option (Request → Text) → Request → Text
failure_request_id none r = get_header (ascii "X-Request-Id") r
failure_request_id (some extract) r =
    if null (extract r) then get_header (ascii "X-Request-Id") r else extract r

-- The handler that Middleware returns, with the extractor that its options leave.
unfoldable pub middleware :
    {W : Type 0} → Authenticator → Handler W → Option (Request → Text) → Handler W
middleware a next extract r rw w =
    let (p, err) = a r in
    let rid = failure_request_id extract r in
    if is_nil err
    then next (record r { principal = some p }) rw w
    else if errors_is err err_no_credentials
    then (finished, write_problem (authentication_required rid r.path) rw, w)
    else (finished, write_problem (authentication_failed rid r.path) rw, w)

pub record MiddlewareOptions : Type 0 where
  pub request_id : Option (Request → Text)

abbrev pub MiddlewareOption : Type 0
MiddlewareOption = MiddlewareOptions → MiddlewareOptions

abbrev pub with_request_id_func : (Request → Text) → MiddlewareOption
with_request_id_func fn o = record o { request_id = some fn }

-- Middleware, which applies the options to a zero value.
abbrev pub middleware_with :
    {W : Type 0} → Authenticator → Handler W → List MiddlewareOption → Handler W
middleware_with a next opts =
    middleware a next (apply_all opts (record { request_id = none })).request_id

abbrev pub bearer_prefix : Text
bearer_prefix = ascii "Bearer "

-- BearerToken
unfoldable pub bearer_token : Request → Text
bearer_token r =
    let h = get_header (ascii "Authorization") r in
    if has_prefix h bearer_prefix then trim_space (drop 7 h) else []
