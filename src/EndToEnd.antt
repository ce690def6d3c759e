-- ===== src/EndToEnd.antt =====
-- The program's parts put together: a caller of pkg/notificationclient, the stack and the handler of
-- internal/writer/httpserver, the ingester and the publisher, and then the consumer, the dispatcher
-- and a provider of internal/deliverer.
pub mod Requests
pub mod Submission
pub mod Publishing
pub mod Refusal
pub mod Delivery
pub mod Pipeline
pub mod Documents
pub mod Exchange
pub mod Accounting
pub mod Concurrency
use pulsar_notifcation_pipel.Base.{[], ◌∷◌, none, some, inl, ◌≡◌, Text}
use pulsar_notifcation_pipel.GeneratedClient.{Reply, Doer, HttpRequest}
use pulsar_notifcation_pipel.Http.{finished, new_writer, Body, Response, Request, Handler}
use pulsar_notifcation_pipel.Router.{request_id_from_context, root_handler, Platform}
use pulsar_notifcation_pipel.Auth.Bearer.{Tokens, authenticate}
use pulsar_notifcation_pipel.Handlers.{submit_notification, Codecs, ServerWorld}
use pulsar_notifcation_pipel.Ingest.{Ingester, Packages}
use pulsar_notifcation_pipel.GoError.{nil}

-- The authenticator, the handler and the state that the writer's main function puts behind its
-- server, and what net/http does between a client and that server: the path of a URL, the encoding
-- of a body, and the client's Do.
pub record Connection (P : Type 0) : Type 0 where
  pub platform : Platform P
  pub packages : Packages
  pub codecs : Codecs
  pub ingester : Ingester P
  pub tokens : Tokens
  pub path_of : Text → Text
  pub encode_body : Body → Text
  pub doer : Doer (ServerWorld P)

module _ {P : Type 0} (conn : Connection P) where
  -- The writer's handler for a connection.
  abbrev pub writer_handler : Handler (ServerWorld P)
  writer_handler = root_handler conn.platform (authenticate conn.tokens) (
      submit_notification conn.packages conn.codecs
        (record { ingester = conn.ingester; request_id = request_id_from_context }))

  -- A client's request as the server reads it.
  abbrev pub served : HttpRequest → Request
  served r = record {
    method = r.method;
    path = conn.path_of r.url;
    headers = r.headers;
    body = r.body;
    body_err = nil;
    request_id = none;
    principal = none;
  }

  -- Do hands the request to the writer's handler, and where that returns with one body sent, what
  -- comes back has its status and its encoded body.
  abbrev pub IsConnected : Type 0
  IsConnected =
      (r : HttpRequest) (w : ServerWorld P) (response : Response) (b : Body)
      → (writer_handler (served r) new_writer w).0 ≡ finished
      → (writer_handler (served r) new_writer w).1.sent ≡ some response
      → response.bodies ≡ b ∷ []
      → (reply : Reply) × (conn.doer r w ≡ (inl reply, (writer_handler (served r) new_writer w).2))
        × (reply.status ≡ response.status)
        × (reply.body ≡ conn.encode_body b)
        × (reply.body_err ≡ nil)
