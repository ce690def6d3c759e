-- ===== src/Router/Construction.antt =====
-- The constructor of internal/writer/httpserver/router.go.
use pulsar_notifcation_pipel.Base.{apply_all, List, [], ◌∷◌, Option, none, some, Text, ascii}
use pulsar_notifcation_pipel.GoError.{nil, new, Error}
use pulsar_notifcation_pipel.Handlers.{submit_notification, Codecs, ServerWorld, Handlers}
use pulsar_notifcation_pipel.Router.{root_handler, Platform}
use pulsar_notifcation_pipel.Http.{Handler}
use pulsar_notifcation_pipel.Pulsarlib.{effective_logger, Logger}
use pulsar_notifcation_pipel.Ingest.{Packages}
use pulsar_notifcation_pipel.Auth.{Authenticator}

-- Server before its middleware is built; the address is none where the http.Server is nil.
pub record ServerDraft (P : Type 0) : Type 0 where
  pub handler : Option (Handlers P)
  pub authenticator : Option Authenticator
  pub logger : Option Logger
  pub address : Option Text

-- Server: its address, logger and root handler.
pub record Server (P : Type 0) : Type 0 where
  pub address : Text
  pub logger : Logger
  pub root : Handler (ServerWorld P)

abbrev pub ServerOption : Type 0 → Type 0
ServerOption P = ServerDraft P → ServerDraft P

module _ {P : Type 0} where
  unfoldable pub with_handler : Option (Handlers P) → ServerOption P
  with_handler h s = record s { handler = h }

  unfoldable pub with_authenticator : Option Authenticator → ServerOption P
  with_authenticator a s = record s { authenticator = a }

  unfoldable pub with_server_logger : Option Logger → ServerOption P
  with_server_logger l s = record s { logger = l }

  unfoldable pub with_address : Text → ServerOption P
  with_address addr s = record s { address = some addr }

  -- The checks of NewServer behind the first two, and the server.
  unfoldable pub build_server :
      Platform P
      → Packages
      → Codecs
      → Handlers P
      → Authenticator
      → ServerDraft P
      → Option (Server P) × Error
  build_server pf pk cs h a s = elim s.address [
    | none ↦ (none, new (ascii "httpserver: WithAddress is required"))
    | some [] ↦ (none, new (ascii "httpserver: WithAddress is required"))
    | some (c ∷ addr) ↦ (
      some (record {
        address = c ∷ addr;
        logger = effective_logger s.logger;
        root = root_handler pf a (submit_notification pk cs h);
      }),
      nil,
    )
  ]

  -- NewServer
  unfoldable pub new_server :
      Platform P → Packages → Codecs → List (ServerOption P) → Option (Server P) × Error
  new_server pf pk cs opts =
      let s : ServerDraft P =
        apply_all opts
          (record { handler = none; authenticator = none; logger = none; address = none }) in
      elim s.handler [
        | none ↦ (none, new (ascii "httpserver: WithHandler is required"))
        | some h ↦ elim s.authenticator [
          | none ↦ (none, new (ascii "httpserver: WithAuthenticator is required"))
          | some a ↦ build_server pf pk cs h a s
        ]
      ]
