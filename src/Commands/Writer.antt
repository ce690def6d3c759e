-- ===== src/Commands/Writer.antt =====
-- run of cmd/writer/main.go.
use pulsar_notifcation_pipel.Base.{ℕ, List, [], ◌∷◌, Option, some, Text}
use pulsar_notifcation_pipel.Commands.{
  signals, telemetry, deferring, publisher, telemetry_config, acquire, init_telemetry, and_then,
  ensure, Ootel, server_shut_down, Shared, listening, with_value, Trace,
}
use pulsar_notifcation_pipel.GoError.{nil, Error}
use pulsar_notifcation_pipel.Router.Construction.{
  with_address, with_server_logger, with_authenticator, with_handler, new_server,
}
use pulsar_notifcation_pipel.Auth.Bearer.{
  with_tokens_file, authenticate, new_bearer, FileRead, Tokens,
}
use pulsar_notifcation_pipel.Handlers.{Codecs}
use pulsar_notifcation_pipel.Ingest.{Packages, with_publisher, new_ingester, Ingester}
use pulsar_notifcation_pipel.Pulsarlib.{
  given_logger, new_apache_publisher, with_logger, with_encryption_key_names, ProducerMessage,
  file_key_reader, Client, with_encryption_key_reader, apache_publisher, with_topic,
  with_service_url, ConfigOption,
}
use pulsar_notifcation_pipel.Router.{Platform, request_id_from_context}
use pulsar_notifcation_pipel.Message.{Time}
use pulsar_notifcation_pipel.Handlers.Construction.{
  with_request_id_extractor, with_ingester, new_handlers,
}
use pulsar_notifcation_pipel.Logging.{new_logger}
use pulsar_notifcation_pipel.WriterConfig.{key_names, load_writer, WriterConfig}
use pulsar_notifcation_pipel.Pulsarlib.Keys.{load_key_set}

-- What ends the select: the signal, or an error of ListenAndServe that is not ErrServerClosed.
pub data Ending : Type 0 where
  signalled : Ending
  serve_failed : Error → Ending

-- What the function calls outside of the repository, over the state P of the substrate: env.Parse of
-- the configuration, the telemetry packages, files, the Pulsar client and its producer's Send,
-- time.Now and uuid.NewV7, the packages behind the handler, and how serving ends.
pub record WriterEnv (P : Type 0) : Type 0 where
  pub parsed : WriterConfig × Error
  pub shared : Shared
  pub ootel : Ootel
  pub join : Text → Text → Text
  pub quote : Text → Text
  pub read_key : Text → Text × Error
  pub read_tokens : Text → FileRead
  pub pulsar : Client
  pub send : ProducerMessage → P → Error × P
  pub clock_now : ℕ → Time
  pub new_uuid : ℕ → Text × Error
  pub platform : Platform P
  pub packages : Packages
  pub codecs : Codecs
  pub ending : Ending

module _ {P : Type 0} (env : WriterEnv P) where
  -- From the goroutine that serves on.
  unfoldable pub serve_http : Trace
  serve_http = elim env.ending [
    | serve_failed err ↦ (listening ∷ [], err)
    | signalled ↦ (listening ∷ server_shut_down ∷ [], nil)
  ]

  abbrev pub publisher_options : WriterConfig → List ConfigOption
  publisher_options cfg =
      with_service_url env.shared.pulsar_service_url
      ∷ with_topic env.shared.pulsar_topic
      ∷ with_encryption_key_reader (some (file_key_reader env.shared.pulsar_encryption_key_dir))
      ∷ with_encryption_key_names (key_names cfg)
      ∷ with_logger (some given_logger)
      ∷ []

  abbrev pub made_ingester : Option (Ingester P) × Error
  made_ingester =
      new_ingester env.clock_now env.new_uuid
        (with_publisher (some (apache_publisher env.send)) ∷ [])

  -- From the ingester on.
  unfoldable pub build_and_serve : WriterConfig → Tokens → Trace
  build_and_serve cfg tokens = with_value made_ingester λ i.
      with_value
        (new_handlers
          (with_ingester (some i) ∷ with_request_id_extractor (some request_id_from_context) ∷ []))
        λ h.
          with_value
            (new_server env.platform env.packages env.codecs (
              with_handler (some h)
              ∷ with_authenticator (some (authenticate tokens))
              ∷ with_server_logger (some given_logger)
              ∷ with_address cfg.http_addr
              ∷ []))
            λ server. and_then (acquire signals nil) (deferring signals serve_http)

  -- From the key set on.
  unfoldable pub connect_and_serve : WriterConfig → Trace
  connect_and_serve cfg =
      let keys =
        load_key_set env.join env.quote env.read_key env.shared.pulsar_encryption_key_dir
          (key_names cfg) in
      ensure keys.1 (
        with_value (new_bearer env.read_tokens (with_tokens_file cfg.bearer_tokens_file ∷ []))
          λ tokens.
            and_then
              (acquire publisher (new_apache_publisher env.pulsar (publisher_options cfg)).err)
              (deferring publisher (build_and_serve cfg tokens)))

  -- run
  unfoldable pub run_writer : Trace
  run_writer = with_value (load_writer env.parsed []) λ cfg.
      ensure (new_logger env.shared.log_level).1 (
        and_then (init_telemetry env.ootel (telemetry_config env.shared))
          (deferring telemetry (connect_and_serve cfg)))
