-- ===== src/Commands/Deliverer.antt =====
-- run of cmd/deliverer/main.go. The pool of workers is that of Workers; here it stands as its start
-- and its end.
use pulsar_notifcation_pipel.Base.{List, [], ◌∷◌, Option, some, Text, ascii}
use pulsar_notifcation_pipel.Pulsarlib.{
  new_apache_consumer, given_logger, with_logger, file_key_reader, with_encryption_key_reader,
  Client, with_subscription, with_topic, with_service_url, ConfigOption,
}
use pulsar_notifcation_pipel.Commands.{
  reader, signals, telemetry, acquire, deferring, telemetry_config, init_telemetry, and_then, Ootel,
  ensure, Shared, workers_done, spawned, with_value, Trace,
}
use pulsar_notifcation_pipel.GoError.{nil, Error}
use pulsar_notifcation_pipel.DelivererConfig.{
  build_provider, Backend, load_deliverer, DelivererConfig,
}
use pulsar_notifcation_pipel.Consumer.Construction.{
  with_consumer_logger, with_consumer_recorder, with_dispatcher, with_reader, new_consumer,
}
use pulsar_notifcation_pipel.Dispatcher.{
  with_retry_policy, Runtime, slog_recorder, with_recorder, with_provider, new_dispatcher,
  Dispatcher,
}
use pulsar_notifcation_pipel.Retry.{
  with_max_backoff, with_initial_backoff, with_max_attempts, new_policy, Policy,
}
use pulsar_notifcation_pipel.Logging.{new_logger}
use pulsar_notifcation_pipel.Provider.{PushProvider}

-- What the function calls outside of the repository: env.Parse of the configuration, the telemetry
-- packages, the %q verb, the Pulsar client, and the runtime behind the dispatcher. `as_provider` is
-- the interface value of the provider that was built, over the state S of its remote service.
pub record DelivererEnv (S : Type 0) : Type 0 where
  pub parsed : DelivererConfig × Error
  pub shared : Shared
  pub ootel : Ootel
  pub quote : Text → Text
  pub pulsar : Client
  pub runtime : Runtime
  pub as_provider : Backend → PushProvider S

module _ {S : Type 0} (env : DelivererEnv S) where
  abbrev pub consumer_options : DelivererConfig → List ConfigOption
  consumer_options cfg =
      with_service_url env.shared.pulsar_service_url
      ∷ with_topic env.shared.pulsar_topic
      ∷ with_subscription cfg.pulsar_subscription
      ∷ with_encryption_key_reader (some (file_key_reader env.shared.pulsar_encryption_key_dir))
      ∷ with_logger (some given_logger)
      ∷ []

  abbrev pub retry_policy : DelivererConfig → Policy
  retry_policy cfg = new_policy env.runtime.rand (
      with_max_attempts cfg.retry_max_attempts
      ∷ with_initial_backoff cfg.retry_initial_backoff
      ∷ with_max_backoff cfg.retry_max_backoff
      ∷ [])

  -- The dispatcher for a provider.
  abbrev pub made_dispatcher : DelivererConfig → PushProvider S → Option (Dispatcher S) × Error
  made_dispatcher cfg push = new_dispatcher env.runtime (
      with_provider (ascii "pushover") push
      ∷ with_recorder (some slog_recorder)
      ∷ with_retry_policy (retry_policy cfg)
      ∷ [])

  -- From the spawning of the workers to the return of wg.Wait.
  unfoldable pub run_workers : DelivererConfig → Trace
  run_workers cfg = (spawned cfg.concurrency ∷ workers_done ∷ [], nil)

  -- From the dispatcher on.
  unfoldable pub build_and_run : DelivererConfig → PushProvider S → Trace
  build_and_run cfg push = with_value (made_dispatcher cfg push) λ disp.
      with_value
        (new_consumer (
          with_reader
          ∷ with_dispatcher (some disp)
          ∷ with_consumer_recorder (some slog_recorder)
          ∷ with_consumer_logger (some given_logger)
          ∷ []))
        λ cons. and_then (acquire signals nil) (deferring signals (run_workers cfg))

  -- run
  unfoldable pub run_deliverer : Trace
  run_deliverer = with_value (load_deliverer env.quote env.parsed []) λ cfg.
      ensure (new_logger env.shared.log_level).1 (
        and_then (init_telemetry env.ootel (telemetry_config env.shared)) (
          deferring telemetry (
            with_value (build_provider cfg) λ backend.
              and_then (acquire reader (new_apache_consumer env.pulsar (consumer_options cfg)).err)
                (deferring reader (build_and_run cfg (env.as_provider backend))))))
