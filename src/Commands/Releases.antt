-- ===== src/Commands/Releases.antt =====
-- What the run functions of cmd/writer/main.go and cmd/deliverer/main.go release on each way out.
use pulsar_notifcation_pipel.Base.{
  ◌∙◌, Bool-cases, sym, ap, ◌++◌, inl, inr, refl, arith, if◌then◌else◌, List, [], ◌∷◌, Option, none,
  some, Bool, true, false, ◌≡◌,
}
use pulsar_notifcation_pipel.Router.Construction.{
  with_address, with_server_logger, with_authenticator, with_handler, new_server,
}
use pulsar_notifcation_pipel.Auth.Bearer.{with_tokens_file, authenticate, Tokens, new_bearer}
use pulsar_notifcation_pipel.Pulsarlib.{given_logger, new_apache_consumer, new_apache_publisher}
use pulsar_notifcation_pipel.Consumer.Construction.{
  with_consumer_logger, with_consumer_recorder, with_dispatcher, with_reader, new_consumer,
}
use pulsar_notifcation_pipel.Dispatcher.{slog_recorder}
use pulsar_notifcation_pipel.Router.{request_id_from_context}
use pulsar_notifcation_pipel.Handlers.Construction.{
  with_request_id_extractor, with_ingester, new_handlers,
}
use pulsar_notifcation_pipel.Commands.Writer.{
  made_ingester, publisher_options, signalled, serve_failed, Ending, build_and_serve, WriterEnv,
  connect_and_serve, run_writer, serve_http,
}
use pulsar_notifcation_pipel.Commands.Deliverer.{
  made_dispatcher, consumer_options, DelivererEnv, build_and_run, run_deliverer, run_workers,
}
use pulsar_notifcation_pipel.DelivererConfig.{build_provider, load_deliverer, DelivererConfig}
use pulsar_notifcation_pipel.Provider.{PushProvider}
use pulsar_notifcation_pipel.WriterConfig.{WriterConfig, load_writer}
use pulsar_notifcation_pipel.Commands.{
  telemetry_config, TelemetryConfig, Ootel, acquire, deferring, ensure, with_value, and_then,
  init_telemetry, telemetry, publisher, reader, signals, opened, closed, listening,
  server_shut_down, spawned, workers_done, Event, Resource, Trace,
}
use pulsar_notifcation_pipel.GoError.{nil, Error, is_nil}
use mathlib.Core.Bool.{true≢false}
use mathlib.Core.Option.{some-ne-none}

abbrev same_resource : Resource → Resource → Bool
same_resource telemetry telemetry = true
same_resource publisher publisher = true
same_resource reader reader = true
same_resource signals signals = true
same_resource _ _ = false

-- The resources that are held after the events, the last one first; none where one is released that
-- is not the last one held.
unfoldable pub held_after : List Resource → List Event → Option (List Resource)
held_after held [] = some held
held_after held (opened r ∷ events) = held_after (r ∷ held) events
held_after [] (closed r ∷ events) = none
held_after (top ∷ held) (closed r ∷ events) =
    let rest = held_after held events in if same_resource top r then rest else none
held_after held (listening ∷ events) = held_after held events
held_after held (server_shut_down ∷ events) = held_after held events
held_after held (spawned workers ∷ events) = held_after held events
held_after held (workers_done ∷ events) = held_after held events

-- Whatever was held before a trace is held after it.
record Unwinds (t : Trace) : Type 0 where
  unwinds : (held : List Resource) → held_after held t.0 ≡ some held

-- A trace that leaves one resource more, if it has no error.
record Gives (r : Resource) (t : Trace) : Type 0 where
  on_error : is_nil t.1 ≡ false → (held : List Resource) → held_after held t.0 ≡ some held
  on_success : is_nil t.1 ≡ true → (held : List Resource) → held_after held t.0 ≡ some (r ∷ held)

held_after-append :
    (xs ys : List Event) (held held' : List Resource)
    → held_after held xs ≡ some held'
    → held_after held (xs ++ ys) ≡ held_after held' ys
unfolding held_after
held_after-append [] ys held held' e = ap (λ o. elim o [ none ↦ none | some h ↦ held_after h ys ]) e
held_after-append (opened r ∷ xs) ys held held' e = held_after-append xs ys (r ∷ held) held' e
held_after-append (closed r ∷ xs) ys [] held' e = absurd (some-ne-none _ (sym e))
held_after-append (closed r ∷ xs) ys (top ∷ held) held' e =
    elim (Bool-cases (same_resource top r)) [
      | inl same ↦ rw same (held_after-append xs ys held held' (rw same at e))
      | inr other ↦ absurd (some-ne-none _ (sym (rw other at e)))
    ]
held_after-append (listening ∷ xs) ys held held' e = held_after-append xs ys held held' e
held_after-append (server_shut_down ∷ xs) ys held held' e = held_after-append xs ys held held' e
held_after-append (spawned n ∷ xs) ys held held' e = held_after-append xs ys held held' e
held_after-append (workers_done ∷ xs) ys held held' e = held_after-append xs ys held held' e

fail-Unwinds : (err : Error) → Unwinds ([], err)
unfolding held_after
fail-Unwinds err = record { unwinds = λ held. refl }

ensure-Unwinds : (err : Error) (t : Trace) → Unwinds t → Unwinds (ensure err t)
ensure-Unwinds err t ok = elim (Bool-cases (is_nil err)) [
  | inl e ↦ rw e ok
  | inr e ↦ rw e (fail-Unwinds err)
]

with_value-Unwinds :
    {A : Type 0} (v : Option A × Error) (rest : A → Trace)
    → ((a : A) → Unwinds (rest a))
    → Unwinds (with_value v rest)
with_value-Unwinds (none, err) rest ok = fail-Unwinds err
with_value-Unwinds (some a, err) rest ok = ensure-Unwinds err (rest a) (ok a)

same_resource_refl : (r : Resource) → same_resource r r ≡ true
same_resource_refl telemetry = refl
same_resource_refl publisher = refl
same_resource_refl reader = refl
same_resource_refl signals = refl

-- A resource whose release is deferred right behind its acquisition is released on every way out.
deferring-Unwinds :
    (r : Resource) (t rest : Trace)
    → Gives r t
    → Unwinds rest
    → Unwinds (and_then t (deferring r rest))
unfolding held_after
deferring-Unwinds r (events, err) (more, last) gives ok = elim (Bool-cases (is_nil err)) [
  | inr e ↦ rw e (record { unwinds = gives.on_error e })
  | inl e ↦ rw e (record {
    unwinds = λ held.
        held_after-append events (more ++ closed r ∷ []) held (r ∷ held) (gives.on_success e held)
        ∙ held_after-append more (closed r ∷ []) (r ∷ held) (r ∷ held) (ok.unwinds (r ∷ held))
        ∙ rw (same_resource_refl r) refl;
  })
]

acquire-Gives : (r : Resource) (err : Error) → Gives r (acquire r err)
unfolding held_after
acquire-Gives r err = elim (Bool-cases (is_nil err)) [
  | inl e ↦
      rw e (record { on_error = λ bad. absurd (true≢false bad); on_success = λ ok held. refl })
  | inr e ↦
      rw e (record {
        on_error = λ bad held. refl;
        on_success = λ ok. absurd (true≢false (sym ok ∙ e));
      })
]

init_telemetry-Gives :
    (ootel : Ootel) (cfg : TelemetryConfig) → Gives telemetry (init_telemetry ootel cfg)
unfolding init_telemetry held_after
init_telemetry-Gives ootel cfg = record {
  on_error = λ bad held. ground arith;
  on_success = λ ok held. ground arith;
}

serve_http-Unwinds : {P : Type 0} (env : WriterEnv P) → Unwinds (serve_http env)
unfolding serve_http held_after
serve_http-Unwinds env = record { unwinds = λ held. by_ending env.ending held }
  where
    by_ending :
        (ending : Ending) (held : List Resource)
        → held_after held
            (elim ending as (λ e. Trace) [
              | serve_failed err ↦ (listening ∷ [], err)
              | signalled ↦ (listening ∷ server_shut_down ∷ [], nil)
            ]).0
          ≡ some held
    by_ending signalled held = refl
    by_ending (serve_failed err) held = refl

run_workers-Unwinds :
    {S : Type 0} (env : DelivererEnv S) (cfg : DelivererConfig) → Unwinds (run_workers env cfg)
unfolding run_workers held_after
run_workers-Unwinds env cfg = record { unwinds = λ held. refl }

module _ {P : Type 0} (env : WriterEnv P) where
  build_and_serve-Unwinds :
      (cfg : WriterConfig) (tokens : Tokens) → Unwinds (build_and_serve env cfg tokens)
  unfolding build_and_serve
  build_and_serve-Unwinds cfg tokens = with_value-Unwinds (made_ingester env) _ λ i.
      with_value-Unwinds
        (new_handlers
          (with_ingester (some i) ∷ with_request_id_extractor (some request_id_from_context) ∷ []))
        _
        λ h.
          with_value-Unwinds
            (new_server env.platform env.packages env.codecs (
              with_handler (some h)
              ∷ with_authenticator (some (authenticate tokens))
              ∷ with_server_logger (some given_logger)
              ∷ with_address cfg.http_addr
              ∷ []))
            _
            λ server.
              deferring-Unwinds signals (acquire signals nil) (serve_http env)
                (acquire-Gives signals nil) (serve_http-Unwinds env)

  connect_and_serve-Unwinds : (cfg : WriterConfig) → Unwinds (connect_and_serve env cfg)
  unfolding connect_and_serve
  connect_and_serve-Unwinds cfg = ensure-Unwinds _ _ (
      with_value-Unwinds (new_bearer env.read_tokens (with_tokens_file cfg.bearer_tokens_file ∷ []))
        _
        λ tokens.
          deferring-Unwinds publisher
            (acquire publisher (new_apache_publisher env.pulsar (publisher_options env cfg)).err)
            (build_and_serve env cfg tokens) (acquire-Gives publisher _)
            (build_and_serve-Unwinds cfg tokens))

  run_writer-Unwinds : Unwinds (run_writer env)
  unfolding run_writer
  run_writer-Unwinds = with_value-Unwinds (load_writer env.parsed []) _ λ cfg. ensure-Unwinds _ _ (
      deferring-Unwinds telemetry (init_telemetry env.ootel (telemetry_config env.shared))
        (connect_and_serve env cfg) (init_telemetry-Gives env.ootel (telemetry_config env.shared))
        (connect_and_serve-Unwinds cfg))

  -- However the writer's run function ends, each resource that it acquired is released, the last one
  -- first, and nothing is released that is not held: the signal handler, the publisher's client and
  -- producer, and telemetry.
  pub run_writer-held_after : held_after [] (run_writer env).0 ≡ some []
  run_writer-held_after = Unwinds.unwinds run_writer-Unwinds []

module _ {S : Type 0} (env : DelivererEnv S) where
  build_and_run-Unwinds :
      (cfg : DelivererConfig) (push : PushProvider S) → Unwinds (build_and_run env cfg push)
  unfolding build_and_run
  build_and_run-Unwinds cfg push = with_value-Unwinds (made_dispatcher env cfg push) _ λ disp.
      with_value-Unwinds
        (new_consumer (
          with_reader
          ∷ with_dispatcher (some disp)
          ∷ with_consumer_recorder (some slog_recorder)
          ∷ with_consumer_logger (some given_logger)
          ∷ []))
        _
        λ cons.
          deferring-Unwinds signals (acquire signals nil) (run_workers env cfg)
            (acquire-Gives signals nil) (run_workers-Unwinds env cfg)

  run_deliverer-Unwinds : Unwinds (run_deliverer env)
  unfolding run_deliverer
  run_deliverer-Unwinds = with_value-Unwinds (load_deliverer env.quote env.parsed []) _ λ cfg.
      ensure-Unwinds _ _ (
        deferring-Unwinds telemetry (init_telemetry env.ootel (telemetry_config env.shared)) _
          (init_telemetry-Gives env.ootel (telemetry_config env.shared))
          (with_value-Unwinds (build_provider cfg) _ λ backend.
            deferring-Unwinds reader
              (acquire reader (new_apache_consumer env.pulsar (consumer_options env cfg)).err)
              (build_and_run env cfg (env.as_provider backend)) (acquire-Gives reader _)
              (build_and_run-Unwinds cfg (env.as_provider backend))))

  -- However the deliverer's run function ends, each resource that it acquired is released, the last
  -- one first, and nothing is released that is not held: the signal handler, the reader's client
  -- and consumer, and telemetry.
  pub run_deliverer-held_after : held_after [] (run_deliverer env).0 ≡ some []
  run_deliverer-held_after = Unwinds.unwinds run_deliverer-Unwinds []
