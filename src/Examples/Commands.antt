-- ===== src/Examples/Commands.antt =====
-- Concrete runs of the two commands.
use pulsar_notifcation_pipel.Base.{List, [], some, true, false, ◌≡◌, ascii}
use pulsar_notifcation_pipel.Commands.Writer.{signalled, run_writer, WriterEnv}
use pulsar_notifcation_pipel.Examples.Data.{note, packages, joined}
use pulsar_notifcation_pipel.Http.{finished}
use pulsar_notifcation_pipel.Auth.Bearer.{scanned}
use pulsar_notifcation_pipel.Commands.{Ootel, Shared}
use pulsar_notifcation_pipel.Commands.Releases.{
  run_deliverer-held_after, run_writer-held_after, held_after,
}
use pulsar_notifcation_pipel.Sandbox.{provider, Sandbox}
use pulsar_notifcation_pipel.Base.Int.{pos}
use pulsar_notifcation_pipel.Commands.Deliverer.{run_deliverer, DelivererEnv}
use pulsar_notifcation_pipel.GoError.{new, nil}
use pulsar_notifcation_pipel.Pulsarlib.{PublishInput, Client}

abbrev shared : Shared
shared = record {
  log_level = ascii "info";
  metrics_enabled = true;
  metrics_port = pos 8081;
  local_export = false;
  tracing_enabled = false;
  tracing_service = ascii "pipeline";
  tracing_version = [];
  pulsar_service_url = ascii "pulsar://localhost:6650";
  pulsar_topic = ascii "notifications";
  pulsar_encryption_key_dir = ascii "keys";
}

abbrev quiet : Ootel
quiet = record { client_init = λ exporter cfg. nil; runtime_start = nil; host_start = nil }

abbrev refusing : Client
refusing = record {
  new_client = λ url. nil;
  create_producer = λ topic key_reader names. new (ascii "no broker");
  subscribe = λ topic subscription key_reader action. nil;
}

-- The writer finds no broker.
abbrev writer_env : WriterEnv (List PublishInput)
writer_env = record {
  parsed = (
    record {
      http_addr = ascii ":8080";
      bearer_tokens_file = ascii "tokens";
      idempotency_window = pos 300;
      encryption_key_names_csv = ascii "v1";
    },
    nil,
  );
  shared = shared;
  ootel = quiet;
  join = joined;
  quote = λ t. t;
  read_key = λ path. (ascii "key", nil);
  read_tokens = λ path. scanned (ascii "abc ci") nil;
  pulsar = refusing;
  send = λ m kept. (nil, kept);
  clock_now = λ k. k;
  new_uuid = λ k. (ascii "u1", nil);
  platform = record {
    not_routed = λ r rw w. (finished, rw, w);
    new_uuid = λ k. (ascii "u1", nil);
    bind_parameter = λ value. (value, nil);
  };
  packages = packages;
  codecs = record {
    unmarshal_json = λ body. (note, nil);
    unmarshal_proto = λ body. (note, nil);
    format_time = λ t. [];
    submit_time = λ k. pos 9;
  };
  ending = signalled;
}

abbrev deliverer_env : DelivererEnv Sandbox
deliverer_env = record {
  parsed = (
    record {
      pulsar_subscription = ascii "deliverer";
      concurrency = pos 4;
      retry_max_attempts = pos 5;
      retry_initial_backoff = pos 500;
      retry_max_backoff = pos 30_000;
      provider_kind = ascii "sandbox";
      pushover_app_token = [];
      pushover_base_url = [];
    },
    nil,
  );
  shared = shared;
  ootel = quiet;
  quote = λ t. t;
  pulsar = refusing;
  runtime = record {
    now = λ k. k;
    wait = λ k b. nil;
    rand = λ k. record { numerator = pos 1; scale = 1 };
  };
  as_provider = λ backend. provider;
}

run_writer_example : held_after [] (run_writer writer_env).0 ≡ some []
run_writer_example = run_writer-held_after writer_env

run_deliverer_example : held_after [] (run_deliverer deliverer_env).0 ≡ some []
run_deliverer_example = run_deliverer-held_after deliverer_env
