-- ===== src/Commands.antt =====
-- The run functions of cmd/writer/main.go and cmd/deliverer/main.go as traces of what they acquire and
-- release, and internal/telemetry/telemetry.go, which acquires the first of it. A trace ends with
-- the error that the function returns. Log lines, contexts and the pauses at the end are left out.
pub mod Writer
pub mod Deliverer
pub mod Releases
use pulsar_notifcation_pipel.Base.{
  false, Option, none, some, not, null, if◌then◌else◌, ◌++◌, ℕ, List, [], ◌∷◌, Bool, Text, ascii,
}
use pulsar_notifcation_pipel.Base.Int.{pos, ℤ}
use pulsar_notifcation_pipel.GoError.{wrap, new, nil, is_nil, Error}

pub data Resource : Type 0 where
  telemetry publisher reader signals : Resource

pub data Event : Type 0 where
  opened closed : Resource → Event
  listening server_shut_down : Event
  spawned : (workers : ℤ) → Event
  workers_done : Event

abbrev pub Trace : Type 0
Trace = List Event × Error

-- `if err != nil { return err }` and what follows.
abbrev pub ensure : Error → Trace → Trace
ensure err rest = if is_nil err then rest else ([], err)

-- The value of a result, or its error.
abbrev pub with_value : {A : Type 0} → Option A × Error → (A → Trace) → Trace
with_value (none, err) rest = ([], err)
with_value (some a, err) rest = ensure err (rest a)

-- The same behind a call that acquires or releases.
abbrev pub and_then : Trace → Trace → Trace
and_then (events, err) rest = if is_nil err then (events ++ rest.0, rest.1) else (events, err)

-- A call that gives the resource, or an error.
abbrev pub acquire : Resource → Error → Trace
acquire r err = if is_nil err then (opened r ∷ [], nil) else ([], err)

-- `defer` of the resource's release, and what follows.
abbrev pub deferring : Resource → Trace → Trace
deferring r rest = (rest.0 ++ closed r ∷ [], rest.1)

-- Shared of internal/config/shared.go, but for the grace period.
pub record Shared : Type 0 where
  pub log_level : Text
  pub metrics_enabled : Bool
  pub metrics_port : ℤ
  pub local_export : Bool
  pub tracing_enabled : Bool
  pub tracing_service : Text
  pub tracing_version : Text
  pub pulsar_service_url : Text
  pub pulsar_topic : Text
  pub pulsar_encryption_key_dir : Text

abbrev pub no_shared : Shared
no_shared = record {
  log_level = [];
  metrics_enabled = false;
  metrics_port = pos 0;
  local_export = false;
  tracing_enabled = false;
  tracing_service = [];
  tracing_version = [];
  pulsar_service_url = [];
  pulsar_topic = [];
  pulsar_encryption_key_dir = [];
}

-- LoadShared, of what the environment parser gives.
unfoldable pub load_shared : Shared × Error → Shared × Error
load_shared (s, err) =
    if is_nil err then (s, nil) else (no_shared, wrap (ascii "parse shared config") err)

-- telemetry.Config, but for the sample rate.
pub record TelemetryConfig : Type 0 where
  pub service_name : Text
  pub service_version : Text
  pub metrics_enabled : Bool
  pub metrics_port : ℤ
  pub tracing_enabled : Bool
  pub local_export : Bool

pub data Exporter : Type 0 where
  prometheus otlp_grpc : Exporter

-- The calls of the telemetry packages: the client's Init, and the starts of the two collectors.
pub record Ootel : Type 0 where
  pub client_init : Exporter → TelemetryConfig → Error
  pub runtime_start : Error
  pub host_start : Error

-- Init: an Init that succeeded is shut down again where a collector does not start.
unfoldable pub init_telemetry : Ootel → TelemetryConfig → Trace
init_telemetry ootel cfg =
    let exporter = if cfg.local_export then otlp_grpc else prometheus in
    let err = ootel.client_init exporter cfg in
    if null cfg.service_name
    then ([], new (ascii "telemetry: ServiceName is required"))
    else if not (is_nil err)
    then ([], wrap (ascii "telemetry: ootel init") err)
    else if cfg.metrics_enabled
    then if not (is_nil ootel.runtime_start)
      then (
        opened telemetry ∷ closed telemetry ∷ [],
        wrap (ascii "telemetry: runtime metrics") ootel.runtime_start,
      )
      else if not (is_nil ootel.host_start)
      then (
        opened telemetry ∷ closed telemetry ∷ [],
        wrap (ascii "telemetry: host metrics") ootel.host_start,
      )
      else (opened telemetry ∷ [], nil)
    else (opened telemetry ∷ [], nil)

-- The telemetry settings that both commands pass on.
abbrev pub telemetry_config : Shared → TelemetryConfig
telemetry_config shared = record {
  service_name = shared.tracing_service;
  service_version = shared.tracing_version;
  metrics_enabled = shared.metrics_enabled;
  metrics_port = shared.metrics_port;
  tracing_enabled = shared.tracing_enabled;
  local_export = shared.local_export;
}

-- main: the exit status.
unfoldable pub exit_status : Trace → ℕ
exit_status (events, err) = if is_nil err then 0 else 1
