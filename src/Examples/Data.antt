-- ===== src/Examples/Data.antt =====
-- The notifications, policies and states that the concrete runs share.
use pulsar_notifcation_pipel.Base.{
  rune_count, trim_back, trim_left, trim_space, refl, ◌≡◌, ◌++◌, none, true, Text, ◌+◌, ◌<◌, ℕ,
  zero, suc, List, [], ◌∷◌, some, arith, ascii,
}
use pulsar_notifcation_pipel.Validation.{
  validate_idempotency, validate_timestamps, validate_url_title, validate_url, device_re,
  validate_device, pushover_key_re, validate_key, validate_pushover, validate_target,
  validate_entries, validate_data, validate_priority, validate_body, validate_title,
  validate_content, validate,
}
use pulsar_notifcation_pipel.Http.{Request, Principal}
use pulsar_notifcation_pipel.Pulsarlib.{PublishInput, Publisher}
use pulsar_notifcation_pipel.Ingest.{Ingester, Packages, WriterWorld}
use pulsar_notifcation_pipel.GoError.{nil, new, permanent_error, transient_error, Error}
use pulsar_notifcation_pipel.Dispatcher.{slog_recorder, World, Dispatcher}
use pulsar_notifcation_pipel.Message.{pushover, empty, Content, Notification, PushoverTarget}
use pulsar_notifcation_pipel.Metrics.{no_measurements}
use pulsar_notifcation_pipel.Sandbox.{provider, Sandbox}
use pulsar_notifcation_pipel.Base.Int.{pos}
use pulsar_notifcation_pipel.Retry.{Policy}

abbrev pub phone : PushoverTarget
phone = record {
  user_or_group_key = ascii "uQiRzpo4DXghDmr9QzzfQu27cmVRsG";
  device_name = ascii "pixel-8";
  sound = [];
  url = [];
  url_title = [];
}

abbrev pub greeting : Content
greeting = record {
  title = ascii "Build";
  body = ascii "It is green.";
  priority = pos 1;
  entries = [];
}

abbrev pub note : Notification
note = record empty {
  notification_id = ascii "n1";
  content = some greeting;
  target = pushover (some phone);
}

-- Half of 1000, then half of 2000.
abbrev pub two_tries : Policy
two_tries = record {
  max_attempts = pos 2;
  initial_backoff = pos 1_000;
  max_backoff = pos 5_000;
  rng = λ k. record { numerator = pos 1; scale = 1 };
}

abbrev pub desk : Dispatcher Sandbox
desk = record {
  providers = (ascii "pushover", provider) ∷ [];
  recorder = some slog_recorder;
  clock = λ k. k + 100;
  retry = two_tries;
  sleep = λ k b. nil;
}

abbrev pub timeout : Error
timeout = transient_error (ascii "slow") (new (ascii "timeout"))

abbrev pub refusal : Error
refusal = permanent_error (ascii "provider-auth-failed") (ascii "no") (new (ascii "refused"))

abbrev pub scripted : List Error → World Sandbox
scripted errs = record {
  state = record { delivered = []; scripted = errs; position = 0 };
  clock_reads = 0;
  sleeps = 0;
  recorded = [];
  instruments = no_measurements;
}

pub below_one : (P : ℕ → Type 0) → P 0 → (j : ℕ) → j < 1 → P j
below_one P here zero h = here
below_one P here (suc j) h = absurd (omega (arith, h))

pub below_two : (P : ℕ → Type 0) → P 0 → P 1 → (j : ℕ) → j < 2 → P j
below_two P first second zero h = first
below_two P first second (suc zero) h = second
below_two P first second (suc (suc j)) h = absurd (omega (arith, h))

abbrev pub packages : Packages
packages = record {
  is_abs_url = λ url. true;
  marshal = λ n. (n.notification_id, nil);
  publish_time = λ k. pos 7;
}

-- A publisher that keeps what it is given.
abbrev pub keeper : Publisher (List PublishInput)
keeper = record { publish = λ input kept. (nil, kept ++ input ∷ []) }

abbrev pub ingester : Ingester (List PublishInput)
ingester = record { publisher = keeper; clock = λ k. 1_234_567; id_fn = λ k. (ascii "id-1", nil) }

abbrev pub idle : WriterWorld (List PublishInput)
idle = record { substrate = []; clock_reads = 0; id_calls = 0; instruments = no_measurements }

abbrev pub submission : Text → Request
submission authorization = record {
  method = ascii "POST";
  path = ascii "/notifications";
  headers = (ascii "Authorization", authorization ∷ []) ∷ [];
  body = ascii "x";
  body_err = nil;
  request_id = none;
  principal = none;
}

abbrev pub service : Principal
service = record { service_name = ascii "ci" }

abbrev pub joined : Text → Text → Text
joined dir file = dir ++ ascii "/" ++ file

-- The notification passes the validation.
pub note-runs : validate (λ url. true) note ≡ none
unfolding validate validate_content validate_title trim_space trim_left trim_back rune_count
    validate_body validate_priority validate_data validate_entries validate_target validate_pushover
    validate_key pushover_key_re validate_device device_re validate_url validate_url_title
    validate_timestamps validate_idempotency ascii
note-runs = refl
