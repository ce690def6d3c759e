-- ===== src/Examples/Refusal.antt =====
-- A concrete submission that breaks a rule of Validate, from the client to the writer and back.
use pulsar_notifcation_pipel.Base.{
  ◌∙◌, ap, sym, length, ◌↔◌, is_none, text_eq, [], none, some, true, false, inl, inr, refl, arith,
  ◌≡◌, ascii,
}
use pulsar_notifcation_pipel.Validation.Correct.{validate_iff}
use mathlib.Core.Bool.{true≢false}
use pulsar_notifcation_pipel.Examples.Codec.{decode-encode}
use pulsar_notifcation_pipel.Examples.Pipeline.{caller-IsClientOf, connected-IsConnected}
use pulsar_notifcation_pipel.EndToEnd.Refusal.{submit_request_invalid}
use pulsar_notifcation_pipel.EndToEnd.Submission.{assigned_request_id, IsTransmitted}
use pulsar_notifcation_pipel.NotificationClient.{
  err_validation_failed, Category, problem_error, ProblemError,
}
use pulsar_notifcation_pipel.NotificationClient.Errors.{submit_error_is}
use pulsar_notifcation_pipel.Validation.{
  validate_idempotency, validate_timestamps, validate_url_title, validate_url, validate_device,
  validate_key, validate_pushover, validate_target, validate_content, validate,
}
use pulsar_notifcation_pipel.Examples.Data.{service, packages, note}
use pulsar_notifcation_pipel.Examples.Network.{
  idle_server, caller, http_packages, wire, connected, Queue,
}
use pulsar_notifcation_pipel.NotificationClient.Submission.{submit_request}
use pulsar_notifcation_pipel.Handlers.{ServerWorld}
use pulsar_notifcation_pipel.Validation.Spec.{IsValid}
use pulsar_notifcation_pipel.Message.{Notification}

-- A notification with no content.
abbrev hollow : Notification
hollow = record note { content = none }

hollow-runs : is_none (validate (λ url. true) hollow) ≡ false
unfolding validate validate_content validate_target validate_pushover validate_key validate_device
    validate_url validate_url_title validate_timestamps validate_idempotency
hollow-runs = refl

hollow-IsInvalid : ¬ IsValid packages.is_abs_url hollow
hollow-IsInvalid valid =
    absurd
      (true≢false (sym (ap is_none ((validate_iff (λ url. true) hollow).1 valid)) ∙ hollow-runs))

hollow-IsTransmitted :
    IsTransmitted
      (connected hollow)
      wire
      http_packages
      (caller hollow)
      hollow
      []
      service
      idle_server
unfolding text_eq ascii
hollow-IsTransmitted = record {
  marshals = refl;
  short = omega arith;
  unmarshals = refl;
  styled = refl;
  bound = inl refl;
}

submit_request_invalid_example :
    (seen : ProblemError) × (w' : ServerWorld Queue) × (submit_request wire http_packages
        (caller hollow)
        (some hollow)
        []
        idle_server
      ≡ (inr (problem_error seen), w'))
    × ((target : Category)
        → (submit_error_is (problem_error seen) target ≡ true) ↔ (target ≡ err_validation_failed))
    × (validate packages.is_abs_url hollow ≡ some seen.fields)
    × (seen.request_id
        ≡ assigned_request_id
            (connected hollow)
            wire
            http_packages
            (caller hollow)
            hollow
            []
            service
            idle_server)
    × (w'.writer.substrate ≡ [])
    × (length w'.access_log ≡ 1)
submit_request_invalid_example =
    submit_request_invalid (connected hollow) wire http_packages (caller hollow) hollow [] service
      idle_server (connected-IsConnected hollow) (caller-IsClientOf hollow) hollow-IsTransmitted
      decode-encode hollow-IsInvalid
