-- ===== src/Validation/Correct.antt =====
-- `Validate` of internal/writer/ingest/ingest.go against the rules of a valid notification.
use pulsar_notifcation_pipel.Validation.{
  validate_idempotency, validate_timestamps, validate_target, validate_content, validate,
}
use pulsar_notifcation_pipel.Base.{◌++◌, append-eq-nil_iff, ◌↔◌, none, Bool, arith, ◌≡◌, Text}
use pulsar_notifcation_pipel.Validation.Payload.{
  validate_idempotency_iff, validate_timestamps_iff, validate_content_iff,
}
use pulsar_notifcation_pipel.Validation.Addressing.{validate_target_iff}
use pulsar_notifcation_pipel.Validation.Spec.{IsValid}
use pulsar_notifcation_pipel.Message.{Notification}

pub validate_iff :
    (is_abs_url : Text → Bool) (n : Notification)
    → (validate is_abs_url n ≡ none) ↔ IsValid is_abs_url n
unfolding validate
validate_iff is_abs_url n = ground (
  arith,
  validate_content_iff n.content,
  validate_target_iff is_abs_url n.target,
  validate_timestamps_iff n.expires_at n.created_at,
  validate_idempotency_iff n.idempotency_key,
  append-eq-nil_iff (validate_content n.content) (
      validate_target is_abs_url n.target
      ++ (validate_timestamps n.expires_at n.created_at ++ validate_idempotency n.idempotency_key)),
  append-eq-nil_iff (validate_target is_abs_url n.target)
      (validate_timestamps n.expires_at n.created_at ++ validate_idempotency n.idempotency_key),
  append-eq-nil_iff (validate_timestamps n.expires_at n.created_at)
      (validate_idempotency n.idempotency_key),
)
