-- ===== src/GoError.antt =====
-- Go's `error` values, with `nil` among them, and errors.Is and errors.As over their Unwrap chains:
-- the sentinels of internal/deliverer/provider, internal/pulsarlib, internal/writer/auth and the
-- context package, and the error types that carry data.
use pulsar_notifcation_pipel.Base.{
  inl, inr, refl, ◌≡◌, ◌⊎◌, length, ◌++◌, [], ascii, Bool, true, false, Option, none, some, List,
  Text,
}
use pulsar_notifcation_pipel.Base.Decimal.{format_ℕ}

-- Values made once by errors.New and compared by identity.
pub data Sentinel : Type 0 where
  err_permanent err_transient : Sentinel
  err_encryption_policy_violation : Sentinel
  canceled deadline_exceeded : Sentinel
  err_no_credentials err_invalid_credentials : Sentinel

pub record FieldError : Type 0 where
  pub field : Text
  pub code : Text
  pub message : Text

pub data Error : Type 0 where
  nil : Error
  sentinel : Sentinel → Error
  -- errors.New at the place of use: equal to no sentinel.
  new : Text → Error
  -- fmt.Errorf with %w.
  wrap : Text → Error → Error
  permanent_error : (reason response : Text) → Error → Error
  transient_error : (response : Text) → Error → Error
  not_implemented_error : (target : Text) → Error
  publish_error : (transient : Bool) → Error → Error
  validation_error : List FieldError → Error

abbrev pub is_nil : Error → Bool
is_nil nil = true
is_nil (sentinel s) = false
is_nil (new m) = false
is_nil (wrap m e) = false
is_nil (permanent_error r p e) = false
is_nil (transient_error p e) = false
is_nil (not_implemented_error t) = false
is_nil (publish_error t e) = false
is_nil (validation_error fs) = false

pub nil-cases : (e : Error) → (e ≡ nil) ⊎ (is_nil e ≡ false)
nil-cases nil = inl refl
nil-cases (sentinel s) = inr refl
nil-cases (new m) = inr refl
nil-cases (wrap m e) = inr refl
nil-cases (permanent_error r p e) = inr refl
nil-cases (transient_error p e) = inr refl
nil-cases (not_implemented_error t) = inr refl
nil-cases (publish_error t e) = inr refl
nil-cases (validation_error fs) = inr refl

abbrev same_sentinel : Sentinel → Sentinel → Bool
same_sentinel err_permanent err_permanent = true
same_sentinel err_transient err_transient = true
same_sentinel err_encryption_policy_violation err_encryption_policy_violation = true
same_sentinel canceled canceled = true
same_sentinel deadline_exceeded deadline_exceeded = true
same_sentinel err_no_credentials err_no_credentials = true
same_sentinel err_invalid_credentials err_invalid_credentials = true
same_sentinel _ _ = false

-- errors.Is(err, target) for a sentinel target. PermanentError and TransientError unwrap to their
-- sentinel, and PublishError to its cause.
unfoldable pub errors_is : Error → Sentinel → Bool
errors_is (sentinel s) target = same_sentinel s target
errors_is (wrap m e) target = errors_is e target
errors_is (permanent_error r p e) target = same_sentinel err_permanent target
errors_is (transient_error p e) target = same_sentinel err_transient target
errors_is (publish_error t e) target = errors_is e target
errors_is _ target = false

-- errors.As(err, &pe) for *provider.PermanentError: its reason and response.
unfoldable pub as_permanent_error : Error → Option (Text × Text)
as_permanent_error (permanent_error reason response e) = some (reason, response)
as_permanent_error (wrap m e) = as_permanent_error e
as_permanent_error (publish_error t e) = as_permanent_error e
as_permanent_error _ = none

-- errors.As(err, &te) for *provider.TransientError: its response.
unfoldable pub as_transient_error : Error → Option Text
as_transient_error (transient_error response e) = some response
as_transient_error (wrap m e) = as_transient_error e
as_transient_error (publish_error t e) = as_transient_error e
as_transient_error _ = none

-- errors.As(err, &pe) for *pulsarlib.PublishError: whether it is transient.
unfoldable pub as_publish_error : Error → Option Bool
as_publish_error (publish_error transient e) = some transient
as_publish_error (wrap m e) = as_publish_error e
as_publish_error _ = none

-- errors.As(err, &verr) for *ingest.ValidationError: its fields.
unfoldable pub as_validation_error : Error → Option (List FieldError)
as_validation_error (validation_error fields) = some fields
as_validation_error (wrap m e) = as_validation_error e
as_validation_error (publish_error t e) = as_validation_error e
as_validation_error _ = none

sentinel_text : Sentinel → Text
sentinel_text err_permanent = ascii "provider: permanent failure"
sentinel_text err_transient = ascii "provider: transient failure"
sentinel_text err_encryption_policy_violation = ascii "pulsarlib: encryption policy violation"
sentinel_text canceled = ascii "context canceled"
sentinel_text deadline_exceeded = ascii "context deadline exceeded"
sentinel_text err_no_credentials = ascii "auth: no credentials"
sentinel_text err_invalid_credentials = ascii "auth: invalid credentials"

-- err.Error(). A `wrap` has the format "…: %w". The empty text stands for the panic at `nil`.
unfoldable pub error_text : Error → Text
unfolding sentinel_text
error_text nil = []
error_text (sentinel s) = sentinel_text s
error_text (new m) = m
error_text (wrap m e) = m ++ ascii ": " ++ error_text e
error_text (permanent_error reason response nil) = ascii "provider: permanent failure: " ++ reason
error_text (permanent_error reason response e) =
    ascii "provider: permanent failure (" ++ reason ++ ascii "): " ++ error_text e
error_text (transient_error response nil) = ascii "provider: transient failure"
error_text (transient_error response e) = ascii "provider: transient failure: " ++ error_text e
error_text (not_implemented_error target) =
    ascii "provider: no implementation for target " ++ target
error_text (publish_error transient e) = error_text e
error_text (validation_error fields) =
    ascii "ingest: validation failed (" ++ format_ℕ (length fields) ++ ascii " field(s))"
