-- ===== src/Retry/Classes.antt =====
-- What the classifier of internal/deliverer/retry/retry.go says of the errors that
-- internal/deliverer/provider/provider.go defines.
use pulsar_notifcation_pipel.Base.{
  Option-cases, is_some, ◌↔◌, inl, inr, arith, ◌≡◌, refl, Text, true, false, none, some,
}
use pulsar_notifcation_pipel.Retry.{class_permanent, classify}
use pulsar_notifcation_pipel.GoError.{
  is_nil, Error, wrap, permanent_error, transient_error, publish_error, errors_is, err_transient,
  err_permanent, as_permanent_error, as_transient_error,
}
use pulsar_notifcation_pipel.Provider.{KeepsContract, PushReturn}

-- The two error types unwrap to different sentinels.
as_permanent_is :
    (err : Error) (reason response : Text)
    → as_permanent_error err ≡ some (reason, response)
    → (errors_is err err_permanent ≡ true)
      × (errors_is err err_transient ≡ false)
      × (as_transient_error err ≡ none)
unfolding as_permanent_error errors_is as_transient_error
as_permanent_is (permanent_error r p e) reason response h = (refl, refl, refl)
as_permanent_is (wrap m e) reason response h = as_permanent_is e reason response h
as_permanent_is (publish_error t e) reason response h = as_permanent_is e reason response h
as_permanent_is err reason response h = cc

as_transient_is :
    (err : Error) (response : Text)
    → as_transient_error err ≡ some response
    → (errors_is err err_transient ≡ true) × (as_permanent_error err ≡ none)
unfolding as_permanent_error errors_is as_transient_error
as_transient_is (transient_error p e) response h = (refl, refl)
as_transient_is (wrap m e) response h = as_transient_is e response h
as_transient_is (publish_error t e) response h = as_transient_is e response h
as_transient_is err response h = cc

-- Of an error returned by a provider that keeps the contract of Push, Classify says "permanent"
-- exactly if the dispatcher's errors.As finds a permanent error in it, which ends the retries.
classify_iff :
    (ret : PushReturn)
    → KeepsContract ret
    → is_nil ret.1 ≡ false
    → (classify ret.1 ≡ class_permanent) ↔ (is_some (as_permanent_error ret.1) ≡ true)
unfolding classify
classify_iff ret contract failed = elim (Option-cases (as_permanent_error ret.1)) [
  | inr ((reason, response), e) ↦ let h = as_permanent_is ret.1 reason response e in ground arith
  | inl e ↦ elim (Option-cases (as_transient_error ret.1)) [
    | inr (response, t) ↦ let h = as_transient_is ret.1 response t in ground arith
    | inl t ↦ ground arith
  ]
]
