-- ===== src/Provider.antt =====
-- internal/deliverer/provider/provider.go: the contract of a push backend. The error types of the
-- file are constructors of GoError.Error.
use pulsar_notifcation_pipel.GoError.{as_transient_error, as_permanent_error, is_nil, nil, Error}
use pulsar_notifcation_pipel.Base.{false, none, ◌⊎◌, true, ◌≡◌, is_some, Text, Option}
use pulsar_notifcation_pipel.Message.{Notification}

pub record Result : Type 0 where
  pub provider_response : Text

-- `(*Result, error)`: a nil result is `none`.
abbrev pub PushReturn : Type 0
PushReturn = Option Result × Error

-- A provider over a state S, which holds whatever its calls read and change: the remote service, the
-- context, a script.
pub record PushProvider (S : Type 0) : Type 0 where
  pub name : Text
  pub push : Notification → S → PushReturn × S

-- The contract of Push: a result and no error, or no result and a permanent or a transient error.
abbrev pub KeepsContract : PushReturn → Type 0
KeepsContract ret =
    ((is_some ret.0 ≡ true) × (ret.1 ≡ nil))
    ⊎ ((ret.0 ≡ none) × (is_nil ret.1 ≡ false) × (is_some (as_permanent_error ret.1) ≡ true))
    ⊎ ((ret.0 ≡ none) × (is_nil ret.1 ≡ false) × (is_some (as_transient_error ret.1) ≡ true))
