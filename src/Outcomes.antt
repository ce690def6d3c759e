-- ===== src/Outcomes.antt =====
-- internal/deliverer/outcomes/outcomes.go: terminal outcomes and the recorder that logs them.
pub mod Line
use pulsar_notifcation_pipel.Base.{
  Option, some, none, apply_all, ℕ, Text, List, [], ◌++◌, ◌∷◌, leb, length, take, ascii,
  if◌then◌else◌, null,
}
use pulsar_notifcation_pipel.Message.{Time, zero_time, is_zero}

pub data Status : Type 0 where
  status_delivered status_permanently_failed status_expired : Status

-- string(status)
abbrev pub status_text : Status → Text
status_text status_delivered = ascii "delivered"
status_text status_permanently_failed = ascii "permanently-failed"
status_text status_expired = ascii "expired"

abbrev pub reason_encryption_policy_violation : Text
reason_encryption_policy_violation = ascii "encryption-policy-violation"

abbrev pub reason_provider_rejected_recipient : Text
reason_provider_rejected_recipient = ascii "provider-rejected-recipient"

abbrev pub reason_provider_rejected_payload : Text
reason_provider_rejected_payload = ascii "provider-rejected-payload"

abbrev pub reason_provider_auth_failed : Text
reason_provider_auth_failed = ascii "provider-auth-failed"

abbrev pub reason_retry_budget_exhausted : Text
reason_retry_budget_exhausted = ascii "retry-budget-exhausted"

abbrev pub reason_expired : Text
reason_expired = ascii "expired"

pub record Outcome : Type 0 where
  pub notification_id : Text
  pub status : Status
  pub reason : Text
  pub provider_response : Text
  pub attempts : ℕ
  pub first_attempt : Time
  pub last_attempt : Time

-- The fields that a literal leaves out.
abbrev pub blank : Text → Status → Text → Outcome
blank id status reason = record {
  notification_id = id;
  status = status;
  reason = reason;
  provider_response = [];
  attempts = 0;
  first_attempt = zero_time;
  last_attempt = zero_time;
}

unfoldable pub truncate : Text → ℕ → Text
truncate s n = if leb (length s) n then s else take n s

-- A slog attribute: its key is the constructor.
pub data Attr : Type 0 where
  event notification_id status reason provider_response : Text → Attr
  attempts : ℕ → Attr
  first_attempt last_attempt : Time → Attr

pub data Level : Type 0 where
  info warn : Level

abbrev level_of : Status → Level
level_of status_delivered = info
level_of _ = warn

-- SlogRecorder.Record: the level and the attributes of the line that it logs.
unfoldable pub record_line : Outcome → Level × List Attr
unfolding truncate
record_line o =
    let attrs0 : List Attr =
      event (ascii "notification.outcome")
      ∷ notification_id o.notification_id
      ∷ status (status_text o.status)
      ∷ attempts o.attempts
      ∷ [] in
    let attrs1 = if null o.reason then attrs0 else attrs0 ++ reason o.reason ∷ [] in
    let attrs2 =
      if null o.provider_response
      then attrs1
      else attrs1 ++ provider_response (truncate o.provider_response 512) ∷ [] in
    let attrs3 =
      if is_zero o.first_attempt then attrs2 else attrs2 ++ first_attempt o.first_attempt ∷ [] in
    let attrs4 =
      if is_zero o.last_attempt then attrs3 else attrs3 ++ last_attempt o.last_attempt ∷ [] in
    (level_of o.status, attrs4)

-- SlogRecorder over a logger of the type L.
pub record SlogRecorder {ℓ} (L : Type ℓ) : Type ℓ where
  pub logger : Option L

module _ {ℓ} {L : Type ℓ} where
  abbrev pub with_logger : Option L → SlogRecorder L → SlogRecorder L
  with_logger l s = record s { logger = l }

  -- NewSlogRecorder, where `fallback` is what slog.Default returns.
  unfoldable pub new_slog_recorder : L → List (SlogRecorder L → SlogRecorder L) → SlogRecorder L
  new_slog_recorder fallback opts =
      let s = apply_all opts (record { logger = none }) in
      elim s.logger [ none ↦ record s { logger = some fallback } | some l ↦ s ]
