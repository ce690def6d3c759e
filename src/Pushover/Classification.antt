-- ===== src/Pushover/Classification.antt =====
-- The classification policy of internal/deliverer/provider/pushover/pushover.go, by HTTP status.
-- 2xx with "status": 1.
use pulsar_notifcation_pipel.Base.{
  to_lower, contains, List, [], ◌∷◌, true, ascii, arith, ◌↔◌, none, some, Text, ◌<◌, ◌≤◌, ◌⊎◌, ◌≡◌,
  ℕ,
}
use pulsar_notifcation_pipel.Dispatcher.Loop.{IsRetryable}
use pulsar_notifcation_pipel.Outcomes.{
  reason_provider_auth_failed, reason_provider_rejected_payload, reason_provider_rejected_recipient,
}
use pulsar_notifcation_pipel.Pushover.{is_recipient_rejection, classify, PushoverResp}
use pulsar_notifcation_pipel.Base.Int.{pos}
use pulsar_notifcation_pipel.GoError.{nil, as_permanent_error, as_transient_error}

abbrev pub IsAccepted : ℕ → PushoverResp → Type 0
IsAccepted status pr = (200 ≤ status) × (status < 300) × (pr.status ≡ pos 1)

-- The statuses that are not worth another attempt.
abbrev pub IsFinal : ℕ → Type 0
IsFinal status = (status ≡ 400) ⊎ (status ≡ 401) ⊎ (status ≡ 403)

-- Some error of the body has, in lower case, one of the words that the code takes for a recipient.
abbrev pub NamesRecipient : List Text → Type 0
NamesRecipient [] = ⊥
NamesRecipient (e ∷ errs) =
    (contains (to_lower e) (ascii "user") ≡ true)
    ⊎ (contains (to_lower e) (ascii "token") ≡ true)
    ⊎ (contains (to_lower e) (ascii "device") ≡ true)
    ⊎ NamesRecipient errs

is_recipient_rejection_iff :
    (errs : List Text) → (is_recipient_rejection errs ≡ true) ↔ NamesRecipient errs
unfolding is_recipient_rejection
is_recipient_rejection_iff [] = ground arith
is_recipient_rejection_iff (e ∷ errs) = ground (arith, is_recipient_rejection_iff errs)

-- The reasons of the final statuses.
abbrev pub IsReason : ℕ → PushoverResp → Text → Type 0
IsReason status pr reason =
    ((status ≡ 400) × NamesRecipient pr.errors × (reason ≡ reason_provider_rejected_recipient))
    ⊎ ((status ≡ 400) × (¬ NamesRecipient pr.errors) × (reason ≡ reason_provider_rejected_payload))
    ⊎ (((status ≡ 401) ⊎ (status ≡ 403)) × (reason ≡ reason_provider_auth_failed))

classify-IsReason :
    (status : ℕ) (pr : PushoverResp) (snippet reason : Text)
    → (as_permanent_error (classify status pr snippet).1 ≡ some (reason, snippet))
      ↔ IsReason status pr reason
unfolding classify as_permanent_error
classify-IsReason status pr snippet reason = ground (arith, is_recipient_rejection_iff pr.errors)

-- A response is delivered, with the snippet as its result, exactly if the status is 2xx and the body
-- says 1. It is a permanent failure exactly on 400, 401 and 403: on 400 for the recipient if some
-- error has the word user, token or device in lower case, and otherwise for the payload; on 401
-- and 403 for the authentication. On every other response it is a transient failure without a
-- result. Each failure carries the snippet.
pub classify_table :
    (status : ℕ) (pr : PushoverResp) (snippet reason : Text)
    → ((classify status pr snippet ≡ (some (record { provider_response = snippet }), nil))
        ↔ IsAccepted status pr)
      × ((as_permanent_error (classify status pr snippet).1 ≡ some (reason, snippet))
          ↔ IsReason status pr reason)
      × (((as_transient_error (classify status pr snippet).1 ≡ some snippet)
            × ((classify status pr snippet).0 ≡ none))
          ↔ ((¬ IsFinal status) × (¬ IsAccepted status pr)))
unfolding classify as_transient_error
classify_table status pr snippet reason =
    (ground arith, classify-IsReason status pr snippet reason, ground arith)

-- A retry follows exactly the responses that are neither accepted nor final.
pub classify-IsRetryable_iff :
    (status : ℕ) (pr : PushoverResp) (snippet : Text)
    → IsRetryable (classify status pr snippet) ↔ ((¬ IsFinal status) × (¬ IsAccepted status pr))
unfolding classify as_permanent_error
classify-IsRetryable_iff status pr snippet = ground arith
