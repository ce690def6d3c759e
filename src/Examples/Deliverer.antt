-- ===== src/Examples/Deliverer.antt =====
-- Concrete runs of the deliverer.
use pulsar_notifcation_pipel.Base.{
  ◌+◌, ◌^◌, map, text_eq, ◌<◌, ℕ, [], ◌∷◌, none, some, false, refl, arith, ◌≡◌, Text, ascii,
}
use pulsar_notifcation_pipel.Base.Int.{double64, pos}
use pulsar_notifcation_pipel.Base.Float.{
  unit_in_last, nearest_multiple, nearest, int64, multiply, float64,
}
use pulsar_notifcation_pipel.Retry.{doublings, base_backoff, next}
use pulsar_notifcation_pipel.Consumer.InStep.{run-InStep, InStep}
use pulsar_notifcation_pipel.Consumer.{Run, receiving, failed, message, run, ConsumedMessage, State}
use pulsar_notifcation_pipel.Consumer.Accounting.{run_accounts}
use pulsar_notifcation_pipel.Examples.Data.{
  below_one, below_two, refusal, timeout, scripted, desk, note, two_tries,
}
use pulsar_notifcation_pipel.Dispatcher.Loop.{reply, IsRetryable}
use pulsar_notifcation_pipel.Dispatcher.Total.{dispatch_total, Ends}
use pulsar_notifcation_pipel.Dispatcher.Verdict.{
  dispatch_delivers, dispatch_exhausts, dispatch_rejects, DispatchReports,
}
use pulsar_notifcation_pipel.Sandbox.EndToEnd.{dispatch_scripted}
use pulsar_notifcation_pipel.GoError.{
  nil, as_permanent_error, err_encryption_policy_violation, sentinel, Error, errors_is,
}
use pulsar_notifcation_pipel.Outcomes.Line.{read_line, read_line-record_line}
use pulsar_notifcation_pipel.Outcomes.{
  record_line, blank, truncate, reason_expired, reason_retry_budget_exhausted, status_delivered,
  status_permanently_failed,
}
use pulsar_notifcation_pipel.Retry.Backoff.{base_backoff_lem}
use pulsar_notifcation_pipel.Sandbox.{
  provider, accept, Sandbox, push, with_scripted_errors, new_sandbox,
}
use pulsar_notifcation_pipel.Dispatcher.Dispatch.{
  safe_response, dispatch, resolve_target, is_expired, resolve,
}
use pulsar_notifcation_pipel.Base.Dict.{lookup}
use pulsar_notifcation_pipel.Dispatcher.{World}

dispatch_total_example :
    (w' : World Sandbox) × (dispatch desk (some note) (scripted []) ≡ some (nil, w'))
    × Ends 2 note [] w'
dispatch_total_example = dispatch_total desk note (scripted [])

resolved : (resolve desk note).0 ≡ some provider
unfolding resolve resolve_target lookup text_eq ascii
resolved = refl

live : (is_expired note 100).0 ≡ false
unfolding is_expired
live = refl

soft_then :
    (next : Error)
    → (j : ℕ) → j < 1
    → IsRetryable (reply provider note (scripted (timeout ∷ next ∷ [])).state j)
unfolding push as_permanent_error
soft_then next = below_one _ (refl, refl)

-- One transient failure, then success.
dispatch_delivers_example :
    DispatchReports desk note
      (scripted (timeout ∷ nil ∷ []))
      (record { delivered = note ∷ []; scripted = timeout ∷ nil ∷ []; position = 2 })
      status_delivered
      []
      (ascii "sandbox:accepted")
      2
unfolding push accept safe_response
dispatch_delivers_example =
    dispatch_delivers desk note (scripted (timeout ∷ nil ∷ [])) provider live resolved (λ k b. refl)
      1 (omega arith) (soft_then nil) refl

-- One transient failure, then a permanent one.
dispatch_rejects_example :
    DispatchReports desk note
      (scripted (timeout ∷ refusal ∷ []))
      (record { delivered = []; scripted = timeout ∷ refusal ∷ []; position = 2 })
      status_permanently_failed
      (ascii "provider-auth-failed")
      (ascii "no")
      2
unfolding push as_permanent_error
dispatch_rejects_example =
    dispatch_rejects desk note (scripted (timeout ∷ refusal ∷ [])) provider live resolved
      (λ k b. refl) 1 (ascii "provider-auth-failed") (ascii "no") (omega arith) (soft_then refusal)
      refl refl

dispatch_exhausts_example :
    (response : Text) × DispatchReports desk note
      (scripted (timeout ∷ timeout ∷ []))
      (record { delivered = []; scripted = timeout ∷ timeout ∷ []; position = 2 })
      status_permanently_failed
      reason_retry_budget_exhausted
      response
      2
unfolding push as_permanent_error
dispatch_exhausts_example =
    dispatch_exhausts desk note (scripted (timeout ∷ timeout ∷ [])) provider live resolved
      (λ k b. refl) (below_two _ (refl, refl) (refl, refl))

dispatch_scripted_example :
    DispatchReports desk note
      (scripted (timeout ∷ []))
      (record { delivered = note ∷ []; scripted = timeout ∷ []; position = 1 })
      status_delivered
      []
      (ascii "sandbox:accepted")
      2
unfolding new_sandbox with_scripted_errors as_permanent_error
dispatch_scripted_example =
    dispatch_scripted desk note (scripted (timeout ∷ [])) (timeout ∷ []) live resolved (λ k b. refl)
      refl (below_one _ (refl, refl)) (omega arith)

base_backoff_example : base_backoff two_tries 4 ≡ pos 5_000
base_backoff_example =
    base_backoff_lem two_tries 1_000 5_000 refl refl (omega arith) (omega arith) 3

-- The third backoff is 4000 before jitter.
next-halved : (next two_tries (record { attempt = 2 })).0 ≡ pos 2_000
unfolding next base_backoff doublings double64 float64 multiply int64 nearest nearest_multiple
    unit_in_last
next-halved = refl

-- The nearest float64 of 2^53 + 1 is 2^53.
float64-rounded : int64 (float64 (pos (2 ^ 53 + 1))) ≡ pos (2 ^ 53)
unfolding float64 int64 nearest nearest_multiple unit_in_last
float64-rounded = refl

abbrev letter : ConsumedMessage
letter = record { body = []; notification_id = ascii "n7"; handle = 7 }

abbrev mailbox : State Sandbox
mailbox = record { world = scripted []; acked = [] }

abbrev undecryptable : Error
undecryptable = sentinel err_encryption_policy_violation

-- A malformed message, then one that could not be decrypted.
run_accounts_example :
    (s' : State Sandbox) × (run
        (λ t. none)
        desk
        (message letter ∷ failed undecryptable ∷ [])
        mailbox
      ≡ some (receiving, s'))
    × (map (λ o. o.notification_id) s'.world.recorded ≡ ascii "n7" ∷ [] ∷ [])
    × (s'.acked ≡ 7 ∷ [])
unfolding errors_is
run_accounts_example =
    run_accounts (λ t. none) desk (message letter ∷ failed undecryptable ∷ []) mailbox
      (tt, ((refl, refl, refl), tt))

run-InStep_example :
    (how : Run) × (s' : State Sandbox) × (run
        (λ t. some note)
        desk
        (message letter ∷ failed timeout ∷ [])
        mailbox
      ≡ some (how, s'))
    × InStep s'.world
run-InStep_example =
    run-InStep (λ t. some note) desk (message letter ∷ failed timeout ∷ []) mailbox refl

read_line_example :
    read_line
      (record_line (blank (ascii "n-1") status_permanently_failed reason_expired)).1
      (blank [] status_delivered [])
    ≡ record (blank (ascii "n-1") status_permanently_failed reason_expired) {
      provider_response = truncate [] 512;
    }
read_line_example =
    read_line-record_line (blank (ascii "n-1") status_permanently_failed reason_expired)
