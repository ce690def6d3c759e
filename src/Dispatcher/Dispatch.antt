-- ===== src/Dispatcher/Dispatch.antt =====
-- `Dispatch` of internal/deliverer/dispatcher/dispatcher.go and the helpers below it.
use pulsar_notifcation_pipel.Base.{
  zero, ascii, suc, false, ◌-◌, ltb, if◌then◌else◌, ◌∷◌, Bool, ◌++◌, ◌+◌, [], ℕ, Text,
}
use pulsar_notifcation_pipel.Message.{
  unknown, unset, pushover, is_zero, sub, zero_time, Target, Notification, Duration, Time,
}
use pulsar_notifcation_pipel.GoError.{
  error_text, as_transient_error, not_implemented_error, as_permanent_error, new, is_nil, nil,
  Error,
}
use pulsar_notifcation_pipel.Metrics.{
  result_transient, result_permanent, result_success, record_outcome, record_provider_attempt,
}
use pulsar_notifcation_pipel.Outcomes.{
  reason_expired, status_expired, reason_provider_rejected_payload, blank, status_delivered,
  status_text, reason_retry_budget_exhausted, Status, status_permanently_failed, Outcome,
}
use pulsar_notifcation_pipel.Base.Dict.{lookup}
use pulsar_notifcation_pipel.Base.Int.{pos_part}
use pulsar_notifcation_pipel.Provider.{PushProvider, PushReturn, Result}
use pulsar_notifcation_pipel.Dispatcher.{Dispatcher, World}
use mathlib.Core.Option.{none, some, Option}
use pulsar_notifcation_pipel.Retry.{done, next, new_iterator, Iterator}
use mathlib.Core.Option

-- d.recorder.Record
unfoldable pub recorder_record : {S : Type 0} → Outcome → World S → World S
recorder_record o w = record w { recorded = w.recorded ++ o ∷ [] }

-- metrics.RecordOutcome, with the arguments of the call.
unfoldable pub count_outcome :
    {S : Type 0} → Status → (reason provider : Text) → (attempts : ℕ) → World S → World S
count_outcome status reason provider attempts w = record w {
  instruments = record_outcome (status_text status) reason provider attempts w.instruments;
}

-- isExpired, with the instant that it reports.
unfoldable pub is_expired : Notification → Time → Bool × Time
is_expired n now = elim n.expires_at [
  | none ↦ (false, zero_time)
  | some exp ↦ if is_zero exp then (false, zero_time) else (ltb exp now, now)
]

unfoldable pub safe_response : Option Result → Text
safe_response none = []
safe_response (some r) = r.provider_response

module _ {S : Type 0} (d : Dispatcher S) where
  -- The type switch on the target.
  unfoldable pub resolve_target : Target → Option (PushProvider S) × Text × Error
  resolve_target (pushover t) = elim (lookup (ascii "pushover") d.providers) [
    | some p ↦ (some p, ascii "pushover", nil)
    | none ↦ (none, ascii "pushover", not_implemented_error (ascii "pushover"))
  ]
  resolve_target unset = (none, ascii "unknown", not_implemented_error (ascii "unknown"))
  resolve_target unknown = (none, ascii "unknown", not_implemented_error (ascii "unknown"))

  unfoldable pub resolve : Notification → Option (PushProvider S) × Text × Error
  resolve n = resolve_target n.target

-- The variables of the retry loop.
pub record Attempts : Type 0 where
  pub iter : Iterator
  pub first : Time
  pub last : Time
  pub last_resp : Text

-- What one round of the loop does: it ends the dispatch, or goes on.
pub data Round (S : Type 0) : Type 0 where
  finished : World S → Round S
  retrying : Attempts → World S → Round S

-- `return nil` from the loop, or its next round.
abbrev pub after_round :
    {S : Type 0} → (Attempts → World S → Option (World S)) → Round S → Option (World S)
after_round rest (finished w) = some w
after_round rest (retrying l w) = rest l w

module _ {S : Type 0} (d : Dispatcher S) (p : PushProvider S) (n : Notification) where
  abbrev pub outcome_of : Attempts → Status → Text → Text → ℕ → Outcome
  outcome_of l status reason response attempts = record {
    notification_id = n.notification_id;
    status = status;
    reason = reason;
    provider_response = response;
    attempts = attempts;
    first_attempt = l.first;
    last_attempt = l.last;
  }

  -- What follows the return of Push.
  unfoldable pub settle : PushReturn → Duration → Attempts → World S → Round S
  settle (res, err) attempt_dur l w =
      let attempted = λ (class : Text). record w {
        instruments = record_provider_attempt p.name class attempt_dur w.instruments;
      } in
      if is_nil err
      then finished (
          count_outcome status_delivered [] p.name l.iter.attempt (
            recorder_record (outcome_of l status_delivered [] (safe_response res) l.iter.attempt)
              (attempted result_success)))
      else elim (as_permanent_error err) [
        | some (reason, response) ↦ finished (
            count_outcome status_permanently_failed reason p.name l.iter.attempt (
              recorder_record
                (outcome_of l status_permanently_failed reason response l.iter.attempt)
                (attempted result_permanent)))
        | none ↦ elim (as_transient_error err) [
          | some response ↦
              retrying (record l { last_resp = response }) (attempted result_transient)
          | none ↦ retrying (record l { last_resp = error_text err }) (attempted result_transient)
        ]
      ]

  -- One call of Push between two readings of the clock.
  unfoldable pub try_push : Attempts → World S → Round S
  try_push l w =
      let start = d.clock w.clock_reads in
      let (ret, state) = p.push n w.state in
      let last = d.clock (w.clock_reads + 1) in
      settle ret (sub last start)
        (record l { first = if is_zero l.first then start else l.first; last = last })
        (record w { state = state; clock_reads = w.clock_reads + 2 })

  -- The body of the loop.
  unfoldable pub round : Attempts → World S → Round S
  round l w =
      let (backoff, iter) = next d.retry l.iter in
      let l' = record l { iter = iter } in
      let slept = record w { sleeps = w.sleeps + 1 } in
      if ltb 1 iter.attempt
      then if is_nil (d.sleep w.sleeps backoff)
        then try_push l' slept
        else finished (
            count_outcome status_permanently_failed reason_retry_budget_exhausted p.name
              (iter.attempt - 1)
              (recorder_record
                (outcome_of l' status_permanently_failed reason_retry_budget_exhausted l.last_resp
                  (iter.attempt - 1))
                slept))
      else try_push l' w

  abbrev pub exhausted : Attempts → World S → World S
  exhausted l w =
      count_outcome status_permanently_failed reason_retry_budget_exhausted p.name l.iter.attempt (
        recorder_record
          (outcome_of l status_permanently_failed reason_retry_budget_exhausted l.last_resp
            l.iter.attempt)
          w)

  -- `for !iter.Done()`, with the rounds that are left as fuel; `none` means that it ran out.
  unfoldable pub attempts_loop : ℕ → Attempts → World S → Option (World S)
  attempts_loop zero l w = if done d.retry l.iter then some (exhausted l w) else none
  attempts_loop (suc fuel) l w =
      let body = after_round (attempts_loop fuel) (round l w) in
      if done d.retry l.iter then some (exhausted l w) else body

  abbrev pub fresh : Attempts
  fresh = record { iter = new_iterator; first = zero_time; last = zero_time; last_resp = [] }

module _ {S : Type 0} (d : Dispatcher S) where
  -- What follows the expiry check, where `now` is the reading of the clock that it used.
  unfoldable pub deliver : Notification → Time → World S → Option (World S)
  deliver n now w = elim ((resolve d n).0) [
    | none ↦ some (
        count_outcome status_permanently_failed reason_provider_rejected_payload [] 0 (
          recorder_record
            (record (blank n.notification_id status_permanently_failed
              reason_provider_rejected_payload) { first_attempt = now; last_attempt = now })
            w))
    | some p ↦ attempts_loop d p n (pos_part d.retry.max_attempts) (fresh d p n) w
  ]

  -- Dispatch: the error that it returns, and the world after it. `none` means that the loop ran out
  -- of its fuel, the attempts that the policy allows.
  unfoldable pub dispatch : Option Notification → World S → Option (Error × World S)
  dispatch notification w =
      let now = d.clock w.clock_reads in
      let w' = record w { clock_reads = w.clock_reads + 1 } in
      elim notification [
        | none ↦ some (new (ascii "dispatcher: nil notification"), w')
        | some n ↦
            let (expired, exp) = is_expired n now in
            if expired
            then some (
              nil,
              count_outcome status_expired reason_expired [] 0 (
                  recorder_record
                    (record (blank n.notification_id status_expired reason_expired) {
                      first_attempt = exp;
                      last_attempt = exp;
                    })
                    w'),
            )
            else Option.map (λ w''. (nil, w'')) (deliver n now w')
      ]
