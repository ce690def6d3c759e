-- ===== src/Consumer/InStep.antt =====
-- The outcome log and the outcome counter of internal/deliverer/dispatcher/dispatcher.go stay in step,
-- also through the consumer's loop of internal/deliverer/consumer/consumer.go.
use pulsar_notifcation_pipel.Base.{
  ◌||◌, subst, null, if◌then◌else◌, List, refl, sym, ◌++◌, ap, ◌∙◌, ℕ, zero, suc, Option, none,
  some, Option-cases, ltb, Bool-cases, map, [], ◌∷◌, inl, inr, ◌≡◌, Text,
}
use pulsar_notifcation_pipel.GoError.{
  err_encryption_policy_violation, deadline_exceeded, canceled, errors_is, nil, Error,
  as_transient_error, as_permanent_error, is_nil,
}
use pulsar_notifcation_pipel.Consumer.{
  failed, message, Run, ConsumedMessage, State, Received, record_policy_violation, handle_message,
  run,
}
use pulsar_notifcation_pipel.Dispatcher.Total.{dispatch_total}
use pulsar_notifcation_pipel.Metrics.{
  record_consumed, OutcomeAttrs, result_transient, record_outcome, record_provider_attempt,
}
use pulsar_notifcation_pipel.Dispatcher.Dispatch.{
  resolve, is_expired, deliver, after_round, attempts_loop, dispatch, Attempts, try_push, round,
  settle, retrying, finished, Round, recorder_record, count_outcome,
}
use pulsar_notifcation_pipel.Message.{Time, Duration, Notification}
use pulsar_notifcation_pipel.Dispatcher.{Dispatcher, World}
use mathlib.Core.Option
use pulsar_notifcation_pipel.Retry.{done, next}
use mathlib.Core.List.{map-append}
use pulsar_notifcation_pipel.Provider.{PushReturn, PushProvider}
use pulsar_notifcation_pipel.Outcomes.{Outcome, status_text}

abbrev pub outcome_key : Outcome → Text × Text
outcome_key o = (status_text o.status, o.reason)

abbrev pub attrs_key : OutcomeAttrs → Text × Text
attrs_key a = (a.status, a.reason)

-- One count for each outcome, in order, with its status and reason.
abbrev pub InStep : {S : Type 0} → World S → Type 0
InStep w = map outcome_key w.recorded ≡ map attrs_key w.instruments.deliverer_outcomes

abbrev RoundInStep : {S : Type 0} → Round S → Type 0
RoundInStep (finished w) = InStep w
RoundInStep (retrying l w) = InStep w

terminal-InStep :
    {S : Type 0} (o : Outcome) (provider : Text) (w : World S)
    → InStep w
    → InStep (count_outcome o.status o.reason provider o.attempts (recorder_record o w))
unfolding recorder_record count_outcome record_outcome
terminal-InStep o provider w h =
    map-append _ w.recorded _
    ∙ ap (λ xs. xs ++ (status_text o.status, o.reason) ∷ []) h
    ∙ sym (map-append _ w.instruments.deliverer_outcomes _)

attempted-InStep :
    {S : Type 0} (provider class : Text) (dur : Duration) (w : World S)
    → InStep w
    → InStep (record w { instruments = record_provider_attempt provider class dur w.instruments })
unfolding record_provider_attempt
attempted-InStep provider class dur w h = h

module _ {S : Type 0} (d : Dispatcher S) (p : PushProvider S) (n : Notification) where
  settle-InStep :
      (ret : PushReturn) (dur : Duration) (l : Attempts) (w : World S)
      → InStep w
      → RoundInStep (settle d p n ret dur l w)
  unfolding settle
  settle-InStep (res, err) dur l w h = elim (Bool-cases (is_nil err)) [
    | inl ok ↦ rw ok (terminal-InStep _ _ _ (attempted-InStep _ _ dur w h))
    | inr bad ↦ elim (Option-cases (as_permanent_error err)) [
      | inr (pe, e) ↦ rw (bad, e) (terminal-InStep _ _ _ (attempted-InStep _ _ dur w h))
      | inl e ↦ elim (Option-cases (as_transient_error err)) [
        | inr (te, t) ↦ rw (bad, e, t) (attempted-InStep p.name result_transient dur w h)
        | inl t ↦ rw (bad, e, t) (attempted-InStep p.name result_transient dur w h)
      ]
    ]
  ]

  try_push-InStep : (l : Attempts) (w : World S) → InStep w → RoundInStep (try_push d p n l w)
  unfolding try_push
  try_push-InStep l w h = settle-InStep _ _ _ _ h

  round-InStep : (l : Attempts) (w : World S) → InStep w → RoundInStep (round d p n l w)
  unfolding round
  round-InStep l w h = elim (Bool-cases (ltb 1 (next d.retry l.iter).1.attempt)) [
    | inr first ↦ rw first (try_push-InStep _ _ h)
    | inl later ↦ rw later (elim (Bool-cases (is_nil (d.sleep w.sleeps (next d.retry l.iter).0))) [
      | inl slept ↦ rw slept (try_push-InStep _ _ h)
      | inr cut ↦ rw cut (terminal-InStep _ _ _ h)
    ])
  ]

  -- Where a world is left, its log and its counter are in step.
  abbrev LeavesInStep : Option (World S) → Type 0
  LeavesInStep none = Unit {0}
  LeavesInStep (some w) = InStep w

  after_round-InStep :
      (rest : Attempts → World S → Option (World S)) (r : Round S)
      → RoundInStep r
      → ((l : Attempts) (w : World S) → InStep w → LeavesInStep (rest l w))
      → LeavesInStep (after_round rest r)
  after_round-InStep rest (finished w) h ih = h
  after_round-InStep rest (retrying l w) h ih = ih l w h

  attempts_loop-InStep :
      (fuel : ℕ) (l : Attempts) (w : World S)
      → InStep w
      → LeavesInStep (attempts_loop d p n fuel l w)
  unfolding attempts_loop
  attempts_loop-InStep zero l w h = elim (Bool-cases (done d.retry l.iter)) [
    | inl over ↦ rw over (terminal-InStep _ _ _ h)
    | inr more ↦ rw more tt
  ]
  attempts_loop-InStep (suc fuel) l w h = elim (Bool-cases (done d.retry l.iter)) [
    | inl over ↦ rw over (terminal-InStep _ _ _ h)
    | inr more ↦ rw more (
        after_round-InStep (attempts_loop d p n fuel) (round d p n l w) (round-InStep l w h)
          (attempts_loop-InStep fuel))
  ]

abbrev DispatchInStep : {S : Type 0} → Option (Error × World S) → Type 0
DispatchInStep none = Unit {0}
DispatchInStep (some (err, w)) = InStep w

mapped-InStep :
    {S : Type 0} (d : Dispatcher S) (p : PushProvider S) (n : Notification) (r : Option (World S))
    → LeavesInStep d p n r
    → DispatchInStep (Option.map (λ w. (nil, w)) r)
mapped-InStep d p n none h = tt
mapped-InStep d p n (some w) h = h

deliver-InStep :
    {S : Type 0} (d : Dispatcher S) (n : Notification) (now : Time) (w : World S)
    → InStep w
    → DispatchInStep (Option.map (λ w. (nil, w)) (deliver d n now w))
unfolding deliver
deliver-InStep d n now w h = elim (Option-cases ((resolve d n).0)) [
  | inl e ↦ rw (e, deliver) (terminal-InStep _ _ w h)
  | inr (p, e) ↦ rw (e, deliver) (mapped-InStep d p n _ (attempts_loop-InStep d p n _ _ w h))
]

-- Where a dispatch leaves a world, it is in step.
dispatch-InStep :
    {S : Type 0} (d : Dispatcher S) (n : Notification) (w : World S)
    → InStep w
    → DispatchInStep (dispatch d (some n) w)
unfolding dispatch
dispatch-InStep d n w h = elim (Bool-cases ((is_expired n (d.clock w.clock_reads)).0)) [
  | inl old ↦ rw old (terminal-InStep _ _ _ h)
  | inr live ↦ rw live (deliver-InStep d n _ _ h)
]

module _ {S : Type 0} (unmarshal : Text → Option Notification) (d : Dispatcher S) where
  handle_message-InStep :
      (m : ConsumedMessage) (w : World S)
      → InStep w
      → (err : Error) × (w' : World S) × (handle_message unmarshal d m w ≡ some (err, w'))
        × InStep w'
  unfolding handle_message record_consumed
  handle_message-InStep m w h = elim (Option-cases (unmarshal m.body)) [
    | inl e ↦ rw (e, handle_message) (_, _, refl, terminal-InStep _ _ _ h)
    | inr (n, e) ↦
        let n' : Notification = record n {
          notification_id = if null n.notification_id then m.notification_id else n.notification_id;
        } in
        let consumed = record w { instruments = record_consumed w.instruments } in
        let (w', ended, _) = dispatch_total d n' consumed in
        rw (e, handle_message)
          (nil, w', ended, subst DispatchInStep ended (dispatch-InStep d n' consumed h))
  ]

  -- Whatever the receipts are, Run handles them all the way to a state, and there the outcome log and
  -- the outcome counter are in step, if they were so before: one count for each outcome, in
  -- order, with its status and its reason.
  pub run-InStep :
      (receipts : List Received) (s : State S)
      → InStep s.world
      → (how : Run) × (s' : State S) × (run unmarshal d receipts s ≡ some (how, s'))
        × InStep s'.world
  unfolding run record_policy_violation
  run-InStep [] s h = (_, s, refl, h)
  run-InStep (message m ∷ rs) s h =
      let (err, w1, handled, h1) = handle_message-InStep m s.world h in
      let (how, s', ran, h') =
        run-InStep rs (record { world = w1; acked = s.acked ++ m.handle ∷ [] }) h1 in
      (how, s', rw (handled, run) ran, h')
  run-InStep (failed e ∷ rs) s h =
      let (how, s', ran, h') =
        run-InStep rs (record s { world = record_policy_violation [] s.world })
          (terminal-InStep _ _ s.world h) in
      elim (Bool-cases (errors_is e canceled || errors_is e deadline_exceeded)) [
        | inl over ↦ rw over (_, s, refl, h)
        | inr live ↦ rw live (elim (Bool-cases (errors_is e err_encryption_policy_violation)) [
          | inl violation ↦ rw violation (how, s', ran, h')
          | inr other ↦ rw other (_, s, refl, h)
        ])
      ]
