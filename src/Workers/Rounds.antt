-- ===== src/Workers/Rounds.antt =====
-- What one step of a worker of cmd/deliverer/main.go does to its place and to the shared state.
use pulsar_notifcation_pipel.Base.{
  Bool, ap, ◌∙◌, ◌<◌, ◌+◌, Bool-cases, Option-cases, ◌||◌, if◌then◌else◌, ◌++◌, ℕ, List, [], ◌∷◌,
  Option, inl, inr, refl, ◌≡◌, ◌⊎◌, Text,
}
use mathlib.Core.List.{append-nil, map-append}
use pulsar_notifcation_pipel.Consumer.Accounting.{outcome_ids, receipt_id, handles, violation-ids}
use pulsar_notifcation_pipel.Consumer.{ConsumedMessage, State, message, failed, Received}
use pulsar_notifcation_pipel.Dispatcher.Dispatch.{
  Attempts, Round, round, finished, retrying, resolve, is_expired, count_outcome, recorder_record,
}
use pulsar_notifcation_pipel.Dispatcher.Total.{round-RoundOk, RoundOk, lt_of_not_done}
use pulsar_notifcation_pipel.Dispatcher.{Dispatcher, World}
use pulsar_notifcation_pipel.Provider.{PushProvider}
use pulsar_notifcation_pipel.Retry.{done}
use pulsar_notifcation_pipel.Outcomes.{Outcome}
use pulsar_notifcation_pipel.Base.Int.{pos_part}
use pulsar_notifcation_pipel.Workers.{
  Worker, listening, trying, stopped, go_on, try_again, listen, begin_handle, begin_dispatch,
}
use pulsar_notifcation_pipel.Message.{Notification}
use pulsar_notifcation_pipel.GoError.{
  canceled, deadline_exceeded, err_encryption_policy_violation, errors_is, Error,
}

-- The end of a context.
abbrev pub is_over : Error → Bool
is_over e = errors_is e canceled || errors_is e deadline_exceeded

-- The identifiers under which one receipt is recorded: a message's, the empty one for a message that
-- could not be decrypted, and none for another error.
abbrev pub recorded_for : (Text → Option Notification) → Received → List Text
recorded_for unmarshal (message m) = receipt_id unmarshal (message m) ∷ []
recorded_for unmarshal (failed e) =
    if is_over e then [] else if errors_is e err_encryption_policy_violation then [] ∷ [] else []

-- The notification that a worker has in hand, and the message to acknowledge for it.
abbrev pub held_ids : {S : Type 0} → Worker S → List Text
held_ids listening = []
held_ids (trying msg p n l) = n.notification_id ∷ []
held_ids (stopped err) = []

abbrev pub held_handles : {S : Type 0} → Worker S → List ℕ
held_handles listening = []
held_handles (trying msg p n l) = msg.handle ∷ []
held_handles (stopped err) = []

-- What the outcomes are for, with what the worker has in hand, and likewise the acknowledgements.
abbrev pub ids_with : {S : Type 0} → Worker S × State S → List Text
ids_with (wk, s) = outcome_ids s.world.recorded ++ held_ids wk

abbrev pub handles_with : {S : Type 0} → Worker S × State S → List ℕ
handles_with (wk, s) = s.acked ++ held_handles wk

-- The state has one more outcome, for this notification.
ends-ids :
    {S : Type 0} (before : List Outcome) (o : Outcome) (w : World S) (id : Text)
    → w.recorded ≡ before ++ o ∷ []
    → o.notification_id ≡ id
    → outcome_ids w.recorded ++ [] ≡ outcome_ids before ++ id ∷ []
ends-ids before o w id recorded same =
    append-nil _
    ∙ ap outcome_ids recorded
    ∙ map-append _ before _
    ∙ ap (λ x. outcome_ids before ++ x ∷ []) same

module _ {S : Type 0} (d : Dispatcher S) (msg : ConsumedMessage) (p : PushProvider S)
    (n : Notification) where
  go_on-books :
      (s : State S) (attempt : ℕ) (r : Round S)
      → RoundOk n attempt s.world.recorded r
      → (ids_with (go_on msg p n s r) ≡ outcome_ids s.world.recorded ++ n.notification_id ∷ [])
        × (handles_with (go_on msg p n s r) ≡ s.acked ++ msg.handle ∷ [])
  go_on-books s attempt (finished w) ok =
      (ends-ids s.world.recorded ok.outcome w _ ok.recorded ok.same_id, append-nil _)
  go_on-books s attempt (retrying l w) ok =
      (ap (λ x. outcome_ids x ++ n.notification_id ∷ []) ok.1, refl)

  -- A round of the loop, or its end, records the notification in hand and acknowledges its message, or
  -- keeps both in hand.
  pub try_again-books :
      (l : Attempts) (s : State S)
      → (ids_with (try_again d msg p n l s)
          ≡ outcome_ids s.world.recorded ++ n.notification_id ∷ [])
        × (handles_with (try_again d msg p n l s) ≡ s.acked ++ msg.handle ∷ [])
  unfolding try_again recorder_record count_outcome
  try_again-books l s = elim (Bool-cases (done d.retry l.iter)) [
    | inl over ↦ rw over (append-nil _ ∙ map-append _ s.world.recorded _, append-nil _)
    | inr more ↦ rw more (go_on-books s _ (round d p n l s.world) (round-RoundOk d p n l s.world))
  ]

  -- Back in Receive, or with one attempt more, of which the policy had one left.
  abbrev pub IsAhead : Attempts → Worker S → Type 0
  IsAhead l wk =
      (wk ≡ listening)
      ⊎ ((l' : Attempts) × (wk ≡ trying msg p n l')
          × (l'.iter.attempt ≡ l.iter.attempt + 1)
          × (l.iter.attempt < pos_part d.retry.max_attempts))

  go_on-IsAhead :
      (l : Attempts) (s : State S) (r : Round S)
      → RoundOk n (l.iter.attempt + 1) s.world.recorded r
      → l.iter.attempt < pos_part d.retry.max_attempts
      → IsAhead l (go_on msg p n s r).0
  go_on-IsAhead l s (finished w) ok below = inl refl
  go_on-IsAhead l s (retrying l' w) ok below = inr (l', refl, ok.0, below)

  pub try_again-IsAhead : (l : Attempts) (s : State S) → IsAhead l (try_again d msg p n l s).0
  unfolding try_again
  try_again-IsAhead l s = elim (Bool-cases (done d.retry l.iter)) [
    | inl over ↦ rw over (inl refl)
    | inr more ↦ rw more (
        go_on-IsAhead l s (round d p n l s.world) (round-RoundOk d p n l s.world)
          (lt_of_not_done d.retry l.iter more))
  ]

module _ {S : Type 0} (d : Dispatcher S) where
  begin_dispatch-books :
      (msg : ConsumedMessage) (n : Notification) (w : World S) (s : State S)
      → (ids_with (begin_dispatch d msg n w s) ≡ outcome_ids w.recorded ++ n.notification_id ∷ [])
        × (handles_with (begin_dispatch d msg n w s) ≡ s.acked ++ msg.handle ∷ [])
  unfolding begin_dispatch recorder_record count_outcome
  begin_dispatch-books msg n w s = elim (Bool-cases ((is_expired n (d.clock w.clock_reads)).0)) [
    | inl old ↦ rw old (append-nil _ ∙ map-append _ w.recorded _, append-nil _)
    | inr live ↦ rw live (elim (Option-cases ((resolve d n).0)) [
      | inl e ↦ rw (e, begin_dispatch) (append-nil _ ∙ map-append _ w.recorded _, append-nil _)
      | inr (p, e) ↦ rw (e, begin_dispatch) (refl, refl)
    ])
  ]

module _ {S : Type 0} (unmarshal : Text → Option Notification) (d : Dispatcher S) where
  begin_handle-books :
      (m : ConsumedMessage) (s : State S)
      → (ids_with (begin_handle unmarshal d m s)
          ≡ outcome_ids s.world.recorded ++ receipt_id unmarshal (message m) ∷ [])
        × (handles_with (begin_handle unmarshal d m s) ≡ s.acked ++ m.handle ∷ [])
  unfolding begin_handle recorder_record count_outcome
  begin_handle-books m s = elim (Option-cases (unmarshal m.body)) [
    | inl e ↦ rw (e, begin_handle) (append-nil _ ∙ map-append _ s.world.recorded _, append-nil _)
    | inr (n, e) ↦ rw (e, begin_handle) (begin_dispatch-books d m _ _ s)
  ]

  -- A receipt is recorded and acknowledged, or taken in hand, as its kind wants.
  pub listen-books :
      (r : Received) (s : State S)
      → (ids_with (listen unmarshal d r s)
          ≡ outcome_ids s.world.recorded ++ recorded_for unmarshal r)
        × (handles_with (listen unmarshal d r s) ≡ s.acked ++ handles (r ∷ []))
  unfolding listen
  listen-books (message m) s = begin_handle-books m s
  listen-books (failed e) s = elim (Bool-cases (is_over e)) [
    | inl over ↦ rw over (refl, refl)
    | inr on ↦ elim (Bool-cases (errors_is e err_encryption_policy_violation)) [
      | inl violation ↦
          rw (on, violation) (append-nil _ ∙ violation-ids unmarshal d [] s.world, refl)
      | inr other ↦ rw (on, other) (refl, refl)
    ]
  ]
