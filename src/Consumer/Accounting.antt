-- ===== src/Consumer/Accounting.antt =====
-- The books of the loop in internal/deliverer/consumer/consumer.go: outcomes, acknowledgements and
-- where it stops.
use pulsar_notifcation_pipel.Base.{
  append_step, arith, ◌⊎◌, ap, ◌∙◌, Option-cases, sym, ◌++◌, All, null, if◌then◌else◌, ℕ, List, [],
  ◌∷◌, Option, none, some, true, false, inl, inr, refl, ◌≡◌, Text,
}
use pulsar_notifcation_pipel.Outcomes.{Outcome}
use pulsar_notifcation_pipel.Consumer.{
  returned, record_policy_violation, receiving, ConsumedMessage, State, handle_message, run, failed,
  message, Received,
}
use pulsar_notifcation_pipel.GoError.{
  Error, err_encryption_policy_violation, nil, deadline_exceeded, canceled, errors_is,
}
use mathlib.Core.List.{append-nil, map, map-append}
use pulsar_notifcation_pipel.Metrics.{record_consumed}
use pulsar_notifcation_pipel.Dispatcher.{World, Dispatcher}
use pulsar_notifcation_pipel.Dispatcher.Dispatch.{recorder_record, count_outcome}
use pulsar_notifcation_pipel.Dispatcher.Total.{dispatch_total}
use pulsar_notifcation_pipel.Message.{Notification}

-- The messages among the receipts, by what acknowledges them.
abbrev pub handles : List Received → List ℕ
handles [] = []
handles (message m ∷ rs) = m.handle ∷ handles rs
handles (failed e ∷ rs) = handles rs

-- A receipt after which the loop goes on.
abbrev pub IsServed : Received → Type 0
IsServed (message m) = Unit {0}
IsServed (failed e) =
    (errors_is e canceled ≡ false)
    × (errors_is e deadline_exceeded ≡ false)
    × (errors_is e err_encryption_policy_violation ≡ true)

-- The notifications that outcomes are for.
abbrev pub outcome_ids : List Outcome → List Text
outcome_ids = map (λ o. o.notification_id)

-- The identifier under which a receipt is recorded: the payload's, or the message property where the
-- payload has none or is malformed; empty for a message that could not be decrypted.
abbrev pub payload_id : Option Notification → Text → Text
payload_id none property = property
payload_id (some n) property = if null n.notification_id then property else n.notification_id

abbrev pub receipt_id : (Text → Option Notification) → Received → Text
receipt_id unmarshal (failed e) = []
receipt_id unmarshal (message m) = payload_id (unmarshal m.body) m.notification_id

module _ {S : Type 0} (unmarshal : Text → Option Notification) (d : Dispatcher S) where
  pub violation-ids :
      (id : Text) (w : World S)
      → outcome_ids (record_policy_violation id w).recorded ≡ outcome_ids w.recorded ++ id ∷ []
  unfolding record_policy_violation recorder_record count_outcome
  violation-ids id w = map-append _ w.recorded _

  pub handle_message-ids :
      (m : ConsumedMessage) (w : World S)
      → (w' : World S) × (handle_message unmarshal d m w ≡ some (nil, w'))
        × (outcome_ids w'.recorded
            ≡ outcome_ids w.recorded ++ receipt_id unmarshal (message m) ∷ [])
  unfolding handle_message recorder_record count_outcome
  handle_message-ids m w = elim (Option-cases (unmarshal m.body)) [
    | inl e ↦ rw (e, handle_message) (_, refl, map-append _ w.recorded _)
    | inr (n, e) ↦
        let n' : Notification = record n {
          notification_id = payload_id (some n) m.notification_id;
        } in
        let (w', returned_nil, ends) =
          dispatch_total d n' (record w { instruments = record_consumed w.instruments }) in
        rw (e, handle_message)
          (
            w',
            returned_nil,
            ap outcome_ids ends.recorded
                ∙ map-append _ w.recorded _
                ∙ ap (λ x. outcome_ids w.recorded ++ x ∷ []) ends.same_id,
          )
  ]

  -- While messages come, or fail to decrypt, the loop goes on; it records one outcome for each
  -- receipt, in order and under its identifier, and acknowledges exactly the messages, in order.
  pub run_accounts :
      (receipts : List Received) (s : State S)
      → All IsServed receipts
      → (s' : State S) × (run unmarshal d receipts s ≡ some (receiving, s'))
        × (outcome_ids s'.world.recorded
            ≡ outcome_ids s.world.recorded ++ map (receipt_id unmarshal) receipts)
        × (s'.acked ≡ s.acked ++ handles receipts)
  unfolding run record_policy_violation
  run_accounts [] s h = (s, refl, sym (append-nil _), sym (append-nil _))
  run_accounts (message m ∷ rs) s (_, h) =
      let (w1, handled, i1) = handle_message-ids m s.world in
      let (s', ran, i2, a2) =
        run_accounts rs (record { world = w1; acked = s.acked ++ m.handle ∷ [] }) h in
      (
        s',
        rw (handled, run) ran,
        append_step (outcome_ids s.world.recorded) (receipt_id unmarshal (message m))
            (map (receipt_id unmarshal) rs) i1 i2,
        append_step s.acked m.handle (handles rs) refl a2,
      )
  run_accounts (failed e ∷ rs) s ((c, t, v), h) =
      let (s', ran, i2, a2) =
        run_accounts rs (record s { world = record_policy_violation [] s.world }) h in
      (
        s',
        rw (c, t, v) ran,
        append_step (outcome_ids s.world.recorded) [] (map (receipt_id unmarshal) rs)
            (violation-ids [] s.world) i2,
        a2,
      )

  pub run-append :
      (xs ys : List Received) (s s' : State S)
      → run unmarshal d xs s ≡ some (receiving, s')
      → run unmarshal d (xs ++ ys) s ≡ run unmarshal d ys s'
  unfolding run
  run-append [] ys s s' e = ap (run unmarshal d ys) (ground arith)
  run-append (message m ∷ xs) ys s s' e =
      elim (Option-cases (handle_message unmarshal d m s.world)) [
        | inl missing ↦ cc (rw (missing, run) at e)
        | inr ((err, w), handled) ↦
            rw (handled, run)
              (run-append xs ys (record { world = w; acked = s.acked ++ m.handle ∷ [] }) s'
                (rw (handled, run) at e))
      ]
  run-append (failed err ∷ xs) ys s s' e =
      let rest = run-append xs ys (record s { world = record_policy_violation [] s.world }) s' in
      ground (arith, rest)

  -- A cancelled or expired context ends the loop without an error, and with the state that the
  -- receipts before it left; what would have come after is not read.
  pub run_cancelled :
      (xs ys : List Received) (s s' : State S) (err : Error)
      → run unmarshal d xs s ≡ some (receiving, s')
      → (errors_is err canceled ≡ true) ⊎ (errors_is err deadline_exceeded ≡ true)
      → run unmarshal d (xs ++ failed err ∷ ys) s ≡ some (returned nil, s')
  run_cancelled xs ys s s' err e over = run-append xs (failed err ∷ ys) s s' e ∙ stops
    where
      stops : run unmarshal d (failed err ∷ ys) s' ≡ some (returned nil, s')
      stops = unfold run in ground arith
