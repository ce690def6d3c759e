-- ===== src/Consumer.antt =====
-- internal/deliverer/consumer/consumer.go: the read, decode and dispatch loop of one worker.
pub mod Accounting
pub mod InStep
pub mod Construction
use pulsar_notifcation_pipel.Base.{◌∷◌, null, ◌++◌, none, ◌||◌, if◌then◌else◌, [], List, ℕ, Text}
use pulsar_notifcation_pipel.Dispatcher.Dispatch.{dispatch, recorder_record, count_outcome}
use pulsar_notifcation_pipel.Outcomes.{
  reason_provider_rejected_payload, status_permanently_failed, blank, notification_id,
  reason_encryption_policy_violation,
}
use pulsar_notifcation_pipel.GoError.{
  err_encryption_policy_violation, nil, deadline_exceeded, canceled, errors_is, Error,
}
use mathlib.Core.Option.{some, Option}
use pulsar_notifcation_pipel.Metrics.{record_consumed}
use pulsar_notifcation_pipel.Dispatcher.{Dispatcher, World}
use pulsar_notifcation_pipel.Message.{Notification}
use mathlib.Core.Option

-- A consumed message: `handle` is the message that its Ack acknowledges.
pub record ConsumedMessage : Type 0 where
  pub body : Text
  pub notification_id : Text
  pub handle : ℕ

-- What one call of Receive returns.
pub data Received : Type 0 where
  message : ConsumedMessage → Received
  failed : Error → Received

-- The dispatcher's world, and the messages acknowledged, in order.
pub record State (S : Type 0) : Type 0 where
  pub world : World S
  pub acked : List ℕ

-- How a run stands after the given receipts: still in Receive, or returned with an error or nil.
pub data Run : Type 0 where
  receiving : Run
  returned : Error → Run

module _ {S : Type 0} where
  -- recordPolicyViolation
  unfoldable pub record_policy_violation : Text → World S → World S
  record_policy_violation id w =
      count_outcome status_permanently_failed reason_encryption_policy_violation [] 0
        (recorder_record (blank id status_permanently_failed reason_encryption_policy_violation) w)

-- `unmarshal` is proto.Unmarshal into a fresh Notification: `none` is an error.
module _ {S : Type 0} (unmarshal : Text → Option Notification) (d : Dispatcher S) where
  -- handle: the error that it returns, and the world; `none` where the dispatch gives none.
  unfoldable pub handle_message : ConsumedMessage → World S → Option (Error × World S)
  handle_message msg w =
      let consumed = record w { instruments = record_consumed w.instruments } in
      elim (unmarshal msg.body) [
        | none ↦ some (
          nil,
          count_outcome status_permanently_failed reason_provider_rejected_payload [] 0 (
              recorder_record
                (blank msg.notification_id status_permanently_failed
                  reason_provider_rejected_payload)
                consumed),
        )
        | some n ↦
            dispatch d
              (some (record n {
                notification_id =
                    if null n.notification_id then msg.notification_id else n.notification_id;
              }))
              consumed
      ]

  -- The loop of Run over the receipts that come, one for each call of Receive. An error of `handle`
  -- is logged, and the message acknowledged all the same.
  unfoldable pub run : List Received → State S → Option (Run × State S)
  run [] s = some (receiving, s)
  run (failed err ∷ more) s =
      let violation = run more (record s { world = record_policy_violation [] s.world }) in
      if errors_is err canceled || errors_is err deadline_exceeded
      then some (returned nil, s)
      else if errors_is err err_encryption_policy_violation
      then violation
      else some (returned err, s)
  run (message msg ∷ more) s = elim (handle_message msg s.world) [
    | none ↦ none
    | some (err, w) ↦ run more (record { world = w; acked = s.acked ++ msg.handle ∷ [] })
  ]
