-- ===== src/Workers.antt =====
-- The worker pool of cmd/deliverer/main.go: `Concurrency` goroutines that run the consumer's loop side
-- by side over one consumer, one dispatcher and its providers, and the main goroutine, which waits
-- for a signal and then for the workers. The state is one for all. A step of a worker is what one
-- receipt leads to up to the retry loop, or one round of that loop; steps of different workers,
-- and the signal, come in any order.
pub mod Rounds
pub mod Accounting
pub mod Alone
pub mod Draining
pub mod Serving
pub mod Stalling
use pulsar_notifcation_pipel.Base.{
  ◌+◌, ◌≡◌, All, ◌++◌, ◌||◌, if◌then◌else◌, null, replicate, List, [], ◌∷◌, Option, none, some,
  Bool, true, false, Text,
}
use pulsar_notifcation_pipel.Consumer.{
  ConsumedMessage, message, failed, Received, State, record_policy_violation,
}
use pulsar_notifcation_pipel.Dispatcher.Dispatch.{
  Attempts, Round, finished, retrying, fresh, round, exhausted, resolve, is_expired, count_outcome,
  recorder_record,
}
use pulsar_notifcation_pipel.Outcomes.{
  blank, status_expired, reason_expired, status_permanently_failed,
  reason_provider_rejected_payload,
}
use pulsar_notifcation_pipel.Metrics.{record_consumed}
use pulsar_notifcation_pipel.Retry.{done}
use pulsar_notifcation_pipel.Provider.{PushProvider}
use pulsar_notifcation_pipel.Base.Int.{pos_part, ℤ}
use pulsar_notifcation_pipel.Dispatcher.{Dispatcher, World}
use pulsar_notifcation_pipel.GoError.{
  canceled, deadline_exceeded, err_encryption_policy_violation, errors_is, nil, Error,
}
use pulsar_notifcation_pipel.Message.{Notification}

-- Where a goroutine stands: in Receive, before the next round of the retry loop for a message, or
-- returned from Run with an error or nil.
pub data Worker (S : Type 0) : Type 0 where
  listening : Worker S
  trying : ConsumedMessage → PushProvider S → Notification → Attempts → Worker S
  stopped : Error → Worker S

-- The goroutines, the state that they share, whether ctx is done, and whether wg.Wait has returned.
pub record Pool (S : Type 0) : Type 0 where
  pub workers : List (Worker S)
  pub state : State S
  pub cancelled : Bool
  pub waited : Bool

-- The loop that spawns the workers; a count that is not positive spawns none.
unfoldable pub spawn : {S : Type 0} → (concurrency : ℤ) → State S → Pool S
spawn concurrency s = record {
  workers = replicate (pos_part concurrency) listening;
  state = s;
  cancelled = false;
  waited = false;
}

module _ {S : Type 0} where
  -- `msg.Ack()`, and back to Receive.
  abbrev pub acknowledge : ConsumedMessage → World S → State S → Worker S × State S
  acknowledge msg w s = (listening, record { world = w; acked = s.acked ++ msg.handle ∷ [] })

  -- What a round of the loop leads to.
  abbrev pub go_on :
      ConsumedMessage → PushProvider S → Notification → State S → Round S → Worker S × State S
  go_on msg p n s (finished w) = acknowledge msg w s
  go_on msg p n s (retrying l w) = (trying msg p n l, record s { world = w })

module _ {S : Type 0} (d : Dispatcher S) where
  -- Dispatch up to its loop, for a notification that has its identifier.
  unfoldable pub begin_dispatch :
      ConsumedMessage → Notification → World S → State S → Worker S × State S
  begin_dispatch msg n w s =
      let now = d.clock w.clock_reads in
      let w' = record w { clock_reads = w.clock_reads + 1 } in
      let (expired, exp) = is_expired n now in
      if expired
      then acknowledge msg
          (count_outcome status_expired reason_expired [] 0 (
            recorder_record
              (record (blank n.notification_id status_expired reason_expired) {
                first_attempt = exp;
                last_attempt = exp;
              })
              w'))
          s
      else elim (resolve d n).0 [
        | none ↦
            acknowledge msg
              (count_outcome status_permanently_failed reason_provider_rejected_payload [] 0 (
                recorder_record
                  (record (blank n.notification_id status_permanently_failed
                    reason_provider_rejected_payload) { first_attempt = now; last_attempt = now })
                  w'))
              s
        | some p ↦ (trying msg p n (fresh d p n), record s { world = w' })
      ]

  -- `for !iter.Done()`: one round, or what follows the loop, and then the acknowledgement.
  unfoldable pub try_again :
      ConsumedMessage → PushProvider S → Notification → Attempts → State S → Worker S × State S
  try_again msg p n l s =
      if done d.retry l.iter
      then acknowledge msg (exhausted d p n l s.world) s
      else go_on msg p n s (round d p n l s.world)

module _ {S : Type 0} (unmarshal : Text → Option Notification) (d : Dispatcher S) where
  -- handle up to the retry loop of Dispatch.
  unfoldable pub begin_handle : ConsumedMessage → State S → Worker S × State S
  begin_handle msg s =
      let consumed = record s.world { instruments = record_consumed s.world.instruments } in
      elim (unmarshal msg.body) [
        | none ↦
            acknowledge msg
              (count_outcome status_permanently_failed reason_provider_rejected_payload [] 0 (
                recorder_record
                  (blank msg.notification_id status_permanently_failed
                    reason_provider_rejected_payload)
                  consumed))
              s
        | some n ↦
            begin_dispatch d msg
              (record n {
                notification_id =
                    if null n.notification_id then msg.notification_id else n.notification_id;
              })
              consumed s
      ]

  -- The body of Run for what Receive returned.
  unfoldable pub listen : Received → State S → Worker S × State S
  listen (message msg) s = begin_handle msg s
  listen (failed err) s =
      if errors_is err canceled || errors_is err deadline_exceeded
      then (stopped nil, s)
      else if errors_is err err_encryption_policy_violation
      then (listening, record s { world = record_policy_violation [] s.world })
      else (stopped err, s)

-- A goroutine has returned from Run.
abbrev pub HasReturned : {S : Type 0} → Worker S → Type 0
HasReturned wk = (err : Error) × (wk ≡ stopped err)

pub data Step {S : Type 0} (unmarshal : Text → Option Notification) (d : Dispatcher S)
    : Pool S → Pool S → Type 0 where
  -- A worker's Receive returns.
  receive_step :
      {cancelled waited : Bool} (before after : List (Worker S)) (s s' : State S) (wk : Worker S)
      (r : Received)
      → listen unmarshal d r s ≡ (wk, s')
      → Step unmarshal d
          (record {
            workers = before ++ listening ∷ after;
            state = s;
            cancelled = cancelled;
            waited = waited;
          })
          (record {
            workers = before ++ wk ∷ after;
            state = s';
            cancelled = cancelled;
            waited = waited;
          })
  -- A worker makes a round of its retry loop, or leaves it.
  attempt_step :
      {cancelled waited : Bool} (before after : List (Worker S)) (s s' : State S) (wk : Worker S)
      (msg : ConsumedMessage) (p : PushProvider S) (n : Notification) (l : Attempts)
      → try_again d msg p n l s ≡ (wk, s')
      → Step unmarshal d
          (record {
            workers = before ++ trying msg p n l ∷ after;
            state = s;
            cancelled = cancelled;
            waited = waited;
          })
          (record {
            workers = before ++ wk ∷ after;
            state = s';
            cancelled = cancelled;
            waited = waited;
          })
  -- SIGINT or SIGTERM comes.
  signal_step :
      {workers : List (Worker S)} {state : State S}
      → Step unmarshal d
          (record { workers = workers; state = state; cancelled = false; waited = false })
          (record { workers = workers; state = state; cancelled = true; waited = false })
  -- wg.Wait returns, behind <-ctx.Done().
  wait_step :
      {workers : List (Worker S)} {state : State S}
      → All HasReturned workers
      → Step unmarshal d
          (record { workers = workers; state = state; cancelled = true; waited = false })
          (record { workers = workers; state = state; cancelled = true; waited = true })

-- The pools that the program can reach from a first one.
pub data Reach {S : Type 0} (unmarshal : Text → Option Notification) (d : Dispatcher S)
    (first : Pool S) : Pool S → Type 0 where
  start : Reach unmarshal d first first
  later :
      {p q : Pool S} → Reach unmarshal d first p → Step unmarshal d p q → Reach unmarshal d first q

-- The receipts that the workers took, in the order of their steps.
unfoldable pub taken :
    {S : Type 0} {unmarshal : Text → Option Notification} {d : Dispatcher S} {first p : Pool S}
    → Reach unmarshal d first p
    → List Received
taken start = []
taken (later reach (receive_step before after s s' wk r took)) = taken reach ++ r ∷ []
taken (later reach (attempt_step before after s s' wk msg p n l went)) = taken reach
taken (later reach signal_step) = taken reach
taken (later reach (wait_step done)) = taken reach
