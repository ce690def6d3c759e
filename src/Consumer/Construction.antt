-- ===== src/Consumer/Construction.antt =====
-- The constructor of internal/deliverer/consumer/consumer.go.
use pulsar_notifcation_pipel.Base.{
  not, if◌then◌else◌, apply_all, List, Option, none, some, Bool, true, false, ascii,
}
use pulsar_notifcation_pipel.GoError.{nil, new, Error}
use pulsar_notifcation_pipel.Pulsarlib.{effective_logger, Logger}
use pulsar_notifcation_pipel.Dispatcher.{Recorder, Dispatcher}

-- Consumer; only whether its reader is nil is looked at.
pub record ConsumerDraft (S : Type 0) : Type 0 where
  pub has_reader : Bool
  pub dispatcher : Option (Dispatcher S)
  pub recorder : Option Recorder
  pub logger : Option Logger

pub record Consumer (S : Type 0) : Type 0 where
  pub dispatcher : Dispatcher S
  pub recorder : Recorder
  pub logger : Logger

abbrev pub ConsumerOption : Type 0 → Type 0
ConsumerOption S = ConsumerDraft S → ConsumerDraft S

module _ {S : Type 0} where
  unfoldable pub with_reader : ConsumerOption S
  with_reader c = record c { has_reader = true }

  unfoldable pub with_dispatcher : Option (Dispatcher S) → ConsumerOption S
  with_dispatcher d c = record c { dispatcher = d }

  unfoldable pub with_consumer_recorder : Option Recorder → ConsumerOption S
  with_consumer_recorder r c = record c { recorder = r }

  unfoldable pub with_consumer_logger : Option Logger → ConsumerOption S
  with_consumer_logger l c = record c { logger = l }

  -- New
  unfoldable pub new_consumer : List (ConsumerOption S) → Option (Consumer S) × Error
  new_consumer opts =
      let c : ConsumerDraft S =
        apply_all opts
          (record { has_reader = false; dispatcher = none; recorder = none; logger = none }) in
      if not c.has_reader
      then (none, new (ascii "consumer: WithReader is required"))
      else elim c.dispatcher [
        | none ↦ (none, new (ascii "consumer: WithDispatcher is required"))
        | some d ↦ elim c.recorder [
          | none ↦ (none, new (ascii "consumer: WithRecorder is required"))
          | some r ↦ (
            some (record { dispatcher = d; recorder = r; logger = effective_logger c.logger }),
            nil,
          )
        ]
      ]
