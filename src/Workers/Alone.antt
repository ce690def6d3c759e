-- ===== src/Workers/Alone.antt =====
-- A deliverer with one worker of cmd/deliverer/main.go, against the loop of
-- internal/deliverer/consumer/consumer.go.
use pulsar_notifcation_pipel.Base.{List, Text, ℕ, ◌≡◌, ◌++◌, ◌-◌, [], ◌∷◌, Option, none, some}
use pulsar_notifcation_pipel.Workers.{Pool, Notification, Worker, listening, trying, stopped}
use pulsar_notifcation_pipel.Base.Int.{pos_part}
use pulsar_notifcation_pipel.Consumer.{
  Received, run, Run, receiving, returned, State, ConsumedMessage,
}
use pulsar_notifcation_pipel.Dispatcher.Dispatch.{attempts_loop}
use mathlib.Core.Option
use pulsar_notifcation_pipel.Dispatcher.{Dispatcher, World}

-- The acknowledgement behind a dispatch that left a world.
abbrev acked_after :
    {S : Type 0} → ConsumedMessage → List ℕ → Option (World S) → Option (Run × State S)
acked_after msg acked none = none
acked_after msg acked (some w) =
    some (receiving, record { world = w; acked = acked ++ msg.handle ∷ [] })

module _ {S : Type 0} (d : Dispatcher S) where
  -- How Run stands once a worker, left alone, has dealt with what it has in hand; the rest of its loop is
  -- the rounds that the policy leaves.
  abbrev pub settled : Worker S × State S → Option (Run × State S)
  settled (listening, s) = some (receiving, s)
  settled (stopped err, s) = some (returned err, s)
  settled (trying msg p n l, s) =
      acked_after msg s.acked
        (attempts_loop d p n (pos_part d.retry.max_attempts - l.iter.attempt) l s.world)

module _ {S : Type 0} (unmarshal : Text → Option Notification) (d : Dispatcher S) where
  -- The pool of one worker that would settle where Run comes to with the given receipts.
  abbrev pub IsAlone : State S → List Received → Pool S → Type 0
  IsAlone s rs p =
      (wk : Worker S) × (p.workers ≡ wk ∷ []) × (settled d (wk, p.state) ≡ run unmarshal d rs s)
