-- ===== src/Examples/Workers.antt =====
-- Concrete runs of the deliverer's worker pool.
use pulsar_notifcation_pipel.Base.{
  some, [], ◌∷◌, Option, true, false, inr, refl, ◌≡◌, ◌≤◌, Text, replicate, ascii, ℕ,
}
use pulsar_notifcation_pipel.Workers.{
  start, Step, Pool, Reach, spawn, listening, stopped, taken, trying,
}
use pulsar_notifcation_pipel.Workers.Draining.{Drain-exists, Drain, pending, busy, IsDown}
use pulsar_notifcation_pipel.Workers.Stalling.{Reach-stalled, stalled, received_error}
use pulsar_notifcation_pipel.GoError.{nil, errors_is, new}
use pulsar_notifcation_pipel.Base.Int.{pos}
use pulsar_notifcation_pipel.Consumer.{message, State, ConsumedMessage}
use pulsar_notifcation_pipel.Examples.Data.{scripted, desk, note, timeout}
use pulsar_notifcation_pipel.Sandbox.{Sandbox, provider}
use pulsar_notifcation_pipel.Workers.Serving.{Comes, serves_all}
use pulsar_notifcation_pipel.Dispatcher.Dispatch.{fresh}
use pulsar_notifcation_pipel.Pulsarlib.{receive}
use pulsar_notifcation_pipel.Message.{Notification}

abbrev reader : Text → Option Notification
reader t = some note

-- The provider first fails once.
abbrev mailbox : State Sandbox
mailbox = record { world = scripted (timeout ∷ []); acked = [] }

abbrev letter : ConsumedMessage
letter = record { body = ascii "x"; notification_id = ascii "n1"; handle = 7 }

-- One worker, which serves the message.
begun : Comes reader desk (spawn (pos 1) mailbox) [] [] false false listening []
unfolding spawn taken
begun = (mailbox, start, refl)

served : Comes reader desk (spawn (pos 1) mailbox) [] [] false false listening (message letter ∷ [])
served =
    serves_all reader desk (spawn (pos 1) mailbox) [] [] false false [] (message letter ∷ [])
      (tt, tt) begun

abbrev afterwards : Pool Sandbox
afterwards = record {
  workers = listening ∷ [];
  state = served.0;
  cancelled = false;
  waited = false;
}

-- A signal with one worker in Receive and one before the first round for the message.
abbrev signalled : Pool Sandbox
signalled = record {
  workers = listening ∷ trying letter provider note (fresh desk provider note) ∷ [];
  state = mailbox;
  cancelled = true;
  waited = false;
}

Drain-exists_example :
    (n : ℕ) × (q : Pool Sandbox) × Drain reader desk n signalled q
    × IsDown reader desk q
    × (busy signalled ≤ n)
    × (n ≤ pending desk signalled)
Drain-exists_example = Drain-exists reader desk signalled refl

-- With one worker in Receive: it returns, and the wait is over.
abbrev stopping : Pool Sandbox
stopping = record { workers = listening ∷ []; state = mailbox; cancelled = true; waited = false }

abbrev over : Pool Sandbox
over = record { workers = stopped nil ∷ []; state = mailbox; cancelled = true; waited = true }

-- Two workers that both meet an error of the client.
Reach-stalled_example :
    let p = stalled 2 (received_error (new (ascii "decrypt"))) mailbox in
    (reach : Reach reader desk (spawn (pos 2) mailbox) p) × (taken reach
      ≡ replicate 2 (receive (inr (new (ascii "decrypt")))))
    × ((q : Pool Sandbox) → Step reader desk p q → q ≡ record p { cancelled = true })
unfolding errors_is
Reach-stalled_example =
    Reach-stalled reader desk (pos 2) mailbox (new (ascii "decrypt")) refl refl refl
