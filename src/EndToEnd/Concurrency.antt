-- ===== src/EndToEnd/Concurrency.antt =====
-- What the callers of internal/writer/httpserver were told against what all the workers of
-- cmd/deliverer/main.go record, for the messages that went from the one to the others.
use pulsar_notifcation_pipel.Base.{
  sym, ap, ◌∙◌, All, Bool-cases, if◌then◌else◌, ◌++◌, List, [], ◌∷◌, Option, inl, inr, refl, subst,
  ◌≡◌, Text,
}
use mathlib.Core.List.{Perm, map}
use pulsar_notifcation_pipel.Consumer.Accounting.{receipt_id, handles, IsServed}
use pulsar_notifcation_pipel.Workers.Rounds.{recorded_for, is_over}
use pulsar_notifcation_pipel.Workers.Accounting.{recorded_all, all_ids, all_handles, Reach-accounts}
use pulsar_notifcation_pipel.Workers.{taken, Pool, Reach, spawn}
use pulsar_notifcation_pipel.EndToEnd.Accounting.{
  IsQueue, KeepsId, AreDelivered, received, received_handles, received-lem, served_told,
}
use pulsar_notifcation_pipel.Router.Balance.{IsQuiet}
use pulsar_notifcation_pipel.Router.Sessions.{serve_all, told_all}
use pulsar_notifcation_pipel.EndToEnd.{Connection, writer_handler}
use pulsar_notifcation_pipel.Handlers.{ServerWorld}
use pulsar_notifcation_pipel.Http.{Request}
use pulsar_notifcation_pipel.Pulsarlib.{PublishInput, ReceivedMessage}
use pulsar_notifcation_pipel.Message.{Notification}
use pulsar_notifcation_pipel.Dispatcher.{Dispatcher}
use pulsar_notifcation_pipel.Consumer.{Received, State, message, failed}
use pulsar_notifcation_pipel.Base.Int.{ℤ}

-- The receipts without those that only say that a context is over.
abbrev pub kept : List Received → List Received
kept [] = []
kept (message m ∷ rs) = message m ∷ kept rs
kept (failed e ∷ rs) = if is_over e then kept rs else failed e ∷ kept rs

recorded_all-kept :
    (unmarshal : Text → Option Notification) (rs : List Received)
    → recorded_all unmarshal rs ≡ recorded_all unmarshal (kept rs)
recorded_all-kept unmarshal [] = refl
recorded_all-kept unmarshal (message m ∷ rs) =
    ap (λ xs. receipt_id unmarshal (message m) ∷ xs) (recorded_all-kept unmarshal rs)
recorded_all-kept unmarshal (failed e ∷ rs) = elim (Bool-cases (is_over e)) [
  | inl over ↦ rw over (recorded_all-kept unmarshal rs)
  | inr on ↦
      let same : kept (failed e ∷ rs) ≡ failed e ∷ kept rs = rw on refl in
      ap (λ xs. recorded_for unmarshal (failed e) ++ xs) (recorded_all-kept unmarshal rs)
      ∙ ap (recorded_all unmarshal) (sym same)
]

handles-kept : (rs : List Received) → handles rs ≡ handles (kept rs)
handles-kept [] = refl
handles-kept (message m ∷ rs) = ap (λ xs. m.handle ∷ xs) (handles-kept rs)
handles-kept (failed e ∷ rs) = elim (Bool-cases (is_over e)) [
  | inl over ↦ rw over (handles-kept rs)
  | inr on ↦ rw on (handles-kept rs)
]

recorded_all-served :
    (unmarshal : Text → Option Notification) (rs : List Received)
    → All IsServed rs
    → recorded_all unmarshal rs ≡ map (receipt_id unmarshal) rs
recorded_all-served unmarshal [] h = refl
recorded_all-served unmarshal (message m ∷ rs) (here, h) =
    ap (λ xs. receipt_id unmarshal (message m) ∷ xs) (recorded_all-served unmarshal rs h)
recorded_all-served unmarshal (failed e ∷ rs) ((c, t, v), h) =
    rw (c, t, v) (ap (λ xs. [] ∷ xs) (recorded_all-served unmarshal rs h))

-- The writer serves any sequence of requests, by any callers, over a queue that was empty; the
-- deliverer starts with any number of workers, over a state in which nothing is recorded or
-- acknowledged, and they take the messages that the queue then holds, each as it was sent and by one
-- of them, in any interleaving of their steps over the state that they share, and besides only
-- ends of contexts. Where the codec keeps the identifier of a notification, and the answer where no
-- route matches leaves the state alone and is no 202: the identifiers of the outcomes, with those of
-- the notifications that workers have in hand, are a permutation of those that the writer told in
-- 202 responses; and the acknowledged messages, with those in hand, are one of all messages.
pub serve_all-pooled :
    {P S : Type 0} (conn : Connection P) (queue : P → List PublishInput)
    (unmarshal : Text → Option Notification) (d : Dispatcher S) (rs : List Request)
    (w : ServerWorld P) (msgs : List ReceivedMessage) (concurrency : ℤ) (s : State S) (p : Pool S)
    → IsQueue conn.ingester.publisher queue
    → IsQuiet conn.platform.not_routed
    → KeepsId conn.packages unmarshal
    → queue w.writer.substrate ≡ []
    → AreDelivered (queue (serve_all (writer_handler conn) rs w).1.writer.substrate) msgs
    → s.world.recorded ≡ []
    → s.acked ≡ []
    → (reach : Reach unmarshal d (spawn concurrency s) p) → kept (taken reach) ≡ received msgs
    → Perm (all_ids p) (told_all (serve_all (writer_handler conn) rs w).0)
      × Perm (all_handles p) (received_handles msgs)
serve_all-pooled conn queue unmarshal d rs w msgs concurrency s p is_queue quiet keeps empty
      delivered fresh unacked reach taken_are =
    let (served, same_ids, same_handles) = received-lem unmarshal _ msgs delivered in
    let (ids_are, acked_are) = Reach-accounts unmarshal d concurrency s p fresh unacked reach in
    (
      subst (λ xs. Perm (all_ids p) xs)
          (recorded_all-kept unmarshal _
            ∙ ap (recorded_all unmarshal) taken_are
            ∙ recorded_all-served unmarshal _ served
            ∙ same_ids
            ∙ served_told conn queue unmarshal rs w is_queue quiet keeps empty)
          ids_are,
      subst (λ xs. Perm (all_handles p) xs) (handles-kept _ ∙ ap handles taken_are ∙ same_handles)
          acked_are,
    )
