-- ===== src/Workers/Accounting.antt =====
-- The books of all the workers of cmd/deliverer/main.go together: the outcomes that were recorded and the
-- messages that were acknowledged, against the receipts that the workers took between them.
use pulsar_notifcation_pipel.Base.{
  ap, ◌∙◌, sym, ◌++◌, replicate, ℕ, zero, suc, List, [], ◌∷◌, Option, refl, ◌≡◌, subst, Text,
}
use mathlib.Core.List.Perm
use mathlib.Core.List.{Perm, perm_append_comm, append-nil, append_assoc}
use pulsar_notifcation_pipel.Consumer.Accounting.{outcome_ids, handles}
use pulsar_notifcation_pipel.Workers.Rounds.{
  recorded_for, held_ids, held_handles, ids_with, handles_with, listen-books, try_again-books,
}
use pulsar_notifcation_pipel.Workers.{
  signal_step, start, wait_step, receive_step, attempt_step, later, Reach, Pool, Worker, spawn,
  taken, listening, trying,
}
use pulsar_notifcation_pipel.Consumer.{message, failed, Received, State}
use pulsar_notifcation_pipel.Base.Int.{pos_part, ℤ}
use pulsar_notifcation_pipel.Message.{Notification}
use pulsar_notifcation_pipel.Dispatcher.{Dispatcher}

abbrev pub recorded_all : (Text → Option Notification) → List Received → List Text
recorded_all unmarshal [] = []
recorded_all unmarshal (r ∷ rs) = recorded_for unmarshal r ++ recorded_all unmarshal rs

recorded_all-snoc :
    (unmarshal : Text → Option Notification) (rs : List Received) (r : Received)
    → recorded_all unmarshal (rs ++ r ∷ []) ≡ recorded_all unmarshal rs ++ recorded_for unmarshal r
recorded_all-snoc unmarshal [] r = append-nil (recorded_for unmarshal r)
recorded_all-snoc unmarshal (first ∷ rs) r =
    ap (λ xs. recorded_for unmarshal first ++ xs) (recorded_all-snoc unmarshal rs r)
    ∙ sym (append_assoc (recorded_for unmarshal first) _ _)

handles-snoc :
    (rs : List Received) (r : Received) → handles (rs ++ r ∷ []) ≡ handles rs ++ handles (r ∷ [])
handles-snoc [] (message m) = refl
handles-snoc [] (failed e) = refl
handles-snoc (message m ∷ rs) r = ap (λ xs. m.handle ∷ xs) (handles-snoc rs r)
handles-snoc (failed e ∷ rs) r = handles-snoc rs r

-- What the workers have in hand between them.
abbrev pub gather : {S A : Type 0} → (Worker S → List A) → List (Worker S) → List A
gather f [] = []
gather f (wk ∷ workers) = f wk ++ gather f workers

gather-replicate :
    {S A : Type 0} (f : Worker S → List A) (n : ℕ) (wk : Worker S)
    → f wk ≡ []
    → gather f (replicate n wk) ≡ []
gather-replicate f zero wk none_yet = refl
gather-replicate f (suc n) wk none_yet = rw none_yet (gather-replicate f n wk none_yet)

-- One worker's share may stand first.
gather_first :
    {S A : Type 0} (f : Worker S → List A) (before after : List (Worker S)) (wk : Worker S)
    → Perm (gather f (before ++ wk ∷ after)) (f wk ++ gather f (before ++ after))
gather_first f [] after wk = Perm.rfl
gather_first f (x ∷ before) after wk =
    Perm.trans (Perm.append_left (f x) (gather_first f before after wk)) (
      rw
        (
          sym (append_assoc (f x) (f wk) (gather f (before ++ after))),
          sym (append_assoc (f wk) (f x) (gather f (before ++ after))),
        )
        (Perm.append_right (gather f (before ++ after)) (perm_append_comm (f x) (f wk))))

-- Where one worker moves on and the shared list with its share grows by some elements, the shared list
-- with all shares grows by them.
gather-replace :
    {S A : Type 0} (f : Worker S → List A) (before after : List (Worker S)) (wk wk' : Worker S)
    (shared shared' extra : List A)
    → shared' ++ f wk' ≡ (shared ++ f wk) ++ extra
    → Perm
        (shared' ++ gather f (before ++ wk' ∷ after))
        ((shared ++ gather f (before ++ wk ∷ after)) ++ extra)
gather-replace f before after wk wk' shared shared' extra more =
    let rest = gather f (before ++ after) in
    let there : Perm (shared' ++ gather f (before ++ wk' ∷ after)) ((shared' ++ f wk') ++ rest) =
      rw (append_assoc shared' (f wk') rest)
        (Perm.append_left shared' (gather_first f before after wk')) in
    let back : Perm ((shared ++ f wk) ++ rest) (shared ++ gather f (before ++ wk ∷ after)) =
      rw (append_assoc shared (f wk) rest)
        (Perm.append_left shared (Perm.symm (gather_first f before after wk))) in
    let swap : Perm ((shared' ++ f wk') ++ rest) (((shared ++ f wk) ++ rest) ++ extra) =
      rw (more, append_assoc (shared ++ f wk) extra rest, append_assoc (shared ++ f wk) rest extra)
        (Perm.append_left (shared ++ f wk) (perm_append_comm extra rest)) in
    Perm.trans there (Perm.trans swap (Perm.append_right extra back))

-- The recorded outcomes with what is in hand, and the acknowledgements likewise.
abbrev pub all_ids : {S : Type 0} → Pool S → List Text
all_ids p = outcome_ids p.state.world.recorded ++ gather held_ids p.workers

abbrev pub all_handles : {S : Type 0} → Pool S → List ℕ
all_handles p = p.state.acked ++ gather held_handles p.workers

module _ {S : Type 0} (unmarshal : Text → Option Notification) (d : Dispatcher S) where
  -- However the steps of the workers are interleaved over the state that they share: the outcomes that
  -- were recorded and the notifications that workers have in hand are together for exactly the
  -- receipts that were taken, each once, and the messages that were acknowledged or are in hand
  -- are exactly those that were taken, each once; if nothing was recorded or acknowledged before.
  pub Reach-accounts :
      (concurrency : ℤ) (s : State S) (p : Pool S)
      → s.world.recorded ≡ []
      → s.acked ≡ []
      → (reach : Reach unmarshal d (spawn concurrency s) p)
      → Perm (all_ids p) (recorded_all unmarshal (taken reach))
        × Perm (all_handles p) (handles (taken reach))
  unfolding spawn taken
  Reach-accounts concurrency s p fresh unacked start =
      let unheld : gather held_ids (spawn concurrency s).workers ≡ [] =
        gather-replicate held_ids (pos_part concurrency) listening refl in
      let untaken : gather held_handles (spawn concurrency s).workers ≡ [] =
        gather-replicate held_handles (pos_part concurrency) listening refl in
      (rw (fresh, unheld) Perm.nil, rw (unacked, untaken) Perm.nil)
  Reach-accounts concurrency s p fresh unacked
        (later reach (receive_step before after s1 s2 wk r took)) =
      let (ids_are, acked_are) = Reach-accounts concurrency s _ fresh unacked reach in
      let (more_ids, more_acked) = listen-books unmarshal d r s1 in
      (
        rw (recorded_all-snoc unmarshal (taken reach) r) (
            Perm.trans
              (gather-replace held_ids before after listening wk (outcome_ids s1.world.recorded)
                (outcome_ids s2.world.recorded) (recorded_for unmarshal r)
                (sym (ap ids_with took)
                  ∙ more_ids
                  ∙ ap (λ xs. xs ++ recorded_for unmarshal r) (sym (append-nil _))))
              (Perm.append_right (recorded_for unmarshal r) ids_are)),
        rw (handles-snoc (taken reach) r) (
            Perm.trans
              (gather-replace held_handles before after listening wk s1.acked s2.acked
                (handles (r ∷ []))
                (sym (ap handles_with took)
                  ∙ more_acked
                  ∙ ap (λ xs. xs ++ handles (r ∷ [])) (sym (append-nil _))))
              (Perm.append_right (handles (r ∷ [])) acked_are)),
      )
  Reach-accounts concurrency s p fresh unacked
        (later reach (attempt_step before after s1 s2 wk msg pr n l went)) =
      let (ids_are, acked_are) = Reach-accounts concurrency s _ fresh unacked reach in
      let (more_ids, more_acked) = try_again-books d msg pr n l s1 in
      (
        Perm.trans
            (subst (λ xs. Perm (all_ids p) xs) (append-nil _)
              (gather-replace held_ids before after (trying msg pr n l) wk
                (outcome_ids s1.world.recorded) (outcome_ids s2.world.recorded) []
                (sym (ap ids_with went) ∙ more_ids ∙ sym (append-nil _))))
            ids_are,
        Perm.trans
            (subst (λ xs. Perm (all_handles p) xs) (append-nil _)
              (gather-replace held_handles before after (trying msg pr n l) wk s1.acked s2.acked []
                (sym (ap handles_with went) ∙ more_acked ∙ sym (append-nil _))))
            acked_are,
      )
  Reach-accounts concurrency s p fresh unacked (later reach signal_step) =
      Reach-accounts concurrency s _ fresh unacked reach
  Reach-accounts concurrency s p fresh unacked (later reach (wait_step done)) =
      Reach-accounts concurrency s _ fresh unacked reach
