-- ===== src/Workers/Stalling.antt =====
-- That the workers of cmd/deliverer/main.go can all return before a signal, and what is left then.
use pulsar_notifcation_pipel.Base.{
  subst, All, ap, [], ◌∷◌, true, arith, All-at, sym, refl, ◌∙◌, ◌++◌, ℕ, zero, suc, List, Option,
  false, inr, ◌≡◌, Text, replicate, ascii,
}
use pulsar_notifcation_pipel.Workers.{
  signal_step, start, wait_step, attempt_step, Step, trying, HasReturned, spawn, Pool, Worker,
  listening, stopped, listen, Reach, later, receive_step, taken,
}
use mathlib.Core.Bool.{true≢false}
use pulsar_notifcation_pipel.Base.Int.{pos_part, ℤ}
use mathlib.Core.List.{append_assoc, append-nil}
use pulsar_notifcation_pipel.GoError.{
  deadline_exceeded, canceled, errors_is, Error, err_encryption_policy_violation, wrap,
}
use pulsar_notifcation_pipel.Pulsarlib.{receive}
use pulsar_notifcation_pipel.Consumer.{ConsumedMessage, Received, State}
use pulsar_notifcation_pipel.Dispatcher.Dispatch.{Attempts}
use pulsar_notifcation_pipel.Provider.{PushProvider}
use pulsar_notifcation_pipel.Message.{Notification}
use pulsar_notifcation_pipel.Dispatcher.{Dispatcher}

-- The pool whose workers have all returned with an error before any signal.
abbrev pub stalled : {S : Type 0} → ℕ → Error → State S → Pool S
stalled n err s = record {
  workers = replicate n (stopped err);
  state = s;
  cancelled = false;
  waited = false;
}

-- What the consumer over the Pulsar client returns for an error of the client.
abbrev pub received_error : Error → Error
received_error = wrap (ascii "pulsarlib: receive")

module _ {S : Type 0} (unmarshal : Text → Option Notification) (d : Dispatcher S) where
  listen-stops :
      (err : Error) (s : State S)
      → errors_is err canceled ≡ false
      → errors_is err deadline_exceeded ≡ false
      → errors_is err err_encryption_policy_violation ≡ false
      → listen unmarshal d (receive (inr err)) s ≡ (stopped (received_error err), s)
  unfolding listen receive errors_is
  listen-stops err s c t v = rw (c, t) (rw (c, t, v) refl)

  -- The workers, reached from a first pool with these receipts, over an unchanged state.
  abbrev Comes : Pool S → State S → List (Worker S) → List Received → Type 0
  Comes first s ws rs =
      (reach : Reach unmarshal d first
        (record { workers = ws; state = s; cancelled = false; waited = false }))
      × (taken reach ≡ rs)

  -- One worker after the other meets the error.
  stops_from :
      (first : Pool S) (s : State S) (err : Error) (r : Received)
      → listen unmarshal d r s ≡ (stopped err, s)
      → (n : ℕ) (before : List (Worker S)) (rs : List Received)
      → Comes first s (before ++ replicate n listening) rs
      → Comes first s (before ++ replicate n (stopped err)) (rs ++ replicate n r)
  unfolding taken
  stops_from first s err r stops zero before rs (reach, takes) =
      (reach, takes ∙ sym (append-nil rs))
  stops_from first s err r stops (suc n) before rs (reach, takes) =
      let step : Comes first s (before ++ stopped err ∷ replicate n listening) (rs ++ r ∷ []) = (
        later reach (receive_step before (replicate n listening) s s (stopped err) r stops),
        ap (λ xs. xs ++ r ∷ []) takes,
      ) in
      let moved =
        subst (λ ws. Comes first s ws (rs ++ r ∷ []))
          (sym (append_assoc before (stopped err ∷ []) (replicate n listening))) step in
      let rest =
        stops_from first s err r stops n (before ++ stopped err ∷ []) (rs ++ r ∷ []) moved in
      subst (λ ws. Comes first s ws (rs ++ replicate (suc n) r))
        (append_assoc before (stopped err ∷ []) (replicate n (stopped err)))
        (subst (Comes first s ((before ++ stopped err ∷ []) ++ replicate n (stopped err)))
          (append_assoc rs (r ∷ []) (replicate n r)) rest)

  All-stopped : (n : ℕ) (err : Error) → All (HasReturned {S = S}) (replicate n (stopped err))
  All-stopped zero err = tt
  All-stopped (suc n) err = ((err, refl), All-stopped n err)

  listening-goes : ¬ HasReturned {S = S} listening
  listening-goes (err, e) = ground arith

  trying-goes :
      (msg : ConsumedMessage) (p : PushProvider S) (n : Notification) (l : Attempts)
      → ¬ HasReturned (trying msg p n l)
  trying-goes msg p n l (err, e) = ground arith

  only_signal :
      (p q : Pool S)
      → All HasReturned p.workers
      → p.cancelled ≡ false
      → Step unmarshal d p q
      → q ≡ record p { cancelled = true }
  only_signal p q done running (receive_step before after s s' wk r took) =
      absurd (listening-goes (All-at HasReturned before listening after done))
  only_signal p q done running (attempt_step before after s s' wk msg pr n l went) =
      absurd (trying-goes msg pr n l (All-at HasReturned before (trying msg pr n l) after done))
  only_signal p q done running signal_step = refl
  only_signal p q done running (wait_step _) = absurd (true≢false running)

  -- If each worker's Receive meets, at its first call, an error of the Pulsar client that is neither a
  -- context's nor the library's sentinel for an encryption policy violation, as any error of a
  -- client that does not know that sentinel is: the program comes to a pool whose workers have all
  -- returned with that error, wrapped, where nothing was recorded or acknowledged and no signal has
  -- come, and the only step from there is the signal.
  pub Reach-stalled :
      (concurrency : ℤ) (s : State S) (err : Error)
      → errors_is err canceled ≡ false
      → errors_is err deadline_exceeded ≡ false
      → errors_is err err_encryption_policy_violation ≡ false
      → let p = stalled (pos_part concurrency) (received_error err) s in
        (reach : Reach unmarshal d (spawn concurrency s) p) × (taken reach
          ≡ replicate (pos_part concurrency) (receive (inr err)))
        × ((q : Pool S) → Step unmarshal d p q → q ≡ record p { cancelled = true })
  unfolding spawn taken
  Reach-stalled concurrency s err c t v =
      let (reach, takes) =
        stops_from (spawn concurrency s) s (received_error err) (receive (inr err))
          (listen-stops err s c t v) (pos_part concurrency) [] [] (start, refl) in
      (
        reach,
        takes,
        λ q step.
            only_signal (stalled (pos_part concurrency) (received_error err) s) q
              (All-stopped (pos_part concurrency) (received_error err)) refl step,
      )
