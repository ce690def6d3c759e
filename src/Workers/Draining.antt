-- ===== src/Workers/Draining.antt =====
-- How the worker pool of cmd/deliverer/main.go comes to its end behind a signal.
use pulsar_notifcation_pipel.Base.{
  zero, Bool-cases, sym, subst, ◌<◌, ◌≤◌, ◌-◌, inl, inr, refl, All, ap, ◌++◌, if◌then◌else◌, ◌+◌, ℕ,
  suc, List, [], ◌∷◌, Option, Bool, true, false, arith, ◌≡◌, Text, ◌⊎◌,
}
use mathlib.Core.Bool.{true≢false}
use pulsar_notifcation_pipel.GoError.{sentinel, deadline_exceeded, canceled, nil, errors_is, Error}
use pulsar_notifcation_pipel.Workers.{
  HasReturned, Pool, Worker, listening, trying, stopped, listen, try_again,
}
use pulsar_notifcation_pipel.Workers.Rounds.{try_again-IsAhead, IsAhead}
use pulsar_notifcation_pipel.Consumer.{failed, ConsumedMessage, State}
use pulsar_notifcation_pipel.Dispatcher.Dispatch.{Attempts}
use pulsar_notifcation_pipel.Provider.{PushProvider}
use pulsar_notifcation_pipel.Base.Int.{pos_part}
use pulsar_notifcation_pipel.Message.{Notification}
use pulsar_notifcation_pipel.Dispatcher.{Dispatcher}

-- What Receive returns once its context is done.
abbrev pub IsOver : Error → Type 0
IsOver err = (errors_is err canceled ≡ true) ⊎ (errors_is err deadline_exceeded ≡ true)

-- A step of a pool whose context is done: a worker's Receive returns the context's error, a worker goes
-- on with the message that it has in hand, or wg.Wait returns.
pub data ContextStep {S : Type 0} (unmarshal : Text → Option Notification) (d : Dispatcher S)
    : Pool S → Pool S → Type 0 where
  over_step :
      {cancelled waited : Bool} (before after : List (Worker S)) (s s' : State S) (wk : Worker S)
      (err : Error)
      → IsOver err
      → listen unmarshal d (failed err) s ≡ (wk, s')
      → ContextStep unmarshal d
          (record {
            workers = before ++ listening ∷ after;
            state = s;
            cancelled = cancelled;
            waited = waited;
          })
          (record {
            workers = before ++ wk ∷ after;
            state = s';
            cancelled = cancelled;
            waited = waited;
          })
  finishing_step :
      {cancelled waited : Bool} (before after : List (Worker S)) (s s' : State S) (wk : Worker S)
      (msg : ConsumedMessage) (p : PushProvider S) (n : Notification) (l : Attempts)
      → try_again d msg p n l s ≡ (wk, s')
      → ContextStep unmarshal d
          (record {
            workers = before ++ trying msg p n l ∷ after;
            state = s;
            cancelled = cancelled;
            waited = waited;
          })
          (record {
            workers = before ++ wk ∷ after;
            state = s';
            cancelled = cancelled;
            waited = waited;
          })
  wait_step :
      {workers : List (Worker S)} {state : State S}
      → All HasReturned workers
      → ContextStep unmarshal d
          (record { workers = workers; state = state; cancelled = true; waited = false })
          (record { workers = workers; state = state; cancelled = true; waited = true })

-- n such steps.
pub data Drain {S : Type 0} (unmarshal : Text → Option Notification) (d : Dispatcher S)
    : ℕ → Pool S → Pool S → Type 0 where
  drained : {p : Pool S} → Drain unmarshal d 0 p p
  draining :
      {n : ℕ} {p q r : Pool S}
      → ContextStep unmarshal d p q
      → Drain unmarshal d n q r
      → Drain unmarshal d (suc n) p r

abbrev is_busy : {S : Type 0} → Worker S → ℕ
is_busy listening = 1
is_busy (trying msg p n l) = 1
is_busy (stopped err) = 0

-- The rounds that a worker may still make, the end of its loop, and its return.
abbrev pub rounds_left : {S : Type 0} → Dispatcher S → Worker S → ℕ
rounds_left d listening = 1
rounds_left d (trying msg p n l) = (pos_part d.retry.max_attempts - l.iter.attempt) + 2
rounds_left d (stopped err) = 0

abbrev pub total : {S : Type 0} → (Worker S → ℕ) → List (Worker S) → ℕ
total f [] = 0
total f (wk ∷ ws) = f wk + total f ws

-- The workers that have not returned, and the wait if that is not over.
abbrev pub busy : {S : Type 0} → Pool S → ℕ
busy p = total is_busy p.workers + (if p.waited then 0 else 1)

-- The steps that may be left.
abbrev pub pending : {S : Type 0} → Dispatcher S → Pool S → ℕ
pending d p = total (rounds_left d) p.workers + (if p.waited then 0 else 1)

total-replace :
    {S : Type 0} (f : Worker S → ℕ) (before after : List (Worker S)) (wk wk' : Worker S)
    → total f (before ++ wk ∷ after) + f wk' ≡ total f (before ++ wk' ∷ after) + f wk
total-replace f [] after wk wk' = omega arith
total-replace f (x ∷ before) after wk wk' = omega (arith, total-replace f before after wk wk')

module _ {S : Type 0} (unmarshal : Text → Option Notification) (d : Dispatcher S) where
  over-stops :
      (err : Error) (s s' : State S) (wk : Worker S)
      → IsOver err
      → listen unmarshal d (failed err) s ≡ (wk, s')
      → wk ≡ stopped nil
  unfolding listen
  over-stops err s s' wk over took = ground arith

  again-less :
      (msg : ConsumedMessage) (p : PushProvider S) (n : Notification) (l : Attempts) (wk : Worker S)
      → IsAhead d msg p n l wk
      → (rounds_left d wk < rounds_left d (trying msg p n l)) × (is_busy wk ≡ 1)
  again-less msg p n l wk (inl e) = (omega (arith, ap (rounds_left d) e), ap is_busy e)
  again-less msg p n l wk (inr (l', e, next, below)) =
      (omega (arith, ap (rounds_left d) e, next, below), ap is_busy e)

  -- Each step lessens what is left, and at most one worker returns, or the wait.
  pub step-pending :
      (p q : Pool S)
      → ContextStep unmarshal d p q
      → (suc (pending d q) ≤ pending d p) × (busy p ≤ suc (busy q))
  step-pending p q (over_step before after s s' wk err over took) =
      let e = over-stops err s s' wk over took in
      (
        omega
            (arith, total-replace (rounds_left d) before after listening wk, ap (rounds_left d) e),
        omega (arith, total-replace is_busy before after listening wk, ap is_busy e),
      )
  step-pending p q (finishing_step before after s s' wk msg pr n l went) =
      let ahead : IsAhead d msg pr n l wk =
        subst (IsAhead d msg pr n l) (ap (λ x. x.0) went) (try_again-IsAhead d msg pr n l s) in
      let (less, same) = again-less msg pr n l wk ahead in
      (
        omega (arith, total-replace (rounds_left d) before after (trying msg pr n l) wk, less),
        omega (arith, total-replace is_busy before after (trying msg pr n l) wk, same),
      )
  step-pending p q (wait_step done) = (omega arith, omega arith)

  Drain-pending :
      (n : ℕ) (p q : Pool S)
      → Drain unmarshal d n p q
      → (n + pending d q ≤ pending d p) × (busy p ≤ n + busy q)
  Drain-pending n p q drained = (omega arith, omega arith)
  Drain-pending n p q (draining step rest) =
      let (less, one) = step-pending p _ step in
      let (less', more) = Drain-pending _ _ q rest in
      (omega (arith, less, less'), omega (arith, one, more))

  -- The first worker that has not returned, or none.
  split_busy :
      (ws : List (Worker S))
      → All HasReturned ws
        ⊎ ((before : List (Worker S)) × (wk : Worker S) × (after : List (Worker S)) × (ws
              ≡ before ++ wk ∷ after)
            × (is_busy wk ≡ 1))
  split_busy [] = inl tt
  split_busy (listening ∷ ws) = inr ([], listening, ws, refl, refl)
  split_busy (trying msg p n l ∷ ws) = inr ([], trying msg p n l, ws, refl, refl)
  split_busy (stopped err ∷ ws) = elim (split_busy ws) [
    | inl done ↦ inl ((err, refl), done)
    | inr (before, wk, after, same, h) ↦
        inr (stopped err ∷ before, wk, after, ap (λ l. stopped err ∷ l) same, h)
  ]

  canceled-IsOver : IsOver (sentinel canceled)
  unfolding errors_is
  canceled-IsOver = inl refl

  -- A pool whose context is done, and a step from it that the context causes.
  abbrev NextStep : List (Worker S) → State S → (cancelled waited : Bool) → Type 0
  NextStep ws s cancelled waited =
      (q : Pool S) × ContextStep unmarshal d
        (record { workers = ws; state = s; cancelled = cancelled; waited = waited }) q
      × (q.cancelled ≡ true)

  busy_next :
      (before after : List (Worker S)) (s : State S) (cancelled waited : Bool) (wk : Worker S)
      → is_busy wk ≡ 1
      → cancelled ≡ true
      → NextStep (before ++ wk ∷ after) s cancelled waited
  busy_next before after s cancelled waited listening h e =
      (_, over_step before after s _ _ (sentinel canceled) canceled-IsOver refl, e)
  busy_next before after s cancelled waited (trying msg p n l) h e =
      (_, finishing_step before after s _ _ msg p n l refl, e)
  busy_next before after s cancelled waited (stopped err) h e = absurd (omega (arith, h))

  wait_next :
      (ws : List (Worker S)) (s : State S) (cancelled waited : Bool)
      → All HasReturned ws
      → cancelled ≡ true
      → waited ≡ false
      → NextStep ws s cancelled waited
  wait_next ws s false waited done e left = absurd (true≢false (sym e))
  wait_next ws s true true done e left = absurd (true≢false left)
  wait_next ws s true false done e left = (_, wait_step done, refl)

  abbrev pub IsDown : Pool S → Type 0
  IsDown p = (p.waited ≡ true) × All HasReturned p.workers

  ended_or_goes :
      (p : Pool S) → p.cancelled ≡ true → IsDown p ⊎ NextStep p.workers p.state p.cancelled p.waited
  ended_or_goes p e = elim (split_busy p.workers) [
    | inr (before, wk, after, same, h) ↦ inr (
        subst (λ l. NextStep l p.state p.cancelled p.waited) (sym same)
          (busy_next before after p.state p.cancelled p.waited wk h e))
    | inl done ↦ elim (Bool-cases p.waited) [
      | inl over ↦ inl (over, done)
      | inr left ↦ inr (wait_next p.workers p.state p.cancelled p.waited done e left)
    ]
  ]

  Drain-from :
      (fuel : ℕ) (p : Pool S)
      → p.cancelled ≡ true
      → pending d p ≤ fuel
      → (n : ℕ) × (q : Pool S) × Drain unmarshal d n p q × IsDown q
  Drain-from zero p e enough = elim (ended_or_goes p e) [
    | inl down ↦ (0, p, drained, down)
    | inr (q, step, e') ↦ absurd (omega (arith, (step-pending p q step).0, enough))
  ]
  Drain-from (suc k) p e enough = elim (ended_or_goes p e) [
    | inl down ↦ (0, p, drained, down)
    | inr (q, step, e') ↦
        let (n, r, rest, down) =
          Drain-from k q e' (omega (arith, (step-pending p q step).0, enough)) in
        (suc n, r, draining step rest, down)
  ]

  none_busy : (ws : List (Worker S)) → All HasReturned ws → total is_busy ws ≡ 0
  none_busy [] h = refl
  none_busy (wk ∷ ws) ((err, e), h) = omega (arith, ap is_busy e, none_busy ws h)

  -- A drain that came to the end had a step for each worker that had not returned and for the wait, and no
  -- more steps than rounds were left.
  Drain-counts :
      (n : ℕ) (p q : Pool S) → Drain unmarshal d n p q → IsDown q → (busy p ≤ n) × (n ≤ pending d p)
  Drain-counts n p q path (over, done) =
      let (least, most) = Drain-pending n p q path in
      let quiet : busy q ≡ 0 = rw over (omega (arith, none_busy q.workers done)) in
      (omega (arith, most, quiet), omega (arith, least))

  -- Once the signal has come, the steps that the done context causes can lead to a pool that has waited and
  -- whose workers have all returned: at least one for each worker that had not returned and for
  -- the wait, and no more than the rounds that were left to the workers allow.
  pub Drain-exists :
      (p : Pool S)
      → p.cancelled ≡ true
      → (n : ℕ) × (q : Pool S) × Drain unmarshal d n p q
        × IsDown q
        × (busy p ≤ n)
        × (n ≤ pending d p)
  Drain-exists p e =
      let (n, q, path, down) = Drain-from (pending d p) p e (omega arith) in
      let (least, most) = Drain-counts n p q path down in (n, q, path, down, least, most)
