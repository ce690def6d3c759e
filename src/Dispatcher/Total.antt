-- ===== src/Dispatcher/Total.antt =====
-- A dispatch of internal/deliverer/dispatcher/dispatcher.go ends within the policy's attempts, with
-- one terminal outcome.
use pulsar_notifcation_pipel.Base.{
  subst, ◌<◌, false, true, Option, zero, suc, some, ltb, List, Text, refl, Option-cases, inr, arith,
  inl, Bool-cases, ◌≤◌, [], ◌+◌, ◌∷◌, ◌++◌, ◌≡◌, ℕ,
}
use pulsar_notifcation_pipel.Dispatcher.Dispatch.{
  fresh, resolve, is_expired, after_round, deliver, dispatch, attempts_loop, retrying, Attempts,
  finished, recorder_record, count_outcome, Round, round, settle, try_push,
}
use pulsar_notifcation_pipel.Message.{Time, Duration, Notification}
use pulsar_notifcation_pipel.GoError.{nil, as_transient_error, as_permanent_error, is_nil}
use pulsar_notifcation_pipel.Retry.{Policy, new_iterator, Iterator, done, next}
use pulsar_notifcation_pipel.Outcomes.{Outcome}
use pulsar_notifcation_pipel.Provider.{PushProvider, PushReturn}
use pulsar_notifcation_pipel.Dispatcher.{World, Dispatcher}
use pulsar_notifcation_pipel.Base.Int.{pos_part}

-- The world after a dispatch: one more outcome, for this notification, within the budget.
pub record Ends {S : Type 0} (budget : ℕ) (n : Notification) (before : List Outcome) (w : World S)
    : Type 0 where
  pub outcome : Outcome
  pub recorded : w.recorded ≡ before ++ outcome ∷ []
  pub same_id : outcome.notification_id ≡ n.notification_id
  pub within : outcome.attempts ≤ budget

-- What a round leaves: an ended dispatch, or one more attempt and no outcome.
abbrev pub RoundOk : {S : Type 0} → Notification → ℕ → List Outcome → Round S → Type 0
RoundOk n attempt before (finished w') = Ends attempt n before w'
RoundOk n attempt before (retrying l w') = (l.iter.attempt ≡ attempt) × (w'.recorded ≡ before)

terminal-Ends :
    {S : Type 0} {budget : ℕ} {n : Notification} (o : Outcome) (provider : Text) (w : World S)
    → o.notification_id ≡ n.notification_id
    → o.attempts ≤ budget
    → Ends budget n w.recorded
        (count_outcome o.status o.reason provider o.attempts (recorder_record o w))
unfolding recorder_record count_outcome
terminal-Ends o provider w same within = record {
  outcome = o;
  recorded = refl;
  same_id = same;
  within = within;
}

pub done_of_le : (p : Policy) (i : Iterator) → pos_part p.max_attempts ≤ i.attempt → done p i ≡ true
unfolding done
done_of_le p i h = ground arith

pub not_done_of_lt :
    (p : Policy) (i : Iterator) → i.attempt < pos_part p.max_attempts → done p i ≡ false
unfolding done
not_done_of_lt p i h = ground arith

pub lt_of_not_done :
    (p : Policy) (i : Iterator) → done p i ≡ false → i.attempt < pos_part p.max_attempts
unfolding done
lt_of_not_done p i h = ground arith

module _ {S : Type 0} (d : Dispatcher S) (p : PushProvider S) (n : Notification) where
  settle-RoundOk :
      (ret : PushReturn) (dur : Duration) (l : Attempts) (w : World S)
      → RoundOk n l.iter.attempt w.recorded (settle d p n ret dur l w)
  unfolding settle
  settle-RoundOk (res, err) dur l w = elim (Bool-cases (is_nil err)) [
    | inl ok ↦ rw ok (terminal-Ends _ _ _ refl (omega arith))
    | inr failed ↦ rw failed (elim (Option-cases (as_permanent_error err)) [
      | inr ((reason, response), e) ↦ rw e (terminal-Ends _ _ _ refl (omega arith))
      | inl e ↦ rw e (elim (Option-cases (as_transient_error err)) [
        | inr (response, t) ↦ rw t (refl, refl)
        | inl t ↦ rw t (refl, refl)
      ])
    ])
  ]

  try_push-RoundOk :
      (l : Attempts) (w : World S) → RoundOk n l.iter.attempt w.recorded (try_push d p n l w)
  unfolding try_push
  try_push-RoundOk l w = settle-RoundOk _ _ _ _

  pub round-RoundOk :
      (l : Attempts) (w : World S) → RoundOk n (l.iter.attempt + 1) w.recorded (round d p n l w)
  unfolding round next
  round-RoundOk l w = elim (Bool-cases (ltb 1 (l.iter.attempt + 1))) [
    | inr first ↦ rw first (try_push-RoundOk _ _)
    | inl again ↦ rw again (elim (Bool-cases (is_nil (d.sleep w.sleeps (next d.retry l.iter).0))) [
      | inl slept ↦ rw slept (try_push-RoundOk _ _)
      | inr woken ↦ rw woken (terminal-Ends _ _ _ refl (omega arith))
    ])
  ]

  -- The loop returned, with one more outcome than `before`.
  abbrev Settles : List Outcome → Option (World S) → Type 0
  Settles before r =
      (w' : World S) × (r ≡ some w') × Ends (pos_part d.retry.max_attempts) n before w'

  after_round-Settles :
      (rest : Attempts → World S → Option (World S)) (before : List Outcome) (attempt : ℕ)
      (r : Round S)
      → attempt ≤ pos_part d.retry.max_attempts
      → RoundOk n attempt before r
      → ((l : Attempts) (w : World S)
          → l.iter.attempt ≡ attempt
          → w.recorded ≡ before
          → Settles before (rest l w))
      → Settles before (after_round rest r)
  after_round-Settles rest before attempt (finished w) fits h ih = (
    w,
    refl,
    record {
      outcome = h.outcome;
      recorded = h.recorded;
      same_id = h.same_id;
      within = omega (arith, h.within);
    },
  )
  after_round-Settles rest before attempt (retrying l w) fits h ih = ih l w h.0 h.1

  attempts_loop-Settles :
      (fuel : ℕ) (l : Attempts) (w : World S)
      → pos_part d.retry.max_attempts ≤ l.iter.attempt + fuel
      → l.iter.attempt ≤ pos_part d.retry.max_attempts
      → Settles w.recorded (attempts_loop d p n fuel l w)
  unfolding attempts_loop
  attempts_loop-Settles zero l w h k =
      rw (done_of_le d.retry l.iter (omega arith)) (_, refl, terminal-Ends _ _ _ refl k)
  attempts_loop-Settles (suc fuel) l w h k = elim (Bool-cases (done d.retry l.iter)) [
    | inl over ↦ rw over (_, refl, terminal-Ends _ _ _ refl k)
    | inr more ↦
        let below = lt_of_not_done d.retry l.iter more in
        rw more (
          after_round-Settles (attempts_loop d p n fuel) w.recorded (l.iter.attempt + 1)
            (round d p n l w) (omega arith) (round-RoundOk l w)
            (λ l' w' e r.
              subst (λ b. Settles b (attempts_loop d p n fuel l' w')) r
                (attempts_loop-Settles fuel l' w' (omega arith) (omega arith))))
  ]

module _ {S : Type 0} (d : Dispatcher S) (n : Notification) where
  deliver-Settles :
      (now : Time) (w : World S)
      → (w' : World S) × (deliver d n now w ≡ some w')
        × Ends (pos_part d.retry.max_attempts) n w.recorded w'
  unfolding deliver new_iterator
  deliver-Settles now w = elim (Option-cases ((resolve d n).0)) [
    | inl e ↦ rw (e, deliver) (_, refl, terminal-Ends _ _ _ refl (omega arith))
    | inr (p, e) ↦
        rw (e, deliver) (attempts_loop-Settles d p n _ (fresh d p n) w (omega arith) (omega arith))
  ]

-- Every dispatch of a notification returns no error, and adds one outcome to the record: it names the
-- notification and counts at most as many attempts as the policy allows.
pub dispatch_total :
    {S : Type 0} (d : Dispatcher S) (n : Notification) (w : World S)
    → (w' : World S) × (dispatch d (some n) w ≡ some (nil, w'))
      × Ends (pos_part d.retry.max_attempts) n w.recorded w'
unfolding dispatch
dispatch_total d n w = elim (Bool-cases ((is_expired n (d.clock w.clock_reads)).0)) [
  | inl old ↦ rw old (_, refl, terminal-Ends _ _ _ refl (omega arith))
  | inr live ↦
      let (w', e, ends) =
        deliver-Settles d n (d.clock w.clock_reads)
          (record w { clock_reads = w.clock_reads + 1 }) in
      rw (live, e) (w', refl, ends)
]
