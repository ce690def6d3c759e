-- ===== src/Dispatcher/Loop.antt =====
-- One round of the retry loop of internal/deliverer/dispatcher/dispatcher.go, and many rounds, told by
-- the replies that the provider gives one after the other.
use pulsar_notifcation_pipel.Base.{
  sym, subst, ◌∙◌, arith, ap, ◌<◌, ltb, ◌≤◌, Bool-cases, inl, ◌+◌, inr, refl, [], none, some, ◌∷◌,
  Option-cases, zero, ◌++◌, false, suc, true, ◌≡◌, Text, List, ℕ,
}
use pulsar_notifcation_pipel.Dispatcher.Dispatch.{
  exhausted, after_round, attempts_loop, safe_response, try_push, finished, retrying, round,
  Attempts, Round, settle, recorder_record, count_outcome,
}
use pulsar_notifcation_pipel.Dispatcher.Total.{done_of_le, not_done_of_lt}
use pulsar_notifcation_pipel.Base.Int.{pos_part}
use pulsar_notifcation_pipel.Outcomes.{status_permanently_failed, status_delivered, Status, Outcome}
use pulsar_notifcation_pipel.Retry.{next}
use pulsar_notifcation_pipel.GoError.{as_transient_error, as_permanent_error, is_nil}
use pulsar_notifcation_pipel.Dispatcher.{World, Dispatcher}
use pulsar_notifcation_pipel.Message.{Duration, Notification}
use pulsar_notifcation_pipel.Provider.{PushProvider, PushReturn}

-- The provider's state after k calls of Push, and its reply to the call after those.
abbrev pub state_after : {S : Type 0} → PushProvider S → Notification → S → ℕ → S
state_after p n s zero = s
state_after p n s (suc k) = state_after p n (p.push n s).1 k

abbrev pub reply : {S : Type 0} → PushProvider S → Notification → S → ℕ → PushReturn
reply p n s k = (p.push n (state_after p n s k)).0

-- An error that is not permanent.
abbrev pub IsRetryable : PushReturn → Type 0
IsRetryable ret = (is_nil ret.1 ≡ false) × (as_permanent_error ret.1 ≡ none)

-- The next outcome, but for its two times, and the provider's state.
pub record Reports {S : Type 0} (n : Notification) (before : List Outcome) (state : S)
    (status : Status) (reason response : Text) (attempts : ℕ) (w : World S) : Type 0 where
  pub outcome : Outcome
  pub recorded : w.recorded ≡ before ++ outcome ∷ []
  pub same_id : outcome.notification_id ≡ n.notification_id
  pub status_is : outcome.status ≡ status
  pub reason_is : outcome.reason ≡ reason
  pub response_is : outcome.provider_response ≡ response
  pub attempts_is : outcome.attempts ≡ attempts
  pub state_is : w.state ≡ state

pub terminal-Reports :
    {S : Type 0} (n : Notification) (o : Outcome) (provider : Text) (w : World S)
    → o.notification_id ≡ n.notification_id
    → Reports n w.recorded w.state o.status o.reason o.provider_response o.attempts
        (count_outcome o.status o.reason provider o.attempts (recorder_record o w))
unfolding recorder_record count_outcome
terminal-Reports n o provider w same = record {
  outcome = o;
  recorded = refl;
  same_id = same;
  status_is = refl;
  reason_is = refl;
  response_is = refl;
  attempts_is = refl;
  state_is = refl;
}

pub Reports-cast :
    {S : Type 0} {n : Notification} {before before' : List Outcome} {state state' : S}
    {status : Status} {reason response : Text} {attempts attempts' : ℕ} {w : World S}
    → before ≡ before'
    → state ≡ state'
    → attempts ≡ attempts'
    → Reports n before state status reason response attempts w
    → Reports n before' state' status reason response attempts' w
Reports-cast b s a r = record {
  outcome = r.outcome;
  recorded = r.recorded ∙ ap (λ l. l ++ r.outcome ∷ []) b;
  same_id = r.same_id;
  status_is = r.status_is;
  reason_is = r.reason_is;
  response_is = r.response_is;
  attempts_is = r.attempts_is ∙ a;
  state_is = r.state_is ∙ s;
}

module _ {S : Type 0} (d : Dispatcher S) (p : PushProvider S) (n : Notification) where
  -- A round that goes on: one attempt more, one call of Push more, and no outcome.
  abbrev pub Continues : List Outcome → S → ℕ → Round S → Type 0
  Continues before state attempt r =
      (l : Attempts) × (w : World S) × (r ≡ retrying l w)
      × (l.iter.attempt ≡ attempt)
      × (w.state ≡ state)
      × (w.recorded ≡ before)

  -- A round that ends with the given report.
  abbrev pub Finishes : List Outcome → S → Status → Text → Text → ℕ → Round S → Type 0
  Finishes before state status reason response attempts r =
      (w : World S) × (r ≡ finished w) × Reports n before state status reason response attempts w

  settle-Continues :
      (ret : PushReturn) (dur : Duration) (l : Attempts) (w : World S)
      → IsRetryable ret
      → Continues w.recorded w.state l.iter.attempt (settle d p n ret dur l w)
  unfolding settle
  settle-Continues (res, err) dur l w (failed, soft) =
      rw (failed, soft)
        (elim (Option-cases (as_transient_error err)) [
          | inr (response, t) ↦ rw t (_, _, refl, refl, refl, refl)
          | inl t ↦ rw t (_, _, refl, refl, refl, refl)
        ])

  settle_success :
      (ret : PushReturn) (dur : Duration) (l : Attempts) (w : World S)
      → is_nil ret.1 ≡ true
      → Finishes w.recorded w.state status_delivered []
          (safe_response ret.0)
          l.iter.attempt
          (settle d p n ret dur l w)
  unfolding settle
  settle_success (res, err) dur l w ok = rw ok (_, refl, terminal-Reports _ _ _ _ refl)

  settle_permanent :
      (ret : PushReturn) (dur : Duration) (l : Attempts) (w : World S) (reason response : Text)
      → is_nil ret.1 ≡ false
      → as_permanent_error ret.1 ≡ some (reason, response)
      → Finishes w.recorded w.state status_permanently_failed reason response l.iter.attempt
          (settle d p n ret dur l w)
  unfolding settle
  settle_permanent (res, err) dur l w reason response failed e =
      rw (failed, e) (_, refl, terminal-Reports _ _ _ _ refl)

module _ {S : Type 0} (d : Dispatcher S) (p : PushProvider S) (n : Notification)
    (sleeps_well : (k : ℕ) (b : Duration) → is_nil (d.sleep k b) ≡ true) where
  -- Where no sleep is cut short, what holds of every settled call of Push holds of a round.
  round_ind {ℓ} :
      (P : Round S → Type ℓ) (l : Attempts) (w : World S)
      → ((l' : Attempts) (w' : World S) (dur : Duration)
          → l'.iter.attempt ≡ l.iter.attempt + 1
          → w'.state ≡ (p.push n w.state).1
          → w'.recorded ≡ w.recorded
          → P (settle d p n (p.push n w.state).0 dur l' w'))
      → P (round d p n l w)
  unfolding round try_push next
  round_ind P l w h = elim (Bool-cases (ltb 1 (l.iter.attempt + 1))) [
    | inr first ↦ rw first (h _ _ _ refl refl refl)
    | inl again ↦ rw (again, sleeps_well _ _) (h _ _ _ refl refl refl)
  ]

  round-Continues :
      (l : Attempts) (w : World S)
      → IsRetryable (p.push n w.state).0
      → Continues d p n w.recorded (p.push n w.state).1 (l.iter.attempt + 1) (round d p n l w)
  round-Continues l w soft =
      round_ind (Continues d p n w.recorded (p.push n w.state).1 (l.iter.attempt + 1)) l w
        λ l' w' dur a s r.
          let (l1, w1, e, a1, s1, r1) =
            settle-Continues d p n (p.push n w.state).0 dur l' w' soft in
          (l1, w1, e, a1 ∙ a, s1 ∙ s, r1 ∙ r)

  pub round_success :
      (l : Attempts) (w : World S)
      → is_nil (p.push n w.state).0.1 ≡ true
      → Finishes d p n w.recorded
          (p.push n w.state).1
          status_delivered
          []
          (safe_response (p.push n w.state).0.0)
          (l.iter.attempt + 1)
          (round d p n l w)
  round_success l w ok =
      round_ind
        (Finishes d p n w.recorded (p.push n w.state).1 status_delivered []
          (safe_response (p.push n w.state).0.0) (l.iter.attempt + 1))
        l w
        λ l' w' dur a s r.
          let (w1, e, rep) = settle_success d p n (p.push n w.state).0 dur l' w' ok in
          (w1, e, Reports-cast r s a rep)

  pub round_permanent :
      (l : Attempts) (w : World S) (reason response : Text)
      → is_nil (p.push n w.state).0.1 ≡ false
      → as_permanent_error (p.push n w.state).0.1 ≡ some (reason, response)
      → Finishes d p n w.recorded
          (p.push n w.state).1
          status_permanently_failed
          reason
          response
          (l.iter.attempt + 1)
          (round d p n l w)
  round_permanent l w reason response failed hard =
      round_ind
        (Finishes d p n w.recorded (p.push n w.state).1 status_permanently_failed reason response
          (l.iter.attempt + 1))
        l w
        λ l' w' dur a s r.
          let (w1, e, rep) =
            settle_permanent d p n (p.push n w.state).0 dur l' w' reason response failed hard in
          (w1, e, Reports-cast r s a rep)

  -- One turn of the loop, by what its round does.
  pub loop_turn :
      (fuel : ℕ) (l : Attempts) (w : World S) (r : Round S)
      → l.iter.attempt < pos_part d.retry.max_attempts
      → round d p n l w ≡ r
      → attempts_loop d p n (suc fuel) l w ≡ after_round (attempts_loop d p n fuel) r
  unfolding attempts_loop
  loop_turn fuel l w r h e = rw (not_done_of_lt d.retry l.iter h, e)

  pub loop_over :
      (l : Attempts) (w : World S)
      → pos_part d.retry.max_attempts ≤ l.iter.attempt
      → attempts_loop d p n 0 l w ≡ some (exhausted d p n l w)
  unfolding attempts_loop
  loop_over l w h = rw (done_of_le d.retry l.iter h)

  -- After k replies that can be retried the loop stands k attempts further, with nothing recorded.
  pub loop_skip :
      (k total fuel : ℕ) (l : Attempts) (w : World S)
      → total ≡ k + fuel
      → l.iter.attempt + k ≤ pos_part d.retry.max_attempts
      → ((j : ℕ) → j < k → IsRetryable (reply p n w.state j))
      → (l' : Attempts) × (w' : World S) × (attempts_loop d p n total l w
          ≡ attempts_loop d p n fuel l' w')
        × (l'.iter.attempt ≡ l.iter.attempt + k)
        × (w'.state ≡ state_after p n w.state k)
        × (w'.recorded ≡ w.recorded)
  loop_skip zero total fuel l w e fits soft =
      (l, w, ap (λ f. attempts_loop d p n f l w) (omega arith), omega arith, refl, refl)
  loop_skip (suc k) zero fuel l w e fits soft = absurd (omega arith)
  loop_skip (suc k) (suc total) fuel l w e fits soft =
      let (l1, w1, goes, a1, s1, r1) = round-Continues l w (soft 0 (omega arith)) in
      let later = λ (j : ℕ) (h : j < k).
        subst (λ s. IsRetryable (reply p n s j)) (sym s1) (soft (suc j) (omega arith)) in
      let (l2, w2, e2, a2, s2, r2) =
        loop_skip k total fuel l1 w1 (omega arith) (omega arith) later in
      (
        l2,
        w2,
        loop_turn total l w (retrying l1 w1) (omega arith) goes ∙ e2,
        omega arith,
        s2 ∙ ap (λ s. state_after p n s k) s1,
        r2 ∙ r1,
      )
