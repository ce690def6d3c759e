-- ===== src/Dispatcher/Verdict.antt =====
-- Which outcome `Dispatch` of internal/deliverer/dispatcher/dispatcher.go records, told by the
-- provider's replies.
use pulsar_notifcation_pipel.Base.{
  subst, suc, ◌-◌, refl, ◌+◌, [], arith, true, ◌<◌, ℕ, ◌≢◌, Text, false, ◌≡◌,
}
use pulsar_notifcation_pipel.Dispatcher.Loop.{
  loop_over, round_success, round_permanent, Reports-cast, loop_turn, loop_skip, Finishes,
  state_after, reply, IsRetryable, terminal-Reports, Reports,
}
use pulsar_notifcation_pipel.Dispatcher.Dispatch.{
  exhausted, safe_response, finished, round, Attempts, fresh, attempts_loop, resolve, deliver,
  dispatch, is_expired,
}
use pulsar_notifcation_pipel.GoError.{as_permanent_error, is_nil, nil}
use pulsar_notifcation_pipel.Outcomes.{
  reason_retry_budget_exhausted, status_delivered, reason_expired, reason_provider_rejected_payload,
  status_expired, status_permanently_failed, Status,
}
use pulsar_notifcation_pipel.Retry.{new_iterator}
use pulsar_notifcation_pipel.Base.Int.{pos_part}
use mathlib.Core.Option.{none, some}
use pulsar_notifcation_pipel.Message.{Duration, Time, zero_time, Notification}
use pulsar_notifcation_pipel.Provider.{PushProvider}
use pulsar_notifcation_pipel.Dispatcher.{World, Dispatcher}
use mathlib.Core.Option

-- Dispatch returns no error, and its one outcome is as told.
abbrev pub DispatchReports :
    {S : Type 0} → Dispatcher S → Notification → World S → S → Status → Text → Text → ℕ → Type 0
DispatchReports {S} d n w state status reason response attempts =
    (w' : World S) × (dispatch d (some n) w ≡ some (nil, w'))
    × Reports n w.recorded state status reason response attempts w'

is_expired_of_lt :
    (n : Notification) (exp now : Time)
    → n.expires_at ≡ some exp
    → exp ≢ zero_time
    → exp < now
    → (is_expired n now).0 ≡ true
unfolding is_expired
is_expired_of_lt n exp now e set old = rw e (ground arith)

-- A notification whose expiry lies before the clock's reading is recorded as expired, with no call of
-- a provider.
dispatch_expired :
    {S : Type 0} (d : Dispatcher S) (n : Notification) (w : World S) (exp : Time)
    → n.expires_at ≡ some exp
    → exp ≢ zero_time
    → exp < d.clock w.clock_reads
    → DispatchReports d n w w.state status_expired reason_expired [] 0
unfolding dispatch
dispatch_expired d n w exp e set old =
    rw (is_expired_of_lt n exp _ e set old) (_, refl, terminal-Reports _ _ _ _ refl)

-- A live notification for whose target no provider resolves is recorded as a rejected payload, with
-- no call of a provider.
pub dispatch_unresolved :
    {S : Type 0} (d : Dispatcher S) (n : Notification) (w : World S)
    → (is_expired n (d.clock w.clock_reads)).0 ≡ false
    → (resolve d n).0 ≡ none
    → DispatchReports d n w w.state status_permanently_failed reason_provider_rejected_payload [] 0
unfolding dispatch deliver
dispatch_unresolved d n w live e =
    rw (live) (rw (e, deliver) (_, refl, terminal-Reports _ _ _ _ refl))

module _ {S : Type 0} (d : Dispatcher S) (n : Notification) (w : World S) (p : PushProvider S)
    (live : (is_expired n (d.clock w.clock_reads)).0 ≡ false)
    (resolved : (resolve d n).0 ≡ some p) where
  dispatch_loop :
      dispatch d (some n) w
      ≡ Option.map
          (λ w'. (nil, w'))
          (attempts_loop d p n
            (pos_part d.retry.max_attempts)
            (fresh d p n)
            (record w { clock_reads = w.clock_reads + 1 }))
  unfolding dispatch deliver
  dispatch_loop = rw (live) (rw (resolved, deliver) refl)

module _ {S : Type 0} (d : Dispatcher S) (n : Notification) (w : World S) (p : PushProvider S)
    (live : (is_expired n (d.clock w.clock_reads)).0 ≡ false) (resolved : (resolve d n).0 ≡ some p)
    (sleeps_well : (k : ℕ) (b : Duration) → is_nil (d.sleep k b) ≡ true) where
  -- Where k replies can be retried and the round after them ends, the dispatch ends so.
  dispatch-Finishes :
      (k : ℕ) (state : S → S) (status : Status) (reason response : S → Text)
      → k < pos_part d.retry.max_attempts
      → ((j : ℕ) → j < k → IsRetryable (reply p n w.state j))
      → ((l : Attempts) (v : World S)
          → v.state ≡ state_after p n w.state k
          → Finishes d p n v.recorded
              (state v.state)
              status
              (reason v.state)
              (response v.state)
              (l.iter.attempt + 1)
              (round d p n l v))
      → DispatchReports d n w
          (state (state_after p n w.state k))
          status
          (reason (state_after p n w.state k))
          (response (state_after p n w.state k))
          (k + 1)
  unfolding new_iterator
  dispatch-Finishes k state status reason response lt soft ends =
      let fuel = pos_part d.retry.max_attempts - k - 1 in
      let (l, v, skipped, a, s, r) =
        loop_skip d p n sleeps_well k (pos_part d.retry.max_attempts) (suc fuel) (fresh d p n)
          (record w { clock_reads = w.clock_reads + 1 }) (omega arith) (omega arith) soft in
      let (w', e, rep) = ends l v s in
      (
        w',
        rw
            (
              dispatch_loop d n w p live resolved,
              skipped,
              loop_turn d p n sleeps_well fuel l v (finished w') (omega arith) e,
            )
            refl,
        Reports-cast r refl (omega arith) (
            subst
              (λ x.
                Reports n v.recorded (state x) status (reason x) (response x) (l.iter.attempt + 1)
                  w')
              s rep),
      )

  -- A live notification whose provider is registered is recorded as delivered, after k + 1 calls of
  -- Push, where the first k replies can be retried, the next has no error, the policy allows more
  -- than k attempts and no sleep is cut short.
  pub dispatch_delivers :
      (k : ℕ)
      → k < pos_part d.retry.max_attempts
      → ((j : ℕ) → j < k → IsRetryable (reply p n w.state j))
      → is_nil (reply p n w.state k).1 ≡ true
      → DispatchReports d n w
          (p.push n (state_after p n w.state k)).1
          status_delivered
          []
          (safe_response (reply p n w.state k).0)
          (k + 1)
  dispatch_delivers k lt soft ok =
      dispatch-Finishes k (λ s. (p.push n s).1) status_delivered (λ s. [])
        (λ s. safe_response (p.push n s).0.0) lt soft
        λ l v s. round_success d p n sleeps_well l v (rw s ok)

  -- A live notification whose provider is registered is recorded as failed after k + 1 calls of Push,
  -- for the reason and with the response of the permanent error in the last reply, where the first k
  -- replies can be retried, the policy allows more than k attempts and no sleep is cut short.
  pub dispatch_rejects :
      (k : ℕ) (reason response : Text)
      → k < pos_part d.retry.max_attempts
      → ((j : ℕ) → j < k → IsRetryable (reply p n w.state j))
      → is_nil (reply p n w.state k).1 ≡ false
      → as_permanent_error (reply p n w.state k).1 ≡ some (reason, response)
      → DispatchReports d n w
          (p.push n (state_after p n w.state k)).1
          status_permanently_failed
          reason
          response
          (k + 1)
  dispatch_rejects k reason response lt soft failed hard =
      dispatch-Finishes k (λ s. (p.push n s).1) status_permanently_failed (λ s. reason)
        (λ s. response) lt soft
        λ l v s. round_permanent d p n sleeps_well l v reason response (rw s failed) (rw s hard)

  -- Of a live notification whose provider is registered, where every reply within the budget can be
  -- retried and no sleep is cut short, all attempts are used up, and the notification is recorded
  -- as failed because the budget is exhausted.
  pub dispatch_exhausts :
      ((j : ℕ) → j < pos_part d.retry.max_attempts → IsRetryable (reply p n w.state j))
      → (response : Text) × DispatchReports d n w
          (state_after p n w.state (pos_part d.retry.max_attempts))
          status_permanently_failed
          reason_retry_budget_exhausted
          response
          (pos_part d.retry.max_attempts)
  unfolding new_iterator
  dispatch_exhausts soft =
      let budget = pos_part d.retry.max_attempts in
      let (l, v, skipped, a, s, r) =
        loop_skip d p n sleeps_well budget budget 0 (fresh d p n)
          (record w { clock_reads = w.clock_reads + 1 }) (omega arith) (omega arith) soft in
      (
        l.last_resp,
        (
          exhausted d p n l v,
          rw
              (
                dispatch_loop d n w p live resolved,
                skipped,
                loop_over d p n sleeps_well l v (omega arith),
              )
              refl,
          Reports-cast r s (omega arith) (terminal-Reports n _ p.name v refl),
        ),
      )
