-- ===== src/Sandbox/EndToEnd.antt =====
-- The dispatcher over the provider of internal/deliverer/provider/sandbox/sandbox.go: a script of
-- failures, then success.
use pulsar_notifcation_pipel.Provider.{PushReturn}
use pulsar_notifcation_pipel.Sandbox.{
  with_scripted_errors, new_sandbox, accept, provider, entry, Sandbox, push,
}
use pulsar_notifcation_pipel.Base.{
  sym, subst, refl, ◌++◌, [], ◌∷◌, true, false, ascii, ◌∙◌, ap, ◌≤◌, length, ◌+◌, ◌<◌, ℕ, zero, suc,
  List, none, some, arith, ◌≡◌,
}
use pulsar_notifcation_pipel.Dispatcher.Verdict.{dispatch_delivers, DispatchReports}
use pulsar_notifcation_pipel.Dispatcher.Dispatch.{safe_response, resolve, is_expired}
use pulsar_notifcation_pipel.Outcomes.{status_delivered}
use pulsar_notifcation_pipel.Base.Int.{pos_part}
use pulsar_notifcation_pipel.GoError.{is_nil, nil, Error}
use pulsar_notifcation_pipel.Message.{Duration, Notification}
use pulsar_notifcation_pipel.Dispatcher.{World, Dispatcher}
use pulsar_notifcation_pipel.Dispatcher.Loop.{reply, state_after, IsRetryable}

-- Every entry of the script is an error that is not permanent.
abbrev pub IsSoft : List Error → Type 0
IsSoft errs = (j : ℕ) → j < length errs → IsRetryable (none, entry errs j)

module _ (n : Notification) where
  push_scripted :
      (s : Sandbox)
      → IsSoft s.scripted
      → s.position < length s.scripted
      → push (some n) s
        ≡ ((none, entry s.scripted s.position), record s { position = s.position + 1 })
  unfolding push
  push_scripted s soft h = let (live, _) = soft s.position h in rw live (ground arith)

  state_after-scripted :
      (k : ℕ) (s : Sandbox)
      → IsSoft s.scripted
      → s.position + k ≤ length s.scripted
      → state_after provider n s k ≡ record s { position = s.position + k }
  state_after-scripted zero s soft h = ground arith
  state_after-scripted (suc k) s soft h =
      let e = ap (λ r. r.1) (push_scripted s soft (omega arith)) in
      rw e (
        state_after-scripted k (record s { position = s.position + 1 }) soft (omega arith)
        ∙ ap (λ i. record s { position = i }) (omega arith))

  reply-scripted :
      (k : ℕ) (s : Sandbox)
      → IsSoft s.scripted
      → s.position + k < length s.scripted
      → reply provider n s k ≡ (none, entry s.scripted (s.position + k))
  reply-scripted k s soft h =
      ap (λ x. (push (some n) x).0) (state_after-scripted k s soft (omega arith))
      ∙ ap (λ r. r.0) (push_scripted (record s { position = s.position + k }) soft h)

  push_past_script :
      (s : Sandbox)
      → length s.scripted ≤ s.position
      → push (some n) s ≡ (
        (some (record { provider_response = ascii "sandbox:accepted" }), nil),
        record s { delivered = s.delivered ++ n ∷ [] },
      )
  unfolding push accept
  push_past_script s h = ground arith

  -- The push after the whole script, from its start.
  push_at_end :
      (s : Sandbox)
      → IsSoft s.scripted
      → s.position ≡ 0
      → push (some n) (state_after provider n s (length s.scripted)) ≡ (
        (some (record { provider_response = ascii "sandbox:accepted" }), nil),
        record {
          delivered = s.delivered ++ n ∷ [];
          scripted = s.scripted;
          position = length s.scripted;
        },
      )
  push_at_end s soft start =
      let k = length s.scripted in
      ap (push (some n)) (state_after-scripted k s soft (omega arith))
      ∙ push_past_script (record s { position = s.position + k }) (omega arith)
      ∙ ground arith

abbrev entry_reply : List Error → ℕ → PushReturn
entry_reply errs i = (none, entry errs i)

start_lem :
    (errs : List Error)
    → new_sandbox (with_scripted_errors errs ∷ [])
      ≡ record { delivered = []; scripted = errs; position = 0 }
unfolding new_sandbox with_scripted_errors
start_lem errs = refl

-- A dispatcher whose pushover arm is a fresh sandbox with a script of errors that are not permanent,
-- fewer than the policy's attempts, delivers a live pushover notification once, at the attempt after
-- the script, with the sandbox's response; no sleep is cut short.
pub dispatch_scripted :
    (d : Dispatcher Sandbox) (n : Notification) (w : World Sandbox) (errs : List Error)
    → (is_expired n (d.clock w.clock_reads)).0 ≡ false
    → (resolve d n).0 ≡ some provider
    → ((k : ℕ) (b : Duration) → is_nil (d.sleep k b) ≡ true)
    → w.state ≡ new_sandbox (with_scripted_errors errs ∷ [])
    → IsSoft errs
    → length errs < pos_part d.retry.max_attempts
    → DispatchReports d n w
        (record { delivered = n ∷ []; scripted = errs; position = length errs })
        status_delivered
        []
        (ascii "sandbox:accepted")
        (length errs + 1)
unfolding safe_response
dispatch_scripted d n w errs live resolved sleeps start soft few =
    let s0 : Sandbox = record { delivered = []; scripted = errs; position = 0 } in
    let e0 = start ∙ start_lem errs in
    let replies = λ (j : ℕ) (h : j < length errs).
      let r : reply provider n w.state j ≡ (none, entry errs j) =
        ap (λ x. reply provider n x j) e0
        ∙ reply-scripted n j s0 soft (omega arith)
        ∙ (ap (entry_reply errs) (omega arith)) in
      subst IsRetryable (sym r) (soft j h) in
    let last =
      ap (λ x. push (some n) (state_after provider n x (length errs))) e0
      ∙ push_at_end n s0 soft refl in
    subst
      (λ r. DispatchReports d n w r.1 status_delivered [] (safe_response r.0.0) (length errs + 1))
      last
      (dispatch_delivers d n w provider live resolved sleeps (length errs) few replies
        (rw (ap (λ r. r.0) last) refl))
