-- ===== src/Workers/Serving.antt =====
-- That a worker of cmd/deliverer/main.go can serve any messages, and that workers which have all returned
-- leave the program waiting.
use pulsar_notifcation_pipel.Base.{
  append_assoc, Bool-cases, ap, append-nil, sym, All, [], Option-cases, ◌⊎◌, subst, ◌≤◌, zero, inl,
  inr, refl, ◌++◌, ◌+◌, ℕ, suc, List, ◌∷◌, Option, Bool, arith, ◌≡◌, Text,
}
use pulsar_notifcation_pipel.Dispatcher.Dispatch.{resolve, is_expired, Attempts}
use pulsar_notifcation_pipel.Consumer.{failed, message, Received, ConsumedMessage, State}
use pulsar_notifcation_pipel.Dispatcher.{World, Dispatcher}
use pulsar_notifcation_pipel.Workers.{
  begin_handle, receive_step, begin_dispatch, listen, Pool, Worker, listening, trying, try_again,
  Reach, later, attempt_step, taken,
}
use pulsar_notifcation_pipel.Consumer.Accounting.{IsServed}
use pulsar_notifcation_pipel.Workers.Rounds.{try_again-IsAhead}
use pulsar_notifcation_pipel.Provider.{PushProvider}
use pulsar_notifcation_pipel.Base.Int.{pos_part}
use pulsar_notifcation_pipel.Message.{Notification}

module _ {S : Type 0} (unmarshal : Text → Option Notification) (d : Dispatcher S) where
  -- A pool with a worker in a place, reached with these receipts.
  abbrev pub Comes :
      Pool S → List (Worker S) → List (Worker S) → Bool → Bool → Worker S → List Received → Type 0
  Comes first before after cancelled waited wk rs =
      (s : State S) × (reach : Reach unmarshal d first (record {
        workers = before ++ wk ∷ after;
        state = s;
        cancelled = cancelled;
        waited = waited;
      }))
      × (taken reach ≡ rs)

  module _ (first : Pool S) (before after : List (Worker S)) (cancelled waited : Bool) where
    -- A worker with a message in hand can go on to its end.
    finishes :
        (fuel : ℕ) (rs : List Received) (msg : ConsumedMessage) (p : PushProvider S)
        (n : Notification) (l : Attempts)
        → pos_part d.retry.max_attempts ≤ l.iter.attempt + fuel
        → Comes first before after cancelled waited (trying msg p n l) rs
        → Comes first before after cancelled waited listening rs
    unfolding taken
    finishes zero rs msg p n l enough (s, reach, takes) =
        let (wk, s') = try_again d msg p n l s in
        let step = later reach (attempt_step before after s s' wk msg p n l refl) in
        elim (try_again-IsAhead d msg p n l s) [
          | inl e ↦ subst (λ x. Comes first before after cancelled waited x rs) e (s', step, takes)
          | inr (l', e, one, below) ↦ absurd (omega (arith, below, enough))
        ]
    finishes (suc k) rs msg p n l enough (s, reach, takes) =
        let (wk, s') = try_again d msg p n l s in
        let step = later reach (attempt_step before after s s' wk msg p n l refl) in
        elim (try_again-IsAhead d msg p n l s) [
          | inl e ↦ subst (λ x. Comes first before after cancelled waited x rs) e (s', step, takes)
          | inr (l', e, one, below) ↦
              finishes k rs msg p n l' (omega (arith, one, enough))
                (subst (λ x. Comes first before after cancelled waited x rs) e (s', step, takes))
        ]

  -- What a worker has after a receipt: nothing, or a message in hand.
  abbrev IsServing : Worker S → Type 0
  IsServing wk =
      (wk ≡ listening)
      ⊎ ((msg : ConsumedMessage) × (p : PushProvider S) × (n : Notification) × (l : Attempts) × (wk
            ≡ trying msg p n l))

  begin_dispatch-IsServing :
      (msg : ConsumedMessage) (n : Notification) (w : World S) (s : State S)
      → IsServing (begin_dispatch d msg n w s).0
  unfolding begin_dispatch
  begin_dispatch-IsServing msg n w s =
      elim (Bool-cases ((is_expired n (d.clock w.clock_reads)).0)) [
        | inl old ↦ rw old (inl refl)
        | inr live ↦ rw live (elim (Option-cases ((resolve d n).0)) [
          | inl e ↦ rw (e, begin_dispatch) (inl refl)
          | inr (p, e) ↦ rw (e, begin_dispatch) (inr (msg, p, n, _, refl))
        ])
      ]

  listen-IsServing :
      (r : Received) (s : State S) → IsServed r → IsServing (listen unmarshal d r s).0
  unfolding listen begin_handle
  listen-IsServing (message msg) s served = elim (Option-cases (unmarshal msg.body)) [
    | inl e ↦ rw (e, begin_handle) (inl refl)
    | inr (n, e) ↦ rw (e, begin_handle) (begin_dispatch-IsServing msg _ _ s)
  ]
  listen-IsServing (failed e) s (c, t, v) = rw (c, t, v) (inl refl)

  module _ (first : Pool S) (before after : List (Worker S)) (cancelled waited : Bool) where
    serves_one :
        (rs : List Received) (r : Received)
        → IsServed r
        → Comes first before after cancelled waited listening rs
        → Comes first before after cancelled waited listening (rs ++ r ∷ [])
    unfolding taken
    serves_one rs r served (s, reach, takes) =
        let (wk, s') = listen unmarshal d r s in
        let step = later reach (receive_step before after s s' wk r refl) in
        let takes' = ap (λ xs. xs ++ r ∷ []) takes in
        elim (listen-IsServing r s served) [
          | inl e ↦
              subst (λ x. Comes first before after cancelled waited x (rs ++ r ∷ [])) e
                (s', step, takes')
          | inr (msg, p, n, l, e) ↦
              finishes first before after cancelled waited (pos_part d.retry.max_attempts)
                (rs ++ r ∷ []) msg p n l (omega arith)
                (subst (λ x. Comes first before after cancelled waited x (rs ++ r ∷ [])) e
                  (s', step, takes'))
        ]

    -- A worker in Receive can take any receipts after which its loop goes on, and be in Receive again.
    pub serves_all :
        (rs more : List Received)
        → All IsServed more
        → Comes first before after cancelled waited listening rs
        → Comes first before after cancelled waited listening (rs ++ more)
    serves_all rs [] h here =
        subst (Comes first before after cancelled waited listening) (sym (append-nil rs)) here
    serves_all rs (r ∷ more) (served, h) here =
        subst (Comes first before after cancelled waited listening) (append_assoc rs (r ∷ []) more)
          (serves_all (rs ++ r ∷ []) more h (serves_one rs r served here))
