-- ===== src/Retry/Backoff.antt =====
-- What `Next` of internal/deliverer/retry/retry.go yields: the capped exponential, and its range.
use pulsar_notifcation_pipel.Base.{
  refl, ◌-◌, ◌+◌, ℕ, zero, suc, ◌*◌, ◌^◌, ◌≤◌, ◌<◌, min, ◌≡◌, arith, leb, if◌then◌else◌, Bool-cases,
  inl, inr,
}
use pulsar_notifcation_pipel.Retry.{base_backoff, Policy, doublings}
use pulsar_notifcation_pipel.Base.Int.{ltb_ℤ, pos, double64}
use native.Mathlib.Nat.{pow-suc}

double64-pos : (n : ℕ) → n < 2 ^ 62 → double64 (pos n) ≡ pos (n * 2)
unfolding double64
double64-pos n h = ground arith

one-le-pow : (r : ℕ) → 1 ≤ 2 ^ r
one-le-pow zero = omega arith
one-le-pow (suc r) = rw pow-suc (omega (arith, one-le-pow r))

le-mul-pow : (n r : ℕ) → n ≤ n * 2 ^ r
le-mul-pow n r = let h = one-le-pow r in grind arith

double-pow : (n r : ℕ) → n * 2 ^ suc r ≡ n * 2 * 2 ^ r
double-pow n r = rw pow-suc (omega arith)

doublings_lem :
    (rounds n max : ℕ)
    → n ≤ max
    → max < 2 ^ 62
    → doublings (pos max) rounds (pos n) ≡ pos (min (n * 2 ^ rounds) max)
unfolding doublings
doublings_lem zero n max h k = ground arith
doublings_lem (suc r) n max h k =
    rw (double64-pos n (omega arith), double-pow n r)
      (ground (arith, le-mul-pow (n * 2) r, doublings_lem r (n * 2) max))

doublings_zero : (max n : ℕ) → doublings (pos max) 0 (pos n) ≡ pos n
unfolding doublings
doublings_zero max n = refl

-- Above the cap a single round reaches it.
doublings_above :
    (rounds n max : ℕ) → max < n → n < 2 ^ 62 → doublings (pos max) (suc rounds) (pos n) ≡ pos max
unfolding doublings
doublings_above r n max h k = rw (double64-pos n k) (ground arith)

module _ (p : Policy) (n max : ℕ) (initial : p.initial_backoff ≡ pos n)
    (capped : p.max_backoff ≡ pos max) (n_small : n < 2 ^ 62) (max_small : max < 2 ^ 62) where
  -- Before jitter, the backoff at attempt k + 1 is the initial backoff doubled k times, capped at the
  -- maximum, for both durations below 2^62 ns, where no doubling overflows int64.
  pub base_backoff_lem : (k : ℕ) → base_backoff p (k + 1) ≡ pos (min (n * 2 ^ k) max)
  unfolding base_backoff
  base_backoff_lem k =
      let e : k + 1 - 1 ≡ k = omega arith in
      rw (e, initial, capped)
        (elim (Bool-cases (leb n max)) [
          | inl h ↦ rw (doublings_lem k n max (ground arith) max_small) (ground arith)
          | inr h ↦ above k (ground arith)
        ])
    where
      above :
          (k : ℕ)
          → max < n
          → (if ltb_ℤ (pos max) (doublings (pos max) k (pos n))
              then pos max
              else doublings (pos max) k (pos n))
            ≡ pos (min (n * 2 ^ k) max)
      above zero h = rw doublings_zero (ground arith)
      above (suc k) h =
          rw (doublings_above k n max h n_small) (ground (arith, le-mul-pow n (suc k)))
