-- ===== src/Retry.antt =====
-- internal/deliverer/retry/retry.go: the classifier of errors, and the iterator of backoffs.
pub mod Backoff
pub mod Classes
use pulsar_notifcation_pipel.Base.{
  apply_all, ℕ, zero, suc, ◌+◌, ◌-◌, ◌*◌, Bool, List, if◌then◌else◌,
}
use pulsar_notifcation_pipel.Base.Int.{ℤ, pos, leb_ℤ, ltb_ℤ, double64}
use pulsar_notifcation_pipel.GoError.{Error, is_nil, errors_is, err_transient, err_permanent}
use pulsar_notifcation_pipel.Base.Float.{Float64, float64, int64, multiply}
use pulsar_notifcation_pipel.Message.{Duration}

pub data Class : Type 0 where
  class_permanent class_transient : Class

unfoldable pub classify : Error → Class
classify err =
    if is_nil err
    then class_permanent
    else if errors_is err err_transient
    then class_transient
    else if errors_is err err_permanent
    then class_permanent
    else class_transient

-- The random source stands in the policy: `rng k` is what it gives at an iterator's k-th call.
pub record Policy : Type 0 where
  pub max_attempts : ℤ
  pub initial_backoff : Duration
  pub max_backoff : Duration
  pub rng : ℕ → Float64

abbrev pub PolicyOption : Type 0
PolicyOption = Policy → Policy

unfoldable pub with_max_attempts : ℤ → PolicyOption
with_max_attempts n p = record p { max_attempts = n }

unfoldable pub with_initial_backoff : Duration → PolicyOption
with_initial_backoff d p = record p { initial_backoff = d }

unfoldable pub with_max_backoff : Duration → PolicyOption
with_max_backoff d p = record p { max_backoff = d }

unfoldable pub with_rng : (ℕ → Float64) → PolicyOption
with_rng fn p = record p { rng = fn }

abbrev pub millisecond : ℕ
millisecond = 1_000_000

abbrev pub second : ℕ
second = 1_000 * millisecond

-- The default generator is `rand`, a parameter.
unfoldable pub new_policy : (rand : ℕ → Float64) → List PolicyOption → Policy
new_policy rand opts = apply_all opts (record {
  max_attempts = pos 5;
  initial_backoff = pos (500 * millisecond);
  max_backoff = pos (30 * second);
  rng = rand;
})

-- The iterator's policy never changes, so it is an argument of the methods.
pub record Iterator : Type 0 where
  pub attempt : ℕ

unfoldable pub new_iterator : Iterator
new_iterator = record { attempt = 0 }

unfoldable pub done : Policy → Iterator → Bool
done p i = leb_ℤ p.max_attempts (pos i.attempt)

-- The doubling loop of `Next`, with the rounds that are left.
unfoldable pub doublings : Duration → ℕ → Duration → Duration
doublings max_backoff zero base = base
doublings max_backoff (suc rounds) base =
    let more = doublings max_backoff rounds (double64 base) in
    if leb_ℤ max_backoff (double64 base) then max_backoff else more

-- The backoff before jitter at the given attempt (from 1).
unfoldable pub base_backoff : Policy → ℕ → Duration
base_backoff p attempt =
    let base = doublings p.max_backoff (attempt - 1) p.initial_backoff in
    if ltb_ℤ p.max_backoff base then p.max_backoff else base

unfoldable pub next : Policy → Iterator → Duration × Iterator
next p i = (
  int64 (multiply (p.rng (i.attempt + 1)) (float64 (base_backoff p (i.attempt + 1)))),
  record { attempt = i.attempt + 1 },
)
