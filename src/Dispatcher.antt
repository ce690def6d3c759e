-- ===== src/Dispatcher.antt =====
-- internal/deliverer/dispatcher/dispatcher.go: the dispatcher, its options, and the state that one
-- message's dispatch reads and changes. `Dispatch` stands in the child of that name.
pub mod Dispatch
pub mod Loop
pub mod Verdict
pub mod Total
use pulsar_notifcation_pipel.Base.{
  apply_all, some, is_none, ascii, null, ◌∷◌, none, [], if◌then◌else◌, List, Option, Text, ℕ,
}
use pulsar_notifcation_pipel.Base.Float.{Float64}
use pulsar_notifcation_pipel.GoError.{new, nil, Error}
use pulsar_notifcation_pipel.Retry.{with_max_attempts, new_policy, Policy}
use pulsar_notifcation_pipel.Base.Int.{pos, leb_ℤ}
use pulsar_notifcation_pipel.Base.Dict.{insert}
use pulsar_notifcation_pipel.Message.{Duration, Time}
use pulsar_notifcation_pipel.Metrics.{Instruments}
use pulsar_notifcation_pipel.Outcomes.{Outcome}
use pulsar_notifcation_pipel.Provider.{PushProvider}

-- The recorder is an interface; its calls are kept in `World.recorded`, and only whether it is nil
-- is looked at.
pub data Recorder : Type 0 where
  slog_recorder : Recorder

-- `clock k` is the k-th reading of the clock, and `sleep k d` what the k-th call of the sleep
-- function returns, for a wait of `d`.
pub record Dispatcher (S : Type 0) : Type 0 where
  pub providers : List (Text × PushProvider S)
  pub recorder : Option Recorder
  pub clock : ℕ → Time
  pub retry : Policy
  pub sleep : ℕ → Duration → Error

-- What a dispatch changes: the providers' state, the counts of clock readings and sleeps, the calls
-- of the recorder in order, and the instruments.
pub record World (S : Type 0) : Type 0 where
  pub state : S
  pub clock_reads : ℕ
  pub sleeps : ℕ
  pub recorded : List Outcome
  pub instruments : Instruments

-- What the Go runtime supplies: time.Now, the wait of a timer against the context (nil if the timer
-- fires first), and the generator behind the default policy.
pub record Runtime : Type 0 where
  pub now : ℕ → Time
  pub wait : ℕ → Duration → Error
  pub rand : ℕ → Float64

-- The default sleep function: no wait for a duration that is not positive.
unfoldable pub default_sleep : Runtime → ℕ → Duration → Error
default_sleep rt k d = if leb_ℤ d (pos 0) then nil else rt.wait k d

abbrev pub DispatcherOption : Type 0 → Type 0
DispatcherOption S = Dispatcher S → Dispatcher S

module _ {S : Type 0} where
  unfoldable pub with_provider : Text → PushProvider S → DispatcherOption S
  with_provider arm_name p d = record d { providers = insert arm_name p d.providers }

  unfoldable pub with_recorder : Option Recorder → DispatcherOption S
  with_recorder r d = record d { recorder = r }

  unfoldable pub with_clock : (ℕ → Time) → DispatcherOption S
  with_clock fn d = record d { clock = fn }

  unfoldable pub with_retry_policy : Policy → DispatcherOption S
  with_retry_policy p d = record d { retry = p }

  unfoldable pub with_sleep_func : (ℕ → Duration → Error) → DispatcherOption S
  with_sleep_func fn d = record d { sleep = fn }

  -- New: the dispatcher, or the error.
  unfoldable pub new_dispatcher :
      Runtime → List (DispatcherOption S) → Option (Dispatcher S) × Error
  new_dispatcher rt opts =
      let d : Dispatcher S = apply_all opts (record {
        providers = [];
        recorder = none;
        clock = rt.now;
        retry = new_policy rt.rand (with_max_attempts (pos 1) ∷ []);
        sleep = default_sleep rt;
      }) in
      if null d.providers
      then (none, new (ascii "dispatcher: at least one WithProvider is required"))
      else if is_none d.recorder
      then (none, new (ascii "dispatcher: WithRecorder is required"))
      else (some d, nil)
