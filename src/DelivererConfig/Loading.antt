-- ===== src/DelivererConfig/Loading.antt =====
-- What `Load` of internal/deliverer/config/config.go lets through, and what
-- cmd/deliverer/main.go makes of it.
use pulsar_notifcation_pipel.Base.{
  is_some, text_eq_iff, ◌↔◌, apply_all, ◌≢◌, List, [], some, true, arith, ◌≡◌, Text, ascii, ◌⊎◌,
}
use pulsar_notifcation_pipel.Base.Int.{◌≤ℤ◌, pos}
use pulsar_notifcation_pipel.GoError.{is_nil, nil, Error}
use pulsar_notifcation_pipel.DelivererConfig.{
  DelivererOption, check_counts, DelivererConfig, build_provider, load_deliverer,
}
use pulsar_notifcation_pipel.Pushover.{with_base_url, with_app_token, new_provider}

-- A usable configuration.
pub record IsUsable (c : DelivererConfig) : Type 0 where
  pub known :
      ((c.provider_kind ≡ ascii "pushover") × (c.pushover_app_token ≢ []))
      ⊎ (c.provider_kind ≡ ascii "sandbox")
  pub workers : pos 1 ≤ℤ c.concurrency
  pub tries : pos 1 ≤ℤ c.retry_max_attempts

kinds-apart : ascii "pushover" ≢ ascii "sandbox"
unfolding ascii
kinds-apart = ground arith

-- Load returns the configuration that the options make of the parsed environment exactly if parsing
-- worked and that configuration has a known provider with the token it needs, a worker and an attempt.
pub load_deliverer_iff :
    (quote : Text → Text) (parsed : DelivererConfig) (err : Error) (opts : List DelivererOption)
    → (load_deliverer quote (parsed, err) opts ≡ (some (apply_all opts parsed), nil))
      ↔ ((is_nil err ≡ true) × IsUsable (apply_all opts parsed))
unfolding load_deliverer check_counts
load_deliverer_iff quote parsed err opts = ground (
  arith,
  text_eq_iff (apply_all opts parsed).provider_kind (ascii "pushover"),
  text_eq_iff (apply_all opts parsed).provider_kind (ascii "sandbox"),
  kinds-apart,
)

-- A usable configuration always gives a provider: buildProvider returns one and no error.
pub build_provider_lem :
    (c : DelivererConfig)
    → IsUsable c
    → (is_some (build_provider c).0 ≡ true) × ((build_provider c).1 ≡ nil)
unfolding build_provider new_provider with_app_token with_base_url
build_provider_lem c usable = ground (
  arith,
  text_eq_iff c.provider_kind (ascii "pushover"),
  text_eq_iff c.provider_kind (ascii "sandbox"),
  kinds-apart,
)
