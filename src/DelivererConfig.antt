-- ===== src/DelivererConfig.antt =====
-- internal/deliverer/config/config.go: the deliverer's configuration, and the choice of its provider
-- in cmd/deliverer/main.go.
pub mod Loading
use pulsar_notifcation_pipel.Base.{
  ◌++◌, null, text_eq, not, apply_all, if◌then◌else◌, List, [], ◌∷◌, Option, none, some, Text,
  ascii,
}
use pulsar_notifcation_pipel.Sandbox.{new_sandbox, Sandbox}
use mathlib.Core.Option
use pulsar_notifcation_pipel.GoError.{nil, new, wrap, is_nil, Error}
use pulsar_notifcation_pipel.Base.Int.{pos, leb_ℤ, ℤ}
use pulsar_notifcation_pipel.Pushover.{with_base_url, with_app_token, new_provider, Provider}
use pulsar_notifcation_pipel.Message.{Duration}

-- The fields of the deliverer's own. The embedded shared ones are only passed on.
pub record DelivererConfig : Type 0 where
  pub pulsar_subscription : Text
  pub concurrency : ℤ
  pub retry_max_attempts : ℤ
  pub retry_initial_backoff : Duration
  pub retry_max_backoff : Duration
  pub provider_kind : Text
  pub pushover_app_token : Text
  pub pushover_base_url : Text

abbrev pub DelivererOption : Type 0
DelivererOption = DelivererConfig → DelivererConfig

unfoldable pub with_concurrency : ℤ → DelivererOption
with_concurrency n c = record c { concurrency = n }

unfoldable pub with_provider_kind : Text → DelivererOption
with_provider_kind k c = record c { provider_kind = k }

-- The two checks behind the switch.
unfoldable pub check_counts : DelivererConfig → Option DelivererConfig × Error
check_counts c =
    if leb_ℤ c.concurrency (pos 0)
    then (none, new (ascii "parse deliverer config: DELIVERER_CONCURRENCY must be > 0"))
    else if leb_ℤ c.retry_max_attempts (pos 0)
    then (none, new (ascii "parse deliverer config: DELIVERER_RETRY_MAX_ATTEMPTS must be > 0"))
    else (some c, nil)

-- Load, by what env.Parse gives; `quote` is the %q verb.
unfoldable pub load_deliverer :
    (quote : Text → Text)
    → DelivererConfig × Error
    → List DelivererOption
    → Option DelivererConfig × Error
load_deliverer quote (parsed, err) opts =
    let c = apply_all opts parsed in
    if not (is_nil err)
    then (none, wrap (ascii "parse deliverer config") err)
    else if text_eq c.provider_kind (ascii "pushover")
    then if null c.pushover_app_token
      then (
        none,
        new (ascii "parse deliverer config: PUSHOVER_APP_TOKEN is required when PROVIDER=pushover"),
      )
      else check_counts c
    else if text_eq c.provider_kind (ascii "sandbox")
    then check_counts c
    else (none, new (ascii "parse deliverer config: unknown PROVIDER " ++ quote c.provider_kind))

-- Which provider the deliverer runs.
pub data Backend : Type 0 where
  pushover_backend : Provider → Backend
  sandbox_backend : Sandbox → Backend

-- buildProvider
unfoldable pub build_provider : DelivererConfig → Option Backend × Error
build_provider c =
    let (p, err) =
      new_provider (with_app_token c.pushover_app_token ∷ with_base_url c.pushover_base_url ∷ []) in
    if text_eq c.provider_kind (ascii "pushover")
    then (Option.map pushover_backend p, err)
    else if text_eq c.provider_kind (ascii "sandbox")
    then (some (sandbox_backend (new_sandbox [])), nil)
    else (none, new (ascii "deliverer: unknown provider " ++ c.provider_kind))
