-- ===== src/WriterConfig.antt =====
-- internal/writer/config/config.go: the writer's configuration.
pub mod Names
use pulsar_notifcation_pipel.Base.{
  not, trim_space, apply_all, null, ◌==◌, if◌then◌else◌, reverse, List, [], ◌∷◌, Option, none, some,
  Text, ascii,
}
use pulsar_notifcation_pipel.GoError.{nil, new, wrap, is_nil, Error}
use pulsar_notifcation_pipel.Message.{Duration}

-- The fields of the writer's own. The embedded shared ones are only passed on.
pub record WriterConfig : Type 0 where
  pub http_addr : Text
  pub bearer_tokens_file : Text
  pub idempotency_window : Duration
  pub encryption_key_names_csv : Text

abbrev pub WriterOption : Type 0
WriterOption = WriterConfig → WriterConfig

unfoldable pub with_http_addr : Text → WriterOption
with_http_addr addr c = record c { http_addr = addr }

unfoldable pub with_bearer_tokens_file : Text → WriterOption
with_bearer_tokens_file p c = record c { bearer_tokens_file = p }

unfoldable pub with_idempotency_window : Duration → WriterOption
with_idempotency_window d c = record c { idempotency_window = d }

unfoldable pub with_encryption_key_names_csv : Text → WriterOption
with_encryption_key_names_csv csv c = record c { encryption_key_names_csv = csv }

-- strings.Split of a text at the commas. `cur` is the part so far, reversed.
unfoldable pub split_commas : Text → Text → List Text
split_commas cur [] = reverse cur ∷ []
split_commas cur (c ∷ s) =
    let close = reverse cur ∷ split_commas [] s in
    let on = split_commas (c ∷ cur) s in if c == b',' then close else on

-- The loop of EncryptionKeyNames.
unfoldable pub trimmed_names : List Text → List Text
trimmed_names [] = []
trimmed_names (s ∷ raw) =
    let rest = trimmed_names raw in if null (trim_space s) then rest else trim_space s ∷ rest

unfoldable pub key_names : WriterConfig → List Text
key_names c = trimmed_names (split_commas [] c.encryption_key_names_csv)

-- Load, by what env.Parse gives.
unfoldable pub load_writer : WriterConfig × Error → List WriterOption → Option WriterConfig × Error
load_writer (parsed, err) opts =
    let c = apply_all opts parsed in
    if not (is_nil err)
    then (none, wrap (ascii "parse writer config") err)
    else if null (key_names c)
    then (
      none,
      new (ascii "parse writer config: PULSAR_ENCRYPTION_KEY_NAMES must contain at least one name"),
    )
    else (some c, nil)
