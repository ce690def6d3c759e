-- ===== src/Logging.antt =====
-- internal/logging/logging.go: the level of the logger.
use pulsar_notifcation_pipel.Base.{
  ◌++◌, ◌||◌, text_eq, if◌then◌else◌, to_lower, Option, none, some, Text, ascii,
}
use pulsar_notifcation_pipel.GoError.{new, nil, is_nil, Error}

pub data SlogLevel : Type 0 where
  level_debug level_info level_warn level_error : SlogLevel

unfoldable pub log_level_to_slog_level : Text → SlogLevel × Error
log_level_to_slog_level log_level =
    let s = to_lower log_level in
    if text_eq s (ascii "debug")
    then (level_debug, nil)
    else if text_eq s (ascii "info")
    then (level_info, nil)
    else if text_eq s (ascii "warn") || text_eq s (ascii "warning")
    then (level_warn, nil)
    else if text_eq s (ascii "error")
    then (level_error, nil)
    else (level_info, new (ascii "unknown log level: " ++ log_level))

-- New: the level of the handler.
unfoldable pub new_logger : Text → Option SlogLevel × Error
new_logger level =
    let (lvl, err) = log_level_to_slog_level level in
    if is_nil err then (some lvl, nil) else (none, err)
