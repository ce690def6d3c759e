-- ===== src/GeneratedServer/Params.antt =====
-- internal/writer/httpserver/server.gen.go: the errors of request parameters, with their messages and
-- what they unwrap to.
use pulsar_notifcation_pipel.Base.{◌++◌, ℕ, Text, ascii}
use pulsar_notifcation_pipel.Base.Decimal.{format_ℕ}
use pulsar_notifcation_pipel.GoError.{error_text, nil, Error}

pub data ParamError : Type 0 where
  unescaped_cookie_param_error unmarshaling_param_error required_header_error :
      (param_name : Text) → Error → ParamError
  invalid_param_format_error : (param_name : Text) → Error → ParamError
  required_param_error : (param_name : Text) → ParamError
  too_many_values_for_param_error : (param_name : Text) → (count : ℕ) → ParamError

-- The Error methods.
unfoldable pub param_error_text : ParamError → Text
param_error_text (unescaped_cookie_param_error name err) =
    ascii "error unescaping cookie parameter '" ++ (name ++ ascii "'")
param_error_text (unmarshaling_param_error name err) =
    ascii "Error unmarshaling parameter " ++ (name ++ (ascii " as JSON: " ++ error_text err))
param_error_text (required_param_error name) =
    ascii "Query argument " ++ (name ++ ascii " is required, but not found")
param_error_text (required_header_error name err) =
    ascii "Header parameter " ++ (name ++ ascii " is required, but not found")
param_error_text (invalid_param_format_error name err) =
    ascii "Invalid format for parameter " ++ (name ++ (ascii ": " ++ error_text err))
param_error_text (too_many_values_for_param_error name count) =
    ascii "Expected one value for " ++ (name ++ (ascii ", got " ++ format_ℕ count))

-- The Unwrap methods; errors.Unwrap gives nil where there is none.
unfoldable pub unwrap : ParamError → Error
unwrap (unescaped_cookie_param_error name err) = err
unwrap (unmarshaling_param_error name err) = err
unwrap (required_header_error name err) = err
unwrap (invalid_param_format_error name err) = err
unwrap (required_param_error name) = nil
unwrap (too_many_values_for_param_error name count) = nil
