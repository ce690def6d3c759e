-- ===== src/Validation.antt =====
-- The validation rules of internal/writer/ingest/ingest.go. Each function gives the field errors that
-- its namesake appends.
pub mod Spec
pub mod Payload
pub mod Addressing
pub mod Correct
pub mod Codes
use pulsar_notifcation_pipel.Base.Int.{pos, negsuc, ltb_ℤ, ℤ}
use pulsar_notifcation_pipel.Message.{
  unknown, unset, pushover, Content, Notification, PushoverTarget, Target, Time,
}
use pulsar_notifcation_pipel.Base.{
  rune_count, trim_space, all, if◌then◌else◌, ltb, null, ◌++◌, ◌==◌, in_range, length, not, ◌&&◌,
  ◌||◌, ℕ, List, [], ◌∷◌, Option, none, some, Bool, true, false, Text, ascii,
}
use pulsar_notifcation_pipel.GoError.{FieldError}

abbrev pub field_error : Text → Text → Text → FieldError
field_error field code message = record { field = field; code = code; message = message }

-- `if test { append(*errs, e) }`
abbrev pub when : Bool → FieldError → List FieldError
when true e = e ∷ []
when false e = []

abbrev pub is_letter : ℕ → Bool
is_letter c = in_range b'A' b'Z' c || in_range b'a' b'z' c

abbrev pub is_digit : ℕ → Bool
is_digit c = in_range b'0' b'9' c

abbrev pub is_alphanumeric : ℕ → Bool
is_alphanumeric c = is_letter c || is_digit c

-- ^[A-Za-z0-9]{30}$
unfoldable pub pushover_key_re : Text → Bool
pushover_key_re s = length s == 30 && all is_alphanumeric s

abbrev pub is_device_char : ℕ → Bool
is_device_char c = is_alphanumeric c || c == b'_' || c == b'-'

-- ^[A-Za-z0-9_-]+$
unfoldable pub device_re : Text → Bool
device_re s = not (null s) && all is_device_char s

abbrev pub is_key_start : ℕ → Bool
is_key_start c = is_letter c || c == b'_'

abbrev pub is_key_char : ℕ → Bool
is_key_char c = is_alphanumeric c || c == b'_'

-- ^[A-Za-z_][A-Za-z0-9_]*$
unfoldable pub data_key_re : Text → Bool
data_key_re [] = false
data_key_re (c ∷ s) = is_key_start c && all is_key_char s

unfoldable pub validate_title : Text → List FieldError
validate_title title =
    if null title
    then field_error (ascii "content.title") (ascii "required") [] ∷ []
    else if null (trim_space title)
    then field_error (ascii "content.title") (ascii "whitespace-only") [] ∷ []
    else when (ltb 250 (rune_count title))
        (field_error (ascii "content.title") (ascii "too-long") [])

unfoldable pub validate_body : Text → List FieldError
validate_body body =
    if null body
    then field_error (ascii "content.body") (ascii "required") [] ∷ []
    else when (ltb 1024 (rune_count body))
        (field_error (ascii "content.body") (ascii "too-long") [])

unfoldable pub validate_priority : ℤ → List FieldError
validate_priority p =
    when (ltb_ℤ p (negsuc 1) || ltb_ℤ (pos 2) p)
      (field_error (ascii "content.priority") (ascii "out-of-range") (ascii "must be in [-2, 2]"))

-- The loop over the entries, in the order in which it meets them.
unfoldable pub validate_entries : List (Text × Text) → List FieldError
validate_entries [] = []
validate_entries ((k, v) ∷ more) =
    when (ltb 64 (length k) || not (data_key_re k))
      (field_error (ascii "content.data") (ascii "key-invalid") k)
    ++ (when (ltb 512 (length v)) (field_error (ascii "content.data") (ascii "value-too-long") k)
        ++ validate_entries more)

unfoldable pub validate_data : List (Text × Text) → List FieldError
validate_data entries =
    when (ltb 32 (length entries))
      (field_error (ascii "content.data") (ascii "too-many-entries") [])
    ++ validate_entries entries

unfoldable pub validate_content : Option Content → List FieldError
validate_content none =
    field_error (ascii "content.title") (ascii "required") []
    ∷ field_error (ascii "content.body") (ascii "required") []
    ∷ []
validate_content (some c) =
    validate_title c.title
    ++ (validate_body c.body ++ (validate_priority c.priority ++ validate_data c.entries))

unfoldable pub validate_key : Text → List FieldError
validate_key key =
    if null key
    then field_error (ascii "target.pushover.user_or_group_key") (ascii "required") [] ∷ []
    else when (not (pushover_key_re key))
        (field_error (ascii "target.pushover.user_or_group_key") (ascii "malformed") [])

unfoldable pub validate_device : Text → List FieldError
validate_device d =
    if null d
    then []
    else when (ltb 25 (length d))
        (field_error (ascii "target.pushover.device_name") (ascii "too-long") [])
      ++ when (not (device_re d))
          (field_error (ascii "target.pushover.device_name") (ascii "malformed") [])

unfoldable pub validate_url_title : (url title : Text) → List FieldError
validate_url_title url ut =
    if null ut
    then []
    else when (ltb 100 (length ut))
        (field_error (ascii "target.pushover.url_title") (ascii "too-long") [])
      ++ when (null url) (field_error (ascii "target.pushover.url_title") (ascii "requires-url") [])

-- `is_abs_url u` says that url.Parse accepts u as an absolute URL.
module _ (is_abs_url : Text → Bool) where
  unfoldable pub validate_url : Text → List FieldError
  validate_url u =
      if null u
      then []
      else if ltb 512 (length u)
      then field_error (ascii "target.pushover.url") (ascii "too-long") [] ∷ []
      else when (not (is_abs_url u))
          (field_error (ascii "target.pushover.url") (ascii "malformed") [])

  unfoldable pub validate_pushover : Option PushoverTarget → List FieldError
  validate_pushover none =
      field_error (ascii "target.pushover.user_or_group_key") (ascii "required") [] ∷ []
  validate_pushover (some t) =
      validate_key t.user_or_group_key
      ++ (validate_device t.device_name
          ++ (validate_url t.url ++ validate_url_title t.url t.url_title))

  unfoldable pub validate_target : Target → List FieldError
  validate_target unset = field_error (ascii "target") (ascii "missing") [] ∷ []
  validate_target (pushover t) = validate_pushover t
  validate_target unknown = field_error (ascii "target") (ascii "unknown-arm") [] ∷ []

unfoldable pub validate_timestamps : (expires_at created_at : Option Time) → List FieldError
validate_timestamps none created = []
validate_timestamps (some expires) none = []
validate_timestamps (some expires) (some created) =
    when (ltb expires created) (field_error (ascii "expires_at") (ascii "before-created-at") [])

unfoldable pub validate_idempotency : Text → List FieldError
validate_idempotency k =
    when (ltb 128 (length k)) (field_error (ascii "idempotency_key") (ascii "too-long") [])

-- Validate: `none` is the nil error, and `some` holds the fields.
unfoldable pub validate : (is_abs_url : Text → Bool) → Notification → Option (List FieldError)
validate is_abs_url n =
    let errs =
      validate_content n.content
      ++ (validate_target is_abs_url n.target
          ++ (validate_timestamps n.expires_at n.created_at
              ++ validate_idempotency n.idempotency_key)) in
    if null errs then none else some errs
