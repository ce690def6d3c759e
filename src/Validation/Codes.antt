-- ===== src/Validation/Codes.antt =====
-- The codes of the field errors that internal/writer/ingest/ingest.go reports, against those that the
-- generated client knows.
use pulsar_notifcation_pipel.Base.{
  not, ◌||◌, length, ltb, subst, null, All-append, text_eq, All, if◌then◌else◌, ◌++◌, List, [], ◌∷◌,
  Option, none, some, Bool, true, false, arith, ◌≡◌, Text, ascii,
}
use pulsar_notifcation_pipel.Validation.{
  data_key_re, field_error, validate_data, validate_idempotency, validate_priority,
  validate_pushover, when, validate, validate_body, validate_content, validate_device,
  validate_entries, validate_key, validate_target, validate_timestamps, validate_title,
  validate_url, validate_url_title,
}
use pulsar_notifcation_pipel.Base.Int.{ℤ}
use pulsar_notifcation_pipel.Message.{unknown, unset, pushover, Content, Notification, Target, Time}
use pulsar_notifcation_pipel.GeneratedClient.Answers.{field_error_code_valid}
use pulsar_notifcation_pipel.GoError.{FieldError}

-- A field error whose code the generated client takes for a valid one.
abbrev pub IsKnown : FieldError → Type 0
IsKnown e = field_error_code_valid e.code ≡ true

-- Such codes alone.
record AllKnown (fields : List FieldError) : Type 0 where
  known : All IsKnown fields

nil-AllKnown : AllKnown []
nil-AllKnown = record { known = tt }

one-AllKnown : (e : FieldError) → IsKnown e → AllKnown (e ∷ [])
one-AllKnown e known = record { known = (known, tt) }

both_AllKnown : (xs ys : List FieldError) → AllKnown xs → AllKnown ys → AllKnown (xs ++ ys)
both_AllKnown xs ys hx hy = record { known = All-append IsKnown xs ys hx.known hy.known }

when-AllKnown : (b : Bool) (e : FieldError) → IsKnown e → AllKnown (when b e)
when-AllKnown true e known = one-AllKnown e known
when-AllKnown false e known = nil-AllKnown

if-AllKnown :
    (b : Bool) (xs ys : List FieldError)
    → AllKnown xs
    → AllKnown ys
    → AllKnown (if b then xs else ys)
if-AllKnown true xs ys hx hy = hx
if-AllKnown false xs ys hx hy = hy

-- A list of field errors is put together from these.
ruleset known_laws = (if-AllKnown, when-AllKnown, one-AllKnown, nil-AllKnown, both_AllKnown)

validate_title-AllKnown : (t : Text) → AllKnown (validate_title t)
unfolding validate_title field_error_code_valid text_eq ascii
validate_title-AllKnown t = search known_laws

validate_body-AllKnown : (t : Text) → AllKnown (validate_body t)
unfolding validate_body field_error_code_valid text_eq ascii
validate_body-AllKnown t = search known_laws

validate_entries-AllKnown : (m : List (Text × Text)) → AllKnown (validate_entries m)
unfolding validate_entries field_error_code_valid text_eq ascii
validate_entries-AllKnown [] = nil-AllKnown
validate_entries-AllKnown ((k, v) ∷ m) =
    both_AllKnown
      (when (ltb 64 (length k) || not (data_key_re k))
        (field_error (ascii "content.data") (ascii "key-invalid") k))
      (when (ltb 512 (length v)) (field_error (ascii "content.data") (ascii "value-too-long") k)
        ++ validate_entries m)
      (search known_laws)
      (both_AllKnown
        (when (ltb 512 (length v)) (field_error (ascii "content.data") (ascii "value-too-long") k))
        (validate_entries m) (search known_laws) (validate_entries-AllKnown m))

validate_priority-AllKnown : (p : ℤ) → AllKnown (validate_priority p)
unfolding validate_priority field_error_code_valid text_eq ascii
validate_priority-AllKnown p = search known_laws

validate_data-AllKnown : (m : List (Text × Text)) → AllKnown (validate_data m)
unfolding validate_data field_error_code_valid text_eq ascii
validate_data-AllKnown m =
    both_AllKnown
      (when (ltb 32 (length m)) (field_error (ascii "content.data") (ascii "too-many-entries") []))
      (validate_entries m) (search known_laws) (validate_entries-AllKnown m)

validate_content-AllKnown : (c : Option Content) → AllKnown (validate_content c)
unfolding validate_content field_error_code_valid text_eq ascii
validate_content-AllKnown none = search (known_laws, both_AllKnown (_ ∷ []) (_ ∷ []))
validate_content-AllKnown (some c) =
    let data_known =
      both_AllKnown (validate_priority c.priority) (validate_data c.entries)
        (validate_priority-AllKnown c.priority) (validate_data-AllKnown c.entries) in
    both_AllKnown (validate_title c.title) _ (validate_title-AllKnown c.title)
      (both_AllKnown (validate_body c.body) _ (validate_body-AllKnown c.body) data_known)

validate_key-AllKnown : (key : Text) → AllKnown (validate_key key)
unfolding validate_key field_error_code_valid text_eq ascii
validate_key-AllKnown key = search known_laws

validate_device-AllKnown : (d : Text) → AllKnown (validate_device d)
unfolding validate_device field_error_code_valid text_eq ascii
validate_device-AllKnown d = search known_laws

validate_url_title-AllKnown : (u t : Text) → AllKnown (validate_url_title u t)
unfolding validate_url_title field_error_code_valid text_eq ascii
validate_url_title-AllKnown u t = search known_laws

module _ (is_abs_url : Text → Bool) where
  validate_url-AllKnown : (u : Text) → AllKnown (validate_url is_abs_url u)
  unfolding validate_url field_error_code_valid text_eq ascii
  validate_url-AllKnown u = search known_laws

  validate_target-AllKnown : (t : Target) → AllKnown (validate_target is_abs_url t)
  unfolding validate_target validate_pushover field_error_code_valid text_eq ascii
  validate_target-AllKnown unset = search known_laws
  validate_target-AllKnown unknown = search known_laws
  validate_target-AllKnown (pushover none) = search known_laws
  validate_target-AllKnown (pushover (some t)) =
      let url_known =
        both_AllKnown (validate_url is_abs_url t.url) (validate_url_title t.url t.url_title)
          (validate_url-AllKnown t.url) (validate_url_title-AllKnown t.url t.url_title) in
      both_AllKnown (validate_key t.user_or_group_key) _ (validate_key-AllKnown t.user_or_group_key)
        (both_AllKnown (validate_device t.device_name) _ (validate_device-AllKnown t.device_name)
          url_known)

  validate_timestamps-AllKnown :
      (expires created : Option Time) → AllKnown (validate_timestamps expires created)
  unfolding validate_timestamps field_error_code_valid text_eq ascii
  validate_timestamps-AllKnown none created = nil-AllKnown
  validate_timestamps-AllKnown (some expires) none = nil-AllKnown
  validate_timestamps-AllKnown (some expires) (some created) = search known_laws

  -- Whatever a notification holds, every field error that its validation reports has a code that
  -- the generated client takes for a valid one.
  pub validate-AllKnown :
      (n : Notification) (fields : List FieldError)
      → validate is_abs_url n ≡ some fields
      → All (λ e. field_error_code_valid e.code ≡ true) fields
  unfolding validate validate_idempotency field_error_code_valid text_eq ascii
  validate-AllKnown n fields found = AllKnown.known (subst AllKnown (reported found) all_known)
    where
      all_known : AllKnown (
          validate_content n.content
          ++ (validate_target is_abs_url n.target
              ++ (validate_timestamps n.expires_at n.created_at
                  ++ validate_idempotency n.idempotency_key)))
      all_known =
          both_AllKnown (validate_content n.content) _ (validate_content-AllKnown n.content) (
            both_AllKnown (validate_target is_abs_url n.target) _
              (validate_target-AllKnown n.target)
              (both_AllKnown (validate_timestamps n.expires_at n.created_at)
                (validate_idempotency n.idempotency_key)
                (validate_timestamps-AllKnown n.expires_at n.created_at) (search known_laws)))

      reported :
          {errs : List FieldError}
          → (if null errs then none else some errs) ≡ some fields
          → errs ≡ fields
      reported e = ground arith
