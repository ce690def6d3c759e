-- ===== src/Validation/Payload.antt =====
-- The rules for the content and the other fields of a notification: no field error exactly if the
-- value keeps them.
use pulsar_notifcation_pipel.Validation.{
  field_error, validate_content, validate_data, validate_idempotency, validate_timestamps, when,
  data_key_re, is_key_char, is_key_start, validate_body, validate_entries, validate_priority,
  validate_title,
}
use pulsar_notifcation_pipel.Message.{Content, Time}
use pulsar_notifcation_pipel.Base.{
  ltb, ◌++◌, append-eq-nil_iff, length, Option, none, some, ascii, ◌≤◌, all_iff, rune_count,
  trim_space, All, ◌≢◌, ◌↔◌, ℕ, List, [], ◌∷◌, Bool, true, false, arith, ◌≡◌, Text, ◌⊎◌,
}
use pulsar_notifcation_pipel.Validation.Spec.{
  HasValidContent, IsOrderedTimes, IsEntry, IsLetter, IsAlphanumeric, IsDataKey,
}
use pulsar_notifcation_pipel.Base.Int.{pos, ◌≤ℤ◌, negsuc, ℤ}
use pulsar_notifcation_pipel.GoError.{FieldError}

pub when-nil_iff : (b : Bool) (e : FieldError) → (when b e ≡ []) ↔ (b ≡ false)
when-nil_iff b e = ground arith

validate_title_iff :
    (t : Text) → (validate_title t ≡ []) ↔ ((t ≢ []) × (trim_space t ≢ []) × (rune_count t ≤ 250))
unfolding validate_title
validate_title_iff t = ground arith

validate_body_iff : (t : Text) → (validate_body t ≡ []) ↔ ((t ≢ []) × (rune_count t ≤ 1024))
unfolding validate_body
validate_body_iff t = ground arith

validate_priority_iff : (p : ℤ) → (validate_priority p ≡ []) ↔ ((negsuc 1 ≤ℤ p) × (p ≤ℤ pos 2))
unfolding validate_priority
validate_priority_iff p = ground arith

is_key_start_iff : (c : ℕ) → (is_key_start c ≡ true) ↔ (IsLetter c ⊎ (c ≡ b'_'))
is_key_start_iff c = ground arith

is_key_char_iff : (c : ℕ) → (is_key_char c ≡ true) ↔ (IsAlphanumeric c ⊎ (c ≡ b'_'))
is_key_char_iff c = ground arith

data_key_re_iff : (k : Text) → (data_key_re k ≡ true) ↔ IsDataKey k
unfolding data_key_re
data_key_re_iff [] = ground arith
data_key_re_iff (c ∷ s) =
    ground (arith, is_key_start_iff c, all_iff is_key_char _ is_key_char_iff s)

validate_entries_iff : (m : List (Text × Text)) → (validate_entries m ≡ []) ↔ All IsEntry m
unfolding validate_entries
validate_entries_iff [] = ground arith
validate_entries_iff ((k, v) ∷ m) = ground (arith, data_key_re_iff k, validate_entries_iff m)

validate_data_iff :
    (m : List (Text × Text)) → (validate_data m ≡ []) ↔ ((length m ≤ 32) × All IsEntry m)
unfolding validate_data
validate_data_iff m = ground (
  arith,
  validate_entries_iff m,
  append-eq-nil_iff
      (when (ltb 32 (length m)) (field_error (ascii "content.data") (ascii "too-many-entries") []))
      (validate_entries m),
)

pub validate_content_iff : (c : Option Content) → (validate_content c ≡ []) ↔ HasValidContent c
unfolding validate_content
validate_content_iff none = ground arith
validate_content_iff (some c) = ground (
  arith,
  validate_title_iff c.title,
  validate_body_iff c.body,
  validate_priority_iff c.priority,
  validate_data_iff c.entries,
  append-eq-nil_iff (validate_title c.title)
      (validate_body c.body ++ (validate_priority c.priority ++ validate_data c.entries)),
  append-eq-nil_iff (validate_body c.body)
      (validate_priority c.priority ++ validate_data c.entries),
  append-eq-nil_iff (validate_priority c.priority) (validate_data c.entries),
)

pub validate_timestamps_iff :
    (e c : Option Time) → (validate_timestamps e c ≡ []) ↔ IsOrderedTimes e c
unfolding validate_timestamps
validate_timestamps_iff none c = ground arith
validate_timestamps_iff (some e) none = ground arith
validate_timestamps_iff (some e) (some c) = ground arith

pub validate_idempotency_iff : (k : Text) → (validate_idempotency k ≡ []) ↔ (length k ≤ 128)
unfolding validate_idempotency
validate_idempotency_iff k = ground arith
