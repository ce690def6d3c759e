-- ===== src/Validation/Addressing.antt =====
-- The rules for the target of a notification: no field error exactly if the target keeps them.
use pulsar_notifcation_pipel.Message.{unknown, unset, pushover, PushoverTarget, Target}
use pulsar_notifcation_pipel.Base.{
  all_iff, ◌++◌, ◌≢◌, All, append-eq-nil_iff, ◌≤◌, length, ◌↔◌, ℕ, [], none, some, Bool, true,
  arith, ◌≡◌, Text, ◌⊎◌,
}
use pulsar_notifcation_pipel.Validation.Spec.{
  IsAlphanumeric, IsDeviceChar, IsValidPushover, IsValidTarget,
}
use pulsar_notifcation_pipel.Validation.{
  device_re, pushover_key_re, is_alphanumeric, is_device_char, validate_device, validate_key,
  validate_pushover, validate_target, validate_url, validate_url_title,
}

is_alphanumeric_iff : (c : ℕ) → (is_alphanumeric c ≡ true) ↔ IsAlphanumeric c
is_alphanumeric_iff c = ground arith

is_device_char_iff : (c : ℕ) → (is_device_char c ≡ true) ↔ IsDeviceChar c
is_device_char_iff c = ground arith

validate_key_iff : (k : Text) → (validate_key k ≡ []) ↔ ((length k ≡ 30) × All IsAlphanumeric k)
unfolding validate_key pushover_key_re
validate_key_iff k = ground (arith, all_iff is_alphanumeric _ is_alphanumeric_iff k)

validate_device_iff : (d : Text) → (validate_device d ≡ []) ↔ ((length d ≤ 25) × All IsDeviceChar d)
unfolding validate_device device_re
validate_device_iff d = ground (arith, all_iff is_device_char _ is_device_char_iff d)

validate_url_iff :
    (is_abs_url : Text → Bool) (u : Text)
    → (validate_url is_abs_url u ≡ []) ↔ ((length u ≤ 512) × ((u ≡ []) ⊎ (is_abs_url u ≡ true)))
unfolding validate_url
validate_url_iff is_abs_url u = ground arith

validate_url_title_iff :
    (u t : Text) → (validate_url_title u t ≡ []) ↔ ((length t ≤ 100) × ((t ≡ []) ⊎ (u ≢ [])))
unfolding validate_url_title
validate_url_title_iff u t = ground arith

validate_pushover_iff :
    (is_abs_url : Text → Bool) (t : PushoverTarget)
    → (validate_pushover is_abs_url (some t) ≡ []) ↔ IsValidPushover is_abs_url t
unfolding validate_pushover
validate_pushover_iff is_abs_url t = ground (
  arith,
  validate_key_iff t.user_or_group_key,
  validate_device_iff t.device_name,
  validate_url_iff is_abs_url t.url,
  validate_url_title_iff t.url t.url_title,
  append-eq-nil_iff (validate_key t.user_or_group_key) (
      validate_device t.device_name
      ++ (validate_url is_abs_url t.url ++ validate_url_title t.url t.url_title)),
  append-eq-nil_iff (validate_device t.device_name)
      (validate_url is_abs_url t.url ++ validate_url_title t.url t.url_title),
  append-eq-nil_iff (validate_url is_abs_url t.url) (validate_url_title t.url t.url_title),
)

pub validate_target_iff :
    (is_abs_url : Text → Bool) (t : Target)
    → (validate_target is_abs_url t ≡ []) ↔ IsValidTarget is_abs_url t
unfolding validate_target validate_pushover
validate_target_iff is_abs_url unset = ground arith
validate_target_iff is_abs_url unknown = ground arith
validate_target_iff is_abs_url (pushover none) = ground arith
validate_target_iff is_abs_url (pushover (some t)) = validate_pushover_iff is_abs_url t
