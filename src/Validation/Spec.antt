-- ===== src/Validation/Spec.antt =====
-- What a valid notification is, by the rules that internal/writer/ingest/ingest.go enforces.
use pulsar_notifcation_pipel.Base.Int.{pos, ◌≤ℤ◌, negsuc}
use pulsar_notifcation_pipel.Base.{
  rune_count, trim_space, ◌≢◌, All, length, ◌≤◌, ℕ, [], ◌∷◌, Option, none, some, Bool, true, ◌≡◌,
  Text, ◌⊎◌,
}
use pulsar_notifcation_pipel.Message.{
  unknown, unset, pushover, Content, Notification, PushoverTarget, Target, Time,
}

abbrev pub IsWithin : ℕ → ℕ → ℕ → Type 0
IsWithin lo hi c = (lo ≤ c) × (c ≤ hi)

abbrev pub IsLetter : ℕ → Type 0
IsLetter c = IsWithin b'A' b'Z' c ⊎ IsWithin b'a' b'z' c

abbrev pub IsAlphanumeric : ℕ → Type 0
IsAlphanumeric c = IsLetter c ⊎ IsWithin b'0' b'9' c

abbrev pub IsDeviceChar : ℕ → Type 0
IsDeviceChar c = IsAlphanumeric c ⊎ (c ≡ b'_') ⊎ (c ≡ b'-')

-- A letter or an underscore, then letters, digits and underscores.
abbrev pub IsDataKey : Text → Type 0
IsDataKey [] = ⊥
IsDataKey (c ∷ s) = (IsLetter c ⊎ (c ≡ b'_')) × All (λ x. IsAlphanumeric x ⊎ (x ≡ b'_')) s

abbrev pub IsEntry : Text × Text → Type 0
IsEntry (k, v) = (length k ≤ 64) × IsDataKey k × (length v ≤ 512)

pub record IsValidContent (c : Content) : Type 0 where
  pub title_given : c.title ≢ []
  pub title_not_blank : trim_space c.title ≢ []
  pub title_short : rune_count c.title ≤ 250
  pub body_given : c.body ≢ []
  pub body_short : rune_count c.body ≤ 1024
  pub priority_low : negsuc 1 ≤ℤ c.priority
  pub priority_high : c.priority ≤ℤ pos 2
  pub few_entries : length c.entries ≤ 32
  pub good_entries : All IsEntry c.entries

abbrev pub HasValidContent : Option Content → Type 0
HasValidContent none = ⊥
HasValidContent (some c) = IsValidContent c

-- An expiry that is not before the creation time, where both are given.
abbrev pub IsOrderedTimes : Option Time → Option Time → Type 0
IsOrderedTimes none created = Unit {0}
IsOrderedTimes (some expires) none = Unit {0}
IsOrderedTimes (some expires) (some created) = created ≤ expires

module _ (is_abs_url : Text → Bool) where
  pub record IsValidPushover (t : PushoverTarget) : Type 0 where
    pub key_length : length t.user_or_group_key ≡ 30
    pub key_chars : All IsAlphanumeric t.user_or_group_key
    pub device_short : length t.device_name ≤ 25
    pub device_chars : All IsDeviceChar t.device_name
    pub url_short : length t.url ≤ 512
    pub url_absolute : (t.url ≡ []) ⊎ (is_abs_url t.url ≡ true)
    pub url_title_short : length t.url_title ≤ 100
    pub url_title_needs_url : (t.url_title ≡ []) ⊎ (t.url ≢ [])

  abbrev pub IsValidTarget : Target → Type 0
  IsValidTarget unset = ⊥
  IsValidTarget unknown = ⊥
  IsValidTarget (pushover none) = ⊥
  IsValidTarget (pushover (some t)) = IsValidPushover t

  pub record IsValid (n : Notification) : Type 0 where
    pub content_valid : HasValidContent n.content
    pub target_valid : IsValidTarget n.target
    pub times_ordered : IsOrderedTimes n.expires_at n.created_at
    pub key_short : length n.idempotency_key ≤ 128
