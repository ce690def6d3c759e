-- ===== src/Message.antt =====
-- The canonical notification of proto/notification/v1, as pkg/notificationpb/v1 declares it, and the
-- time values that it carries.
use pulsar_notifcation_pipel.Base.{
  ◌-◌, ◌^◌, ltb, if◌then◌else◌, ℕ, List, Option, none, Text, [], Bool, ◌==◌,
}
use pulsar_notifcation_pipel.Base.Int.{negsuc, pos, ℤ, sub_ℕ}

-- An instant, in nanoseconds since Go's zero time, which is also the first instant that a
-- well-formed google.protobuf.Timestamp can hold (0001-01-01T00:00:00Z).
abbrev pub Time : Type 0
Time = ℕ

abbrev pub zero_time : Time
zero_time = 0

abbrev pub is_zero : Time → Bool
is_zero t = t == 0

-- time.Duration, in nanoseconds.
abbrev pub Duration : Type 0
Duration = ℤ

-- A duration outside of int64 is its nearest one.
unfoldable pub saturate : ℤ → Duration
saturate (pos n) = if ltb n (2 ^ 63) then pos n else pos (2 ^ 63 - 1)
saturate (negsuc n) = if ltb n (2 ^ 63) then negsuc n else negsuc (2 ^ 63 - 1)

-- t.Sub(u)
abbrev pub sub : Time → Time → Duration
sub t u = saturate (sub_ℕ t u)

pub record Content : Type 0 where
  pub title : Text
  pub body : Text
  pub priority : ℤ
  pub entries : List (Text × Text)

pub record PushoverTarget : Type 0 where
  pub user_or_group_key : Text
  pub device_name : Text
  pub sound : Text
  pub url : Text
  pub url_title : Text

-- The oneof: not set, the pushover arm with its (possibly nil) message, or an arm that this version
-- of the code does not know.
pub data Target : Type 0 where
  unset : Target
  pushover : Option PushoverTarget → Target
  unknown : Target

pub record Notification : Type 0 where
  pub notification_id : Text
  pub created_at : Option Time
  pub expires_at : Option Time
  pub originating_service : Text
  pub idempotency_key : Text
  pub content : Option Content
  pub target : Target

-- &Notification{}
abbrev pub empty : Notification
empty = record {
  notification_id = [];
  created_at = none;
  expires_at = none;
  originating_service = [];
  idempotency_key = [];
  content = none;
  target = unset;
}
