-- ===== src/GeneratedServer.antt =====
-- internal/writer/httpserver/server.gen.go: the documents of the HTTP API, as the writer's generated
-- code declares them. A pointer field is an Option.
pub mod Params
pub mod Wrapper
pub mod Strict
pub mod Spec
pub mod Serving
pub mod Binding
use pulsar_notifcation_pipel.Base.{◌||◌, text_eq, List, Option, Bool, Text, ascii}
use pulsar_notifcation_pipel.Base.Int.{ℤ}
use pulsar_notifcation_pipel.Message.{Time}

pub record Content : Type 0 where
  pub body : Text
  pub data_member : Option (List (Text × Text))
  pub priority : Option ℤ
  pub title : Text

pub record FieldError : Type 0 where
  pub code : Text
  pub field : Text
  pub message : Option Text

pub record Meta : Type 0 where
  pub request_id : Text

pub record PushoverTarget : Type 0 where
  pub device_name : Option Text
  pub sound : Option Text
  pub url : Option Text
  pub url_title : Option Text
  pub user_or_group_key : Text

pub record Notification : Type 0 where
  pub content : Content
  pub created_at : Option Time
  pub expires_at : Option Time
  pub idempotency_key : Option Text
  pub notification_id : Option Text
  pub originating_service : Option Text
  pub pushover : PushoverTarget

pub record Problem : Type 0 where
  pub detail : Text
  pub errors : Option (List FieldError)
  pub instance_uri : Text
  pub request_id : Text
  pub status : ℤ
  pub title : Text
  pub type_uri : Text

-- The two members of SubmitNotificationSuccess.Data, and Meta.
pub record SubmitNotificationSuccess : Type 0 where
  pub accepted_at : Time
  pub notification_id : Text
  pub meta : Meta

pub record SubmitNotificationParams : Type 0 where
  pub idempotency_key : Option Text

-- (FieldErrorCode).Valid
unfoldable pub field_error_code_valid : Text → Bool
field_error_code_valid e =
    text_eq e (ascii "before-created-at")
    || text_eq e (ascii "key-invalid")
    || text_eq e (ascii "malformed")
    || text_eq e (ascii "missing")
    || text_eq e (ascii "out-of-range")
    || text_eq e (ascii "required")
    || text_eq e (ascii "requires-url")
    || text_eq e (ascii "too-long")
    || text_eq e (ascii "too-many-entries")
    || text_eq e (ascii "unknown-arm")
    || text_eq e (ascii "value-too-long")
    || text_eq e (ascii "whitespace-only")
