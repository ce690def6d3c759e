-- ===== src/Problems.antt =====
-- internal/writer/problems/problems.go: the catalogue of RFC 9457 problems. The rfc9457 package keeps
-- the five members that it is given.
use pulsar_notifcation_pipel.Base.{◌++◌, ℕ, List, [], Text, ascii}
use pulsar_notifcation_pipel.GoError.{FieldError}

abbrev pub type_base : Text
type_base = ascii "https://pulsar-notifcation-pipeline.example/problems/"

abbrev pub type_validation_failed : Text
type_validation_failed = type_base ++ ascii "validation-failed"

abbrev pub type_authentication_required : Text
type_authentication_required = type_base ++ ascii "authentication-required"

abbrev pub type_authentication_failed : Text
type_authentication_failed = type_base ++ ascii "authentication-failed"

abbrev pub type_idempotency_conflict : Text
type_idempotency_conflict = type_base ++ ascii "idempotency-conflict"

abbrev pub type_unsupported_content_type : Text
type_unsupported_content_type = type_base ++ ascii "unsupported-content-type"

abbrev pub type_substrate_unavailable : Text
type_substrate_unavailable = type_base ++ ascii "substrate-unavailable"

abbrev pub type_internal : Text
type_internal = type_base ++ ascii "internal"

pub record Problem : Type 0 where
  pub type_uri : Text
  pub title : Text
  pub status : ℕ
  pub detail : Text
  pub instance_uri : Text
  pub request_id : Text
  pub errors : List FieldError

-- The builder holds the same seven values, and `build` hands them over.
abbrev pub Builder : Type 0
Builder = Problem

abbrev pub build : Builder → Problem
build b = b

unfoldable pub validation_failed : Text → Text → Text → List FieldError → Problem
validation_failed request_id instance_uri detail errs = build (record {
  type_uri = type_validation_failed;
  title = ascii "The submitted notification failed validation.";
  status = 400;
  detail = detail;
  instance_uri = instance_uri;
  request_id = request_id;
  errors = errs;
})

unfoldable pub authentication_required : Text → Text → Problem
authentication_required request_id instance_uri = build (record {
  type_uri = type_authentication_required;
  title = ascii "Authentication is required.";
  status = 401;
  detail = ascii "Supply a bearer token via the Authorization header.";
  instance_uri = instance_uri;
  request_id = request_id;
  errors = [];
})

unfoldable pub authentication_failed : Text → Text → Problem
authentication_failed request_id instance_uri = build (record {
  type_uri = type_authentication_failed;
  title = ascii "Authentication failed.";
  status = 401;
  detail = ascii "The supplied bearer token is not recognised.";
  instance_uri = instance_uri;
  request_id = request_id;
  errors = [];
})

unfoldable pub idempotency_conflict : Text → Text → Text → Problem
idempotency_conflict request_id instance_uri detail = build (record {
  type_uri = type_idempotency_conflict;
  title = ascii "Idempotency key reused with a divergent payload.";
  status = 409;
  detail = detail;
  instance_uri = instance_uri;
  request_id = request_id;
  errors = [];
})

unfoldable pub unsupported_content_type : Text → Text → Text → Problem
unsupported_content_type request_id instance_uri got = build (record {
  type_uri = type_unsupported_content_type;
  title = ascii "Content-Type is not supported.";
  status = 415;
  detail = ascii "Content-Type must be application/json or application/x-protobuf; got " ++ got;
  instance_uri = instance_uri;
  request_id = request_id;
  errors = [];
})

unfoldable pub substrate_unavailable : Text → Text → Text → Problem
substrate_unavailable request_id instance_uri detail = build (record {
  type_uri = type_substrate_unavailable;
  title = ascii "The messaging substrate is temporarily unavailable.";
  status = 503;
  detail = detail;
  instance_uri = instance_uri;
  request_id = request_id;
  errors = [];
})

unfoldable pub internal : Text → Text → Problem
internal request_id instance_uri = build (record {
  type_uri = type_internal;
  title = ascii "An unexpected server error occurred.";
  status = 500;
  detail = ascii "Please retry; contact operations if the condition persists.";
  instance_uri = instance_uri;
  request_id = request_id;
  errors = [];
})
