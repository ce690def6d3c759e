-- ===== src/GeneratedClient/Answers.antt =====
-- What pkg/notificationclient/generated/client.gen.go makes of a response: the documents of
-- ParseSubmitNotificationResponse, and the codes that it knows.
use pulsar_notifcation_pipel.Base.{
  ◌==◌, ◌&&◌, not, contains, if◌then◌else◌, ◌||◌, text_eq, ℕ, Option, none, some, Bool, Text, ascii,
}
use pulsar_notifcation_pipel.GoError.{nil, is_nil, Error}
use pulsar_notifcation_pipel.GeneratedClient.{Reply}

-- (FieldErrorCode).Valid
unfoldable pub field_error_code_valid : Text → Bool
field_error_code_valid e =
    text_eq e (ascii "before-created-at")
    || text_eq e (ascii "key-invalid")
    || text_eq e (ascii "malformed")
    || text_eq e (ascii "missing")
    || text_eq e (ascii "out-of-range")
    || text_eq e (ascii "required")
    || text_eq e (ascii "requires-url")
    || text_eq e (ascii "too-long")
    || text_eq e (ascii "too-many-entries")
    || text_eq e (ascii "unknown-arm")
    || text_eq e (ascii "value-too-long")
    || text_eq e (ascii "whitespace-only")

-- SubmitNotificationResponse, over the types D and P of the decoded success and problem documents.
pub record SubmitNotificationResponse (D P : Type 0) : Type 0 where
  pub body : Text
  pub http_response : Option Reply
  pub json_202 : Option D
  pub problem_400 : Option P
  pub problem_401 : Option P
  pub problem_409 : Option P
  pub problem_415 : Option P
  pub problem_500 : Option P
  pub problem_503 : Option P

-- StatusCode
unfoldable pub status_code : {D P : Type 0} → SubmitNotificationResponse D P → ℕ
status_code r = elim r.http_response [ none ↦ 0 | some resp ↦ resp.status ]

-- `unmarshal_success` and `unmarshal_problem` are json.Unmarshal into a fresh document.
module _ {D P : Type 0} (unmarshal_success : Text → D × Error)
    (unmarshal_problem : Text → P × Error) where
  -- One case of the switch: the decoded document, or its error.
  abbrev pub filled :
      {A : Type 0}
      → (A → SubmitNotificationResponse D P)
      → A × Error
      → Option (SubmitNotificationResponse D P) × Error
  filled fill (dest, err) = if is_nil err then (some (fill dest), nil) else (none, err)

  -- ParseSubmitNotificationResponse
  unfoldable pub parse_submit_response : Reply → Option (SubmitNotificationResponse D P) × Error
  parse_submit_response rsp =
      let json = contains rsp.content_type (ascii "json") in
      let response : SubmitNotificationResponse D P = record {
        body = rsp.body;
        http_response = some rsp;
        json_202 = none;
        problem_400 = none;
        problem_401 = none;
        problem_409 = none;
        problem_415 = none;
        problem_500 = none;
        problem_503 = none;
      } in
      let success = unmarshal_success rsp.body in
      let problem = unmarshal_problem rsp.body in
      if not (is_nil rsp.body_err)
      then (none, rsp.body_err)
      else if json && rsp.status == 202
      then filled (λ dest. record response { json_202 = some dest }) success
      else if json && rsp.status == 400
      then filled (λ dest. record response { problem_400 = some dest }) problem
      else if json && rsp.status == 401
      then filled (λ dest. record response { problem_401 = some dest }) problem
      else if json && rsp.status == 409
      then filled (λ dest. record response { problem_409 = some dest }) problem
      else if json && rsp.status == 415
      then filled (λ dest. record response { problem_415 = some dest }) problem
      else if json && rsp.status == 500
      then filled (λ dest. record response { problem_500 = some dest }) problem
      else if json && rsp.status == 503
      then filled (λ dest. record response { problem_503 = some dest }) problem
      else (some response, nil)
