-- ===== src/EndToEnd/Documents.antt =====
-- The documents of internal/writer/httpserver/server.gen.go as those of
-- pkg/notificationclient/generated/client.gen.go, and responses on their way from the one to the other.
use pulsar_notifcation_pipel.Base.{
  ==_iff, Bool-cases, has_prefix, ◌&&◌, contains, ◌==◌, ℕ, none, true, ◌++◌, map, List, [], ◌∷◌,
  some, inl, inr, refl, ◌≡◌, Text, ascii, ◌⊎◌,
}
use pulsar_notifcation_pipel.GeneratedClient.Documents.{has_document}
use pulsar_notifcation_pipel.GoError.{Error, nil}
use pulsar_notifcation_pipel.GeneratedClient.WithResponses.{DocumentCodec}
use pulsar_notifcation_pipel.Http.{
  success_body, problem_body, Body, new_writer, set_header, text_body, content_type_key, write_body,
  write_header, Response,
}
use pulsar_notifcation_pipel.Base.Dict.{lookup, insert}
use pulsar_notifcation_pipel.GeneratedServer.Strict.{
  response_503, response_500, response_415, response_409, problem_json, response_401, response_400,
  encode, response_202, JsonCodec, SubmitNotificationResponseObject,
  visit_submit_notification_response,
}
use pulsar_notifcation_pipel.GeneratedServer.Serving.{status_of_object}
use pulsar_notifcation_pipel.GeneratedClient.{Reply}
use pulsar_notifcation_pipel.GeneratedServer
use pulsar_notifcation_pipel.GeneratedClient.Types
use mathlib.Core.Option

-- A field error of the server's package in the client's.
abbrev pub client_field_error : GeneratedServer.FieldError → Types.FieldError
client_field_error e = record { code = e.code; field = e.field; message = e.message }

abbrev pub client_field_errors : List GeneratedServer.FieldError → List Types.FieldError
client_field_errors = map client_field_error

abbrev pub client_problem : GeneratedServer.Problem → Types.Problem
client_problem p = record {
  detail = p.detail;
  errors = Option.map client_field_errors p.errors;
  instance_uri = p.instance_uri;
  request_id = p.request_id;
  status = p.status;
  title = p.title;
  type_uri = p.type_uri;
}

abbrev pub client_success :
    GeneratedServer.SubmitNotificationSuccess → Types.SubmitNotificationSuccess
client_success d = record {
  accepted_at = d.accepted_at;
  notification_id = d.notification_id;
  meta = record { request_id = d.meta.request_id };
}

-- The document of a response object.
abbrev pub document_of :
    SubmitNotificationResponseObject
    → GeneratedServer.SubmitNotificationSuccess ⊎ GeneratedServer.Problem
document_of (response_202 success) = inl success
document_of (response_400 problem) = inr problem
document_of (response_401 problem) = inr problem
document_of (response_409 problem) = inr problem
document_of (response_415 problem) = inr problem
document_of (response_500 problem) = inr problem
document_of (response_503 problem) = inr problem

-- The same as the client declares it.
abbrev pub client_document :
    GeneratedServer.SubmitNotificationSuccess ⊎ GeneratedServer.Problem
    → Types.SubmitNotificationSuccess ⊎ Types.Problem
client_document (inl success) = inl (client_success success)
client_document (inr problem) = inr (client_problem problem)

-- What json.Marshal gives for it.
abbrev pub encoded :
    JsonCodec → GeneratedServer.SubmitNotificationSuccess ⊎ GeneratedServer.Problem → Text × Error
encoded sc (inl success) = sc.encode_success success
encoded sc (inr problem) = sc.encode_problem problem

module _ (sc : JsonCodec) (dc : DocumentCodec) where
  -- A document that is marshalled, with the newline that an Encoder adds, is unmarshalled as it was.
  pub record IsLossless : Type 0 where
    pub success :
        (d : GeneratedServer.SubmitNotificationSuccess) (text : Text)
        → sc.encode_success d ≡ (text, nil)
        → dc.unmarshal_success (text ++ 10 ∷ []) ≡ (client_success d, nil)
    pub problem :
        (p : GeneratedServer.Problem) (text : Text)
        → sc.encode_problem p ≡ (text, nil)
        → dc.unmarshal_problem (text ++ 10 ∷ []) ≡ (client_problem p, nil)

-- The Content-Type of a response object.
abbrev pub type_of_object : SubmitNotificationResponseObject → Text
type_of_object o = elim (document_of o) [
  | inl success ↦ ascii "application/json"
  | inr problem ↦ problem_json
]

-- The response with a response object.
abbrev pub response_of : SubmitNotificationResponseObject → Text → Response
response_of o text = record {
  status = status_of_object o;
  headers = (content_type_key, type_of_object o) ∷ [];
  bodies = text_body (text ++ 10 ∷ []) ∷ [];
}

-- The bytes of a body; `encode_body` is for those that stand before their encoding.
abbrev pub bytes_of : (encode_body : Body → Text) → Body → Text
bytes_of encode_body (text_body text) = text
bytes_of encode_body (problem_body p) = encode_body (problem_body p)
bytes_of encode_body (success_body d rid) = encode_body (success_body d rid)

abbrev pub all_bytes : (encode_body : Body → Text) → List Body → Text
all_bytes encode_body [] = []
all_bytes encode_body (b ∷ bodies) = bytes_of encode_body b ++ all_bytes encode_body bodies

-- A response as the client's transport hands it on.
abbrev pub transported : (encode_body : Body → Text) → Response → Reply
transported encode_body response = record {
  status = response.status;
  content_type = elim (lookup content_type_key response.headers) [ none ↦ [] | some value ↦ value ];
  body = all_bytes encode_body response.bodies;
  body_err = nil;
}

pub visit-response :
    (sc : JsonCodec) (o : SubmitNotificationResponseObject) (text : Text)
    → encoded sc (document_of o) ≡ (text, nil)
    → visit_submit_notification_response sc o new_writer ≡ (
      nil,
      record {
        headers = (content_type_key, type_of_object o) ∷ [];
        sent = some (response_of o text);
      },
    )
unfolding visit_submit_notification_response encode write_header write_body set_header insert
visit-response sc (response_202 success) text e = rw e refl
visit-response sc (response_400 problem) text e = rw e refl
visit-response sc (response_401 problem) text e = rw e refl
visit-response sc (response_409 problem) text e = rw e refl
visit-response sc (response_415 problem) text e = rw e refl
visit-response sc (response_500 problem) text e = rw e refl
visit-response sc (response_503 problem) text e = rw e refl

-- Every response object is announced as JSON, with a status that has a document.
type_of_object_json :
    (o : SubmitNotificationResponseObject)
    → (contains (type_of_object o) (ascii "json") ≡ true)
      × (has_document (status_of_object o) ≡ true)
unfolding contains has_prefix ascii
type_of_object_json (response_202 success) = (refl, refl)
type_of_object_json (response_400 problem) = (refl, refl)
type_of_object_json (response_401 problem) = (refl, refl)
type_of_object_json (response_409 problem) = (refl, refl)
type_of_object_json (response_415 problem) = (refl, refl)
type_of_object_json (response_500 problem) = (refl, refl)
type_of_object_json (response_503 problem) = (refl, refl)

pub documented_at :
    (o : SubmitNotificationResponseObject) (k : ℕ)
    → (k == status_of_object o && contains (type_of_object o) (ascii "json") && has_document k)
      ≡ (k == status_of_object o)
documented_at o k = elim (Bool-cases (k == status_of_object o)) [
  | inl own ↦
      let same = (==_iff k (status_of_object o)).0 own in
      rw (own, (type_of_object_json o).0, same) (type_of_object_json o).1
  | inr other ↦ rw other refl
]
