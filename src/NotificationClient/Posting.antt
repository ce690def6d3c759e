-- ===== src/NotificationClient/Posting.antt =====
-- The one request that a submission of pkg/notificationclient/client.go sends.
use pulsar_notifcation_pipel.Base.{
  ap, ◌∙◌, ◌⊎◌, text_eq, null, ◌++◌, if◌then◌else◌, List, [], ◌∷◌, none, some, true, inl, refl,
  arith, ◌≡◌, Text, ascii,
}
use pulsar_notifcation_pipel.GeneratedClient.{
  RequestEditor, Doer, RawClient, run_editors, apply_editors, edit_and_do,
  submit_notification_with_body, add_value, set_idempotency_key, set_value, HttpRequest,
  new_submit_request, HttpPackages,
}
use pulsar_notifcation_pipel.NotificationClient.{answer_of, Transport}
use pulsar_notifcation_pipel.Message.{Notification}
use pulsar_notifcation_pipel.NotificationClient.Submission.{post, submit_request, editor, Client}
use pulsar_notifcation_pipel.GoError.{nil, Error, is_nil}
use pulsar_notifcation_pipel.Base.Dict.{lookup, insert}

apply_editors-one :
    {U S : Type 0} (hp : HttpPackages U) (raw : RawClient (Doer S)) (r r' : HttpRequest)
    (ed : RequestEditor)
    → raw.request_editors ≡ []
    → ed r ≡ (r', nil)
    → apply_editors hp raw r (ed ∷ []) ≡ inl r'
unfolding apply_editors run_editors
apply_editors-one hp raw r r' ed plain edited = rw (plain, edited) refl

module _ {U S : Type 0} (tr : Transport) (hp : HttpPackages U) (c : Client S) where
  -- The URL of the operation below the client's server.
  abbrev pub operation_url : U × Error
  operation_url = hp.parse_reference (hp.parse_url c.raw.server).0 (ascii "./notifications")

  -- The server's URL parses, so does the operation's below it, and net/http takes the latter.
  abbrev pub IsReachable : Type 0
  IsReachable =
      (is_nil (hp.parse_url c.raw.server).1 ≡ true)
      × (is_nil operation_url.1 ≡ true)
      × (is_nil (hp.new_request_err (ascii "POST") (hp.url_text operation_url.0)) ≡ true)

  -- A header line, left out where the value is empty.
  abbrev pub header_unless_empty : (key value line : Text) → List (Text × List Text)
  header_unless_empty key value line = if null value then [] else (key, line ∷ []) ∷ []

  -- The request for a body of a content type, under an idempotency key.
  abbrev pub posted : (idempotency_key content_type body : Text) → HttpRequest
  posted idempotency_key content_type body = record {
    method = ascii "POST";
    url = hp.url_text operation_url.0;
    headers =
        (ascii "Content-Type", content_type ∷ [])
        ∷ (header_unless_empty (ascii "Idempotency-Key") idempotency_key
              (hp.style_header (ascii "Idempotency-Key") idempotency_key).0
            ++ (header_unless_empty (ascii "Authorization") c.bearer_token
                  (ascii "Bearer " ++ c.bearer_token)
                ++ header_unless_empty (ascii "User-Agent") c.user_agent c.user_agent));
    body = body;
  }

  -- The request as NewSubmitNotificationRequestWithBody gives it.
  abbrev unedited : (idempotency_key content_type body : Text) → HttpRequest
  unedited idempotency_key content_type body = record (posted idempotency_key content_type body) {
    headers =
        (ascii "Content-Type", content_type ∷ [])
        ∷ header_unless_empty (ascii "Idempotency-Key") idempotency_key
            (hp.style_header (ascii "Idempotency-Key") idempotency_key).0;
  }

  new_submit_request-unedited :
      (key content_type body : Text)
      → IsReachable
      → is_nil (hp.style_header (ascii "Idempotency-Key") key).1 ≡ true
      → new_submit_request hp c.raw.server
          (some (if null key then none else some key))
          content_type
          body
        ≡ inl (unedited key content_type body)
  unfolding new_submit_request set_idempotency_key add_value set_value insert lookup text_eq ascii
  new_submit_request-unedited [] content_type body (server, query, made) styled =
      rw (server, query, made) refl
  new_submit_request-unedited (b ∷ key) content_type body (server, query, made) styled =
      rw (server, query, made, styled) refl

  editor-posted :
      (key content_type body : Text)
      → editor c (unedited key content_type body) ≡ (posted key content_type body, nil)
  unfolding editor set_value insert text_eq ascii
  editor-posted key content_type body = ground arith

  -- The content type of the bodies, and the codec that belongs to it.
  abbrev pub body_type : Text
  body_type = if null c.content_type then ascii "application/json" else c.content_type

  abbrev pub IsSupported : Type 0
  IsSupported =
      (c.content_type ≡ [])
      ⊎ (c.content_type ≡ ascii "application/json")
      ⊎ (c.content_type ≡ ascii "application/x-protobuf")

  abbrev pub keyed : Text → Notification → Notification
  keyed key n = if null key then n else record n { idempotency_key = key }

  abbrev pub marshalled : Text → Notification → Text × Error
  marshalled key n =
      if text_eq body_type (ascii "application/json")
      then tr.marshal_json (keyed key n)
      else tr.marshal_proto (keyed key n)

  post-posted :
      (key body : Text) (s : S)
      → IsReachable
      → is_nil (hp.style_header (ascii "Idempotency-Key") key).1 ≡ true
      → c.raw.request_editors ≡ []
      → post tr hp c key (body, nil) s ≡ (
        answer_of tr (c.raw.client (posted key body_type body) s).0,
        (c.raw.client (posted key body_type body) s).1,
      )
  unfolding post submit_notification_with_body edit_and_do
  post-posted key body s reach styled plain =
      rw
        (
          new_submit_request-unedited key body_type body reach styled,
          edit_and_do,
          apply_editors-one hp c.raw _ _ (editor c) plain (editor-posted key body_type body),
        )
        refl

  select_codec :
      (key : Text) (n : Notification) (s : S)
      → IsSupported
      → submit_request tr hp c (some n) key s ≡ post tr hp c key (marshalled key n) s
  unfolding submit_request text_eq ascii
  select_codec key n s supported = ground arith

  -- With a server whose URL parses and a supported content type, Submit of a notification that can be
  -- marshalled, under a key that can stand in a header, sends one request and answers with what
  -- comes back: a POST to `notifications` below the server, with the marshalled notification, which
  -- has the key, as its body, and as headers the content type, the key, the bearer token and the
  -- user agent, each of the last three only if it is not empty.
  pub submit_request-posted :
      (key : Text) (n : Notification) (s : S)
      → IsReachable
      → is_nil (hp.style_header (ascii "Idempotency-Key") key).1 ≡ true
      → c.raw.request_editors ≡ []
      → IsSupported
      → (marshalled key n).1 ≡ nil
      → submit_request tr hp c (some n) key s ≡ (
        answer_of tr (c.raw.client (posted key body_type (marshalled key n).0) s).0,
        (c.raw.client (posted key body_type (marshalled key n).0) s).1,
      )
  submit_request-posted key n s reach styled plain supported ok =
      select_codec key n s supported
      ∙ ap (λ err. post tr hp c key ((marshalled key n).0, err) s) ok
      ∙ post-posted key (marshalled key n).0 s reach styled plain
