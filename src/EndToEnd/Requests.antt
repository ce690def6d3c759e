-- ===== src/EndToEnd/Requests.antt =====
-- What the writer's middleware and handler read from the request that pkg/notificationclient sends.
use pulsar_notifcation_pipel.Base.{
  trim_back, trim_left, trim_space, before_byte, ◌++◌, has_prefix, if◌then◌else◌, null, to_lower,
  text_eq, List, [], ◌∷◌, none, some, false, inl, inr, refl, arith, ◌≡◌, Text, ascii,
}
use pulsar_notifcation_pipel.NotificationClient.Posting.{IsSupported, body_type, posted}
use pulsar_notifcation_pipel.Http.{Request, get_header}
use pulsar_notifcation_pipel.Router.{request_id_key}
use pulsar_notifcation_pipel.Auth.{bearer_token}
use pulsar_notifcation_pipel.Base.Dict.{lookup}
use pulsar_notifcation_pipel.Handlers.{content_type_of}
use pulsar_notifcation_pipel.NotificationClient.Submission.{Client}
use pulsar_notifcation_pipel.GeneratedClient.{HttpPackages}
use pulsar_notifcation_pipel.NotificationClient.{Transport}

module _ {U S : Type 0} (tr : Transport) (hp : HttpPackages U) (c : Client S)
    (key body : Text) where
  abbrev pub sent_headers : List (Text × List Text)
  sent_headers = (posted tr hp c key (body_type tr hp c) body).headers

  pub lookup-content_type :
      lookup (ascii "Content-Type") sent_headers ≡ some (body_type tr hp c ∷ [])
  unfolding lookup text_eq ascii
  lookup-content_type = refl

  pub lookup-idempotency_key :
      lookup (ascii "Idempotency-Key") sent_headers
      ≡ (if null key then none else some ((hp.style_header (ascii "Idempotency-Key") key).0 ∷ []))
  unfolding lookup text_eq ascii
  lookup-idempotency_key = ground arith

  pub lookup-authorization :
      null c.bearer_token ≡ false
      → lookup (ascii "Authorization") sent_headers
        ≡ some ((ascii "Bearer " ++ c.bearer_token) ∷ [])
  unfolding lookup text_eq ascii
  lookup-authorization given = ground arith

  pub lookup-request_id : lookup request_id_key sent_headers ≡ none
  unfolding lookup text_eq ascii
  lookup-request_id = ground arith

  -- The token that the authenticator reads is the client's, where that has no spaces around it.
  pub bearer_token-sent :
      (r : Request)
      → r.headers ≡ sent_headers
      → null c.bearer_token ≡ false
      → trim_space c.bearer_token ≡ c.bearer_token
      → bearer_token r ≡ c.bearer_token
  unfolding bearer_token get_header has_prefix ascii
  bearer_token-sent r same given trimmed = rw (same, lookup-authorization given) trimmed

  -- The content type that the handler reads is one of the two that it decodes.
  pub content_type_of-sent :
      (r : Request)
      → r.headers ≡ sent_headers
      → IsSupported tr hp c
      → content_type_of r ≡ body_type tr hp c
  unfolding content_type_of get_header to_lower before_byte trim_space trim_left trim_back ascii
  content_type_of-sent r same (inl e) = rw (same, lookup-content_type, e) refl
  content_type_of-sent r same (inr (inl e)) = rw (same, lookup-content_type, e) refl
  content_type_of-sent r same (inr (inr e)) = rw (same, lookup-content_type, e) refl
