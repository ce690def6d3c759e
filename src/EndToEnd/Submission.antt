-- ===== src/EndToEnd/Submission.antt =====
-- A submission of pkg/notificationclient that reaches the substrate through the writer.
use pulsar_notifcation_pipel.Base.{
  ap, sym, ltb, ◌∙◌, Bool-cases, inr, text_eq, ◌≤◌, length, trim_space, null, if◌then◌else◌, [],
  ◌∷◌, Option, none, some, true, false, inl, refl, arith, ◌≡◌, Text, ascii, ◌⊎◌,
}
use pulsar_notifcation_pipel.EndToEnd.Requests.{
  content_type_of-sent, bearer_token-sent, lookup-idempotency_key,
}
use mathlib.Core.Bool.{true≢false}
use pulsar_notifcation_pipel.GoError.{is_nil, nil}
use pulsar_notifcation_pipel.Handlers.{
  max_request_body_bytes, with_idempotency, Handlers, decoded, decode_body, ServerWorld,
}
use pulsar_notifcation_pipel.Base.Dict.{lookup}
use pulsar_notifcation_pipel.NotificationClient.Posting.{
  body_type, IsSupported, keyed, posted, IsReachable, marshalled,
}
use pulsar_notifcation_pipel.EndToEnd.{served, Request, Connection}
use pulsar_notifcation_pipel.GeneratedClient.{HttpRequest, HttpPackages}
use pulsar_notifcation_pipel.Auth.Bearer.{authenticate}
use pulsar_notifcation_pipel.Ingest.Accept.{id, now}
use pulsar_notifcation_pipel.Router.{choose_request_id}
use pulsar_notifcation_pipel.Router.Submission.{BindsKey}
use pulsar_notifcation_pipel.Http.{Principal}
use pulsar_notifcation_pipel.Message.{Notification}
use pulsar_notifcation_pipel.NotificationClient.{Transport}
use pulsar_notifcation_pipel.NotificationClient.Submission.{Client}

module _ {U P : Type 0} (conn : Connection P) (tr : Transport) (hp : HttpPackages U)
    (c : Client (ServerWorld P)) (n : Notification) (key : Text) (p : Principal)
    (w : ServerWorld P) where
  -- The request that the client sends, as the server reads it.
  abbrev pub client_request : HttpRequest
  client_request = posted tr hp c key (body_type tr hp c) (marshalled tr hp c key n).0

  abbrev pub server_request : Request
  server_request = served conn client_request

  abbrev pub assigned_id : Text
  assigned_id = id conn.packages conn.ingester (keyed tr hp c key n) p.service_name w.writer

  abbrev pub assigned_time : Text
  assigned_time =
      conn.codecs.format_time
        (now conn.packages conn.ingester (keyed tr hp c key n) p.service_name w.writer)

  abbrev pub assigned_request_id : Text
  assigned_request_id = choose_request_id conn.platform server_request w

  -- The client is set up for the writer: it has no other request editors, its Do reaches the writer,
  -- its server's URL leads to the route of submissions, and its token has no spaces around it and
  -- is one that the writer knows, as p's.
  pub record IsClientOf : Type 0 where
    pub reach : IsReachable tr hp c
    pub plain : c.raw.request_editors ≡ []
    pub connected : c.raw.client ≡ conn.doer
    pub route : conn.path_of client_request.url ≡ ascii "/notifications"
    pub supported : IsSupported tr hp c
    pub given : null c.bearer_token ≡ false
    pub trimmed : trim_space c.bearer_token ≡ c.bearer_token
    pub known : lookup c.bearer_token conn.tokens ≡ some p

  -- The notification survives the codec of the client's content type, and its key the header.
  pub record IsTransmitted : Type 0 where
    pub marshals : (marshalled tr hp c key n).1 ≡ nil
    pub short : length (marshalled tr hp c key n).0 ≤ max_request_body_bytes
    pub unmarshals :
        (if text_eq (body_type tr hp c) (ascii "application/json")
            then conn.codecs.unmarshal_json
            else conn.codecs.unmarshal_proto)
          (marshalled tr hp c key n).0
        ≡ (keyed tr hp c key n, nil)
    pub styled : is_nil (hp.style_header (ascii "Idempotency-Key") key).1 ≡ true
    pub bound :
        (null key ≡ true)
        ⊎ (conn.platform.bind_parameter (hp.style_header (ascii "Idempotency-Key") key).0
            ≡ (key, nil))

  -- The key that the handler gets.
  abbrev pub bound_key : Option Text
  bound_key = if null key then none else some key

  pub server_request-BindsKey : IsTransmitted → BindsKey conn.platform server_request bound_key
  server_request-BindsKey ok =
      binds ok.bound (lookup-idempotency_key tr hp c key (marshalled tr hp c key n).0)
    where
      binds :
          (null key ≡ true)
            ⊎ (conn.platform.bind_parameter (hp.style_header (ascii "Idempotency-Key") key).0
                ≡ (key, nil))
          → lookup (ascii "Idempotency-Key") server_request.headers ≡ (
              if null key
              then none
              else some ((hp.style_header (ascii "Idempotency-Key") key).0 ∷ []))
          → BindsKey conn.platform server_request bound_key
      binds b e = elim (Bool-cases (null key)) [
        | inl empty ↦ inl (e ∙ rw empty refl, rw empty refl)
        | inr set ↦ inr (
          (hp.style_header (ascii "Idempotency-Key") key).0,
          key,
          e ∙ rw set refl,
          elim b [ inl empty ↦ absurd (true≢false (sym empty ∙ set)) | inr same ↦ same ],
          rw set refl,
        )
      ]

  pub server_request-authenticated :
      (r : Request)
      → r.headers ≡ server_request.headers
      → IsClientOf
      → authenticate conn.tokens r ≡ (p, nil)
  unfolding authenticate
  server_request-authenticated r same ok =
      rw
        (
          bearer_token-sent tr hp c key (marshalled tr hp c key n).0 r same ok.given ok.trimmed,
          ok.given,
          ok.known,
        )
        refl

  pub with_idempotency-keyed :
      (h : Handlers P)
      → with_idempotency conn.packages conn.codecs h bound_key (keyed tr hp c key n)
        ≡ keyed tr hp c key n
  with_idempotency-keyed h = ground arith

  -- The two content types that a client can have.
  body_type-cases :
      IsSupported tr hp c
      → (text_eq (body_type tr hp c) (ascii "application/json") ≡ true)
        ⊎ ((text_eq (body_type tr hp c) (ascii "application/json") ≡ false)
            × (text_eq (body_type tr hp c) (ascii "application/x-protobuf") ≡ true))
  unfolding text_eq ascii
  body_type-cases supported = ground arith

  pub server_request-decodes :
      (rid : Text)
      → IsClientOf
      → IsTransmitted
      → decode_body conn.codecs server_request rid ≡ inl (keyed tr hp c key n)
  unfolding decode_body decoded
  server_request-decodes rid ok sent =
      let body = (marshalled tr hp c key n).0 in
      let ct = content_type_of-sent tr hp c key body server_request refl ok.supported in
      let short : ltb max_request_body_bytes (length body) ≡ false = ground (arith, sent.short) in
      elim (body_type-cases ok.supported) [
        | inl json ↦
            rw (short, ct, json)
              (ap (decoded rid server_request (ascii "invalid JSON: "))
                (rw json at sent.unmarshals))
        | inr (other, proto) ↦
            rw (short, ct, other, proto)
              (ap (decoded rid server_request (ascii "invalid protobuf: "))
                (rw other at sent.unmarshals))
      ]
