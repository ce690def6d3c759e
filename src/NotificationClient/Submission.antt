-- ===== src/NotificationClient/Submission.antt =====
-- pkg/notificationclient/client.go: the client's options and its submissions, through the generated
-- client.
use pulsar_notifcation_pipel.Base.{
  ◌||◌, text_eq, ◌++◌, null, if◌then◌else◌, List, [], ◌∷◌, Option, none, some, inr, Text, ascii,
  ◌⊎◌,
}
use pulsar_notifcation_pipel.NotificationClient.{
  answer_of, other_error, SubmitError, SubmitResponse, Transport,
}
use pulsar_notifcation_pipel.Base.Int.{pos}
use pulsar_notifcation_pipel.GeneratedClient.{
  new_raw_client, submit_notification_with_body, set_value, RequestEditor, HttpPackages,
  with_raw_http_client, Doer, RawClient,
}
use pulsar_notifcation_pipel.GoError.{new, is_nil, Error, nil}
use pulsar_notifcation_pipel.Message.{pushover, empty, Notification}

-- Client, over a state S of the network.
pub record Client (S : Type 0) : Type 0 where
  pub raw : RawClient (Doer S)
  pub bearer_token : Text
  pub user_agent : Text
  pub content_type : Text

abbrev pub ClientOption : Type 0 → Type 0
ClientOption S = Client S → Client S × Error

module _ {S : Type 0} where
  unfoldable pub with_bearer_token : Text → ClientOption S
  with_bearer_token token c = (record c { bearer_token = token }, nil)

  unfoldable pub with_http_client : Doer S → ClientOption S
  with_http_client h c =
      let (raw, err) = with_raw_http_client h c.raw in (record c { raw = raw }, err)

  unfoldable pub with_user_agent : Text → ClientOption S
  with_user_agent ua c = (record c { user_agent = ua }, nil)

  unfoldable pub with_content_type : Text → ClientOption S
  with_content_type ct c = (record c { content_type = ct }, nil)

  -- The loop over the options, up to the first error.
  unfoldable pub apply_options : List (ClientOption S) → Client S → Option (Client S) × Error
  apply_options [] c = (some c, nil)
  apply_options (opt ∷ opts) c =
      let (c', err) = opt c in
      let rest = apply_options opts c' in if is_nil err then rest else (none, err)

  -- From the generated client on.
  unfoldable pub client_of :
      Option (RawClient (Doer S)) × Error → List (ClientOption S) → Option (Client S) × Error
  client_of (none, err) opts = (none, err)
  client_of (some raw, err) opts =
      if is_nil err
      then apply_options opts (record {
        raw = raw;
        bearer_token = [];
        user_agent = ascii "pulsar-notifcation-pipeline-client/0.1";
        content_type = ascii "application/json";
      })
      else (none, err)

  -- New
  unfoldable pub new_client :
      (default_doer : Doer S) → Text → List (ClientOption S) → Option (Client S) × Error
  new_client default_doer base_url opts =
      if null base_url
      then (none, new (ascii "notificationclient: baseURL is required"))
      else client_of (new_raw_client default_doer base_url []) opts

unfoldable pub new_pushover_request : (user_or_group_key title body : Text) → Notification
new_pushover_request user_or_group_key title body = record empty {
  content = some (record { title = title; body = body; priority = pos 0; entries = [] });
  target = pushover (
      some (record {
        user_or_group_key = user_or_group_key;
        device_name = [];
        sound = [];
        url = [];
        url_title = [];
      }));
}

-- The request editor of Submit.
unfoldable pub editor : {S : Type 0} → Client S → RequestEditor
editor c r =
    let r1 =
      if null c.bearer_token
      then r
      else set_value (ascii "Authorization") (ascii "Bearer " ++ c.bearer_token) r in
    let r2 = if null c.user_agent then r1 else set_value (ascii "User-Agent") c.user_agent r1 in
    (r2, nil)

module _ {U S : Type 0} (tr : Transport) (hp : HttpPackages U) where
  -- From the marshalled body on.
  unfoldable pub post : Client S → Text → Text × Error → S → (SubmitResponse ⊎ SubmitError) × S
  post c idempotency_key (body, err) s =
      let ct = if null c.content_type then ascii "application/json" else c.content_type in
      let key = if null idempotency_key then none else some idempotency_key in
      let (ret, s') = submit_notification_with_body hp c.raw (some key) ct body (editor c ∷ []) s in
      if is_nil err then (answer_of tr ret, s') else (inr (other_error err), s)

  -- Submit, of a request that is not nil: its notification and its idempotency key.
  unfoldable pub submit_request :
      Client S → Option Notification → Text → S → (SubmitResponse ⊎ SubmitError) × S
  submit_request c none idempotency_key s =
      (inr (other_error (new (ascii "notificationclient: nil request"))), s)
  submit_request c (some n) idempotency_key s =
      let n' = if null idempotency_key then n else record n { idempotency_key = idempotency_key } in
      if text_eq c.content_type (ascii "application/json") || null c.content_type
      then post c idempotency_key (tr.marshal_json n') s
      else if text_eq c.content_type (ascii "application/x-protobuf")
      then post c idempotency_key (tr.marshal_proto n') s
      else (
        inr (
            other_error
              (new (ascii "notificationclient: unsupported content type: " ++ c.content_type))),
        s,
      )
