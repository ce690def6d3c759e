-- ===== src/GeneratedClient.antt =====
-- pkg/notificationclient/generated/client.gen.go: the generated client of the writer's HTTP API. The
-- context of a call is not modelled.
pub mod Answers
pub mod Types
pub mod WithResponses
pub mod Documents
use pulsar_notifcation_pipel.Base.{
  has_suffix, not, if◌then◌else◌, ◌++◌, ℕ, List, [], ◌∷◌, Option, none, some, inl, inr, Text, ascii,
  ◌⊎◌,
}
use pulsar_notifcation_pipel.GoError.{is_nil, Error, nil}
use pulsar_notifcation_pipel.Base.Dict.{insert, lookup}

-- A *http.Request as the client builds it: headers have canonical keys and their values in order.
pub record HttpRequest : Type 0 where
  pub method : Text
  pub url : Text
  pub headers : List (Text × List Text)
  pub body : Text

-- A *http.Response: its status, its Content-Type header, and what reading its body to the end gives.
pub record Reply : Type 0 where
  pub status : ℕ
  pub content_type : Text
  pub body : Text
  pub body_err : Error

-- What net/url, net/http and the oapi-codegen runtime give: url.Parse, (*URL).Parse and
-- (*URL).String over a type U of URLs, the error of http.NewRequest, and the header style of a
-- parameter.
pub record HttpPackages (U : Type 0) : Type 0 where
  pub parse_url : Text → U × Error
  pub parse_reference : U → Text → U × Error
  pub url_text : U → Text
  pub new_request_err : (method url : Text) → Error
  pub style_header : (name value : Text) → Text × Error

-- HttpRequestDoer, over a state S of the network.
abbrev pub Doer : Type 0 → Type 0
Doer S = HttpRequest → S → (Reply ⊎ Error) × S

-- RequestEditorFn: the request as it leaves it.
abbrev pub RequestEditor : Type 0
RequestEditor = HttpRequest → HttpRequest × Error

-- Client; D is `Doer S`, or `Option (Doer S)` as long as NewClient has not put in a default.
pub record RawClient (D : Type 0) : Type 0 where
  pub server : Text
  pub client : D
  pub request_editors : List RequestEditor

abbrev pub RawOption : Type 0 → Type 0
RawOption D = RawClient D → RawClient D × Error

-- r.Header.Add(key, value)
unfoldable pub add_value : Text → Text → HttpRequest → HttpRequest
add_value key value r =
    let values : List Text = elim (lookup key r.headers) [ none ↦ [] | some vs ↦ vs ] in
    record r { headers = insert key (values ++ value ∷ []) r.headers }

-- r.Header.Set(key, value)
unfoldable pub set_value : Text → Text → HttpRequest → HttpRequest
set_value key value r = record r { headers = insert key (value ∷ []) r.headers }

module _ {D : Type 0} where
  -- The loop over the options, up to the first error.
  unfoldable pub apply_raw_options : List (RawOption D) → RawClient D → RawClient D × Error
  apply_raw_options [] c = (c, nil)
  apply_raw_options (o ∷ opts) c =
      let (c', err) = o c in
      let rest = apply_raw_options opts c' in if is_nil err then rest else (c', err)

  unfoldable pub with_request_editor_fn : RequestEditor → RawOption D
  with_request_editor_fn fn c = (record c { request_editors = c.request_editors ++ fn ∷ [] }, nil)

  unfoldable pub with_base_url : {U : Type 0} → HttpPackages U → Text → RawOption D
  with_base_url hp base_url c =
      let (u, err) = hp.parse_url base_url in
      if is_nil err then (record c { server = hp.url_text u }, nil) else (c, err)

  -- WithHTTPClient, of a doer as the client holds it.
  unfoldable pub with_raw_http_client : D → RawOption D
  with_raw_http_client doer c = (record c { client = doer }, nil)

unfoldable pub with_trailing_slash : Text → Text
with_trailing_slash server = if has_suffix server (ascii "/") then server else server ++ ascii "/"

-- NewClient; `default_doer` is &http.Client{}.
unfoldable pub new_raw_client :
    {S : Type 0}
    → (default_doer : Doer S) → Text
    → List (RawOption (Option (Doer S)))
    → Option (RawClient (Doer S)) × Error
new_raw_client {S} default_doer server opts =
    let (c, err) =
      apply_raw_options {D = Option (Doer S)} opts
        (record { server = server; client = none; request_editors = [] }) in
    if is_nil err
    then (
      some (record {
        server = with_trailing_slash c.server;
        client = elim c.client [ none ↦ default_doer | some doer ↦ doer ];
        request_editors = c.request_editors;
      }),
      nil,
    )
    else (none, err)

-- The `if params != nil` part of NewSubmitNotificationRequestWithBody.
unfoldable pub set_idempotency_key :
    {U : Type 0} → HttpPackages U → Option Text → HttpRequest → HttpRequest ⊎ Error
set_idempotency_key hp none r = inl r
set_idempotency_key hp (some key) r =
    let (styled, err) = hp.style_header (ascii "Idempotency-Key") key in
    if is_nil err then inl (set_value (ascii "Idempotency-Key") styled r) else inr err

-- NewSubmitNotificationRequestWithBody; the parameters are a nil pointer, or hold the optional
-- idempotency key.
unfoldable pub new_submit_request :
    {U : Type 0}
    → HttpPackages U
    → (server : Text) → (params : Option (Option Text)) → (content_type body : Text)
    → HttpRequest ⊎ Error
new_submit_request hp server params content_type body =
    let (server_url, server_err) = hp.parse_url server in
    let (query_url, query_err) = hp.parse_reference server_url (ascii "./notifications") in
    let url = hp.url_text query_url in
    let err = hp.new_request_err (ascii "POST") url in
    let r =
      add_value (ascii "Content-Type") content_type
        (record { method = ascii "POST"; url = url; headers = []; body = body }) in
    if not (is_nil server_err)
    then inr server_err
    else if not (is_nil query_err)
    then inr query_err
    else if not (is_nil err)
    then inr err
    else elim params [ none ↦ inl r | some key ↦ set_idempotency_key hp key r ]

-- One of the two loops of applyEditors.
unfoldable pub run_editors : List RequestEditor → HttpRequest → HttpRequest ⊎ Error
run_editors [] r = inl r
run_editors (editor ∷ editors) r =
    let (r', err) = editor r in
    let rest = run_editors editors r' in if is_nil err then rest else inr err

module _ {U S : Type 0} (hp : HttpPackages U) (c : RawClient (Doer S)) where
  unfoldable pub apply_editors : HttpRequest → List RequestEditor → HttpRequest ⊎ Error
  apply_editors r additional_editors = elim (run_editors c.request_editors r) [
    | inl r' ↦ run_editors additional_editors r'
    | inr err ↦ inr err
  ]

  -- What follows the building of a request, in both of the client's methods.
  unfoldable pub edit_and_do : HttpRequest ⊎ Error → List RequestEditor → S → (Reply ⊎ Error) × S
  edit_and_do (inr err) editors s = (inr err, s)
  edit_and_do (inl r) editors s = elim (apply_editors r editors) [
    | inl r' ↦ c.client r' s
    | inr err ↦ (inr err, s)
  ]

  -- SubmitNotificationWithBody
  unfoldable pub submit_notification_with_body :
      (params : Option (Option Text))
      → (content_type body : Text) → List RequestEditor
      → S
      → (Reply ⊎ Error) × S
  submit_notification_with_body params content_type body editors =
      edit_and_do (new_submit_request hp c.server params content_type body) editors

  -- SubmitNotification, by what json.Marshal gives for the body.
  unfoldable pub submit_notification_json :
      (params : Option (Option Text))
      → (marshalled : Text × Error) → List RequestEditor
      → S
      → (Reply ⊎ Error) × S
  submit_notification_json params (buf, err) editors =
      edit_and_do
        (if is_nil err
          then new_submit_request hp c.server params (ascii "application/json") buf
          else inr err)
        editors
