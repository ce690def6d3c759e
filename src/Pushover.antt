-- ===== src/Pushover.antt =====
-- internal/deliverer/provider/pushover/pushover.go: the Pushover provider over an HTTP client.
pub mod Classification
pub mod Contract
use pulsar_notifcation_pipel.Base.{
  apply_all, some, take, ◌||◌, contains, ltb, [], to_lower, ◌&&◌, false, leb, null, ◌++◌, ◌==◌,
  Bool, Option, ascii, if◌then◌else◌, none, reverse, ◌∷◌, List, Text, ℕ,
}
use pulsar_notifcation_pipel.Base.Decimal.{format_ℕ, itoa}
use pulsar_notifcation_pipel.Message.{
  unknown, pushover, unset, Content, Notification, PushoverTarget, Target,
}
use pulsar_notifcation_pipel.GoError.{
  nil, new, wrap, is_nil, permanent_error, transient_error, Error,
}
use pulsar_notifcation_pipel.Outcomes.{truncate}
use pulsar_notifcation_pipel.Base.Int.{pos, eq_ℤ, ℤ}
use pulsar_notifcation_pipel.Base.Dict.{insert}
use pulsar_notifcation_pipel.Provider.{PushProvider, PushReturn}

pub record Request : Type 0 where
  pub method : Text
  pub url : Text
  pub content_type : Text
  pub form : List (Text × Text)

-- The JSON answer, as far as it could be decoded.
pub record PushoverResp : Type 0 where
  pub status : ℤ
  pub errors : List Text
  pub info : Text

-- What p.httpc.Do returns: an error, or the status and the readable part of the body.
pub data HttpReturn : Type 0 where
  no_response : Error → HttpReturn
  response : (status : ℕ) (body : Text) → HttpReturn

-- The packages that the provider calls, over the state of the network: building a request from a URL
-- (nil if it is well formed), the client, and json.Unmarshal into a zero pushoverResp.
pub record Http (S : Type 0) : Type 0 where
  pub request_error : Text → Error
  pub send : Request → S → HttpReturn × S
  pub unmarshal : Text → PushoverResp

pub record Provider : Type 0 where
  pub app_token : Text
  pub base_url : Text

abbrev pub ProviderOption : Type 0
ProviderOption = Provider → Provider

unfoldable pub drop_slashes : Text → Text
drop_slashes [] = []
drop_slashes (c ∷ t) = if c == b'/' then drop_slashes t else c ∷ t

-- strings.TrimRight(u, "/")
unfoldable pub trim_slashes : Text → Text
trim_slashes s = reverse (drop_slashes (reverse s))

unfoldable pub with_base_url : Text → ProviderOption
with_base_url u p = record p { base_url = trim_slashes u }

unfoldable pub with_app_token : Text → ProviderOption
with_app_token t p = record p { app_token = t }

unfoldable pub new_provider : List ProviderOption → Option Provider × Error
new_provider opts =
    let p : Provider =
      apply_all opts (record { app_token = []; base_url = ascii "https://api.pushover.net" }) in
    if null p.app_token
    then (none, new (ascii "pushover: WithAppToken is required"))
    else (some p, nil)

unfoldable pub name : Text
name = ascii "pushover"

-- form.Set(key, value) under the test that the value is not empty.
abbrev pub set_nonempty : Text → Text → List (Text × Text) → List (Text × Text)
set_nonempty key value form = if null value then form else insert key value form

unfoldable pub build_form : Provider → PushoverTarget → Content → List (Text × Text)
build_form p t c =
    let form = insert (ascii "token") p.app_token [] in
    let form = insert (ascii "user") t.user_or_group_key form in
    let form = insert (ascii "title") c.title form in
    let form = insert (ascii "message") c.body form in
    let form =
      if eq_ℤ c.priority (pos 0) then form else insert (ascii "priority") (itoa c.priority) form in
    let form = set_nonempty (ascii "device") t.device_name form in
    let form = set_nonempty (ascii "sound") t.sound form in
    let form = set_nonempty (ascii "url") t.url form in
    set_nonempty (ascii "url_title") t.url_title form

unfoldable pub is_recipient_rejection : List Text → Bool
is_recipient_rejection [] = false
is_recipient_rejection (e ∷ errs) =
    let le = to_lower e in
    contains le (ascii "user")
    || contains le (ascii "token")
    || contains le (ascii "device")
    || is_recipient_rejection errs

unfoldable pub classify : ℕ → PushoverResp → Text → PushReturn
classify status pr snippet =
    if leb 200 status && ltb status 300 && eq_ℤ pr.status (pos 1)
    then (some (record { provider_response = snippet }), nil)
    else if status == 400
    then if is_recipient_rejection pr.errors
      then (
        none,
        permanent_error (ascii "provider-rejected-recipient") snippet
            (new (ascii "pushover: recipient rejected")),
      )
      else (
        none,
        permanent_error (ascii "provider-rejected-payload") snippet
            (new (ascii "pushover: payload rejected")),
      )
    else if status == 401 || status == 403
    then (
      none,
      permanent_error (ascii "provider-auth-failed") snippet
          (new (ascii "pushover: auth failed (check PUSHOVER_APP_TOKEN)")),
    )
    else if status == 429 || leb 500 status
    then (none, transient_error snippet (new (ascii "pushover: " ++ format_ℕ status)))
    else (
      none,
      transient_error snippet (new (ascii "pushover: unexpected status " ++ format_ℕ status)),
    )

-- The errors of the checks at the start of Push.
abbrev pub rejected : Text → PushReturn
rejected message = (none, permanent_error (ascii "provider-rejected-payload") [] (new message))

module _ {S : Type 0} (http : Http S) (p : Provider) where
  -- What follows p.httpc.Do.
  unfoldable pub read_response : HttpReturn → PushReturn
  read_response (no_response err) =
      (none, transient_error [] (wrap (ascii "pushover: http do") err))
  read_response (response status body) =
      let body_bytes = take 4096 body in
      classify status (http.unmarshal body_bytes) (truncate body_bytes 512)

  unfoldable pub send_form : PushoverTarget → Content → S → PushReturn × S
  send_form t c s =
      let url = p.base_url ++ ascii "/1/messages.json" in
      let err = http.request_error url in
      let (ret, s') =
        http.send
          (record {
            method = ascii "POST";
            url = url;
            content_type = ascii "application/x-www-form-urlencoded";
            form = build_form p t c;
          })
          s in
      if is_nil err
      then (read_response ret, s')
      else ((none, transient_error [] (wrap (ascii "pushover: build request") err)), s)

  -- Push, by the target and the content of the notification.
  unfoldable pub push_to : Target → Option Content → S → PushReturn × S
  push_to (pushover (some t)) (some c) s = send_form t c s
  push_to (pushover (some t)) none s = (rejected (ascii "pushover: missing Content"), s)
  push_to (pushover none) c s = (rejected (ascii "pushover: missing PushoverTarget"), s)
  push_to unset c s = (rejected (ascii "pushover: missing PushoverTarget"), s)
  push_to unknown c s = (rejected (ascii "pushover: missing PushoverTarget"), s)

  unfoldable pub push : Notification → S → PushReturn × S
  push n s = push_to n.target n.content s

  abbrev pub provider : PushProvider S
  provider = record { name = name; push = push }
