-- ===== src/GeneratedClient/WithResponses.antt =====
-- pkg/notificationclient/generated/client.gen.go: the client that parses its responses into documents.
use pulsar_notifcation_pipel.Base.{if◌then◌else◌, List, Option, none, inl, inr, Text, ◌⊎◌}
use pulsar_notifcation_pipel.GoError.{nil, is_nil, Error}
use pulsar_notifcation_pipel.GeneratedClient.{
  submit_notification_json, new_raw_client, submit_notification_with_body, RawOption, Reply,
  RequestEditor, Doer, HttpPackages, RawClient,
}
use pulsar_notifcation_pipel.GeneratedClient.Answers.{
  parse_submit_response, SubmitNotificationResponse,
}
use mathlib.Core.Option
use pulsar_notifcation_pipel.GeneratedClient.Types.{
  SubmitNotificationSuccess, Problem, Notification,
}

-- ClientWithResponses over a client; D is `Doer S`.
pub record ClientWithResponses (D : Type 0) : Type 0 where
  pub client : RawClient D

-- NewClientWithResponses
unfoldable pub new_client_with_responses :
    {S : Type 0}
    → (default_doer : Doer S) → Text
    → List (RawOption (Option (Doer S)))
    → Option (ClientWithResponses (Doer S)) × Error
new_client_with_responses default_doer server opts =
    let (client, err) = new_raw_client default_doer server opts in
    if is_nil err then (Option.map (λ c. record { client = c }) client, nil) else (none, err)

-- What the documents are decoded and encoded with: json.Unmarshal into a fresh document, json.Marshal.
pub record DocumentCodec : Type 0 where
  pub unmarshal_success : Text → SubmitNotificationSuccess × Error
  pub unmarshal_problem : Text → Problem × Error
  pub marshal : Notification → Text × Error

-- The response with the documents of this package.
abbrev pub ParsedResponse : Type 0
ParsedResponse = SubmitNotificationResponse SubmitNotificationSuccess Problem

module _ {U S : Type 0} (hp : HttpPackages U) (codec : DocumentCodec)
    (c : ClientWithResponses (Doer S)) where
  -- What follows the call of the client, in both methods.
  unfoldable pub parse_reply : (Reply ⊎ Error) × S → (Option ParsedResponse × Error) × S
  parse_reply (inl rsp, s) =
      (parse_submit_response codec.unmarshal_success codec.unmarshal_problem rsp, s)
  parse_reply (inr err, s) = ((none, err), s)

  -- SubmitNotificationWithBodyWithResponse
  unfoldable pub submit_notification_with_body_with_response :
      (params : Option (Option Text))
      → (content_type body : Text) → List RequestEditor
      → S
      → (Option ParsedResponse × Error) × S
  unfolding parse_reply
  submit_notification_with_body_with_response params content_type body editors s =
      parse_reply (submit_notification_with_body hp c.client params content_type body editors s)

  -- SubmitNotificationWithResponse
  unfoldable pub submit_notification_with_response :
      (params : Option (Option Text))
      → Notification
      → List RequestEditor
      → S
      → (Option ParsedResponse × Error) × S
  unfolding parse_reply
  submit_notification_with_response params body editors s =
      parse_reply (submit_notification_json hp c.client params (codec.marshal body) editors s)
