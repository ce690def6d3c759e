-- ===== src/EndToEnd/Exchange.antt =====
-- The two generated packages put together: what the strict server of
-- internal/writer/httpserver/server.gen.go sends, the client of
-- pkg/notificationclient/generated/client.gen.go reads.
use pulsar_notifcation_pipel.Base.{
  ap, false, text_eq, sym, ◌∙◌, is_none, if◌then◌else◌, append-nil, ◌==◌, ℕ, none, true, ◌++◌, [],
  ◌∷◌, Option, some, inl, inr, refl, ◌≡◌, Text, ascii,
}
use pulsar_notifcation_pipel.GeneratedServer.{SubmitNotificationParams}
use pulsar_notifcation_pipel.GeneratedServer.Serving.{
  strict_submit_notification-visit, served, implemented, undecodable, status_of_object,
}
use pulsar_notifcation_pipel.EndToEnd.Documents.{
  documented_at, visit-response, client_document, type_of_object, document_of, response_of, encoded,
  transported, IsLossless,
}
use pulsar_notifcation_pipel.Http.{Request, Body, new_writer, Response}
use pulsar_notifcation_pipel.GeneratedServer.Strict.{
  StrictServerInterface, response_503, response_500, response_415, response_409, response_401,
  response_400, response_202, JsonCodec, SubmitNotificationResponseObject,
  visit_submit_notification_response,
}
use pulsar_notifcation_pipel.GeneratedClient.Documents.{
  parse_submit_response_fails_iff, parse_submit_response_keeps, document_at, decoded_for,
}
use pulsar_notifcation_pipel.GeneratedClient.Answers.{
  SubmitNotificationResponse, status_code, parse_submit_response,
}
use pulsar_notifcation_pipel.GoError.{is_nil, Error, nil}
use pulsar_notifcation_pipel.GeneratedClient.WithResponses.{ParsedResponse, DocumentCodec}
use pulsar_notifcation_pipel.Base.Dict.{lookup}
use pulsar_notifcation_pipel.GeneratedClient.{Reply}
use mathlib.Core.Bool.{true≢false}

some_of : {A : Type 0} (x : Option A) → ¬ (is_none x ≡ true) → (a : A) × (x ≡ some a)
some_of none present = absurd (present refl)
some_of (some a) present = (a, refl)

-- A reply that is read and whose document decodes is parsed.
parse_succeeds :
    {D P : Type 0} (unmarshal_success : Text → D × Error) (unmarshal_problem : Text → P × Error)
    (rsp : Reply)
    → is_nil (decoded_for unmarshal_success unmarshal_problem rsp).1 ≡ true
    → is_nil rsp.body_err ≡ true
    → (r : SubmitNotificationResponse D P) × ((parse_submit_response unmarshal_success
          unmarshal_problem rsp).0
        ≡ some r)
parse_succeeds unmarshal_success unmarshal_problem rsp decodes is_read =
    some_of (parse_submit_response unmarshal_success unmarshal_problem rsp).0 (λ failed.
      elim ((parse_submit_response_fails_iff unmarshal_success unmarshal_problem rsp).0 failed) [
        | inl unread ↦ absurd (true≢false (sym is_read ∙ unread))
        | inr (_, undecoded) ↦ absurd (true≢false (sym decodes ∙ undecoded))
      ])

module _ (sc : JsonCodec) (dc : DocumentCodec) (lossless : IsLossless sc dc)
    (encode_body : Body → Text) where
  transported-content_type :
      (o : SubmitNotificationResponseObject) (text : Text)
      → (transported encode_body (response_of o text)).content_type ≡ type_of_object o
  unfolding lookup text_eq ascii
  transported-content_type o text = refl

  -- What the client's decoders make of a response object.
  decoded_for-document :
      (o : SubmitNotificationResponseObject) (text : Text)
      → encoded sc (document_of o) ≡ (text, nil)
      → decoded_for dc.unmarshal_success dc.unmarshal_problem
          (transported encode_body (response_of o text))
        ≡ (client_document (document_of o), nil)
  decoded_for-document (response_202 d) text e =
      rw (append-nil (text ++ 10 ∷ []), lossless.success d text e) refl
  decoded_for-document (response_400 p) text e =
      rw (append-nil (text ++ 10 ∷ []), lossless.problem p text e) refl
  decoded_for-document (response_401 p) text e =
      rw (append-nil (text ++ 10 ∷ []), lossless.problem p text e) refl
  decoded_for-document (response_409 p) text e =
      rw (append-nil (text ++ 10 ∷ []), lossless.problem p text e) refl
  decoded_for-document (response_415 p) text e =
      rw (append-nil (text ++ 10 ∷ []), lossless.problem p text e) refl
  decoded_for-document (response_500 p) text e =
      rw (append-nil (text ++ 10 ∷ []), lossless.problem p text e) refl
  decoded_for-document (response_503 p) text e =
      rw (append-nil (text ++ 10 ∷ []), lossless.problem p text e) refl

  -- A response object that encodes is sent with its status; what the client parses of it has that
  -- status and the document of the object at the field of that status, and no other document.
  pub visit-parsed :
      (o : SubmitNotificationResponseObject) (text : Text)
      → encoded sc (document_of o) ≡ (text, nil)
      → (response : Response) × ((visit_submit_notification_response sc o new_writer).1.sent
          ≡ some response)
        × ((parsed : ParsedResponse) × (parse_submit_response dc.unmarshal_success
                dc.unmarshal_problem
                (transported encode_body response)
              ≡ (some parsed, nil))
            × (status_code parsed ≡ status_of_object o)
            × ((k : ℕ)
                → document_at parsed k ≡ (
                    if k == status_of_object o
                    then some (client_document (document_of o))
                    else none)))
  visit-parsed o text e =
      let reply = transported encode_body (response_of o text) in
      let decoded = decoded_for-document o text e in
      let (parsed, found) =
        parse_succeeds dc.unmarshal_success dc.unmarshal_problem reply (rw decoded refl) refl in
      let keeps = λ (k : ℕ).
        parse_submit_response_keeps dc.unmarshal_success dc.unmarshal_problem reply parsed k
          found in
      (
        response_of o text,
        rw (visit-response sc o text e) refl,
        (
          parsed,
          λ i. (found i, (keeps 0).0 i),
          (keeps 0).1,
          λ k. (keeps k).3 ∙ rw (transported-content_type o text, documented_at o k, decoded) refl,
        ),
      )

  -- The same through the whole strict server that NewStrictHandler makes with no middlewares, for a
  -- request whose body, if it is announced as JSON, decodes, and an implementation that returns the
  -- response object.
  pub strict_submit_notification-parsed :
      {W : Type 0} (ssi : StrictServerInterface W) (params : SubmitNotificationParams) (r : Request)
      (w : W) (o : SubmitNotificationResponseObject) (text : Text)
      → undecodable sc ssi params r w ≡ false
      → (implemented sc ssi params r w).0 ≡ (some o, nil)
      → encoded sc (document_of o) ≡ (text, nil)
      → (response : Response) × ((served sc ssi params r w).1.sent ≡ some response)
        × ((parsed : ParsedResponse) × (parse_submit_response dc.unmarshal_success
                dc.unmarshal_problem
                (transported encode_body response)
              ≡ (some parsed, nil))
            × (status_code parsed ≡ status_of_object o)
            × ((k : ℕ)
                → document_at parsed k ≡ (
                    if k == status_of_object o
                    then some (client_document (document_of o))
                    else none)))
  strict_submit_notification-parsed ssi params r w o text decodable returned e =
      let (response, sent, parsed) = visit-parsed o text e in
      let served_visit =
        strict_submit_notification-visit sc ssi params r w o decodable returned
          (ap (λ p. p.0) (visit-response sc o text e)) in
      (response, ap (λ p. p.1.sent) served_visit ∙ sent, parsed)
