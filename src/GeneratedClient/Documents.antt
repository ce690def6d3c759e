-- ===== src/GeneratedClient/Documents.antt =====
-- Which document ParseSubmitNotificationResponse of pkg/notificationclient/generated/client.gen.go
-- fills in.
use pulsar_notifcation_pipel.Base.{
  ==_iff, sym, ◌∙◌, Bool-cases, refl, ◌&&◌, ◌||◌, Bool, ◌↔◌, is_none, false, contains, ◌≢◌, ◌==◌,
  if◌then◌else◌, ℕ, Option, none, some, true, inl, inr, arith, ◌≡◌, Text, ascii, ◌⊎◌,
}
use pulsar_notifcation_pipel.GoError.{is_nil, nil, Error}
use pulsar_notifcation_pipel.GeneratedClient.{Reply}
use pulsar_notifcation_pipel.GeneratedClient.Answers.{
  status_code, parse_submit_response, SubmitNotificationResponse,
}
use mathlib.Core.Option
use mathlib.Core.Bool.{true≢false}

-- The statuses that have a document.
abbrev pub HasDocument : ℕ → Type 0
HasDocument status =
    (status ≡ 202)
    ⊎ (status ≡ 400)
    ⊎ (status ≡ 401)
    ⊎ (status ≡ 409)
    ⊎ (status ≡ 415)
    ⊎ (status ≡ 500)
    ⊎ (status ≡ 503)

abbrev pub has_document : ℕ → Bool
has_document status =
    status == 202
    || status == 400
    || status == 401
    || status == 409
    || status == 415
    || status == 500
    || status == 503

module _ {D P : Type 0} where
  -- The field of a status.
  abbrev pub document_at : SubmitNotificationResponse D P → ℕ → Option (D ⊎ P)
  document_at r status =
      if status == 202
      then Option.map inl r.json_202
      else if status == 400
      then Option.map inr r.problem_400
      else if status == 401
      then Option.map inr r.problem_401
      else if status == 409
      then Option.map inr r.problem_409
      else if status == 415
      then Option.map inr r.problem_415
      else if status == 500
      then Option.map inr r.problem_500
      else if status == 503
      then Option.map inr r.problem_503
      else none

  -- What the status of a response asks the decoders for.
  abbrev pub decoded_for : (Text → D × Error) → (Text → P × Error) → Reply → (D ⊎ P) × Error
  decoded_for unmarshal_success unmarshal_problem rsp =
      if rsp.status == 202
      then (inl (unmarshal_success rsp.body).0, (unmarshal_success rsp.body).1)
      else (inr (unmarshal_problem rsp.body).0, (unmarshal_problem rsp.body).1)

  module _ (unmarshal_success : Text → D × Error) (unmarshal_problem : Text → P × Error)
      (rsp : Reply) where
    abbrev pub parsed : Option (SubmitNotificationResponse D P) × Error
    parsed = parse_submit_response unmarshal_success unmarshal_problem rsp

    -- The response is announced as JSON and has a status with a document.
    abbrev pub IsDocumented : Type 0
    IsDocumented = (contains rsp.content_type (ascii "json") ≡ true) × HasDocument rsp.status

    parsed-status_code :
        (r : SubmitNotificationResponse D P) → parsed.0 ≡ some r → status_code r ≡ rsp.status
    unfolding parse_submit_response status_code
    parsed-status_code r e = ground arith

    parsed-body : (r : SubmitNotificationResponse D P) → parsed.0 ≡ some r → r.body ≡ rsp.body
    unfolding parse_submit_response
    parsed-body r e = ground arith

    parsed-nil : (r : SubmitNotificationResponse D P) → parsed.0 ≡ some r → parsed.1 ≡ nil
    unfolding parse_submit_response
    parsed-nil r e = ground arith

    parsed_document :
        (r : SubmitNotificationResponse D P)
        → parsed.0 ≡ some r
        → IsDocumented
        → document_at r rsp.status ≡ some (decoded_for unmarshal_success unmarshal_problem rsp).0
    unfolding parse_submit_response
    parsed_document r e documented = ground arith

    parsed-json_202 :
        (r : SubmitNotificationResponse D P)
        → parsed.0 ≡ some r
        → 202 ≢ rsp.status
        → r.json_202 ≡ none
    unfolding parse_submit_response
    parsed-json_202 r e other = ground arith

    parsed-problem_400 :
        (r : SubmitNotificationResponse D P)
        → parsed.0 ≡ some r
        → 400 ≢ rsp.status
        → r.problem_400 ≡ none
    unfolding parse_submit_response
    parsed-problem_400 r e other = ground arith

    parsed-problem_401 :
        (r : SubmitNotificationResponse D P)
        → parsed.0 ≡ some r
        → 401 ≢ rsp.status
        → r.problem_401 ≡ none
    unfolding parse_submit_response
    parsed-problem_401 r e other = ground arith

    parsed-problem_409 :
        (r : SubmitNotificationResponse D P)
        → parsed.0 ≡ some r
        → 409 ≢ rsp.status
        → r.problem_409 ≡ none
    unfolding parse_submit_response
    parsed-problem_409 r e other = ground arith

    parsed-problem_415 :
        (r : SubmitNotificationResponse D P)
        → parsed.0 ≡ some r
        → 415 ≢ rsp.status
        → r.problem_415 ≡ none
    unfolding parse_submit_response
    parsed-problem_415 r e other = ground arith

    parsed-problem_500 :
        (r : SubmitNotificationResponse D P)
        → parsed.0 ≡ some r
        → 500 ≢ rsp.status
        → r.problem_500 ≡ none
    unfolding parse_submit_response
    parsed-problem_500 r e other = ground arith

    parsed-problem_503 :
        (r : SubmitNotificationResponse D P)
        → parsed.0 ≡ some r
        → 503 ≢ rsp.status
        → r.problem_503 ≡ none
    unfolding parse_submit_response
    parsed-problem_503 r e other = ground arith

    parsed_others :
        (r : SubmitNotificationResponse D P)
        → parsed.0 ≡ some r
        → (k : ℕ) → k ≢ rsp.status
        → document_at r k ≡ none
    parsed_others r e k other = ground (
      arith,
      parsed-json_202 r e,
      parsed-problem_400 r e,
      parsed-problem_401 r e,
      parsed-problem_409 r e,
      parsed-problem_415 r e,
      parsed-problem_500 r e,
      parsed-problem_503 r e,
    )

    parsed_undocumented :
        (r : SubmitNotificationResponse D P)
        → parsed.0 ≡ some r
        → ¬ IsDocumented
        → document_at r rsp.status ≡ none
    unfolding parse_submit_response
    parsed_undocumented r e undocumented = ground arith

    -- Parsing fails exactly if the body cannot be read, or the response is announced as JSON, has one
    -- of the seven statuses with a document, and that document does not decode.
    pub parse_submit_response_fails_iff : (is_none parsed.0 ≡ true) ↔ (
        (is_nil rsp.body_err ≡ false)
        ⊎ (IsDocumented × (is_nil (decoded_for unmarshal_success unmarshal_problem rsp).1 ≡ false)))
    unfolding parse_submit_response
    parse_submit_response_fails_iff = ground arith

    documented_iff :
        (contains rsp.content_type (ascii "json") && has_document rsp.status ≡ true) ↔ IsDocumented
    documented_iff = ground arith

    -- The field of the response's own status.
    own_document :
        (r : SubmitNotificationResponse D P)
        → parsed.0 ≡ some r
        → document_at r rsp.status ≡ (
            if contains rsp.content_type (ascii "json") && has_document rsp.status
            then some (decoded_for unmarshal_success unmarshal_problem rsp).0
            else none)
    own_document r e =
        elim (Bool-cases (contains rsp.content_type (ascii "json") && has_document rsp.status)) [
          | inl held ↦ parsed_document r e (documented_iff.0 held) ∙ rw held refl
          | inr missed ↦
              parsed_undocumented r e
                (λ documented. absurd (true≢false (sym (documented_iff.1 documented) ∙ missed)))
              ∙ rw missed refl
        ]

    document_at-own :
        (r : SubmitNotificationResponse D P) (k : ℕ)
        → parsed.0 ≡ some r
        → document_at r k ≡ (
            if k == rsp.status && contains rsp.content_type (ascii "json") && has_document k
            then some (decoded_for unmarshal_success unmarshal_problem rsp).0
            else none)
    document_at-own r k e = elim (Bool-cases (k == rsp.status)) [
      | inl own ↦ let same = (==_iff k rsp.status).0 own in rw (own, same) (own_document r e)
      | inr other ↦ rw other (
          parsed_others r e k
            (λ same. absurd (true≢false (sym ((==_iff k rsp.status).1 same) ∙ other))))
    ]

    -- A parsed response comes without an error and has the status and the body of the response; of
    -- its seven documents only the one of that status is filled in, with what the body decodes
    -- to, and that only if the response is announced as JSON.
    pub parse_submit_response_keeps :
        (r : SubmitNotificationResponse D P) (k : ℕ)
        → parsed.0 ≡ some r
        → (parsed.1 ≡ nil)
          × (status_code r ≡ rsp.status)
          × (r.body ≡ rsp.body)
          × (document_at r k ≡ (
              if k == rsp.status && contains rsp.content_type (ascii "json") && has_document k
              then some (decoded_for unmarshal_success unmarshal_problem rsp).0
              else none))
    parse_submit_response_keeps r k e =
        (parsed-nil r e, parsed-status_code r e, parsed-body r e, document_at-own r k e)
