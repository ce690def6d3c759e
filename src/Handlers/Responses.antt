-- ===== src/Handlers/Responses.antt =====
-- What `SubmitNotification` of internal/writer/httpserver/handlers.go sends and counts.
use pulsar_notifcation_pipel.Base.{
  sym, subst, ◌⊎◌, Bool-cases, is_some, ◌++◌, List, [], ◌∷◌, Option, none, some, true, inl, inr,
  refl, ◌≡◌, Text,
}
use pulsar_notifcation_pipel.Handlers.{
  accept, with_idempotency, submit_decoded, decode_body, submit_notification, Request, answer,
  finish, finished, Handlers, ServerWorld, Codecs,
}
use pulsar_notifcation_pipel.Http.{write_problem, Principal, ResponseWriter, Exit}
use mathlib.Core.Bool.{true≢false}
use pulsar_notifcation_pipel.Metrics.{outcome_auth_failed, record_writer_submission}
use pulsar_notifcation_pipel.Ingest.Accept.{accept-some, accept-submissions}
use pulsar_notifcation_pipel.Auth.{from_context}
use pulsar_notifcation_pipel.Handlers.Labels.{
  problem-Sends, decode_body-Documented, success-Sends, write_ingest_error-Sends, Sends,
}
use pulsar_notifcation_pipel.Problems.{Problem, authentication_required}
use pulsar_notifcation_pipel.Message.{Notification}
use pulsar_notifcation_pipel.GoError.{is_nil, Error}
use pulsar_notifcation_pipel.Ingest.{AcceptResult, Packages}

-- The call returned, one documented response is sent, and one submission is counted, under the label
-- of its status.
pub record Answers {P : Type 0} (before : List (Text × Text))
    (out : Exit × ResponseWriter × ServerWorld P) : Type 0 where
  pub returned : out.0 ≡ finished
  pub label : Text
  pub service : Text
  pub sends : Sends label out.1
  pub counted : out.2.writer.instruments.writer_submissions ≡ before ++ (label, service) ∷ []

pub decode_cases :
    (d : Notification ⊎ Problem)
    → ((n : Notification) × (d ≡ inl n)) ⊎ ((p : Problem) × (d ≡ inr p))
decode_cases (inl n) = inl (n, refl)
decode_cases (inr p) = inr (p, refl)

module _ {P : Type 0} (pk : Packages) (cs : Codecs) (h : Handlers P) where
  finish-Answers :
      (label service : Text) (writer : ResponseWriter) (w : ServerWorld P)
      → Sends label writer
      → Answers w.writer.instruments.writer_submissions (finish pk cs h label service writer w)
  unfolding finish record_writer_submission
  finish-Answers label service writer w sends = record {
    returned = refl;
    label = label;
    service = service;
    sends = sends;
    counted = refl;
  }

  answer-Answers :
      (r : Request) (rid service : Text) (res : Option AcceptResult × Error)
      (writer : ResponseWriter) (w : ServerWorld P)
      → (is_nil res.1 ≡ true → is_some res.0 ≡ true)
      → writer.sent ≡ none
      → Answers w.writer.instruments.writer_submissions (answer pk cs h r rid service res writer w)
  unfolding answer
  answer-Answers r rid service (none, err) writer w found unsent = elim (Bool-cases (is_nil err)) [
    | inl e ↦ absurd (true≢false (sym (found e)))
    | inr e ↦ rw (e) (finish-Answers _ _ _ w (write_ingest_error-Sends r rid err writer unsent))
  ]
  answer-Answers r rid service (some res, err) writer w found unsent =
      elim (Bool-cases (is_nil err)) [
        | inl e ↦ rw (e) (finish-Answers _ _ _ w (success-Sends rid _ writer unsent))
        | inr e ↦ rw (e) (finish-Answers _ _ _ w (write_ingest_error-Sends r rid err writer unsent))
      ]

  answered_Answers :
      (r : Request) (rid service : Text) (res : Option AcceptResult × Error)
      (writer : ResponseWriter) (w : ServerWorld P) (before : List (Text × Text))
      → w.writer.instruments.writer_submissions ≡ before
      → (is_nil res.1 ≡ true → is_some res.0 ≡ true)
      → writer.sent ≡ none
      → Answers before (answer pk cs h r rid service res writer w)
  answered_Answers r rid service res writer w before same found unsent =
      subst (λ counted. Answers {P = P} counted (answer pk cs h r rid service res writer w)) same
        (answer-Answers r rid service res writer w found unsent)

  submit_decoded-Answers :
      (n : Notification) (key : Option Text) (r : Request) (writer : ResponseWriter)
      (w : ServerWorld P)
      → writer.sent ≡ none
      → Answers w.writer.instruments.writer_submissions (submit_decoded pk cs h n key r writer w)
  unfolding submit_decoded authentication_required
  submit_decoded-Answers n key r writer w unsent = with_principal (from_context r)
    where
      with_principal :
          (p : Option Principal)
          → Answers {P = P} w.writer.instruments.writer_submissions (elim p [
            | none ↦
                finish pk cs h outcome_auth_failed []
                  (write_problem (authentication_required (h.request_id r) r.path) writer)
                  w
            | some p ↦
                let (res, w') =
                  accept pk h.ingester
                    (some (with_idempotency pk cs h key n))
                    p.service_name
                    w.writer in
                answer pk cs h r
                  (h.request_id r)
                  p.service_name
                  res
                  writer
                  (record w { writer = w' })
          ])
      with_principal none =
          finish-Answers outcome_auth_failed [] _ w
            (problem-Sends _ _ writer unsent (inr (inr (inl refl))) refl)
      with_principal (some p) =
          let n' = with_idempotency pk cs h key n in
          answered_Answers r (h.request_id r) p.service_name _ writer _ _
            (accept-submissions pk h.ingester n' p.service_name w.writer)
            (accept-some pk h.ingester n' p.service_name w.writer) unsent

  -- On an unsent writer, whatever the request is, the handler returns without a panic, exactly one
  -- response with a documented status and one body is sent, and exactly one submission is counted,
  -- with the label that belongs to the status sent.
  pub submit_notification-Answers :
      (key : Option Text) (r : Request) (writer : ResponseWriter) (w : ServerWorld P)
      → writer.sent ≡ none
      → Answers w.writer.instruments.writer_submissions (submit_notification pk cs h key r writer w)
  unfolding submit_notification
  submit_notification-Answers key r writer w unsent =
      elim (decode_cases (decode_body cs r (h.request_id r))) [
        | inl (n, e) ↦ rw (e, submit_notification) (submit_decoded-Answers n key r writer w unsent)
        | inr (p, e) ↦
            let (documented, labelled) = decode_body-Documented cs r (h.request_id r) p e in
            rw (e, submit_notification)
              (finish-Answers _ _ _ w (problem-Sends _ p writer unsent documented labelled))
      ]
