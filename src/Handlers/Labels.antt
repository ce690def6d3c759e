-- ===== src/Handlers/Labels.antt =====
-- The response and the metric label of an ingest error in internal/writer/httpserver/handlers.go.
use pulsar_notifcation_pipel.Base.{
  arith, Option, Bool, true, false, ascii, Option-cases, ◌||◌, length, ◌==◌, if◌then◌else◌, ℕ, none,
  some, inl, inr, refl, ◌≡◌, Text, ◌⊎◌,
}
use pulsar_notifcation_pipel.Handlers.{
  Codecs, decoded, decode_body, Request, outcome_for_ingest_error, write_ingest_error,
}
use pulsar_notifcation_pipel.Problems.{
  unsupported_content_type, internal, substrate_unavailable, validation_failed, Problem,
}
use pulsar_notifcation_pipel.Http.{
  write_success, SubmitData, set_header, write_problem, Response, ResponseWriter,
}
use pulsar_notifcation_pipel.Http.Writing.{write_success-sent, write_problem-sent}
use pulsar_notifcation_pipel.GoError.{as_publish_error, as_validation_error, Error}
use pulsar_notifcation_pipel.Metrics.{
  outcome_internal, outcome_substrate_unavailable, outcome_auth_failed, outcome_validation_failed,
  outcome_accepted,
}

-- The label that belongs to a status.
abbrev pub label_of : ℕ → Text
label_of status =
    if status == 202
    then outcome_accepted
    else if status == 400 || status == 415
    then outcome_validation_failed
    else if status == 401
    then outcome_auth_failed
    else if status == 503
    then outcome_substrate_unavailable
    else outcome_internal

-- The statuses that the API documents.
abbrev pub IsDocumented : ℕ → Type 0
IsDocumented status =
    (status ≡ 202)
    ⊎ (status ≡ 400)
    ⊎ (status ≡ 401)
    ⊎ (status ≡ 415)
    ⊎ (status ≡ 500)
    ⊎ (status ≡ 503)

-- One response with a documented status, and the label that belongs to it.
pub record Sends (label : Text) (writer : ResponseWriter) : Type 0 where
  pub response : Response
  pub sent : writer.sent ≡ some response
  pub documented : IsDocumented response.status
  pub labelled : label ≡ label_of response.status
  pub one_body : length response.bodies ≡ 1

pub problem-Sends :
    (label : Text) (p : Problem) (writer : ResponseWriter)
    → writer.sent ≡ none
    → IsDocumented p.status
    → label ≡ label_of p.status
    → Sends label (write_problem p writer)
problem-Sends label p writer unsent documented labelled = record {
  response = _;
  sent = write_problem-sent p writer unsent;
  documented = documented;
  labelled = labelled;
  one_body = refl;
}

-- On an unsent writer, write_ingest_error sends one documented status for every error of Accept, and
-- outcome_for_ingest_error gives the label that belongs to that status.
pub write_ingest_error-Sends :
    (r : Request) (rid : Text) (err : Error) (writer : ResponseWriter)
    → writer.sent ≡ none
    → Sends (outcome_for_ingest_error err) (write_ingest_error r rid err writer)
unfolding write_ingest_error outcome_for_ingest_error validation_failed substrate_unavailable
    internal set_header
write_ingest_error-Sends r rid err writer unsent = elim (Option-cases (as_validation_error err)) [
  | inr (fields, e) ↦
      rw (e, write_ingest_error, outcome_for_ingest_error)
        (problem-Sends _ _ _ unsent (inr (inl refl)) refl)
  | inl e ↦
      rw (e, write_ingest_error, outcome_for_ingest_error)
        (publish_error-Sends (as_publish_error err))
]
  where
    publish_error-Sends :
        (transient : Option Bool)
        → Sends
            (elim transient [
              | some transient ↦
                  if transient then outcome_substrate_unavailable else outcome_internal
              | none ↦ outcome_internal
            ])
            (elim transient [
              | some transient ↦
                  if transient
                  then write_problem
                      (substrate_unavailable rid r.path
                        (ascii "messaging substrate is temporarily unavailable"))
                      (set_header (ascii "Retry-After") (ascii "5") writer)
                  else write_problem (internal rid r.path) writer
              | none ↦ write_problem (internal rid r.path) writer
            ])
    publish_error-Sends none = problem-Sends _ _ _ unsent (inr (inr (inr (inr (inl refl))))) refl
    publish_error-Sends (some true) =
        problem-Sends _ _ _ unsent (inr (inr (inr (inr (inr refl))))) refl
    publish_error-Sends (some false) =
        problem-Sends _ _ _ unsent (inr (inr (inr (inr (inl refl))))) refl

pub success-Sends :
    (rid : Text) (d : SubmitData) (writer : ResponseWriter)
    → writer.sent ≡ none
    → Sends outcome_accepted (write_success 202 rid d writer)
success-Sends rid d writer unsent = record {
  response = _;
  sent = write_success-sent 202 rid d writer unsent;
  documented = inl refl;
  labelled = refl;
  one_body = refl;
}

pub decode_body-Documented :
    (cs : Codecs) (r : Request) (rid : Text) (p : Problem)
    → decode_body cs r rid ≡ inr p
    → (IsDocumented p.status × (outcome_validation_failed ≡ label_of p.status))
unfolding decode_body decoded validation_failed unsupported_content_type
decode_body-Documented cs r rid p e = ground arith
