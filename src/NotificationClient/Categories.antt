-- ===== src/NotificationClient/Categories.antt =====
-- What a caller of pkg/notificationclient learns from the writer's problem documents.
use pulsar_notifcation_pipel.Base.{
  ◌↔◌, sym, Option-cases, text_eq, ◌≤◌, if◌then◌else◌, List, [], ◌∷◌, Option, none, some, Bool,
  true, false, inl, inr, refl, arith, ◌≡◌, Text, ascii,
}
use pulsar_notifcation_pipel.NotificationClient.Errors.{submit_error_is_iff, submit_error_is}
use pulsar_notifcation_pipel.GoError.{as_publish_error, as_validation_error, Error, nil}
use pulsar_notifcation_pipel.Metrics.{
  outcome_internal, outcome_substrate_unavailable, outcome_validation_failed,
}
use pulsar_notifcation_pipel.Handlers.{write_ingest_error, outcome_for_ingest_error}
use pulsar_notifcation_pipel.NotificationClient.{
  err_internal, decode_problem, err_substrate_unavailable, problem_error, err_validation_failed,
  ProblemError, sentinel_for, ProblemWire, parse_response, Category, Transport,
}
use pulsar_notifcation_pipel.Base.Int.{pos}
use pulsar_notifcation_pipel.Http.{Request, set_header, write_problem, problem_body, ResponseWriter}
use pulsar_notifcation_pipel.Http.Writing.{write_problem-sent}
use pulsar_notifcation_pipel.Problems.{internal, substrate_unavailable, validation_failed, Problem}

abbrev pub wire_of : Problem → ProblemWire
wire_of p = record {
  type_uri = p.type_uri;
  title = p.title;
  status = pos p.status;
  detail = p.detail;
  instance_uri = p.instance_uri;
  request_id = p.request_id;
  errors = p.errors;
}

-- The category that belongs to a label of the writer's submission counter.
abbrev pub category_of : Text → Category
category_of label =
    if text_eq label outcome_validation_failed
    then err_validation_failed
    else if text_eq label outcome_substrate_unavailable
    then err_substrate_unavailable
    else err_internal

-- A problem that the writer sent, as a caller sees it.
pub record IsSeen (tr : Transport) (encode : Problem → Text) (label rid : Text)
    (writer : ResponseWriter) : Type 0 where
  pub document : Problem
  pub headers : List (Text × Text)
  pub sent :
      writer.sent
      ≡ some (record {
        status = document.status;
        headers = headers;
        bodies = problem_body document ∷ [];
      })
  pub seen : ProblemError
  pub parsed :
      parse_response tr (record {
        status = document.status;
        content_type = ascii "application/problem+json";
        body = encode document;
        body_err = nil;
      })
      ≡ inr (problem_error seen)
  pub same_status : seen.status ≡ pos document.status
  pub same_request : seen.request_id ≡ rid
  pub same_fields : seen.fields ≡ document.errors
  pub category_is :
      (target : Category)
      → (submit_error_is (problem_error seen) target ≡ true) ↔ (target ≡ category_of label)

module _ (tr : Transport) (encode : Problem → Text)
    (codec : (p : Problem) → tr.unmarshal_problem (encode p) ≡ wire_of p) where
  problem-IsSeen :
      (label : Text) (p : Problem) (writer : ResponseWriter)
      → writer.sent ≡ none
      → 400 ≤ p.status
      → sentinel_for p.type_uri ≡ category_of label
      → IsSeen tr encode label p.request_id (write_problem p writer)
  unfolding parse_response decode_problem
  problem-IsSeen label p writer unsent bad same = record {
    document = p;
    headers = _;
    sent = write_problem-sent p writer unsent;
    seen = decode_problem (wire_of p) p.status;
    parsed = rw (codec p) (ground arith);
    same_status = ground arith;
    same_request = refl;
    same_fields = refl;
    category_is =
        λ target. rw (sym same) (submit_error_is_iff (decode_problem (wire_of p) p.status) target);
  }

  -- With a JSON codec that returns a problem document as it was, a caller whose submission Accept
  -- refused, with nothing sent before, sees the status, the request's identifier and the field errors of the document sent, and
  -- the category that belongs to the error's label: validation, substrate or internal.
  write_ingest_error-IsSeen :
      (r : Request) (rid : Text) (err : Error) (writer : ResponseWriter)
      → writer.sent ≡ none
      → IsSeen tr encode (outcome_for_ingest_error err) rid (write_ingest_error r rid err writer)
  unfolding write_ingest_error outcome_for_ingest_error validation_failed substrate_unavailable
      internal set_header sentinel_for text_eq ascii
  write_ingest_error-IsSeen r rid err writer unsent =
      elim (Option-cases (as_validation_error err)) [
        | inr (fields, e) ↦
            rw (e, write_ingest_error, outcome_for_ingest_error)
              (problem-IsSeen _ (validation_failed rid r.path _ _) _ unsent (omega arith) refl)
        | inl e ↦
            rw (e, write_ingest_error, outcome_for_ingest_error)
              (publish_error-IsSeen (as_publish_error err))
      ]
    where
      publish_error-IsSeen :
          (transient : Option Bool)
          → IsSeen tr encode
              (elim transient [
                | some transient ↦
                    if transient then outcome_substrate_unavailable else outcome_internal
                | none ↦ outcome_internal
              ])
              rid
              (elim transient [
                | some transient ↦
                    if transient
                    then write_problem
                        (substrate_unavailable rid r.path
                          (ascii "messaging substrate is temporarily unavailable"))
                        (set_header (ascii "Retry-After") (ascii "5") writer)
                    else write_problem (internal rid r.path) writer
                | none ↦ write_problem (internal rid r.path) writer
              ])
      publish_error-IsSeen none = problem-IsSeen _ (internal rid r.path) _ unsent (omega arith) refl
      publish_error-IsSeen (some true) =
          problem-IsSeen _ (substrate_unavailable rid r.path _) _ unsent (omega arith) refl
      publish_error-IsSeen (some false) =
          problem-IsSeen _ (internal rid r.path) _ unsent (omega arith) refl
