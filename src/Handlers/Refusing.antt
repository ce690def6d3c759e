-- ===== src/Handlers/Refusing.antt =====
-- A submission that Accept of internal/writer/ingest/ingest.go refuses, in `SubmitNotification` of
-- internal/writer/httpserver/handlers.go.
use pulsar_notifcation_pipel.Base.{
  Option-cases, ◌≤◌, if◌then◌else◌, List, [], ◌∷◌, Option, none, some, true, false, inl, inr, refl,
  arith, ◌≡◌, Text, ascii,
}
use pulsar_notifcation_pipel.Http.Writing.{write_problem-sent}
use pulsar_notifcation_pipel.Handlers.Accepting.{submit_decoded_accepted}
use pulsar_notifcation_pipel.GoError.{
  is_nil, as_publish_error, error_text, as_validation_error, FieldError, Error,
}
use pulsar_notifcation_pipel.Handlers.{
  with_idempotency, accept, decode_body, answer, finish, submit_notification, Request, finished,
  Notification, ServerWorld, Handlers, AccessLine, Codecs, Problem, write_ingest_error,
}
use pulsar_notifcation_pipel.Auth.{from_context}
use pulsar_notifcation_pipel.Ingest.{WriterWorld, Packages}
use pulsar_notifcation_pipel.Http.{Exit, ResponseWriter, set_header, Principal, problem_body}
use pulsar_notifcation_pipel.Problems.{internal, substrate_unavailable, validation_failed}

-- The problem document that an error of Accept is answered with.
abbrev pub refusal : (path rid : Text) → Error → Problem
refusal path rid err = elim (as_validation_error err) [
  | some fields ↦ validation_failed rid path (error_text err) fields
  | none ↦ elim (as_publish_error err) [
    | some transient ↦
        if transient
        then substrate_unavailable rid path (ascii "messaging substrate is temporarily unavailable")
        else internal rid path
    | none ↦ internal rid path
  ]
]

-- The violations that an error carries.
abbrev pub violations : Error → List FieldError
violations err = elim (as_validation_error err) [ none ↦ [] | some fields ↦ fields ]

-- A writer on which one problem document was sent.
abbrev pub HoldsProblem : Problem → ResponseWriter → Type 0
HoldsProblem p writer =
    (headers : List (Text × Text)) × (writer.sent
      ≡ some (record { status = p.status; headers = headers; bodies = problem_body p ∷ [] }))

pub write_ingest_error-HoldsProblem :
    (r : Request) (rid : Text) (err : Error) (writer : ResponseWriter)
    → writer.sent ≡ none
    → HoldsProblem (refusal r.path rid err) (write_ingest_error r rid err writer)
unfolding write_ingest_error set_header
write_ingest_error-HoldsProblem r rid err writer unsent =
    elim (Option-cases (as_validation_error err)) [
      | inr (fields, e) ↦
          rw (e, write_ingest_error, refusal) (_, write_problem-sent _ writer unsent)
      | inl e ↦ elim (Option-cases (as_publish_error err)) [
        | inl f ↦ rw (e, f, write_ingest_error, refusal) (_, write_problem-sent _ writer unsent)
        | inr (true, f) ↦ rw (e, f, write_ingest_error, refusal) (_, write_problem-sent _ _ unsent)
        | inr (false, f) ↦
            rw (e, f, write_ingest_error, refusal) (_, write_problem-sent _ writer unsent)
      ]
    ]

-- The document has the request's identifier, an error status, and the error's violations.
pub refusal-keeps :
    (path rid : Text) (err : Error)
    → ((refusal path rid err).request_id ≡ rid)
      × (400 ≤ (refusal path rid err).status)
      × ((refusal path rid err).errors ≡ violations err)
unfolding validation_failed substrate_unavailable internal
refusal-keeps path rid err = ground arith

-- The call returned, the writer holds the document of the error, the substrate is as Accept left
-- it, and the access log is the same.
pub record IsRefused {P : Type 0} (path rid : Text) (err : Error) (substrate : P)
    (lines : List AccessLine) (out : Exit × ResponseWriter × ServerWorld P) : Type 0 where
  pub returned : out.0 ≡ finished
  pub holds : HoldsProblem (refusal path rid err) out.1
  pub left : out.2.writer.substrate ≡ substrate
  pub logged : out.2.access_log ≡ lines

module _ {P : Type 0} (pk : Packages) (cs : Codecs) (h : Handlers P) (key : Option Text)
    (n : Notification) (p : Principal) (r : Request) (writer : ResponseWriter)
    (w : ServerWorld P) where
  -- An authenticated request whose body decodes to a notification that Accept refuses.
  pub submit_notification-IsRefused :
      (err : Error) (w' : WriterWorld P)
      → decode_body cs r (h.request_id r) ≡ inl n
      → from_context r ≡ some p
      → accept pk h.ingester (some (with_idempotency pk cs h key n)) p.service_name w.writer
        ≡ ((none, err), w')
      → is_nil err ≡ false
      → writer.sent ≡ none
      → IsRefused r.path
          (h.request_id r)
          err
          w'.substrate
          w.access_log
          (submit_notification pk cs h key r writer w)
  unfolding submit_notification finish answer
  submit_notification-IsRefused err w' decodes authed refused bad unsent =
      rw
        (
          decodes,
          submit_notification,
          submit_decoded_accepted pk cs h n key p r writer w authed,
          refused,
          bad,
        )
        (record {
          returned = refl;
          holds = write_ingest_error-HoldsProblem r (h.request_id r) err writer unsent;
          left = refl;
          logged = refl;
        })
