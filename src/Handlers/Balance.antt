-- ===== src/Handlers/Balance.antt =====
-- What one call of `SubmitNotification` of internal/writer/httpserver/handlers.go adds to the messages
-- that the substrate acknowledged, by the response that it sends.
use pulsar_notifcation_pipel.Base.{
  length, if◌then◌else◌, ◌++◌, List, ◌∷◌, Option-cases, ap, ◌∙◌, [], sym, Bool-cases, is_some,
  Option, true, inl, inr, ◌==◌, none, some, Bool, false, refl, arith, ◌≡◌, Text,
}
use mathlib.Core.List.{append-nil}
use pulsar_notifcation_pipel.Ingest.Counting.{accept-accepted_ids, Records, accepted_ids}
use pulsar_notifcation_pipel.Ingest.Accept.{accept-some}
use pulsar_notifcation_pipel.Handlers.Accepting.{submit_decoded_accepted}
use pulsar_notifcation_pipel.Problems.{
  unsupported_content_type, validation_failed, authentication_required,
}
use pulsar_notifcation_pipel.Handlers.{
  with_idempotency, decoded, decode_body, submit_decoded, submit_notification, write_ingest_error,
  Request, answer, Problem, finish, Handlers, Codecs, ServerWorld,
}
use pulsar_notifcation_pipel.Auth.{from_context}
use pulsar_notifcation_pipel.Handlers.Responses.{decode_cases}
use pulsar_notifcation_pipel.Http.Writing.{write_success-sent, write_problem-sent}
use pulsar_notifcation_pipel.GoError.{is_nil, Error}
use pulsar_notifcation_pipel.Ingest.{AcceptResult, Packages}
use pulsar_notifcation_pipel.Handlers.Refusing.{
  write_ingest_error-HoldsProblem, refusal, refusal-keeps,
}
use mathlib.Core.Bool.{true≢false}
use pulsar_notifcation_pipel.Http.{
  Response, Body, success_body, write_problem, panicked, finished, ResponseWriter, Exit,
}

-- Whether what was sent is a 202.
abbrev pub holds_202 : Option Response → Bool
holds_202 none = false
holds_202 (some response) = response.status == 202

-- The identifier in a success envelope.
abbrev pub ids_in : List Body → List Text
ids_in (success_body d rid ∷ []) = d.notification_id ∷ []
ids_in _ = []

-- The identifier that a 202 response tells the caller.
abbrev pub told : Option Response → List Text
told none = []
told (some response) = if response.status == 202 then ids_in response.bodies else []

-- A call that started from w had one message acknowledged under the identifier that its 202 response
-- tells, and none if it sent no such response; it left the access log alone; if it panicked, nothing
-- was sent.
pub record IsBalanced {P : Type 0} (ids : P → List Text) (w : ServerWorld P)
    (out : Exit × ResponseWriter × ServerWorld P) : Type 0 where
  pub counted : ids out.2.writer.substrate ≡ ids w.writer.substrate ++ told out.1.sent
  pub single : length (told out.1.sent) ≡ (if holds_202 out.1.sent then 1 else 0)
  pub unlogged : out.2.access_log ≡ w.access_log
  pub unsent_panic : out.0 ≡ panicked → out.1.sent ≡ none

decode_body-other :
    (cs : Codecs) (r : Request) (rid : Text) (p : Problem)
    → decode_body cs r rid ≡ inr p
    → (p.status == 202) ≡ false
unfolding decode_body decoded validation_failed unsupported_content_type
decode_body-other cs r rid p e = ground arith

pub finished-apart : ¬ (finished ≡ panicked)
finished-apart = ground arith

module _ {P : Type 0} (pk : Packages) (cs : Codecs) (h : Handlers P) (ids : P → List Text)
    (records : Records pk h.ingester.publisher ids) where
  -- A problem leaves the substrate alone.
  finish_problem-IsBalanced :
      (label service : Text) (p : Problem) (writer : ResponseWriter) (w : ServerWorld P)
      → writer.sent ≡ none
      → (p.status == 202) ≡ false
      → IsBalanced ids w (finish pk cs h label service (write_problem p writer) w)
  unfolding finish
  finish_problem-IsBalanced label service p writer w unsent other = record {
    counted = rw (write_problem-sent p writer unsent, other) (sym (append-nil _));
    single = rw (write_problem-sent p writer unsent, other) refl;
    unlogged = refl;
    unsent_panic = λ e. absurd (finished-apart e);
  }

  -- So does the document of an error of Accept.
  finish_refusal-IsBalanced :
      (r : Request) (rid label service : Text) (err : Error) (writer : ResponseWriter)
      (w : ServerWorld P)
      → writer.sent ≡ none
      → IsBalanced ids w (finish pk cs h label service (write_ingest_error r rid err writer) w)
  unfolding finish
  finish_refusal-IsBalanced r rid label service err writer w unsent =
      let (headers, sent) = write_ingest_error-HoldsProblem r rid err writer unsent in
      let over = (refusal-keeps r.path rid err).1 in
      let other : ((refusal r.path rid err).status == 202) ≡ false = ground arith in
      record {
        counted = rw (sent, other) (sym (append-nil _));
        single = rw (sent, other) refl;
        unlogged = refl;
        unsent_panic = λ e. absurd (finished-apart e);
      }

  -- From a state with the same identifiers and log.
  from_same :
      (w w' : ServerWorld P) (out : Exit × ResponseWriter × ServerWorld P)
      → ids w'.writer.substrate ≡ ids w.writer.substrate
      → w'.access_log ≡ w.access_log
      → IsBalanced ids w' out
      → IsBalanced ids w out
  from_same w w' out same_ids same b = record {
    counted = b.counted ∙ ap (λ xs. xs ++ told out.1.sent) same_ids;
    single = b.single;
    unlogged = b.unlogged ∙ same;
    unsent_panic = b.unsent_panic;
  }

  -- What Accept acknowledged from w on is what the answer says.
  answer-IsBalanced :
      (r : Request) (rid service : Text) (res : Option AcceptResult × Error)
      (writer : ResponseWriter) (w w' : ServerWorld P)
      → (is_nil res.1 ≡ true → is_some res.0 ≡ true)
      → ids w'.writer.substrate ≡ ids w.writer.substrate ++ accepted_ids res
      → w'.access_log ≡ w.access_log
      → writer.sent ≡ none
      → IsBalanced ids w (answer pk cs h r rid service res writer w')
  unfolding answer finish
  answer-IsBalanced r rid service (none, err) writer w w' found counted same unsent =
      elim (Bool-cases (is_nil err)) [
        | inl e ↦ absurd (true≢false (sym (found e)))
        | inr e ↦ rw e (
            from_same w w' _ (counted ∙ append-nil _) same
              (finish_refusal-IsBalanced r rid _ service err writer w' unsent))
      ]
  answer-IsBalanced r rid service (some res, err) writer w w' found counted same unsent =
      elim (Bool-cases (is_nil err)) [
        | inl e ↦ rw e (record {
          counted = rw (write_success-sent 202 rid _ writer unsent) (rw e at counted);
          single = rw (write_success-sent 202 rid _ writer unsent) refl;
          unlogged = same;
          unsent_panic = λ over. absurd (finished-apart over);
        })
        | inr e ↦ rw e (
            from_same w w' _ ((rw e at counted) ∙ append-nil _) same
              (finish_refusal-IsBalanced r rid _ service err writer w' unsent))
      ]

  -- Whatever the request is: the substrate acknowledged one message, under the identifier of the answer,
  -- if the answer is 202, and none otherwise.
  pub submit_notification-IsBalanced :
      (key : Option Text) (r : Request) (writer : ResponseWriter) (w : ServerWorld P)
      → writer.sent ≡ none
      → IsBalanced ids w (submit_notification pk cs h key r writer w)
  unfolding submit_notification submit_decoded authentication_required
  submit_notification-IsBalanced key r writer w unsent =
      elim (decode_cases (decode_body cs r (h.request_id r))) [
        | inr (p, e) ↦
            rw (e, submit_notification)
              (finish_problem-IsBalanced _ [] p writer w unsent
                (decode_body-other cs r (h.request_id r) p e))
        | inl (n, e) ↦ elim (Option-cases (from_context r)) [
          | inl anonymous ↦
              rw (e, anonymous, submit_notification, submit_decoded)
                (finish_problem-IsBalanced _ [] _ writer w unsent refl)
          | inr (p, authed) ↦
              let n' = with_idempotency pk cs h key n in
              rw (e, submit_notification, submit_decoded_accepted pk cs h n key p r writer w authed)
                (answer-IsBalanced r _ p.service_name _ writer w _
                  (accept-some pk h.ingester n' p.service_name w.writer)
                  (accept-accepted_ids pk h.ingester n' p.service_name w.writer ids records) refl
                  unsent)
        ]
      ]
