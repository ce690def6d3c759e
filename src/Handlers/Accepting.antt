-- ===== src/Handlers/Accepting.antt =====
-- A submission that `SubmitNotification` of internal/writer/httpserver/handlers.go accepts.
use pulsar_notifcation_pipel.Base.{List, ◌∙◌, ap, Option, some, inl, refl, ◌≡◌, Text}
use pulsar_notifcation_pipel.Handlers.{
  AccessLine, accept, with_idempotency, decode_body, finish, finished, submit_decoded,
  submit_notification, ServerWorld, Request, answer, Handlers, Codecs,
}
use pulsar_notifcation_pipel.Ingest.{WriterWorld, AcceptResult, Ingester, Packages}
use pulsar_notifcation_pipel.Ingest.Accept.{
  accept-substrate, accept_iff, IsAcceptable, input, now, id,
}
use pulsar_notifcation_pipel.Auth.{from_context}
use pulsar_notifcation_pipel.Metrics.{outcome_accepted}
use pulsar_notifcation_pipel.Http.{write_success, Exit, ResponseWriter, Principal}
use pulsar_notifcation_pipel.GoError.{Error, nil}
use pulsar_notifcation_pipel.Message.{Notification}

-- The call returned, the writer `sent` with 202 the identifier and the time that the submission got,
-- under the request's identifier, and the substrate is as the one call of Publish left it.
pub record IsAccepted {P : Type 0} (pk : Packages) (cs : Codecs) (i : Ingester P) (n : Notification)
    (service rid : Text) (writer : ResponseWriter) (w : WriterWorld P) (lines : List AccessLine)
    (out : Exit × ResponseWriter × ServerWorld P) : Type 0 where
  pub returned : out.0 ≡ finished
  pub sent :
      out.1
      ≡ write_success 202 rid
          (record {
            notification_id = id pk i n service w;
            accepted_at = cs.format_time (now pk i n service w);
          })
          writer
  pub published :
      out.2.writer.substrate ≡ (i.publisher.publish (input pk i n service w) w.substrate).1
  pub logged : out.2.access_log ≡ lines

module _ {P : Type 0} (pk : Packages) (cs : Codecs) (h : Handlers P) where
  answer_accepted :
      (r : Request) (rid service : Text) (res : Option AcceptResult × Error) (result : AcceptResult)
      (writer : ResponseWriter) (w : ServerWorld P)
      → res ≡ (some result, nil)
      → answer pk cs h r rid service res writer w
        ≡ finish pk cs h outcome_accepted service
            (write_success 202 rid
              (record {
                notification_id = result.notification_id;
                accepted_at = cs.format_time result.accepted_at;
              })
              writer)
            w
  unfolding answer
  answer_accepted r rid service res result writer w e = rw e refl

  pub submit_decoded_accepted :
      (n : Notification) (key : Option Text) (p : Principal) (r : Request) (writer : ResponseWriter)
      (w : ServerWorld P)
      → from_context r ≡ some p
      → submit_decoded pk cs h n key r writer w ≡ (
          let n' = with_idempotency pk cs h key n in
          let (res, writer') = accept pk h.ingester (some n') p.service_name w.writer in
          answer pk cs h r
            (h.request_id r)
            p.service_name
            res
            writer
            (record w { writer = writer' }))
  unfolding submit_decoded
  submit_decoded_accepted n key p r writer w authed = simp (authed, submit_decoded)

  module _ (key : Option Text) (n : Notification) (p : Principal) (r : Request)
      (writer : ResponseWriter) (w : ServerWorld P) where
    -- An authenticated request whose body decodes to a notification that Accept takes is accepted.
    pub submit_notification-IsAccepted :
        decode_body cs r (h.request_id r) ≡ inl n
        → from_context r ≡ some p
        → IsAcceptable pk h.ingester (with_idempotency pk cs h key n) p.service_name w.writer
        → IsAccepted pk cs h.ingester
            (with_idempotency pk cs h key n)
            p.service_name
            (h.request_id r)
            writer
            w.writer
            w.access_log
            (submit_notification pk cs h key r writer w)
    unfolding submit_notification finish
    submit_notification-IsAccepted decodes authed ok =
        let n' = with_idempotency pk cs h key n in
        let accepted = (accept_iff pk h.ingester n' p.service_name w.writer).1 ok in
        let (res, writer') = accept pk h.ingester (some n') p.service_name w.writer in
        let e =
          answer_accepted r (h.request_id r) p.service_name res _ writer
            (record w { writer = writer' }) accepted in
        rw (decodes, submit_notification, submit_decoded_accepted n key p r writer w authed)
          (record {
            returned = ap (λ o. o.0) e;
            sent = ap (λ o. o.1) e;
            published =
                ap (λ o. o.2.writer.substrate) e
                ∙ accept-substrate pk h.ingester n' p.service_name w.writer ok;
            logged = ap (λ o. o.2.access_log) e;
          })
