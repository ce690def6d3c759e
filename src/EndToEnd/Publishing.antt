-- ===== src/EndToEnd/Publishing.antt =====
-- What a caller of pkg/notificationclient gets for a submission that the writer accepts, and what the
-- substrate is given.
use pulsar_notifcation_pipel.Base.{
  length-append, sym, ◌∙◌, ap, ◌+◌, length, subst, [], ◌∷◌, some, text_eq, inl, refl, ◌≡◌, Text,
  ascii,
}
use pulsar_notifcation_pipel.EndToEnd.Submission.{
  server_request-decodes, server_request-BindsKey, server_request-authenticated, bound_key,
  client_request, with_idempotency-keyed, server_request, IsTransmitted, assigned_request_id,
  IsClientOf, assigned_time, assigned_id,
}
use pulsar_notifcation_pipel.NotificationClient.{
  answer_of, SubmitResponse, Transport, parse_response,
}
use pulsar_notifcation_pipel.NotificationClient.Posting.{submit_request-posted, keyed}
use pulsar_notifcation_pipel.Router.Submission.{identified_request}
use pulsar_notifcation_pipel.Auth.Bearer.{authenticate}
use pulsar_notifcation_pipel.EndToEnd.{IsConnected, writer_handler, Connection}
use pulsar_notifcation_pipel.Router.Accepting.{root_handler-IsAnswered, handlers, IsAnswered}
use pulsar_notifcation_pipel.NotificationClient.Submission.{submit_request, Client}
use pulsar_notifcation_pipel.Http.{
  success_body, SubmitData, new_writer, ResponseWriter, Exit, Principal,
}
use pulsar_notifcation_pipel.Handlers.{Handlers, ServerWorld}
use pulsar_notifcation_pipel.GoError.{nil}
use pulsar_notifcation_pipel.GeneratedClient.{Reply, HttpPackages}
use pulsar_notifcation_pipel.Ingest.Accept.{IsAcceptable, input}
use pulsar_notifcation_pipel.Pulsarlib.{PublishInput}
use pulsar_notifcation_pipel.Message.{Notification}

parse_response_success :
    (tr : Transport) (reply : Reply) (env : SubmitResponse)
    → reply.status ≡ 202
    → reply.body_err ≡ nil
    → tr.unmarshal_envelope reply.body ≡ (env, nil)
    → parse_response tr reply ≡ inl env
unfolding parse_response
parse_response_success tr reply env status read decodes = rw (status, read, decodes) refl

module _ {U P : Type 0} (conn : Connection P) (tr : Transport) (hp : HttpPackages U)
    (c : Client (ServerWorld P)) (n : Notification) (key : Text) (p : Principal)
    (w : ServerWorld P) where
  -- The writer's answer to the client's request.
  abbrev written : Exit × ResponseWriter × ServerWorld P
  written = writer_handler conn (server_request conn tr hp c n key p w) new_writer w

  -- The data of the accepted submission, as the client returns it.
  abbrev pub receipt : SubmitResponse
  receipt = record {
    notification_id = assigned_id conn tr hp c n key p w;
    accepted_text = assigned_time conn tr hp c n key p w;
    request_id = assigned_request_id conn tr hp c n key p w;
  }

  -- The one message of the submission.
  abbrev pub published_input : PublishInput
  published_input = input conn.packages conn.ingester (keyed tr hp c key n) p.service_name w.writer

  written-IsAnswered :
      IsClientOf conn tr hp c n key p w
      → IsTransmitted conn tr hp c n key p w
      → IsAcceptable conn.packages conn.ingester (keyed tr hp c key n) p.service_name w.writer
      → IsAnswered conn.platform conn.packages conn.codecs conn.ingester
          (keyed tr hp c key n)
          p.service_name
          (server_request conn tr hp c n key p w)
          w
          written
  unfolding text_eq ascii
  written-IsAnswered ok sent acceptable =
      let pf = conn.platform in
      let h : Handlers P = handlers pf conn.packages conn.codecs conn.ingester in
      let m = keyed tr hp c key n in
      let r = server_request conn tr hp c n key p w in
      let same = with_idempotency-keyed conn tr hp c n key p w h in
      subst
        (λ m'. IsAnswered pf conn.packages conn.codecs conn.ingester m' p.service_name r w written)
        same
        (root_handler-IsAnswered pf conn.packages conn.codecs conn.ingester
          (authenticate conn.tokens) r (bound_key conn tr hp c n key p w) m p w (rw ok.route refl)
          (rw ok.route refl) refl
          (server_request-authenticated conn tr hp c n key p w (identified_request pf r w) refl ok)
          (server_request-BindsKey conn tr hp c n key p w sent)
          (server_request-decodes conn tr hp c n key p w _ ok sent)
          (subst (λ m'. IsAcceptable conn.packages conn.ingester m' p.service_name w.writer)
            (sym same) acceptable))

  -- Where the client's Do reaches the writer's handler, the codecs of the notification and of the
  -- envelope bring back what they were given, and Accept takes the client's notification for the
  -- service of the client's token: Submit gives the identifier, the time and the request
  -- identifier that the writer assigned, the writer's substrate is as one call of Publish with
  -- that identifier and the stamped notification left it, and the access log got one line more.
  pub submit_request_published :
      IsConnected conn
      → IsClientOf conn tr hp c n key p w
      → IsTransmitted conn tr hp c n key p w
      → IsAcceptable conn.packages conn.ingester (keyed tr hp c key n) p.service_name w.writer
      → ((d : SubmitData) (rid : Text)
          → tr.unmarshal_envelope (conn.encode_body (success_body d rid)) ≡ (
            record {
              notification_id = d.notification_id;
              accepted_text = d.accepted_at;
              request_id = rid;
            },
            nil,
          ))
      → (w' : ServerWorld P) × (submit_request tr hp c (some n) key w ≡ (inl receipt, w'))
        × (w'.writer.substrate
            ≡ (conn.ingester.publisher.publish published_input w.writer.substrate).1)
        × (length w'.access_log ≡ length w.access_log + 1)
  unfolding answer_of
  submit_request_published connected ok sent acceptable envelope =
      let out = written-IsAnswered ok sent acceptable in
      let r = client_request conn tr hp c n key p w in
      let (reply, done, status, body, read) = connected r w _ _ out.returned out.sent refl in
      let parsed =
        parse_response_success tr reply receipt status read
          (ap tr.unmarshal_envelope body ∙ envelope _ _) in
      let asked = ap (λ f. f r w) ok.connected ∙ done in
      (
        written.2,
        submit_request-posted tr hp c key n w ok.reach sent.styled ok.plain ok.supported
              sent.marshals
            ∙ ap (λ x. (answer_of tr x.0, x.1)) asked
            ∙ ap (λ x. (x, written.2)) parsed,
        out.published,
        ap length out.logged ∙ length-append w.access_log (_ ∷ []),
      )
