-- ===== src/EndToEnd/Refusal.antt =====
-- What a caller of pkg/notificationclient gets for a submission that the writer refuses.
use pulsar_notifcation_pipel.Base.{
  length-append, sym, ◌+◌, ◌∙◌, ap, length, ◌↔◌, Option-cases, ltb, ◌&&◌, leb, [], ◌∷◌, Option,
  none, some, true, false, inl, refl, text_eq, ◌≤◌, inr, arith, ◌≡◌, Text, ascii,
}
use pulsar_notifcation_pipel.GoError.{
  validation_error, is_nil, as_publish_error, as_validation_error, Error, nil,
}
use pulsar_notifcation_pipel.Ingest.Accept.{accept_invalid}
use pulsar_notifcation_pipel.Validation.{validate}
use pulsar_notifcation_pipel.NotificationClient.{
  err_validation_failed, Category, ProblemError, answer_of, problem_error, Transport,
  decode_problem, parse_response, sentinel_for,
}
use pulsar_notifcation_pipel.Validation.Spec.{IsValid}
use pulsar_notifcation_pipel.EndToEnd.Submission.{
  server_request-decodes, server_request-BindsKey, server_request-authenticated, bound_key,
  with_idempotency-keyed, assigned_request_id, client_request, IsTransmitted, IsClientOf,
  server_request,
}
use pulsar_notifcation_pipel.Router.Submission.{identified_request}
use pulsar_notifcation_pipel.NotificationClient.Errors.{submit_error_is_iff, submit_error_is}
use pulsar_notifcation_pipel.Auth.Bearer.{authenticate}
use pulsar_notifcation_pipel.Http.{new_writer, problem_body, Principal, Exit, ResponseWriter}
use pulsar_notifcation_pipel.EndToEnd.{IsConnected, writer_handler, Connection}
use pulsar_notifcation_pipel.Handlers.{ServerWorld, Handlers, outcome_for_ingest_error}
use pulsar_notifcation_pipel.NotificationClient.Posting.{submit_request-posted, keyed}
use pulsar_notifcation_pipel.Router.Refusing.{root_handler-IsDeclined, IsDeclined}
use pulsar_notifcation_pipel.Ingest.{accept, AcceptResult, WriterWorld}
use pulsar_notifcation_pipel.NotificationClient.Submission.{submit_request, Client}
use pulsar_notifcation_pipel.NotificationClient.Categories.{category_of, wire_of}
use pulsar_notifcation_pipel.Handlers.Refusing.{refusal, violations, refusal-keeps}
use pulsar_notifcation_pipel.Router.Accepting.{handlers}
use pulsar_notifcation_pipel.Message.{Notification}
use pulsar_notifcation_pipel.GeneratedClient.{HttpPackages, Reply}
use pulsar_notifcation_pipel.Base.Int.{pos}
use pulsar_notifcation_pipel.Problems.{internal, Problem, substrate_unavailable, validation_failed}

-- An error status gives a problem, whose fields are the document's.
parse_response_problem :
    (tr : Transport) (reply : Reply) (p : Problem)
    → reply.status ≡ p.status
    → reply.body_err ≡ nil
    → 400 ≤ p.status
    → tr.unmarshal_problem reply.body ≡ wire_of p
    → parse_response tr reply ≡ inr (problem_error (decode_problem (wire_of p) p.status))
unfolding parse_response
parse_response_problem tr reply p status unread bad decodes =
    let over : (leb 200 p.status && ltb p.status 300) ≡ false = ground arith in
    rw (unread, status, over, decodes) refl

decode_problem-keeps :
    (p : Problem)
    → 400 ≤ p.status
    → let seen = decode_problem (wire_of p) p.status in
      (seen.status ≡ pos p.status) × (seen.request_id ≡ p.request_id) × (seen.fields ≡ p.errors)
unfolding decode_problem
decode_problem-keeps p bad = ground arith

refusal-category :
    (path rid : Text) (err : Error)
    → sentinel_for (refusal path rid err).type_uri ≡ category_of (outcome_for_ingest_error err)
unfolding sentinel_for validation_failed substrate_unavailable internal outcome_for_ingest_error
    text_eq ascii
refusal-category path rid err = elim (Option-cases (as_validation_error err)) [
  | inr (fields, e) ↦ rw (e, refusal, outcome_for_ingest_error) refl
  | inl e ↦ elim (Option-cases (as_publish_error err)) [
    | inl f ↦ rw (e, f, refusal, outcome_for_ingest_error) refl
    | inr (true, f) ↦ rw (e, f, refusal, outcome_for_ingest_error) refl
    | inr (false, f) ↦ rw (e, f, refusal, outcome_for_ingest_error) refl
  ]
]

module _ {U P : Type 0} (conn : Connection P) (tr : Transport) (hp : HttpPackages U)
    (c : Client (ServerWorld P)) (n : Notification) (key : Text) (p : Principal)
    (w : ServerWorld P) where
  abbrev written : Exit × ResponseWriter × ServerWorld P
  written = writer_handler conn (server_request conn tr hp c n key p w) new_writer w

  -- Accept on the client's notification.
  abbrev pub accepted : (Option AcceptResult × Error) × WriterWorld P
  accepted = accept conn.packages conn.ingester (some (keyed tr hp c key n)) p.service_name w.writer

  -- Submit returned a problem for the error: with the category that belongs to it, its violations, its
  -- status and the identifier of the request; the substrate is as Accept left it, and the access log
  -- got one line more.
  pub record IsToldOf (err : Error) (substrate : P) : Type 0 where
    pub seen : ProblemError
    pub after : ServerWorld P
    pub returned : submit_request tr hp c (some n) key w ≡ (inr (problem_error seen), after)
    pub category_is :
        (target : Category)
        → (submit_error_is (problem_error seen) target ≡ true)
          ↔ (target ≡ category_of (outcome_for_ingest_error err))
    pub fields_are : seen.fields ≡ violations err
    pub request_is : seen.request_id ≡ assigned_request_id conn tr hp c n key p w
    pub left : after.writer.substrate ≡ substrate
    pub logged : length after.access_log ≡ length w.access_log + 1

  written-IsDeclined :
      (err : Error) (w' : WriterWorld P)
      → IsClientOf conn tr hp c n key p w
      → IsTransmitted conn tr hp c n key p w
      → accepted ≡ ((none, err), w')
      → is_nil err ≡ false
      → IsDeclined conn.platform (server_request conn tr hp c n key p w) w err w'.substrate written
  unfolding text_eq ascii
  written-IsDeclined err w' ok sent refused bad =
      let pf = conn.platform in
      let h : Handlers P = handlers pf conn.packages conn.codecs conn.ingester in
      let r = server_request conn tr hp c n key p w in
      let same = with_idempotency-keyed conn tr hp c n key p w h in
      root_handler-IsDeclined pf conn.packages conn.codecs conn.ingester (authenticate conn.tokens)
        r (bound_key conn tr hp c n key p w) (keyed tr hp c key n) p w err w' (rw ok.route refl)
        (rw ok.route refl) refl
        (server_request-authenticated conn tr hp c n key p w (identified_request pf r w) refl ok)
        (server_request-BindsKey conn tr hp c n key p w sent)
        (server_request-decodes conn tr hp c n key p w _ ok sent)
        (ap (λ m. accept conn.packages conn.ingester (some m) p.service_name w.writer) same
          ∙ refused)
        bad

  -- Where the client's Do reaches the writer's handler and the codecs bring back what they were given,
  -- a submission that Accept refuses comes back from Submit as a problem for that error.
  pub submit_request-IsToldOf :
      (err : Error) (w' : WriterWorld P)
      → IsConnected conn
      → IsClientOf conn tr hp c n key p w
      → IsTransmitted conn tr hp c n key p w
      → accepted ≡ ((none, err), w')
      → is_nil err ≡ false
      → ((q : Problem) → tr.unmarshal_problem (conn.encode_body (problem_body q)) ≡ wire_of q)
      → IsToldOf err w'.substrate
  unfolding answer_of decode_problem
  submit_request-IsToldOf err w' connected ok sent refused bad codec =
      let out = written-IsDeclined err w' ok sent refused bad in
      let r = client_request conn tr hp c n key p w in
      let path = (server_request conn tr hp c n key p w).path in
      let rid = assigned_request_id conn tr hp c n key p w in
      let q = refusal path rid err in
      let (same_rid, over, fields) = refusal-keeps path rid err in
      let (kept_status, kept_rid, kept_fields) = decode_problem-keeps q over in
      let (reply, done, status, body, read) = connected r w _ _ out.returned out.holds.1 refl in
      let parsed =
        parse_response_problem tr reply q status read over
          (ap tr.unmarshal_problem body ∙ codec q) in
      let asked = ap (λ f. f r w) ok.connected ∙ done in
      record {
        seen = decode_problem (wire_of q) q.status;
        after = written.2;
        returned =
            submit_request-posted tr hp c key n w ok.reach sent.styled ok.plain ok.supported
              sent.marshals
            ∙ ap (λ x. (answer_of tr x.0, x.1)) asked
            ∙ ap (λ x. (x, written.2)) parsed;
        category_is = λ target.
            rw (sym (refusal-category path rid err))
              (submit_error_is_iff (decode_problem (wire_of q) q.status) target);
        fields_are = kept_fields ∙ fields;
        request_is = kept_rid ∙ same_rid;
        left = out.left;
        logged = ap length out.logged ∙ length-append w.access_log (_ ∷ []);
      }

  -- The instance for the rules of Validate: Submit of a notification that breaks one comes back as a
  -- problem that errors.Is knows as ErrValidationFailed and as no other category, with exactly the
  -- violations that Validate finds, and nothing is published.
  pub submit_request_invalid :
      IsConnected conn
      → IsClientOf conn tr hp c n key p w
      → IsTransmitted conn tr hp c n key p w
      → ((q : Problem) → tr.unmarshal_problem (conn.encode_body (problem_body q)) ≡ wire_of q)
      → ¬ IsValid conn.packages.is_abs_url (keyed tr hp c key n)
      → (seen : ProblemError) × (w' : ServerWorld P) × (submit_request tr hp c (some n) key w
          ≡ (inr (problem_error seen), w'))
        × ((target : Category)
            → (submit_error_is (problem_error seen) target ≡ true)
              ↔ (target ≡ err_validation_failed))
        × (validate conn.packages.is_abs_url (keyed tr hp c key n) ≡ some seen.fields)
        × (seen.request_id ≡ assigned_request_id conn tr hp c n key p w)
        × (w'.writer.substrate ≡ w.writer.substrate)
        × (length w'.access_log ≡ length w.access_log + 1)
  unfolding outcome_for_ingest_error text_eq ascii as_validation_error
  submit_request_invalid connected ok sent codec broken =
      let (fields, found, refused) =
        accept_invalid conn.packages conn.ingester (keyed tr hp c key n) p.service_name w.writer
          broken in
      let told =
        submit_request-IsToldOf (validation_error fields) w.writer connected ok sent refused refl
          codec in
      (
        told.seen,
        told.after,
        told.returned,
        told.category_is,
        found ∙ ap some (sym told.fields_are),
        told.request_is,
        told.left,
        told.logged,
      )
