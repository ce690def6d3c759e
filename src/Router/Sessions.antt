-- ===== src/Router/Sessions.antt =====
-- The access log of internal/writer/httpserver/router.go, and the responses of its server, against what the
-- substrate acknowledged, over any sequence of requests.
use pulsar_notifcation_pipel.Base.{
  length, length-append, Option, Text, Bool, if◌then◌else◌, null, Option-cases, sym, ◌∙◌, some, ap,
  Bool-cases, ◌+◌, ◌==◌, ◌++◌, ℕ, List, [], ◌∷◌, inl, inr, refl, arith, ◌≡◌,
}
use mathlib.Core.List.{append-nil, append_assoc}
use pulsar_notifcation_pipel.Http.{
  Response, write_body, get_header, set_header, panicked, finished, Exit, write_header, new_writer,
  Request, ResponseWriter, Handler,
}
use pulsar_notifcation_pipel.Router.{
  request_id_key, choose_request_id, access_log_middleware, request_id_middleware,
  recover_middleware, root_handler, captured, request_id_from_context, log_access, recover_panic,
  Platform,
}
use pulsar_notifcation_pipel.Router.Balance.{IsQuiet, authed_IsBalanced}
use pulsar_notifcation_pipel.Handlers.Balance.{holds_202, IsBalanced, told}
use pulsar_notifcation_pipel.Auth.{Authenticator}
use pulsar_notifcation_pipel.Ingest.Counting.{Records}
use pulsar_notifcation_pipel.Handlers.{
  Handlers, Codecs, AccessLine, ServerWorld, submit_notification,
}
use pulsar_notifcation_pipel.Ingest.{Packages}

abbrev one_if : Bool → ℕ
one_if b = if b then 1 else 0

-- The lines of submissions that were accepted.
abbrev pub count_202 : List AccessLine → ℕ
count_202 [] = 0
count_202 (line ∷ lines) = one_if (line.status == 202) + count_202 lines

count_202-snoc :
    (lines : List AccessLine) (line : AccessLine)
    → count_202 (lines ++ line ∷ []) ≡ count_202 lines + one_if (line.status == 202)
count_202-snoc [] line = omega arith
count_202-snoc (first ∷ lines) line = omega (arith, count_202-snoc lines line)

-- The requests are served one after the other, each on a writer of its own: what was sent for each, and
-- the state after the last.
unfoldable pub serve_all :
    {P : Type 0}
    → Handler (ServerWorld P)
    → List Request
    → ServerWorld P
    → List (Option Response) × ServerWorld P
serve_all handler [] w = ([], w)
serve_all handler (r ∷ rs) w =
    let (exit, writer, w') = handler r new_writer w in
    let (sent, after) = serve_all handler rs w' in (writer.sent ∷ sent, after)

-- The identifiers that 202 responses tell, in order.
abbrev pub told_all : List (Option Response) → List Text
told_all [] = []
told_all (sent ∷ rest) = told sent ++ told_all rest

module _ {P : Type 0} (pf : Platform P) (a : Authenticator) (pk : Packages) (cs : Codecs)
    (h : Handlers P) (ids : P → List Text) (records : Records pk h.ingester.publisher ids)
    (quiet : IsQuiet pf.not_routed) where
  captured-holds_202 :
      (writer : ResponseWriter)
      → one_if (captured pf writer == 202) ≡ one_if (holds_202 writer.sent)
  captured-holds_202 writer = elim (Option-cases writer.sent) [
    | inl unsent ↦ rw unsent refl
    | inr (response, sent) ↦ rw sent refl
  ]

  -- One request, from w to the outcome: the substrate acknowledged what its response tells, and the
  -- log has a line with status 202 for it.
  abbrev IsTallied : ServerWorld P → Exit × ResponseWriter × ServerWorld P → Type 0
  IsTallied w out =
      (ids out.2.writer.substrate ≡ ids w.writer.substrate ++ told out.1.sent)
      × (count_202 out.2.access_log ≡ count_202 w.access_log + length (told out.1.sent))

  -- A balanced call, with its log line or its recovered panic.
  recorded-IsTallied :
      (r r' : Request) (w : ServerWorld P) (out : Exit × ResponseWriter × ServerWorld P)
      → IsBalanced ids w out
      → IsTallied w (recover_panic pf r (log_access pf r' out))
  unfolding recover_panic log_access write_body write_header set_header
  recorded-IsTallied r r' w (finished, writer, after) b =
      let line : AccessLine = record {
        method = r'.method;
        path = r'.path;
        status = captured pf writer;
        request_id = request_id_from_context r';
      } in
      (
        b.counted,
        omega (
          arith,
          b.single,
          count_202-snoc after.access_log line,
          captured-holds_202 writer,
          ap count_202 b.unlogged,
        ),
      )
  recorded-IsTallied r r' w (panicked, writer, after) b =
      let unsent = b.unsent_panic refl in
      (rw unsent (rw unsent at b.counted), rw unsent (omega (arith, ap count_202 b.unlogged)))

  root_handler-IsTallied :
      (r : Request) (w : ServerWorld P)
      → IsTallied w (root_handler pf a (submit_notification pk cs h) r new_writer w)
  unfolding root_handler recover_middleware request_id_middleware access_log_middleware set_header
  root_handler-IsTallied r w =
      let rid = choose_request_id pf r w in
      let r' : Request = record r { request_id = some rid } in
      let writer = set_header request_id_key rid new_writer in
      elim (Bool-cases (null (get_header request_id_key r))) [
        | inl generated ↦ rw generated (
            recorded-IsTallied r r' (record w { generated_ids = w.generated_ids + 1 }) _
              (authed_IsBalanced pf a pk cs h ids records quiet r' writer
                (record w { generated_ids = w.generated_ids + 1 }) refl))
        | inr own ↦ rw own (
            recorded-IsTallied r r' w _
              (authed_IsBalanced pf a pk cs h ids records quiet r' writer w refl))
      ]

  -- Over any sequence of requests, by any callers, to any paths: the messages that the substrate
  -- acknowledges are, in order, those whose identifiers were told in 202 responses, and the access
  -- log has one line more with status 202 for each of them; for a record of the substrate that gets
  -- the identifier of each marshalled notification whose publication returns no error, and an
  -- answer where no route matches that leaves the state alone and is no 202.
  pub serve_all-tallies :
      (rs : List Request) (w : ServerWorld P)
      → let (responses, after) = serve_all (root_handler pf a (submit_notification pk cs h)) rs w in
        (ids after.writer.substrate ≡ ids w.writer.substrate ++ told_all responses)
        × (count_202 after.access_log ≡ count_202 w.access_log + length (told_all responses))
  unfolding serve_all
  serve_all-tallies [] w = (sym (append-nil _), omega arith)
  serve_all-tallies (r ∷ rs) w =
      let out = root_handler pf a (submit_notification pk cs h) r new_writer w in
      let (recorded, logged) = root_handler-IsTallied r w in
      let (responses, after) =
        serve_all (root_handler pf a (submit_notification pk cs h)) rs out.2 in
      let (rest, rest_logged) = serve_all-tallies rs out.2 in
      let grown : count_202 after.access_log
          ≡ count_202 w.access_log + length (told out.1.sent ++ told_all responses) =
        omega (arith, logged, rest_logged, length-append (told out.1.sent) (told_all responses)) in
      (
        rest
            ∙ ap (λ xs. xs ++ told_all responses) recorded
            ∙ append_assoc (ids w.writer.substrate) _ _,
        grown,
      )
