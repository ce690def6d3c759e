-- ===== src/Router/Balance.antt =====
-- The part of internal/writer/httpserver/router.go behind the access log: what one request adds to the
-- messages that the substrate acknowledged, against its response.
use pulsar_notifcation_pipel.Base.{
  Option, Text, sym, ◌∙◌, some, ap, ◌&&◌, text_eq, Bool-cases, ◌++◌, List, [], none, false, inl,
  inr, refl, ◌≡◌, ascii,
}
use mathlib.Core.List.{append-nil}
use pulsar_notifcation_pipel.Http.{
  Response, panicked, finished, Exit, write_header, Request, ResponseWriter, Handler,
}
use pulsar_notifcation_pipel.Router.{
  wrapper, request_id_from_context, conditional_auth, route, wrapped, Platform,
}
use pulsar_notifcation_pipel.Handlers.Balance.{
  holds_202, submit_notification-IsBalanced, IsBalanced, told, finished-apart,
}
use pulsar_notifcation_pipel.Http.Writing.{write_problem-sent}
use pulsar_notifcation_pipel.GoError.{err_no_credentials, errors_is, is_nil}
use pulsar_notifcation_pipel.Problems.{authentication_failed, authentication_required}
use pulsar_notifcation_pipel.Auth.{middleware, Authenticator}
use pulsar_notifcation_pipel.GeneratedServer.Wrapper.{report}
use pulsar_notifcation_pipel.Ingest.Counting.{Records}
use pulsar_notifcation_pipel.Handlers.{Handlers, Codecs, ServerWorld, submit_notification}
use pulsar_notifcation_pipel.Ingest.{Packages}
use pulsar_notifcation_pipel.GeneratedServer.Binding.{wrapped_submit_notification-IsRunOrReported}

-- The answer where no route matches publishes nothing, logs nothing, returns, and is no 202.
abbrev pub IsQuiet : {P : Type 0} → Handler (ServerWorld P) → Type 0
IsQuiet {P} handler =
    (r : Request) (writer : ResponseWriter) (w : ServerWorld P)
    → writer.sent ≡ none
    → ((handler r writer w).2 ≡ w)
      × (holds_202 (handler r writer w).1.sent ≡ false)
      × ((handler r writer w).0 ≡ finished)

told-other : (sent : Option Response) → holds_202 sent ≡ false → told sent ≡ []
told-other none e = refl
told-other (some response) e = rw e refl

-- A call that sent no 202 and left the state alone.
untouched-IsBalanced :
    {P : Type 0} (ids : P → List Text) (w : ServerWorld P)
    (out : Exit × ResponseWriter × ServerWorld P)
    → out.2.writer.substrate ≡ w.writer.substrate
    → out.2.access_log ≡ w.access_log
    → holds_202 out.1.sent ≡ false
    → (out.0 ≡ panicked → out.1.sent ≡ none)
    → IsBalanced ids w out
untouched-IsBalanced ids w out same unlogged other unsent_panic =
    let untold = told-other out.1.sent other in
    record {
      counted =
          ap ids same ∙ sym (append-nil _) ∙ ap (λ xs. ids w.writer.substrate ++ xs) (sym untold);
      single = rw (untold, other) refl;
      unlogged = unlogged;
      unsent_panic = unsent_panic;
    }

module _ {P : Type 0} (pf : Platform P) (a : Authenticator) (pk : Packages) (cs : Codecs)
    (h : Handlers P) (ids : P → List Text) (records : Records pk h.ingester.publisher ids)
    (quiet : IsQuiet pf.not_routed) where
  wrapped-IsBalanced :
      (r : Request) (writer : ResponseWriter) (w : ServerWorld P)
      → writer.sent ≡ none
      → IsBalanced ids w (wrapped pf (submit_notification pk cs h) r writer w)
  unfolding wrapped report
  wrapped-IsBalanced r writer w unsent =
      elim (wrapped_submit_notification-IsRunOrReported pf.bind_parameter
        (wrapper pf (submit_notification pk cs h)) r writer w) [
          | inl (params, binds, run) ↦ rw run (
              submit_notification-IsBalanced pk cs h ids records params.idempotency_key r writer w
                unsent)
          | inr (err, unbound, reported) ↦
              rw reported (untouched-IsBalanced ids w _ refl refl (rw unsent refl) (λ e. unsent))
        ]

  route-IsBalanced :
      (r : Request) (writer : ResponseWriter) (w : ServerWorld P)
      → writer.sent ≡ none
      → IsBalanced ids w (route pf (submit_notification pk cs h) r writer w)
  unfolding route write_header
  route-IsBalanced r writer w unsent = elim (Bool-cases (text_eq r.path (ascii "/healthz"))) [
    | inl probe ↦
        rw (probe, unsent)
          (untouched-IsBalanced ids w _ refl refl refl (λ e. absurd (finished-apart e)))
    | inr elsewhere ↦
        elim (Bool-cases
          (text_eq r.path (ascii "/notifications") && text_eq r.method (ascii "POST"))) [
            | inl submission ↦ rw (elsewhere, submission) (wrapped-IsBalanced r writer w unsent)
            | inr other ↦
                let (same, refused, returned) = quiet r writer w unsent in
                rw (elsewhere, other)
                  (untouched-IsBalanced ids w _ (ap (λ x. x.writer.substrate) same)
                    (ap (λ x. x.access_log) same) refused
                    (λ e. absurd (finished-apart (sym returned ∙ e))))
          ]
  ]

  -- Behind the authentication.
  pub authed_IsBalanced :
      (r : Request) (writer : ResponseWriter) (w : ServerWorld P)
      → writer.sent ≡ none
      → IsBalanced ids w (
          conditional_auth pf
            (route pf (submit_notification pk cs h))
            (middleware a (route pf (submit_notification pk cs h)) (some request_id_from_context))
            r
            writer
            w)
  unfolding conditional_auth middleware authentication_required authentication_failed
  authed_IsBalanced r writer w unsent = elim (Bool-cases (text_eq r.path (ascii "/healthz"))) [
    | inl probe ↦ rw probe (route-IsBalanced r writer w unsent)
    | inr elsewhere ↦ elim (Bool-cases (is_nil (a r).1)) [
      | inl ok ↦
          rw (elsewhere, ok)
            (let b = route-IsBalanced (record r { principal = some (a r).0 }) writer w unsent in
              record {
                counted = b.counted;
                single = b.single;
                unlogged = b.unlogged;
                unsent_panic = b.unsent_panic;
              })
      | inr bad ↦ elim (Bool-cases (errors_is (a r).1 err_no_credentials)) [
        | inl missing ↦
            rw (elsewhere, bad, missing)
              (untouched-IsBalanced ids w _ refl refl (rw (write_problem-sent _ writer unsent) refl)
                (λ e. absurd (finished-apart e)))
        | inr wrong ↦
            rw (elsewhere, bad, wrong)
              (untouched-IsBalanced ids w _ refl refl (rw (write_problem-sent _ writer unsent) refl)
                (λ e. absurd (finished-apart e)))
      ]
    ]
  ]
