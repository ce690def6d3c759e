-- ===== src/NotificationClient/Parsing.antt =====
-- Which responses pkg/notificationclient/response.go takes for a success, and which for a problem.
use pulsar_notifcation_pipel.Base.{◌↔◌, ◌<◌, ◌≤◌, true, inl, inr, arith, ◌≡◌}
use pulsar_notifcation_pipel.GeneratedClient.{Reply}
use pulsar_notifcation_pipel.NotificationClient.{
  decode_problem, problem_error, ProblemError, SubmitResponse, parse_response, Transport,
}
use pulsar_notifcation_pipel.GoError.{is_nil}

module _ (tr : Transport) (resp : Reply) where
  abbrev pub IsSuccessStatus : Type 0
  IsSuccessStatus = (200 ≤ resp.status) × (resp.status < 300)

  -- A response gives a success exactly if its body can be read, its status is 2xx and the envelope
  -- decodes, and then that envelope; it gives a problem exactly if its body can be read and its
  -- status is not 2xx, and then the decoded one.
  parse_response_iff :
      (env : SubmitResponse) (problem : ProblemError)
      → ((parse_response tr resp ≡ inl env) ↔ (
          (is_nil resp.body_err ≡ true)
          × IsSuccessStatus
          × ((tr.unmarshal_envelope resp.body).0 ≡ env)
          × (is_nil (tr.unmarshal_envelope resp.body).1 ≡ true)))
        × ((parse_response tr resp ≡ inr (problem_error problem)) ↔ (
            (is_nil resp.body_err ≡ true)
            × (¬ IsSuccessStatus)
            × (decode_problem (tr.unmarshal_problem resp.body) resp.status ≡ problem)))
  unfolding parse_response
  parse_response_iff env problem = ground arith
