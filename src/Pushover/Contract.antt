-- ===== src/Pushover/Contract.antt =====
-- The Pushover provider keeps the contract of internal/deliverer/provider/provider.go.
use pulsar_notifcation_pipel.Message.{
  unknown, unset, pushover, Content, PushoverTarget, Target, Notification,
}
use pulsar_notifcation_pipel.Pushover.{
  response, PushoverResp, no_response, HttpReturn, push, push_to, read_response, send_form,
  Provider, classify, Http,
}
use pulsar_notifcation_pipel.Base.{
  Text, Option, ℕ, none, some, inr, inl, ascii, ◌++◌, Bool-cases, arith,
}
use pulsar_notifcation_pipel.GoError.{is_nil, as_transient_error, as_permanent_error}
use pulsar_notifcation_pipel.Provider.{KeepsContract}

classify-KeepsContract :
    (status : ℕ) (pr : PushoverResp) (snippet : Text) → KeepsContract (classify status pr snippet)
unfolding classify as_permanent_error as_transient_error
classify-KeepsContract status pr snippet = ground arith

module _ {S : Type 0} (http : Http S) (p : Provider) where
  read_response-KeepsContract : (ret : HttpReturn) → KeepsContract (read_response http p ret)
  unfolding read_response as_permanent_error as_transient_error
  read_response-KeepsContract (no_response err) = ground arith
  read_response-KeepsContract (response status body) = classify-KeepsContract status _ _

  send_form-KeepsContract :
      (t : PushoverTarget) (c : Content) (s : S) → KeepsContract (send_form http p t c s).0
  unfolding send_form as_permanent_error as_transient_error
  send_form-KeepsContract t c s =
      elim (Bool-cases (is_nil (http.request_error (p.base_url ++ ascii "/1/messages.json")))) [
        | inl ok ↦ rw ok (read_response-KeepsContract _)
        | inr bad ↦ rw bad (ground arith)
      ]

  push_to-KeepsContract :
      (t : Target) (c : Option Content) (s : S) → KeepsContract (push_to http p t c s).0
  unfolding push_to as_permanent_error as_transient_error
  push_to-KeepsContract (pushover (some t)) (some c) s = send_form-KeepsContract t c s
  push_to-KeepsContract (pushover (some t)) none s = ground arith
  push_to-KeepsContract (pushover none) c s = ground arith
  push_to-KeepsContract unset c s = ground arith
  push_to-KeepsContract unknown c s = ground arith

  -- Every call of Push returns either a result and no error, or no result and an error that wraps a
  -- PermanentError or a TransientError, whatever the network answers.
  pub push-KeepsContract : (n : Notification) (s : S) → KeepsContract (push http p n s).0
  unfolding push
  push-KeepsContract n s = push_to-KeepsContract n.target n.content s
