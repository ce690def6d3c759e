-- ===== src/Examples/Provider.antt =====
-- Concrete runs of the Pushover provider.
use pulsar_notifcation_pipel.Base.{contains, to_lower, inl, refl, ◌+◌, ℕ, [], ◌∷◌, some, ◌≡◌, ascii}
use pulsar_notifcation_pipel.Pushover.Classification.{classify_table}
use pulsar_notifcation_pipel.Examples.Data.{note}
use pulsar_notifcation_pipel.GoError.{as_permanent_error, nil}
use pulsar_notifcation_pipel.Outcomes.{reason_provider_rejected_recipient}
use pulsar_notifcation_pipel.Pushover.Contract.{push-KeepsContract}
use pulsar_notifcation_pipel.Pushover.{response, classify, push, Http, Provider, PushoverResp}
use pulsar_notifcation_pipel.Base.Int.{pos}
use pulsar_notifcation_pipel.Provider.{KeepsContract}

abbrev network : Http ℕ
network = record {
  request_error = λ url. nil;
  send = λ request s. (response 500 (ascii "oops"), s + 1);
  unmarshal = λ body. record { status = pos 0; errors = []; info = [] };
}

abbrev account : Provider
account = record { app_token = ascii "app"; base_url = ascii "https://api.pushover.net" }

abbrev unknown_user : PushoverResp
unknown_user = record { status = pos 0; errors = ascii "User key is invalid" ∷ []; info = [] }

push-KeepsContract_example : KeepsContract (push network account note 0).0
push-KeepsContract_example = push-KeepsContract network account note 0

classify_table_example :
    as_permanent_error (classify 400 unknown_user (ascii "no")).1
    ≡ some (reason_provider_rejected_recipient, ascii "no")
unfolding to_lower contains ascii
classify_table_example =
    (classify_table 400 unknown_user (ascii "no") reason_provider_rejected_recipient).1.1
      (inl (refl, inl refl, refl))
