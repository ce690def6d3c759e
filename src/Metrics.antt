-- ===== src/Metrics.antt =====
-- internal/metrics/metrics.go: what the recording helpers add to the instruments. An instrument is
-- the list of its measurements, oldest first, each with its attributes.
pub mod Registration
use pulsar_notifcation_pipel.Base.{
  text_eq, ltb, if◌then◌else◌, ◌∷◌, ◌++◌, ◌+◌, ℕ, Text, List, [], ascii,
}
use pulsar_notifcation_pipel.Message.{Duration}

-- The label values of the outcome attribute.
abbrev pub outcome_accepted : Text
outcome_accepted = ascii "accepted"

abbrev pub outcome_validation_failed : Text
outcome_validation_failed = ascii "validation_failed"

abbrev pub outcome_auth_failed : Text
outcome_auth_failed = ascii "auth_failed"

abbrev pub outcome_substrate_unavailable : Text
outcome_substrate_unavailable = ascii "substrate_unavailable"

abbrev pub outcome_internal : Text
outcome_internal = ascii "internal"

-- The label values of the result_class attribute.
abbrev pub result_success : Text
result_success = ascii "success"

abbrev pub result_transient : Text
result_transient = ascii "transient"

abbrev pub result_permanent : Text
result_permanent = ascii "permanent"

pub record OutcomeAttrs : Type 0 where
  pub status : Text
  pub reason : Text
  pub provider : Text

-- The instruments of the writer and of the deliverer. A duration stands in nanoseconds, which the
-- code hands over as float seconds.
pub record Instruments : Type 0 where
  pub writer_submissions : List (Text × Text)
  pub writer_submit_dur : List (Duration × Text × Text)
  pub writer_publish_dur : List Duration
  pub deliverer_consumed : ℕ
  pub deliverer_outcomes : List OutcomeAttrs
  pub deliverer_provider_dur : List (Duration × Text × Text)
  pub deliverer_attempts : List (ℕ × Text × Text)
  pub deliverer_decrypt_failed : ℕ

abbrev pub no_measurements : Instruments
no_measurements = record {
  writer_submissions = [];
  writer_submit_dur = [];
  writer_publish_dur = [];
  deliverer_consumed = 0;
  deliverer_outcomes = [];
  deliverer_provider_dur = [];
  deliverer_attempts = [];
  deliverer_decrypt_failed = 0;
}

unfoldable pub record_writer_submission : Text → Text → Duration → Instruments → Instruments
record_writer_submission outcome service_name duration m = record m {
  writer_submissions = m.writer_submissions ++ (outcome, service_name) ∷ [];
  writer_submit_dur = m.writer_submit_dur ++ (duration, outcome, service_name) ∷ [];
}

unfoldable pub record_publish_duration : Duration → Instruments → Instruments
record_publish_duration duration m = record m {
  writer_publish_dur = m.writer_publish_dur ++ duration ∷ [];
}

unfoldable pub record_consumed : Instruments → Instruments
record_consumed m = record m { deliverer_consumed = m.deliverer_consumed + 1 }

unfoldable pub record_outcome : Text → Text → Text → ℕ → Instruments → Instruments
record_outcome status reason provider attempts m = record m {
  deliverer_outcomes =
      m.deliverer_outcomes ++ record { status = status; reason = reason; provider = provider } ∷ [];
  deliverer_attempts =
      if ltb 0 attempts
      then m.deliverer_attempts ++ (attempts, status, provider) ∷ []
      else m.deliverer_attempts;
  deliverer_decrypt_failed =
      if text_eq reason (ascii "encryption-policy-violation")
      then m.deliverer_decrypt_failed + 1
      else m.deliverer_decrypt_failed;
}

unfoldable pub record_provider_attempt : Text → Text → Duration → Instruments → Instruments
record_provider_attempt provider result_class duration m = record m {
  deliverer_provider_dur = m.deliverer_provider_dur ++ (duration, provider, result_class) ∷ [];
}
