-- ===== src/Ingest/Accept.antt =====
-- What `Accept` of internal/writer/ingest/ingest.go does, on each of its ways out.
use pulsar_notifcation_pipel.Base.{
  is_some, Option-cases, ◌&&◌, is_none, ◌↔◌, if◌then◌else◌, List, none, some, true, inl, inr, refl,
  arith, ◌≡◌, Text,
}
use pulsar_notifcation_pipel.Metrics.{record_publish_duration}
use pulsar_notifcation_pipel.Ingest.{
  publish_body, submit, truncate_ms, accept, assign, WriterWorld, Ingester, Packages,
}
use pulsar_notifcation_pipel.Validation.Correct.{validate_iff}
use pulsar_notifcation_pipel.GoError.{is_nil, validation_error, nil, FieldError}
use pulsar_notifcation_pipel.Validation.{validate}
use pulsar_notifcation_pipel.Message.{Time, Notification}
use pulsar_notifcation_pipel.Validation.Spec.{IsValid}
use pulsar_notifcation_pipel.Pulsarlib.{PublishInput}

module _ {P : Type 0} (pk : Packages) (i : Ingester P) (n : Notification) (service : Text)
    (w : WriterWorld P) where
  -- The fields that the server gives to this submission.
  abbrev pub id : Text
  id = (i.id_fn w.id_calls).0

  abbrev pub now : Time
  now = truncate_ms (i.clock w.clock_reads)

  abbrev pub stamped : Notification
  stamped = assign id now service n

  -- The one call of the publisher that a valid submission makes.
  abbrev pub input : PublishInput
  input = record { body = (pk.marshal stamped).0; notification_id = id }

  pub accept_iff :
      ((accept pk i (some n) service w).0
        ≡ (some (record { notification_id = id; accepted_at = now }), nil))
      ↔ (IsValid pk.is_abs_url n
          × (is_nil (i.id_fn w.id_calls).1 ≡ true)
          × (is_nil (pk.marshal stamped).1 ≡ true)
          × (is_nil (i.publisher.publish input w.substrate).0 ≡ true))
  unfolding accept submit publish_body
  accept_iff = ground (arith, validate_iff pk.is_abs_url n)

  -- The publisher is called once, with the stamped notification under its identifier, if the
  -- notification is valid, has an identifier and can be marshalled; otherwise nothing is published.
  pub accept_publishes : (accept pk i (some n) service w).1.substrate ≡ (
      if is_none (validate pk.is_abs_url n)
        && is_nil (i.id_fn w.id_calls).1
        && is_nil (pk.marshal stamped).1
      then (i.publisher.publish input w.substrate).1
      else w.substrate)
  unfolding accept submit publish_body
  accept_publishes = ground arith

  -- An invalid notification comes back as a validation error with what Validate reports, and leaves
  -- the writer as it was.
  pub accept_invalid :
      ¬ IsValid pk.is_abs_url n
      → (fields : List FieldError) × (validate pk.is_abs_url n ≡ some fields)
        × (accept pk i (some n) service w ≡ ((none, validation_error fields), w))
  unfolding accept
  accept_invalid bad = elim (Option-cases (validate pk.is_abs_url n)) [
    | inl ok ↦ absurd (bad ((validate_iff pk.is_abs_url n).0 ok))
    | inr (fields, e) ↦ (fields, e, rw (e, accept) refl)
  ]

  -- A call of Accept that returns no error returns a result.
  pub accept-some :
      is_nil (accept pk i (some n) service w).0.1 ≡ true
      → is_some (accept pk i (some n) service w).0.0 ≡ true
  unfolding accept submit publish_body
  accept-some ok = ground arith

  -- Accept leaves the counter of submissions alone.
  pub accept-submissions :
      (accept pk i (some n) service w).1.instruments.writer_submissions
      ≡ w.instruments.writer_submissions
  unfolding accept submit publish_body record_publish_duration
  accept-submissions = ground arith

  -- What it takes for Accept to succeed.
  abbrev pub IsAcceptable : Type 0
  IsAcceptable =
      IsValid pk.is_abs_url n
      × (is_nil (i.id_fn w.id_calls).1 ≡ true)
      × (is_nil (pk.marshal stamped).1 ≡ true)
      × (is_nil (i.publisher.publish input w.substrate).0 ≡ true)

  pub accept-substrate :
      IsAcceptable
      → (accept pk i (some n) service w).1.substrate ≡ (i.publisher.publish input w.substrate).1
  unfolding accept submit publish_body
  accept-substrate ok = ground (arith, validate_iff pk.is_abs_url n)
