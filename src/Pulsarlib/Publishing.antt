-- ===== src/Pulsarlib/Publishing.antt =====
-- What internal/pulsarlib/apachepulsar.go publishes.
use pulsar_notifcation_pipel.Base.{◌↔◌, [], ◌∷◌, some, true, false, arith, ◌≡◌}
use pulsar_notifcation_pipel.GoError.{is_nil, Error, as_publish_error}
use pulsar_notifcation_pipel.Pulsarlib.{
  notification_id_property, PublishInput, ProducerMessage, publish,
}
use pulsar_notifcation_pipel.Base.Dict.{insert}

-- Publish sends one message: the body is its payload, and the notification's identifier its only
-- property. It returns nil if Send does, and otherwise a transient PublishError around Send's error.
pub publish_lem :
    {P : Type 0} (send : ProducerMessage → P → Error × P) (input : PublishInput) (s : P)
    → let m : ProducerMessage = record {
      payload = input.body;
      properties = (notification_id_property, input.notification_id) ∷ [];
    } in
      ((publish send input s).1 ≡ (send m s).1)
      × ((is_nil (publish send input s).0 ≡ true) ↔ (is_nil (send m s).0 ≡ true))
      × (is_nil (send m s).0 ≡ false → as_publish_error (publish send input s).0 ≡ some true)
unfolding publish insert as_publish_error
publish_lem send input s = ground arith
