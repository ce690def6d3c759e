-- ===== src/Pulsarlib.antt =====
-- internal/pulsarlib: the options, the interfaces, and the publisher and consumer over the Apache
-- Pulsar client, whose calls are the fields of `Client`.
pub mod Keys
pub mod Options
pub mod Publishing
use pulsar_notifcation_pipel.Base.{
  ◌||◌, ◌-◌, is_none, not, null, apply_all, if◌then◌else◌, ℕ, List, [], Option, none, some, Bool,
  true, inl, inr, Text, ascii, ◌⊎◌,
}
use pulsar_notifcation_pipel.Consumer.{failed, message, Received}
use pulsar_notifcation_pipel.GoError.{
  deadline_exceeded, canceled, errors_is, publish_error, nil, wrap, is_nil, new, Error,
}
use pulsar_notifcation_pipel.Base.Dict.{lookup, insert}

abbrev pub notification_id_property : Text
notification_id_property = ascii "notification_id"

pub record PublishInput : Type 0 where
  pub body : Text
  pub notification_id : Text

-- The Publisher interface, over a state P of the substrate.
pub record Publisher (P : Type 0) : Type 0 where
  pub publish : PublishInput → P → Error × P

-- A *slog.Logger that is not nil.
pub data Logger : Type 0 where
  default_logger given_logger : Logger

-- A crypto.KeyReader: the one of this library reads files below a directory.
pub data KeyReader : Type 0 where
  file_key_reader : (dir : Text) → KeyReader
  other_key_reader : KeyReader

pub record Config : Type 0 where
  pub service_url : Text
  pub topic : Text
  pub subscription : Text
  pub encryption_key_reader : Option KeyReader
  pub encryption_key_names : List Text
  pub fail_on_crypto_error : Bool
  pub logger : Option Logger

abbrev pub ConfigOption : Type 0
ConfigOption = Config → Config

unfoldable pub with_service_url : Text → ConfigOption
with_service_url u o = record o { service_url = u }

unfoldable pub with_topic : Text → ConfigOption
with_topic t o = record o { topic = t }

unfoldable pub with_subscription : Text → ConfigOption
with_subscription s o = record o { subscription = s }

unfoldable pub with_encryption_key_reader : Option KeyReader → ConfigOption
with_encryption_key_reader r o = record o { encryption_key_reader = r }

unfoldable pub with_encryption_key_names : List Text → ConfigOption
with_encryption_key_names names o = record o { encryption_key_names = names }

unfoldable pub with_crypto_failure_fail : Bool → ConfigOption
with_crypto_failure_fail fail o = record o { fail_on_crypto_error = fail }

unfoldable pub with_logger : Option Logger → ConfigOption
with_logger l o = record o { logger = l }

abbrev pub default_options : Config
default_options = record {
  service_url = [];
  topic = [];
  subscription = [];
  encryption_key_reader = none;
  encryption_key_names = [];
  fail_on_crypto_error = true;
  logger = none;
}

-- Apply
unfoldable pub apply : List ConfigOption → Config
apply opts = apply_all opts default_options

unfoldable pub validate_producer : Config → Error
validate_producer o =
    if null o.service_url
    then new (ascii "pulsarlib: WithServiceURL is required")
    else if null o.topic
    then new (ascii "pulsarlib: WithTopic is required")
    else if is_none o.encryption_key_reader
    then new (ascii "pulsarlib: WithEncryptionKeyReader is required")
    else if null o.encryption_key_names
    then new (ascii "pulsarlib: WithEncryptionKeyNames is required (at least one)")
    else nil

unfoldable pub validate_consumer : Config → Error
validate_consumer o =
    if null o.service_url
    then new (ascii "pulsarlib: WithServiceURL is required")
    else if null o.topic
    then new (ascii "pulsarlib: WithTopic is required")
    else if null o.subscription
    then new (ascii "pulsarlib: WithSubscription is required")
    else if is_none o.encryption_key_reader
    then new (ascii "pulsarlib: WithEncryptionKeyReader is required")
    else nil

unfoldable pub effective_logger : Option Logger → Logger
effective_logger none = default_logger
effective_logger (some l) = l

pub data FailureAction : Type 0 where
  failure_fail failure_discard : FailureAction

-- The Pulsar client's calls, each with the error that it returns.
pub record Client : Type 0 where
  pub new_client : (url : Text) → Error
  pub create_producer : (topic : Text) → Option KeyReader → List Text → Error
  pub subscribe : (topic subscription : Text) → Option KeyReader → FailureAction → Error

-- What a constructor leaves: clients that were opened and not closed, and the logger of the value
-- that it returns, or its error.
pub record Built : Type 0 where
  pub open_clients : ℕ
  pub built : Option Logger
  pub err : Error

abbrev pub not_built : ℕ → Error → Built
not_built open_clients err = record { open_clients = open_clients; built = none; err = err }

module _ (c : Client) where
  unfoldable pub new_apache_publisher : List ConfigOption → Built
  new_apache_publisher opts =
      let o = apply opts in
      let client_err = c.new_client o.service_url in
      let producer_err = c.create_producer o.topic o.encryption_key_reader o.encryption_key_names in
      if not (is_nil (validate_producer o))
      then not_built 0 (validate_producer o)
      else if not (is_nil client_err)
      then not_built 0 (wrap (ascii "pulsarlib: new pulsar client") client_err)
      else if not (is_nil producer_err)
      then not_built (1 - 1) (wrap (ascii "pulsarlib: create producer") producer_err)
      else record { open_clients = 1; built = some (effective_logger o.logger); err = nil }

  unfoldable pub new_apache_consumer : List ConfigOption → Built
  new_apache_consumer opts =
      let o = apply opts in
      let client_err = c.new_client o.service_url in
      let fail_action = if o.fail_on_crypto_error then failure_fail else failure_discard in
      let subscribe_err = c.subscribe o.topic o.subscription o.encryption_key_reader fail_action in
      if not (is_nil (validate_consumer o))
      then not_built 0 (validate_consumer o)
      else if not (is_nil client_err)
      then not_built 0 (wrap (ascii "pulsarlib: new pulsar client") client_err)
      else if not (is_nil subscribe_err)
      then not_built (1 - 1) (wrap (ascii "pulsarlib: subscribe") subscribe_err)
      else record { open_clients = 1; built = some (effective_logger o.logger); err = nil }

-- Close of what a constructor returned: the end of the producer or the consumer, and then of the client.
-- Neither gives an error.
unfoldable pub close_publisher : Built → Built × Error
close_publisher p = (record p { open_clients = p.open_clients - 1 }, nil)

unfoldable pub close_consumer : Built → Built × Error
close_consumer c = (record c { open_clients = c.open_clients - 1 }, nil)

-- A message as the client takes it.
pub record ProducerMessage : Type 0 where
  pub payload : Text
  pub properties : List (Text × Text)

-- apachePublisher, over the producer's Send.
module _ {P : Type 0} (send : ProducerMessage → P → Error × P) where
  unfoldable pub publish : PublishInput → P → Error × P
  publish input s =
      let (err, s') =
        send
          (record {
            payload = input.body;
            properties = insert notification_id_property input.notification_id [];
          })
          s in
      (if is_nil err then nil else publish_error true err, s')

  abbrev pub apache_publisher : Publisher P
  apache_publisher = record { publish = publish }

-- A message as the client delivers it.
pub record ReceivedMessage : Type 0 where
  pub payload : Text
  pub properties : List (Text × Text)
  pub handle : ℕ

-- m[k] of a missing key is the empty text.
abbrev pub property_or_empty : Option Text → Text
property_or_empty none = []
property_or_empty (some v) = v

-- apacheConsumer.Receive, by what the client's Receive returns.
unfoldable pub receive : ReceivedMessage ⊎ Error → Received
receive (inl msg) = message (record {
  body = msg.payload;
  notification_id = property_or_empty (lookup notification_id_property msg.properties);
  handle = msg.handle;
})
receive (inr err) =
    if errors_is err canceled || errors_is err deadline_exceeded
    then failed err
    else failed (wrap (ascii "pulsarlib: receive") err)
