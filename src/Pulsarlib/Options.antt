-- ===== src/Pulsarlib/Options.antt =====
-- What the constructors of internal/pulsarlib/apachepulsar.go require and leave behind.
use pulsar_notifcation_pipel.Base.{if◌then◌else◌, ◌↔◌, ◌≢◌, List, [], none, true, arith, ◌≡◌}
use pulsar_notifcation_pipel.Pulsarlib.{
  close_publisher, close_consumer, failure_discard, failure_fail, apply, ConfigOption, Client,
  Config, new_apache_consumer, new_apache_publisher, validate_consumer, validate_producer,
}
use pulsar_notifcation_pipel.GoError.{is_nil}

-- What a producer needs.
abbrev pub CanProduce : Config → Type 0
CanProduce o =
    (o.service_url ≢ [])
    × (o.topic ≢ [])
    × (o.encryption_key_reader ≢ none)
    × (o.encryption_key_names ≢ [])

abbrev pub CanConsume : Config → Type 0
CanConsume o =
    (o.service_url ≢ []) × (o.topic ≢ []) × (o.subscription ≢ []) × (o.encryption_key_reader ≢ none)

validate_producer_iff : (o : Config) → (is_nil (validate_producer o) ≡ true) ↔ CanProduce o
unfolding validate_producer
validate_producer_iff o = ground arith

validate_consumer_iff : (o : Config) → (is_nil (validate_consumer o) ≡ true) ↔ CanConsume o
unfolding validate_consumer
validate_consumer_iff o = ground arith

-- A publisher is built exactly if the options hold a service URL, a topic, a key reader and a key
-- name, and both calls of the client succeed; a client stays open exactly if a publisher is built,
-- and an error is returned exactly if none is.
pub new_apache_publisher_iff :
    (c : Client) (opts : List ConfigOption)
    → (((new_apache_publisher c opts).built ≢ none) ↔ (
        CanProduce (apply opts)
        × (is_nil (c.new_client (apply opts).service_url) ≡ true)
        × (is_nil (
              c.create_producer
                (apply opts).topic
                (apply opts).encryption_key_reader
                (apply opts).encryption_key_names)
            ≡ true)))
      × (((new_apache_publisher c opts).open_clients ≡ 1)
          ↔ ((new_apache_publisher c opts).built ≢ none))
      × ((is_nil (new_apache_publisher c opts).err ≡ true)
          ↔ ((new_apache_publisher c opts).built ≢ none))
unfolding new_apache_publisher
new_apache_publisher_iff c opts = ground (arith, validate_producer_iff (apply opts))

-- The same of a consumer, which needs a subscription name in place of key names; it subscribes with
-- the failing crypto action unless the options turn that off.
pub new_apache_consumer_iff :
    (c : Client) (opts : List ConfigOption)
    → (((new_apache_consumer c opts).built ≢ none) ↔ (
        CanConsume (apply opts)
        × (is_nil (c.new_client (apply opts).service_url) ≡ true)
        × (is_nil (
              c.subscribe
                (apply opts).topic
                (apply opts).subscription
                (apply opts).encryption_key_reader
                (if (apply opts).fail_on_crypto_error then failure_fail else failure_discard))
            ≡ true)))
      × (((new_apache_consumer c opts).open_clients ≡ 1)
          ↔ ((new_apache_consumer c opts).built ≢ none))
      × ((is_nil (new_apache_consumer c opts).err ≡ true)
          ↔ ((new_apache_consumer c opts).built ≢ none))
unfolding new_apache_consumer
new_apache_consumer_iff c opts = ground (arith, validate_consumer_iff (apply opts))

-- Whatever the options are and however the client answers, after the constructor, and Close if it
-- returned no error, no client is left open.
pub new_apache_publisher-closed :
    (c : Client) (opts : List ConfigOption)
    → let b = new_apache_publisher c opts in
      (if is_nil b.err then (close_publisher b).0.open_clients else b.open_clients) ≡ 0
unfolding new_apache_publisher close_publisher
new_apache_publisher-closed c opts = ground arith

pub new_apache_consumer-closed :
    (c : Client) (opts : List ConfigOption)
    → let b = new_apache_consumer c opts in
      (if is_nil b.err then (close_consumer b).0.open_clients else b.open_clients) ≡ 0
unfolding new_apache_consumer close_consumer
new_apache_consumer-closed c opts = ground arith
