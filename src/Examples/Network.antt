-- ===== src/Examples/Network.antt =====
-- A broker, the router's packages, the wire and the client of a concrete run of the whole pipeline.
use pulsar_notifcation_pipel.Base.{
  ◌++◌, List, [], ◌∷◌, Option, none, some, inl, inr, Text, ascii, ◌⊎◌,
}
use pulsar_notifcation_pipel.Message.{Notification}
use pulsar_notifcation_pipel.Examples.Data.{service, packages}
use pulsar_notifcation_pipel.Examples.Codec.{decode_success, encode_success, decode, encode}
use pulsar_notifcation_pipel.Pulsarlib.{apache_publisher, ProducerMessage}
use pulsar_notifcation_pipel.GoError.{new, Error, nil}
use pulsar_notifcation_pipel.Ingest.{Ingester, WriterWorld}
use pulsar_notifcation_pipel.Http.{
  text_body, new_writer, success_body, write_header, finished, problem_body, Body, Response,
}
use pulsar_notifcation_pipel.Base.Int.{pos}
use pulsar_notifcation_pipel.NotificationClient.{Transport}
use pulsar_notifcation_pipel.EndToEnd.{served, writer_handler, Connection}
use pulsar_notifcation_pipel.Handlers.{ServerWorld}
use pulsar_notifcation_pipel.GeneratedClient.{Reply, HttpPackages}
use pulsar_notifcation_pipel.Metrics.{no_measurements}
use pulsar_notifcation_pipel.NotificationClient.Submission.{Client}

abbrev pub Queue : Type 0
Queue = List ProducerMessage

-- A broker that keeps what it is sent.
abbrev pub send_message : ProducerMessage → Queue → Error × Queue
send_message m queue = (nil, queue ++ m ∷ [])

abbrev pub over_pulsar : Ingester Queue
over_pulsar = record {
  publisher = apache_publisher send_message;
  clock = λ k. 1_234_567;
  id_fn = λ k. (ascii "id-1", nil);
}

abbrev pub idle_writer : WriterWorld Queue
idle_writer = record {
  substrate = [];
  clock_reads = 0;
  id_calls = 0;
  instruments = no_measurements;
}

abbrev pub idle_server : ServerWorld Queue
idle_server = record { writer = idle_writer; generated_ids = 0; access_log = []; panic_log = [] }

abbrev pub encode_any : Body → Text
encode_any (problem_body p) = encode p
encode_any (success_body d rid) = encode_success d rid
encode_any (text_body t) = t

-- The first body that was sent.
abbrev pub first_body : (Body → Text) → List Body → Text
first_body encode_one [] = []
first_body encode_one (b ∷ bs) = encode_one b

abbrev pub reply_to : Option Response → Reply ⊎ Error
reply_to none = inr (new (ascii "EOF"))
reply_to (some response) = inl (record {
  status = response.status;
  content_type = ascii "application/json";
  body = first_body encode_any response.bodies;
  body_err = nil;
})

-- A writer whose decoders read the notification n in any body.
abbrev pub unconnected : Notification → Connection Queue
unconnected n = record {
  platform = record {
    not_routed = λ r rw w. (finished, write_header 404 rw, w);
    new_uuid = λ k. (ascii "u1", nil);
    bind_parameter = λ value. (value, nil);
  };
  packages = packages;
  codecs = record {
    unmarshal_json = λ body. (n, nil);
    unmarshal_proto = λ body. (n, nil);
    format_time = λ t. ascii "2026-01-01T00:00:00.000Z";
    submit_time = λ k. pos 9;
  };
  ingester = over_pulsar;
  tokens = (ascii "abc", service) ∷ [];
  path_of = λ url. ascii "/notifications";
  encode_body = encode_any;
  doer = λ r w. (inr (new (ascii "refused")), w);
}

abbrev pub connected : Notification → Connection Queue
connected n = record (unconnected n) {
  doer = λ r w.
      let out = writer_handler (unconnected n) (served (unconnected n) r) new_writer w in
      (reply_to out.1.sent, out.2);
}

abbrev pub wire : Transport
wire = record {
  marshal_json = λ n. (n.notification_id, nil);
  marshal_proto = λ n. (n.notification_id, nil);
  unmarshal_problem = decode;
  unmarshal_envelope = λ t. (decode_success t, nil);
  parse_time = λ layout t. (0, nil);
}

abbrev pub http_packages : HttpPackages Text
http_packages = record {
  parse_url = λ t. (t, nil);
  parse_reference = λ u t. (u ++ t, nil);
  url_text = λ u. u;
  new_request_err = λ method url. nil;
  style_header = λ name value. (value, nil);
}

abbrev pub caller : Notification → Client (ServerWorld Queue)
caller n = record {
  raw = record { server = ascii "http://w/"; client = (connected n).doer; request_editors = [] };
  bearer_token = ascii "abc";
  user_agent = [];
  content_type = ascii "application/json";
}
