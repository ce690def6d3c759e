-- ===== src/Examples/Codec.antt =====
-- Codecs for problem documents and success envelopes that lose nothing, for the runs of the client: texts with their
-- lengths before them.
use pulsar_notifcation_pipel.Base.{ap, ◌++◌, length, ℕ, zero, suc, List, [], ◌∷◌, refl, ◌≡◌, Text}
use pulsar_notifcation_pipel.Http.{SubmitData}
use pulsar_notifcation_pipel.NotificationClient.{SubmitResponse, ProblemWire}
use pulsar_notifcation_pipel.Base.Int.{pos}
use pulsar_notifcation_pipel.NotificationClient.Categories.{wire_of}
use pulsar_notifcation_pipel.GoError.{FieldError}
use pulsar_notifcation_pipel.Problems.{Problem}

abbrev pub put : Text → Text → Text
put t rest = length t ∷ t ++ rest

abbrev pub split : ℕ → Text → Text × Text
split zero s = ([], s)
split (suc n) [] = ([], [])
split (suc n) (c ∷ s) = let (t, rest) = split n s in (c ∷ t, rest)

abbrev pub get : Text → Text × Text
get [] = ([], [])
get (n ∷ s) = split n s

pub split_append : (t rest : Text) → split (length t) (t ++ rest) ≡ (t, rest)
split_append [] rest = refl
split_append (c ∷ t) rest = ap (λ x. (c ∷ x.0, x.1)) (split_append t rest)

abbrev put_fields : List FieldError → Text
put_fields [] = []
put_fields (e ∷ es) = put e.field (put e.code (put e.message (put_fields es)))

abbrev get_fields : ℕ → Text → List FieldError
get_fields zero s = []
get_fields (suc n) s =
    let (f, s1) = get s in
    let (c, s2) = get s1 in
    let (m, s3) = get s2 in
    let rest = get_fields n s3 in record { field = f; code = c; message = m } ∷ rest

get-put_fields : (es : List FieldError) → get_fields (length es) (put_fields es) ≡ es
get-put_fields [] = refl
get-put_fields (e ∷ es) =
    rw
      (
        split_append e.field (put e.code (put e.message (put_fields es))),
        split_append e.code (put e.message (put_fields es)),
        split_append e.message (put_fields es),
      )
      (ap (λ x. e ∷ x) (get-put_fields es))

abbrev pub encode : Problem → Text
encode p =
    p.status
    ∷ length p.errors
    ∷ put p.type_uri
        (put p.title (put p.detail (put p.instance_uri (put p.request_id (put_fields p.errors)))))

abbrev pub decode : Text → ProblemWire
decode (status ∷ count ∷ s) =
    let (type_uri, s1) = get s in
    let (title, s2) = get s1 in
    let (detail, s3) = get s2 in
    let (instance_uri, s4) = get s3 in
    let (request_id, s5) = get s4 in
    record {
      type_uri = type_uri;
      title = title;
      status = pos status;
      detail = detail;
      instance_uri = instance_uri;
      request_id = request_id;
      errors = get_fields count s5;
    }
decode _ = record {
  type_uri = [];
  title = [];
  status = pos 0;
  detail = [];
  instance_uri = [];
  request_id = [];
  errors = [];
}

pub decode-encode : (p : Problem) → decode (encode p) ≡ wire_of p
decode-encode p =
    let s5 = put_fields p.errors in
    let s4 = put p.request_id s5 in
    let s3 = put p.instance_uri s4 in
    let s2 = put p.detail s3 in
    let s1 = put p.title s2 in
    rw
      (
        split_append p.type_uri s1,
        split_append p.title s2,
        split_append p.detail s3,
        split_append p.instance_uri s4,
        split_append p.request_id s5,
        get-put_fields p.errors,
      )
      refl

abbrev pub encode_success : SubmitData → Text → Text
encode_success d rid = put d.notification_id (put d.accepted_at (put rid []))

abbrev pub decode_success : Text → SubmitResponse
decode_success s =
    let (notification_id, s1) = get s in
    let (accepted_text, s2) = get s1 in
    let (request_id, s3) = get s2 in
    record {
      notification_id = notification_id;
      accepted_text = accepted_text;
      request_id = request_id;
    }

pub decode_success-encode :
    (d : SubmitData) (rid : Text)
    → decode_success (encode_success d rid) ≡ record {
      notification_id = d.notification_id;
      accepted_text = d.accepted_at;
      request_id = rid;
    }
decode_success-encode d rid =
    rw
      (
        split_append d.notification_id (put d.accepted_at (put rid [])),
        split_append d.accepted_at (put rid []),
        split_append rid [],
      )
      refl
