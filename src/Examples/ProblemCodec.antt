-- ===== src/Examples/ProblemCodec.antt =====
-- A codec for the problem documents of the two generated packages that loses nothing: numbers as they
-- are, texts with their lengths before them, and the newline of an Encoder at the end.
use pulsar_notifcation_pipel.Base.{
  ◌∙◌, ap, ◌++◌, length, ℕ, zero, suc, List, [], ◌∷◌, refl, ◌≡◌, Text, Option, none, some,
}
use pulsar_notifcation_pipel.Base.Int.{ℤ, pos, negsuc}
use pulsar_notifcation_pipel.EndToEnd.Documents.{
  client_problem, client_field_errors, client_field_error,
}
use pulsar_notifcation_pipel.Examples.Codec.{split_append, get, put}
use pulsar_notifcation_pipel.GeneratedServer
use pulsar_notifcation_pipel.GeneratedClient.Types
use mathlib.Core.Option

abbrev put_status : ℤ → Text → Text
put_status (pos n) rest = 0 ∷ n ∷ rest
put_status (negsuc n) rest = 1 ∷ n ∷ rest

abbrev get_status : Text → ℤ × Text
get_status (zero ∷ n ∷ s) = (pos n, s)
get_status (suc k ∷ n ∷ s) = (negsuc n, s)
get_status _ = (pos 0, [])

get-put_status : (z : ℤ) (rest : Text) → get_status (put_status z rest) ≡ (z, rest)
get-put_status (pos n) rest = refl
get-put_status (negsuc n) rest = refl

abbrev put_optional : Option Text → Text → Text
put_optional none rest = 0 ∷ rest
put_optional (some t) rest = 1 ∷ put t rest

abbrev get_optional : Text → Option Text × Text
get_optional (suc k ∷ s) = let (t, rest) = get s in (some t, rest)
get_optional (zero ∷ s) = (none, s)
get_optional [] = (none, [])

get-put_optional : (m : Option Text) (rest : Text) → get_optional (put_optional m rest) ≡ (m, rest)
get-put_optional none rest = refl
get-put_optional (some t) rest = rw (split_append t rest) refl

abbrev put_fields : List GeneratedServer.FieldError → Text
put_fields [] = []
put_fields (e ∷ es) = put e.code (put e.field (put_optional e.message (put_fields es)))

abbrev get_fields : ℕ → Text → List Types.FieldError
get_fields zero s = []
get_fields (suc n) s =
    let (code, s1) = get s in
    let (field, s2) = get s1 in
    let (message, s3) = get_optional s2 in
    let rest = get_fields n s3 in record { code = code; field = field; message = message } ∷ rest

get-put_fields :
    (es : List GeneratedServer.FieldError)
    → get_fields (length es) (put_fields es) ≡ client_field_errors es
get-put_fields [] = refl
get-put_fields (e ∷ es) =
    rw
      (
        split_append e.code (put e.field (put_optional e.message (put_fields es))),
        split_append e.field (put_optional e.message (put_fields es)),
        get-put_optional e.message (put_fields es),
      )
      (ap (λ xs. client_field_error e ∷ xs) (get-put_fields es))

abbrev put_errors : Option (List GeneratedServer.FieldError) → Text
put_errors none = []
put_errors (some es) = length es ∷ put_fields es

abbrev get_errors : Text → Option (List Types.FieldError)
get_errors [] = none
get_errors (count ∷ s) = some (get_fields count s)

get-put_errors :
    (m : Option (List GeneratedServer.FieldError))
    → get_errors (put_errors m) ≡ Option.map client_field_errors m
get-put_errors none = refl
get-put_errors (some es) = ap some (get-put_fields es)

abbrev pub put_problem : GeneratedServer.Problem → Text
put_problem p = put_status p.status (
    put p.type_uri
      (put p.title (put p.detail (put p.instance_uri (put p.request_id (put_errors p.errors))))))

abbrev get_members : Text → Types.Problem
get_members s =
    let (status, s0) = get_status s in
    let (type_uri, s1) = get s0 in
    let (title, s2) = get s1 in
    let (detail, s3) = get s2 in
    let (instance_uri, s4) = get s3 in
    let (request_id, s5) = get s4 in
    record {
      detail = detail;
      errors = get_errors s5;
      instance_uri = instance_uri;
      request_id = request_id;
      status = status;
      title = title;
      type_uri = type_uri;
    }

get_members-put : (p : GeneratedServer.Problem) → get_members (put_problem p) ≡ client_problem p
get_members-put p =
    let s5 = put_errors p.errors in
    let s4 = put p.request_id s5 in
    let s3 = put p.instance_uri s4 in
    let s2 = put p.detail s3 in
    let s1 = put p.title s2 in
    let s0 = put p.type_uri s1 in
    rw
      (
        get-put_status p.status s0,
        split_append p.type_uri s1,
        split_append p.title s2,
        split_append p.detail s3,
        split_append p.instance_uri s4,
        split_append p.request_id s5,
        get-put_errors p.errors,
      )
      refl

abbrev drop_last : Text → Text
drop_last [] = []
drop_last (c ∷ []) = []
drop_last (c ∷ c' ∷ s) = c ∷ drop_last (c' ∷ s)

drop_last-append : (t : Text) (c : ℕ) → drop_last (t ++ c ∷ []) ≡ t
drop_last-append [] c = refl
drop_last-append (x ∷ []) c = refl
drop_last-append (x ∷ y ∷ t) c = ap (λ s. x ∷ s) (drop_last-append (y ∷ t) c)

abbrev pub get_problem : Text → Types.Problem
get_problem s = get_members (drop_last s)

pub get-put_problem :
    (p : GeneratedServer.Problem) → get_problem (put_problem p ++ 10 ∷ []) ≡ client_problem p
get-put_problem p = ap get_members (drop_last-append (put_problem p) 10) ∙ get_members-put p
