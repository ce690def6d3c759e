-- ===== src/Http.antt =====
-- net/http as the writer uses it: requests, a response writer, and handlers. Also
-- internal/writer/envelope/envelope.go and the writing half of internal/writer/problems/problems.go.
pub mod Writing
use pulsar_notifcation_pipel.Base.{◌++◌, ℕ, List, [], ◌∷◌, Option, none, some, Text, ascii}
use pulsar_notifcation_pipel.Base.Dict.{insert, lookup}
use pulsar_notifcation_pipel.GoError.{Error}
use pulsar_notifcation_pipel.Problems.{Problem}

-- The caller that the auth middleware found.
pub record Principal : Type 0 where
  pub service_name : Text

-- A request: headers have canonical keys and their values in order, `body_err` is what reading the
-- body to its end returns (nil for a whole body), and the last two fields are the values that the
-- middleware puts into the context.
pub record Request : Type 0 where
  pub method : Text
  pub path : Text
  pub headers : List (Text × List Text)
  pub body : Text
  pub body_err : Error
  pub request_id : Option Text
  pub principal : Option Principal

abbrev pub first_value : Option (List Text) → Text
first_value none = []
first_value (some []) = []
first_value (some (v ∷ vs)) = v

-- r.Header.Get(key)
unfoldable pub get_header : Text → Request → Text
get_header key r = first_value (lookup key r.headers)

-- The data member of a success envelope.
pub record SubmitData : Type 0 where
  pub notification_id : Text
  pub accepted_at : Text

-- What is written to a body, before its JSON encoding.
pub data Body : Type 0 where
  problem_body : Problem → Body
  success_body : (data_member : SubmitData) (meta_request_id : Text) → Body
  text_body : Text → Body

pub record Response : Type 0 where
  pub status : ℕ
  pub headers : List (Text × Text)
  pub bodies : List Body

pub record ResponseWriter : Type 0 where
  pub headers : List (Text × Text)
  pub sent : Option Response

abbrev pub new_writer : ResponseWriter
new_writer = record { headers = []; sent = none }

-- w.Header().Set(key, value)
unfoldable pub set_header : Text → Text → ResponseWriter → ResponseWriter
set_header key value rw = record rw { headers = insert key value rw.headers }

-- w.WriteHeader(status): the first call sends the headers, a later one does nothing.
unfoldable pub write_header : ℕ → ResponseWriter → ResponseWriter
write_header status rw = elim rw.sent [
  | none ↦ record rw { sent = some (record { status = status; headers = rw.headers; bodies = [] }) }
  | some r ↦ rw
]

-- w.Write: behind what is sent already; without a WriteHeader before it, with status 200.
unfoldable pub write_body : Body → ResponseWriter → ResponseWriter
write_body b rw = elim rw.sent [
  | none ↦ record rw {
    sent = some (record { status = 200; headers = rw.headers; bodies = b ∷ [] });
  }
  | some r ↦ record rw { sent = some (record r { bodies = r.bodies ++ b ∷ [] }) }
]

abbrev pub content_type_key : Text
content_type_key = ascii "Content-Type"

-- problems.Write
unfoldable pub write_problem : Problem → ResponseWriter → ResponseWriter
write_problem p rw =
    write_body (problem_body p)
      (write_header p.status (set_header content_type_key (ascii "application/problem+json") rw))

-- envelope.Write, of envelope.New
unfoldable pub write_success : ℕ → Text → SubmitData → ResponseWriter → ResponseWriter
write_success status request_id data_member rw =
    write_body (success_body data_member request_id)
      (write_header status (set_header content_type_key (ascii "application/json") rw))

-- http.Error
abbrev pub http_error : (message : Text) → ℕ → ResponseWriter → ResponseWriter
http_error message status rw = write_body (text_body (message ++ 10 ∷ [])) (
    write_header status (
      set_header (ascii "X-Content-Type-Options") (ascii "nosniff")
        (set_header content_type_key (ascii "text/plain; charset=utf-8") rw)))

-- How a handler ends: it returns, or it panics.
pub data Exit : Type 0 where
  finished panicked : Exit

abbrev pub Handler : Type 0 → Type 0
Handler W = Request → ResponseWriter → W → Exit × ResponseWriter × W
