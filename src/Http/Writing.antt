-- ===== src/Http/Writing.antt =====
-- What one call of the writing helpers sends, on a writer that has sent nothing.
use pulsar_notifcation_pipel.Base.{ℕ, [], ◌∷◌, none, some, arith, ◌≡◌, Text, ascii}
use pulsar_notifcation_pipel.Http.{
  problem_body, success_body, content_type_key, ResponseWriter, SubmitData, set_header,
  write_header, write_body, write_problem, write_success,
}
use pulsar_notifcation_pipel.Base.Dict.{insert}
use pulsar_notifcation_pipel.Problems.{Problem}

-- Only what was set before is sent, with the content type of problems or of envelopes.
pub write_problem-sent :
    (p : Problem) (rw : ResponseWriter)
    → rw.sent ≡ none
    → (write_problem p rw).sent
      ≡ some (record {
        status = p.status;
        headers = insert content_type_key (ascii "application/problem+json") rw.headers;
        bodies = problem_body p ∷ [];
      })
unfolding write_problem write_body write_header set_header
write_problem-sent p rw unsent = ground arith

pub write_success-sent :
    (status : ℕ) (rid : Text) (d : SubmitData) (rw : ResponseWriter)
    → rw.sent ≡ none
    → (write_success status rid d rw).sent
      ≡ some (record {
        status = status;
        headers = insert content_type_key (ascii "application/json") rw.headers;
        bodies = success_body d rid ∷ [];
      })
unfolding write_success write_body write_header set_header
write_success-sent status rid d rw unsent = ground arith
