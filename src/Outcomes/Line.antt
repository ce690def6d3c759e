-- ===== src/Outcomes/Line.antt =====
-- internal/deliverer/outcomes/outcomes.go: what a reader of the log line gets back.
use pulsar_notifcation_pipel.Base.{
  Bool-cases, null, inl, inr, arith, ◌++◌, if◌then◌else◌, text_eq, List, [], ◌∷◌, Bool, true, refl,
  ◌≡◌, Text, ascii,
}
use pulsar_notifcation_pipel.Message.{zero_time, is_zero, Time}
use pulsar_notifcation_pipel.Outcomes.{
  last_attempt, first_attempt, attempts, provider_response, reason, status, notification_id,
  status_expired, status_permanently_failed, truncate, blank, event, status_delivered, Outcome,
  status_text, Attr, Status, record_line,
}

unfoldable pub status_of : Text → Status
status_of t =
    if text_eq t (ascii "delivered")
    then status_delivered
    else if text_eq t (ascii "expired")
    then status_expired
    else status_permanently_failed

unfoldable pub set : Attr → Outcome → Outcome
set (event t) o = o
set (notification_id t) o = record o { notification_id = t }
set (status t) o = record o { status = status_of t }
set (reason t) o = record o { reason = t }
set (provider_response t) o = record o { provider_response = t }
set (attempts n) o = record o { attempts = n }
set (first_attempt t) o = record o { first_attempt = t }
set (last_attempt t) o = record o { last_attempt = t }

-- The outcome that the attributes of a line tell, from what is known before them.
unfoldable pub read_line : List Attr → Outcome → Outcome
read_line [] o = o
read_line (a ∷ l) o = read_line l (set a o)

read_line-snoc :
    (l : List Attr) (a : Attr) (o : Outcome) → read_line (l ++ a ∷ []) o ≡ set a (read_line l o)
unfolding read_line
read_line-snoc [] a o = refl
read_line-snoc (b ∷ l) a o = read_line-snoc l a (set b o)

-- An attribute that is left out, when it would have changed nothing, is read all the same.
read_line-optional :
    (c : Bool) (l : List Attr) (a : Attr) (o z : Outcome)
    → read_line l o ≡ z
    → (c ≡ true → set a z ≡ z)
    → read_line (if c then l else l ++ a ∷ []) o ≡ set a z
read_line-optional c l a o z known same = elim (Bool-cases c) [
  | inl absent ↦ rw (absent, same absent) known
  | inr present ↦ rw (present, read_line-snoc l a o, known) refl
]

null_lem : (t : Text) → null t ≡ true → t ≡ []
null_lem [] _ = refl
null_lem (b ∷ t) blank = ground arith

is_zero_lem : (t : Time) → is_zero t ≡ true → t ≡ zero_time
is_zero_lem t zeroed = ground arith

status_of-status_text : (s : Status) → status_of (status_text s) ≡ s
unfolding status_of ascii text_eq
status_of-status_text status_delivered = refl
status_of-status_text status_permanently_failed = refl
status_of-status_text status_expired = refl

-- Whoever reads the attributes of a log line gets the outcome back, but for a provider response that
-- is cut after 512 bytes.
pub read_line-record_line :
    (o : Outcome)
    → read_line (record_line o).1 (blank [] status_delivered [])
      ≡ record o { provider_response = truncate o.provider_response 512 }
unfolding record_line read_line set
read_line-record_line o =
    let start = blank [] status_delivered [] in
    let z0 = record (blank o.notification_id o.status []) { attempts = o.attempts } in
    let z1 = set (reason o.reason) z0 in
    let z2 = set (provider_response (truncate o.provider_response 512)) z1 in
    let z3 = set (first_attempt o.first_attempt) z2 in
    let attrs0 =
      event (ascii "notification.outcome")
      ∷ notification_id o.notification_id
      ∷ status (status_text o.status)
      ∷ attempts o.attempts
      ∷ [] in
    let line0 : read_line attrs0 start ≡ z0 = rw (status_of-status_text o.status) refl in
    let line1 =
      read_line-optional (null o.reason) _ (reason o.reason) start z0 line0
        (λ absent. rw (null_lem o.reason absent) refl) in
    let line2 =
      read_line-optional (null o.provider_response) _
        (provider_response (truncate o.provider_response 512)) start z1 line1
        (λ absent. rw (null_lem o.provider_response absent) refl) in
    let line3 =
      read_line-optional (is_zero o.first_attempt) _ (first_attempt o.first_attempt) start z2 line2
        (λ absent. rw (is_zero_lem o.first_attempt absent) refl) in
    read_line-optional (is_zero o.last_attempt) _ (last_attempt o.last_attempt) start z3 line3
      (λ absent. rw (is_zero_lem o.last_attempt absent) refl)
