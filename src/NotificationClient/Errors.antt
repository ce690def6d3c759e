-- ===== src/NotificationClient/Errors.antt =====
-- pkg/notificationclient/errors.go: the methods of *ProblemError, and what errors.Is makes of the error
-- of Submit.
use pulsar_notifcation_pipel.Base.{
  ==_iff, ap, ◌∙◌, sym, null, ◌↔◌, if◌then◌else◌, ◌++◌, ◌==◌, ℕ, [], ◌∷◌, Option, none, some, Bool,
  true, false, refl, ◌≡◌, Text, ascii,
}
use pulsar_notifcation_pipel.NotificationClient.{
  err_unknown_problem, err_internal, err_substrate_unavailable, err_unsupported_content_type,
  err_idempotency_conflict, err_authentication_failed, err_authentication_required, other_error,
  err_validation_failed, problem_error, Category, ProblemError, SubmitError,
}
use pulsar_notifcation_pipel.Base.Decimal.{itoa}

-- The texts of the sentinels.
unfoldable pub category_text : Category → Text
category_text err_validation_failed = ascii "notificationclient: validation-failed"
category_text err_authentication_required = ascii "notificationclient: authentication-required"
category_text err_authentication_failed = ascii "notificationclient: authentication-failed"
category_text err_idempotency_conflict = ascii "notificationclient: idempotency-conflict"
category_text err_unsupported_content_type = ascii "notificationclient: unsupported-content-type"
category_text err_substrate_unavailable = ascii "notificationclient: substrate-unavailable"
category_text err_internal = ascii "notificationclient: internal"
category_text err_unknown_problem = ascii "notificationclient: unknown-problem-type"

-- The em dash, in UTF-8.
abbrev em_dash : Text
em_dash = 0xe2 ∷ 0x80 ∷ 0x94 ∷ []

-- Error, also of a nil pointer.
unfoldable pub problem_error_text : Option ProblemError → Text
unfolding category_text itoa
problem_error_text none = ascii "notificationclient: nil problem"
problem_error_text (some e) =
    let start = category_text e.category ++ (ascii " (status " ++ itoa e.status) in
    if null e.title
    then start ++ ascii ")"
    else start ++ (ascii "): " ++ (e.title ++ (ascii " " ++ (em_dash ++ (ascii " " ++ e.detail)))))

-- The sentinels are made in this order, each by its own errors.New.
abbrev pub index : Category → ℕ
index err_validation_failed = 0
index err_authentication_required = 1
index err_authentication_failed = 2
index err_idempotency_conflict = 3
index err_unsupported_content_type = 4
index err_substrate_unavailable = 5
index err_internal = 6
index err_unknown_problem = 7

-- Is, of a sentinel of this package; `none` stands for nil and for every other target.
unfoldable pub problem_error_is : ProblemError → Option Category → Bool
problem_error_is e none = false
problem_error_is e (some target) = index target == index e.category

-- errors.Is of the error of Submit: the other errors wrap none of these sentinels.
unfoldable pub submit_error_is : SubmitError → Category → Bool
unfolding problem_error_is
submit_error_is (problem_error e) target = problem_error_is e (some target)
submit_error_is (other_error err) target = false

abbrev at_index : ℕ → Category
at_index n =
    if n == 0
    then err_validation_failed
    else if n == 1
    then err_authentication_required
    else if n == 2
    then err_authentication_failed
    else if n == 3
    then err_idempotency_conflict
    else if n == 4
    then err_unsupported_content_type
    else if n == 5
    then err_substrate_unavailable
    else if n == 6
    then err_internal
    else err_unknown_problem

at_index-index : (c : Category) → at_index (index c) ≡ c
at_index-index err_validation_failed = refl
at_index-index err_authentication_required = refl
at_index-index err_authentication_failed = refl
at_index-index err_idempotency_conflict = refl
at_index-index err_unsupported_content_type = refl
at_index-index err_substrate_unavailable = refl
at_index-index err_internal = refl
at_index-index err_unknown_problem = refl

-- errors.Is tells the sentinel of a problem from all others.
pub submit_error_is_iff :
    (e : ProblemError) (target : Category)
    → (submit_error_is (problem_error e) target ≡ true) ↔ (target ≡ e.category)
unfolding submit_error_is
submit_error_is_iff e target = (
  λ same.
      sym (at_index-index target)
      ∙ ap at_index ((==_iff (index target) (index e.category)).0 same)
      ∙ at_index-index e.category,
  λ same. (==_iff (index target) (index e.category)).1 (ap index same),
)
