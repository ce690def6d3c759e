-- ===== src/Examples/Writer.antt =====
-- Concrete runs of the writer's ingester and authenticator.
use pulsar_notifcation_pipel.Base.{
  All, text_eq, has_prefix, trim_back, trim_left, trim_space, ◌∙◌, arith, ◌++◌, List, [], ◌∷◌, some,
  true, refl, ◌≡◌, Text, ascii,
}
use pulsar_notifcation_pipel.Validation.Codes.{validate-AllKnown}
use pulsar_notifcation_pipel.GeneratedClient.Answers.{field_error_code_valid}
use pulsar_notifcation_pipel.Validation.{
  validate_idempotency, validate_timestamps, validate_target, validate_content, validate,
}
use pulsar_notifcation_pipel.Examples.Data.{
  note-runs, idle, ingester, submission, packages, service, note,
}
use pulsar_notifcation_pipel.Base.Dict.{insert, lookup}
use pulsar_notifcation_pipel.Auth.Tokens.{authenticate_iff}
use pulsar_notifcation_pipel.Auth.Bearer.{
  authenticate, fields, scan_fields, plain_spaces, scan_lines, add_entry, add_line, add_lines,
  load_tokens,
}
use pulsar_notifcation_pipel.Http.{get_header}
use pulsar_notifcation_pipel.Auth.{bearer_token}
use pulsar_notifcation_pipel.Ingest.Accept.{accept_publishes}
use pulsar_notifcation_pipel.GoError.{nil, FieldError}
use pulsar_notifcation_pipel.Ingest.{accept}
use pulsar_notifcation_pipel.Message.{empty}

accept_publishes_example :
    (accept packages ingester (some note) (ascii "ci") idle).1.substrate
    ≡ record { body = ascii "id-1"; notification_id = ascii "id-1" } ∷ []
accept_publishes_example =
    accept_publishes packages ingester note (ascii "ci") idle ∙ (rw note-runs refl)

-- The second line for the token decides.
abbrev tokens_file : Text
tokens_file = ascii "# tokens" ++ 10 ∷ ascii "abc first" ++ 10 ∷ ascii "abc ci" ++ 10 ∷ []

-- A no-break space parts two fields.
fields-parted : fields (97 ∷ 0xc2 ∷ 0xa0 ∷ 98 ∷ 32 ∷ []) ≡ (97 ∷ []) ∷ (98 ∷ []) ∷ []
unfolding fields scan_fields plain_spaces
fields-parted = refl

authenticate_example :
    authenticate ((ascii "abc", service) ∷ []) (submission (ascii "Bearer abc")) ≡ (service, nil)
unfolding ascii load_tokens add_lines add_line add_entry scan_lines fields scan_fields plain_spaces
    trim_space trim_left trim_back has_prefix insert text_eq bearer_token get_header lookup
authenticate_example =
    (authenticate_iff tokens_file ((ascii "abc", service) ∷ []) (submission (ascii "Bearer abc"))
        service refl).1
      (ground arith, refl)

-- A notification with no content and no target.
validate-AllKnown_example :
    (fields : List FieldError) × (validate (λ url. true) empty ≡ some fields)
    × All (λ e. field_error_code_valid e.code ≡ true) fields
unfolding validate validate_content validate_target validate_timestamps validate_idempotency
validate-AllKnown_example = (_, refl, validate-AllKnown (λ url. true) empty _ refl)
