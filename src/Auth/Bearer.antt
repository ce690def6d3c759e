-- ===== src/Auth/Bearer.antt =====
-- internal/writer/auth/bearer.go: the tokens file and the authenticator over it.
use pulsar_notifcation_pipel.Base.{
  apply_all, not, ◌||◌, is_ascii_space, is_space2, is_space3, ◌==◌, if◌then◌else◌, reverse,
  trim_space, List, [], ◌∷◌, Option, none, some, Text, ascii, has_prefix, null,
}
use pulsar_notifcation_pipel.GoError.{
  err_invalid_credentials, nil, sentinel, new, wrap, Error, err_no_credentials, is_nil,
}
use pulsar_notifcation_pipel.Base.Dict.{lookup, insert}
use pulsar_notifcation_pipel.Auth.{anonymous, bearer_token, Authenticator}
use pulsar_notifcation_pipel.Http.{Principal}

-- bufio.ScanLines: the lines of a text, without a final empty one and without the carriage return
-- before a newline. `cur` is the line so far, reversed.
abbrev drop_cr : Text → Text
drop_cr [] = []
drop_cr (c ∷ s) = if c == 13 then s else c ∷ s

unfoldable pub scan_lines : Text → Text → List Text
scan_lines [] [] = []
scan_lines (c ∷ cur) [] = reverse (drop_cr (c ∷ cur)) ∷ []
scan_lines cur (c ∷ s) =
    let line = reverse (drop_cr cur) ∷ scan_lines [] s in
    let on = scan_lines (c ∷ cur) s in if c == 10 then line else on

-- A text with one plain space in place of each white space that is not ASCII.
unfoldable pub plain_spaces : Text → Text
plain_spaces [] = []
plain_spaces (a ∷ []) = a ∷ []
plain_spaces (a ∷ b ∷ []) = if is_space2 a b then 32 ∷ [] else a ∷ b ∷ []
plain_spaces (a ∷ b ∷ c ∷ s) =
    let one = plain_spaces (b ∷ c ∷ s) in
    let two = plain_spaces (c ∷ s) in
    let three = plain_spaces s in
    if is_space2 a b then 32 ∷ two else if is_space3 a b c then 32 ∷ three else a ∷ one

-- The fields of a text whose white space is ASCII. `cur` is the field so far, reversed.
unfoldable pub scan_fields : Text → Text → List Text
scan_fields [] [] = []
scan_fields (c ∷ cur) [] = reverse (c ∷ cur) ∷ []
scan_fields cur (c ∷ s) =
    let skip = scan_fields [] s in
    let close = reverse cur ∷ scan_fields [] s in
    let on = scan_fields (c ∷ cur) s in
    if is_ascii_space c then if null cur then skip else close else on

-- strings.Fields
unfoldable pub fields : Text → List Text
fields s = scan_fields [] (plain_spaces s)

abbrev pub Tokens : Type 0
Tokens = List (Text × Principal)

-- An entry's token and service.
unfoldable pub add_entry : List Text → Tokens → Tokens
add_entry [] out = out
add_entry (token ∷ []) out = insert token (record { service_name = ascii "unknown" }) out
add_entry (token ∷ service ∷ rest) out = insert token (record { service_name = service }) out

-- One round of the loop over the lines.
unfoldable pub add_line : Text → Tokens → Tokens
add_line text out =
    let line = trim_space text in
    if null line || has_prefix line (ascii "#") then out else add_entry (fields line) out

unfoldable pub add_lines : List Text → Tokens → Tokens
add_lines [] out = out
add_lines (line ∷ lines) out = add_lines lines (add_line line out)

-- What os.Open and the scanner give for a path: an error to open, or the text and the scanner's
-- error.
pub data FileRead : Type 0 where
  unopened : Error → FileRead
  scanned : Text → Error → FileRead

unfoldable pub load_tokens : FileRead → Option Tokens × Error
load_tokens (unopened err) = (none, wrap (ascii "auth: open tokens file") err)
load_tokens (scanned text err) =
    let out = add_lines (scan_lines [] text) [] in
    if not (is_nil err)
    then (none, wrap (ascii "auth: scan tokens file") err)
    else if null out
    then (none, new (ascii "auth: tokens file is empty"))
    else (some out, nil)

pub record BearerOptions : Type 0 where
  pub tokens_path : Text

abbrev pub BearerOption : Type 0
BearerOption = BearerOptions → BearerOptions

unfoldable pub with_tokens_file : Text → BearerOption
with_tokens_file p o = record o { tokens_path = p }

-- NewBearer; `read_file` is what opening and scanning a path gives.
unfoldable pub new_bearer :
    (read_file : Text → FileRead) → List BearerOption → Option Tokens × Error
new_bearer read_file opts =
    let o = apply_all opts (record { tokens_path = [] }) in
    if null o.tokens_path
    then (none, new (ascii "auth: WithTokensFile is required"))
    else load_tokens (read_file o.tokens_path)

-- Authenticate
unfoldable pub authenticate : Tokens → Authenticator
authenticate tokens r =
    let token = bearer_token r in
    if null token then (anonymous, sentinel err_no_credentials) else elim (lookup token tokens) [
      | none ↦ (anonymous, sentinel err_invalid_credentials)
      | some p ↦ (p, nil)
    ]
