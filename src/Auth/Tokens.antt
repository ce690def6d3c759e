-- ===== src/Auth/Tokens.antt =====
-- What the authenticator of internal/writer/auth/bearer.go accepts, by the lines of the tokens file.
use pulsar_notifcation_pipel.Base.{
  ◌≢◌, ◌↔◌, ap, has_prefix, ◌||◌, ◌∙◌, is_some, null, text_eq, if◌then◌else◌, trim_space, List, [],
  ◌∷◌, Option, none, some, refl, arith, ◌≡◌, Text, ascii,
}
use pulsar_notifcation_pipel.Auth.Bearer.{
  scan_lines, scanned, fields, Tokens, authenticate, add_entry, add_line, add_lines, load_tokens,
}
use pulsar_notifcation_pipel.Auth.{bearer_token}
use pulsar_notifcation_pipel.GoError.{nil}
use pulsar_notifcation_pipel.Base.Dict.{lookup-insert, lookup}
use pulsar_notifcation_pipel.Http.{Request, Principal}

-- The principal that a line gives to a token: none if the line is blank, a comment, or another's.
abbrev entry_principal : Text → List Text → Option Principal
entry_principal token [] = none
entry_principal token (t ∷ []) =
    if text_eq t token then some (record { service_name = ascii "unknown" }) else none
entry_principal token (t ∷ service ∷ rest) =
    if text_eq t token then some (record { service_name = service }) else none

abbrev pub line_principal : Text → Text → Option Principal
line_principal token text =
    let line = trim_space text in
    if null line || has_prefix line (ascii "#") then none else entry_principal token (fields line)

-- The last line that gives a principal to the token decides.
abbrev pub last_principal : Text → List Text → Option Principal → Option Principal
last_principal token [] before = before
last_principal token (line ∷ lines) before =
    last_principal token lines
      (if is_some (line_principal token line) then line_principal token line else before)

add_entry-lookup :
    (token : Text) (parts : List Text) (out : Tokens)
    → lookup token (add_entry parts out) ≡ (
        if is_some (entry_principal token parts)
        then entry_principal token parts
        else lookup token out)
unfolding add_entry
add_entry-lookup token [] out = refl
add_entry-lookup token (t ∷ []) out =
    ground (arith, lookup-insert t token (record { service_name = ascii "unknown" }) out)
add_entry-lookup token (t ∷ service ∷ rest) out =
    ground (arith, lookup-insert t token (record { service_name = service }) out)

add_line-lookup :
    (token line : Text) (out : Tokens)
    → lookup token (add_line line out) ≡ (
        if is_some (line_principal token line) then line_principal token line else lookup token out)
unfolding add_line
add_line-lookup token line out =
    ground (arith, add_entry-lookup token (fields (trim_space line)) out)

add_lines-lookup :
    (token : Text) (lines : List Text) (out : Tokens)
    → lookup token (add_lines lines out) ≡ last_principal token lines (lookup token out)
unfolding add_lines
add_lines-lookup token [] out = refl
add_lines-lookup token (line ∷ lines) out =
    add_lines-lookup token lines (add_line line out)
    ∙ ap (last_principal token lines) (add_line-lookup token line out)

-- With the tokens of a file that loads, a request is authenticated as a principal exactly if it
-- carries a bearer token, and the last line of the file for that token names that principal.
pub authenticate_iff :
    (text : Text) (tokens : Tokens) (r : Request) (p : Principal)
    → load_tokens (scanned text nil) ≡ (some tokens, nil)
    → (authenticate tokens r ≡ (p, nil)) ↔ (
        (bearer_token r ≢ [])
        × (last_principal (bearer_token r) (scan_lines [] text) none ≡ some p))
unfolding load_tokens authenticate lookup
authenticate_iff text tokens r p loaded =
    ground (arith, add_lines-lookup (bearer_token r) (scan_lines [] text) [])
