-- ===== src/GeneratedServer/Spec.antt =====
-- internal/writer/httpserver/server.gen.go: the embedded API document and how it is loaded.
use pulsar_notifcation_pipel.Base.{
  ◌↔◌, true, arith, ◌≡◌, not, null, if◌then◌else◌, ◌++◌, List, [], ◌∷◌, Option, none, some, Text,
  ascii,
}
use pulsar_notifcation_pipel.GoError.{nil, wrap, is_nil, new, Error}
use pulsar_notifcation_pipel.Base.Dict.{insert, lookup}

-- What the code calls: base64, gzip and its reader, path.Clean, and the loader of kin-openapi, which
-- is given the function that reads external references.
pub record SpecPackages (T : Type 0) : Type 0 where
  pub decode_base64 : Text → Text × Error
  pub open_gzip : Text → Error
  pub read_gzip : Text → Text × Error
  pub clean : Text → Text
  pub load_from_data : (read_from_uri : Text → Text × Error) → Text → Option T × Error

-- strings.Join(parts, "")
abbrev pub join : List Text → Text
join [] = []
join (part ∷ parts) = part ++ join parts

module _ {T : Type 0} (sp : SpecPackages T) (swagger_spec : List Text) where
  unfoldable pub decode_spec : Text × Error
  decode_spec =
      let (zipped, base64_err) = sp.decode_base64 (join swagger_spec) in
      let (buf, read_err) = sp.read_gzip zipped in
      if not (is_nil base64_err)
      then ([], wrap (ascii "error base64 decoding spec") base64_err)
      else if not (is_nil (sp.open_gzip zipped))
      then ([], wrap (ascii "error decompressing spec") (sp.open_gzip zipped))
      else if not (is_nil read_err)
      then ([], wrap (ascii "error decompressing spec") read_err)
      else (buf, nil)

  -- rawSpec, which decodeSpecCached makes: each call returns the same pair.
  unfoldable pub raw_spec : Text × Error
  raw_spec = decode_spec

  -- PathToRawSpec: the file names that are known, with what their functions return.
  unfoldable pub path_to_raw_spec : Text → List (Text × (Text × Error))
  path_to_raw_spec path_to_file = if null path_to_file then [] else insert path_to_file raw_spec []

  -- The ReadFromURIFunc of GetSwagger.
  unfoldable pub read_from_uri : Text → Text × Error
  read_from_uri uri = elim (lookup (sp.clean uri) (path_to_raw_spec [])) [
    | none ↦ ([], new (ascii "path not found: " ++ sp.clean uri))
    | some spec ↦ spec
  ]

  unfoldable pub get_swagger : Option T × Error
  get_swagger =
      let (spec_data, err) = raw_spec in
      if is_nil err then sp.load_from_data read_from_uri spec_data else (none, err)

  -- What is inside the base64 text of the embedded document.
  abbrev pub zipped : Text
  zipped = (sp.decode_base64 (join swagger_spec)).0

  -- The loader is given no file name, so it reads no external reference at all: every such read
  -- fails. The document loads exactly if its text decodes and decompresses and the loader, with
  -- every external reference refused, takes it.
  pub get_swagger_iff : (is_nil get_swagger.1 ≡ true) ↔ (
      (is_nil (sp.decode_base64 (join swagger_spec)).1 ≡ true)
      × (is_nil (sp.open_gzip zipped) ≡ true)
      × (is_nil (sp.read_gzip zipped).1 ≡ true)
      × (is_nil
            (sp.load_from_data
              (λ uri. ([], new (ascii "path not found: " ++ sp.clean uri)))
              (sp.read_gzip zipped).0).1
          ≡ true))
  unfolding get_swagger raw_spec decode_spec read_from_uri path_to_raw_spec lookup
  get_swagger_iff = ground arith
