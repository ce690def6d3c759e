-- ===== src/Pulsarlib/Keys.antt =====
-- internal/pulsarlib/keys.go: key files, read through `read_file`, which stands for os.ReadFile;
-- `join` is filepath.Join of two parts, and `quote` the %q verb.
use pulsar_notifcation_pipel.Base.{
  All, ◌≢◌, null, ◌↔◌, if◌then◌else◌, ◌++◌, List, [], ◌∷◌, Option, none, some, true, false, arith,
  ◌≡◌, Text, ascii,
}
use pulsar_notifcation_pipel.GoError.{new, wrap, is_nil, nil, Error}

pub record EncryptionKeyInfo : Type 0 where
  pub name : Text
  pub key : Text

pub record KeySet : Type 0 where
  pub dir : Text
  pub active_names : List Text

module _ (join : Text → Text → Text) (quote : Text → Text) (read_file : Text → Text × Error) where
  unfoldable pub public_key : (dir key_name : Text) → Option EncryptionKeyInfo × Error
  public_key dir key_name =
      let path = join dir (key_name ++ ascii ".pub.pem") in
      let (buf, err) = read_file path in
      if is_nil err then (some (record { name = key_name; key = buf }), nil) else (
        none,
        wrap (ascii "pulsarlib: load public key " ++ (quote key_name ++ (ascii " from " ++ path)))
            err,
      )

  unfoldable pub private_key : (dir key_name : Text) → Option EncryptionKeyInfo × Error
  private_key dir key_name =
      let path = join dir (key_name ++ ascii ".priv.pem") in
      let (buf, err) = read_file path in
      if is_nil err then (some (record { name = key_name; key = buf }), nil) else (
        none,
        wrap (ascii "pulsarlib: load private key " ++ (quote key_name ++ (ascii " from " ++ path)))
            err,
      )

  -- The loop of LoadKeySet: the first error, or nil.
  unfoldable pub first_unreadable : (dir : Text) → List Text → Error
  first_unreadable dir [] = nil
  first_unreadable dir (name ∷ names) =
      let err = (read_file (join dir (name ++ ascii ".pub.pem"))).1 in
      if is_nil err
      then first_unreadable dir names
      else wrap (ascii "pulsarlib: active public key " ++ (quote name ++ ascii " unreadable")) err

  unfoldable pub load_key_set : (dir : Text) → List Text → Option KeySet × Error
  load_key_set dir active_names =
      let err = first_unreadable dir active_names in
      if null active_names
      then (none, new (ascii "pulsarlib: LoadKeySet requires at least one active key name"))
      else if is_nil err
      then (some (record { dir = dir; active_names = active_names }), nil)
      else (none, err)

  abbrev pub IsReadable : Text → Text → Type 0
  IsReadable dir name = is_nil (read_file (join dir (name ++ ascii ".pub.pem"))).1 ≡ true

  first_unreadable_iff :
      (dir : Text) (names : List Text)
      → (is_nil (first_unreadable dir names) ≡ true) ↔ All (IsReadable dir) names
  unfolding first_unreadable
  first_unreadable_iff dir [] = ground arith
  first_unreadable_iff dir (name ∷ names) = ground (arith, first_unreadable_iff dir names)

  -- LoadKeySet returns the directory and the names exactly if there is a name and every one has a
  -- readable public key file; otherwise it returns no key set and an error.
  pub load_key_set_iff :
      (dir : Text) (names : List Text)
      → ((load_key_set dir names ≡ (some (record { dir = dir; active_names = names }), nil))
          ↔ ((names ≢ []) × All (IsReadable dir) names))
        × (((load_key_set dir names).0 ≡ none) ↔ (is_nil (load_key_set dir names).1 ≡ false))
  unfolding load_key_set
  load_key_set_iff dir names = ground (arith, first_unreadable_iff dir names)
