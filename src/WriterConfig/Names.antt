-- ===== src/WriterConfig/Names.antt =====
-- The key names that internal/writer/config/config.go accepts, and what they mean for the key set of
-- internal/pulsarlib/keys.go.
use pulsar_notifcation_pipel.Base.{
  null, Bool-cases, inl, inr, apply_all, trim_space, ◌↔◌, ◌≢◌, All, List, [], ◌∷◌, some, true,
  arith, ◌≡◌, Text,
}
use pulsar_notifcation_pipel.Pulsarlib.Keys.{load_key_set_iff, IsReadable, load_key_set}
use pulsar_notifcation_pipel.WriterConfig.{
  split_commas, WriterOption, WriterConfig, key_names, load_writer, trimmed_names,
}
use pulsar_notifcation_pipel.GoError.{is_nil, nil, Error}

trimmed_names-All : (raw : List Text) → All (λ name. name ≢ []) (trimmed_names raw)
unfolding trimmed_names
trimmed_names-All [] = tt
trimmed_names-All (s ∷ raw) = elim (Bool-cases (null (trim_space s))) [
  | inl blank ↦ rw (blank) (trimmed_names-All raw)
  | inr given ↦ rw (given) (ground arith, trimmed_names-All raw)
]

trimmed_names_iff :
    (raw : List Text) → (trimmed_names raw ≡ []) ↔ All (λ part. trim_space part ≡ []) raw
unfolding trimmed_names
trimmed_names_iff [] = ground arith
trimmed_names_iff (s ∷ raw) = ground (arith, trimmed_names_iff raw)

-- Load returns the configuration that the options make of the parsed environment exactly if parsing
-- worked and some part between the commas of the key names is not blank.
pub load_writer_iff :
    (parsed : WriterConfig) (err : Error) (opts : List WriterOption)
    → (load_writer (parsed, err) opts ≡ (some (apply_all opts parsed), nil)) ↔ (
        (is_nil err ≡ true)
        × (¬ All
            (λ part. trim_space part ≡ [])
            (split_commas [] (apply_all opts parsed).encryption_key_names_csv)))
unfolding load_writer key_names
load_writer_iff parsed err opts =
    ground
      (arith, trimmed_names_iff (split_commas [] (apply_all opts parsed).encryption_key_names_csv))

loaded-key_names :
    (parsed : WriterConfig) (c : WriterConfig) (err : Error) (opts : List WriterOption)
    → load_writer (parsed, err) opts ≡ (some c, nil)
    → key_names c ≢ []
unfolding load_writer
loaded-key_names parsed c err opts loaded = ground arith

-- With a configuration that loads, the key set loads exactly if every name has a readable public key;
-- no name is empty.
pub load_key_set-key_names :
    (join : Text → Text → Text) (quote : Text → Text) (read_file : Text → Text × Error) (dir : Text)
    (parsed : WriterConfig) (c : WriterConfig) (err : Error) (opts : List WriterOption)
    → load_writer (parsed, err) opts ≡ (some c, nil)
    → ((load_key_set join quote read_file dir (key_names c)
          ≡ (some (record { dir = dir; active_names = key_names c }), nil))
        ↔ All (IsReadable join quote read_file dir) (key_names c))
      × All (λ name. name ≢ []) (key_names c)
unfolding key_names
load_key_set-key_names join quote read_file dir parsed c err opts loaded =
    let given = loaded-key_names parsed c err opts loaded in
    let (loads, _) = load_key_set_iff join quote read_file dir (key_names c) in
    ((λ e. (loads.0 e).1, λ readable. loads.1 (given, readable)), trimmed_names-All _)
