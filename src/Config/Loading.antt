-- ===== src/Config/Loading.antt =====
-- config/mod.rs: the settings file, written in one go with mode 0600 and read with its password.
pub mod RoundTrip
use ferrosonic.Prelude.{
  ℕ, Bool, true, false, Option, none, some, String, List, str_eq, not, if◌then◌else◌,
}
use ferrosonic.Prelude.Results.{Result, ok, err, and_then, ok_or}
use ferrosonic.Float.{Float}
use ferrosonic.Files.{FileSystem, Paths, atomic_write_bytes_private}
use ferrosonic.Config.{Config, default_config}
use ferrosonic.Config.Disk.{ConfigOnDisk, as_on_disk}
use ferrosonic.Config.Secrets.{Machine, resolve_password}

-- `enum ConfigError`; `T` is the error of the toml library, `X` that of a file operation.
pub data ConfigError (T X : Type 0) : Type 0 where
  not_found : (path : String) → ConfigError T X
  parse : T → ConfigError T X
  serialize : T → ConfigError T X
  missing_field : String → ConfigError T X
  invalid_value : (field reason : String) → ConfigError T X
  invalid_url : String → ConfigError T X
  io : X → ConfigError T X

-- The toml library on the settings, and `str::as_bytes`.
pub record Toml (F T : Type 0) : Type 0 where
  pub to_string_pretty : ConfigOnDisk F → Result T String
  pub from_str : String → Result T (Config F)
  pub as_bytes : String → List ℕ

unfoldable pub is_configured : {F : Type 0} → Config F → Bool
is_configured c =
    if str_eq c.base_url ""
    then false
    else if str_eq c.username ""
    then false
    else not (str_eq c.password "")

module _ {F T X : Type 0} ⦃f : Float F⦄ where
  unfoldable pub validate_replay_gain_preamp : F → Result (ConfigError T X) (Unit {0})
  validate_replay_gain_preamp value =
      if f.is_finite value then ok tt else err (invalid_value "ReplayGainPreamp" "must be finite")

  -- `url_ok` is whether `Url::parse` takes the text; the rest of the checks only warn.
  unfoldable pub validate :
      (url_ok : String → Bool) → Config F → Result (ConfigError T X) (Unit {0})
  unfolding validate_replay_gain_preamp
  validate url_ok c = and_then (validate_replay_gain_preamp c.replay_gain_preamp) (λ u.
      if str_eq c.base_url ""
      then err (missing_field "BaseURL")
      else if url_ok c.base_url
      then ok tt
      else err (invalid_url c.base_url))

module _ {F T X D : Type 0} (toml : Toml F T) (paths : Paths) (fs : FileSystem D X) where
  unfoldable pub io_result : Result X (Unit {0}) → Result (ConfigError T X) (Unit {0})
  io_result (ok u) = ok u
  io_result (err e) = err (io e)

  module _ ⦃f : Float F⦄ where
    -- The text that goes into the file.
    unfoldable pub contents_of : Config F → Result (ConfigError T X) String
    unfolding validate_replay_gain_preamp as_on_disk
    contents_of c = and_then (validate_replay_gain_preamp c.replay_gain_preamp) (λ u.
        elim (toml.to_string_pretty (as_on_disk c)) [
          | ok text ↦ ok text
          | err e ↦ err (serialize e)
        ])

    unfoldable pub save_to_file : String → Config F → D → Result (ConfigError T X) (Unit {0}) × D
    unfolding contents_of io_result
    save_to_file path c d = elim (contents_of c) [
      | err e ↦ (err e, d)
      | ok text ↦
          let out = atomic_write_bytes_private paths fs path (toml.as_bytes text) d in
          (io_result out.0, out.1)
    ]

    unfoldable pub save_default :
        (config_file : Option String) → Config F → D → Result (ConfigError T X) (Unit {0}) × D
    unfolding save_to_file
    save_default none c d = (err (not_found "default config location"), d)
    save_default (some path) c d = save_to_file path c d

  module _ (m : Machine D X) where
    unfoldable pub parsed : Result X String → Result (ConfigError T X) (Config F)
    parsed (err e) = err (io e)
    parsed (ok contents) = elim (toml.from_str contents) [ ok c ↦ ok c | err e ↦ err (parse e) ]

    -- The warnings about unknown keys change nothing.
    unfoldable pub load_from_file : String → D → Result (ConfigError T X) (Config F) × D
    unfolding parsed resolve_password
    load_from_file path d = elim (fs.path_exists path d) [
      | false ↦ (err (not_found path), d)
      | true ↦ elim (parsed (m.read_to_string path d)) [
        | err e ↦ (err e, d)
        | ok c ↦ let out = resolve_password m c d in (ok out.0, out.1)
      ]
    ]

    -- A file that is not there stands for the defaults.
    unfoldable pub load_default :
        ⦃f : Float F⦄ → (config_file : Option String) → D → Result (ConfigError T X) (Config F) × D
    unfolding load_from_file
    load_default none d = (err (not_found "default config location"), d)
    load_default (some path) d =
        if fs.path_exists path d then load_from_file path d else (ok default_config, d)
