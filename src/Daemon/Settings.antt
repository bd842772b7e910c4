-- ===== src/Daemon/Settings.antt =====
-- daemon/settings_ops.rs: the settings on disk and in the daemon. The disk and the keychain are in
-- the external state. A blocking task that panics is not modelled.
pub mod Setters
pub mod Server
pub mod InSync
pub mod Transactions
pub mod Requests
pub mod Ranges
use ferrosonic.Prelude.{ℕ, Bool, String, Option}
use ferrosonic.Prelude.Results.{Result, ok, err}
use ferrosonic.Prelude.Int.{ℤ}
use ferrosonic.Float.{Float}
use ferrosonic.Files.{FileSystem, Paths}
use ferrosonic.SecretStore.{KeyStoreError}
use ferrosonic.Config.{Config}
use ferrosonic.Config.Secrets.{Machine}
use ferrosonic.Config.Loading
use ferrosonic.Config.Loading.{Toml, ConfigError}
use ferrosonic.Daemon.Core.{Core}

-- `enum SubsonicError`; the errors of the url and HTTP libraries are their texts.
pub data SubsonicError : Type 0 where
  http : String → SubsonicError
  auth_failed not_configured : SubsonicError
  api : (code : ℤ) → (message : String) → SubsonicError
  http_status : ℕ → SubsonicError
  parse url_parse : String → SubsonicError

-- The variants of error.rs `Error` that these operations return.
pub data Error (T X : Type 0) : Type 0 where
  config : ConfigError T X → Error T X
  subsonic : SubsonicError → Error T X
  io : X → Error T X
  key_store : KeyStoreError → Error T X

-- What the settings are stored with; `config_file` is the path of the settings, if there is one.
pub record Host (F W T X : Type 0) : Type 0 where
  pub toml : Toml F T
  pub paths : Paths
  pub fs : FileSystem W X
  pub machine : Machine W X
  pub config_file : Option String

module _ {F W T X : Type 0} ⦃f : Float F⦄ (host : Host F W T X) where
  open host use {toml, paths, fs, config_file}

  abbrev pub save : Config F → W → Result (ConfigError T X) (Unit {0}) × W
  save = Loading.save_default toml paths fs config_file

  abbrev pub commit_config : Config F → W → Core F W → Core F W
  commit_config candidate w c = record c {
    state = record c.state { config = candidate };
    world = w;
  }

  -- `persist_config`: the candidate is saved, and only then live.
  unfoldable pub persist_config :
      (Config F → Config F) → Core F W → Result (Error T X) (Unit {0}) × Core F W
  persist_config mutate c =
      let candidate = mutate c.state.config in
      let saved = save candidate c.world in
      elim saved.0 [
        | err e ↦ (err (config e), record c { world = saved.1 })
        | ok u ↦ (ok tt, commit_config candidate saved.1 c)
      ]
