-- ===== src/Daemon/Settings/Server.antt =====
-- daemon/settings_ops.rs `update_server_config`: new credentials, stored before they are live. What
-- is modelled is the transaction; the refreshes of the library that follow it are requests to the
-- server.
use ferrosonic.Prelude.{
  ◌+◌, Bool, true, false, not, ◌&&◌, ◌||◌, String, str_eq, Option, some, if◌then◌else◌,
}
use ferrosonic.Prelude.Int.{ℤ}
use ferrosonic.Prelude.Results.{Result, ok, err}
use ferrosonic.Float.{Float}
use ferrosonic.SecretStore
use ferrosonic.SecretStore.{KeyStoreError, unavailable, backend}
use ferrosonic.Config.{Config}
use ferrosonic.Config.Disk.{pw_file_set}
use ferrosonic.Config.Filters.{is_some_and}
use ferrosonic.Config.Secrets.{or_empty}
use ferrosonic.Config.PasswordFile.{write_password_file_atomic}
use ferrosonic.Daemon.World.{Client}
use ferrosonic.Daemon.Core.{Core}
use ferrosonic.Daemon.Settings.{
  Error, config, io, key_store, subsonic, SubsonicError, Host, save, commit_config,
}

-- ipc/protocol.rs.
pub data PasswordStorage : Type 0 where
  keyring password_file password_eval inline : PasswordStorage

-- subsonic/client.rs `SubsonicClient::new`: a client for the login, or why the URL or the HTTP library
-- refused; both are third-party.
abbrev pub MakeClient : Type 0
MakeClient = (base_url username password : String) → Result SubsonicError Client

-- `set_music_folder`.
unfoldable pub set_music_folder : Option ℤ → Client → Client
set_music_folder id client = record client { music_folder_id = id }

module _ {F W T X : Type 0} ⦃f : Float F⦄ (host : Host F W T X) where
  open host use {paths, fs, machine, toml}

  -- The candidate without an inline secret, and where the secret is.
  abbrev external : Bool → Config F → Config F
  external in_keyring cfg = record cfg { password_keyring = in_keyring; password = "" }

  -- The side effect on the secret, which goes first: what the candidate becomes of it.
  unfoldable pub place_in_keyring :
      String → Config F → W → Result (Error T X) (Config F × PasswordStorage) × W
  place_in_keyring password cfg w =
      let out = SecretStore.store machine.keys cfg.base_url cfg.username password w in
      elim out.0 [
        | ok u ↦ (ok (external true cfg, keyring), out.1)
        | err (unavailable e) ↦
            (ok (record cfg { password_keyring = false; password = password }, inline), out.1)
        | err (backend e) ↦ (err (key_store (backend e)), out.1)
      ]

  unfoldable pub place_in_file :
      String → String → Config F → W → Result (Error T X) (Config F × PasswordStorage) × W
  unfolding write_password_file_atomic
  place_in_file pf password cfg w =
      let out = write_password_file_atomic paths fs toml.as_bytes machine pf password w in
      elim out.0 [
        | ok u ↦ (ok (external false cfg, password_file), out.1)
        | err e ↦ (err (io e), out.1)
      ]

  unfoldable pub place_secret :
      String → Config F → W → Result (Error T X) (Config F × PasswordStorage) × W
  unfolding place_in_keyring place_in_file pw_file_set
  place_secret password cfg w = elim (is_some_and (λ e. true) cfg.password_eval) [
    | true ↦ (ok (external false cfg, password_eval), w)
    | false ↦ elim (pw_file_set cfg.password_file) [
      | true ↦ place_in_file (or_empty cfg.password_file) password cfg w
      | false ↦ place_in_keyring password cfg w
    ]
  ]

  abbrev pub is_keyring : PasswordStorage → Bool
  is_keyring keyring = true
  is_keyring _ = false

  abbrev pub key_changed : Config F → String → String → Bool
  key_changed old base_url username =
      not (str_eq old.base_url base_url) || not (str_eq old.username username)

  -- Whether a new keychain entry is to go again after a save that failed.
  unfoldable pub undo_store : Config F → Config F → PasswordStorage → W → W
  undo_store old cfg storage w =
      if is_keyring storage && key_changed old cfg.base_url cfg.username
      then (SecretStore.delete machine.keys cfg.base_url cfg.username w).1
      else w

  -- The old keychain entry, if the login or its place has changed.
  unfoldable pub drop_orphan : Config F → Config F → PasswordStorage → W → W
  drop_orphan old cfg storage w =
      if old.password_keyring
        && (not (is_keyring storage) || key_changed old cfg.base_url cfg.username)
      then (SecretStore.delete machine.keys old.base_url old.username w).1
      else w

  -- The saved candidate becomes live with the typed password, and the client is exchanged.
  unfoldable pub commit_server :
      String → Client → Config F → PasswordStorage → W → Core F W → Core F W
  unfolding drop_orphan
  commit_server password client cfg storage w c =
      record (commit_config host (record cfg { password = password })
        (drop_orphan c.state.config cfg storage w) c) {
          config_gen = c.config_gen + 1;
          subsonic = some client;
        }

  unfoldable pub save_server :
      String
      → Client
      → Config F × PasswordStorage
      → W
      → Core F W
      → Result (Error T X) PasswordStorage × Core F W
  unfolding commit_server undo_store
  save_server password client (cfg, storage) w c =
      let saved = save host cfg w in
      elim saved.0 [
        | err e ↦
            (err (config e), record c { world = undo_store c.state.config cfg storage saved.1 })
        | ok u ↦ (ok storage, commit_server password client cfg storage saved.1 c)
      ]

  unfoldable pub server_transaction :
      MakeClient
      → (base_url username password : String) → Core F W
      → Result (Error T X) PasswordStorage × Core F W
  unfolding set_music_folder place_secret save_server
  server_transaction make base_url username password c =
      let candidate = record c.state.config {
        base_url = base_url;
        username = username;
        password_from_env = false;
      } in
      let placed = place_secret password candidate c.world in
      elim (make base_url username password) [
        | err e ↦ (err (subsonic e), c)
        | ok new_client ↦ elim placed.0 [
          | err e ↦ (err e, record c { world = placed.1 })
          | ok secret ↦
              save_server password (set_music_folder c.state.config.music_folder_id new_client)
                secret placed.1 c
        ]
      ]
