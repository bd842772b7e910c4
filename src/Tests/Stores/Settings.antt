-- ===== src/Tests/Stores/Settings.antt =====
-- The examples of the properties on settings and passwords.
use Prim.Native.String.{◌++◌ as str_append}
use ferrosonic.Prelude.{ℕ, ◌≡◌, ◌≢◌, ◌∙◌, refl, ap, true, String, Option, none, some, List, [], ◌∷◌}
use ferrosonic.Prelude.Text.{codes}
use ferrosonic.Prelude.Results.{Result, ok, err}
use ferrosonic.Prelude.Assoc
use ferrosonic.Prelude.Assoc.{lookup, lookup-contains_key}
use ferrosonic.Float.{millis}
use ferrosonic.Files.{
  atomic_write_bytes_private, atomic_write_bytes_with_fs_mode, ensure_parent, write_and_publish,
  publish, tmp_of,
}
use ferrosonic.SecretStore.{KeyStore, unavailable}
use ferrosonic.Config.{Config, default_config}
use ferrosonic.Config.Repeat.{all}
use ferrosonic.Config.Disk.{as_on_disk, of_disk, pw_file_set}
use ferrosonic.Config.Secrets.{
  Machine, finished, resolve_password, from_file, expand_tilde, strip_prefix,
}
use ferrosonic.Config.Secrets.Independence.{named_source, resolve_password-independent}
use ferrosonic.Config.Secrets.Lines.{is_line}
use ferrosonic.Config.PasswordFile.{write_password_file_atomic, write_at, move_into}
use ferrosonic.Config.PasswordFile.RoundTrip.{from_file-write}
use ferrosonic.Config.Loading.{
  Toml, save_to_file, load_from_file, contents_of, io_result, validate_replay_gain_preamp,
}
use ferrosonic.Config.Loading.RoundTrip.{IsFaithful, IsReadable, load-save}
use ferrosonic.SecretStore
use ferrosonic.Config.Loading.{save_default}
use ferrosonic.Daemon.Core.{Core}
use ferrosonic.Daemon.Settings.{Host, persist_config, subsonic, auth_failed}
use ferrosonic.Daemon.Settings.InSync.{InSync, Holds, persist_config-InSync}
use ferrosonic.Daemon.Settings.Server.{
  MakeClient, keyring, inline, server_transaction, place_secret, place_in_keyring, save_server,
}
use ferrosonic.Daemon.Settings.Transactions.{server_transaction-err, server_transaction-secret}
use ferrosonic.Tests.{core_on, state}
use ferrosonic.Tests.Stores.{Disk, disk_fs, content, flat, disk_fs-IsFileSystem, apart}

abbrev stored_config : Config ℕ
stored_config = record default_config {
  base_url = "http://host";
  username = "u";
  password_keyring = true;
}

-- Its text is "settings"; no other text is made or read.
abbrev toml : Toml ℕ ℕ
toml = record {
  to_string_pretty = λ disk. ok "settings";
  from_str = λ text. ok (of_disk (as_on_disk stored_config));
  as_bytes = codes;
}

abbrev file_text : String → Option (List ℕ) → Result ℕ String
file_text text (some bytes) = ok text
file_text text none = err 3

-- A keychain that holds one password, and files that hold one text.
abbrev machine : String → Machine Disk ℕ
machine text = record {
  env = λ name. none;
  read_to_string = λ p d. file_text text (lookup p d);
  run_command = λ prog args d. (finished (some 0) "evaluated" "", d);
  keys = record {
    get = λ account d. (ok (some "kept"), d);
    set = λ account secret d. (ok tt, d);
    delete = λ account d. (ok tt, d);
  };
}

named : named_source stored_config ≡ true
unfolding named_source pw_file_set
named = refl

resolve_password-independent_example :
    resolve_password (machine "t") (record stored_config { password = "stale" }) []
    ≡ resolve_password (machine "t") stored_config []
resolve_password-independent_example =
    resolve_password-independent (machine "t") stored_config "stale" [] named

is_a_line : is_line "hunter2" ≡ true
unfolding is_line
is_a_line = refl

written :
    (write_password_file_atomic flat disk_fs codes (machine "hunter2\n") "pw" "hunter2" []).0
    ≡ ok tt
unfolding write_password_file_atomic write_at move_into ensure_parent expand_tilde strip_prefix
    lookup Assoc.insert
written = refl

from_file-write_example :
    (from_file
      (machine "hunter2\n")
      "pw"
      stored_config
      (write_password_file_atomic flat disk_fs codes
        (machine "hunter2\n")
        "pw"
        "hunter2"
        []).1).0.password
    ≡ "hunter2"
from_file-write_example =
    from_file-write flat disk_fs codes (machine "hunter2\n") content stored_config "pw" "hunter2" []
      disk_fs-IsFileSystem reads_back is_a_line written
  where
    reads_back :
        (e : Disk)
        → content e (expand_tilde (machine "hunter2\n") "pw")
          ≡ some (codes (str_append "hunter2" "\n"))
        → file_text "hunter2\n" (lookup (expand_tilde (machine "hunter2\n") "pw") e)
          ≡ ok "hunter2\n"
    reads_back e h = ap (file_text "hunter2\n") h

saved : (save_to_file toml flat disk_fs "config.toml" stored_config []).0 ≡ ok tt
unfolding save_to_file contents_of io_result validate_replay_gain_preamp atomic_write_bytes_private
    atomic_write_bytes_with_fs_mode ensure_parent write_and_publish publish tmp_of lookup
    Assoc.insert
saved = refl

toml-IsFaithful : IsFaithful toml (as_on_disk stored_config)
toml-IsFaithful = record { back = λ text h. refl }

settings-IsReadable :
    (text : String)
    → toml.to_string_pretty (as_on_disk stored_config) ≡ ok text
    → IsReadable toml disk_fs (machine "settings") content "config.toml" text
settings-IsReadable text made = record {
  exists = λ d h. lookup-contains_key "config.toml" (codes text) d h;
  reads = λ d h. ap (file_text "settings") h ∙ made;
}

load-save_example :
    (load_from_file toml flat disk_fs
      (machine "settings")
      "config.toml"
      (save_to_file toml flat disk_fs "config.toml" stored_config []).1).0
    ≡ ok
        (resolve_password
          (machine "settings")
          stored_config
          (save_to_file toml flat disk_fs "config.toml" stored_config []).1).0
load-save_example =
    load-save toml flat disk_fs (machine "settings") content "config.toml" stored_config []
      disk_fs-IsFileSystem settings-IsReadable toml-IsFaithful apart refl saved

abbrev host : Host ℕ Disk ℕ ℕ
host = record {
  toml = toml;
  paths = flat;
  fs = disk_fs;
  machine = machine "settings";
  config_file = some "config.toml";
}

abbrev stored_core : Core ℕ Disk
stored_core =
    core_on (("config.toml", codes "settings") ∷ [])
      (record (state all 2) { config = stored_config })

stored_core-InSync : InSync host content "config.toml" stored_core
unfolding contents_of validate_replay_gain_preamp lookup
stored_core-InSync = ("settings", (refl, refl))

persist_config-InSync_example :
    InSync host content "config.toml"
      (persist_config host (λ c. record c { cava = true }) stored_core).1
persist_config-InSync_example =
    persist_config-InSync host content "config.toml" (λ c. record c { cava = true }) stored_core
      refl disk_fs-IsFileSystem apart stored_core-InSync

abbrev refuse : MakeClient
refuse base_url username password = err auth_failed

refused :
    (server_transaction host refuse "http://new" "v" "q" stored_core).0 ≡ err (subsonic auth_failed)
unfolding server_transaction
refused = refl

server_transaction-err_example :
    (server_transaction host refuse "http://new" "v" "q" stored_core).1 ≡ record stored_core {
      world = (server_transaction host refuse "http://new" "v" "q" stored_core).1.world;
    }
server_transaction-err_example =
    server_transaction-err host refuse "http://new" "v" "q" stored_core (subsonic auth_failed)
      refused

abbrev accept : MakeClient
accept base_url username password = ok (record {
  base_url = base_url;
  username = username;
  password = password;
  music_folder_id = none;
})

accepted : (server_transaction host accept "http://new" "v" "q" stored_core).0 ≡ ok keyring
unfolding server_transaction place_secret place_in_keyring save_server save_to_file save_default
    contents_of io_result validate_replay_gain_preamp atomic_write_bytes_private
    atomic_write_bytes_with_fs_mode ensure_parent write_and_publish publish tmp_of lookup
    Assoc.insert SecretStore.store pw_file_set
accepted = refl

not_inline : keyring ≢ inline
not_inline h = cc

server_transaction-secret_example :
    let after : Core ℕ Disk = (server_transaction host accept "http://new" "v" "q" stored_core).1 in
    Holds host content "config.toml" (as_on_disk after.state.config) after.world
    × ((as_on_disk after.state.config).password ≡ none)
unfolding SecretStore.delete
server_transaction-secret_example =
    server_transaction-secret host content "config.toml" accept "http://new" "v" "q" stored_core
      keyring refl disk_fs-IsFileSystem apart (λ base_url username w. refl) accepted not_inline
