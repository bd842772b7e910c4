-- ===== src/Config/PasswordFile.antt =====
-- config/mod.rs `write_password_file_atomic`: the password in a file of its own. Opening, writing and
-- syncing the temporary file is the call `write_then_sync` of `Files`.
pub mod RoundTrip
use Prim.Native.String.{◌++◌ as str_append}
use ferrosonic.Prelude.{ℕ, Bool, String, Option, none, some, List}
use ferrosonic.Prelude.Results.{Result, ok, err}
use ferrosonic.Files.{FileSystem, Paths, ensure_parent, fsync_parent_dir_with_fs}
use ferrosonic.Config.Secrets.{Machine, expand_tilde}

module _ {D X : Type 0} (paths : Paths) (fs : FileSystem D X) (as_bytes : String → List ℕ) where
  unfoldable pub move_into : String → D → Result X (Unit {0}) × D
  unfolding fsync_parent_dir_with_fs
  move_into p d =
      let moved = fs.rename (paths.with_extension p "tmp") p d in
      elim moved.0 [
        | ok u ↦ (ok tt, fsync_parent_dir_with_fs paths fs p moved.1)
        | err e ↦ (err e, moved.1)
      ]

  unfoldable pub write_at : String → String → D → Result X (Unit {0}) × D
  unfolding move_into ensure_parent
  write_at p password d =
      let made = ensure_parent paths fs p d in
      let wrote =
        fs.write_then_sync (paths.with_extension p "tmp") (as_bytes (str_append password "\n"))
          (some 384) made.1 in
      elim made.0 [
        | err e ↦ (err e, made.1)
        | ok u ↦ elim wrote.0 [ ok v ↦ move_into p wrote.1 | err e ↦ (err e, wrote.1) ]
      ]

  unfoldable pub write_password_file_atomic :
      (m : Machine D X) → String → String → D → Result X (Unit {0}) × D
  unfolding write_at expand_tilde
  write_password_file_atomic m path password d = write_at (expand_tilde m path) password d
