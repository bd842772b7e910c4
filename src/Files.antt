-- ===== src/Files.antt =====
-- io_util.rs: files that are replaced in one go. The trait `FileSystem` is the interface of the
-- source; `D` is the disk behind it and `X` its errors.
pub mod Crash
pub mod WriteBack
pub mod PowerLoss
pub mod Real
use Prim.Native.String.{◌++◌ as str_append}
use ferrosonic.Prelude.{
  ℕ, Bool, true, false, not, ◌&&◌, String, str_eq, Option, none, some, List, if◌then◌else◌,
}
use ferrosonic.Prelude.Results.{Result, ok, err}

pub record FileSystem (D X : Type 0) : Type 0 where
  pub create_dir_all : String → D → Result X (Unit {0}) × D
  pub path_exists : String → D → Bool
  pub write_then_sync : String → List ℕ → Option ℕ → D → Result X (Unit {0}) × D
  pub rename : String → String → D → Result X (Unit {0}) × D
  pub remove_file_if_exists : String → D → Result X (Unit {0}) × D
  pub open_and_sync_dir : String → D → Result X (Unit {0}) × D

-- `std::path::Path`, on which the program calls nothing else.
pub record Paths : Type 0 where
  pub parent : String → Option String
  pub extension : String → Option String
  pub with_extension : String → String → String

-- The temporary file beside a file, `with_extension(format!("{ext}.tmp"))`.
unfoldable pub tmp_of : Paths → String → String
tmp_of paths path =
    let ext : String = elim (paths.extension path) [ some e ↦ e | none ↦ "dat" ] in
    paths.with_extension path (str_append ext ".tmp")

module _ {D X : Type 0} (paths : Paths) (fs : FileSystem D X) where
  unfoldable pub fsync_parent_dir_with_fs : String → D → D
  fsync_parent_dir_with_fs path d = elim (paths.parent path) [
    | some dir ↦ (fs.open_and_sync_dir dir d).1
    | none ↦ d
  ]

  -- The directory that the file stands in is made if it is missing.
  unfoldable pub ensure_parent : String → D → Result X (Unit {0}) × D
  ensure_parent path d = elim (paths.parent path) [
    | none ↦ (ok tt, d)
    | some dir ↦
        if not (str_eq dir "") && not (fs.path_exists dir d)
        then fs.create_dir_all dir d
        else (ok tt, d)
  ]

  -- The renaming, the last step that can fail.
  unfoldable pub publish : String → D → Result X (Unit {0}) × D
  unfolding fsync_parent_dir_with_fs tmp_of
  publish path d =
      let moved = fs.rename (tmp_of paths path) path d in
      elim moved.0 [
        | ok u ↦ (ok tt, fsync_parent_dir_with_fs path moved.1)
        | err e ↦ (err e, (fs.remove_file_if_exists (tmp_of paths path) moved.1).1)
      ]

  unfoldable pub write_and_publish : String → List ℕ → Option ℕ → D → Result X (Unit {0}) × D
  unfolding publish tmp_of
  write_and_publish path body mode d =
      let wrote = fs.write_then_sync (tmp_of paths path) body mode d in
      elim wrote.0 [
        | ok u ↦ publish path wrote.1
        | err e ↦ (err e, (fs.remove_file_if_exists (tmp_of paths path) wrote.1).1)
      ]

  unfoldable pub atomic_write_bytes_with_fs_mode :
      String → List ℕ → Option ℕ → D → Result X (Unit {0}) × D
  unfolding ensure_parent write_and_publish
  atomic_write_bytes_with_fs_mode path body mode d =
      let made = ensure_parent path d in
      elim made.0 [ ok u ↦ write_and_publish path body mode made.1 | err e ↦ (err e, made.1) ]

  unfoldable pub atomic_write_bytes : String → List ℕ → D → Result X (Unit {0}) × D
  unfolding atomic_write_bytes_with_fs_mode
  atomic_write_bytes path body d = atomic_write_bytes_with_fs_mode path body none d

  -- Mode 0o600.
  unfoldable pub atomic_write_bytes_private : String → List ℕ → D → Result X (Unit {0}) × D
  unfolding atomic_write_bytes_with_fs_mode
  atomic_write_bytes_private path body d = atomic_write_bytes_with_fs_mode path body (some 384) d
