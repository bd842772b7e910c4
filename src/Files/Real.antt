-- ===== src/Files/Real.antt =====
-- io_util.rs `RealFs`: the file system of the source over the standard library's calls.
use ferrosonic.Prelude.{ℕ, Bool, true, false, String, Option, List, ◌≡◌, inl, inr, arith}
use ferrosonic.Prelude.Results.{Result, ok, err, Result-cases}
use ferrosonic.Files.{FileSystem}

-- `std::fs` on a disk `D` with its errors `X` and its open files `H`; `open` creates and truncates.
pub record Os (D X H : Type 0) : Type 0 where
  pub create_dir_all : String → D → Result X (Unit {0}) × D
  pub exists : String → D → Bool
  pub open_file : String → Option ℕ → D → Result X H × D
  pub open_dir : String → D → Result X H × D
  pub write_all : H → List ℕ → D → Result X (Unit {0}) × D
  pub sync_all : H → D → Result X (Unit {0}) × D
  pub rename : String → String → D → Result X (Unit {0}) × D
  pub remove_file : String → D → Result X (Unit {0}) × D
  pub is_not_found : X → Bool

module _ {D X H : Type 0} (os : Os D X H) where
  unfoldable pub write_then_sync : String → List ℕ → Option ℕ → D → Result X (Unit {0}) × D
  write_then_sync path body mode d =
      let opened = os.open_file path mode d in
      elim opened.0 [
        | err e ↦ (err e, opened.1)
        | ok f ↦
            let wrote = os.write_all f body opened.1 in
            elim wrote.0 [ err e ↦ (err e, wrote.1) | ok u ↦ os.sync_all f wrote.1 ]
      ]

  -- A file that is not there counts as removed.
  unfoldable pub remove_file_if_exists : String → D → Result X (Unit {0}) × D
  remove_file_if_exists path d =
      let removed = os.remove_file path d in
      elim removed.0 [
        | ok u ↦ (ok tt, removed.1)
        | err e ↦ elim (os.is_not_found e) [
          | true ↦ (ok tt, removed.1)
          | false ↦ (err e, removed.1)
        ]
      ]

  unfoldable pub open_and_sync_dir : String → D → Result X (Unit {0}) × D
  open_and_sync_dir path d =
      let opened = os.open_dir path d in
      elim opened.0 [ err e ↦ (err e, opened.1) | ok dir ↦ os.sync_all dir opened.1 ]

  unfoldable pub real_fs : FileSystem D X
  unfolding write_then_sync remove_file_if_exists open_and_sync_dir
  real_fs = record {
    create_dir_all = os.create_dir_all;
    path_exists = os.exists;
    write_then_sync = write_then_sync;
    rename = os.rename;
    remove_file_if_exists = remove_file_if_exists;
    open_and_sync_dir = open_and_sync_dir;
  }

  -- Where writing reports success, the file was opened, took all of the bytes and was then synced.
  write_then_sync-synced :
      (path : String) (body : List ℕ) (mode : Option ℕ) (d : D)
      → (write_then_sync path body mode d).0 ≡ ok tt
      → (f : H) × (((os.open_file path mode d).0 ≡ ok f)
          × (((os.write_all f body (os.open_file path mode d).1).0 ≡ ok tt)
              × ((os.sync_all f (os.write_all f body (os.open_file path mode d).1).1).0 ≡ ok tt)))
  unfolding write_then_sync
  write_then_sync-synced path body mode d h =
      let opened = os.open_file path mode d in
      elim (Result-cases opened.0) [
        | inr (e, q) ↦ absurd (ground (arith, q, h))
        | inl (f, q) ↦ elim (Result-cases (os.write_all f body opened.1).0) [
          | inr (e, w) ↦ absurd (ground (arith, q, w, h))
          | inl (u, w) ↦ (f, (q, (ground (arith, w), ground (arith, q, w, h))))
        ]
      ]
