-- ===== src/Tests/Stores/Power.antt =====
-- A disk with a write-back cache, on which the property on power losses runs: the files as they are
-- seen, and as a power loss leaves them.
use ferrosonic.Prelude.{
  ℕ, ◌≢◌, arith, eq_iff, refl, inl, inr, true, String, Option, none, some, List, [], ◌∷◌,
}
use ferrosonic.Prelude.Assoc.{lookup}
use ferrosonic.Prelude.Results.{ok}
use ferrosonic.Files.{FileSystem, Paths, tmp_of, atomic_write_bytes_with_fs_mode}
use ferrosonic.Files.WriteBack.{IsWriteBack, Lasts}
use ferrosonic.Files.PowerLoss.{is_on, cut, atomic_write-survives_power_loss}
use ferrosonic.Tests.Stores.{Disk, disk_fs, content, disk_fs-IsFileSystem, old_disk}

abbrev seen : Disk × Disk → String → Option (List ℕ)
seen s p = content s.0 p

abbrev left : Disk × Disk → String → Option (List ℕ)
left s p = content s.1 p

abbrev back_fs : FileSystem (Disk × Disk) ℕ
back_fs = record {
  create_dir_all = λ dir s. (ok tt, s);
  path_exists = λ p s. disk_fs.path_exists p s.0;
  write_then_sync =
      λ p body mode s. let out = disk_fs.write_then_sync p body mode s.0 in (out.0, (out.1, s.1));
  rename = λ q p s. let out = disk_fs.rename q p s.0 in (out.0, (out.1, s.1));
  remove_file_if_exists =
      λ p s. let out = disk_fs.remove_file_if_exists p s.0 in (out.0, (out.1, s.1));
  open_and_sync_dir = λ dir s. (ok tt, (s.0, s.0));
}

abbrev in_dir : Paths
in_dir = record { parent = λ p. some "dir"; extension = λ p. none; with_extension = λ p ext. ext }

back_fs-IsWriteBack : IsWriteBack in_dir back_fs seen left (λ s. true)
back_fs-IsWriteBack = record {
  create_dir_all-written = λ dir p s. refl;
  create_dir_all-durable = λ dir p s. inl refl;
  write-written = λ q p body mode s h. disk_fs-IsFileSystem.write-keeps q p body mode s.0 h;
  write-durable = λ q p body mode s h. inl refl;
  write-ok = λ q body mode s h. disk_fs-IsFileSystem.write-ok q body mode s.0 h;
  remove-durable = λ q p s h. inl refl;
  rename-ok = λ q p s h. disk_fs-IsFileSystem.rename-ok q p s.0 h;
  rename-err = λ q p s e h. disk_fs-IsFileSystem.rename-err q p p s.0 e h;
  rename-durable = λ q p s. inl refl;
  sync_dir-durable = λ dir p s. inr refl;
  sync_dir-on = λ dir p s above up. refl;
}

apart_in_dir : tmp_of in_dir "config.toml" ≢ "config.toml"
unfolding tmp_of
apart_in_dir h = ground (arith, eq_iff "dat.tmp" "config.toml")

atomic_write-survives_power_loss_example :
    Lasts in_dir
      (cut 9 back_fs)
      (λ s. seen s.1)
      (λ s. left s.1)
      is_on
      "config.toml"
      "dir"
      (some (1 ∷ []))
      (5 ∷ [])
      (atomic_write_bytes_with_fs_mode in_dir
        (cut 9 back_fs)
        "config.toml"
        (5 ∷ [])
        none
        (9, (old_disk, old_disk)))
unfolding lookup
atomic_write-survives_power_loss_example =
    atomic_write-survives_power_loss 9 in_dir back_fs seen left 9 "config.toml" "dir" (5 ∷ []) none
      (old_disk, old_disk) back_fs-IsWriteBack apart_in_dir refl refl
