-- ===== src/Tests/Stores.antt =====
-- The examples of the properties on files and settings: a disk that is a list of files.
mod Settings
mod Power
use Prim.Native.String.{◌++◌ as str_append}
use ferrosonic.Prelude.{
  ℕ, ◌≡◌, ◌≢◌, ◌⊎◌, refl, sym, arith, Bool, true, false, String, str_eq, eq_iff, Option, none, some,
  List, [], ◌∷◌,
}
use ferrosonic.Prelude.Text.{codes}
use ferrosonic.Prelude.Results.{Result, ok, err}
use ferrosonic.Prelude.Assoc
use ferrosonic.Prelude.Assoc.{lookup, contains_key, lookup-insert, lookup-remove}
use ferrosonic.Files.{FileSystem, Paths, tmp_of, atomic_write_bytes_with_fs_mode}
use ferrosonic.Files.Crash.{IsFileSystem, Replaced, atomic_write-Replaced}

abbrev pub Disk : Type 0
Disk = List (String × List ℕ)

abbrev pub move_file : Option (List ℕ) → String → String → Disk → Result ℕ (Unit {0}) × Disk
move_file none q p d = (err 2, d)
move_file (some body) q p d = (ok tt, Assoc.insert p body (Assoc.remove q d))

abbrev pub disk_fs : FileSystem Disk ℕ
disk_fs = record {
  create_dir_all = λ dir d. (ok tt, d);
  path_exists = λ p d. contains_key p d;
  write_then_sync = λ p body mode d. (ok tt, Assoc.insert p body d);
  rename = λ q p d. move_file (lookup q d) q p d;
  remove_file_if_exists = λ p d. (ok tt, Assoc.remove p d);
  open_and_sync_dir = λ dir d. (ok tt, d);
}

abbrev pub content : Disk → String → Option (List ℕ)
content d p = lookup p d

-- The temporary file of "config.toml" is "dat.tmp".
abbrev pub flat : Paths
flat = record { parent = λ p. none; extension = λ p. none; with_extension = λ p ext. ext }

pub disk_fs-IsFileSystem : IsFileSystem disk_fs content
disk_fs-IsFileSystem = record {
  create_dir_all-keeps = λ dir p d. refl;
  sync_dir-keeps = λ dir p d. refl;
  remove-keeps = λ q p d h. ground (arith, lookup-remove q p d, eq_iff q p);
  write-keeps = λ q p body mode d h. ground (arith, lookup-insert q p body d, eq_iff p q);
  write-ok = λ q body mode d h. ground (arith, lookup-insert q q body d, eq_iff q q);
  rename-ok = λ q p d h. moved (lookup q d) q p d h;
  rename-keeps = λ q p r d h k. others (lookup q d) q p r d h k;
  rename-err = λ q p r d e h. failed (lookup q d) q p r d e h;
}
  where
    moved :
        (b : Option (List ℕ)) (q p : String) (d : Disk)
        → (move_file b q p d).0 ≡ ok tt
        → lookup p (move_file b q p d).1 ≡ b
    moved none q p d h = absurd (ground arith)
    moved (some body) q p d h =
        ground (arith, lookup-insert p p body (Assoc.remove q d), eq_iff p p)

    others :
        (b : Option (List ℕ)) (q p r : String) (d : Disk)
        → q ≢ r
        → p ≢ r
        → lookup r (move_file b q p d).1 ≡ lookup r d
    others none q p r d h k = refl
    others (some body) q p r d h k = ground (
      arith,
      lookup-insert p r body (Assoc.remove q d),
      lookup-remove q r d,
      eq_iff r p,
      eq_iff q r,
    )

    failed :
        (b : Option (List ℕ)) (q p r : String) (d : Disk) (e : ℕ)
        → (move_file b q p d).0 ≡ err e
        → lookup r (move_file b q p d).1 ≡ lookup r d
    failed none q p r d e h = refl
    failed (some body) q p r d e h = absurd (ground arith)

pub apart : tmp_of flat "config.toml" ≢ "config.toml"
unfolding tmp_of
apart h = ground (arith, eq_iff "dat.tmp" "config.toml")

abbrev pub old_disk : Disk
old_disk = ("config.toml", 1 ∷ []) ∷ []

atomic_write-Replaced_example :
    Replaced flat disk_fs content "config.toml"
      (5 ∷ [])
      old_disk
      (atomic_write_bytes_with_fs_mode flat disk_fs "config.toml" (5 ∷ []) none old_disk)
atomic_write-Replaced_example =
    atomic_write-Replaced flat disk_fs content "config.toml" (5 ∷ []) none old_disk
      disk_fs-IsFileSystem apart
