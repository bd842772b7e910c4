-- ===== src/Files/WriteBack.antt =====
-- A replacement on a disk with a write-back cache: what a power loss leaves of it.
use ferrosonic.Prelude.{
  ℕ, Bool, true, ◌≡◌, ◌≢◌, ◌∙◌, ◌⊎◌, refl, sym, subst, inl, inr, arith, String, Option, some, List,
  Bool-cases, Option-cases, if◌then◌else◌,
}
use ferrosonic.Prelude.Results.{Result, ok, err, Result-cases}
use ferrosonic.Files.{
  FileSystem, Paths, tmp_of, ensure_parent, fsync_parent_dir_with_fs, publish, write_and_publish,
  atomic_write_bytes_with_fs_mode,
}

-- What POSIX promises of a disk with a write-back cache. `written` is what of the file that bears a name
-- is on the disk, `durable` what the name stands for after a power loss: until the directory is
-- synced, that is what it stood for before, or already the file. `on` says that there is power.
pub record IsWriteBack {D X : Type 0} (paths : Paths) (fs : FileSystem D X)
    (written durable : D → String → Option (List ℕ)) (on : D → Bool) : Type 0 where
  pub create_dir_all-written :
      (dir p : String) (d : D) → written (fs.create_dir_all dir d).1 p ≡ written d p
  pub create_dir_all-durable :
      (dir p : String) (d : D)
      → (durable (fs.create_dir_all dir d).1 p ≡ durable d p)
        ⊎ (durable (fs.create_dir_all dir d).1 p ≡ written d p)
  pub write-written :
      (q p : String) (body : List ℕ) (mode : Option ℕ) (d : D)
      → q ≢ p
      → written (fs.write_then_sync q body mode d).1 p ≡ written d p
  pub write-durable :
      (q p : String) (body : List ℕ) (mode : Option ℕ) (d : D)
      → q ≢ p
      → (durable (fs.write_then_sync q body mode d).1 p ≡ durable d p)
        ⊎ (durable (fs.write_then_sync q body mode d).1 p ≡ written d p)
  pub write-ok :
      (q : String) (body : List ℕ) (mode : Option ℕ) (d : D)
      → (fs.write_then_sync q body mode d).0 ≡ ok tt
      → written (fs.write_then_sync q body mode d).1 q ≡ some body
  pub remove-durable :
      (q p : String) (d : D)
      → q ≢ p
      → (durable (fs.remove_file_if_exists q d).1 p ≡ durable d p)
        ⊎ (durable (fs.remove_file_if_exists q d).1 p ≡ written d p)
  pub rename-ok :
      (q p : String) (d : D)
      → (fs.rename q p d).0 ≡ ok tt
      → written (fs.rename q p d).1 p ≡ written d q
  pub rename-err :
      (q p : String) (d : D) (e : X)
      → (fs.rename q p d).0 ≡ err e
      → written (fs.rename q p d).1 p ≡ written d p
  pub rename-durable :
      (q p : String) (d : D)
      → (durable (fs.rename q p d).1 p ≡ durable d p)
        ⊎ ((durable (fs.rename q p d).1 p ≡ written d p)
            ⊎ (durable (fs.rename q p d).1 p ≡ written d q))
  pub sync_dir-durable :
      (dir p : String) (d : D)
      → (durable (fs.open_and_sync_dir dir d).1 p ≡ durable d p)
        ⊎ (durable (fs.open_and_sync_dir dir d).1 p ≡ written d p)
  pub sync_dir-on :
      (dir p : String) (d : D)
      → paths.parent p ≡ some dir
      → on (fs.open_and_sync_dir dir d).1 ≡ true
      → durable (fs.open_and_sync_dir dir d).1 p ≡ written d p

module _ {D X : Type 0} (paths : Paths) (fs : FileSystem D X)
    (written durable : D → String → Option (List ℕ)) (on : D → Bool) (path dir : String)
    (old : Option (List ℕ)) (body : List ℕ) where
  -- After a power loss the name stands for the old file or for all of the new one.
  abbrev pub Safe : D → Type 0
  Safe d = (durable d path ≡ old) ⊎ (durable d path ≡ some body)

  -- A success that was reported while there is power is one that no power loss takes back.
  abbrev pub Lasts : Result X (Unit {0}) × D → Type 0
  Lasts (ok u, d) = if on d then durable d path ≡ some body else Safe d
  Lasts (err e, d) = Safe d

  -- Nothing of an earlier change of the file is still on its way to the disk.
  abbrev pub Settled : D → Type 0
  Settled d = (durable d path ≡ old) × (written d path ≡ old)

  ended : (d : D) → (on d ≡ true → durable d path ≡ some body) → Safe d → Lasts (ok tt, d)
  ended d lasts safe = elim (Bool-cases (on d)) [
    | inl up ↦ rw up (lasts up)
    | inr off ↦ rw off safe
  ]

  fsync-above :
      (d : D)
      → paths.parent path ≡ some dir
      → fsync_parent_dir_with_fs paths fs path d ≡ (fs.open_and_sync_dir dir d).1
  unfolding fsync_parent_dir_with_fs
  fsync-above d above = rw (above, fsync_parent_dir_with_fs) refl

  publish-Lasts :
      (d : D)
      → IsWriteBack paths fs written durable on
      → tmp_of paths path ≢ path
      → paths.parent path ≡ some dir
      → written d (tmp_of paths path) ≡ some body
      → Settled d
      → Lasts (publish paths fs path d)
  unfolding publish
  publish-Lasts d law apart above synced s =
      let tmp = tmp_of paths path in
      let moved = fs.rename tmp path d in
      let now = law.rename-durable tmp path d in
      elim (Result-cases moved.0) [
        | inr (e, q) ↦
            rw (q, publish)
              (ground (
                arith,
                s,
                synced,
                now,
                law.rename-err tmp path d e q,
                law.remove-durable tmp path moved.1 apart,
              ))
        | inl (u, q) ↦
            let here = law.rename-ok tmp path d q in
            rw (q, publish)
              (subst (λ last. Lasts (ok tt, last)) (sym (fsync-above moved.1 above))
                (ended (fs.open_and_sync_dir dir moved.1).1
                  (λ up. law.sync_dir-on dir path moved.1 above up ∙ here ∙ synced)
                  (ground (arith, s, synced, now, here, law.sync_dir-durable dir path moved.1))))
      ]

  write_and_publish-Lasts :
      (mode : Option ℕ) (d : D)
      → IsWriteBack paths fs written durable on
      → tmp_of paths path ≢ path
      → paths.parent path ≡ some dir
      → Settled d
      → Lasts (write_and_publish paths fs path body mode d)
  unfolding write_and_publish
  write_and_publish-Lasts mode d law apart above s =
      let tmp = tmp_of paths path in
      let wrote = fs.write_then_sync tmp body mode d in
      let same = law.write-written tmp path body mode d apart in
      let kept = law.write-durable tmp path body mode d apart in
      elim (Result-cases wrote.0) [
        | inr (e, q) ↦
            rw (q, write_and_publish)
              (ground (arith, s, same, kept, law.remove-durable tmp path wrote.1 apart))
        | inl (u, q) ↦
            rw (q, write_and_publish)
              (publish-Lasts wrote.1 law apart above (law.write-ok tmp body mode d q)
                (ground (arith, s, same, kept)))
      ]

  ensure_parent-Settled :
      (d : D)
      → IsWriteBack paths fs written durable on
      → Settled d
      → Settled (ensure_parent paths fs path d).1
  unfolding ensure_parent
  ensure_parent-Settled d law s = elim (Option-cases (paths.parent path)) [
    | inl n ↦ rw (n, ensure_parent) s
    | inr (up, q) ↦
        ground
          (arith, q, s, law.create_dir_all-written up path d, law.create_dir_all-durable up path d)
  ]

  pub atomic_write-Lasts :
      (mode : Option ℕ) (d : D)
      → IsWriteBack paths fs written durable on
      → tmp_of paths path ≢ path
      → paths.parent path ≡ some dir
      → Settled d
      → Lasts (atomic_write_bytes_with_fs_mode paths fs path body mode d)
  unfolding atomic_write_bytes_with_fs_mode
  atomic_write-Lasts mode d law apart above s =
      let made = ensure_parent paths fs path d in
      let settled = ensure_parent-Settled d law s in
      elim (Result-cases made.0) [
        | inr (e, q) ↦ rw (q, atomic_write_bytes_with_fs_mode) (inl settled.0)
        | inl (u, q) ↦
            rw (q, atomic_write_bytes_with_fs_mode)
              (write_and_publish-Lasts mode made.1 law apart above settled)
      ]
